-- ===== src/Iam/Managers.antt =====
-- Counting the active users who may manage users, before and after a change of a row.
use pivotal.Base.{
  ℕ, ◌≡◌, refl, ◌∙◌, Bool, true, false, not, ◌&&◌, some, List, [], ◌∷◌, ◌==◌, inl, inr, arith, All,
  any, find, count, update_where, Bool-cases, eq_of_some, or_true, ==_iff,
}
use pivotal.Iam.{
  User, Store, admin_users_manage, includes, find_user, find_permission_keys_by_role_id,
  count_active_users_granting_permission, update_user_row, invalidate_tokens,
}

-- Rows with pairwise different ids: the primary key.
abbrev pub HasUniqueIds : List User → Type 0
HasUniqueIds [] = Unit
HasUniqueIds (u ∷ us) = All (λ v. (v.id == u.id) ≡ false) us × HasUniqueIds us

module _ {ℓ} {A : Type ℓ} where
  pub count-any : (p : A → Bool) (xs : List A) → (count p xs == 0) ≡ not (any p xs)
  count-any p [] = refl
  count-any p (x ∷ xs) = ground (arith, count-any p xs)

  -- An update that `m` does not see changes no answer about `m`.
  pub any-update_where :
      (m p : A → Bool) (f : A → A)
      → ((x : A) → m (f x) ≡ m x)
      → (xs : List A) → any m (update_where p f xs) ≡ any m xs
  any-update_where m p f h [] = refl
  any-update_where m p f h (x ∷ xs) = ground (arith, h x, any-update_where m p f h xs)

  -- Whoever is not updated still counts.
  any_other-update :
      (m p : A → Bool) (f : A → A) (xs : List A)
      → any (λ x. m x && not (p x)) xs ≡ true
      → any m (update_where p f xs) ≡ true
  any_other-update m p f [] h = cc
  any_other-update m p f (x ∷ xs) h = ground (arith, any_other-update m p f xs)

  any-update_found :
      (m p : A → Bool) (f : A → A) (xs : List A) {t : A}
      → find p xs ≡ some t
      → m (f t) ≡ true
      → any m (update_where p f xs) ≡ true
  any-update_found m p f [] e h = cc
  any-update_found m p f (x ∷ xs) {t} e h = elim (Bool-cases (p x)) [
    | inl same ↦ let it : x ≡ t = eq_of_some (rw same at e) in rw (same, it, h)
    | inr other ↦ rw (other, any-update_found m p f xs (rw other at e) h) (or_true (m x))
  ]

  any_none-other :
      (m p : A → Bool) (xs : List A)
      → All (λ v. p v ≡ false) xs
      → any m xs ≡ true
      → any (λ x. m x && not (p x)) xs ≡ true
  any_none-other m p [] d h = h
  any_none-other m p (x ∷ xs) (n, d) h = ground (arith, any_none-other m p xs d)

-- If the user found does not count, another does.
pub any-other :
    (m : User → Bool) (id : ℕ) (us : List User) {t : User}
    → HasUniqueIds us
    → any m us ≡ true
    → find (λ u. u.id == id) us ≡ some t
    → m t ≡ false
    → any (λ u. m u && not (u.id == id)) us ≡ true
any-other m id [] d h e n = cc
any-other m id (u ∷ us) {t} (d, ds) h e n = elim (Bool-cases (u.id == id)) [
  | inl same ↦
      let it : u ≡ t = eq_of_some (rw same at e) in
      let idle : m u ≡ false = rw it n in
      let key : u.id ≡ id = (==_iff u.id id).0 same in
      rw idle (any_none-other m (λ v. v.id == id) us (rw key at d) (rw idle at h))
  | inr other ↦ elim (Bool-cases (m u)) [
    | inl yes_m ↦ rw (yes_m, other)
    | inr no_m ↦ rw (no_m, any-other m id us ds (rw no_m at h) (rw other at e) n)
  ]
]

-- An active user whose role grants the key `admin.users.manage`.
abbrev pub grants : Store → ℕ → Bool
grants s role_id = includes admin_users_manage (find_permission_keys_by_role_id role_id s)

abbrev pub is_manager : Store → User → Bool
is_manager s u = u.is_active && grants s u.role_id

abbrev pub has_active_manager : Store → Bool
has_active_manager s = any (is_manager s) s.users

-- The count that the guards ask for is zero exactly where no other user is an active manager.
pub count_active-any :
    (id : ℕ) (s : Store)
    → (count_active_users_granting_permission admin_users_manage id s == 0)
      ≡ not (any (λ u. is_manager s u && not (u.id == id)) s.users)
unfolding count_active_users_granting_permission
count_active-any id s = count-any (λ u. is_manager s u && not (u.id == id)) s.users

-- What the handlers do after their checks: rewrite the row, revoke sessions, invalidate tokens.
module _ (now id : ℕ) (s : Store) (f : User → User) where
  abbrev stamp : User → User
  stamp u = record u { tokens_invalidated_at = some now }

  invalidate-manager :
      (us : List User)
      → any (is_manager s) (update_where (λ u. u.id == id) stamp us) ≡ any (is_manager s) us
  invalidate-manager = any-update_where (is_manager s) (λ u. u.id == id) stamp (λ u. refl)

  -- The change keeps an active manager if another user is one, or the changed user still is.
  pub change-other :
      any (λ u. is_manager s u && not (u.id == id)) s.users ≡ true
      → has_active_manager (invalidate_tokens now id (update_user_row id f s)) ≡ true
  unfolding invalidate_tokens update_user_row find_permission_keys_by_role_id
  change-other h =
      invalidate-manager (update_where (λ u. u.id == id) f s.users)
      ∙ any_other-update (is_manager s) (λ u. u.id == id) f s.users h

  pub change-found :
      {t : User}
      → find_user id s ≡ some t
      → is_manager s (f t) ≡ true
      → has_active_manager (invalidate_tokens now id (update_user_row id f s)) ≡ true
  unfolding invalidate_tokens update_user_row find_permission_keys_by_role_id find_user
  change-found e h =
      invalidate-manager (update_where (λ u. u.id == id) f s.users)
      ∙ any-update_found (is_manager s) (λ u. u.id == id) f s.users e h
