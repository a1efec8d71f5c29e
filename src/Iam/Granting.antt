-- ===== src/Iam/Granting.antt =====
-- Deleting a role that users may have, and sessions after a change of the own password.
use pivotal.Base.{
  ℕ, ◌/◌, ◌≡◌, ◌≤◌, refl, sym, subst, ◌∙◌, Bool, true, false, not, some, List, [], ◌∷◌, ◌==◌, count,
  find, filter, String, inl, inr, Bool-cases, arith, ok, throw_if, or_throw, on_ok, ok_of_or_throw,
  ok_of_throw_if, eq_of_ok, eq_of_some,
}
use pivotal.Iam.{
  User, Store, find_user, find_role, count_by_role_id, update_user_row, invalidate_tokens,
  revoke_all_for_user,
}
use pivotal.Iam.Policy.{found_active, role_not_found, role_is_system, role_in_use}
use pivotal.Iam.Sessions.{AccessTokenClaims, invalid_credentials, password_same_as_current}
use pivotal.Iam.Roles.{delete_role, change_password}
use pivotal.Iam.Revocation.{Refuses, live_of, cut_off}
use pivotal.Iam.Scope.{found_active-find}
use pivotal.Iam.LastManager.{found_id, found_self}

module _ {ℓ} {A : Type ℓ} where
  count-zero :
      (p : A → Bool) (xs : List A) {x : A} (q : A → Bool)
      → (count p xs == 0) ≡ true
      → find q xs ≡ some x
      → p x ≡ false
  count-zero p [] q h e = cc e
  count-zero p (y ∷ ys) {x} q h e = elim (Bool-cases (q y)) [
    | inl here ↦
        let it : y ≡ x = eq_of_some (rw here at e) in subst (λ z. p z ≡ false) it (ground arith)
    | inr later ↦ count-zero p ys q (ground arith) (rw later at e)
  ]

  find-filter :
      (p q : A → Bool)
      → ((x : A) → q x ≡ false → p x ≡ false)
      → (xs : List A) → find p (filter q xs) ≡ find p xs
  find-filter p q h [] = refl
  find-filter p q h (x ∷ xs) = ground (arith, h x, find-filter p q h xs)

-- A role that a user has is not deleted: after `delete_role` the user's role is found as before.
pub delete_role-find_role :
    (role_id : ℕ) (s s' : Store) (user_id : ℕ) (user : User)
    → delete_role role_id s ≡ ok s'
    → find_user user_id s ≡ some user
    → find_role user.role_id s' ≡ find_role user.role_id s
unfolding delete_role find_role find_user count_by_role_id
delete_role-find_role role_id s s' user_id user h there =
    on_ok (or_throw (find (λ r. r.id == role_id) s.roles) role_not_found) _ h λ role found h.
      on_ok (throw_if role.is_system role_is_system) _ h λ _ _ h.
        on_ok (throw_if (not (count (λ u. u.role_id == role.id) s.users == 0)) role_in_use) _ h
          λ _ unused h.
            let free : (count (λ u. u.role_id == role.id) s.users == 0) ≡ true =
              ground (arith, ok_of_throw_if _ role_in_use unused) in
            let apart : (user.role_id == role.id) ≡ false =
              count-zero (λ u. u.role_id == role.id) s.users (λ u. u.id == user_id) free there in
            subst
              (λ t.
                find (λ r. r.id == user.role_id) t.roles ≡ find (λ r. r.id == user.role_id) s.roles)
              (eq_of_ok h)
              (find-filter (λ r. r.id == user.role_id) (λ r. not (r.id == role.id))
                (λ r gone. ground arith) s.roles)

-- After a change of the own password no refresh token of the user is live, and an access token of
-- the user that was issued up to then is refused.
pub change_password-revokes :
    (now : ℕ) (verify : String → String → Bool) (user_id : ℕ) (current next new_hash : String)
    (s s' : Store) (claims : AccessTokenClaims)
    → change_password now verify user_id current next new_hash s ≡ ok s'
    → claims.sub ≡ user_id
    → claims.iat ≤ now / 1000
    → (live_of user_id s' ≡ 0) × Refuses claims s'
unfolding change_password
change_password-revokes now verify user_id current next new_hash s s' claims h sub old =
    on_ok (or_throw (found_active (find_user user_id s)) invalid_credentials) _ h λ user found h.
      on_ok (throw_if (not (verify current user.password_hash)) invalid_credentials) _ h λ _ _ h.
        on_ok (throw_if (verify next user.password_hash) password_same_as_current) _ h λ _ _ h.
          let there = (found_active-find _ (ok_of_or_throw _ invalid_credentials found)).0 in
          let key : user.id ≡ user_id = found_id user_id s there in
          let change : User → User =
            λ u. record u { password_hash = new_hash; must_change_password = false } in
          let cut =
            cut_off now user.id change s claims (λ x. refl) (found_self user_id s there)
              (sub ∙ sym key) old in
          subst (λ t. (live_of user_id t ≡ 0) × Refuses claims t) (eq_of_ok h)
            (subst (λ k. live_of k (written user.id change) ≡ 0) key cut.0, cut.1)
  where
    written : ℕ → (User → User) → Store
    written id f = invalidate_tokens now id (revoke_all_for_user now id (update_user_row id f s))
