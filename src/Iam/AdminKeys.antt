-- ===== src/Iam/AdminKeys.antt =====
-- The keys that a role holds, before and after its permissions are replaced.
use pivotal.Base.{
  ℕ, ◌≡◌, refl, sym, subst, ◌∙◌, Bool, true, false, not, ◌&&◌, ◌||◌, some, List, [], ◌∷◌, ◌++◌,
  ◌==◌, ==_refl, map, any, length, find, filter, String, str_eq, eq_iff, inl, inr, Bool-cases,
  arith, ok, throw_if, or_throw, on_ok, ok_of_or_throw, ok_of_throw_if, eq_of_ok, eq_of_some,
  find-satisfies,
}
use pivotal.Iam.{
  Role, Permission, RolePermission, Store, includes, find_role, find_permission_keys_by_role_id,
  keys_of_role, keys_of_permission,
}
use pivotal.Iam.Policy.{
  role_not_found, role_cannot_remove_admin_key, role_permission_scope_mismatch,
  permission_not_found,
}
use pivotal.Iam.Roles.{
  dedupe, is_admin_key, find_by_key_names, is_locked_role, removes_admin_key, fits_scope,
  replace_for_role, invalidate_tokens_for_role, replace_role_permissions,
}

-- The keys of one permission, and of a role, read off the table.
keys_of_permission-any :
    (key : String) (id : ℕ) (ps : List Permission)
    → includes key (keys_of_permission id ps) ≡ any (λ p. p.id == id && str_eq p.key_name key) ps
unfolding keys_of_permission
keys_of_permission-any key id [] = refl
keys_of_permission-any key id (p ∷ ps) = ground (arith, keys_of_permission-any key id ps)

module _ {ℓ} {A : Type ℓ} where
  any-append : (p : A → Bool) (xs ys : List A) → any p (xs ++ ys) ≡ (any p xs || any p ys)
  any-append p [] ys = refl
  any-append p (x ∷ xs) ys = ground (arith, any-append p xs ys)

  any-find : (p : A → Bool) (xs : List A) → any p xs ≡ true → (x : A) × (find p xs ≡ some x)
  any-find p [] h = cc h
  any-find p (x ∷ xs) h = elim (Bool-cases (p x)) [
    | inl here ↦ (x, rw here refl)
    | inr later ↦ let rest = any-find p xs (rw later at h) in (rest.0, rw later rest.1)
  ]

  any-filter :
      (p q r : A → Bool) (xs : List A) {x : A}
      → find p xs ≡ some x
      → q x ≡ true
      → r x ≡ true
      → any q (filter r xs) ≡ true
  any-filter p q r [] e k l = cc e
  any-filter p q r (y ∷ ys) {x} e k l = elim (Bool-cases (p y)) [
    | inl here ↦ let it : y ≡ x = eq_of_some (rw here at e) in rw (it, l, k) refl
    | inr later ↦ ground (arith, any-filter p q r ys (rw later at e) k l)
  ]

  any-found :
      (p q : A → Bool) (xs : List A) {x : A} → find p xs ≡ some x → q x ≡ true → any q xs ≡ true
  any-found p q [] e k = cc e
  any-found p q (y ∷ ys) {x} e k = elim (Bool-cases (p y)) [
    | inl here ↦ let it : y ≡ x = eq_of_some (rw here at e) in rw (it, k) refl
    | inr later ↦ ground (arith, any-found p q ys (rw later at e) k)
  ]

  any-weaken :
      (p q : A → Bool)
      → ((x : A) → p x ≡ true → q x ≡ true)
      → (xs : List A) → any p xs ≡ true
      → any q xs ≡ true
  any-weaken p q h [] k = cc k
  any-weaken p q h (x ∷ xs) k = ground (arith, h x, any-weaken p q h xs)

key_of_role :
    (key : String) (id : ℕ) (ps : List Permission) (rps : List RolePermission)
    → includes key (keys_of_role id ps rps) ≡ true
    → any (λ p. str_eq p.key_name key) ps ≡ true
unfolding keys_of_role
key_of_role key id ps [] h = cc h
key_of_role key id ps (rp ∷ rps) h = elim (Bool-cases (rp.role_id == id)) [
  | inr other ↦ key_of_role key id ps rps (rw other at h)
  | inl own ↦
      let both =
        any-append (λ k. str_eq k key) (keys_of_permission rp.permission_id ps)
          (keys_of_role id ps rps) in
      elim (Bool-cases (includes key (keys_of_permission rp.permission_id ps))) [
        | inl here ↦
            any-weaken (λ p. p.id == rp.permission_id && str_eq p.key_name key)
              (λ p. str_eq p.key_name key) (λ p k. ground arith) ps
              (sym (keys_of_permission-any key rp.permission_id ps) ∙ here)
        | inr later ↦ key_of_role key id ps rps (sym (both ∙ rw later refl) ∙ rw own at h)
      ]
]

-- The keys that a role holds once permissions are granted to it.
granted_key :
    (key : String) (id : ℕ) (ps granted : List Permission)
    → any (λ p. any (λ q. q.id == p.id && str_eq q.key_name key) ps) granted ≡ true
    → includes key
        (keys_of_role id ps (map (λ p. record { role_id = id; permission_id = p.id }) granted))
      ≡ true
unfolding keys_of_role
granted_key key id ps [] h = cc h
granted_key key id ps (p ∷ gs) h =
    let rest = keys_of_role id ps (map (λ p. record { role_id = id; permission_id = p.id }) gs) in
    let own = ==_refl id in
    let both = any-append (λ k. str_eq k key) (keys_of_permission p.id ps) rest in
    let first = keys_of_permission-any key p.id ps in
    rw own (both ∙ ground (arith, first, granted_key key id ps gs))

kept_key :
    (key : String) (current next : List String)
    → is_admin_key key ≡ true
    → removes_admin_key current next ≡ false
    → includes key current ≡ true
    → includes key next ≡ true
kept_key key [] next a r h = cc h
kept_key key (k ∷ ks) next a r h = elim (Bool-cases (str_eq k key)) [
  | inl same ↦ let it : k ≡ key = (eq_iff k key).0 same in ground (arith, rw it at r)
  | inr other ↦ kept_key key ks next a (ground arith) (rw other at h)
]

keys_of_role-append :
    (key : String) (id : ℕ) (ps : List Permission) (xs ys : List RolePermission)
    → includes key (keys_of_role id ps ys) ≡ true
    → includes key (keys_of_role id ps (xs ++ ys)) ≡ true
unfolding keys_of_role
keys_of_role-append key id ps [] ys h = h
keys_of_role-append key id ps (rp ∷ xs) ys h =
    let both =
      any-append (λ k. str_eq k key) (keys_of_permission rp.permission_id ps)
        (keys_of_role id ps (xs ++ ys)) in
    let rest = keys_of_role-append key id ps xs ys h in
    elim (Bool-cases (rp.role_id == id)) [
      | inr other ↦ rw other rest
      | inl own ↦ rw own (both ∙ ground (arith, rest))
    ]

table_key :
    (key : String) (id : ℕ) (s : Store)
    → includes key (find_permission_keys_by_role_id id s) ≡ true
    → any (λ p. str_eq p.key_name key) s.permissions ≡ true
unfolding find_permission_keys_by_role_id
table_key key id s held = key_of_role key id s.permissions s.role_permissions held

-- A permission of the table with a wanted key is granted, and its key is then the role's.
replaced_key :
    (key : String) (now id : ℕ) (wanted : List String) (s : Store)
    → any (λ p. str_eq p.key_name key) s.permissions ≡ true
    → includes key wanted ≡ true
    → includes key (
        find_permission_keys_by_role_id id
          (invalidate_tokens_for_role now id (replace_for_role id (find_by_key_names wanted s) s)))
      ≡ true
unfolding find_permission_keys_by_role_id invalidate_tokens_for_role replace_for_role
    find_by_key_names
replaced_key key now id wanted s h w =
    let (x, found) = any-find (λ p. str_eq p.key_name key) s.permissions h in
    let named : str_eq x.key_name key ≡ true =
      find-satisfies (λ p. str_eq p.key_name key) s.permissions found in
    let name : x.key_name ≡ key = (eq_iff x.key_name key).0 named in
    let listed : any (λ q. q.id == x.id && str_eq q.key_name key) s.permissions ≡ true =
      any-found (λ p. str_eq p.key_name key) (λ q. q.id == x.id && str_eq q.key_name key)
        s.permissions found (ground (arith, ==_refl x.id)) in
    keys_of_role-append key id s.permissions
      (filter (λ rp. not (rp.role_id == id)) s.role_permissions) _
      (granted_key key id s.permissions _ (
        any-filter (λ p. str_eq p.key_name key)
          (λ p. any (λ q. q.id == p.id && str_eq q.key_name key) s.permissions)
          (λ p. includes p.key_name wanted) s.permissions found listed (rw name w)))

-- `replace_role_permissions` takes no key that begins with `admin.` from a system role with the code
-- ADMIN or DFSP_ADMIN.
pub replace_role_permissions-includes :
    (now role_id : ℕ) (wanted : List String) (s s' : Store) (role : Role) (key : String)
    → replace_role_permissions now role_id wanted s ≡ ok s'
    → find_role role_id s ≡ some role
    → is_locked_role role ≡ true
    → is_admin_key key ≡ true
    → includes key (find_permission_keys_by_role_id role.id s) ≡ true
    → includes key (find_permission_keys_by_role_id role.id s') ≡ true
unfolding replace_role_permissions
replace_role_permissions-includes now role_id wanted s s' role key h is_there locked admin held =
    on_ok (or_throw (find_role role_id s) role_not_found) _ h λ found there h.
      let same : found ≡ role =
        eq_of_some (sym (ok_of_or_throw _ role_not_found there) ∙ is_there) in
      let resolved = find_by_key_names (dedupe wanted) s in
      on_ok (throw_if (not (length resolved == length (dedupe wanted))) permission_not_found) _ h
        λ _ _ h.
          on_ok
            (throw_if (any (λ p. not (fits_scope p.scope found.scope)) resolved)
              role_permission_scope_mismatch)
            _ h
            λ _ _ h.
              on_ok
                (throw_if
                  (is_locked_role found
                    && removes_admin_key (find_permission_keys_by_role_id found.id s)
                        (dedupe wanted))
                  role_cannot_remove_admin_key)
                _ h
                λ _ guarded h.
                  let guard : (is_locked_role role
                        && removes_admin_key (find_permission_keys_by_role_id role.id s)
                            (dedupe wanted))
                      ≡ false =
                    subst
                      (λ r.
                        (is_locked_role r
                          && removes_admin_key (find_permission_keys_by_role_id r.id s)
                              (dedupe wanted))
                        ≡ false)
                      same (ok_of_throw_if _ role_cannot_remove_admin_key guarded) in
                  let kept =
                    kept_key key (find_permission_keys_by_role_id role.id s) (dedupe wanted) admin
                      (ground (arith, guard)) held in
                  subst (λ t. includes key (find_permission_keys_by_role_id role.id t) ≡ true)
                    (eq_of_ok h)
                    (subst
                      (λ r.
                        includes key (
                          find_permission_keys_by_role_id role.id (
                            invalidate_tokens_for_role now r.id (replace_for_role r.id resolved s)))
                        ≡ true)
                      (sym same)
                      (replaced_key key now role.id (dedupe wanted) s (table_key key role.id s held)
                        kept))
