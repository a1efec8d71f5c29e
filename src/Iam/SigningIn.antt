-- ===== src/Iam/SigningIn.antt =====
-- What a request that signs in was checked for, and what it leaves.
use pivotal.Base.{
  ◌+◌, ℕ, ◌≡◌, refl, sym, ap, subst, ◌∙◌, Bool, true, false, none, some, String, inl, inr,
  Bool-cases, Option-cases, ok, eq_of_ok,
}
use pivotal.Iam.{User, Role, Store, find_role, find_by_email, find_permission_keys_by_role_id}
use pivotal.Iam.Sessions.{
  AuthDomainSettings, Fresh, Session, handle_failed_attempt, failed, record_successful_login,
  start_session, login_user, login, is_after, issue_refresh_token, access_token_claims,
}
use pivotal.Iam.Lockout.{row_by_email, login-found}

failed-err :
    (settings : AuthDomainSettings) (r : Store × Bool) {session : Session}
    → (failed settings r).1 ≡ ok session
    → ⊥
failed-err settings (s, locked) h = cc h

abbrev pub signed_in : ℕ → User → User
signed_in now u = record u {
  last_login_at = some now;
  failed_login_attempts = 0;
  locked_until = none;
}

module _ (now : ℕ) (settings : AuthDomainSettings) (fresh : Fresh) (verify : String → String → Bool)
    (email password : String) (s : Store) (user : User) (session : Session) where
  start-row :
      (role : Role)
      → find_by_email email s ≡ some user
      → find_by_email email (start_session now settings fresh user role s).0
        ≡ some (signed_in now user)
  unfolding record_successful_login find_by_email
  start-row role found = row_by_email email (signed_in now) s (λ x. refl) found

  start-claims :
      (role : Role)
      → (start_session now settings fresh user role s).1 ≡ ok session
      → (session.claims.sub ≡ user.id)
        × (session.claims.role ≡ role.code)
        × (session.claims.permissions ≡ find_permission_keys_by_role_id role.id s)
  unfolding issue_refresh_token access_token_claims
  start-claims role h = (
    ap (λ x. x.claims.sub) (sym (eq_of_ok h)),
    ap (λ x. x.claims.role) (sym (eq_of_ok h)),
    ap (λ x. x.claims.permissions) (sym (eq_of_ok h)),
  )

  -- A request that signs in names an active account that is not locked, with its password. The
  -- access token is the account's and carries the code and the permissions of its role, and the
  -- account's counter of failures and lock are cleared.
  pub login-signs_in :
      find_by_email email s ≡ some user
      → (login now settings fresh verify email password s).1 ≡ ok session
      → (user.is_active ≡ true)
        × (is_after user.locked_until now ≡ false)
        × (verify password user.password_hash ≡ true)
        × (session.claims.sub ≡ user.id)
        × ((role : Role) × (find_role user.role_id s ≡ some role)
            × (session.claims.role ≡ role.code)
            × (session.claims.permissions ≡ find_permission_keys_by_role_id role.id s))
        × (find_by_email email (login now settings fresh verify email password s).0
            ≡ some (signed_in now user))
  unfolding login_user
  login-signs_in found h =
      let all = login-found settings fresh verify email now password s found in
      let g = subst (λ o. o.1 ≡ ok session) all h in
      elim (Bool-cases user.is_active) [
        | inr off ↦ cc (rw off at g)
        | inl on ↦ elim (Bool-cases (is_after user.locked_until now)) [
          | inl locked ↦ cc (rw (on, locked) at g)
          | inr free ↦ elim (Bool-cases (verify password user.password_hash)) [
            | inr wrong ↦ absurd (
                failed-err settings
                  (handle_failed_attempt now settings user.id (user.failed_login_attempts + 1) s)
                  (rw (on, free, wrong) at g))
            | inl right ↦ elim (Option-cases (find_role user.role_id s)) [
              | inl gone ↦ cc (rw (on, free, right, gone) at g)
              | inr (role, known) ↦
                  let step : login_user now settings fresh verify password user s
                      ≡ start_session now settings fresh user role s =
                    rw (on, free, right, known) refl in
                  let claims = start-claims role (subst (λ o. o.1 ≡ ok session) step g) in
                  (
                    on,
                    free,
                    right,
                    claims.0,
                    (role, known, claims.1, claims.2),
                    subst (λ o. find_by_email email o.0 ≡ some (signed_in now user))
                        (sym (all ∙ step)) (start-row role found),
                  )
            ]
          ]
        ]
      ]
