-- ===== src/Iam/Lockout.antt =====
-- The lock on an account after wrong passwords.
use pivotal.Base.{
  ℕ, suc, ◌+◌, ◌*◌, ◌≡◌, ◌≤◌, ◌<◌, refl, sym, ap, subst, ◌∙◌, Bool, true, false, none, some, List,
  [], ◌∷◌, ◌++◌, ◌==◌, leb, ltb, arith, All, length, inl, inr, Bool-cases, find-update_same, String,
  str_eq, ==_refl, err,
}
use pivotal.Iam.{User, Store, find_by_email, update_user_row}
use pivotal.Iam.Sessions.{
  AuthDomainSettings, Fresh, account_locked, handle_failed_attempt, failed, login_user, login,
  remaining_lockout_minutes,
}

pub record Attempt : Type 0 where
  pub at : ℕ
  pub password : String

pub row_by_email :
    (email : String) (f : User → User) (s : Store) {u : User}
    → ((x : User) → str_eq (f x).email email ≡ str_eq x.email email)
    → find_by_email email s ≡ some u
    → find_by_email email (update_user_row u.id f s) ≡ some (f u)
unfolding find_by_email update_user_row
row_by_email email f s {u} keeps found =
    find-update_same (λ x. str_eq x.email email) (λ x. x.id == u.id) f keeps s.users found
      (==_refl u.id)

abbrev pub counted : User → User
counted u = record u { failed_login_attempts = u.failed_login_attempts + 1 }

-- The end of a lock that is set at a time, as the database keeps it.
abbrev pub locked_at : AuthDomainSettings → (ℕ → ℕ) → ℕ → ℕ
locked_at settings to_datetime now =
    to_datetime (now + settings.login_lockout_duration_minutes * 60 * 1000)

module _ (settings : AuthDomainSettings) (fresh : Fresh) (verify : String → String → Bool)
    (email : String) where
  pub login-found :
      (now : ℕ) (password : String) (s : Store) {u : User}
      → find_by_email email s ≡ some u
      → login now settings fresh verify email password s
        ≡ login_user now settings fresh verify password u s
  unfolding login
  login-found now password s found = rw (found, login) refl

  login-wrong :
      (now : ℕ) (password : String) (s : Store) {u : User}
      → find_by_email email s ≡ some u
      → u.is_active ≡ true
      → u.locked_until ≡ none
      → verify password u.password_hash ≡ false
      → login now settings fresh verify email password s
        ≡ failed settings (handle_failed_attempt now settings u.id (u.failed_login_attempts + 1) s)
  unfolding login_user
  login-wrong now password s {u} found on free wrong =
      login-found now password s found ∙ rw (on, free, wrong) refl

  -- One more wrong password, below the threshold or at it.
  attempt-below :
      (now : ℕ) (s : Store) {u : User}
      → find_by_email email s ≡ some u
      → u.failed_login_attempts + 1 < settings.login_lockout_threshold
      → find_by_email email
          (handle_failed_attempt now settings u.id (u.failed_login_attempts + 1) s).0
        ≡ some (counted u)
  unfolding handle_failed_attempt
  attempt-below now s {u} found below =
      let no : leb settings.login_lockout_threshold (u.failed_login_attempts + 1) ≡ false =
        ground arith in
      rw no (row_by_email email counted s (λ x. refl) found)

  attempt-at :
      (now : ℕ) (s : Store) {u : User}
      → find_by_email email s ≡ some u
      → settings.login_lockout_threshold ≤ u.failed_login_attempts + 1
      → find_by_email email
          (handle_failed_attempt now settings u.id (u.failed_login_attempts + 1) s).0
        ≡ some (record (counted u) { locked_until = some (locked_at settings s.to_datetime now) })
  unfolding handle_failed_attempt
  attempt-at now s {u} found reached =
      let yes : leb settings.login_lockout_threshold (u.failed_login_attempts + 1) ≡ true =
        ground arith in
      rw yes (row_by_email email _ _ (λ x. refl) (row_by_email email counted s (λ x. refl) found))

  -- The sign-in requests of one account one after the other.
  abbrev pub login_all : List Attempt → Store → Store
  login_all [] s = s
  login_all (a ∷ later) s = login_all later (login a.at settings fresh verify email a.password s).0

  abbrev pub IsWrongFor : User → Attempt → Type 0
  IsWrongFor u a = verify a.password u.password_hash ≡ false

  wrong-below :
      (now : ℕ) (password : String) (s : Store) {u : User}
      → find_by_email email s ≡ some u
      → u.is_active ≡ true
      → u.locked_until ≡ none
      → verify password u.password_hash ≡ false
      → u.failed_login_attempts + 1 < settings.login_lockout_threshold
      → find_by_email email (login now settings fresh verify email password s).0 ≡ some (counted u)
  wrong-below now password s {u} found on free wrong below =
      subst (λ o. find_by_email email o.0 ≡ some (counted u))
        (sym (login-wrong now password s found on free wrong)) (attempt-below now s found below)

  attempt-to_datetime :
      (now id attempts : ℕ) (s : Store)
      → (handle_failed_attempt now settings id attempts s).0.to_datetime ≡ s.to_datetime
  unfolding handle_failed_attempt update_user_row
  attempt-to_datetime now id attempts s =
      elim (Bool-cases (leb settings.login_lockout_threshold attempts)) [
        | inl reached ↦ rw reached refl
        | inr below ↦ rw below refl
      ]

  wrong-to_datetime :
      (now : ℕ) (password : String) (s : Store) {u : User}
      → find_by_email email s ≡ some u
      → u.is_active ≡ true
      → u.locked_until ≡ none
      → verify password u.password_hash ≡ false
      → (login now settings fresh verify email password s).0.to_datetime ≡ s.to_datetime
  wrong-to_datetime now password s {u} found on free wrong =
      ap (λ o. o.0.to_datetime) (login-wrong now password s found on free wrong)
      ∙ attempt-to_datetime now u.id (u.failed_login_attempts + 1) s

  abbrev locked_row : (ℕ → ℕ) → User → ℕ → User
  locked_row to_datetime u now = record u {
    failed_login_attempts = settings.login_lockout_threshold;
    locked_until = some (locked_at settings to_datetime now);
  }

  login_all-locks :
      (wrong : List Attempt) (last : Attempt) (s : Store) (u : User)
      → find_by_email email s ≡ some u
      → u.is_active ≡ true
      → u.locked_until ≡ none
      → u.failed_login_attempts + suc (length wrong) ≡ settings.login_lockout_threshold
      → All (IsWrongFor u) (wrong ++ last ∷ [])
      → find_by_email email (login_all (wrong ++ last ∷ []) s)
        ≡ some (locked_row s.to_datetime u last.at)
  login_all-locks [] last s u found on free count (w, _) =
      let reached = attempt-at last.at s found (omega (arith, count)) in
      let total : u.failed_login_attempts + 1 ≡ settings.login_lockout_threshold =
        omega (arith, count) in
      subst (λ o. find_by_email email o.0 ≡ some (locked_row s.to_datetime u last.at))
        (sym (login-wrong last.at last.password s found on free w))
        (reached
          ∙ ap
              (λ k.
                some (record (locked_row s.to_datetime u last.at) { failed_login_attempts = k }))
              total)
  login_all-locks (a ∷ wrong) last s u found on free count (w, ws) =
      let rest =
        login_all-locks wrong last _ (counted u)
          (wrong-below a.at a.password s found on free w (omega (arith, count))) on free
          (omega (arith, count)) ws in
      rest
      ∙ ap (λ d. some (locked_row d u last.at))
          (wrong-to_datetime a.at a.password s found on free w)

  login-locked :
      (now : ℕ) (password : String) (s : Store) {u : User} {until : ℕ}
      → find_by_email email s ≡ some u
      → u.is_active ≡ true
      → u.locked_until ≡ some until
      → now < until
      → login now settings fresh verify email password s
        ≡ (s, err (account_locked (remaining_lockout_minutes until now)))
  unfolding login_user
  login-locked now password s {u} {until} found on lock before =
      let after : ltb now until ≡ true = ground arith in
      login-found now password s found ∙ rw (on, lock, after) refl

  -- Wrong passwords that bring the counter of an active, unlocked account to the threshold lock it:
  -- until the end of the lockout since the last of them, as the database keeps it in its column, a request with any password is refused with
  -- the minutes left and changes nothing.
  pub login-lockout :
      (wrong : List Attempt) (last next : Attempt) (s : Store) (u : User)
      → find_by_email email s ≡ some u
      → u.is_active ≡ true
      → u.locked_until ≡ none
      → u.failed_login_attempts + suc (length wrong) ≡ settings.login_lockout_threshold
      → All (IsWrongFor u) (wrong ++ last ∷ [])
      → next.at < locked_at settings s.to_datetime last.at
      → login next.at settings fresh verify email next.password (login_all (wrong ++ last ∷ []) s)
        ≡ (
          login_all (wrong ++ last ∷ []) s,
          err (
              account_locked
                (remaining_lockout_minutes (locked_at settings s.to_datetime last.at) next.at)),
        )
  login-lockout wrong last next s u found on free count ws before =
      login-locked next.at next.password _ (login_all-locks wrong last s u found on free count ws)
        on refl before
