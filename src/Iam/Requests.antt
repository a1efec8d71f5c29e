-- ===== src/Iam/Requests.antt =====
-- Requests on sessions in any order: how many live tokens a family has.
use pivotal.Base.{
  ℕ, ◌+◌, ◌≡◌, ◌≤◌, refl, Bool, false, ◌&&◌, none, List, [], ◌∷◌, ◌==◌, leb, if◌then◌else◌, arith,
  count, count-update_le, String, inl, inr, Bool-cases, Option-cases,
}
use pivotal.Iam.{
  User, Role, Store, find_role, find_by_email, find_by_token_hash, update_user_row,
  revoke_all_for_user, is_none, revoke,
}
use pivotal.Iam.Sessions.{
  AuthDomainSettings, Fresh, handle_failed_attempt, record_successful_login, start_session,
  login_user, login, refresh_tokens, logout, is_after, new_token, issue_refresh_token,
}
use pivotal.Iam.Rotation.{live_in, save-live, mark-live_le, refresh_tokens-live}

-- A request with the clock's reading and what the generators draw for it.
pub data Request : Type 0 where
  signs_in : (at : ℕ) (fresh : Fresh) (email password : String) → Request
  refreshes : (at : ℕ) (fresh : Fresh) (hash : String) → Request
  signs_out : (at : ℕ) (hash : String) (all_devices : Bool) → Request

module _ (settings : AuthDomainSettings) (verify : String → String → Bool) where
  abbrev pub serve : Request → Store → Store
  serve (signs_in at fresh email password) s = (login at settings fresh verify email password s).0
  serve (refreshes at fresh hash) s = (refresh_tokens at settings fresh hash s).0
  serve (signs_out at hash all_devices) s = (logout at hash all_devices s).0

  abbrev pub serve_all : List Request → Store → Store
  serve_all [] s = s
  serve_all (r ∷ rs) s = serve_all rs (serve r s)

-- A sign-in that would open the family.
abbrev pub opens : ℕ → Request → Bool
opens family (signs_in at fresh email password) = fresh.family_id == family
opens family (refreshes at fresh hash) = false
opens family (signs_out at hash all_devices) = false

abbrev one_if : Bool → ℕ
one_if b = if b then 1 else 0

failed-live :
    (now : ℕ) (settings : AuthDomainSettings) (id attempts family : ℕ) (s : Store)
    → live_in family (handle_failed_attempt now settings id attempts s).0 ≡ live_in family s
unfolding handle_failed_attempt update_user_row
failed-live now settings id attempts family s =
    elim (Bool-cases (leb settings.login_lockout_threshold attempts)) [
      | inl reached ↦ rw reached refl
      | inr below ↦ rw below refl
    ]

start_session-live :
    (now : ℕ) (settings : AuthDomainSettings) (fresh : Fresh) (user : User) (role : Role)
    (family : ℕ) (s : Store)
    → live_in family (start_session now settings fresh user role s).0
      ≤ live_in family s + one_if (fresh.family_id == family)
unfolding record_successful_login update_user_row
start_session-live now settings fresh user role family s =
    let saved =
      save-live family
        (new_token fresh user.id fresh.family_id (issue_refresh_token now settings none))
        (record_successful_login now user.id s) in
    ground (arith, saved)

login_user-live :
    (now : ℕ) (settings : AuthDomainSettings) (fresh : Fresh) (verify : String → String → Bool)
    (password : String) (user : User) (family : ℕ) (s : Store)
    → live_in family (login_user now settings fresh verify password user s).0
      ≤ live_in family s + one_if (fresh.family_id == family)
unfolding login_user find_role
login_user-live now settings fresh verify password user family s =
    elim (Bool-cases user.is_active) [
      | inr off ↦ rw off (omega arith)
      | inl on ↦ elim (Bool-cases (is_after user.locked_until now)) [
        | inl locked ↦ rw (on, locked) (omega arith)
        | inr free ↦ elim (Bool-cases (verify password user.password_hash)) [
          | inr wrong ↦
              rw (on, free, wrong)
                (omega (
                  arith,
                  failed-live now settings user.id (user.failed_login_attempts + 1) family s,
                ))
          | inl right ↦ elim (Option-cases (find_role user.role_id s)) [
            | inl gone ↦ rw (on, free, right, gone) (omega arith)
            | inr (role, known) ↦
                rw (on, free, right, known)
                  (start_session-live now settings fresh user role family s)
          ]
        ]
      ]
    ]

login-live :
    (now : ℕ) (settings : AuthDomainSettings) (fresh : Fresh) (verify : String → String → Bool)
    (email password : String) (family : ℕ) (s : Store)
    → live_in family (login now settings fresh verify email password s).0
      ≤ live_in family s + one_if (fresh.family_id == family)
unfolding login
login-live now settings fresh verify email password family s =
    elim (Option-cases (find_by_email email s)) [
      | inl gone ↦ rw (gone, login) (omega arith)
      | inr (u, found) ↦
          rw (found, login) (login_user-live now settings fresh verify password u family s)
    ]

revoke_all-live_le :
    (now id family : ℕ) (s : Store)
    → live_in family (revoke_all_for_user now id s) ≤ live_in family s
unfolding revoke_all_for_user
revoke_all-live_le now id family s =
    count-update_le (λ t. t.family_id == family && is_none t.revoked_at)
      (λ t. t.user_id == id && is_none t.revoked_at) (revoke now) (λ t _ _. ground arith)
      s.refresh_tokens

logout-live :
    (now : ℕ) (hash : String) (all_devices : Bool) (family : ℕ) (s : Store)
    → live_in family (logout now hash all_devices s).0 ≤ live_in family s
unfolding logout
logout-live now hash all_devices family s = elim (Option-cases (find_by_token_hash hash s)) [
  | inl gone ↦ rw (gone, logout) (omega arith)
  | inr (t, found) ↦ elim (Bool-cases all_devices) [
    | inl every ↦ rw (found, every, logout) (revoke_all-live_le now t.user_id family s)
    | inr this_one ↦ elim (Bool-cases (is_none t.revoked_at)) [
      | inl live ↦ rw (found, this_one, live, logout) (mark-live_le now t.id family none s)
      | inr dead ↦ rw (found, this_one, dead, logout) (omega arith)
    ]
  ]
]

serve-live :
    (settings : AuthDomainSettings) (verify : String → String → Bool) (r : Request) (family : ℕ)
    (s : Store)
    → live_in family (serve settings verify r s) ≤ live_in family s + one_if (opens family r)
serve-live settings verify (signs_in at fresh email password) family s =
    login-live at settings fresh verify email password family s
serve-live settings verify (refreshes at fresh hash) family s =
    omega (arith, refresh_tokens-live at settings fresh hash s family)
serve-live settings verify (signs_out at hash all_devices) family s =
    omega (arith, logout-live at hash all_devices family s)

-- Whatever the requests are and in whatever order they come, a family never has more live tokens
-- than it had plus one for each sign-in request that opens it.
pub serve_all-live :
    (settings : AuthDomainSettings) (verify : String → String → Bool) (rs : List Request)
    (family : ℕ) (s : Store)
    → live_in family (serve_all settings verify rs s) ≤ live_in family s + count (opens family) rs
serve_all-live settings verify [] family s = omega arith
serve_all-live settings verify (r ∷ rs) family s =
    let first = serve-live settings verify r family s in
    let rest = serve_all-live settings verify rs family (serve settings verify r s) in
    ground (arith, first, rest)
