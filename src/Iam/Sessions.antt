-- ===== src/Iam/Sessions.antt =====
-- packages/core/auth/domain/command and service: signing in, rotating refresh tokens, signing out,
-- and the guard of packages/apps/web-pivotal on access tokens. A call writes also where it throws, so each
-- returns the store beside its result. `now` is the clock during the call, in milliseconds.
-- Hashing, password comparison and the random parts of a token are arguments.
use pivotal.Base.{
  ℕ, ◌+◌, ◌-◌, ◌*◌, ◌/◌, Bool, true, false, not, ◌||◌, Option, none, some, List, [], ◌∷◌, ◌++◌, ltb,
  leb, if◌then◌else◌, String, Result, ok, err, ◌>>=◌, ◌>>◌, throw_if, or_throw,
}
use Prim.Native.Nat.{min, max}
use pivotal.Iam.{
  User, Role, RefreshToken, Store, find_user, find_by_email, find_role,
  find_permission_keys_by_role_id, update_user_row, find_by_token_hash, mark_revoked, revoke_family,
  revoke_all_for_user, is_none,
}

pub data AuthError : Type 0 where
  invalid_credentials user_inactive unknown_role : AuthError
  -- With the minutes that the message names.
  account_locked : ℕ → AuthError
  invalid_refresh_token refresh_token_reuse : AuthError
  session_expired_absolute session_expired_idle : AuthError
  password_same_as_current token_revoked missing_token invalid_token : AuthError

pub record AuthDomainSettings : Type 0 where
  pub access_token_ttl_seconds : ℕ
  pub session_idle_timeout_minutes : ℕ
  pub session_absolute_timeout_hours : ℕ
  pub login_lockout_threshold : ℕ
  pub login_lockout_duration_minutes : ℕ

-- `issueRefreshToken`: when the token and its session expire.
pub record IssuedRefreshToken : Type 0 where
  pub expires_at : ℕ
  pub session_expires_at : ℕ

abbrev pub or_else : Option ℕ → ℕ → ℕ
or_else none d = d
or_else (some n) d = n

unfoldable pub issue_refresh_token : ℕ → AuthDomainSettings → Option ℕ → IssuedRefreshToken
issue_refresh_token now settings session = record {
  expires_at = min (now + settings.session_idle_timeout_minutes * 60000) deadline;
  session_expires_at = deadline;
}
  where
    deadline : ℕ
    deadline = or_else session (now + settings.session_absolute_timeout_hours * 3600000)

pub record AccessTokenClaims : Type 0 where
  pub sub : ℕ
  pub role : String
  pub fsp_id : Option String
  pub permissions : List String
  pub must_change_password : Bool
  pub iat : ℕ
  pub exp : ℕ

-- The payload that `signAccessToken` signs; times are in seconds.
unfoldable pub access_token_claims :
    ℕ → AuthDomainSettings → User → Role → List String → ℕ → AccessTokenClaims
access_token_claims now settings user role permissions session_expires_at = record {
  sub = user.id;
  role = role.code;
  fsp_id = user.fsp_id;
  permissions = permissions;
  must_change_password = user.must_change_password;
  iat = now / 1000;
  exp = min (now / 1000 + settings.access_token_ttl_seconds) (session_expires_at / 1000);
}

-- What the generators draw for a new token: its id, the family's id and the hash of its text.
pub record Fresh : Type 0 where
  pub id : ℕ
  pub family_id : ℕ
  pub hash : String

abbrev pub new_token : Fresh → ℕ → ℕ → IssuedRefreshToken → RefreshToken
new_token fresh user_id family_id issued = record {
  id = fresh.id;
  user_id = user_id;
  family_id = family_id;
  token_hash = fresh.hash;
  expires_at = issued.expires_at;
  session_expires_at = some issued.session_expires_at;
  revoked_at = none;
  replaced_by = none;
}

abbrev pub save_token : RefreshToken → Store → Store
save_token t s = record s { refresh_tokens = s.refresh_tokens ++ t ∷ [] }

pub record Session : Type 0 where
  pub claims : AccessTokenClaims
  pub token : RefreshToken

abbrev pub Outcome : Type 0
Outcome = Store × Result AuthError Session

-- `Math.max(1, Math.ceil(ms / 60_000))`
abbrev pub remaining_lockout_minutes : ℕ → ℕ → ℕ
remaining_lockout_minutes locked_until now = max 1 ((locked_until - now + 59999) / 60000)

abbrev pub is_after : Option ℕ → ℕ → Bool
is_after none now = false
is_after (some t) now = ltb now t

-- `handleFailedAttempt`: the counter goes up in the database, and at the threshold the account is
-- locked, until a time that the column keeps in its own precision; the flag says whether it was.
unfoldable pub handle_failed_attempt : ℕ → AuthDomainSettings → ℕ → ℕ → Store → Store × Bool
unfolding update_user_row
handle_failed_attempt now settings user_id attempt_count s =
    let counted =
      update_user_row user_id
        (λ u. record u { failed_login_attempts = u.failed_login_attempts + 1 }) s in
    let until = s.to_datetime (now + settings.login_lockout_duration_minutes * 60 * 1000) in
    if leb settings.login_lockout_threshold attempt_count
    then (update_user_row user_id (λ u. record u { locked_until = some until }) counted, true)
    else (counted, false)

abbrev pub failed : AuthDomainSettings → Store × Bool → Outcome
failed settings (s, locked) = (
  s,
  err (
      if locked
      then account_locked settings.login_lockout_duration_minutes
      else invalid_credentials),
)

unfoldable pub record_successful_login : ℕ → ℕ → Store → Store
unfolding update_user_row
record_successful_login now user_id s =
    update_user_row user_id
      (λ u. record u { last_login_at = some now; failed_login_attempts = 0; locked_until = none }) s

abbrev pub start_session : ℕ → AuthDomainSettings → Fresh → User → Role → Store → Outcome
start_session now settings fresh user role s =
    let issued = issue_refresh_token now settings none in
    let token = new_token fresh user.id fresh.family_id issued in
    let permissions = find_permission_keys_by_role_id role.id s in
    (
      save_token token (record_successful_login now user.id s),
      ok (record {
        claims = access_token_claims now settings user role permissions issued.session_expires_at;
        token = token;
      }),
    )

abbrev pub with_role : ℕ → AuthDomainSettings → Fresh → User → Option Role → Store → Outcome
with_role now settings fresh user none s = (s, err unknown_role)
with_role now settings fresh user (some role) s = start_session now settings fresh user role s

-- The checks on the account found, in the handler's order.
unfoldable pub login_user :
    ℕ → AuthDomainSettings → Fresh → (String → String → Bool) → String → User → Store → Outcome
unfolding handle_failed_attempt record_successful_login issue_refresh_token access_token_claims
login_user now settings fresh verify password user s =
    if not user.is_active
    then (s, err user_inactive)
    else if is_after user.locked_until now
    then (s, err (account_locked (remaining_lockout_minutes (or_else user.locked_until 0) now)))
    else if not (verify password user.password_hash)
    then failed settings
        (handle_failed_attempt now settings user.id (user.failed_login_attempts + 1) s)
    else with_role now settings fresh user (find_role user.role_id s) s

unfoldable pub login :
    ℕ → AuthDomainSettings → Fresh → (String → String → Bool) → String → String → Store → Outcome
unfolding login_user
login now settings fresh verify email password s = elim (find_by_email email s) [
  | none ↦ (s, err invalid_credentials)
  | some user ↦ login_user now settings fresh verify password user s
]

-- Rotation: the new token is saved in the family, then the old one is marked as replaced by it.
abbrev pub rotate : ℕ → AuthDomainSettings → Fresh → RefreshToken → User → Role → Store → Outcome
rotate now settings fresh existing user role s =
    let issued = issue_refresh_token now settings existing.session_expires_at in
    let token = new_token fresh user.id existing.family_id issued in
    let permissions = find_permission_keys_by_role_id role.id s in
    (
      mark_revoked now existing.id (some token.id) (save_token token s),
      ok (record {
        claims = access_token_claims now settings user role permissions issued.session_expires_at;
        token = token;
      }),
    )

abbrev pub rotate_role :
    ℕ → AuthDomainSettings → Fresh → RefreshToken → User → Option Role → Store → Outcome
rotate_role now settings fresh existing user none s = (s, err unknown_role)
rotate_role now settings fresh existing user (some role) s =
    rotate now settings fresh existing user role s

abbrev pub rotate_user :
    ℕ → AuthDomainSettings → Fresh → RefreshToken → Option User → Store → Outcome
rotate_user now settings fresh existing none s =
    (revoke_family now existing.family_id s, err invalid_refresh_token)
rotate_user now settings fresh existing (some user) s =
    if not user.is_active
    then (revoke_family now existing.family_id s, err invalid_refresh_token)
    else rotate_role now settings fresh existing user (find_role user.role_id s) s

-- `sessionExpiresAt == null || sessionExpiresAt <= now`
abbrev pub is_over : Option ℕ → ℕ → Bool
is_over none now = true
is_over (some t) now = leb t now

unfoldable pub refresh_token : ℕ → AuthDomainSettings → Fresh → RefreshToken → Store → Outcome
unfolding issue_refresh_token access_token_claims revoke_family mark_revoked find_user find_role
refresh_token now settings fresh existing s =
    if is_over existing.session_expires_at now || leb existing.expires_at now
    then (
      revoke_family now existing.family_id s,
      err (
          if is_over existing.session_expires_at now
          then session_expired_absolute
          else session_expired_idle),
    )
    else if not (is_none existing.revoked_at)
    then (revoke_family now existing.family_id s, err refresh_token_reuse)
    else rotate_user now settings fresh existing (find_user existing.user_id s) s

-- `hash` is the hash of the token that the client sends.
unfoldable pub refresh_tokens : ℕ → AuthDomainSettings → Fresh → String → Store → Outcome
unfolding refresh_token find_by_token_hash
refresh_tokens now settings fresh hash s = elim (find_by_token_hash hash s) [
  | none ↦ (s, err invalid_refresh_token)
  | some existing ↦ refresh_token now settings fresh existing s
]

unfoldable pub logout : ℕ → String → Bool → Store → Store × Bool
unfolding revoke_all_for_user mark_revoked find_by_token_hash
logout now hash all_devices s = elim (find_by_token_hash hash s) [
  | none ↦ (s, false)
  | some existing ↦ (
    if all_devices
        then revoke_all_for_user now existing.user_id s
        else if is_none existing.revoked_at
        then mark_revoked now existing.id none s
        else s,
    true,
  )
]

-- `JwtAuthGuard.canActivate` on a route that is not public: `verified` is what `verifyAccessToken`
-- makes of the bearer token, `bearer` whether the header holds one.
unfoldable pub can_activate :
    Bool → Option AccessTokenClaims → Store → Result AuthError AccessTokenClaims
unfolding find_user
can_activate bearer verified s = do
  throw_if (not bearer) missing_token
  claims ← or_throw verified invalid_token
  user ← or_throw (find_user claims.sub s) user_inactive
  throw_if (not user.is_active) user_inactive
  throw_if (elim user.tokens_invalidated_at [ none ↦ false | some t ↦ leb claims.iat (t / 1000) ])
      token_revoked
  ok claims
