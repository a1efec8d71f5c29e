-- ===== src/Iam/Tests.antt =====
-- Sample stores and requests for the identity store's handlers.
use pivotal.Base.{
  ℕ, ◌≡◌, ◌≤◌, ◌<◌, refl, Bool, true, false, Option, none, some, [], ◌∷◌, arith, String, str_eq,
  Result, ok, err, ◌+◌, ◌*◌, ◌/◌,
}
use pivotal.Iam.{
  hub, dfsp, both, User, Role, RefreshToken, Store, find_user, find_role, find_by_email,
  find_by_token_hash, is_none, find_permission_keys_by_role_id,
  count_active_users_granting_permission, dfsp_admin_role_code, keys_of_role, keys_of_permission,
}
use pivotal.Iam.Policy.{
  AdminError, resolve_management_context, can_manage_target_role, can_assign_role,
  assert_can_manage_target_role, assert_can_assign_role, assert_not_last_dfsp_manager,
  assert_other_dfsp_admin,
}
use pivotal.Iam.Users.{
  UpdateUserInput, assert_scope_fits, assert_not_last_admin, guard_last_admin, update_user,
  deactivate_active, deactivate_user, reset_user_password,
}
use pivotal.Iam.Sessions.{
  AuthDomainSettings, Fresh, Session, AccessTokenClaims, Outcome, account_locked,
  refresh_token_reuse, user_inactive, login, refresh_tokens, refresh_token, can_activate,
  issue_refresh_token, access_token_claims, is_after, login_user,
}
use pivotal.Iam.SigningIn.{signed_in, login-signs_in}
use pivotal.Iam.Managers.{HasUniqueIds, has_active_manager}
use pivotal.Iam.LastManager.{update_user-manager, deactivate_user-manager}
use pivotal.Iam.Scope.{update_user-scope, fsp_in}
use pivotal.Iam.Rotation.{live_in, refresh_tokens-reused}
use pivotal.Iam.Deadline.{Within, replaced, refresh_tokens-rotated}
use mathlib.Core.Option.{map as option_map}
use pivotal.Iam.Lockout.{Attempt, login_all, login-lockout}
use pivotal.Iam.Requests.{refreshes, serve_all, serve_all-live}
use pivotal.Iam.Revocation.{
  Refuses, live_of, reset_user_password-revokes, update_user-revokes, deactivate_user-revokes,
}

abbrev person : ℕ → String → Option String → ℕ → User
person id email fsp role = record {
  id = id;
  email = email;
  password_hash = "h";
  fsp_id = fsp;
  role_id = role;
  must_change_password = false;
  is_active = true;
  failed_login_attempts = 0;
  locked_until = none;
  tokens_invalidated_at = none;
  last_login_at = none;
}

abbrev root_admin : User
root_admin = person 10 "root@hub" none 1

abbrev spare_admin : User
spare_admin = person 11 "spare@hub" none 1

abbrev bank_admin : User
bank_admin = person 20 "boss@bank" (some "bank") 2

abbrev pub clerk : User
clerk = person 30 "clerk@bank" (some "bank") 3

abbrev teller : Role
teller = record { id = 4; code = "TELLER"; name = "Teller"; scope = dfsp; is_system = false }

abbrev live_token : RefreshToken
live_token = record {
  id = 1;
  user_id = 30;
  family_id = 7;
  token_hash = "t1";
  expires_at = 100000;
  session_expires_at = some 900000;
  revoked_at = none;
  replaced_by = none;
}

abbrev used_token : RefreshToken
used_token = record live_token {
  id = 2;
  token_hash = "t0";
  revoked_at = some 5;
  replaced_by = some 1;
}

abbrev pub company : Store
company = record {
  users = root_admin ∷ spare_admin ∷ bank_admin ∷ clerk ∷ [];
  roles =
      record { id = 1; code = "ADMIN"; name = "Admin"; scope = hub; is_system = true }
      ∷ record { id = 2; code = "DFSP_ADMIN"; name = "DFSP admin"; scope = dfsp; is_system = true }
      ∷ record { id = 3; code = "CLERK"; name = "Clerk"; scope = dfsp; is_system = false }
      ∷ teller
      ∷ [];
  permissions =
      record { id = 1; key_name = "admin.users.manage"; scope = both }
      ∷ record { id = 2; key_name = "admin.dfsp-users.manage"; scope = both }
      ∷ [];
  role_permissions =
      record { role_id = 1; permission_id = 1 } ∷ record { role_id = 2; permission_id = 2 } ∷ [];
  refresh_tokens = used_token ∷ live_token ∷ [];
  -- Whole seconds, the nearest ones.
  to_datetime = λ ms. (ms + 500) / 1000 * 1000;
}

abbrev demotion : UpdateUserInput
demotion = record {
  target_user_id = 11;
  acting_user_id = 10;
  role_id = none;
  fsp_id = none;
  is_active = some false;
}

abbrev promotion : UpdateUserInput
promotion = record {
  target_user_id = 30;
  acting_user_id = 20;
  role_id = some 4;
  fsp_id = none;
  is_active = none;
}

abbrev store_or : {A : Type 0} → Result AdminError (Store × A) → Store
store_or (ok (s, a)) = s
store_or (err e) = company

abbrev kept : Result AdminError Store → Store
kept (ok s) = s
kept (err e) = company

distinct : HasUniqueIds company.users
distinct = ((refl, (refl, (refl, tt))), ((refl, (refl, tt)), ((refl, tt), (tt, tt))))

abbrev settings : AuthDomainSettings
settings = record {
  access_token_ttl_seconds = 900;
  session_idle_timeout_minutes = 30;
  session_absolute_timeout_hours = 8;
  login_lockout_threshold = 3;
  login_lockout_duration_minutes = 15;
}

abbrev fresh : Fresh
fresh = record { id = 77; family_id = 9; hash = "t2" }

abbrev pub verify : String → String → Bool
verify password hash = str_eq password "open"

abbrev try : ℕ → String → Attempt
try at password = record { at = at; password = password }

abbrev pub claims_of : ℕ → ℕ → AccessTokenClaims
claims_of sub iat = record {
  sub = sub;
  role = "CLERK";
  fsp_id = some "bank";
  permissions = [];
  must_change_password = false;
  iat = iat;
  exp = 900;
}

abbrev session_or : Outcome → Session
session_or (s, ok session) = session
session_or (s, err e) = record { claims = claims_of 0 0; token = live_token }

update_user-manager_example :
    has_active_manager (store_or (update_user 500 demotion company)) ≡ true
unfolding update_user find_user find_role resolve_management_context find_permission_keys_by_role_id
    keys_of_role keys_of_permission assert_can_manage_target_role can_manage_target_role
    can_assign_role assert_can_assign_role assert_scope_fits guard_last_admin assert_not_last_admin
    count_active_users_granting_permission assert_not_last_dfsp_manager assert_other_dfsp_admin
update_user-manager_example =
    update_user-manager 500 demotion company (store_or (update_user 500 demotion company))
      (record { id = 1; code = "ADMIN"; name = "Admin"; scope = hub; is_system = true }) distinct
      refl refl

deactivate_user-manager_example :
    has_active_manager (kept (deactivate_user 500 11 10 company)) ≡ true
unfolding deactivate_user deactivate_active find_user find_role resolve_management_context
    find_permission_keys_by_role_id keys_of_role keys_of_permission assert_can_manage_target_role
    can_manage_target_role count_active_users_granting_permission assert_not_last_dfsp_manager
    assert_other_dfsp_admin
deactivate_user-manager_example =
    deactivate_user-manager 500 11 10 company (kept (deactivate_user 500 11 10 company)) distinct
      refl refl

update_user-scope_example :
    (clerk.fsp_id ≡ bank_admin.fsp_id)
    × (teller.scope ≡ dfsp)
    × (str_eq teller.code dfsp_admin_role_code ≡ false)
    × (find_user 11 (store_or (update_user 500 promotion company)) ≡ find_user 11 company)
    × (fsp_in (store_or (update_user 500 promotion company)) 30 ≡ some bank_admin.fsp_id)
unfolding update_user find_user find_role resolve_management_context find_permission_keys_by_role_id
    keys_of_role keys_of_permission assert_can_manage_target_role can_manage_target_role
    can_assign_role assert_can_assign_role assert_scope_fits guard_last_admin assert_not_last_admin
    count_active_users_granting_permission assert_not_last_dfsp_manager assert_other_dfsp_admin
update_user-scope_example =
    update_user-scope 500 promotion company (store_or (update_user 500 promotion company)) teller
      bank_admin clerk 11 refl refl refl refl refl

update_user-revokes_example :
    Refuses (claims_of 30 1) (store_or (update_user 1500 promotion company))
unfolding update_user find_user find_role resolve_management_context find_permission_keys_by_role_id
    keys_of_role keys_of_permission assert_can_manage_target_role can_manage_target_role
    can_assign_role assert_can_assign_role assert_scope_fits guard_last_admin assert_not_last_admin
    count_active_users_granting_permission assert_not_last_dfsp_manager assert_other_dfsp_admin
update_user-revokes_example =
    update_user-revokes 1500 promotion company (store_or (update_user 1500 promotion company))
      teller (claims_of 30 1) refl refl (omega arith)

reset_user_password-revokes_example :
    (live_of 30 (kept (reset_user_password 1500 "n" 30 20 company)) ≡ 0)
    × Refuses (claims_of 30 1) (kept (reset_user_password 1500 "n" 30 20 company))
unfolding reset_user_password find_user find_role resolve_management_context
    find_permission_keys_by_role_id keys_of_role keys_of_permission assert_can_manage_target_role
    can_manage_target_role
reset_user_password-revokes_example =
    reset_user_password-revokes 1500 "n" 30 20 company
      (kept (reset_user_password 1500 "n" 30 20 company)) (claims_of 30 1) refl refl (omega arith)

deactivate_user-revokes_example :
    can_activate true (some (claims_of 30 99)) (kept (deactivate_user 500 30 20 company))
    ≡ err user_inactive
unfolding deactivate_user deactivate_active find_user find_role resolve_management_context
    find_permission_keys_by_role_id keys_of_role keys_of_permission assert_can_manage_target_role
    can_manage_target_role count_active_users_granting_permission assert_not_last_dfsp_manager
    assert_other_dfsp_admin
deactivate_user-revokes_example =
    deactivate_user-revokes 500 30 20 company (kept (deactivate_user 500 30 20 company))
      (claims_of 30 99) refl refl

refresh_tokens-reused_example :
    ((refresh_tokens 50 settings fresh "t0" company).1 ≡ err refresh_token_reuse)
    × (live_in 7 (refresh_tokens 50 settings fresh "t0" company).0 ≡ 0)
unfolding find_by_token_hash
refresh_tokens-reused_example =
    refresh_tokens-reused 50 settings fresh "t0" company used_token refl refl refl (omega arith)

serve_all-live_example :
    live_in 7
      (serve_all settings verify (refreshes 50 fresh "t1" ∷ refreshes 60 fresh "t1" ∷ []) company)
    ≤ 1
serve_all-live_example =
    serve_all-live settings verify (refreshes 50 fresh "t1" ∷ refreshes 60 fresh "t1" ∷ []) 7
      company

login-lockout_example :
    login 1000 settings fresh verify "clerk@bank" "open" (
      login_all settings fresh verify "clerk@bank" (try 1 "a" ∷ try 2 "b" ∷ try 3 "c" ∷ []) company)
    ≡ (
      login_all settings fresh verify "clerk@bank" (try 1 "a" ∷ try 2 "b" ∷ try 3 "c" ∷ []) company,
      err (account_locked 15),
    )
unfolding find_by_email
login-lockout_example =
    login-lockout settings fresh verify "clerk@bank" (try 1 "a" ∷ try 2 "b" ∷ []) (try 3 "c")
      (try 1000 "open") company clerk refl refl refl refl (refl, (refl, (refl, tt))) (omega arith)

refresh_tokens-rotated_example :
    (is_none live_token.revoked_at ≡ true)
    × (50 < 100000)
    × ((deadline : ℕ) × (live_token.session_expires_at ≡ some deadline)
        × (50 < deadline)
        × Within 50 deadline live_token
            (session_or (refresh_tokens 50 settings fresh "t1" company)))
    × (option_map (λ u. u.is_active) (find_user 30 company) ≡ some true)
    × (find_by_token_hash "t1" (refresh_tokens 50 settings fresh "t1" company).0
        ≡ some (replaced 50 77 live_token))
unfolding refresh_tokens refresh_token find_by_token_hash find_user find_role issue_refresh_token
    access_token_claims
refresh_tokens-rotated_example =
    refresh_tokens-rotated 50 settings fresh "t1" company live_token
      (session_or (refresh_tokens 50 settings fresh "t1" company)) refl refl

login-signs_in_example :
    (clerk.is_active ≡ true)
    × (is_after clerk.locked_until 1000 ≡ false)
    × (verify "open" clerk.password_hash ≡ true)
    × ((session_or (login 1000 settings fresh verify "clerk@bank" "open" company)).claims.sub
        ≡ clerk.id)
    × ((role : Role) × (find_role 3 company ≡ some role)
        × ((session_or (login 1000 settings fresh verify "clerk@bank" "open" company)).claims.role
            ≡ role.code)
        × ((session_or
              (login 1000 settings fresh verify "clerk@bank" "open" company)).claims.permissions
            ≡ find_permission_keys_by_role_id role.id company))
    × (find_by_email "clerk@bank" (login 1000 settings fresh verify "clerk@bank" "open" company).0
        ≡ some (signed_in 1000 clerk))
unfolding login login_user find_by_email find_role issue_refresh_token access_token_claims
login-signs_in_example =
    login-signs_in 1000 settings fresh verify "clerk@bank" "open" company clerk
      (session_or (login 1000 settings fresh verify "clerk@bank" "open" company)) refl refl
