-- ===== src/Iam/Users.antt =====
-- packages/core/auth/domain/command: creating, changing and deactivating users. Each handler
-- returns the new store and its output, or what it throws; it has written nothing then.
-- `now` is the clock's reading during the call.
use pivotal.Base.{
  ℕ, Bool, true, false, not, ◌&&◌, ◌||◌, Option, none, some, [], ◌∷◌, ◌++◌, ◌==◌, if◌then◌else◌,
  String, str_eq, Result, ok, ◌>>=◌, ◌>>◌, throw_if, or_throw,
}
use pivotal.Text.{trim_string}
use pivotal.Iam.{
  User, Role, Store, admin_users_manage, includes, find_user, find_by_email, find_role,
  find_permission_keys_by_role_id, count_active_users_granting_permission, update_user_row,
  invalidate_tokens, revoke_all_for_user,
}
use pivotal.Iam.Policy.{
  AdminError, user_email_taken, user_dfsp_requires_fsp_id, user_admin_forbids_fsp_id,
  user_self_lock, user_last_admin, user_not_found, user_role_not_found, UserManagementContext,
  is_null, is_dfsp, resolve_management_context, assert_can_manage_target_role,
  assert_can_manage_target_role!, assert_can_assign_role, resolve_create_fsp_id,
  assert_not_last_dfsp_manager,
}

-- `fspId != null && fspId.trim().length > 0 ? fspId.trim() : null`
abbrev pub non_blank : Option String → Option String
non_blank none = none
non_blank (some f) = if str_eq (trim_string f) "" then none else some (trim_string f)

unfoldable pub assert_scope_fits : Role → Option String → Result AdminError (Unit {0})
assert_scope_fits role fsp = do
  throw_if (not (is_dfsp role.scope) && not (is_null fsp)) user_admin_forbids_fsp_id
  throw_if (is_dfsp role.scope && is_null fsp) user_dfsp_requires_fsp_id

pub record CreateUserInput : Type 0 where
  pub acting_user_id : ℕ
  pub email : String
  pub role_id : ℕ
  pub fsp_id : Option String

abbrev pub new_user : ℕ → CreateUserInput → String → Role → Option String → User
new_user id input hash role fsp = record {
  id = id;
  email = input.email;
  password_hash = hash;
  fsp_id = fsp;
  role_id = role.id;
  must_change_password = true;
  is_active = true;
  failed_login_attempts = 0;
  locked_until = none;
  tokens_invalidated_at = none;
  last_login_at = none;
}

abbrev pub is_found : Option User → Bool
is_found none = false
is_found (some u) = true

-- The new id is drawn from the snowflake generator, `hash` is the hash of the temporary password.
unfoldable pub create_user :
    (new_id : ℕ) (hash : String) → CreateUserInput → Store → Result AdminError (Store × User)
unfolding assert_scope_fits
create_user new_id hash input s = do
  ctx ← resolve_management_context input.acting_user_id s
  role ← or_throw (find_role input.role_id s) user_role_not_found
  assert_can_assign_role ctx role
  let fsp = resolve_create_fsp_id ctx (non_blank input.fsp_id)
  assert_scope_fits role fsp
  throw_if (is_found (find_by_email input.email s)) user_email_taken
  let user = new_user new_id input hash role fsp
  ok (record s { users = s.users ++ user ∷ [] }, user)

-- `roleId` and `isActive` may be undefined; `fspId` may be undefined (none) or null (some none).
pub record UpdateUserInput : Type 0 where
  pub target_user_id : ℕ
  pub acting_user_id : ℕ
  pub role_id : Option ℕ
  pub fsp_id : Option (Option String)
  pub is_active : Option Bool

-- The role asked for; the present one where none is.
abbrev pub role_or : Option ℕ → ℕ → ℕ
role_or none current = current
role_or (some id) current = id

abbrev pub requested_fsp : Option (Option String) → Option String → Option String
requested_fsp none current = current
requested_fsp (some fsp) current = non_blank fsp

abbrev pub active_or : Option Bool → Bool → Bool
active_or none current = current
active_or (some b) current = b

-- `isActive === false`
abbrev pub asks_deactivation : Option Bool → Bool
asks_deactivation none = false
asks_deactivation (some b) = not b

abbrev pub next_role_id : UpdateUserInput → User → ℕ
next_role_id input target = role_or input.role_id target.role_id

abbrev pub is_role_change : UpdateUserInput → User → Bool
is_role_change input target = not (next_role_id input target == target.role_id)

abbrev pub is_deactivation : UpdateUserInput → User → Bool
is_deactivation input target = asks_deactivation input.is_active && target.is_active

-- `effectiveFspId`
abbrev pub effective_fsp : UserManagementContext → UpdateUserInput → User → Option String
effective_fsp ctx input target =
    if ctx.global_manager then requested_fsp input.fsp_id target.fsp_id else ctx.management_fsp_id

abbrev pub locks_self : UpdateUserInput → User → Bool
locks_self input target =
    input.target_user_id == input.acting_user_id
    && (is_role_change input target || is_deactivation input target)

unfoldable pub assert_not_last_admin : ℕ → ℕ → ℕ → Bool → Store → Result AdminError (Unit {0})
assert_not_last_admin user_id current next deactivating s =
    if not (includes admin_users_manage (find_permission_keys_by_role_id current s))
    then ok tt
    else if not deactivating
        && not (current == next)
        && includes admin_users_manage (find_permission_keys_by_role_id next s)
    then ok tt
    else throw_if (count_active_users_granting_permission admin_users_manage user_id s == 0)
        user_last_admin

-- The columns that the patch sets; one that is not in the patch equals the target's.
abbrev pub user_patch : UserManagementContext → UpdateUserInput → User → User → User
user_patch ctx input target u = record u {
  role_id = next_role_id input target;
  fsp_id = effective_fsp ctx input target;
  is_active = active_or input.is_active target.is_active;
}

unfoldable pub commit_update : ℕ → UserManagementContext → UpdateUserInput → User → Store → Store
commit_update now ctx input target s =
    let patched =
      invalidate_tokens now target.id (update_user_row target.id (user_patch ctx input target) s) in
    if is_deactivation input target then revoke_all_for_user now target.id patched else patched

-- The guard on the last administrator, which only a deactivation or a change of role reaches.
unfoldable pub guard_last_admin : UpdateUserInput → User → Store → Result AdminError (Unit {0})
unfolding assert_not_last_admin
guard_last_admin input target s =
    if is_deactivation input target || is_role_change input target
    then assert_not_last_admin target.id target.role_id (next_role_id input target)
        (is_deactivation input target) s
    else ok tt

unfoldable pub update_user : ℕ → UpdateUserInput → Store → Result AdminError (Store × Role)
unfolding guard_last_admin assert_scope_fits commit_update
update_user now input s = do
  ctx ← resolve_management_context input.acting_user_id s
  target ← or_throw (find_user input.target_user_id s) user_not_found
  target_role ← or_throw (find_role target.role_id s) user_role_not_found
  assert_can_manage_target_role ctx target target_role
  throw_if (locks_self input target) user_self_lock
  new_role ← or_throw (find_role (next_role_id input target) s) user_role_not_found
  assert_can_assign_role ctx new_role
  assert_scope_fits new_role (effective_fsp ctx input target)
  guard_last_admin input target s
  assert_not_last_dfsp_manager target target.role_id new_role.id (effective_fsp ctx input target)
      (is_deactivation input target) s
  ok (commit_update now ctx input target s, new_role)

-- From the guard on the last administrator on, for a target that is active.
unfoldable pub deactivate_active : ℕ → User → Store → Result AdminError Store
deactivate_active now target s = do
  throw_if
      (includes admin_users_manage (find_permission_keys_by_role_id target.role_id s)
        && count_active_users_granting_permission admin_users_manage target.id s == 0)
      user_last_admin
  assert_not_last_dfsp_manager target target.role_id target.role_id target.fsp_id true s
  let off = update_user_row target.id (λ u. record u { is_active = false }) s
  ok (invalidate_tokens now target.id (revoke_all_for_user now target.id off))

unfoldable pub deactivate_user :
    (now target_user_id acting_user_id : ℕ) → Store → Result AdminError Store
unfolding deactivate_active
deactivate_user now target_user_id acting_user_id s = do
  ctx ← resolve_management_context acting_user_id s
  throw_if (target_user_id == acting_user_id) user_self_lock
  target ← or_throw (find_user target_user_id s) user_not_found
  assert_can_manage_target_role! ctx target (find_role target.role_id s)
  if not target.is_active then ok s else deactivate_active now target s

unfoldable pub reset_user_password :
    (now : ℕ) (hash : String) (target_user_id acting_user_id : ℕ) → Store → Result AdminError Store
reset_user_password now hash target_user_id acting_user_id s = do
  ctx ← resolve_management_context acting_user_id s
  user ← or_throw (find_user target_user_id s) user_not_found
  assert_can_manage_target_role! ctx user (find_role user.role_id s)
  let changed =
      update_user_row user.id (λ u. record u { password_hash = hash; must_change_password = true })
        s
  ok (invalidate_tokens now user.id (revoke_all_for_user now user.id changed))
