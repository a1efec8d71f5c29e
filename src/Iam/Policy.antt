-- ===== src/Iam/Policy.antt =====
-- packages/core/auth/domain/service/user-management-policy.service.ts: who may manage whom.
use pivotal.Base.{
  ℕ, Bool, true, false, not, ◌&&◌, ◌||◌, Option, none, some, List, ◌==◌, if◌then◌else◌, String,
  str_eq, Result, ok, err, ◌>>=◌, ◌>>◌, throw_if, or_throw,
}
use pivotal.Iam.{
  RoleScope, hub, dfsp, User, Role, Store, admin_role_code, dfsp_admin_role_code,
  admin_users_manage, admin_dfsp_users_manage, fsp_eq, includes, find_user, find_role,
  find_role_by_code, find_permission_keys_by_role_id, count_active_users_by_role_id_for_fsp,
}

-- packages/core/auth/domain/error/admin-errors.ts
pub data AdminError : Type 0 where
  user_email_taken user_dfsp_requires_fsp_id user_admin_forbids_fsp_id : AdminError
  user_self_lock user_last_admin user_last_dfsp_admin : AdminError
  user_management_scope_denied user_role_not_assignable : AdminError
  user_not_found user_role_not_found user_fsp_id_not_found role_immutable_field : AdminError
  role_not_found role_code_required role_code_taken role_name_required role_name_taken : AdminError
  role_is_system role_in_use role_cannot_remove_admin_key : AdminError
  role_permission_scope_mismatch permission_not_found : AdminError
  -- A property of null was read: a TypeError.
  null_dereference : AdminError

pub record UserManagementContext : Type 0 where
  pub actor : User
  pub actor_role : Role
  pub actor_permissions : List String
  pub global_manager : Bool
  pub dfsp_manager : Bool
  pub management_fsp_id : Option String

abbrev pub is_null : Option String → Bool
is_null none = true
is_null (some f) = false

abbrev pub is_dfsp : RoleScope → Bool
is_dfsp hub = false
is_dfsp dfsp = true

abbrev pub found_active : Option User → Option User
found_active none = none
found_active (some u) = if u.is_active then some u else none

unfoldable pub resolve_management_context : ℕ → Store → Result AdminError UserManagementContext
resolve_management_context actor_id s = do
  actor ← or_throw (found_active (find_user actor_id s)) user_management_scope_denied
  role ← or_throw (find_role actor.role_id s) user_management_scope_denied
  let keys = find_permission_keys_by_role_id actor.role_id s
  let global = includes admin_users_manage keys
  let local = includes admin_dfsp_users_manage keys
  throw_if (not global && not local) user_management_scope_denied
  throw_if (not global && is_null actor.fsp_id) user_management_scope_denied
  ok (record {
    actor = actor;
    actor_role = role;
    actor_permissions = keys;
    global_manager = global;
    dfsp_manager = local;
    management_fsp_id = if global then none else actor.fsp_id;
  })

unfoldable pub can_manage_target_role : UserManagementContext → User → Role → Bool
can_manage_target_role ctx target role =
    if ctx.global_manager
    then not (str_eq role.code admin_role_code) || str_eq ctx.actor_role.code admin_role_code
    else if is_null ctx.management_fsp_id || not (fsp_eq target.fsp_id ctx.management_fsp_id)
    then false
    else if not (is_dfsp role.scope)
    then false
    else not (str_eq role.code dfsp_admin_role_code)
      || str_eq ctx.actor_role.code dfsp_admin_role_code

unfoldable pub assert_can_manage_target_role :
    UserManagementContext → User → Role → Result AdminError (Unit {0})
unfolding can_manage_target_role
assert_can_manage_target_role ctx target role =
    throw_if (not (can_manage_target_role ctx target role)) user_management_scope_denied

-- Where the role was asserted to be there and is null, reading its code or scope throws.
abbrev pub assert_can_manage_target_role! :
    UserManagementContext → User → Option Role → Result AdminError (Unit {0})
assert_can_manage_target_role! ctx target (some role) =
    assert_can_manage_target_role ctx target role
assert_can_manage_target_role! ctx target none =
    if not ctx.global_manager
      && (is_null ctx.management_fsp_id || not (fsp_eq target.fsp_id ctx.management_fsp_id))
    then err user_management_scope_denied
    else err null_dereference

unfoldable pub can_assign_role : UserManagementContext → Role → Bool
can_assign_role ctx role =
    if ctx.global_manager
    then not (str_eq role.code admin_role_code) || str_eq ctx.actor_role.code admin_role_code
    else if not (is_dfsp role.scope)
    then false
    else not (str_eq role.code dfsp_admin_role_code)

unfoldable pub assert_can_assign_role : UserManagementContext → Role → Result AdminError (Unit {0})
unfolding can_assign_role
assert_can_assign_role ctx role = throw_if (not (can_assign_role ctx role)) user_role_not_assignable

unfoldable pub resolve_create_fsp_id : UserManagementContext → Option String → Option String
resolve_create_fsp_id ctx requested =
    if ctx.global_manager then requested else ctx.management_fsp_id

-- `role?.code === DFSP_ADMIN_ROLE_CODE`
abbrev pub has_dfsp_admin_code : Option Role → Bool
has_dfsp_admin_code none = false
has_dfsp_admin_code (some r) = str_eq r.code dfsp_admin_role_code

-- The last part: another active administrator of the FSP must remain.
unfoldable pub assert_other_dfsp_admin :
    Option Role → String → ℕ → Store → Result AdminError (Unit {0})
assert_other_dfsp_admin none fsp user_id s = err user_last_dfsp_admin
assert_other_dfsp_admin (some role) fsp user_id s =
    throw_if (count_active_users_by_role_id_for_fsp role.id fsp user_id s == 0) user_last_dfsp_admin

abbrev pub assert_in_fsp :
    User → Option String → ℕ → ℕ → Option String → Bool → Store → Result AdminError (Unit {0})
assert_in_fsp target none current next next_fsp deactivating s = ok tt
assert_in_fsp target (some fsp) current next next_fsp deactivating s =
    let stays = not deactivating && fsp_eq (some fsp) next_fsp in
    if not (has_dfsp_admin_code (find_role current s))
      || (stays && current == next)
      || (stays && has_dfsp_admin_code (find_role next s))
    then ok tt
    else assert_other_dfsp_admin (find_role_by_code dfsp_admin_role_code s) fsp target.id s

unfoldable pub assert_not_last_dfsp_manager :
    User → ℕ → ℕ → Option String → Bool → Store → Result AdminError (Unit {0})
unfolding assert_other_dfsp_admin
assert_not_last_dfsp_manager target current next next_fsp deactivating s =
    assert_in_fsp target target.fsp_id current next next_fsp deactivating s
