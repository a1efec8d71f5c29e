-- ===== src/Iam/Roles.antt =====
-- packages/core/auth/domain/command: the handlers on roles and their permissions, and the change of
-- one's own password. A role's description is left out, as in the table. `upper` is `toUpperCase`.
use Prim.Native.Char.{code}
use pivotal.Base.{
  ℕ, Bool, true, false, not, ◌&&◌, ◌||◌, Option, none, some, List, [], ◌∷◌, ◌++◌, ◌==◌, map, any,
  filter, length, update_where, if◌then◌else◌, String, str_eq, Result, ok, throw_if, or_throw,
  ◌>>=◌, ◌>>◌,
}
use pivotal.Text.{is_space, trim_string}
use pivotal.Iam.{
  RoleScope, hub, dfsp, PermissionScope, hub_only, dfsp_only, both, Role, Permission, Store,
  admin_role_code, dfsp_admin_role_code, includes, find_user, find_role, find_role_by_code,
  find_role_by_name, find_permission_keys_by_role_id, count_by_role_id, update_user_row,
  revoke_all_for_user, invalidate_tokens,
}
use pivotal.Iam.Policy.{
  AdminError, role_not_found, role_code_required, role_code_taken, role_name_required,
  role_name_taken, role_is_system, role_in_use, role_cannot_remove_admin_key,
  role_permission_scope_mismatch, permission_not_found,
}
use pivotal.Iam.Policy.{found_active}
use pivotal.Iam.Sessions.{AuthError, invalid_credentials, password_same_as_current}

-- `replace(/\s+/g, ' ')`: `in_run` says whether white space came just before.
abbrev pub collapse_spaces : Bool → String → String
collapse_spaces in_run String.[] = String.[]
collapse_spaces in_run (String.◌∷◌ c s) =
    let rest = collapse_spaces (is_space (code c)) s in
    if is_space (code c) then (if in_run then rest else String.◌∷◌ " " rest) else String.◌∷◌ c rest

abbrev pub normalize_code : (String → String) → String → String
normalize_code upper code = upper (collapse_spaces false (trim_string code))

abbrev pub is_role : Option Role → Bool
is_role none = false
is_role (some r) = true

unfoldable pub create_role :
    (upper : String → String) (new_id : ℕ) (code name : String)
    → RoleScope
    → Store
    → Result AdminError (Store × Role)
create_role upper new_id code name scope s = do
  let normal = normalize_code upper code
  let trimmed = trim_string name
  throw_if (str_eq normal "") role_code_required
  throw_if (str_eq trimmed "") role_name_required
  throw_if (is_role (find_role_by_code normal s)) role_code_taken
  throw_if (is_role (find_role_by_name trimmed s)) role_name_taken
  let role : Role = record {
    id = new_id;
    code = normal;
    name = trimmed;
    scope = scope;
    is_system = false;
  }
  ok (record s { roles = s.roles ++ role ∷ [] }, role)

-- `existingName != null && existingName.id !== role.id`
abbrev pub is_other_role : Option Role → ℕ → Bool
is_other_role none id = false
is_other_role (some r) id = not (r.id == id)

abbrev pub rename_role : Option String → Role → Store → Result AdminError Store
rename_role none role s = ok s
rename_role (some name) role s = do
  throw_if (str_eq (trim_string name) "") role_name_required
  throw_if (is_other_role (find_role_by_name (trim_string name) s) role.id) role_name_taken
  ok (record s {
    roles = update_where (λ r. r.id == role.id) (λ r. record r { name = trim_string name }) s.roles;
  })

unfoldable pub update_role : ℕ → Option String → Store → Result AdminError Store
update_role role_id name s = do
  role ← or_throw (find_role role_id s) role_not_found
  rename_role name role s

-- The database deletes the role's permissions with it, by their foreign key.
unfoldable pub delete_role : ℕ → Store → Result AdminError Store
delete_role role_id s = do
  role ← or_throw (find_role role_id s) role_not_found
  throw_if role.is_system role_is_system
  throw_if (not (count_by_role_id role.id s == 0)) role_in_use
  ok (record s {
    roles = filter (λ r. not (r.id == role.id)) s.roles;
    role_permissions = filter (λ g. not (g.role_id == role.id)) s.role_permissions;
  })

-- `Array.from(new Set(keys))`, but for the order.
abbrev pub dedupe : List String → List String
dedupe [] = []
dedupe (k ∷ ks) = let rest = dedupe ks in if includes k rest then rest else k ∷ rest

-- `key.startsWith('admin.')`
abbrev pub starts_with_key : String → String → Bool
starts_with_key String.[] key = true
starts_with_key (String.◌∷◌ p prefix) String.[] = false
starts_with_key (String.◌∷◌ p prefix) (String.◌∷◌ c key) =
    code p == code c && starts_with_key prefix key

abbrev pub is_admin_key : String → Bool
is_admin_key = starts_with_key "admin."

-- PermissionRepository.findByKeyNames
unfoldable pub find_by_key_names : List String → Store → List Permission
find_by_key_names keys s = filter (λ p. includes p.key_name keys) s.permissions

abbrev pub fits_scope : PermissionScope → RoleScope → Bool
fits_scope both scope = true
fits_scope hub_only hub = true
fits_scope hub_only dfsp = false
fits_scope dfsp_only hub = false
fits_scope dfsp_only dfsp = true

abbrev pub is_locked_role : Role → Bool
is_locked_role role =
    role.is_system && (str_eq role.code admin_role_code || str_eq role.code dfsp_admin_role_code)

abbrev pub removes_admin_key : List String → List String → Bool
removes_admin_key current next = any (λ k. is_admin_key k && not (includes k next)) current

-- RolePermissionRepository.replaceForRole
unfoldable pub replace_for_role : ℕ → List Permission → Store → Store
replace_for_role role_id granted s = record s {
  role_permissions =
      filter (λ rp. not (rp.role_id == role_id)) s.role_permissions
      ++ map (λ p. record { role_id = role_id; permission_id = p.id }) granted;
}

unfoldable pub invalidate_tokens_for_role : ℕ → ℕ → Store → Store
invalidate_tokens_for_role now role_id s = record s {
  users =
      update_where (λ u. u.role_id == role_id) (λ u. record u { tokens_invalidated_at = some now })
        s.users;
}

unfoldable pub replace_role_permissions : ℕ → ℕ → List String → Store → Result AdminError Store
unfolding find_by_key_names replace_for_role invalidate_tokens_for_role
replace_role_permissions now role_id permission_keys s = do
  role ← or_throw (find_role role_id s) role_not_found
  let wanted = dedupe permission_keys
  let resolved = find_by_key_names wanted s
  throw_if (not (length resolved == length wanted)) permission_not_found
  throw_if (any (λ p. not (fits_scope p.scope role.scope)) resolved) role_permission_scope_mismatch
  throw_if
      (is_locked_role role && removes_admin_key (find_permission_keys_by_role_id role.id s) wanted)
      role_cannot_remove_admin_key
  ok (invalidate_tokens_for_role now role.id (replace_for_role role.id resolved s))

-- `verify` compares a password with a hash, `new_hash` is the hash of the new password.
unfoldable pub change_password :
    ℕ
    → (String → String → Bool)
    → (user_id : ℕ) (current next new_hash : String) → Store
    → Result AuthError Store
change_password now verify user_id current next new_hash s = do
  user ← or_throw (found_active (find_user user_id s)) invalid_credentials
  throw_if (not (verify current user.password_hash)) invalid_credentials
  throw_if (verify next user.password_hash) password_same_as_current
  let changed =
      update_user_row user.id
        (λ u. record u { password_hash = new_hash; must_change_password = false }) s
  ok (invalidate_tokens now user.id (revoke_all_for_user now user.id changed))
