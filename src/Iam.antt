-- ===== src/Iam.antt =====
-- packages/core/auth/domain: the tables of the identity store and the repositories' queries.
-- A bigint id is a number, a point in time is in milliseconds. Columns that no handler reads
-- (description, createdAt, updatedAt, grantedAt) are left out.
pub mod Policy
pub mod Users
pub mod Sessions
pub mod Updating
pub mod Managers
pub mod LastManager
pub mod Scope
pub mod Rotation
pub mod Requests
pub mod Deadline
pub mod Lockout
pub mod SigningIn
pub mod Revocation
pub mod Roles
pub mod Granting
pub mod AdminKeys
mod Tests
mod RoleTests
use pivotal.Base.{
  ℕ, suc, ◌+◌, Bool, true, false, not, ◌&&◌, ◌||◌, Option, none, some, List, [], ◌∷◌, ◌++◌, ◌==◌,
  if◌then◌else◌, String, str_eq, any, find, count, filter, update_where,
}

pub data RoleScope : Type 0 where
  hub dfsp : RoleScope

pub data PermissionScope : Type 0 where
  hub_only dfsp_only both : PermissionScope

pub record User : Type 0 where
  pub id : ℕ
  pub email : String
  pub password_hash : String
  pub fsp_id : Option String
  pub role_id : ℕ
  pub must_change_password : Bool
  pub is_active : Bool
  pub failed_login_attempts : ℕ
  pub locked_until : Option ℕ
  pub tokens_invalidated_at : Option ℕ
  pub last_login_at : Option ℕ

pub record Role : Type 0 where
  pub id : ℕ
  pub code : String
  pub name : String
  pub scope : RoleScope
  pub is_system : Bool

pub record Permission : Type 0 where
  pub id : ℕ
  pub key_name : String
  pub scope : PermissionScope

pub record RolePermission : Type 0 where
  pub role_id : ℕ
  pub permission_id : ℕ

pub record RefreshToken : Type 0 where
  pub id : ℕ
  pub user_id : ℕ
  pub family_id : ℕ
  pub token_hash : String
  pub expires_at : ℕ
  pub session_expires_at : Option ℕ
  pub revoked_at : Option ℕ
  pub replaced_by : Option ℕ

pub record Store : Type 0 where
  pub users : List User
  pub roles : List Role
  pub permissions : List Permission
  pub role_permissions : List RolePermission
  pub refresh_tokens : List RefreshToken
  -- What the database keeps of a time, in milliseconds, in a column `DATETIME`.
  pub to_datetime : ℕ → ℕ

abbrev pub admin_role_code : String
admin_role_code = "ADMIN"

abbrev pub dfsp_admin_role_code : String
dfsp_admin_role_code = "DFSP_ADMIN"

abbrev pub admin_users_manage : String
admin_users_manage = "admin.users.manage"

abbrev pub admin_dfsp_users_manage : String
admin_dfsp_users_manage = "admin.dfsp-users.manage"

-- `a === b` on an fspId, which may be null.
abbrev pub fsp_eq : Option String → Option String → Bool
fsp_eq none none = true
fsp_eq none (some b) = false
fsp_eq (some a) none = false
fsp_eq (some a) (some b) = str_eq a b

abbrev pub includes : String → List String → Bool
includes key = any (λ k. str_eq k key)

-- UserRepository
unfoldable pub find_user : ℕ → Store → Option User
find_user id s = find (λ u. u.id == id) s.users

unfoldable pub find_by_email : String → Store → Option User
find_by_email email s = find (λ u. str_eq u.email email) s.users

unfoldable pub update_user_row : ℕ → (User → User) → Store → Store
update_user_row id f s = record s { users = update_where (λ u. u.id == id) f s.users }

unfoldable pub count_by_role_id : ℕ → Store → ℕ
count_by_role_id role_id s = count (λ u. u.role_id == role_id) s.users

unfoldable pub count_active_users_by_role_id_for_fsp : ℕ → String → ℕ → Store → ℕ
count_active_users_by_role_id_for_fsp role_id fsp exclude s =
    count
      (λ u.
        u.is_active && u.role_id == role_id && fsp_eq u.fsp_id (some fsp) && not (u.id == exclude))
      s.users

-- RoleRepository
unfoldable pub find_role : ℕ → Store → Option Role
find_role id s = find (λ r. r.id == id) s.roles

unfoldable pub find_role_by_code : String → Store → Option Role
find_role_by_code code s = find (λ r. str_eq r.code code) s.roles

unfoldable pub find_role_by_name : String → Store → Option Role
find_role_by_name name s = find (λ r. str_eq r.name name) s.roles

-- RolePermissionRepository: the join of role_permissions and permissions.
pub keys_of_permission : ℕ → List Permission → List String
keys_of_permission id [] = []
keys_of_permission id (p ∷ ps) =
    let rest = keys_of_permission id ps in if p.id == id then p.key_name ∷ rest else rest

pub keys_of_role : ℕ → List Permission → List RolePermission → List String
keys_of_role role_id ps [] = []
keys_of_role role_id ps (rp ∷ rps) =
    let rest = keys_of_role role_id ps rps in
    if rp.role_id == role_id then keys_of_permission rp.permission_id ps ++ rest else rest

unfoldable pub find_permission_keys_by_role_id : ℕ → Store → List String
unfolding keys_of_permission keys_of_role
find_permission_keys_by_role_id role_id s = keys_of_role role_id s.permissions s.role_permissions

-- `COUNT(DISTINCT u.id)` over the join of users, role_permissions and permissions.
unfoldable pub count_active_users_granting_permission : String → ℕ → Store → ℕ
count_active_users_granting_permission key exclude s =
    count
      (λ u.
        u.is_active
        && includes key (find_permission_keys_by_role_id u.role_id s)
        && not (u.id == exclude))
      s.users

-- RefreshTokenRepository
abbrev pub is_none : Option ℕ → Bool
is_none none = true
is_none (some n) = false

unfoldable pub find_by_token_hash : String → Store → Option RefreshToken
find_by_token_hash hash s = find (λ t. str_eq t.token_hash hash) s.refresh_tokens

abbrev pub revoke : ℕ → RefreshToken → RefreshToken
revoke now t = record t { revoked_at = some now }

unfoldable pub mark_revoked : ℕ → ℕ → Option ℕ → Store → Store
mark_revoked now id replaced_by s = record s {
  refresh_tokens =
      update_where (λ t. t.id == id)
        (λ t. record t { revoked_at = some now; replaced_by = replaced_by }) s.refresh_tokens;
}

unfoldable pub revoke_family : ℕ → ℕ → Store → Store
revoke_family now family_id s = record s {
  refresh_tokens =
      update_where (λ t. t.family_id == family_id && is_none t.revoked_at) (revoke now)
        s.refresh_tokens;
}

unfoldable pub revoke_all_for_user : ℕ → ℕ → Store → Store
revoke_all_for_user now user_id s = record s {
  refresh_tokens =
      update_where (λ t. t.user_id == user_id && is_none t.revoked_at) (revoke now)
        s.refresh_tokens;
}

unfoldable pub invalidate_tokens : ℕ → ℕ → Store → Store
unfolding update_user_row
invalidate_tokens now id = update_user_row id (λ u. record u { tokens_invalidated_at = some now })
