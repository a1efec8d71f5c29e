-- ===== src/Iam/RoleTests.antt =====
-- Sample calls of the handlers on roles and of the change of a password.
use pivotal.Base.{◌≡◌, refl, true, List, [], ◌∷◌, arith, String, Result, ok, err}
use pivotal.Iam.{
  hub, Role, Store, includes, find_user, find_role, count_by_role_id,
  find_permission_keys_by_role_id, keys_of_role, keys_of_permission,
}
use pivotal.Iam.Roles.{delete_role, change_password, replace_role_permissions, find_by_key_names}
use pivotal.Iam.Tests.{company, clerk, claims_of, verify}
use pivotal.Iam.Revocation.{Refuses, live_of}
use pivotal.Iam.Granting.{delete_role-find_role, change_password-revokes}
use pivotal.Iam.AdminKeys.{replace_role_permissions-includes}

abbrev result_or {ℓ} : {E : Type ℓ} → Result E Store → Store
result_or (ok s) = s
result_or (err e) = company

abbrev admin_role : Role
admin_role = record { id = 1; code = "ADMIN"; name = "Admin"; scope = hub; is_system = true }

delete_role-find_role_example :
    find_role 3 (result_or (delete_role 4 company)) ≡ find_role 3 company
unfolding delete_role find_role find_user count_by_role_id
delete_role-find_role_example =
    delete_role-find_role 4 company (result_or (delete_role 4 company)) 30 clerk refl refl

change_password-revokes_example :
    (live_of 30 (result_or (change_password 1500 verify 30 "open" "new" "n" company)) ≡ 0)
    × Refuses (claims_of 30 1) (result_or (change_password 1500 verify 30 "open" "new" "n" company))
unfolding change_password find_user
change_password-revokes_example =
    change_password-revokes 1500 verify 30 "open" "new" "n" company
      (result_or (change_password 1500 verify 30 "open" "new" "n" company)) (claims_of 30 1) refl
      refl (omega arith)

abbrev wanted : List String
wanted = "admin.users.manage" ∷ "admin.dfsp-users.manage" ∷ []

replace_role_permissions-includes_example :
    includes "admin.users.manage"
      (find_permission_keys_by_role_id 1 (result_or (replace_role_permissions 9 1 wanted company)))
    ≡ true
unfolding replace_role_permissions find_role find_permission_keys_by_role_id keys_of_role
    keys_of_permission find_by_key_names
replace_role_permissions-includes_example =
    replace_role_permissions-includes 9 1 wanted company
      (result_or (replace_role_permissions 9 1 wanted company)) admin_role "admin.users.manage" refl
      refl refl refl refl
