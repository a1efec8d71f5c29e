-- ===== src/Iam/Updating.antt =====
-- What has been checked when `update_user` returns: its guards as facts.
use pivotal.Base.{
  ℕ, ◌≡◌, false, some, ok, throw_if, or_throw, on_ok, ok_of_or_throw, ok_of_throw_if,
}
use pivotal.Iam.{User, Role, Store, find_user, find_role}
use pivotal.Iam.Policy.{
  user_self_lock, user_not_found, user_role_not_found, UserManagementContext,
  resolve_management_context, assert_can_manage_target_role, assert_can_assign_role,
  assert_not_last_dfsp_manager,
}
use pivotal.Iam.Users.{
  UpdateUserInput, next_role_id, is_deactivation, effective_fsp, locks_self, assert_scope_fits,
  guard_last_admin, commit_update, update_user,
}

pub record Updating (now : ℕ) (input : UpdateUserInput) (s s' : Store) (new_role : Role)
    : Type 0 where
  pub ctx : UserManagementContext
  pub target : User
  pub target_role : Role
  pub resolved : resolve_management_context input.acting_user_id s ≡ ok ctx
  pub found : find_user input.target_user_id s ≡ some target
  pub role_found : find_role target.role_id s ≡ some target_role
  pub manageable : assert_can_manage_target_role ctx target target_role ≡ ok tt
  pub not_self : locks_self input target ≡ false
  pub new_role_found : find_role (next_role_id input target) s ≡ some new_role
  pub assignable : assert_can_assign_role ctx new_role ≡ ok tt
  pub fits : assert_scope_fits new_role (effective_fsp ctx input target) ≡ ok tt
  pub not_last : guard_last_admin input target s ≡ ok tt
  pub not_last_dfsp :
      assert_not_last_dfsp_manager target target.role_id new_role.id
        (effective_fsp ctx input target)
        (is_deactivation input target)
        s
      ≡ ok tt
  pub stored : s' ≡ commit_update now ctx input target s

pub update_user-Updating :
    (now : ℕ) (input : UpdateUserInput) (s s' : Store) (r : Role)
    → update_user now input s ≡ ok (s', r)
    → Updating now input s s' r
unfolding update_user
update_user-Updating now input s s' r h =
    on_ok (resolve_management_context input.acting_user_id s) _ h λ ctx resolved h.
      on_ok (or_throw (find_user input.target_user_id s) user_not_found) _ h λ target found h.
        on_ok (or_throw (find_role target.role_id s) user_role_not_found) _ h
          λ target_role role_found h.
            on_ok (assert_can_manage_target_role ctx target target_role) _ h λ _ manageable h.
              on_ok (throw_if (locks_self input target) user_self_lock) _ h λ _ not_self h.
                on_ok (or_throw (find_role (next_role_id input target) s) user_role_not_found) _ h
                  λ new_role new_role_found h.
                    on_ok (assert_can_assign_role ctx new_role) _ h λ _ assignable h.
                      on_ok (assert_scope_fits new_role (effective_fsp ctx input target)) _ h
                        λ _ fits h. on_ok (guard_last_admin input target s) _ h λ _ not_last h.
                          on_ok
                            (assert_not_last_dfsp_manager target target.role_id new_role.id
                              (effective_fsp ctx input target) (is_deactivation input target) s)
                            _ h
                            λ _ not_last_dfsp h.
                              let same : new_role ≡ r = cc h in
                              record {
                                ctx = ctx;
                                target = target;
                                target_role = target_role;
                                resolved = resolved;
                                found = ok_of_or_throw _ user_not_found found;
                                role_found = ok_of_or_throw _ user_role_not_found role_found;
                                manageable = manageable;
                                not_self = ok_of_throw_if _ user_self_lock not_self;
                                new_role_found =
                                    rw (← same)
                                      (ok_of_or_throw _ user_role_not_found new_role_found);
                                assignable = rw (← same) assignable;
                                fits = rw (← same) fits;
                                not_last = not_last;
                                not_last_dfsp = rw (← same) not_last_dfsp;
                                stored = cc h;
                              }
