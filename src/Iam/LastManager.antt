-- ===== src/Iam/LastManager.antt =====
-- The last active user who may manage users, and the handlers on users.
use pivotal.Base.{
  ℕ, ◌≡◌, refl, sym, subst, ◌∙◌, ◌⊎◌, inl, inr, Bool, true, false, not, ◌&&◌, some, ◌==◌, ==_iff,
  arith, any, Bool-cases, find-satisfies, ok, throw_if, or_throw, eq_of_ok, on_ok, ok_of_or_throw,
  ok_of_throw_if,
}
use pivotal.Iam.{
  User, Role, Store, includes, admin_users_manage, find_user, find_role,
  find_permission_keys_by_role_id, revoke_all_for_user, invalidate_tokens, update_user_row,
  count_active_users_granting_permission,
}
use pivotal.Iam.Policy.{
  UserManagementContext, user_self_lock, user_not_found, user_last_admin,
  resolve_management_context, assert_can_manage_target_role!, assert_not_last_dfsp_manager,
}
use pivotal.Iam.Users.{
  UpdateUserInput, guard_last_admin, user_patch, commit_update, update_user, deactivate_user,
  deactivate_active, is_deactivation,
}
use pivotal.Iam.Updating.{update_user-Updating}
use pivotal.Iam.Managers.{
  HasUniqueIds, is_manager, has_active_manager, any-other, count_active-any, change-other,
  change-found,
}

abbrev others : Store → ℕ → Bool
others s id = any (λ u. is_manager s u && not (u.id == id)) s.users

-- What the guard leaves: the target is still an active manager, or another user is one.
guard_last_admin-others :
    (ctx : UserManagementContext) (input : UpdateUserInput) (target : User) (s : Store)
    → guard_last_admin input target s ≡ ok tt
    → is_manager s target ≡ true
    → (is_manager s (user_patch ctx input target target) ≡ true) ⊎ (others s target.id ≡ true)
unfolding guard_last_admin
guard_last_admin-others ctx input target s h m = ground (arith, count_active-any target.id s)

revoke-manager :
    (now id : ℕ) (s : Store)
    → has_active_manager (revoke_all_for_user now id s) ≡ has_active_manager s
unfolding revoke_all_for_user find_permission_keys_by_role_id
revoke-manager now id s = refl

commit_update-manager :
    (now : ℕ) (ctx : UserManagementContext) (input : UpdateUserInput) (target : User) (s : Store)
    → has_active_manager (
        invalidate_tokens now target.id (update_user_row target.id (user_patch ctx input target) s))
      ≡ true
    → has_active_manager (commit_update now ctx input target s) ≡ true
unfolding commit_update
commit_update-manager now ctx input target s h = elim (Bool-cases (is_deactivation input target)) [
  | inl off ↦ rw off (revoke-manager now target.id _ ∙ h)
  | inr on ↦ rw on h
]

-- The row that `find_user` gives is the row with that id.
pub found_id : (id : ℕ) (s : Store) {t : User} → find_user id s ≡ some t → t.id ≡ id
unfolding find_user
found_id id s e = (==_iff _ id).0 (find-satisfies (λ u. u.id == id) s.users e)

pub found_self :
    (id : ℕ) (s : Store) {t : User} → find_user id s ≡ some t → find_user t.id s ≡ some t
found_self id s {t} e = subst (λ k. find_user k s ≡ some t) (sym (found_id id s e)) e

others_of_idle :
    (s : Store) {t : User} (id : ℕ)
    → HasUniqueIds s.users
    → has_active_manager s ≡ true
    → find_user id s ≡ some t
    → is_manager s t ≡ false
    → others s t.id ≡ true
unfolding find_user
others_of_idle s {t} id unique m e idle =
    any-other (is_manager s) t.id s.users unique m (found_self id s e) idle

-- After `update_user` returns, some active user may still manage users, if one could before and the
-- ids of the users are distinct.
pub update_user-manager :
    (now : ℕ) (input : UpdateUserInput) (s s' : Store) (role : Role)
    → HasUniqueIds s.users
    → has_active_manager s ≡ true
    → update_user now input s ≡ ok (s', role)
    → has_active_manager s' ≡ true
update_user-manager now input s s' role unique m h =
    let d = update_user-Updating now input s s' role h in
    let commit = commit_update-manager now d.ctx input d.target s in
    let patch = user_patch d.ctx input d.target in
    let found = found_self input.target_user_id s d.found in
    rw d.stored (
      commit (elim (Bool-cases (is_manager s d.target)) [
        | inl manager ↦ elim (guard_last_admin-others d.ctx input d.target s d.not_last manager) [
          | inl still ↦ change-found now d.target.id s patch found still
          | inr other ↦ change-other now d.target.id s patch other
        ]
        | inr idle ↦
            change-other now d.target.id s patch
              (others_of_idle s input.target_user_id unique m d.found idle)
      ]))

deactivate_others :
    (target : User) (s : Store)
    → (includes admin_users_manage (find_permission_keys_by_role_id target.role_id s)
        && count_active_users_granting_permission admin_users_manage target.id s == 0)
      ≡ false
    → is_manager s target ≡ true
    → others s target.id ≡ true
deactivate_others target s h m = ground (arith, count_active-any target.id s)

revoke_first :
    (now id : ℕ) (s : Store)
    → has_active_manager (invalidate_tokens now id (revoke_all_for_user now id s))
      ≡ has_active_manager (invalidate_tokens now id s)
unfolding revoke_all_for_user invalidate_tokens find_permission_keys_by_role_id
revoke_first now id s = refl

deactivate_active-manager :
    (now id : ℕ) (target : User) (s s' : Store)
    → HasUniqueIds s.users
    → has_active_manager s ≡ true
    → find_user id s ≡ some target
    → deactivate_active now target s ≡ ok s'
    → has_active_manager s' ≡ true
unfolding deactivate_active
deactivate_active-manager now id target s s' unique m found h =
    on_ok
      (throw_if
        (includes admin_users_manage (find_permission_keys_by_role_id target.role_id s)
          && count_active_users_granting_permission admin_users_manage target.id s == 0)
        user_last_admin)
      _ h
      λ _ guarded h.
        on_ok
          (assert_not_last_dfsp_manager target target.role_id target.role_id target.fsp_id true s) _
          h
          λ _ _ h.
            let off : User → User = λ u. record u { is_active = false } in
            let another : others s target.id ≡ true = elim (Bool-cases (is_manager s target)) [
              | inl manager ↦
                  deactivate_others target s (ok_of_throw_if _ user_last_admin guarded) manager
              | inr idle ↦ others_of_idle s id unique m found idle
            ] in
            subst (λ t. has_active_manager t ≡ true) (eq_of_ok h)
              (revoke_first now target.id (update_user_row target.id off s)
                ∙ change-other now target.id s off another)

-- So it is after `deactivate_user`, which revokes the sessions first.
pub deactivate_user-manager :
    (now target_user_id acting_user_id : ℕ) (s s' : Store)
    → HasUniqueIds s.users
    → has_active_manager s ≡ true
    → deactivate_user now target_user_id acting_user_id s ≡ ok s'
    → has_active_manager s' ≡ true
unfolding deactivate_user
deactivate_user-manager now id acting s s' unique m h =
    on_ok (resolve_management_context acting s) _ h λ ctx _ h.
      on_ok (throw_if (id == acting) user_self_lock) _ h λ _ _ h.
        on_ok (or_throw (find_user id s) user_not_found) _ h λ target found h.
          on_ok (assert_can_manage_target_role! ctx target (find_role target.role_id s)) _ h
            λ _ _ h. elim (Bool-cases target.is_active) [
              | inl on ↦
                  deactivate_active-manager now id target s s' unique m
                    (ok_of_or_throw _ user_not_found found) (simp on at h)
              | inr already ↦
                  let same : s ≡ s' = eq_of_ok (rw already at h) in
                  subst (λ t. has_active_manager t ≡ true) same m
            ]
