-- ===== src/Iam/Scope.antt =====
-- What an administrator of one FSP may reach through the user handlers.
use pivotal.Base.{
  ℕ, ◌≡◌, refl, sym, ap, subst, ◌∙◌, Bool, true, false, not, ◌&&◌, Option, none, some, ◌==◌,
  if◌then◌else◌, arith, find-update_other, find-update_same, find-satisfies, eq_iff, String, str_eq,
  inl, inr, Bool-cases, ok, throw_if, or_throw, on_ok, ok_of_or_throw, ok_of_throw_if, eq_of_ok,
  eq_of_some,
}
use pivotal.Iam.{
  RoleScope, hub, dfsp, User, Role, Store, admin_users_manage, admin_dfsp_users_manage,
  dfsp_admin_role_code, fsp_eq, includes, find_user, find_role, find_permission_keys_by_role_id,
  invalidate_tokens, update_user_row, revoke_all_for_user,
}
use pivotal.Iam.LastManager.{found_id, found_self}
use mathlib.Core.Option.{map as option_map}
use pivotal.Iam.Policy.{
  UserManagementContext, user_management_scope_denied, user_role_not_assignable, found_active,
  is_null, is_dfsp, resolve_management_context, can_manage_target_role, can_assign_role,
  assert_can_manage_target_role, assert_can_assign_role,
}
use pivotal.Iam.Users.{UpdateUserInput, is_deactivation, user_patch, commit_update, update_user}
use pivotal.Iam.Updating.{update_user-Updating}

eq_of_is_dfsp : (scope : RoleScope) → is_dfsp scope ≡ true → scope ≡ dfsp
eq_of_is_dfsp hub h = cc
eq_of_is_dfsp dfsp h = refl

eq_of_fsp_eq : (a b : Option String) → fsp_eq a b ≡ true → a ≡ b
eq_of_fsp_eq none none h = refl
eq_of_fsp_eq none (some b) h = cc
eq_of_fsp_eq (some a) none h = cc
eq_of_fsp_eq (some a) (some b) h = ap some ((eq_iff a b).0 h)

pub found_active-find :
    (o : Option User) {u : User} → found_active o ≡ some u → (o ≡ some u) × (u.is_active ≡ true)
found_active-find none h = cc
found_active-find (some v) {u} h = elim (Bool-cases v.is_active) [
  | inl on ↦
      let it : v ≡ u = eq_of_some (simp on at h) in (rw it, subst (λ w. w.is_active ≡ true) it on)
  | inr off ↦ cc (rw off at h)
]

-- The context of an actor, read off the store.
pub record Acting (actor_id : ℕ) (s : Store) (ctx : UserManagementContext) : Type 0 where
  pub found : find_user actor_id s ≡ some ctx.actor
  pub active : ctx.actor.is_active ≡ true
  pub global :
      ctx.global_manager
      ≡ includes admin_users_manage (find_permission_keys_by_role_id ctx.actor.role_id s)
  pub fsp : ctx.management_fsp_id ≡ (if ctx.global_manager then none else ctx.actor.fsp_id)

pub resolve-Acting :
    (actor_id : ℕ) (s : Store) (ctx : UserManagementContext)
    → resolve_management_context actor_id s ≡ ok ctx
    → Acting actor_id s ctx
unfolding resolve_management_context
resolve-Acting actor_id s ctx h =
    on_ok (or_throw (found_active (find_user actor_id s)) user_management_scope_denied) _ h
      λ actor found h.
        on_ok (or_throw (find_role actor.role_id s) user_management_scope_denied) _ h λ role _ h.
          let keys = find_permission_keys_by_role_id actor.role_id s in
          let global = includes admin_users_manage keys in
          on_ok
            (throw_if (not global && not (includes admin_dfsp_users_manage keys))
              user_management_scope_denied)
            _ h
            λ _ _ h.
              on_ok (throw_if (not global && is_null actor.fsp_id) user_management_scope_denied) _ h
                λ _ _ h.
                  let seen =
                    found_active-find _ (ok_of_or_throw _ user_management_scope_denied found) in
                  subst (Acting actor_id s) (eq_of_ok h)
                    (record { found = seen.0; active = seen.1; global = refl; fsp = refl })

-- What a statement on one row leaves of the others, and what it makes of its own.
module _ (id : ℕ) (f : User → User) (keeps : (u : User) → (f u).id ≡ u.id) (s : Store) where
  update_row-other :
      (other : ℕ)
      → (other == id) ≡ false
      → find_user other (update_user_row id f s) ≡ find_user other s
  unfolding find_user update_user_row
  update_row-other other apart =
      find-update_other (λ u. u.id == other) (λ u. u.id == id) f
        (λ u hit. (ground (arith, keeps u), ground (arith, keeps u))) s.users

  pub update_row-same :
      {t : User} → find_user id s ≡ some t → find_user id (update_user_row id f s) ≡ some (f t)
  unfolding find_user update_user_row
  update_row-same {t} found =
      find-update_same (λ u. u.id == id) (λ u. u.id == id) f (λ u. rw (keeps u) refl) s.users found
        (find-satisfies (λ u. u.id == id) s.users found)

pub revoke-find :
    (now id other : ℕ) (s : Store)
    → find_user other (revoke_all_for_user now id s) ≡ find_user other s
unfolding find_user revoke_all_for_user
revoke-find now id other s = refl

stamp-other :
    (now id : ℕ) (s : Store) (other : ℕ)
    → (other == id) ≡ false
    → find_user other (invalidate_tokens now id s) ≡ find_user other s
unfolding invalidate_tokens
stamp-other now id s other = update_row-other id _ (λ u. refl) s other

pub stamp-same :
    (now id : ℕ) (s : Store) {t : User}
    → find_user id s ≡ some t
    → find_user id (invalidate_tokens now id s)
      ≡ some (record t { tokens_invalidated_at = some now })
unfolding invalidate_tokens
stamp-same now id s found = update_row-same id _ (λ u. refl) s found

-- The rows of other users stay as they are, and the target's row is rewritten.
module _ (now : ℕ) (ctx : UserManagementContext) (input : UpdateUserInput) (target : User)
    (s : Store) where
  abbrev patched : Store
  patched =
      invalidate_tokens now target.id (update_user_row target.id (user_patch ctx input target) s)

  commit_update-find :
      (other : ℕ) → find_user other (commit_update now ctx input target s) ≡ find_user other patched
  unfolding commit_update
  commit_update-find other = elim (Bool-cases (is_deactivation input target)) [
    | inl off ↦ rw off (revoke-find now target.id other patched)
    | inr on ↦ rw on refl
  ]

  commit_update-other :
      (other : ℕ)
      → (other == target.id) ≡ false
      → find_user other (commit_update now ctx input target s) ≡ find_user other s
  commit_update-other other apart =
      commit_update-find other
      ∙ stamp-other now target.id _ other apart
      ∙ update_row-other target.id _ (λ u. refl) s other apart

  pub commit_update-same :
      find_user target.id s ≡ some target
      → find_user target.id (commit_update now ctx input target s)
        ≡ some (record (user_patch ctx input target target) { tokens_invalidated_at = some now })
  commit_update-same found =
      commit_update-find target.id
      ∙ stamp-same now target.id _
          (update_row-same target.id (user_patch ctx input target) (λ u. refl) s found)

-- What a manager without the key `admin.users.manage` was held to.
local_target :
    (ctx : UserManagementContext) (target : User) (role : Role)
    → ctx.global_manager ≡ false
    → can_manage_target_role ctx target role ≡ true
    → target.fsp_id ≡ ctx.management_fsp_id
unfolding can_manage_target_role
local_target ctx target role g h = eq_of_fsp_eq target.fsp_id ctx.management_fsp_id (ground arith)

local_role :
    (ctx : UserManagementContext) (role : Role)
    → ctx.global_manager ≡ false
    → can_assign_role ctx role ≡ true
    → (role.scope ≡ dfsp) × (str_eq role.code dfsp_admin_role_code ≡ false)
unfolding can_assign_role
local_role ctx role g h = (eq_of_is_dfsp role.scope (ground arith), ground arith)

true_of_not : (b : Bool) → not b ≡ false → b ≡ true
true_of_not true h = refl
true_of_not false h = cc

local_management :
    (ctx : UserManagementContext) (target : User) (role new_role : Role)
    → ctx.global_manager ≡ false
    → ctx.management_fsp_id ≡ ctx.actor.fsp_id
    → assert_can_manage_target_role ctx target role ≡ ok tt
    → assert_can_assign_role ctx new_role ≡ ok tt
    → (target.fsp_id ≡ ctx.actor.fsp_id)
      × (new_role.scope ≡ dfsp)
      × (str_eq new_role.code dfsp_admin_role_code ≡ false)
unfolding assert_can_manage_target_role assert_can_assign_role
local_management ctx target role new_role g fsp manage assign =
    let may = true_of_not _ (ok_of_throw_if _ user_management_scope_denied manage) in
    let given = true_of_not _ (ok_of_throw_if _ user_role_not_assignable assign) in
    let (scope, code) = local_role ctx new_role g given in
    (local_target ctx target role g may ∙ fsp, scope, code)

abbrev pub fsp_in : Store → ℕ → Option (Option String)
fsp_in s id = option_map (λ u. u.fsp_id) (find_user id s)

local_commit :
    (now : ℕ) (ctx : UserManagementContext) (input : UpdateUserInput) (target : User) (s : Store)
    (id other : ℕ)
    → find_user id s ≡ some target
    → (other == id) ≡ false
    → ctx.global_manager ≡ false
    → (find_user other (commit_update now ctx input target s) ≡ find_user other s)
      × (fsp_in (commit_update now ctx input target s) id ≡ some ctx.management_fsp_id)
local_commit now ctx input target s id other found apart g =
    let key : target.id ≡ id = found_id id s found in
    let after = commit_update-same now ctx input target s (found_self id s found) in
    let fsp = ap (option_map (λ u. u.fsp_id)) after in
    (
      commit_update-other now ctx input target s other
          (subst (λ k. (other == k) ≡ false) (sym key) apart),
      subst (λ k. fsp_in (commit_update now ctx input target s) k ≡ some ctx.management_fsp_id) key
          (fsp ∙ ap some (ground arith)),
    )

-- A manager without the key `admin.users.manage` who changes a user is in the user's FSP, gives a
-- role of DFSP scope other than the DFSP administrator's, and leaves the user in that FSP and
-- every other row as it was.
pub update_user-scope :
    (now : ℕ) (input : UpdateUserInput) (s s' : Store) (role : Role) (actor target : User)
    (other : ℕ)
    → find_user input.acting_user_id s ≡ some actor
    → find_user input.target_user_id s ≡ some target
    → includes admin_users_manage (find_permission_keys_by_role_id actor.role_id s) ≡ false
    → (other == input.target_user_id) ≡ false
    → update_user now input s ≡ ok (s', role)
    → (target.fsp_id ≡ actor.fsp_id)
      × (role.scope ≡ dfsp)
      × (str_eq role.code dfsp_admin_role_code ≡ false)
      × (find_user other s' ≡ find_user other s)
      × (fsp_in s' input.target_user_id ≡ some actor.fsp_id)
update_user-scope now input s s' role actor target other is_actor is_target idle apart h =
    let d = update_user-Updating now input s s' role h in
    let a = resolve-Acting input.acting_user_id s d.ctx d.resolved in
    let same_actor : actor ≡ d.ctx.actor = eq_of_some (sym is_actor ∙ a.found) in
    let same_target : d.target ≡ target = eq_of_some (sym d.found ∙ is_target) in
    let g : d.ctx.global_manager ≡ false = rw a.global (rw same_actor at idle) in
    let fsp : d.ctx.management_fsp_id ≡ d.ctx.actor.fsp_id = rw g at a.fsp in
    let local =
      local_management d.ctx d.target d.target_role role g fsp d.manageable d.assignable in
    let (kept, own) =
      local_commit now d.ctx input d.target s input.target_user_id other d.found apart g in
    (
      ap (λ u. u.fsp_id) (sym same_target) ∙ local.0 ∙ ap (λ u. u.fsp_id) (sym same_actor),
      local.1,
      local.2,
      subst (λ t. find_user other t ≡ find_user other s) (sym d.stored) kept,
      subst (λ t. fsp_in t input.target_user_id ≡ some d.ctx.management_fsp_id) (sym d.stored) own
          ∙ ap some (fsp ∙ ap (λ u. u.fsp_id) (sym same_actor)),
    )
