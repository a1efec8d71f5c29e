-- ===== src/Iam/Revocation.antt =====
-- What a reset, a deactivation and a change of a user leave of that user's tokens.
use pivotal.Base.{
  ℕ, ◌/◌, ◌≡◌, ◌≤◌, refl, sym, subst, ◌∙◌, true, false, ◌&&◌, some, ◌==◌, leb, arith, count,
  count-update_none, String, inl, inr, Bool-cases, on_ok, ok_of_or_throw, ok, err, eq_of_ok,
  throw_if, or_throw,
}
use pivotal.Iam.{
  User, Role, Store, find_user, find_role, update_user_row, revoke_all_for_user, invalidate_tokens,
  is_none, revoke,
}
use pivotal.Iam.Policy.{
  user_last_admin, assert_not_last_dfsp_manager, user_not_found, user_self_lock,
  resolve_management_context, assert_can_manage_target_role!,
}
use pivotal.Iam.Users.{
  UpdateUserInput, reset_user_password, deactivate_user, deactivate_active, update_user,
}
use pivotal.Iam.Sessions.{AuthError, AccessTokenClaims, can_activate, user_inactive, token_revoked}
use pivotal.Iam.LastManager.{found_id, found_self}
use pivotal.Iam.Updating.{update_user-Updating}
use pivotal.Iam.Scope.{stamp-same, update_row-same, revoke-find, commit_update-same}

-- The refresh tokens of a user that are not revoked.
abbrev pub live_of : ℕ → Store → ℕ
live_of id s = count (λ t. t.user_id == id && is_none t.revoked_at) s.refresh_tokens

-- The guard refuses the access token `claims`.
abbrev pub Refuses : AccessTokenClaims → Store → Type 0
Refuses claims s = (e : AuthError) × (can_activate true (some claims) s ≡ err e)

revoke_all-live : (now id : ℕ) (s : Store) → live_of id (revoke_all_for_user now id s) ≡ 0
unfolding revoke_all_for_user
revoke_all-live now id s =
    count-update_none (λ t. t.user_id == id && is_none t.revoked_at)
      (λ t. t.user_id == id && is_none t.revoked_at) (revoke now) (λ t live. (live, ground arith))
      (λ t dead it. cc) s.refresh_tokens

invalidate-live :
    (now id other : ℕ) (s : Store) → live_of other (invalidate_tokens now id s) ≡ live_of other s
unfolding invalidate_tokens update_user_row
invalidate-live now id other s = refl

-- A token that was signed no later than the second of the stamp is refused.
can_activate-stamped :
    (claims : AccessTokenClaims) (now id : ℕ) (s : Store) {u : User}
    → claims.sub ≡ id
    → find_user id s ≡ some u
    → u.tokens_invalidated_at ≡ some now
    → claims.iat ≤ now / 1000
    → Refuses claims s
unfolding can_activate
can_activate-stamped claims now id s {u} sub found stamp old =
    let late : leb claims.iat (now / 1000) ≡ true = ground arith in
    elim (Bool-cases u.is_active) [
      | inl on ↦ (token_revoked, rw (sub, found, on, stamp, late) refl)
      | inr off ↦ (user_inactive, rw (sub, found, off) refl)
    ]

-- The row rewritten, the sessions revoked and the stamp set, as the handlers do.
pub cut_off :
    (now id : ℕ) (f : User → User) (s : Store) (claims : AccessTokenClaims) {u : User}
    → ((x : User) → (f x).id ≡ x.id)
    → find_user id s ≡ some u
    → claims.sub ≡ id
    → claims.iat ≤ now / 1000
    → (live_of id (invalidate_tokens now id (revoke_all_for_user now id (update_user_row id f s)))
        ≡ 0)
      × Refuses claims
          (invalidate_tokens now id (revoke_all_for_user now id (update_user_row id f s)))
cut_off now id f s claims keeps found sub old =
    let changed = update_user_row id f s in
    let there =
      stamp-same now id _ (revoke-find now id id changed ∙ update_row-same id f keeps s found) in
    (
      invalidate-live now id id _ ∙ revoke_all-live now id changed,
      can_activate-stamped claims now id _ sub there refl old,
    )

-- After a reset of a password no refresh token of the user is live, and an access token of the
-- user that was issued up to then is refused.
pub reset_user_password-revokes :
    (now : ℕ) (hash : String) (target acting : ℕ) (s s' : Store) (claims : AccessTokenClaims)
    → reset_user_password now hash target acting s ≡ ok s'
    → claims.sub ≡ target
    → claims.iat ≤ now / 1000
    → (live_of target s' ≡ 0) × Refuses claims s'
unfolding reset_user_password
reset_user_password-revokes now hash target acting s s' claims h sub old =
    on_ok (resolve_management_context acting s) _ h λ ctx _ h.
      on_ok (or_throw (find_user target s) user_not_found) _ h λ user found h.
        on_ok (assert_can_manage_target_role! ctx user (find_role user.role_id s)) _ h λ _ _ h.
          let is_there = ok_of_or_throw _ user_not_found found in
          let key : user.id ≡ target = found_id target s is_there in
          let change : User → User =
            λ u. record u { password_hash = hash; must_change_password = true } in
          subst (λ t. (live_of target t ≡ 0) × Refuses claims t) (eq_of_ok h)
            (subst
              (λ k.
                (live_of k (written user.id change) ≡ 0) × Refuses claims (written user.id change))
              key
              (cut_off now user.id change s claims (λ x. refl) (found_self target s is_there)
                (sub ∙ sym key) old))
  where
    written : ℕ → (User → User) → Store
    written id f = invalidate_tokens now id (revoke_all_for_user now id (update_user_row id f s))

-- After a change of a user's role, FSP or activity, an access token of the user that was issued up
-- to then is refused.
pub update_user-revokes :
    (now : ℕ) (input : UpdateUserInput) (s s' : Store) (role : Role) (claims : AccessTokenClaims)
    → update_user now input s ≡ ok (s', role)
    → claims.sub ≡ input.target_user_id
    → claims.iat ≤ now / 1000
    → Refuses claims s'
update_user-revokes now input s s' role claims h sub old =
    let d = update_user-Updating now input s s' role h in
    let key = found_id input.target_user_id s d.found in
    let own =
      commit_update-same now d.ctx input d.target s (found_self input.target_user_id s d.found) in
    subst (Refuses claims) (sym d.stored)
      (can_activate-stamped claims now d.target.id _ (sub ∙ sym key) own refl old)

can_activate-inactive :
    (claims : AccessTokenClaims) (s : Store) {u : User}
    → find_user claims.sub s ≡ some u
    → u.is_active ≡ false
    → can_activate true (some claims) s ≡ err user_inactive
unfolding can_activate
can_activate-inactive claims s found off = rw (found, off) refl

deactivate_active-row :
    (now : ℕ) (target : User) (s s' : Store)
    → find_user target.id s ≡ some target
    → deactivate_active now target s ≡ ok s'
    → find_user target.id s'
      ≡ some (record target { is_active = false; tokens_invalidated_at = some now })
unfolding deactivate_active
deactivate_active-row now target s s' found h = on_ok (throw_if _ user_last_admin) _ h λ _ _ h.
    on_ok (assert_not_last_dfsp_manager target target.role_id target.role_id target.fsp_id true s) _
      h
      λ _ _ h.
        let off : User → User = λ u. record u { is_active = false } in
        subst
          (λ t.
            find_user target.id t
            ≡ some (record target { is_active = false; tokens_invalidated_at = some now }))
          (eq_of_ok h)
          (stamp-same now target.id _ (
            revoke-find now target.id target.id _
            ∙ update_row-same target.id off (λ u. refl) s found))

-- After `deactivate_user` every access token of the user is refused, whenever it was issued.
pub deactivate_user-revokes :
    (now target acting : ℕ) (s s' : Store) (claims : AccessTokenClaims)
    → deactivate_user now target acting s ≡ ok s'
    → claims.sub ≡ target
    → can_activate true (some claims) s' ≡ err user_inactive
unfolding deactivate_user
deactivate_user-revokes now id acting s s' claims h sub =
    on_ok (resolve_management_context acting s) _ h λ ctx _ h.
      on_ok (throw_if (id == acting) user_self_lock) _ h λ _ _ h.
        on_ok (or_throw (find_user id s) user_not_found) _ h λ target found h.
          on_ok (assert_can_manage_target_role! ctx target (find_role target.role_id s)) _ h
            λ _ _ h.
              let there = ok_of_or_throw _ user_not_found found in
              let key : claims.sub ≡ target.id = sub ∙ sym (found_id id s there) in
              elim (Bool-cases target.is_active) [
                | inl on ↦
                    let row =
                      deactivate_active-row now target s s' (found_self id s there)
                        (simp on at h) in
                    can_activate-inactive claims s'
                      {u = record target { is_active = false; tokens_invalidated_at = some now }}
                      (rw key row) refl
                | inr already ↦
                    let same : s ≡ s' = eq_of_ok (rw already at h) in
                    subst (λ t. can_activate true (some claims) t ≡ err user_inactive) same
                      (can_activate-inactive claims s {u = target}
                        (subst (λ k. find_user k s ≡ some target) (sym sub) there) already)
              ]
