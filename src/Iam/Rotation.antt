-- ===== src/Iam/Rotation.antt =====
-- Refresh tokens: how many of a family are live, and what becomes of one that was used before.
use pivotal.Base.{
  suc, ==_iff, count-update_lt, ℕ, ◌+◌, ◌≡◌, ◌≤◌, ◌<◌, refl, subst, true, false, ◌&&◌, ◌||◌, Option,
  none, some, [], ◌∷◌, ◌==◌, leb, if◌then◌else◌, arith, count, count-update_none, count-update_le,
  count-append, find-append, String, str_eq, inl, inr, Bool-cases, Option-cases, ==_refl, err,
}
use pivotal.Iam.{
  User, Role, RefreshToken, Store, find_user, find_role, find_by_token_hash, mark_revoked,
  revoke_family, is_none, revoke,
}
use pivotal.Iam.Sessions.{
  AuthDomainSettings, issue_refresh_token, Fresh, refresh_token_reuse, invalid_refresh_token,
  is_over, refresh_token, refresh_tokens, new_token, rotate, rotate_user, save_token,
}

-- The tokens of a family that are not revoked.
abbrev pub live_in : ℕ → Store → ℕ
live_in family s = count (λ t. t.family_id == family && is_none t.revoked_at) s.refresh_tokens

revoke_family-live : (now family : ℕ) (s : Store) → live_in family (revoke_family now family s) ≡ 0
unfolding revoke_family
revoke_family-live now family s =
    count-update_none (λ t. t.family_id == family && is_none t.revoked_at)
      (λ t. t.family_id == family && is_none t.revoked_at) (revoke now)
      (λ t live. (live, ground arith)) (λ t dead it. cc) s.refresh_tokens

pub save-live :
    (family : ℕ) (t : RefreshToken) (s : Store)
    → live_in family (save_token t s)
      ≡ live_in family s + (if t.family_id == family && is_none t.revoked_at then 1 else 0)
save-live family t s = ground (
  arith,
  count-append (λ x. x.family_id == family && is_none x.revoked_at) s.refresh_tokens (t ∷ []),
)

revoke-live_le :
    (now family other : ℕ) (s : Store)
    → live_in other (revoke_family now family s) ≤ live_in other s
unfolding revoke_family
revoke-live_le now family other s =
    count-update_le (λ t. t.family_id == other && is_none t.revoked_at)
      (λ t. t.family_id == family && is_none t.revoked_at) (revoke now) (λ t _ _. ground arith)
      s.refresh_tokens

pub mark-live_le :
    (now id other : ℕ) (by : Option ℕ) (s : Store)
    → live_in other (mark_revoked now id by s) ≤ live_in other s
unfolding mark_revoked
mark-live_le now id other by s =
    count-update_le (λ t. t.family_id == other && is_none t.revoked_at) (λ t. t.id == id)
      (λ t. record t { revoked_at = some now; replaced_by = by }) (λ t _ _. ground arith)
      s.refresh_tokens

mark-live_lt :
    (now : ℕ) (by : Option ℕ) (hash : String) (s : Store) {t : RefreshToken}
    → find_by_token_hash hash s ≡ some t
    → is_none t.revoked_at ≡ true
    → suc (live_in t.family_id (mark_revoked now t.id by s)) ≤ live_in t.family_id s
unfolding mark_revoked find_by_token_hash
mark-live_lt now by hash s {t} found live =
    count-update_lt (λ x. x.family_id == t.family_id && is_none x.revoked_at) (λ x. x.id == t.id)
      (λ x. str_eq x.token_hash hash) (λ x. record x { revoked_at = some now; replaced_by = by })
      (λ x _. ground arith) s.refresh_tokens found (ground (arith, ==_refl t.family_id))
      (==_refl t.id)

pub save-found :
    (hash : String) (new : RefreshToken) (s : Store) {t : RefreshToken}
    → find_by_token_hash hash s ≡ some t
    → find_by_token_hash hash (save_token new s) ≡ some t
unfolding find_by_token_hash
save-found hash new s found =
    find-append (λ x. str_eq x.token_hash hash) s.refresh_tokens (new ∷ []) found

-- Rotation puts one live token in the family and takes one out.
rotate-live :
    (now : ℕ) (settings : AuthDomainSettings) (fresh : Fresh) (user : User) (role : Role)
    (family : ℕ) (hash : String) (s : Store) {t : RefreshToken}
    → find_by_token_hash hash s ≡ some t
    → is_none t.revoked_at ≡ true
    → live_in family (rotate now settings fresh t user role s).0 ≤ live_in family s
rotate-live now settings fresh user role family hash s {t} found live =
    let new =
      new_token fresh user.id t.family_id (issue_refresh_token now settings t.session_expires_at) in
    let saved = save-live family new s in
    let lt =
      mark-live_lt now (some fresh.id) hash (save_token new s) (save-found hash new s found) live in
    elim (Bool-cases (t.family_id == family)) [
      | inl same ↦
          let it : t.family_id ≡ family = (==_iff t.family_id family).0 same in
          let less =
            subst
              (λ k.
                suc (live_in k (mark_revoked now t.id (some fresh.id) (save_token new s)))
                ≤ live_in k (save_token new s))
              it lt in
          omega (arith, less, rw (same) at saved)
      | inr other ↦
          let le = mark-live_le now t.id family (some fresh.id) (save_token new s) in
          omega (arith, le, rw (other) at saved)
    ]

rotate_user-live :
    (now : ℕ) (settings : AuthDomainSettings) (fresh : Fresh) (user : Option User) (family : ℕ)
    (hash : String) (s : Store) {t : RefreshToken}
    → find_by_token_hash hash s ≡ some t
    → is_none t.revoked_at ≡ true
    → live_in family (rotate_user now settings fresh t user s).0 ≤ live_in family s
unfolding find_role
rotate_user-live now settings fresh none family hash s {t} found live =
    revoke-live_le now t.family_id family s
rotate_user-live now settings fresh (some u) family hash s {t} found live =
    elim (Bool-cases u.is_active) [
      | inl on ↦ elim (Option-cases (find_role u.role_id s)) [
        | inl gone ↦ rw (on, gone) (omega arith)
        | inr (role, known) ↦
            rw (on, known) (rotate-live now settings fresh u role family hash s found live)
      ]
      | inr off ↦ rw off (revoke-live_le now t.family_id family s)
    ]

refresh_token-live :
    (now : ℕ) (settings : AuthDomainSettings) (fresh : Fresh) (family : ℕ) (hash : String)
    (s : Store) {t : RefreshToken}
    → find_by_token_hash hash s ≡ some t
    → live_in family (refresh_token now settings fresh t s).0 ≤ live_in family s
unfolding refresh_token find_user
refresh_token-live now settings fresh family hash s {t} found =
    elim (Bool-cases (is_over t.session_expires_at now || leb t.expires_at now)) [
      | inl over ↦ rw over (revoke-live_le now t.family_id family s)
      | inr young ↦ elim (Bool-cases (is_none t.revoked_at)) [
        | inl live ↦
            rw (young, live)
              (rotate_user-live now settings fresh (find_user t.user_id s) family hash s found live)
        | inr used ↦ rw (young, used) (revoke-live_le now t.family_id family s)
      ]
    ]

-- What a request does once the token is found, and where none is.
pub refresh_tokens-found :
    (now : ℕ) (settings : AuthDomainSettings) (fresh : Fresh) (hash : String) (s : Store)
    {t : RefreshToken}
    → find_by_token_hash hash s ≡ some t
    → refresh_tokens now settings fresh hash s ≡ refresh_token now settings fresh t s
unfolding refresh_tokens
refresh_tokens-found now settings fresh hash s found = rw (found, refresh_tokens) refl

pub refresh_tokens-unknown :
    (now : ℕ) (settings : AuthDomainSettings) (fresh : Fresh) (hash : String) (s : Store)
    → find_by_token_hash hash s ≡ none
    → refresh_tokens now settings fresh hash s ≡ (s, err invalid_refresh_token)
unfolding refresh_tokens
refresh_tokens-unknown now settings fresh hash s gone = rw (gone, refresh_tokens) refl

-- No request to refresh raises the number of live tokens in any family.
pub refresh_tokens-live :
    (now : ℕ) (settings : AuthDomainSettings) (fresh : Fresh) (hash : String) (s : Store)
    (family : ℕ)
    → live_in family (refresh_tokens now settings fresh hash s).0 ≤ live_in family s
refresh_tokens-live now settings fresh hash s family =
    elim (Option-cases (find_by_token_hash hash s)) [
      | inl gone ↦ rw (refresh_tokens-unknown now settings fresh hash s gone) (omega arith)
      | inr (t, found) ↦
          rw (refresh_tokens-found now settings fresh hash s found)
            (refresh_token-live now settings fresh family hash s found)
    ]

-- A token that was rotated or revoked and is sent again before it expires is refused as reused,
-- and leaves no live token in its family.
pub refresh_tokens-reused :
    (now : ℕ) (settings : AuthDomainSettings) (fresh : Fresh) (hash : String) (s : Store)
    (t : RefreshToken)
    → find_by_token_hash hash s ≡ some t
    → is_none t.revoked_at ≡ false
    → is_over t.session_expires_at now ≡ false
    → now < t.expires_at
    → ((refresh_tokens now settings fresh hash s).1 ≡ err refresh_token_reuse)
      × (live_in t.family_id (refresh_tokens now settings fresh hash s).0 ≡ 0)
unfolding refresh_token
refresh_tokens-reused now settings fresh hash s t found used young idle =
    let fresh_enough : leb t.expires_at now ≡ false = ground arith in
    rw (refresh_tokens-found now settings fresh hash s found, young, fresh_enough, used)
      (refl, revoke_family-live now t.family_id s)
