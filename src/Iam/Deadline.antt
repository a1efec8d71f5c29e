-- ===== src/Iam/Deadline.antt =====
-- Refresh tokens: what a rotation gives out, and the deadline of its session.
use pivotal.Base.{
  ◌/◌, eq_of_ok, ℕ, ◌+◌, ◌*◌, ◌≡◌, ◌≤◌, ◌<◌, refl, sym, ap, subst, ◌∙◌, true, false, Option, none,
  some, ◌==◌, leb, arith, find-update_same, String, str_eq, inl, inr, Bool-cases, Option-cases,
  ==_refl, ok,
}
use Prim.Native.Nat.{min}
use pivotal.Iam.{
  User, Role, RefreshToken, Store, find_user, find_role, find_by_token_hash, mark_revoked, is_none,
}
use pivotal.Iam.Sessions.{
  AuthDomainSettings, issue_refresh_token, Fresh, Session, Outcome, is_over, refresh_token,
  refresh_tokens, rotate, rotate_user, or_else, access_token_claims,
}
use mathlib.Core.Option.{map as option_map}
use pivotal.Iam.LastManager.{found_self}
use pivotal.Iam.Rotation.{refresh_tokens-found, save-found}

-- What a request that gave tokens had to go through.
record Rotating (now : ℕ) (settings : AuthDomainSettings) (fresh : Fresh) (t : RefreshToken)
    (s : Store) (r : Outcome) : Type 0 where
  user : User
  role : Role
  deadline : ℕ
  session : t.session_expires_at ≡ some deadline
  young : now < deadline
  idle : now < t.expires_at
  live : is_none t.revoked_at ≡ true
  user_found : find_user t.user_id s ≡ some user
  active : user.is_active ≡ true
  made : r ≡ rotate now settings fresh t user role s

-- The user and role that a rotation found.
record Holder (t : RefreshToken) (s : Store) (now : ℕ) (settings : AuthDomainSettings)
    (fresh : Fresh) (r : Outcome) : Type 0 where
  user : User
  role : Role
  user_found : find_user t.user_id s ≡ some user
  active : user.is_active ≡ true
  made : r ≡ rotate now settings fresh t user role s

rotate_user-Holder :
    (now : ℕ) (settings : AuthDomainSettings) (fresh : Fresh) (t : RefreshToken) (s : Store)
    (o : Option User) {session : Session}
    → find_user t.user_id s ≡ o
    → (rotate_user now settings fresh t o s).1 ≡ ok session
    → Holder t s now settings fresh (rotate_user now settings fresh t o s)
unfolding find_role
rotate_user-Holder now settings fresh t s none found h = cc h
rotate_user-Holder now settings fresh t s (some u) found h = elim (Bool-cases u.is_active) [
  | inl on ↦ elim (Option-cases (find_role u.role_id s)) [
    | inl gone ↦ cc (rw (on, gone) at h)
    | inr (role, known) ↦ record {
      user = u;
      role = role;
      user_found = found;
      active = on;
      made = rw (on, known) refl;
    }
  ]
  | inr off ↦ cc (rw off at h)
]

live_deadline :
    (o : Option ℕ) (now : ℕ)
    → is_over o now ≡ false
    → (deadline : ℕ) × (o ≡ some deadline) × (now < deadline)
live_deadline none now h = cc h
live_deadline (some d) now h = (d, refl, ground arith)

refresh_token-Rotating :
    (now : ℕ) (settings : AuthDomainSettings) (fresh : Fresh) (t : RefreshToken) (s : Store)
    {session : Session}
    → (refresh_token now settings fresh t s).1 ≡ ok session
    → Rotating now settings fresh t s (refresh_token now settings fresh t s)
unfolding refresh_token
refresh_token-Rotating now settings fresh t s {session} h =
    elim (Bool-cases (is_over t.session_expires_at now)) [
      | inl over ↦ cc (rw over at h)
      | inr young ↦ elim (Bool-cases (leb t.expires_at now)) [
        | inl late ↦ cc (rw (young, late) at h)
        | inr idle ↦ elim (Bool-cases (is_none t.revoked_at)) [
          | inl live ↦
              let d = live_deadline t.session_expires_at now young in
              let step : refresh_token now settings fresh t s
                  ≡ rotate_user now settings fresh t (find_user t.user_id s) s =
                rw (young, idle, live) refl in
              let holder =
                rotate_user-Holder now settings fresh t s (find_user t.user_id s) refl
                  (subst (λ r. r.1 ≡ ok session) step h) in
              record {
                user = holder.user;
                role = holder.role;
                deadline = d.0;
                session = d.1;
                young = d.2;
                idle = ground arith;
                live = live;
                user_found = holder.user_found;
                active = holder.active;
                made = step ∙ holder.made;
              }
          | inr used ↦ cc (rw (young, idle, used) at h)
        ]
      ]
    ]

abbrev pub replaced : ℕ → ℕ → RefreshToken → RefreshToken
replaced now id t = record t { revoked_at = some now; replaced_by = some id }

rotate-old :
    (now : ℕ) (settings : AuthDomainSettings) (fresh : Fresh) (user : User) (role : Role)
    (hash : String) (s : Store) {t : RefreshToken}
    → find_by_token_hash hash s ≡ some t
    → find_by_token_hash hash (rotate now settings fresh t user role s).0
      ≡ some (replaced now fresh.id t)
unfolding find_by_token_hash mark_revoked
rotate-old now settings fresh user role hash s {t} found =
    find-update_same (λ x. str_eq x.token_hash hash) (λ x. x.id == t.id) (replaced now fresh.id)
      (λ x. refl) _ (save-found hash _ s found) (==_refl t.id)

min_le_left : (a b : ℕ) → min a b ≤ a
min_le_left a b = ground arith

min_le_right : (a b : ℕ) → min a b ≤ b
min_le_right a b = ground arith

-- A session that a rotation made lies within the deadline.
abbrev pub Within : ℕ → ℕ → RefreshToken → Session → Type 0
Within now deadline t session =
    (session.token.expires_at ≤ deadline)
    × (session.claims.exp ≤ deadline / 1000)
    × (session.token.session_expires_at ≡ some deadline)
    × (session.token.family_id ≡ t.family_id)

rotate-Within :
    (now : ℕ) (settings : AuthDomainSettings) (fresh : Fresh) (user : User) (role : Role)
    (deadline : ℕ) (t : RefreshToken) (s : Store) {session : Session}
    → t.session_expires_at ≡ some deadline
    → (rotate now settings fresh t user role s).1 ≡ ok session
    → Within now deadline t session
      × (session.token.id ≡ fresh.id)
      × (session.token.user_id ≡ user.id)
unfolding issue_refresh_token access_token_claims
rotate-Within now settings fresh user role deadline t s e h =
    let kept : or_else t.session_expires_at
          (now + settings.session_absolute_timeout_hours * 3600000)
        ≡ deadline =
      rw e refl in
    subst (λ x. Within now deadline t x × (x.token.id ≡ fresh.id) × (x.token.user_id ≡ user.id))
      (eq_of_ok h)
      (
        (
          rw kept (min_le_right _ deadline),
          rw kept (min_le_right (now / 1000 + settings.access_token_ttl_seconds) (deadline / 1000)),
          ap some kept,
          refl,
        ),
        refl,
        refl,
      )

-- The tokens that a rotation gives out.
module _ (now : ℕ) (settings : AuthDomainSettings) (fresh : Fresh) (hash : String) (s : Store)
    (t : RefreshToken) (session : Session) where
  -- A request that returns tokens found a live token, unexpired and before its session's
  -- deadline, of an active user. The new token is of that user, family and session, neither it nor
  -- the access token outlasts the session, and the old token is marked as replaced by the new.
  pub refresh_tokens-rotated :
      find_by_token_hash hash s ≡ some t
      → (refresh_tokens now settings fresh hash s).1 ≡ ok session
      → (is_none t.revoked_at ≡ true)
        × (now < t.expires_at)
        × ((deadline : ℕ) × (t.session_expires_at ≡ some deadline)
            × (now < deadline)
            × Within now deadline t session)
        × (option_map (λ u. u.is_active) (find_user session.token.user_id s) ≡ some true)
        × (find_by_token_hash hash (refresh_tokens now settings fresh hash s).0
            ≡ some (replaced now session.token.id t))
  refresh_tokens-rotated found h =
      let all = refresh_tokens-found now settings fresh hash s found in
      let r = refresh_token-Rotating now settings fresh t s (subst (λ o. o.1 ≡ ok session) all h) in
      let made = all ∙ r.made in
      let out =
        rotate-Within now settings fresh r.user r.role r.deadline t s r.session
          (subst (λ o. o.1 ≡ ok session) made h) in
      let owner : find_user session.token.user_id s ≡ some r.user =
        subst (λ k. find_user k s ≡ some r.user) (sym out.2)
          (found_self t.user_id s r.user_found) in
      (
        r.live,
        r.idle,
        (r.deadline, r.session, r.young, out.0),
        ap (option_map (λ u. u.is_active)) owner ∙ ap some r.active,
        subst (λ o. find_by_token_hash hash o.0 ≡ some (replaced now session.token.id t)) (sym made)
            (rotate-old now settings fresh r.user r.role hash s found
              ∙ ap (λ k. some (replaced now k t)) (sym out.1)),
      )
