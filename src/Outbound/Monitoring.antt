-- ===== src/Outbound/Monitoring.antt =====
-- packages/core/outbound/domain/component/suspicious-transaction-monitor.ts: which attempts of one
-- pattern pass.
use pivotal.Base.{
  ℕ, zero, suc, ◌<◌, ◌≡◌, refl, ap, ◌∙◌, Bool, true, false, not, ◌||◌, none, some, ltb, ◌==◌,
  Result, ok, err, throw_if, arith, inl, inr,
}
use pivotal.Text.{Text}
use pivotal.Outbound.Errors.{Thrown}
use pivotal.Outbound.Redis.{Redis, IsRedis, counter, Counts}
use pivotal.Outbound.Effects.{World, ◌>>=◌, lift}
use pivotal.Outbound.Steps.{OutboundSettings, Pattern, build_key, increment, assert_not_suspicious}

abbrev pub is_ok : {A : Type 0} → Result Thrown A → Bool
is_ok (ok a) = true
is_ok (err e) = false

module _ {R : Redis} (settings : OutboundSettings) (pattern : Pattern) where
  abbrev pub try_once : World R → World R × Result Thrown (Unit {0})
  try_once = assert_not_suspicious none settings pattern

  -- The world after so many attempts.
  abbrev pub after_attempts : ℕ → World R → World R
  after_attempts zero w = w
  after_attempts (suc n) w = (try_once (after_attempts n w)).0

is_ok-throw_if : (bad : Bool) (e : Thrown) → is_ok (throw_if bad e) ≡ not bad
is_ok-throw_if true e = refl
is_ok-throw_if false e = refl

-- The monitor is switched on.
abbrev pub IsMonitoring : OutboundSettings → Type 0
IsMonitoring settings =
    (settings.monitor_enabled ≡ true) × (0 < settings.window_ms) × (0 < settings.threshold)

not_off :
    (settings : OutboundSettings)
    → IsMonitoring settings
    → (not settings.monitor_enabled || settings.window_ms == 0 || settings.threshold == 0) ≡ false
not_off settings (enabled, window, threshold) =
    let w : (settings.window_ms == 0) ≡ false = ground arith in
    let t : (settings.threshold == 0) ≡ false = ground arith in rw (enabled, w, t) refl

module _ {R : Redis} (law : IsRedis R) (settings : OutboundSettings) (on : IsMonitoring settings)
    (pattern : Pattern) where
  open law use {incr-count}

  key : Text
  key = build_key pattern settings.matching_fields

  try_once-Counts :
      (w : World R) (n : ℕ)
      → Counts (R.get key w.store) n
      → (is_ok (try_once settings pattern w).1 ≡ not (ltb settings.threshold (suc n)))
        × (R.get key (try_once settings pattern w).0.store ≡ some (counter (suc n)))
  unfolding assert_not_suspicious increment ◌>>=◌ lift key
  try_once-Counts w n h = (
    rw (not_off settings on) (
        is_ok-throw_if _ _
        ∙ ap (λ n. not (ltb settings.threshold n)) (incr-count key n w.store h).0),
    rw (not_off settings on) (incr-count key n w.store h).1,
  )

  after_attempts-Counts :
      (n : ℕ) (w : World R)
      → R.get key w.store ≡ none
      → Counts (R.get key (after_attempts settings pattern n w).store) n
  after_attempts-Counts zero w fresh = inl (fresh, refl)
  after_attempts-Counts (suc n) w fresh =
      inr
        (try_once-Counts (after_attempts settings pattern n w) n
          (after_attempts-Counts n w fresh)).1

  -- Where the monitor is on and no attempt of the pattern has been counted in the window, an attempt
  -- passes after n others of the pattern in the window if and only if n is below the threshold.
  pub after_attempts-passes :
      (n : ℕ) (w : World R)
      → R.get (build_key pattern settings.matching_fields) w.store ≡ none
      → is_ok (try_once settings pattern (after_attempts settings pattern n w)).1
        ≡ ltb n settings.threshold
  unfolding key
  after_attempts-passes n w fresh =
      (try_once-Counts (after_attempts settings pattern n w) n (after_attempts-Counts n w fresh)).0
      ∙ ground arith
