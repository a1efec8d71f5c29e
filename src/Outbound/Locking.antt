-- ===== src/Outbound/Locking.antt =====
-- Reasoning about the lock around a handler and the counter of the monitor.
use pivotal.Base.{
  ◌≡◌, refl, ap, ◌∙◌, false, not, ◌||◌, Option, none, some, ◌==◌, inl, inr, Bool-cases, ok, Option,
}
use pivotal.Text.{Text}
use pivotal.Responses.Subjects.{text_eq}
use pivotal.Outbound.Errors.{Thrown}
use pivotal.Outbound.Redis.{
  Redis, IsRedis, Value, cached, token, counter, lock_key, acquire_lock, release_lock, delete_if,
}
use pivotal.Outbound.Effects.{Replies, Action, command}
use pivotal.Outbound.Steps.{
  increment, assert_not_suspicious, OutboundSettings, Pattern, build_key, lock, unlock, with_lock,
}
use pivotal.Outbound.Views.{View, view_of}
use pivotal.Outbound.Triples.{Triple, after, ensured, lifted, returned}
use pivotal.Outbound.Storing.{IsPlain, done-Post, get-put_other, get-del_other}

module _ {R : Redis} (law : IsRedis R) (id : Text) where
  open law use {put_new-free, put_new-taken, get-incr}

  get-acquire :
      (plain : IsPlain id) (key own : Text) (s : R.Store) (x : Option Value)
      → R.get (lock_key key) s ≡ x
      → R.get id (acquire_lock R key own s).0 ≡ R.get id s
  unfolding acquire_lock
  get-acquire plain key own s none h =
      ap (λ r. R.get id r.0) (put_new-free (lock_key key) (token own) s h)
      ∙ get-put_other law id (lock_key key) (token own) s (plain.no_lock key)
  get-acquire plain key own s (some v) h =
      ap (λ r. R.get id r.0) (put_new-taken (lock_key key) (token own) v s h)

  get-delete_if :
      (plain : IsPlain id) (key own : Text) (s : R.Store) (x : Option Value)
      → R.get id (delete_if R (lock_key key) own x s) ≡ R.get id s
  get-delete_if plain key own s none = refl
  get-delete_if plain key own s (some (cached t)) = refl
  get-delete_if plain key own s (some (counter n)) = refl
  get-delete_if plain key own s (some (token held)) = elim (Bool-cases (text_eq held own)) [
    | inl mine ↦ rw mine (get-del_other law id (lock_key key) s (plain.no_lock key))
    | inr other ↦ rw other refl
  ]

  module _ (plain : IsPlain id) {P E : View → Type 0} (fails : (v : View) → P v → E v) where
    locking :
        (answer : Option Thrown) (key own : Text)
        → Triple {R = R} id P (lock answer key own) (λ o v. P v) E
    unfolding lock
    locking none key own = record {
      run = λ w p.
          done-Post id P E (λ o. P) w (acquire_lock R key own w.store).0
            (ok (acquire_lock R key own w.store).1)
            (get-acquire plain key own w.store (R.get (lock_key key) w.store) refl) fails
            (λ a v q. q) p;
    }
    locking (some e) key own = record { run = λ w p. fails (view_of id w) p }

    unlocking :
        (answer : Option Thrown) (key own : Text)
        → Triple {R = R} id P (unlock answer key own) (λ o v. P v) E
    unfolding unlock release_lock command
    unlocking none key own = record {
      run = λ w p.
          done-Post id P E (λ o. P) w (release_lock R key own w.store) (ok tt)
            (get-delete_if plain key own w.store (R.get (lock_key key) w.store)) fails (λ a v q. q)
            p;
    }
    unlocking (some e) key own = returned _ fails (λ a v e p. p)

    counting :
        (answer : Option Thrown) (key : Text)
        → text_eq key id ≡ false
        → Triple {R = R} id P (increment answer key) (λ n v. P v) E
    unfolding increment
    counting none key h = record {
      run = λ w p.
          done-Post id P E (λ o. P) w (R.incr key w.store).0 (ok (R.incr key w.store).1)
            (get-incr id key w.store h) fails (λ a v q. q) p;
    }
    counting (some e) key h = record { run = λ w p. fails (view_of id w) p }

    pub monitored :
        (answer : Option Thrown) (settings : OutboundSettings) (pattern : Pattern)
        → Triple {R = R} id P (assert_not_suspicious answer settings pattern) (λ u v. P v) E
    unfolding assert_not_suspicious build_key
    monitored answer settings pattern =
        elim (Bool-cases
          (not settings.monitor_enabled || settings.window_ms == 0 || settings.threshold == 0)) [
            | inl off ↦ rw off (returned _ fails (λ a v e p. p))
            | inr on ↦ rw on (
                after (λ n v. P v) (counting answer _ (plain.no_counter _))
                  (λ n. returned _ fails (λ a v e p. p)))
          ]

  -- A handler under the lock does to the view what it does without.
  pub locked :
      (plain : IsPlain id) {A C : Type 0} {P E : View → Type 0} {Q : A → View → Type 0}
      (replies : Replies C) (key : Text) {body : Action R A}
      → ((v : View) → P v → E v)
      → ((a : A) (v : View) → Q a v → E v)
      → Triple id P body Q E
      → Triple id P (with_lock replies key body) Q E
  unfolding with_lock
  locked plain {P} {E} {Q} replies key fails ends inner =
      after (λ o v. P v) (locking plain fails replies.locking key replies.own_token)
        (λ held. lifted _ fails λ own e.
          ensured Q E inner (λ a. unlocking plain (ends a) replies.releasing key own)
            (unlocking plain (λ v p. p) replies.releasing key own))
