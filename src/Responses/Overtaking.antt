-- ===== src/Responses/Overtaking.antt =====
-- Two waiters for one success subject, of which the first times out.
use pivotal.Base.{
  ℕ, ◌≡◌, refl, sym, ap, subst, ◌∙◌, Bool, true, false, not, Option, none, some, List, [], ◌∷◌,
  ◌++◌, ◌==◌, ==_refl, any, all, filter, find, inl, inr, Bool-cases, arith,
}
use pivotal.Text.{Text}
use pivotal.Responses.Subjects.{text_eq_refl}
use pivotal.Responses.Maps.{Map, get, set, delete}
use pivotal.Responses.{
  PendingEntry, Subscriber, timed_out, cancel, cancel_entry, delete_hub, set_hub, clear_timer,
  evict_expired_recent, candidates, register, wait_for, timer_fires, fire,
}
use pivotal.Responses.Cache.{Event, run}
use pivotal.Responses.Overwriting.{
  Only, set-Only, delete-Only, weaken-Only, IsUncached, evicted, wait_for-uncached, register-get,
}
use pivotal.Responses.Starvation.{
  IsLost, starts, settle-IsLost, set_hub-other, set-other, run-IsLost,
}

module _ (id : ℕ) (e : PendingEntry) where
  abbrev own : Option Text → List Text
  own = candidates e.success_subject e.error_subject

  set_hub-Only :
      (o : Option Text) (m : Map PendingEntry)
      → Only id [] m
      → Only id (own o) (set_hub o e (set e.error_subject e (set e.success_subject e m)))
  set_hub-Only none m h =
      set-Only id (own none) e.error_subject e _ (ground (arith, text_eq_refl e.error_subject)) (
        set-Only id (own none) e.success_subject e m
          (ground (arith, text_eq_refl e.success_subject)) (weaken-Only id (own none) m h))
  set_hub-Only (some hub) m h =
      set-Only id (own (some hub)) hub e _ (ground (arith, text_eq_refl hub)) (
        set-Only id (own (some hub)) e.error_subject e _
          (ground (arith, text_eq_refl e.error_subject))
          (set-Only id (own (some hub)) e.success_subject e m
            (ground (arith, text_eq_refl e.success_subject)) (weaken-Only id (own (some hub)) m h)))

  delete_hub-Only :
      (o : Option Text) (m : Map PendingEntry)
      → Only id (own o) m
      → Only id [] (delete_hub o (delete e.error_subject (delete e.success_subject m)))
  delete_hub-Only none m h =
      delete-Only id e.error_subject [] _
        (delete-Only id e.success_subject (e.error_subject ∷ []) m h)
  delete_hub-Only (some hub) m h = delete-Only id hub [] _ (
      delete-Only id e.error_subject (hub ∷ []) _
        (delete-Only id e.success_subject (e.error_subject ∷ hub ∷ []) m h))

module _ {ℓ} {A : Type ℓ} (p : A → Bool) where
  all-filter_same : (xs : List A) → all p (filter p xs) ≡ true
  all-filter_same [] = refl
  all-filter_same (x ∷ xs) = ground (arith, all-filter_same xs)

  find-new :
      (xs : List A) (x : A) (ys : List A)
      → all (λ y. not (p y)) xs ≡ true
      → p x ≡ true
      → find p ((xs ++ x ∷ []) ++ ys) ≡ some x
  find-new [] x ys h k = rw k refl
  find-new (y ∷ xs) x ys h k = elim (Bool-cases (p y)) [
    | inl bad ↦ cc (rw bad at h)
    | inr good ↦ rw good (find-new xs x ys (ground arith) k)
  ]

cancel-found :
    (key : Text) (s : Subscriber) {e : PendingEntry}
    → get key s.pending ≡ some e
    → cancel key s ≡ cancel_entry (some e) s
unfolding cancel
cancel-found key s h = ap (λ o. cancel_entry o s) h

timer_fires-found :
    (id : ℕ) (s : Subscriber) {e : PendingEntry}
    → find (λ x. x.id == id) s.timers ≡ some e
    → timer_fires id s ≡ fire (some e) s
unfolding timer_fires cancel
timer_fires-found id s h = ap (λ o. fire o s) h

-- Once the entry that stands under its own success subject is cancelled, a waiter is lost.
cancel-registered :
    (e : PendingEntry) (s : Subscriber)
    → Only e.id (candidates e.success_subject e.error_subject e.hub_error_subject) s.pending
    → find (λ r. r.0 == e.id) s.settled ≡ none
    → IsLost e.id (cancel_entry (some e) s)
cancel-registered e s only unsettled = record {
  unlisted = delete_hub-Only e.id e e.hub_error_subject s.pending only;
  untimed = all-filter_same (λ x. not (x.id == e.id)) s.timers;
  unsettled = unsettled;
}

register-Only :
    (first second : PendingEntry) (s : Subscriber)
    → (first.id == second.id) ≡ false
    → Only second.id [] s.pending
    → Only second.id
        (candidates second.success_subject second.error_subject second.hub_error_subject)
        (register second (register first s)).pending
unfolding register
register-Only first second s apart h = set_hub-Only second.id second second.hub_error_subject _ (
    set_hub-other second.id first.hub_error_subject first _ apart (
      set-other second.id first.error_subject first _ apart
        (set-other second.id first.success_subject first s.pending apart h)))

register-timers :
    (first second : PendingEntry) (s : Subscriber)
    → all (λ e. not (e.id == first.id)) s.timers ≡ true
    → find (λ e. e.id == first.id) (register second (register first s)).timers ≡ some first
unfolding register
register-timers first second s new =
    find-new (λ e. e.id == first.id) s.timers first (second ∷ []) new (==_refl first.id)

register-settled : (e : PendingEntry) (s : Subscriber) → (register e s).settled ≡ s.settled
unfolding register
register-settled e s = refl

-- The second of two waiters for the same success subject, once the timer of the first has fired.
overtaken-IsLost :
    (first second : PendingEntry) (s : Subscriber)
    → second.success_subject ≡ first.success_subject
    → (first.id == second.id) ≡ false
    → all (λ e. not (e.id == first.id)) s.timers ≡ true
    → IsLost second.id s
    → IsLost second.id (timer_fires first.id (register second (register first s)))
unfolding cancel
overtaken-IsLost first second s same apart new lost =
    let both = register second (register first s) in
    let cleared : Subscriber = record both { timers = clear_timer first.id both.timers } in
    let present =
      subst (λ k. get k both.pending ≡ some second) same (register-get second (register first s)) in
    let settled = register-settled second (register first s) ∙ register-settled first s in
    let gone =
      cancel-registered second cleared (register-Only first second s apart lost.unlisted)
        (ap (find (λ r. r.0 == second.id)) settled ∙ lost.unsettled) in
    subst (IsLost second.id)
      (sym (timer_fires-found first.id both (register-timers first second s new)))
      (settle-IsLost second.id first.id timed_out (cancel first.success_subject cleared) apart
        (subst (IsLost second.id) (sym (cancel-found first.success_subject cleared present)) gone))

-- Two requests wait for the same success subject, neither finds anything cached, and the timer of
-- the first fires before a message comes: the second is never settled, neither by a message nor by
-- its timer, whatever happens afterwards. Its number must be new, and the first have no timer yet.
pub run-overtaken :
    (now later : ℕ) (first second : PendingEntry) (s : Subscriber) (es : List Event)
    → second.success_subject ≡ first.success_subject
    → (first.id == second.id) ≡ false
    → all (λ e. not (e.id == first.id)) s.timers ≡ true
    → IsLost second.id s
    → IsUncached now first s
    → IsUncached later second (register first (evicted now s))
    → any (starts second.id) es ≡ false
    → find
        (λ r. r.0 == second.id)
        (run es (timer_fires first.id (wait_for later second (wait_for now first s)))).settled
      ≡ none
unfolding register
run-overtaken now later first second s es same apart new lost un un' k =
    let a = wait_for-uncached now first s un in
    let b = wait_for-uncached later second (register first (evicted now s)) un' in
    let kept = evict_expired_recent later (evict_expired_recent now s.recent) in
    let lost' : IsLost second.id (record s { recent = kept }) = record {
      unlisted = lost.unlisted;
      untimed = lost.untimed;
      unsettled = lost.unsettled;
    } in
    let r =
      run-IsLost second.id es _ k
        (overtaken-IsLost first second (record s { recent = kept }) same apart new lost') in
    let start = ap (wait_for later second) a ∙ b in
    subst (λ t. find (λ x. x.0 == second.id) (run es (timer_fires first.id t)).settled ≡ none)
      (sym start) r.unsettled
