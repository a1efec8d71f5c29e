-- ===== src/Responses/Cache.antt =====
-- The cache of messages that nobody waited for.
use pivotal.Base.{
  ℕ, ◌≡◌, ◌≤◌, ◌<◌, refl, ap, not, Option, none, some, List, [], ◌∷◌, leb, length, ◌==◌, filter,
  find, all, inl, inr, Bool-cases, Option-cases, arith,
}
use pivotal.Text.{Text}
use pivotal.Responses.Subjects.{text_eq, text_eq_refl}
use pivotal.Responses.Maps.{Map, get, set, delete, length-set_le, length-filter_le}
use pivotal.Responses.{
  PendingEntry, RecentEntry, RecentMatch, Subscriber, cancel, cancel_entry,
  recent_cache_max_entries, drop_oldest, add_to_recent, evict_expired_recent, take_exact,
  take_any_payee, or_any_payee, take_from_recent, wait_with, wait_for, register, candidates,
  timer_fires, fire, clear_timer, deliver, dispatch, match_pending, is_candidate,
}
use pivotal.Responses.Subjects.{to_any_payee_subject}

-- What happens to a subscriber, each with the time.
pub data Event : Type 0 where
  waits : ℕ → PendingEntry → Event
  cancels : Text → Event
  times_out : ℕ → Event
  receives : ℕ → Text → ℕ → Event

unfoldable pub step : Event → Subscriber → Subscriber
step (waits now e) s = wait_for now e s
step (cancels subject) s = cancel subject s
step (times_out id) s = timer_fires id s
step (receives now subject payload) s = dispatch now subject payload s

unfoldable pub run : List Event → Subscriber → Subscriber
unfolding step
run [] s = s
run (e ∷ es) s = run es (step e s)

delete-head_lt :
    (k : Text) (e : RecentEntry) (m : Map RecentEntry) → length (delete k ((k, e) ∷ m)) ≤ length m
delete-head_lt k e m =
    ground (arith, text_eq_refl k, length-filter_le (λ kv. not (text_eq kv.0 k)) m)

module _ (subject : Text) (e : RecentEntry) where
  le_of_set :
      (m : Map RecentEntry)
      → length m < recent_cache_max_entries
      → length (set subject e m) ≤ recent_cache_max_entries
  le_of_set m h = omega (arith, length-set_le subject e m)

  dropped :
      (m : Map RecentEntry)
      → length m ≤ recent_cache_max_entries
      → length (set subject e (drop_oldest m)) ≤ recent_cache_max_entries
  dropped [] h = omega arith
  dropped ((k, old) ∷ m) h =
      le_of_set (drop_oldest ((k, old) ∷ m)) (omega (arith, delete-head_lt k old m))

add_to_recent-length :
    (now : ℕ) (subject : Text) (payload : ℕ) (m : Map RecentEntry)
    → length m ≤ recent_cache_max_entries
    → length (add_to_recent now subject payload m) ≤ recent_cache_max_entries
unfolding add_to_recent
add_to_recent-length now subject payload m h =
    let kept = filter (λ kv. not (leb kv.1.expires_at now)) m in
    let short = length-filter_le (λ kv. not (leb kv.1.expires_at now)) m in
    elim (Bool-cases (leb recent_cache_max_entries (length kept))) [
      | inl full ↦ rw full (dropped subject _ kept (omega (arith, short, h)))
      | inr room ↦ rw room (le_of_set subject _ kept (ground (arith, room)))
    ]

-- What is left of the cache is no longer than `n`.
abbrev Shorter : ℕ → Option (RecentMatch × Map RecentEntry) → Type 0
Shorter n none = Unit
Shorter n (some (found, rest)) = length rest ≤ n

delete-length_le : (k : Text) (m : Map RecentEntry) → length (delete k m) ≤ length m
delete-length_le k = length-filter_le (λ kv. not (text_eq kv.0 k))

take_exact-Shorter :
    (subjects : List Text) (m : Map RecentEntry) → Shorter (length m) (take_exact subjects m)
take_exact-Shorter [] m = tt
take_exact-Shorter (subject ∷ subjects) m = elim (Option-cases (get subject m)) [
  | inl gone ↦ rw (gone, take_exact) (take_exact-Shorter subjects m)
  | inr (entry, there) ↦ rw (there, take_exact) (delete-length_le subject m)
]

take_any_payee-Shorter :
    (subjects : List Text) (m all : Map RecentEntry)
    → Shorter (length all) (take_any_payee subjects m all)
take_any_payee-Shorter subjects [] all = tt
take_any_payee-Shorter subjects ((k, e) ∷ m) all =
    elim (Bool-cases (is_candidate subjects (to_any_payee_subject k))) [
      | inl hit ↦ rw hit (delete-length_le k all)
      | inr miss ↦ rw miss (take_any_payee-Shorter subjects m all)
    ]

or_any_payee-Shorter :
    (o : Option (RecentMatch × Map RecentEntry)) (subjects : List Text) (m : Map RecentEntry)
    → Shorter (length m) o
    → Shorter (length m) (or_any_payee o subjects m)
or_any_payee-Shorter none subjects m h = take_any_payee-Shorter subjects m m
or_any_payee-Shorter (some r) subjects m h = h

wait_with-length :
    (o : Option (RecentMatch × Map RecentEntry)) (e : PendingEntry) (s : Subscriber)
    → Shorter (length s.recent) o
    → length (wait_with o e s).recent ≤ length s.recent
unfolding register
wait_with-length none e s h = omega arith
wait_with-length (some (found, rest)) e s h = h

cancel-recent : (o : Option PendingEntry) (s : Subscriber) → (cancel_entry o s).recent ≡ s.recent
cancel-recent none s = refl
cancel-recent (some e) s = refl

abbrev pub IsBounded : Subscriber → Type 0
IsBounded s = length s.recent ≤ recent_cache_max_entries

fire-IsBounded : (o : Option PendingEntry) (s : Subscriber) → IsBounded s → IsBounded (fire o s)
unfolding cancel
fire-IsBounded none s h = h
fire-IsBounded (some e) s h = omega (
  arith,
  ap length (
      cancel-recent (get e.success_subject s.pending)
        (record s { timers = clear_timer e.id s.timers })),
)

deliver-IsBounded :
    (o : Option (Text × PendingEntry)) (now : ℕ) (subject : Text) (payload : ℕ) (s : Subscriber)
    → IsBounded s
    → IsBounded (deliver o now subject payload s)
unfolding cancel
deliver-IsBounded none now subject payload s h = add_to_recent-length now subject payload s.recent h
deliver-IsBounded (some (matched, e)) now subject payload s h =
    omega (arith, ap length (cancel-recent (get e.success_subject s.pending) s))

step-IsBounded : (ev : Event) (s : Subscriber) → IsBounded s → IsBounded (step ev s)
unfolding step wait_for evict_expired_recent take_from_recent cancel timer_fires dispatch
step-IsBounded (waits now e) s h =
    let kept = evict_expired_recent now s.recent in
    let short = length-filter_le (λ kv. not (leb kv.1.expires_at now)) s.recent in
    let subjects = candidates e.success_subject e.error_subject e.hub_error_subject in
    let taken =
      wait_with-length (take_from_recent subjects kept) e (record s { recent = kept })
        (or_any_payee-Shorter (take_exact subjects kept) subjects kept
          (take_exact-Shorter subjects kept)) in
    omega (arith, taken, short, h)
step-IsBounded (cancels subject) s h =
    omega (arith, ap length (cancel-recent (get subject s.pending) s))
step-IsBounded (times_out id) s h = fire-IsBounded (find (λ e. e.id == id) s.timers) s h
step-IsBounded (receives now subject payload) s h =
    deliver-IsBounded (match_pending subject s.pending) now subject payload s h

-- Whatever happens in whatever order, the cache holds 2,000 messages at most.
pub run-IsBounded : (es : List Event) (s : Subscriber) → IsBounded s → IsBounded (run es s)
unfolding run
run-IsBounded [] s h = h
run-IsBounded (e ∷ es) s h = run-IsBounded es (step e s) (step-IsBounded e s h)
