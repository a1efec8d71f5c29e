-- ===== src/Responses.antt =====
-- packages/shared/fspiop/component/nats/fspiop-response-subscriber.ts: requests that wait for the
-- callback of the hub, matched to messages by subject. A waiter is numbered in the order of the
-- calls; a payload is a number, which the code only passes on. `Date.now()` is an argument.
pub mod Subjects
pub mod Maps
pub mod Cache
pub mod Overwriting
pub mod Starvation
pub mod Overtaking
mod Tests
use pivotal.Base.{
  ℕ, zero, suc, ◌+◌, Bool, true, false, not, ◌&&◌, ◌||◌, Option, none, some, List, [], ◌∷◌, ◌++◌,
  ◌==◌, ltb, leb, if◌then◌else◌, any, filter, find, length,
}
use pivotal.Text.{Text}
use pivotal.Responses.Subjects.{text_eq, to_any_payee_subject}
use pivotal.Responses.Maps.{Map, get, set, delete, keys}

pub record PendingEntry : Type 0 where
  pub id : ℕ
  pub success_subject : Text
  pub error_subject : Text
  pub hub_error_subject : Option Text

pub record RecentEntry : Type 0 where
  pub subject : Text
  pub payload : ℕ
  pub expires_at : ℕ

-- How a promise is settled: with the payload, with the error in the payload, or by its timer.
pub data Outcome : Type 0 where
  resolved rejected : ℕ → Outcome
  timed_out : Outcome

pub record Subscriber : Type 0 where
  pub pending : Map PendingEntry
  pub recent : Map RecentEntry
  -- The timers that are set, each with the entry that it is about.
  pub timers : List PendingEntry
  -- The calls of `resolve` and `reject`, in order.
  pub settled : List (ℕ × Outcome)

abbrev pub recent_cache_ttl_ms : ℕ
recent_cache_ttl_ms = 60000

abbrev pub recent_cache_max_entries : ℕ
recent_cache_max_entries = 2000

abbrev pub settle : ℕ → Outcome → Subscriber → Subscriber
settle id outcome s = record s { settled = s.settled ++ (id, outcome) ∷ [] }

abbrev pub delete_hub {ℓ} : {A : Type ℓ} → Option Text → Map A → Map A
delete_hub none m = m
delete_hub (some subject) m = delete subject m

abbrev pub clear_timer : ℕ → List PendingEntry → List PendingEntry
clear_timer id = filter (λ e. not (e.id == id))

abbrev pub cancel_entry : Option PendingEntry → Subscriber → Subscriber
cancel_entry none s = s
cancel_entry (some e) s = record s {
  pending =
      delete_hub e.hub_error_subject (delete e.error_subject (delete e.success_subject s.pending));
  timers = clear_timer e.id s.timers;
}

unfoldable pub cancel : Text → Subscriber → Subscriber
cancel subject s = cancel_entry (get subject s.pending) s

unfoldable pub evict_expired_recent : ℕ → Map RecentEntry → Map RecentEntry
evict_expired_recent now = filter (λ kv. not (leb kv.1.expires_at now))

-- The oldest key goes first where the cache is full.
abbrev pub drop_oldest : Map RecentEntry → Map RecentEntry
drop_oldest [] = []
drop_oldest ((k, e) ∷ m) = delete k ((k, e) ∷ m)

unfoldable pub add_to_recent : ℕ → Text → ℕ → Map RecentEntry → Map RecentEntry
unfolding evict_expired_recent
add_to_recent now subject payload m =
    let kept = evict_expired_recent now m in
    let room = if leb recent_cache_max_entries (length kept) then drop_oldest kept else kept in
    set subject
      (record { subject = subject; payload = payload; expires_at = now + recent_cache_ttl_ms }) room

pub record RecentMatch : Type 0 where
  pub entry : RecentEntry
  pub matched_subject : Text

abbrev pub candidates : Text → Text → Option Text → List Text
candidates success error none = success ∷ error ∷ []
candidates success error (some hub) = success ∷ error ∷ hub ∷ []

-- The first loop of `takeFromRecent`, over the candidates.
abbrev pub take_exact : List Text → Map RecentEntry → Option (RecentMatch × Map RecentEntry)
take_exact [] m = none
take_exact (subject ∷ rest) m =
    let later = take_exact rest m in
    elim (get subject m) [
      | none ↦ later
      | some e ↦ some (record { entry = e; matched_subject = subject }, delete subject m)
    ]

abbrev pub is_candidate : List Text → Option Text → Bool
is_candidate subjects none = false
is_candidate subjects (some subject) = any (λ c. text_eq c subject) subjects

abbrev pub or_empty : Option Text → Text
or_empty none = []
or_empty (some subject) = subject

-- The second loop, over the cache `all`, for parties whose payee is not known.
abbrev pub take_any_payee :
    List Text → Map RecentEntry → Map RecentEntry → Option (RecentMatch × Map RecentEntry)
take_any_payee subjects [] all = none
take_any_payee subjects ((subject, e) ∷ m) all =
    let later = take_any_payee subjects m all in
    if is_candidate subjects (to_any_payee_subject subject)
    then some (
      record { entry = e; matched_subject = or_empty (to_any_payee_subject subject) },
      delete subject all,
    )
    else later

abbrev pub or_any_payee :
    Option (RecentMatch × Map RecentEntry)
    → List Text
    → Map RecentEntry
    → Option (RecentMatch × Map RecentEntry)
or_any_payee none subjects m = take_any_payee subjects m m
or_any_payee (some found) subjects m = some found

-- On the cache without its expired entries.
unfoldable pub take_from_recent :
    List Text → Map RecentEntry → Option (RecentMatch × Map RecentEntry)
take_from_recent subjects m = or_any_payee (take_exact subjects m) subjects m

abbrev pub set_hub : Option Text → PendingEntry → Map PendingEntry → Map PendingEntry
set_hub none e m = m
set_hub (some subject) e m = set subject e m

unfoldable pub register : PendingEntry → Subscriber → Subscriber
register e s = record s {
  pending =
      set_hub e.hub_error_subject e (set e.error_subject e (set e.success_subject e s.pending));
  timers = s.timers ++ e ∷ [];
}

abbrev pub wait_with :
    Option (RecentMatch × Map RecentEntry) → PendingEntry → Subscriber → Subscriber
wait_with none e s = register e s
wait_with (some (match, rest)) e s =
    settle e.id
      (if text_eq match.matched_subject e.success_subject
        then resolved match.entry.payload
        else rejected match.entry.payload)
      (record s { recent = rest })

unfoldable pub wait_for : ℕ → PendingEntry → Subscriber → Subscriber
unfolding register take_from_recent evict_expired_recent
wait_for now e s =
    let kept = evict_expired_recent now s.recent in
    wait_with
      (take_from_recent (candidates e.success_subject e.error_subject e.hub_error_subject) kept) e
      (record s { recent = kept })

-- The callback of the timer of the waiter `id`, where it is still set.
abbrev pub fire : Option PendingEntry → Subscriber → Subscriber
fire none s = s
fire (some e) s =
    settle e.id timed_out
      (cancel e.success_subject (record s { timers = clear_timer e.id s.timers }))

unfoldable pub timer_fires : ℕ → Subscriber → Subscriber
unfolding cancel
timer_fires id s = fire (find (λ e. e.id == id) s.timers) s

-- The subject under which a waiter is found, with the waiter.
abbrev pub match_any_payee : Option Text → Map PendingEntry → Option (Text × PendingEntry)
match_any_payee none m = none
match_any_payee (some subject) m = elim (get subject m) [ none ↦ none | some e ↦ some (subject, e) ]

abbrev pub match_pending : Text → Map PendingEntry → Option (Text × PendingEntry)
match_pending subject m = elim (get subject m) [
  | none ↦ match_any_payee (to_any_payee_subject subject) m
  | some e ↦ some (subject, e)
]

abbrev pub deliver : Option (Text × PendingEntry) → ℕ → Text → ℕ → Subscriber → Subscriber
deliver none now subject payload s = record s {
  recent = add_to_recent now subject payload s.recent;
}
deliver (some (matched, e)) now subject payload s =
    settle e.id (if text_eq matched e.success_subject then resolved payload else rejected payload)
      (cancel e.success_subject s)

unfoldable pub dispatch : ℕ → Text → ℕ → Subscriber → Subscriber
unfolding cancel add_to_recent
dispatch now subject payload s = deliver (match_pending subject s.pending) now subject payload s
