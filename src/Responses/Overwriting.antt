-- ===== src/Responses/Overwriting.antt =====
-- One waiter and its callback, and the entries that two waiters for the same subjects leave.
use pivotal.Base.{
  ℕ, ◌≡◌, refl, true, not, ◌||◌, Option, none, some, List, [], ◌∷◌, ◌++◌, ◌==◌, any, all, arith,
}
use pivotal.Text.{Text}
use pivotal.Responses.Subjects.{text_eq, text_eq_refl}
use pivotal.Responses.Maps.{
  Map, get, set, delete, get-delete_same, get-delete-none, get-set_same, get-set_keeps,
}
use pivotal.Responses.{
  PendingEntry, Subscriber, resolved, cancel, cancel_entry, settle, delete_hub, set_hub,
  evict_expired_recent, take_from_recent, candidates, register, wait_for, dispatch, match_pending,
}

-- The cache holds nothing for the subjects of the waiter.
abbrev pub IsUncached : ℕ → PendingEntry → Subscriber → Type 0
IsUncached now e s =
    take_from_recent (candidates e.success_subject e.error_subject e.hub_error_subject)
      (evict_expired_recent now s.recent)
    ≡ none

abbrev pub evicted : ℕ → Subscriber → Subscriber
evicted now s = record s { recent = evict_expired_recent now s.recent }

pub wait_for-uncached :
    (now : ℕ) (e : PendingEntry) (s : Subscriber)
    → IsUncached now e s
    → wait_for now e s ≡ register e (evicted now s)
unfolding wait_for
wait_for-uncached now e s h = rw h refl

set_hub-keeps :
    (key : Text) (o : Option Text) (e : PendingEntry) (m : Map PendingEntry)
    → get key m ≡ some e
    → get key (set_hub o e m) ≡ some e
set_hub-keeps key none e m h = h
set_hub-keeps key (some hub) e m h = get-set_keeps key hub e m h

pub register-get :
    (e : PendingEntry) (s : Subscriber) → get e.success_subject (register e s).pending ≡ some e
unfolding register
register-get e s = set_hub-keeps e.success_subject e.hub_error_subject e _ (
    get-set_keeps e.success_subject e.error_subject e _
      (get-set_same e.success_subject e s.pending))

dispatch-found :
    (now payload : ℕ) (s : Subscriber) (e : PendingEntry)
    → get e.success_subject s.pending ≡ some e
    → dispatch now e.success_subject payload s
      ≡ settle e.id (resolved payload) (cancel_entry (some e) s)
unfolding dispatch cancel
dispatch-found now payload s e h =
    rw (h, match_pending) (rw (text_eq_refl e.success_subject, h) refl)

delete_hub-none :
    (key : Text) (o : Option Text) (m : Map PendingEntry)
    → get key m ≡ none
    → get key (delete_hub o m) ≡ none
delete_hub-none key none m h = h
delete_hub-none key (some hub) m h = get-delete-none key hub m h

cancel-gone :
    (e : PendingEntry) (s : Subscriber)
    → (get e.success_subject (cancel_entry (some e) s).pending ≡ none)
      × (get e.error_subject (cancel_entry (some e) s).pending ≡ none)
cancel-gone e s = (
  delete_hub-none e.success_subject e.hub_error_subject _ (
      get-delete-none e.success_subject e.error_subject _
        (get-delete_same e.success_subject s.pending)),
  delete_hub-none e.error_subject e.hub_error_subject _
      (get-delete_same e.error_subject (delete e.success_subject s.pending)),
)

-- A request that starts to wait and finds nothing cached is woken by the message on its success
-- subject, with the payload, and waits under neither of its subjects any more.
pub dispatch-wait_for :
    (now later payload : ℕ) (e : PendingEntry) (s : Subscriber)
    → IsUncached now e s
    → ((dispatch later e.success_subject payload (wait_for now e s)).settled
        ≡ s.settled ++ (e.id, resolved payload) ∷ [])
      × (get e.success_subject (dispatch later e.success_subject payload (wait_for now e s)).pending
          ≡ none)
      × (get e.error_subject (dispatch later e.success_subject payload (wait_for now e s)).pending
          ≡ none)
unfolding register
dispatch-wait_for now later payload e s h =
    let waiting = wait_for-uncached now e s h in
    let woken =
      dispatch-found later payload (register e (evicted now s)) e
        (register-get e (evicted now s)) in
    let gone = cancel-gone e (register e (evicted now s)) in
    rw (waiting, woken) (refl, gone.0, gone.1)

-- Entries of the waiter stand under the given keys only.
abbrev pub Only : ℕ → List Text → Map PendingEntry → Type 0
Only id subjects m = all (λ kv. not (kv.1.id == id) || any (text_eq kv.0) subjects) m ≡ true

pub set-Only :
    (id : ℕ) (subjects : List Text) (key : Text) (e : PendingEntry) (m : Map PendingEntry)
    → any (text_eq key) subjects ≡ true
    → Only id subjects m
    → Only id subjects (set key e m)
set-Only id subjects key e [] k h = ground arith
set-Only id subjects key e ((k', b) ∷ m) k h = ground (arith, set-Only id subjects key e m k)

pub delete-Only :
    (id : ℕ) (key : Text) (subjects : List Text) (m : Map PendingEntry)
    → Only id (key ∷ subjects) m
    → Only id subjects (delete key m)
delete-Only id key subjects [] h = refl
delete-Only id key subjects ((k, b) ∷ m) h = ground (arith, delete-Only id key subjects m)

pub weaken-Only :
    (id : ℕ) (subjects : List Text) (m : Map PendingEntry) → Only id [] m → Only id subjects m
weaken-Only id subjects [] h = refl
weaken-Only id subjects (kv ∷ m) h = ground (arith, weaken-Only id subjects m)
