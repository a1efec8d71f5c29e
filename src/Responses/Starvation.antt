-- ===== src/Responses/Starvation.antt =====
-- A waiter that has neither an entry nor a timer.
use pivotal.Base.{
  ℕ, ◌≡◌, refl, subst, Bool, true, false, not, ◌||◌, Option, none, some, List, [], ◌∷◌, ◌++◌, ◌==◌,
  any, all, filter, find, inl, inr, Bool-cases, Option-cases, arith, eq_of_some,
}
use pivotal.Text.{Text}
use pivotal.Responses.Subjects.{text_eq, to_any_payee_subject}
use pivotal.Responses.Maps.{Map, get, set, delete}
use pivotal.Responses.{
  PendingEntry, RecentEntry, RecentMatch, Subscriber, Outcome, timed_out, cancel, cancel_entry,
  settle, delete_hub, set_hub, clear_timer, evict_expired_recent, take_from_recent, register,
  wait_for, wait_with, timer_fires, fire, deliver, dispatch, match_pending, match_any_payee,
}
use pivotal.Responses.Cache.{Event, waits, cancels, times_out, receives, step, run}
use pivotal.Responses.Overwriting.{Only}

-- No key, no timer and no settled promise is the waiter's.
pub record IsLost (id : ℕ) (s : Subscriber) : Type 0 where
  pub unlisted : Only id [] s.pending
  pub untimed : all (λ e. not (e.id == id)) s.timers ≡ true
  pub unsettled : find (λ r. r.0 == id) s.settled ≡ none

-- The event starts the waiter.
abbrev pub starts : ℕ → Event → Bool
starts id (waits now e) = e.id == id
starts id (cancels subject) = false
starts id (times_out other) = false
starts id (receives now subject payload) = false

module _ {ℓ} {A : Type ℓ} (p : A → Bool) where
  all-filter : (q : A → Bool) (xs : List A) → all p xs ≡ true → all p (filter q xs) ≡ true
  all-filter q [] h = refl
  all-filter q (x ∷ xs) h = ground (arith, all-filter q xs)

  all-append : (xs ys : List A) → all p xs ≡ true → all p ys ≡ true → all p (xs ++ ys) ≡ true
  all-append [] ys h k = k
  all-append (x ∷ xs) ys h k = ground (arith, all-append xs ys)

  find-all :
      (q : A → Bool) (xs : List A) {x : A} → all p xs ≡ true → find q xs ≡ some x → p x ≡ true
  find-all q [] h e = cc e
  find-all q (y ∷ ys) {x} h e = elim (Bool-cases (q y)) [
    | inl here ↦
        let it : y ≡ x = eq_of_some (rw here at e) in subst (λ z. p z ≡ true) it (ground arith)
    | inr later ↦ find-all q ys (ground arith) (rw later at e)
  ]

  find-none-append :
      (xs ys : List A) → find p xs ≡ none → find p ys ≡ none → find p (xs ++ ys) ≡ none
  find-none-append [] ys h k = k
  find-none-append (x ∷ xs) ys h k = elim (Bool-cases (p x)) [
    | inl here ↦ cc (rw here at h)
    | inr later ↦ rw later (find-none-append xs ys (rw later at h) k)
  ]

module _ (id : ℕ) where
  get-other :
      (key : Text) (m : Map PendingEntry) {e : PendingEntry}
      → Only id [] m
      → get key m ≡ some e
      → (e.id == id) ≡ false
  get-other key [] h e = cc e
  get-other key ((k, b) ∷ m) {e} h eq = elim (Bool-cases (text_eq k key)) [
    | inl here ↦
        let it : b ≡ e = eq_of_some (rw here at eq) in
        subst (λ z. (z.id == id) ≡ false) it (ground arith)
    | inr later ↦ get-other key m (ground arith) (rw later at eq)
  ]

  pub set-other :
      (key : Text) (e : PendingEntry) (m : Map PendingEntry)
      → (e.id == id) ≡ false
      → Only id [] m
      → Only id [] (set key e m)
  set-other key e [] k h = ground arith
  set-other key e ((k', b) ∷ m) k h = ground (arith, set-other key e m k)

  delete-other : (key : Text) (m : Map PendingEntry) → Only id [] m → Only id [] (delete key m)
  delete-other key m =
      all-filter (λ kv. not (kv.1.id == id) || false) (λ kv. not (text_eq kv.0 key)) m

  delete_hub-other :
      (o : Option Text) (m : Map PendingEntry) → Only id [] m → Only id [] (delete_hub o m)
  delete_hub-other none m h = h
  delete_hub-other (some key) m h = delete-other key m h

  pub set_hub-other :
      (o : Option Text) (e : PendingEntry) (m : Map PendingEntry)
      → (e.id == id) ≡ false
      → Only id [] m
      → Only id [] (set_hub o e m)
  set_hub-other none e m k h = h
  set_hub-other (some key) e m k h = set-other key e m k h

  cancel-IsLost :
      (o : Option PendingEntry) (s : Subscriber) → IsLost id s → IsLost id (cancel_entry o s)
  cancel-IsLost none s h = h
  cancel-IsLost (some e) s h = record {
    unlisted =
        delete_hub-other e.hub_error_subject _
          (delete-other e.error_subject _ (delete-other e.success_subject s.pending h.unlisted));
    untimed = all-filter (λ x. not (x.id == id)) (λ x. not (x.id == e.id)) s.timers h.untimed;
    unsettled = h.unsettled;
  }

  pub settle-IsLost :
      (other : ℕ) (outcome : Outcome) (s : Subscriber)
      → (other == id) ≡ false
      → IsLost id s
      → IsLost id (settle other outcome s)
  settle-IsLost other outcome s k h = record {
    unlisted = h.unlisted;
    untimed = h.untimed;
    unsettled =
        find-none-append (λ r. r.0 == id) s.settled ((other, outcome) ∷ []) h.unsettled (rw k refl);
  }

  wait_with-IsLost :
      (o : Option (RecentMatch × Map RecentEntry)) (e : PendingEntry) (s : Subscriber)
      → (e.id == id) ≡ false
      → IsLost id s
      → IsLost id (wait_with o e s)
  unfolding register
  wait_with-IsLost none e s k h = record {
    unlisted =
        set_hub-other e.hub_error_subject e _ k
          (set-other e.error_subject e _ k (set-other e.success_subject e s.pending k h.unlisted));
    untimed = all-append (λ x. not (x.id == id)) s.timers (e ∷ []) h.untimed (rw k refl);
    unsettled = h.unsettled;
  }
  wait_with-IsLost (some (match, rest)) e s k h =
      settle-IsLost e.id _ (record s { recent = rest }) k
        (record { unlisted = h.unlisted; untimed = h.untimed; unsettled = h.unsettled })

  clear-IsLost :
      (other : ℕ) (s : Subscriber)
      → IsLost id s
      → IsLost id (record s { timers = clear_timer other s.timers })
  clear-IsLost other s h = record {
    unlisted = h.unlisted;
    untimed = all-filter (λ x. not (x.id == id)) (λ x. not (x.id == other)) s.timers h.untimed;
    unsettled = h.unsettled;
  }

  fire-IsLost :
      (o : Option PendingEntry) (fired : ℕ) (s : Subscriber)
      → find (λ e. e.id == fired) s.timers ≡ o
      → IsLost id s
      → IsLost id (fire o s)
  unfolding cancel
  fire-IsLost none fired s e h = h
  fire-IsLost (some x) fired s e h =
      let other : (x.id == id) ≡ false =
        ground
          (arith, find-all (λ x. not (x.id == id)) (λ x. x.id == fired) s.timers h.untimed e) in
      settle-IsLost x.id timed_out _ other
        (cancel-IsLost (get x.success_subject s.pending) _ (clear-IsLost x.id s h))

  match_any_payee-other :
      (o : Option Text) (m : Map PendingEntry) {found : Text × PendingEntry}
      → Only id [] m
      → match_any_payee o m ≡ some found
      → (found.1.id == id) ≡ false
  match_any_payee-other none m h e = cc e
  match_any_payee-other (some key) m h e = elim (Option-cases (get key m)) [
    | inl gone ↦ cc (rw (gone, match_any_payee) at e)
    | inr (x, there) ↦
        subst (λ z. (z.1.id == id) ≡ false) (eq_of_some (rw (there, match_any_payee) at e))
          (get-other key m h there)
  ]

  match_pending-other :
      (subject : Text) (m : Map PendingEntry) {found : Text × PendingEntry}
      → Only id [] m
      → match_pending subject m ≡ some found
      → (found.1.id == id) ≡ false
  match_pending-other subject m h e = elim (Option-cases (get subject m)) [
    | inl gone ↦
        match_any_payee-other (to_any_payee_subject subject) m h (rw (gone, match_pending) at e)
    | inr (x, there) ↦
        subst (λ z. (z.1.id == id) ≡ false) (eq_of_some (rw (there, match_pending) at e))
          (get-other subject m h there)
  ]

  deliver-IsLost :
      (o : Option (Text × PendingEntry)) (now : ℕ) (subject : Text) (payload : ℕ) (s : Subscriber)
      → match_pending subject s.pending ≡ o
      → IsLost id s
      → IsLost id (deliver o now subject payload s)
  unfolding cancel
  deliver-IsLost none now subject payload s e h = record {
    unlisted = h.unlisted;
    untimed = h.untimed;
    unsettled = h.unsettled;
  }
  deliver-IsLost (some (matched, x)) now subject payload s e h =
      settle-IsLost x.id _ _ (match_pending-other subject s.pending h.unlisted e)
        (cancel-IsLost (get x.success_subject s.pending) s h)

  step-IsLost :
      (ev : Event) (s : Subscriber) → starts id ev ≡ false → IsLost id s → IsLost id (step ev s)
  unfolding step wait_for evict_expired_recent take_from_recent cancel timer_fires dispatch
  step-IsLost (waits now e) s k h =
      wait_with-IsLost _ e (record s { recent = evict_expired_recent now s.recent }) k
        (record { unlisted = h.unlisted; untimed = h.untimed; unsettled = h.unsettled })
  step-IsLost (cancels subject) s k h = cancel-IsLost (get subject s.pending) s h
  step-IsLost (times_out other) s k h =
      fire-IsLost (find (λ e. e.id == other) s.timers) other s refl h
  step-IsLost (receives now subject payload) s k h =
      deliver-IsLost (match_pending subject s.pending) now subject payload s refl h

  pub run-IsLost :
      (es : List Event) (s : Subscriber)
      → any (starts id) es ≡ false
      → IsLost id s
      → IsLost id (run es s)
  unfolding run
  run-IsLost [] s k h = h
  run-IsLost (e ∷ es) s k h =
      run-IsLost es (step e s) (ground arith) (step-IsLost e s (ground arith) h)
