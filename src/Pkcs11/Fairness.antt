-- ===== src/Pkcs11/Fairness.antt =====
-- Who gets a session, and when: the queue of callers.
use mathlib.Core.Logic.{◌⊎◌}
use mathlib.Core.List.{append-nil, append_assoc, map-append}
use pivotal.Base.{
  ℕ, ◌≡◌, refl, sym, ap, subst, ◌∙◌, true, Option, none, some, List, [], ◌∷◌, ◌++◌, map, inl, inr,
  Option-cases,
}
use pivotal.Pkcs11.{
  Lease, Pool, pop, acquire, acquire_from, hand_over, release, with_session, take_lease,
  finish_lease, finish, Event, asks, finishes, step, run,
}

-- The callers that ask, in order.
abbrev pub asking : List Event → List ℕ
asking [] = []
asking (asks caller ∷ es) = caller ∷ asking es
asking (finishes caller ∷ es) = asking es

abbrev pub callers : List Lease → List ℕ
callers = map (λ l. l.caller)

-- No session lies idle while somebody waits.
abbrev pub IsWorkConserving : Pool → Type 0
IsWorkConserving p = (p.waiting ≡ []) ⊎ (p.available ≡ [])

-- A pool that serves: started with a standing identity.
abbrev pub IsServing : Pool → Type 0
IsServing p = (p.started ≡ true) × (p.has_standing_login ≡ true)

pub pop-none : (xs : List ℕ) → pop xs ≡ none → xs ≡ []
pop-none [] h = refl
pop-none (x ∷ xs) h = elim (Option-cases (pop xs)) [
  | inl e ↦ cc (rw (e, pop) at h)
  | inr (r, e) ↦ cc (rw (e, pop) at h)
]

-- What one event, or a run of them, does to the queue.
record Serves (arrived queue : List ℕ) (r : Pool × List Lease) : Type 0 where
  serving : IsServing r.0
  conserving : IsWorkConserving r.0
  in_order : callers r.1 ++ r.0.waiting ≡ queue ++ arrived

acquire-Serves :
    (caller : ℕ) (p : Pool) (o : Option (List ℕ × ℕ))
    → pop p.available ≡ o
    → IsServing p
    → IsWorkConserving p
    → Serves (caller ∷ []) p.waiting (acquire_from o caller p)
acquire-Serves caller p none e s w = record {
  serving = s;
  conserving = inr (pop-none p.available e);
  in_order = refl;
}
acquire-Serves caller p (some (rest, session)) e s (inl idle) = record {
  serving = s;
  conserving = inl idle;
  in_order = rw idle refl;
}
acquire-Serves caller p (some (rest, session)) e s (inr empty) = absurd (cc (rw (empty) at e))

hand_over-Serves :
    (queue : List ℕ) (session : ℕ) (p : Pool)
    → p.waiting ≡ queue
    → IsServing p
    → IsWorkConserving p
    → Serves [] p.waiting (hand_over queue session p)
hand_over-Serves [] session p e s w = record {
  serving = s;
  conserving = inl e;
  in_order = rw e refl;
}
hand_over-Serves (next ∷ rest) session p e s (inl idle) = absurd (cc (sym e ∙ idle))
hand_over-Serves (next ∷ rest) session p e s (inr empty) = record {
  serving = s;
  conserving = inr empty;
  in_order = rw e (ap (◌∷◌ next) (sym (append-nil rest)));
}

finish-Serves :
    (o : Option (Lease × List Lease)) (p : Pool)
    → IsServing p
    → IsWorkConserving p
    → Serves [] p.waiting (finish_lease o p)
unfolding release
finish-Serves none p s w = record {
  serving = s;
  conserving = w;
  in_order = sym (append-nil p.waiting);
}
finish-Serves (some (l, others)) p s w =
    hand_over-Serves p.waiting l.session (record p { lent = others }) refl s w

with_session-asked :
    (caller : ℕ) (p : Pool)
    → IsServing p
    → step (asks caller) p ≡ acquire_from (pop p.available) caller p
unfolding step with_session acquire
with_session-asked caller p s = simp (s.0, s.1) refl

step-Serves :
    (e : Event) (p : Pool)
    → IsServing p
    → IsWorkConserving p
    → Serves (asking (e ∷ [])) p.waiting (step e p)
unfolding step finish
step-Serves (asks caller) p s w =
    subst (Serves (caller ∷ []) p.waiting) (sym (with_session-asked caller p s))
      (acquire-Serves caller p (pop p.available) refl s w)
step-Serves (finishes caller) p s w = finish-Serves (take_lease caller p.lent) p s w

-- Two stretches one after the other.
append-in_order :
    (first second : List Lease) (w w' w'' a b : List ℕ)
    → callers first ++ w' ≡ w ++ a
    → callers second ++ w'' ≡ w' ++ b
    → callers (first ++ second) ++ w'' ≡ w ++ (a ++ b)
append-in_order first second w w' w'' a b one two =
    ap (λ l. l ++ w'') (map-append (λ l. l.caller) first second)
    ∙ append_assoc (callers first) (callers second) w''
    ∙ ap (λ l. callers first ++ l) two
    ∙ sym (append_assoc (callers first) w' b)
    ∙ ap (λ l. l ++ b) one
    ∙ append_assoc w a b

asking_cons : (e : Event) (es : List Event) → asking (e ∷ []) ++ asking es ≡ asking (e ∷ es)
asking_cons (asks caller) es = refl
asking_cons (finishes caller) es = refl

run-Serves :
    (es : List Event) (p : Pool)
    → IsServing p
    → IsWorkConserving p
    → Serves (asking es) p.waiting (run es p)
unfolding run
run-Serves [] p s w = record { serving = s; conserving = w; in_order = sym (append-nil p.waiting) }
run-Serves (e ∷ es) p s w =
    let one = step-Serves e p s w in
    let rest = run-Serves es (step e p).0 one.serving one.conserving in
    record {
      serving = rest.serving;
      conserving = rest.conserving;
      in_order =
          append-in_order (step e p).1 (run es (step e p).0).1 _ _ _ (asking (e ∷ [])) (asking es)
            one.in_order rest.in_order
          ∙ ap (◌++◌ p.waiting) (asking_cons e es);
    }

-- On a serving pool, whatever the order of events: those who have been given a session, followed by
-- those who still wait, are those who waited followed by those who asked, in the same order. And
-- no session lies idle while somebody waits.
pub run-fair :
    (es : List Event) (p : Pool)
    → IsServing p
    → IsWorkConserving p
    → (callers (run es p).1 ++ (run es p).0.waiting ≡ p.waiting ++ asking es)
      × IsWorkConserving (run es p).0
run-fair es p s w = let r = run-Serves es p s w in (r.in_order, r.conserving)
