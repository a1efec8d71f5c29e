-- ===== src/Pkcs11/Conservation.antt =====
-- How often the pool has a session, free or lent.
use Prim.Native.Nat.{max}
use pivotal.Base.{
  ℕ, zero, suc, ◌+◌, ◌-◌, ◌≡◌, refl, subst, ◌∙◌, Bool, true, ◌&&◌, Option, none, some, List, [],
  ◌∷◌, ◌++◌, ◌==◌, ltb, leb, if◌then◌else◌, inl, inr, arith, count, count-append, Bool-cases,
  Option-cases, eq_of_some,
}
use pivotal.Pkcs11.Fairness.{pop-none}
use pivotal.Pkcs11.{
  Lease, Pool, new_pool, open_sessions, start, pop, lend, acquire, acquire_from, hand_over, release,
  with_session, asked, take_lease, finish_lease, finish, Event, asks, finishes, step, run,
}

-- How often the pool has the session, free or lent.
abbrev pub copies : ℕ → Pool → ℕ
copies x p = count (λ y. y == x) p.available + count (λ l. l.session == x) p.lent

abbrev one_if : Bool → ℕ
one_if b = if b then 1 else 0

count_one : (x y : ℕ) → count (λ z. z == x) (y ∷ []) ≡ one_if (y == x)
count_one x y = refl

pop-count :
    (q : ℕ → Bool) (xs : List ℕ) {rest : List ℕ} {last : ℕ}
    → pop xs ≡ some (rest, last)
    → count q xs ≡ count q rest + one_if (q last)
pop-count q [] e = cc e
pop-count q (x ∷ xs) {rest} {last} e = elim (Option-cases (pop xs)) [
  | inl bare ↦
      subst (λ r. count q (x ∷ xs) ≡ count q r.0 + one_if (q r.1))
        (eq_of_some (rw (bare, pop) at e)) (rw (pop-none xs bare) (ground arith))
  | inr ((front, end), more) ↦
      let rest = pop-count q xs more in
      subst (λ r. count q (x ∷ xs) ≡ count q r.0 + one_if (q r.1))
        (eq_of_some (rw (more, pop) at e)) (ground (arith, rest))
]

take_lease-count :
    (q : Lease → Bool) (caller : ℕ) (ls : List Lease) {l : Lease} {others : List Lease}
    → take_lease caller ls ≡ some (l, others)
    → count q ls ≡ count q others + one_if (q l)
take_lease-count q caller [] e = cc e
take_lease-count q caller (x ∷ ls) {l} {others} e = elim (Bool-cases (x.caller == caller)) [
  | inl here ↦
      subst (λ r. count q (x ∷ ls) ≡ count q r.1 + one_if (q r.0)) (eq_of_some (simp (here) at e))
        (ground arith)
  | inr later ↦ elim (Option-cases (take_lease caller ls)) [
    | inl gone ↦ cc (rw (later, gone) at e)
    | inr ((found, rest), got) ↦
        let counted = take_lease-count q caller ls got in
        subst (λ r. count q (x ∷ ls) ≡ count q r.1 + one_if (q r.0))
          (eq_of_some (rw (later, got) at e)) (ground (arith, counted))
  ]
]

lend-copies :
    (x caller session : ℕ) (p : Pool)
    → copies x (lend caller session p) ≡ copies x p + one_if (session == x)
lend-copies x caller session p = ground (
  arith,
  count-append (λ l. l.session == x) p.lent (record { caller = caller; session = session } ∷ []),
)

give_back-copies :
    (x session : ℕ) (p : Pool)
    → copies x (record p { available = p.available ++ session ∷ [] })
      ≡ copies x p + one_if (session == x)
give_back-copies x session p = ground (arith, count-append (λ y. y == x) p.available (session ∷ []))

acquire-copies :
    (x caller : ℕ) (p : Pool) (o : Option (List ℕ × ℕ))
    → pop p.available ≡ o
    → copies x (acquire_from o caller p).0 ≡ copies x p
acquire-copies x caller p none e = refl
acquire-copies x caller p (some (rest, session)) e =
    let popped = pop-count (λ y. y == x) p.available e in
    omega (arith, popped, lend-copies x caller session (record p { available = rest }))

hand_over-copies :
    (x session : ℕ) (queue : List ℕ) (p : Pool)
    → copies x (hand_over queue session p).0 ≡ copies x p + one_if (session == x)
hand_over-copies x session [] p = give_back-copies x session p
hand_over-copies x session (next ∷ rest) p =
    lend-copies x next session (record p { waiting = rest })

finish-copies :
    (x caller : ℕ) (p : Pool) (o : Option (Lease × List Lease))
    → take_lease caller p.lent ≡ o
    → copies x (finish_lease o p).0 ≡ copies x p
unfolding release
finish-copies x caller p none e = refl
finish-copies x caller p (some (l, others)) e =
    let taken = take_lease-count (λ k. k.session == x) caller p.lent e in
    omega (arith, taken, hand_over-copies x l.session p.waiting (record p { lent = others }))

with_session-copies :
    (x caller : ℕ) (p : Pool) → copies x (asked caller p (with_session caller p)).0 ≡ copies x p
unfolding with_session acquire
with_session-copies x caller p = elim (Bool-cases p.started) [
  | inr off ↦ simp off refl
  | inl on ↦ elim (Bool-cases p.has_standing_login) [
    | inr none_given ↦ simp (on, none_given) refl
    | inl given ↦ simp (on, given) (acquire-copies x caller p (pop p.available) refl)
  ]
]

step-copies : (x : ℕ) (e : Event) (p : Pool) → copies x (step e p).0 ≡ copies x p
unfolding step finish
step-copies x (asks caller) p = with_session-copies x caller p
step-copies x (finishes caller) p = finish-copies x caller p (take_lease caller p.lent) refl

run-copies : (x : ℕ) (es : List Event) (p : Pool) → copies x (run es p).0 ≡ copies x p
unfolding run
run-copies x [] p = refl
run-copies x (e ∷ es) p = run-copies x es (step e p).0 ∙ step-copies x e p

open_sessions-copies :
    (x n : ℕ) (p : Pool)
    → copies x (open_sessions n p) ≡ copies x p + one_if (leb p.opened x && ltb x (p.opened + n))
unfolding open_sessions
open_sessions-copies x zero p = ground arith
open_sessions-copies x (suc n) p =
    let one = give_back-copies x p.opened p in
    let rest =
      open_sessions-copies x n
        (record p { available = p.available ++ p.opened ∷ []; opened = p.opened + 1 }) in
    ground (arith, one, rest)

start-copies :
    (x pool_size : ℕ) → copies x (start pool_size true new_pool) ≡ one_if (ltb x (max 1 pool_size))
unfolding start
start-copies x pool_size =
    let rest = open_sessions-copies x (pool_size - 1) (record new_pool {
      started = true;
      has_standing_login = true;
      available = 0 ∷ [];
      opened = 1;
    }) in
    ground (arith, rest)

-- After a start with an identity, whatever the order of events, each of the sessions opened (one for
-- each unit of the pool's size, at least one) is in the pool exactly once, free or lent, and no
-- other is.
pub run-exclusive :
    (pool_size x : ℕ) (es : List Event)
    → copies x (run es (start pool_size true new_pool)).0
      ≡ (if ltb x (max 1 pool_size) then 1 else 0)
run-exclusive pool_size x es =
    run-copies x es (start pool_size true new_pool) ∙ start-copies x pool_size
