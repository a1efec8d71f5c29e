-- ===== src/Snowflake/Order.antt =====
-- The ids of one generator: their fields and their order.
use Prim.Native.Nat.{bit_or, bit_and}
use mathlib.Core.Logic.{◌⊎◌}
use pivotal.Base.Bits.{bit_or_fields, bit_and_mask}
use pivotal.Base.{
  ℕ, ◌+◌, ◌-◌, ◌*◌, ◌/◌, ◌%◌, ◌^◌, ◌≡◌, ◌≢◌, ◌<◌, ◌≤◌, refl, subst, ◌∙◌, false, some, List, [], ◌∷◌,
  ◌==◌, inl, inr, arith, Bool-cases, Option-cases, eq_of_some, All, ℤ, pos, negsuc, pos_part,
  neg_part, sub_ℕ, ◌<ℤ◌, ltb_ℤ, leb_ℤ, eq_ℤ, eq_of_parts,
}
use pivotal.Snowflake.{
  max_sequence, max_timestamp, Generator, Call, waits, overflows, gives, wait_next_millis, low_part,
  id_of, emit, emit_after, next_in, next_id,
}

-- What every generator keeps: its fields fit their digits, and the last time is -1 or later.
abbrev pub IsSound : Generator → Type 0
IsSound g = (g.node_id < 1024) × (g.sequence < 4096) × (neg_part g.last_timestamp ≤ 1)

sub_ℕ_parts : (a b : ℕ) → pos_part (sub_ℕ a b) + b ≡ a + neg_part (sub_ℕ a b)
sub_ℕ_parts a b = ground arith

low_part_fields :
    (node_id sequence : ℕ) → sequence < 4096 → low_part node_id sequence ≡ node_id * 4096 + sequence
low_part_fields node_id sequence s =
    let mask = bit_and_mask 12 sequence 4095 refl s in rw mask (bit_or_fields 12 node_id sequence s)

-- An id is its time, node and sequence side by side, also for a negative time.
id_of_fields :
    (ts : ℤ) (node_id sequence : ℕ)
    → node_id < 1024
    → sequence < 4096
    → pos_part (id_of ts node_id sequence) + neg_part ts * 4194304
      ≡ pos_part ts * 4194304 + node_id * 4096 + sequence + neg_part (id_of ts node_id sequence)
id_of_fields (pos ts) node_id sequence n s =
    let mask = bit_and_mask 12 sequence 4095 refl s in
    let high = bit_or_fields 22 ts (node_id * 2 ^ 12) (omega (arith, n)) in
    let all = bit_or_fields 12 (ts * 1024 + node_id) sequence s in
    let beside : bit_or (ts * 4194304) (node_id * 4096) ≡ (ts * 1024 + node_id) * 4096 =
      omega (arith, high) in
    rw (mask, beside) (omega (arith, all))
id_of_fields (negsuc ts) node_id sequence n s =
    let low = low_part_fields node_id sequence s in
    let parts = sub_ℕ_parts (low_part node_id sequence) ((ts + 1) * 4194304) in
    omega (arith, low, parts)

wait_later :
    (last : ℤ) (readings : List ℤ) {ts : ℤ} → wait_next_millis last readings ≡ some ts → last <ℤ ts
wait_later last [] e = cc e
wait_later last (r ∷ rs) {ts} e = elim (Bool-cases (leb_ℤ r last)) [
  | inl early ↦ wait_later last rs (rw early at e)
  | inr later ↦
      let it : r ≡ ts = eq_of_some (rw later at e) in subst (λ t. last <ℤ t) it (ground arith)
]

parts : {i j : ℤ} {g h : Generator} → gives i g ≡ gives j h → (i ≡ j) × (g ≡ h)
parts e = (cc, cc)

-- A time and a number that come before another time and number.
abbrev Before : ℤ → ℕ → ℤ → ℕ → Type 0
Before t m u n = (pos_part t + neg_part u) * 4096 + m < (pos_part u + neg_part t) * 4096 + n

-- An id that is given, with what the generator then remembers.
record Gives (g : Generator) (id : ℤ) (g' : Generator) : Type 0 where
  node : g'.node_id ≡ g.node_id
  small : g'.sequence < 4096
  made : id ≡ id_of g'.last_timestamp g'.node_id g'.sequence
  later : Before g.last_timestamp g.sequence g'.last_timestamp g'.sequence

emit-Gives :
    (ts : ℤ) (next : ℕ) (g : Generator) {id : ℤ} {g' : Generator}
    → next < 4096
    → Before g.last_timestamp g.sequence ts next
    → emit ts next g ≡ gives id g'
    → Gives g id g'
emit-Gives ts next g {id} {g'} small later h = elim (Bool-cases (ltb_ℤ (pos max_timestamp) ts)) [
  | inl over ↦ cc (rw over at h)
  | inr fits ↦
      let same = parts (simp fits at h) in
      subst (λ k. Gives g k g') same.0
        (subst (Gives g (id_of ts g.node_id next)) same.1
          (record { node = refl; small = small; made = refl; later = later }))
]

emit_after-Gives :
    (readings : List ℤ) (g : Generator) {id : ℤ} {g' : Generator}
    → IsSound g
    → emit_after (wait_next_millis g.last_timestamp readings) 0 g ≡ gives id g'
    → Gives g id g'
emit_after-Gives readings g sound h =
    elim (Option-cases (wait_next_millis g.last_timestamp readings)) [
      | inl never ↦ cc (rw never at h)
      | inr (ts, found) ↦
          let after = wait_later g.last_timestamp readings found in
          emit-Gives ts 0 g (omega arith) (omega (arith, sound.1, after)) (rw found at h)
    ]

next_number :
    (n : ℕ)
    → n < 4096
    → (bit_and (n + 1) max_sequence ≡ 0) ⊎ ((bit_and (n + 1) max_sequence ≡ n + 1) × (n + 1 < 4096))
next_number n h = elim (Bool-cases (n == 4095)) [
  | inl full ↦ let it : n ≡ 4095 = ground arith in inl (rw it refl)
  | inr room ↦
      let small : n + 1 < 4096 = ground arith in
      inr (bit_and_mask 12 (n + 1) 4095 refl small, small)
]

next_in-Gives :
    (readings : List ℤ) (g : Generator) {id : ℤ} {g' : Generator}
    → IsSound g
    → next_in g.last_timestamp readings g ≡ gives id g'
    → Gives g id g'
next_in-Gives readings g sound h = elim (next_number g.sequence sound.1) [
  | inl full ↦ emit_after-Gives readings g sound (rw full at h)
  | inr (next, small) ↦
      let room : (g.sequence + 1 == 0) ≡ false = ground arith in
      emit-Gives g.last_timestamp (g.sequence + 1) g small (omega arith) (rw (next, room) at h)
]

next_id-Gives :
    (readings : List ℤ) (g : Generator) {id : ℤ} {g' : Generator}
    → IsSound g
    → next_id readings g ≡ gives id g'
    → Gives g id g'
unfolding next_id
next_id-Gives [] g sound h = cc h
next_id-Gives (now ∷ later) g sound h = elim (Bool-cases (ltb_ℤ now g.last_timestamp)) [
  | inl back ↦ emit_after-Gives later g sound (rw back at h)
  | inr fwd ↦ elim (Bool-cases (eq_ℤ now g.last_timestamp)) [
    | inl same ↦ next_in-Gives later g sound (rw (fwd, same) at h)
    | inr other ↦
        let after : g.last_timestamp <ℤ now = ground arith in
        emit-Gives now 0 g (omega arith) (omega (arith, sound.1, after)) (rw (fwd, other) at h)
  ]
]

neg_part_mono :
    (a b : ℤ) → pos_part a + neg_part b ≤ pos_part b + neg_part a → neg_part b ≤ neg_part a
neg_part_mono (pos a) (pos b) h = omega arith
neg_part_mono (pos a) (negsuc b) h = omega arith
neg_part_mono (negsuc a) (pos b) h = omega arith
neg_part_mono (negsuc a) (negsuc b) h = omega arith

Gives-IsSound : (g : Generator) (id : ℤ) (g' : Generator) → IsSound g → Gives g id g' → IsSound g'
Gives-IsSound g id g' sound d =
    let since =
      neg_part_mono g.last_timestamp g'.last_timestamp (omega (arith, d.later, d.small)) in
    (omega (arith, d.node, sound.0), d.small, omega (arith, since, sound.2))

-- The 64 digits of an id, a negative one in two's complement.
abbrev pub as_uint_64 : ℤ → ℕ
as_uint_64 id = (pos_part id + (2 ^ 64 - neg_part id)) % 2 ^ 64

node_of :
    (id : ℤ) (t m node_id sequence : ℕ)
    → node_id < 1024
    → sequence < 4096
    → m ≤ 1
    → pos_part id + m * 4194304 ≡ t * 4194304 + node_id * 4096 + sequence + neg_part id
    → as_uint_64 id / 4096 % 1024 ≡ node_id
node_of (pos n) t m node_id sequence h s small e =
    let whole : as_uint_64 (pos n) ≡ n % 2 ^ 64 = omega arith in
    let digits : n % 2 ^ 64 / 4096 % 1024 ≡ n / 4096 % 1024 = omega arith in
    rw whole (digits ∙ omega (arith, h, s, e))
node_of (negsuc n) t m node_id sequence h s small e = omega (arith, h, s, small, e)

-- An id carries the number of its generator, in the ten digits above the last twelve; an id is
-- negative only at the time -1, and is then read in two's complement.
pub next_id-node :
    (readings : List ℤ) (g : Generator) (id : ℤ) (g' : Generator)
    → IsSound g
    → next_id readings g ≡ gives id g'
    → as_uint_64 id / 4096 % 1024 ≡ g.node_id
next_id-node readings g id g' sound h =
    let d = next_id-Gives readings g sound h in
    let s = Gives-IsSound g id g' sound d in
    let fields = id_of_fields g'.last_timestamp g'.node_id g'.sequence s.0 s.1 in
    node_of id (pos_part g'.last_timestamp) (neg_part g'.last_timestamp) g'.node_id g'.sequence s.0
      s.1 s.2 (rw d.made fields)
    ∙ d.node

next_id-grows :
    (g' : Generator) (id id' : ℤ) (g'' : Generator)
    → IsSound g'
    → id ≡ id_of g'.last_timestamp g'.node_id g'.sequence
    → Gives g' id' g''
    → id <ℤ id'
next_id-grows g' id id' g'' s made two =
    let s' = Gives-IsSound g' id' g'' s two in
    let first = id_of_fields g'.last_timestamp g'.node_id g'.sequence s.0 s.1 in
    let second = id_of_fields g''.last_timestamp g''.node_id g''.sequence s'.0 s'.1 in
    rw (made, two.made) (omega (arith, first, second, two.later, two.node, s.1, s'.1))

-- The clock shows a time that 42 bits hold, or one before the first.
abbrev pub IsInRange : ℤ → Type 0
IsInRange r = ltb_ℤ (pos max_timestamp) r ≡ false

emit-fits :
    (ts : ℤ) (sequence : ℕ) (g g' : Generator) → IsInRange ts → emit ts sequence g ≢ overflows g'
emit-fits ts sequence g g' fits h = cc (rw fits at h)

wait-fits :
    (last : ℤ) (readings : List ℤ) (g g' : Generator)
    → All IsInRange readings
    → emit_after (wait_next_millis last readings) 0 g ≢ overflows g'
wait-fits last [] g g' fits h = cc h
wait-fits last (r ∷ rs) g g' fits h = elim (Bool-cases (leb_ℤ r last)) [
  | inl early ↦ wait-fits last rs g g' fits.1 (rw early at h)
  | inr later ↦ emit-fits r 0 g g' fits.0 (rw later at h)
]

-- A clock in range makes no overflow.
next_id-fits :
    (readings : List ℤ) (g g' : Generator)
    → All IsInRange readings
    → next_id readings g ≢ overflows g'
unfolding next_id
next_id-fits [] g g' fits h = cc h
next_id-fits (now ∷ later) g g' fits h = elim (Bool-cases (ltb_ℤ now g.last_timestamp)) [
  | inl back ↦ wait-fits g.last_timestamp later g g' fits.1 (rw back at h)
  | inr fwd ↦ elim (Bool-cases (eq_ℤ now g.last_timestamp)) [
    | inl same ↦
        let it : now ≡ g.last_timestamp = eq_of_parts _ _ (ground arith) in
        let k = rw (fwd, same) at h in
        elim (Bool-cases (bit_and (g.sequence + 1) max_sequence == 0)) [
          | inl full ↦ wait-fits g.last_timestamp later g g' fits.1 (rw full at k)
          | inr room ↦
              emit-fits g.last_timestamp (bit_and (g.sequence + 1) max_sequence) g g'
                (subst IsInRange it fits.0) (rw room at k)
        ]
    | inr other ↦ emit-fits now 0 g g' fits.0 (rw (fwd, other) at h)
  ]
]

-- Each greater than the one before it.
abbrev pub IsAscendingFrom : ℤ → List ℤ → Type 0
IsAscendingFrom low [] = Unit
IsAscendingFrom low (id ∷ rest) = (low <ℤ id) × IsAscendingFrom id rest

abbrev pub IsAscending : List ℤ → Type 0
IsAscending [] = Unit
IsAscending (id ∷ rest) = IsAscendingFrom id rest

abbrev pub continue : Call → (Generator → List ℤ) → List ℤ
continue waits next = []
continue (overflows g) next = next g
continue (gives id g) next = id ∷ next g

-- The ids that calls give one after the other. A call that throws gives none and changes the
-- generator; while a call waits the process stands still, and no later call is made.
unfoldable pub ids : List (List ℤ) → Generator → List ℤ
ids [] g = []
ids (readings ∷ calls) g = continue (next_id readings g) (ids calls)

call_cases :
    (c : Call)
    → (c ≡ waits)
      ⊎ (((g : Generator) × (c ≡ overflows g)) ⊎ ((id : ℤ) × (g : Generator) × (c ≡ gives id g)))
call_cases waits = inl refl
call_cases (overflows g) = inr (inl (g, refl))
call_cases (gives id g) = inr (inr (id, g, refl))

ids-IsAscendingFrom :
    (calls : List (List ℤ)) (g : Generator) (id : ℤ)
    → IsSound g
    → id ≡ id_of g.last_timestamp g.node_id g.sequence
    → All (All IsInRange) calls
    → IsAscendingFrom id (ids calls g)
unfolding ids
ids-IsAscendingFrom [] g id sound made fits = tt
ids-IsAscendingFrom (r ∷ calls) g id sound made (fit, fits) = elim (call_cases (next_id r g)) [
  | inl stuck ↦ rw stuck tt
  | inr (inl (g', over)) ↦ absurd (next_id-fits r g g' fit over)
  | inr (inr (id', g', given)) ↦
      let d = next_id-Gives r g sound given in
      rw given (
        next_id-grows g id id' g' sound made d,
        ids-IsAscendingFrom calls g' id' (Gives-IsSound g id' g' sound d) d.made fits,
      )
]

-- The ids that a sound generator gives, call after call, are strictly ascending, as long as the
-- clock shows no time beyond the 42 bits of a timestamp: it may stand still, go back, or show a
-- time before the first.
pub ids-IsAscending :
    (calls : List (List ℤ)) (g : Generator)
    → IsSound g
    → All (All IsInRange) calls
    → IsAscending (ids calls g)
unfolding ids
ids-IsAscending [] g sound fits = tt
ids-IsAscending (r ∷ calls) g sound (fit, fits) = elim (call_cases (next_id r g)) [
  | inl stuck ↦ rw stuck tt
  | inr (inl (g', over)) ↦ absurd (next_id-fits r g g' fit over)
  | inr (inr (id, g', given)) ↦
      let d = next_id-Gives r g sound given in
      rw given (ids-IsAscendingFrom calls g' id (Gives-IsSound g id g' sound d) d.made fits)
]
