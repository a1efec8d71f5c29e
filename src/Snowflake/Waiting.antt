-- ===== src/Snowflake/Waiting.antt =====
-- packages/shared/snowflake/component/snowflake.ts: when a call of nextId comes to an end.
use Prim.Native.Nat.{bit_and}
use pivotal.Base.{
  ℕ, ◌+◌, ◌≡◌, ◌≢◌, true, false, List, [], ◌∷◌, ◌==◌, any, inl, inr, Bool-cases, arith, ℤ, pos,
  ltb_ℤ, leb_ℤ, eq_ℤ,
}
use pivotal.Snowflake.{
  Generator, waits, max_timestamp, max_sequence, wait_next_millis, emit, emit_after, next_in,
  next_id,
}

emit_returns : (ts : ℤ) (sequence : ℕ) (g : Generator) → emit ts sequence g ≢ waits
emit_returns ts sequence g = elim (Bool-cases (ltb_ℤ (pos max_timestamp) ts)) [
  | inl over ↦ rw over (λ h. cc h)
  | inr fits ↦ rw fits (λ h. cc h)
]

waited_returns :
    (last : ℤ) (readings : List ℤ) (g : Generator)
    → any (ltb_ℤ last) readings ≡ true
    → emit_after (wait_next_millis last readings) 0 g ≢ waits
waited_returns last [] g h = absurd (cc)
waited_returns last (ts ∷ later) g h = elim (Bool-cases (leb_ℤ ts last)) [
  | inl early ↦
      let not_yet : ltb_ℤ last ts ≡ false = ground arith in
      rw early (waited_returns last later g (rw not_yet at h))
  | inr late ↦ rw late (emit_returns ts 0 g)
]

next_in_returns :
    (last : ℤ) (later : List ℤ) (g : Generator)
    → any (ltb_ℤ last) later ≡ true
    → next_in last later g ≢ waits
next_in_returns last later g h = elim (Bool-cases (bit_and (g.sequence + 1) max_sequence == 0)) [
  | inl used_up ↦ rw used_up (waited_returns last later g h)
  | inr left ↦ rw left (emit_returns last _ g)
]

-- A call of nextId ends, with an id or an overflow, once the clock shows a time later than that of
-- the last id, which is -1 before the first id, however often it showed earlier times before.
pub next_id-returns :
    (readings : List ℤ) (g : Generator)
    → any (ltb_ℤ g.last_timestamp) readings ≡ true
    → next_id readings g ≢ waits
unfolding next_id
next_id-returns [] g h = absurd (cc)
next_id-returns (now ∷ later) g h = elim (Bool-cases (ltb_ℤ now g.last_timestamp)) [
  | inl back ↦
      let not_yet : ltb_ℤ g.last_timestamp now ≡ false = ground arith in
      rw back (waited_returns g.last_timestamp later g (rw not_yet at h))
  | inr on ↦ elim (Bool-cases (eq_ℤ now g.last_timestamp)) [
    | inl same ↦
        let not_yet : ltb_ℤ g.last_timestamp now ≡ false = ground arith in
        rw (on, same) (next_in_returns g.last_timestamp later g (rw not_yet at h))
    | inr later_now ↦ rw (on, later_now) (emit_returns now 0 g)
  ]
]
