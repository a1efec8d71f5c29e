-- ===== src/Snowflake.antt =====
-- packages/shared/snowflake/component/snowflake.ts: the generator of the ids of rows and messages.
-- A reading of the clock is `Date.now() - BIG_BANG`, an integer; the readings that a call makes are
-- taken from a list in order, and a call that still waits when they run out has no result yet.
pub mod Order
pub mod Waiting
pub mod NodeId
mod Pods
mod NodeTests
mod Tests
use Prim.Native.Nat.{bit_or, bit_and}
use pivotal.Base.{
  ℕ, suc, ◌+◌, ◌*◌, ◌^◌, Option, none, some, List, [], ◌∷◌, ◌==◌, if◌then◌else◌, ℤ, pos, negsuc,
  sub_ℕ, ltb_ℤ, leb_ℤ, eq_ℤ,
}

abbrev pub max_node_id : ℕ
max_node_id = 1023

abbrev pub max_sequence : ℕ
max_sequence = 4095

abbrev pub max_timestamp : ℕ
max_timestamp = 4398046511103

pub record Generator : Type 0 where
  pub node_id : ℕ
  pub last_timestamp : ℤ
  pub sequence : ℕ

abbrev pub new_generator : ℕ → Generator
new_generator node_id = record {
  node_id = bit_and node_id max_node_id;
  last_timestamp = negsuc 0;
  sequence = 0;
}

pub data Call : Type 0 where
  -- The clock never showed a later time.
  waits : Call
  overflows : Generator → Call
  gives : ℤ → Generator → Call

-- The first reading after `last`, which the loop waits for.
abbrev pub wait_next_millis : ℤ → List ℤ → Option ℤ
wait_next_millis last [] = none
wait_next_millis last (ts ∷ later) =
    let rest = wait_next_millis last later in if leb_ℤ ts last then rest else some ts

-- The node and the sequence, in the digits below those of the time.
abbrev pub low_part : ℕ → ℕ → ℕ
low_part node_id sequence = bit_or (node_id * 2 ^ 12) (bit_and sequence max_sequence)

-- A negative bigint is in two's complement: shifted, it ends in zeros, which the `|` fills.
abbrev pub id_of : ℤ → ℕ → ℕ → ℤ
id_of (pos n) node_id sequence =
    pos (bit_or (bit_or (n * 2 ^ 22) (node_id * 2 ^ 12)) (bit_and sequence max_sequence))
id_of (negsuc n) node_id sequence = sub_ℕ (low_part node_id sequence) ((n + 1) * 2 ^ 22)

-- From the check for overflow on, with the time and the sequence that the id takes.
abbrev pub emit : ℤ → ℕ → Generator → Call
emit ts sequence g =
    if ltb_ℤ (pos max_timestamp) ts
    then overflows (record g { sequence = sequence })
    else gives (id_of ts g.node_id sequence) (record g { last_timestamp = ts; sequence = sequence })

abbrev pub emit_after : Option ℤ → ℕ → Generator → Call
emit_after none sequence g = waits
emit_after (some ts) sequence g = emit ts sequence g

-- The time equals the last one: the next number, or the next millisecond once they are used up.
abbrev pub next_in : ℤ → List ℤ → Generator → Call
next_in last readings g =
    let next = bit_and (g.sequence + 1) max_sequence in
    if next == 0 then emit_after (wait_next_millis last readings) 0 g else emit last next g

abbrev pub next_since : ℤ → ℤ → List ℤ → Generator → Call
next_since last now later g =
    if ltb_ℤ now last
    then emit_after (wait_next_millis last later) 0 g
    else if eq_ℤ now last
    then next_in last later g
    else emit now 0 g

unfoldable pub next_id : List ℤ → Generator → Call
next_id [] g = waits
next_id (now ∷ later) g = next_since g.last_timestamp now later g
