-- ===== src/Snowflake/NodeId.antt =====
-- How packages/shared/snowflake/component/snowflake.ts finds the number of the node: from its
-- environment, or from the MAC addresses. What `Math.random()` gives and the table of CRCs are
-- arguments; the table is none as long as its static field is not yet set. `nearest` is the
-- `number` nearest to an integer, as the runtime rounds it. A network interface without a MAC
-- address has the empty text.
use Prim.Native.Nat.{bit_and, bit_xor}
use pivotal.Base.{
  ℕ, zero, suc, ◌+◌, ◌-◌, ◌*◌, ◌/◌, ◌%◌, ◌^◌, Bool, true, false, ◌&&◌, ◌||◌, Option, none, some,
  List, [], ◌∷◌, ltb, leb, ◌==◌, if◌then◌else◌, length, Result, ok, err, ◌>>=◌, ℤ, pos, negsuc,
  neg_ℕ,
}
use pivotal.Text.{Text, codes, is_digit, trim, trim_start, value}
use pivotal.Responses.Subjects.{text_eq}
use pivotal.Snowflake.{max_node_id}

-- The inner loop of createCrc32Table, of `rounds` rounds.
abbrev pub crc32_of : ℕ → ℕ → ℕ
crc32_of zero c = c
crc32_of (suc rounds) c =
    crc32_of rounds (if bit_and c 1 == 0 then c / 2 else bit_xor 0xedb88320 (c / 2))

abbrev crc32_from : ℕ → ℕ → List ℕ
crc32_from zero i = []
crc32_from (suc count) i = crc32_of 8 i ∷ crc32_from count (i + 1)

unfoldable pub create_crc32_table : List ℕ
create_crc32_table = crc32_from 256 0

-- `toLowerCase` of the units that the pattern then keeps.
abbrev pub lower_case : ℕ → ℕ
lower_case c = if leb b'A' c && leb c b'Z' then c + 32 else c

abbrev pub is_hex : ℕ → Bool
is_hex c = is_digit c || (leb b'a' c && leb c b'f')

-- `macAddress.toLowerCase().replace(/[^a-f0-9]/g, '')`
abbrev pub normalized : Text → Text
normalized [] = []
normalized (c ∷ s) =
    let rest = normalized s in if is_hex (lower_case c) then lower_case c ∷ rest else rest

abbrev pub hex_digit : ℕ → ℕ
hex_digit c = if is_digit c then c - b'0' else c - b'a' + 10

-- The loop over pairs; a pair of hexadecimal digits is never NaN.
abbrev pub bytes_of : Text → List ℕ
bytes_of [] = []
bytes_of (c ∷ []) = []
bytes_of (c ∷ d ∷ s) = (hex_digit c * 16 + hex_digit d) ∷ bytes_of s

unfoldable pub parse_mac_address : Text → Option (List ℕ)
parse_mac_address mac_address =
    let hex = normalized (trim mac_address) in
    if length hex == 12 then some (bytes_of hex) else none

-- `CRC32_TABLE[index]`, for an index below 256.
abbrev pub table_at : List ℕ → ℕ → ℕ
table_at [] index = 0
table_at (c ∷ table) zero = c
table_at (c ∷ table) (suc index) = table_at table index

abbrev pub update_crc : List ℕ → ℕ → List ℕ → ℕ
update_crc table crc [] = crc
update_crc table crc (byte ∷ mac_bytes) =
    update_crc table (bit_xor (table_at table (bit_and (bit_xor crc byte) 255)) (crc / 2 ^ 8))
      mac_bytes

-- Reading the table before it is there.
pub data TypeError : Type 0 where
  table_undefined : TypeError

pub record Crc : Type 0 where
  pub crc : ℕ
  pub has_mac_address : Bool

abbrev pub add_bytes : Option (List ℕ) → Option (List ℕ) → Crc → Result TypeError Crc
add_bytes table none seen = ok seen
add_bytes none (some mac_bytes) seen = err table_undefined
add_bytes (some table) (some mac_bytes) seen =
    ok (record { crc = update_crc table seen.crc mac_bytes; has_mac_address = true })

abbrev pub add_entry : Option (List ℕ) → Text → Crc → Result TypeError Crc
add_entry table mac seen =
    if text_eq mac [] || text_eq mac (codes "00:00:00:00:00:00")
    then ok seen
    else add_bytes table (parse_mac_address mac) seen

abbrev pub add_entries : Option (List ℕ) → List Text → Crc → Result TypeError Crc
add_entries table [] seen = ok seen
add_entries table (mac ∷ entries) seen = do
  next ← add_entry table mac seen
  add_entries table entries next

abbrev pub add_interfaces : Option (List ℕ) → List (List Text) → Crc → Result TypeError Crc
add_interfaces table [] seen = ok seen
add_interfaces table (entries ∷ interfaces) seen = do
  next ← add_entries table entries seen
  add_interfaces table interfaces next

-- `random` is `Math.floor(Math.random() * 2 ** 31)`.
abbrev pub node_id_of_crc : ℕ → Result TypeError Crc → ℕ
node_id_of_crc random (err e) = bit_and random max_node_id
node_id_of_crc random (ok seen) =
    if seen.has_mac_address
    then bit_and (bit_xor seen.crc 0xffffffff) max_node_id
    else bit_and random max_node_id

unfoldable pub create_node_id_from_mac : Option (List ℕ) → List (List Text) → ℕ → ℕ
create_node_id_from_mac table interfaces random =
    node_id_of_crc random
      (add_interfaces table interfaces (record { crc = 0xffffffff; has_mac_address = false }))

-- `Number.parseInt(text, 10)`, none for NaN: white space, a sign, and then the digits in front.
abbrev pub leading_digits : Text → Text
leading_digits [] = []
leading_digits (c ∷ s) = let rest = leading_digits s in if is_digit c then c ∷ rest else []

abbrev pub number_of : Text → Option ℕ
number_of [] = none
number_of (c ∷ digits) = some (value (c ∷ digits))

abbrev pub with_sign : (ℕ → ℤ) → Option ℕ → Option ℤ
with_sign sign none = none
with_sign sign (some n) = some (sign n)

abbrev pub parse_signed : Text → Option ℤ
parse_signed [] = none
parse_signed (c ∷ s) =
    if c == b'-'
    then with_sign neg_ℕ (number_of (leading_digits s))
    else if c == b'+'
    then with_sign pos (number_of (leading_digits s))
    else with_sign pos (number_of (leading_digits (c ∷ s)))

unfoldable pub parse_int : Text → Option ℤ
parse_int s = parse_signed (trim_start s)

-- `n & MAX_NODE_ID`, of the nearest number in 32 bits.
abbrev pub node_bits : (ℕ → ℕ) → ℤ → ℕ
node_bits nearest (pos n) = bit_and (nearest n % 2 ^ 32) max_node_id
node_bits nearest (negsuc n) = bit_and ((2 ^ 32 - nearest (n + 1) % 2 ^ 32) % 2 ^ 32) max_node_id

-- `slice(lastIndexOf('-') + 1)`, none where there is no dash.
abbrev pub after_last_dash : Text → Option Text
after_last_dash [] = none
after_last_dash (c ∷ s) = elim (after_last_dash s) [
  | some rest ↦ some rest
  | none ↦ if c == b'-' then some s else none
]

abbrev pub ordinal_of : Option Text → Option ℤ
ordinal_of none = none
ordinal_of (some []) = none
ordinal_of (some (c ∷ s)) = parse_int (c ∷ s)

abbrev or_ordinal : Option ℤ → Text → Option ℤ
or_ordinal none configured = ordinal_of (after_last_dash configured)
or_ordinal (some n) configured = some n

-- The number in a value that was set and is trimmed.
abbrev pub configured_number : Option Text → Option ℤ
configured_number none = none
configured_number (some configured) =
    let trimmed = trim configured in
    if ltb 0 (length trimmed) then or_ordinal (parse_int trimmed) trimmed else none

pub data NodeIdError : Type 0 where
  node_id_must_be_set : NodeIdError

pub record Host : Type 0 where
  pub snowflake_node_id : Option Text
  pub in_k8s : Bool
  pub interfaces : List (List Text)

abbrev pub or_from_mac : (ℕ → ℕ) → Option (List ℕ) → Host → ℕ → Option ℤ → Result NodeIdError ℕ
or_from_mac nearest table host random (some n) = ok (node_bits nearest n)
or_from_mac nearest table host random none =
    if host.in_k8s
    then err node_id_must_be_set
    else ok (create_node_id_from_mac table host.interfaces random)

unfoldable pub resolve_node_id : (ℕ → ℕ) → Option (List ℕ) → Host → ℕ → Result NodeIdError ℕ
unfolding create_node_id_from_mac parse_int
resolve_node_id nearest table host random =
    or_from_mac nearest table host random (configured_number host.snowflake_node_id)
