-- ===== src/Ulid.antt =====
-- packages/shared/ulid/component/ulid.ts: ids made of the time and of random bytes.
mod Texts
mod Base32
mod Order
mod Tests
use Prim.Native.Nat.{bit_and, bit_or}
use pivotal.Base.{
  ℕ, zero, suc, ◌+◌, ◌-◌, ◌*◌, ◌/◌, ◌^◌, List, [], ◌∷◌, ◌++◌, ltb, if◌then◌else◌, Result, ok, err,
  ◌>>=◌, ◌>>◌, throw_if,
}
use pivotal.Text.{Text, codes}

abbrev pub alphabet : Text
alphabet = codes "0123456789ABCDEFGHJKMNPQRSTVWXYZ"

abbrev pub time_part_length : ℕ
time_part_length = 10

abbrev pub random_part_length : ℕ
random_part_length = 16

abbrev pub mask : ℕ
mask = 31

abbrev pub max_timestamp : ℕ
max_timestamp = 2 ^ 48 - 1

pub data UlidError : Type 0 where
  timestamp_overflow : UlidError

-- `charAt(index)`, as a text.
abbrev pub char_at : Text → ℕ → Text
char_at [] index = []
char_at (c ∷ s) zero = c ∷ []
char_at (c ∷ s) (suc index) = char_at s index

-- The buffer is filled from its end: the last character first, then those before it.
unfoldable pub to_base32 : ℕ → ℕ → Text
to_base32 remaining zero = []
to_base32 remaining (suc count) =
    to_base32 (remaining / 2 ^ 5) count ++ char_at alphabet (bit_and remaining mask)

-- The loop over the bytes, from the value so far.
unfoldable pub value_of_bytes : ℕ → List ℕ → ℕ
value_of_bytes value [] = value
value_of_bytes value (byte ∷ bytes) = value_of_bytes (bit_or (value * 2 ^ 8) byte) bytes

-- `randomBytes` gives ten bytes.
unfoldable pub random_value : List ℕ → ℕ
unfolding value_of_bytes
random_value random = value_of_bytes 0 random

unfoldable pub generate : ℕ → List ℕ → Result UlidError Text
unfolding to_base32 random_value
generate timestamp random = do
  throw_if (ltb max_timestamp timestamp) timestamp_overflow
  ok (to_base32 timestamp time_part_length ++ to_base32 (random_value random) random_part_length)
