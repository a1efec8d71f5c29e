-- ===== src/Ulid/Order.antt =====
-- How the ids compare as texts.
use Prim.Native.Nat.{bit_or}
use native.Mathlib.Nat.{mul-le-mul_right, pow-suc, pow-zero}
use pivotal.Base.{
  ℕ, suc, ◌+◌, ◌*◌, ◌^◌, ◌≡◌, ◌≤◌, ◌<◌, refl, sym, ap, ◌∙◌, false, ◌&&◌, ◌||◌, List, [], ◌∷◌, ◌++◌,
  ltb, ◌==◌, length, length-append, All, ok, arith,
}
use pivotal.Base.Bits.{bit_or_fields}
use pivotal.Text.{Text}
use pivotal.Responses.Subjects.{text_eq}
use pivotal.Ulid.{to_base32, value_of_bytes, random_value, generate, max_timestamp}
use pivotal.Ulid.Texts.{precedes, precedes-append, text_eq-append}
use pivotal.Ulid.Base32.{length-to_base32, to_base32_compare}

-- The value of n bytes after a value.
value_of_bytes_small :
    (bytes : List ℕ) (value : ℕ)
    → All (λ b. b < 256) bytes
    → value_of_bytes value bytes < (value + 1) * 256 ^ length bytes
unfolding value_of_bytes
value_of_bytes_small [] value h = omega (arith, pow-zero 256)
value_of_bytes_small (b ∷ bytes) value (small, h) =
    let joined : bit_or (value * 2 ^ 8) b ≡ value * 2 ^ 8 + b = bit_or_fields 8 value b small in
    let rest = value_of_bytes_small bytes (bit_or (value * 2 ^ 8) b) h in
    let fits : bit_or (value * 2 ^ 8) b + 1 ≤ (value + 1) * 256 = omega arith in
    let scaled = mul-le-mul_right (256 ^ length bytes) fits in
    let whole : (value + 1) * 256 ^ suc (length bytes) ≡ (value + 1) * 256 * 256 ^ length bytes =
      rw (pow-suc 256 (length bytes)) (omega arith) in
    omega (arith, whole)

random_value_small :
    (bytes : List ℕ) → All (λ b. b < 256) bytes → length bytes ≡ 10 → random_value bytes < 32 ^ 16
unfolding random_value
random_value_small bytes h ten =
    let below = value_of_bytes_small bytes 0 h in
    let limit : 256 ^ length bytes ≡ 32 ^ 16 = ap (λ n. 256 ^ n) ten in omega arith

generate_ok :
    (now : ℕ) (random : List ℕ)
    → now ≤ max_timestamp
    → generate now random ≡ ok (to_base32 now 10 ++ to_base32 (random_value random) 16)
unfolding generate
generate_ok now random h = let fits : ltb max_timestamp now ≡ false = ground arith in rw fits refl

-- For two times that 48 bits hold, and ten random bytes with each, both calls give an id of 26
-- characters, and the ids compare as texts by the times first and, at the same time, by the
-- random values; they are equal exactly when both are.
pub generate_order :
    (now1 now2 : ℕ) (random1 random2 : List ℕ)
    → now1 ≤ max_timestamp
    → now2 ≤ max_timestamp
    → All (λ b. b < 256) random1
    → All (λ b. b < 256) random2
    → length random1 ≡ 10
    → length random2 ≡ 10
    → (id1 : Text) × (id2 : Text) × (generate now1 random1 ≡ ok id1)
      × (generate now2 random2 ≡ ok id2)
      × (length id1 ≡ 26)
      × (precedes id1 id2 ≡ (
          ltb now1 now2 || ((now1 == now2) && ltb (random_value random1) (random_value random2))))
      × (text_eq id1 id2 ≡ ((now1 == now2) && (random_value random1 == random_value random2)))
generate_order now1 now2 random1 random2 fits1 fits2 small1 small2 ten1 ten2 =
    let time1 : now1 < 32 ^ 10 = omega arith in
    let time2 : now2 < 32 ^ 10 = omega arith in
    let time = to_base32_compare 10 now1 now2 time1 time2 in
    let rest =
      to_base32_compare 16 (random_value random1) (random_value random2)
        (random_value_small random1 small1 ten1) (random_value_small random2 small2 ten2) in
    let same = length-to_base32 now1 10 ∙ sym (length-to_base32 now2 10) in
    (
      to_base32 now1 10 ++ to_base32 (random_value random1) 16,
      to_base32 now2 10 ++ to_base32 (random_value random2) 16,
      generate_ok now1 random1 fits1,
      generate_ok now2 random2 fits2,
      length-append (to_base32 now1 10) (to_base32 (random_value random1) 16)
          ∙ omega (arith, length-to_base32 now1 10, length-to_base32 (random_value random1) 16),
      precedes-append _ _ _ _ same ∙ rw (time.0, time.1, rest.0) refl,
      text_eq-append _ _ _ _ same ∙ rw (time.1, rest.1) refl,
    )
