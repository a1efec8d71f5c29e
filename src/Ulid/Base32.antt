-- ===== src/Ulid/Base32.antt =====
-- toBase32 of packages/shared/ulid/component/ulid.ts, and how its texts compare.
use Prim.Native.Nat.{bit_and}
use native.Mathlib.Nat.{pow-suc, pow-zero}
use pivotal.Base.{
  ℕ, zero, suc, ◌+◌, ◌*◌, ◌/◌, ◌%◌, ◌^◌, ◌≡◌, ◌<◌, refl, sym, subst, ◌∙◌, Bool, true, false, ◌&&◌,
  ◌||◌, [], ◌∷◌, ltb, ◌==◌, length, length-append, All, inl, inr, Bool-cases, arith,
}
use pivotal.Base.Bits.{bit_and_low}
use pivotal.Text.{Text}
use pivotal.Responses.Subjects.{text_eq}
use pivotal.Ulid.{alphabet, char_at, to_base32, mask}
use pivotal.Ulid.Texts.{precedes, precedes-append, text_eq-append}

-- Characters of an alphabet in ascending order compare as their indices.
abbrev Ascending : Text → Type 0
Ascending [] = Unit
Ascending (c ∷ s) = (All (λ d. c < d) s) × Ascending s

length-char_at : (s : Text) (i : ℕ) → i < length s → length (char_at s i) ≡ 1
length-char_at [] i h = absurd (omega arith)
length-char_at (c ∷ s) zero h = refl
length-char_at (c ∷ s) (suc i) h = length-char_at s i (omega arith)

first_precedes :
    (c : ℕ) (s : Text) (j : ℕ)
    → All (λ d. c < d) s
    → j < length s
    → (precedes (c ∷ []) (char_at s j) ≡ true)
      × (precedes (char_at s j) (c ∷ []) ≡ false)
      × (text_eq (c ∷ []) (char_at s j) ≡ false)
      × (text_eq (char_at s j) (c ∷ []) ≡ false)
first_precedes c [] j h small = absurd (omega arith)
first_precedes c (d ∷ s) zero (first, h) small =
    let lt : ltb c d ≡ true = ground arith in
    let gt : ltb d c ≡ false = ground arith in
    let ne : (c == d) ≡ false = ground arith in
    let en : (d == c) ≡ false = ground arith in
    (rw lt refl, rw (gt, en) refl, rw ne refl, rw en refl)
first_precedes c (d ∷ s) (suc j) (first, h) small = first_precedes c s j h (omega arith)

char_at_compare :
    (s : Text)
    → Ascending s
    → (i j : ℕ) → i < length s
    → j < length s
    → (precedes (char_at s i) (char_at s j) ≡ ltb i j)
      × (text_eq (char_at s i) (char_at s j) ≡ (i == j))
char_at_compare [] up i j h k = absurd (omega arith)
char_at_compare (c ∷ s) (first, up) zero zero h k = (ground arith, ground arith)
char_at_compare (c ∷ s) (first, up) zero (suc j) h k =
    let below = first_precedes c s j first (omega arith) in
    (below.0 ∙ ground arith, below.2 ∙ ground arith)
char_at_compare (c ∷ s) (first, up) (suc i) zero h k =
    let below = first_precedes c s i first (omega arith) in
    (below.1 ∙ ground arith, below.3 ∙ ground arith)
char_at_compare (c ∷ s) (first, up) (suc i) (suc j) h k =
    let rest = char_at_compare s up i j (omega arith) (omega arith) in
    (rest.0 ∙ ground arith, rest.1 ∙ ground arith)

above : ℕ → Text → Bool
above c [] = true
above c (d ∷ s) = ltb c d && above c s

ascending : Text → Bool
ascending [] = true
ascending (c ∷ s) = above c s && ascending s

above-All : (c : ℕ) (s : Text) → above c s ≡ true → All (λ d. c < d) s
unfolding above
above-All c [] h = tt
above-All c (d ∷ s) h = elim (Bool-cases (ltb c d)) [
  | inl less ↦ (ground arith, above-All c s (subst (λ b. (b && above c s) ≡ true) less h))
  | inr more ↦ absurd (ground arith)
]

ascending-Ascending : (s : Text) → ascending s ≡ true → Ascending s
unfolding ascending
ascending-Ascending [] h = tt
ascending-Ascending (c ∷ s) h = elim (Bool-cases (above c s)) [
  | inl first ↦
      (above-All c s first, ascending-Ascending s (subst (λ b. (b && ascending s) ≡ true) first h))
  | inr broken ↦ absurd (ground arith)
]

alphabet-Ascending : Ascending alphabet
unfolding above ascending
alphabet-Ascending = ascending-Ascending alphabet refl

low_digits : (v : ℕ) → bit_and v mask ≡ v % 32
low_digits v =
    let split : v / 32 * 2 ^ 5 + v % 32 ≡ v = omega arith in
    subst (λ x. bit_and x mask ≡ v % 32) split
      (bit_and_low 5 (v / 32) (v % 32) mask refl (omega arith))

pub length-to_base32 : (v n : ℕ) → length (to_base32 v n) ≡ n
unfolding to_base32
length-to_base32 v zero = refl
length-to_base32 v (suc n) =
    let small : bit_and v mask < 32 = rw (low_digits v) (omega arith) in
    let one = length-char_at alphabet (bit_and v mask) small in
    omega (
      arith,
      length-append (to_base32 (v / 2 ^ 5) n) (char_at alphabet (bit_and v mask)),
      length-to_base32 (v / 2 ^ 5) n,
      one,
    )

last_compare :
    (v w : ℕ)
    → (precedes (char_at alphabet (bit_and v mask)) (char_at alphabet (bit_and w mask))
        ≡ ltb (v % 32) (w % 32))
      × (text_eq (char_at alphabet (bit_and v mask)) (char_at alphabet (bit_and w mask))
          ≡ (v % 32 == w % 32))
last_compare v w =
    let small_v : v % 32 < 32 = omega arith in
    let small_w : w % 32 < 32 = omega arith in
    rw (low_digits v, low_digits w)
      (char_at_compare alphabet alphabet-Ascending (v % 32) (w % 32) small_v small_w)

divided_less :
    (v w : ℕ)
    → (ltb (v / 2 ^ 5) (w / 2 ^ 5) || ((v / 2 ^ 5 == w / 2 ^ 5) && ltb (v % 32) (w % 32))) ≡ ltb v w
divided_less v w = ground arith

divided_same : (v w : ℕ) → ((v / 2 ^ 5 == w / 2 ^ 5) && (v % 32 == w % 32)) ≡ (v == w)
divided_same v w = ground arith

-- Two numbers written with as many characters as they need compare as their texts.
pub to_base32_compare :
    (n v w : ℕ)
    → v < 32 ^ n
    → w < 32 ^ n
    → (precedes (to_base32 v n) (to_base32 w n) ≡ ltb v w)
      × (text_eq (to_base32 v n) (to_base32 w n) ≡ (v == w))
unfolding to_base32
to_base32_compare zero v w h k = (ground (arith, pow-zero 32), ground (arith, pow-zero 32))
to_base32_compare (suc n) v w h k =
    let small_v : v / 2 ^ 5 < 32 ^ n = omega (arith, pow-suc 32 n) in
    let small_w : w / 2 ^ 5 < 32 ^ n = omega (arith, pow-suc 32 n) in
    let front = to_base32_compare n (v / 2 ^ 5) (w / 2 ^ 5) small_v small_w in
    let same_length = length-to_base32 (v / 2 ^ 5) n ∙ sym (length-to_base32 (w / 2 ^ 5) n) in
    let last = last_compare v w in
    (
      precedes-append _ _ _ _ same_length ∙ rw (front.0, front.1, last.0) (divided_less v w),
      text_eq-append _ _ _ _ same_length ∙ rw (front.1, last.1) (divided_same v w),
    )
