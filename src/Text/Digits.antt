-- ===== src/Text/Digits.antt =====
-- Decimal digits: what a text of digits is worth, and that printing a number and reading it back
-- gives the number.
use native.Mathlib.Nat.{pow-suc, pow-zero, mul-le-mul_right, sub-zero, suc-sub-suc}
use pivotal.Base.{
  ℕ, zero, suc, ◌+◌, ◌-◌, ◌*◌, ◌/◌, ◌%◌, ◌^◌, ◌≤◌, ◌<◌, ◌≡◌, refl, sym, ap, ◌∙◌, true, inl, inr, [],
  ◌∷◌, ◌++◌, arith, length, replicate, All, All-append, length-append, length-replicate, Bool-cases,
  ltb,
}
use pivotal.Text.{
  Text, is_digit, only_zeros, strip_zeros, value_from, value, digits_of, to_string, pad_end,
}

abbrev pub Digits : Text → Type 0
Digits = All (λ c. is_digit c ≡ true)

pub value_from-append :
    (acc : ℕ) (s t : Text) → value_from acc (s ++ t) ≡ value_from (value_from acc s) t
unfolding value_from
value_from-append acc [] t = refl
value_from-append acc (c ∷ s) t = value_from-append (acc * 10 + (c - b'0')) s t

pow-ten-suc : (a n : ℕ) → a * 10 ^ suc n ≡ a * 10 * 10 ^ n
pow-ten-suc a n = omega (arith, ap (λ (t : ℕ). a * t) (pow-suc 10 n))

-- What was read before is shifted by the length of what follows.
pub value_from-shift : (acc : ℕ) (s : Text) → value_from acc s ≡ acc * 10 ^ length s + value s
unfolding value value_from
value_from-shift acc [] = omega (arith, pow-zero 10)
value_from-shift acc (c ∷ s) = ground (
  arith,
  value_from-shift (acc * 10 + (c - b'0')) s,
  value_from-shift (0 * 10 + (c - b'0')) s,
  pow-ten-suc acc (length s),
)

pub value-nil : value [] ≡ 0
unfolding value value_from
value-nil = refl

pub value-cons : (c : ℕ) (s : Text) → value (c ∷ s) ≡ (c - b'0') * 10 ^ length s + value s
unfolding value value_from
value-cons c s = ground (arith, value_from-shift (0 * 10 + (c - b'0')) s)

pub value-append : (s t : Text) → value (s ++ t) ≡ value s * 10 ^ length t + value t
unfolding value
value-append s t = value_from-append 0 s t ∙ value_from-shift (value_from 0 s) t

pub value-zeros : (n : ℕ) → value (replicate n b'0') ≡ 0
unfolding value value_from
value-zeros zero = refl
value-zeros (suc n) = value-zeros n

pub length-zeros : (n : ℕ) → length {A = ℕ} (replicate n b'0') ≡ n
length-zeros n = length-replicate n b'0'

-- Leading zeros are worth nothing.
pub value-zeros-append : (n : ℕ) (s : Text) → value (replicate n b'0' ++ s) ≡ value s
value-zeros-append n s =
    value-append (replicate n b'0') s
    ∙ ap (λ (v : ℕ). v * 10 ^ length s + value s) (value-zeros n)
    ∙ omega arith

pub value-only_zeros : (s : Text) → only_zeros s ≡ true → value s ≡ 0
unfolding value value_from only_zeros
value-only_zeros [] h = refl
value-only_zeros (c ∷ s) h = ground (arith, value_from-shift (c - b'0') s, value-only_zeros s)

digit_le : (c p : ℕ) → is_digit c ≡ true → (c - b'0') * p ≤ 9 * p
digit_le c p h = let small : c - b'0' ≤ 9 = ground arith in mul-le-mul_right p small

pub value_lt : (s : Text) → Digits s → value s < 10 ^ length s
unfolding value value_from
value_lt [] h = omega (arith, pow-zero 10)
value_lt (c ∷ s) (p, h) = ground (
  arith,
  value_from-shift (c - b'0') s,
  value_lt s h,
  pow-suc 10 (length s),
  digit_le c (10 ^ length s) p,
)

pub digits_of-Digits : (f n : ℕ) → Digits (digits_of f n)
unfolding digits_of
digits_of-Digits zero n = (ground arith, tt)
digits_of-Digits (suc f) n = elim (Bool-cases (ltb n 10)) [
  | inl small ↦ rw small (ground arith, tt)
  | inr big ↦
      rw big
        (All-append _ (digits_of f (n / 10)) _ (digits_of-Digits f (n / 10)) (ground arith, tt))
]

value_from-digits_of : (f n : ℕ) → n ≤ f → value (digits_of f n) ≡ n
unfolding digits_of value value_from
value_from-digits_of zero n h = omega arith
value_from-digits_of (suc f) n h = elim (Bool-cases (ltb n 10)) [
  | inl small ↦ rw small (omega arith)
  | inr big ↦
      rw (big, value_from-append 0 (digits_of f (n / 10)) ((b'0' + n % 10) ∷ []))
        (ground (arith, value_from-digits_of f (n / 10)))
]

-- `BigInt(n.toString())` is `n`.
pub value-to_string : (n : ℕ) → value (to_string n) ≡ n
unfolding to_string
value-to_string n = value_from-digits_of n n (omega arith)

pub to_string-Digits : (n : ℕ) → Digits (to_string n)
unfolding to_string
to_string-Digits n = digits_of-Digits n n

digits_of-length : (f n : ℕ) → 0 < length (digits_of f n)
unfolding digits_of
digits_of-length zero n = omega arith
digits_of-length (suc f) n = elim (Bool-cases (ltb n 10)) [
  | inl small ↦ rw small (omega arith)
  | inr big ↦ rw big (omega (arith, length-append (digits_of f (n / 10)) ((b'0' + n % 10) ∷ [])))
]

pub length-to_string_pos : (n : ℕ) → 0 < length (to_string n)
unfolding to_string
length-to_string_pos n = digits_of-length n n

only_zeros-eq : (s : Text) → only_zeros s ≡ true → s ≡ replicate (length s) b'0'
unfolding only_zeros
only_zeros-eq [] h = refl
only_zeros-eq (c ∷ s) h = ground (arith, only_zeros-eq s)

pub length-strip_zeros_le : (s : Text) → length (strip_zeros s) ≤ length s
unfolding strip_zeros
length-strip_zeros_le [] = omega arith
length-strip_zeros_le (c ∷ s) = elim (Bool-cases (only_zeros (c ∷ s))) [
  | inl z ↦ rw z (omega arith)
  | inr nz ↦ rw nz (omega (arith, length-strip_zeros_le s))
]

-- The zeros that were stripped come back by padding.
pub pad_end-strip_zeros : (s : Text) → pad_end (strip_zeros s) (length s) ≡ s
unfolding strip_zeros
pad_end-strip_zeros [] = refl
pad_end-strip_zeros (c ∷ s) = elim (Bool-cases (only_zeros (c ∷ s))) [
  | inl z ↦ rw (z, strip_zeros, sub-zero) (sym (only_zeros-eq (c ∷ s) z))
  | inr nz ↦ rw (nz, strip_zeros, suc-sub-suc) (ap (◌∷◌ c) (pad_end-strip_zeros s))
]

pub strip_zeros-Digits : (s : Text) → Digits s → Digits (strip_zeros s)
unfolding strip_zeros
strip_zeros-Digits [] h = tt
strip_zeros-Digits (c ∷ s) (p, h) = elim (Bool-cases (only_zeros (c ∷ s))) [
  | inl z ↦ rw z tt
  | inr nz ↦ rw nz (p, strip_zeros-Digits s h)
]

only_zeros-strip_zeros : (s : Text) → only_zeros (strip_zeros s) ≡ only_zeros s
unfolding only_zeros strip_zeros
only_zeros-strip_zeros [] = refl
only_zeros-strip_zeros (c ∷ s) = ground (arith, only_zeros-strip_zeros s)

pub strip_zeros_idem : (s : Text) → strip_zeros (strip_zeros s) ≡ strip_zeros s
unfolding strip_zeros only_zeros
strip_zeros_idem [] = refl
strip_zeros_idem (c ∷ s) = ground (arith, only_zeros-strip_zeros s, strip_zeros_idem s)
