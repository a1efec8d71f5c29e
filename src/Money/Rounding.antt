-- ===== src/Money/Rounding.antt =====
-- What each rounding mode does to the digits that are cut off, stated by numbers alone.
use pivotal.Base.{
  ℕ, zero, suc, ◌+◌, ◌-◌, ◌*◌, ◌%◌, ◌^◌, ◌≤◌, ◌<◌, ◌≡◌, refl, sym, ap, Bool, true, false, not, ◌&&◌,
  ◌||◌, inl, inr, [], ◌∷◌, arith, Bool-cases, length, ok, err, ◌==◌, leb, ltb, if◌then◌else◌,
  Result,
}
use native.Mathlib.Nat.{pow-suc, pow-zero, pow-succ', mul-le-mul_right}
use pivotal.Text.{Text, value_from, value}
use pivotal.Text.Digits.{Digits, value-cons, value_lt}
use pivotal.Money.{
  FspiopRoundingMode, up, down, ceiling, floor, half_up, half_down, half_even, unnecessary,
  MoneyError, rounding_necessary, Sign, is_minus, has_non_zero, last_digit, round_by_mode,
  should_round_up,
}

-- The rule of a mode for a discarded part that is worth `d` of `unit`: whether to add one.
abbrev pub rounds_up :
    FspiopRoundingMode → Sign → (odd : Bool) → (d unit : ℕ) → Result MoneyError Bool
rounds_up unnecessary sign odd d unit = if d == 0 then ok false else err rounding_necessary
rounds_up up sign odd d unit = ok (not (d == 0))
rounds_up down sign odd d unit = ok false
rounds_up ceiling sign odd d unit = ok (not (d == 0) && not (is_minus sign))
rounds_up floor sign odd d unit = ok (not (d == 0) && is_minus sign)
rounds_up half_up sign odd d unit = ok (leb unit (2 * d))
rounds_up half_down sign odd d unit = ok (ltb unit (2 * d))
rounds_up half_even sign odd d unit = ok (ltb unit (2 * d) || (2 * d == unit && odd))

pub pow_ten_pos : (n : ℕ) → 0 < 10 ^ n
pow_ten_pos zero = omega (arith, pow-zero 10)
pow_ten_pos (suc n) = omega (arith, pow-suc 10 n, pow_ten_pos n)

-- A digit `q` in front of a rest `r`: how many times `p` it is worth, compared with a number `k`.
digit_le : (q k p : ℕ) → q ≤ k → q * p ≤ k * p
digit_le q k p h = mul-le-mul_right p h

has_non_zero-value : (s : Text) → Digits s → has_non_zero s ≡ not (value s == 0)
unfolding has_non_zero value value_from
has_non_zero-value [] h = refl
has_non_zero-value (c ∷ s) (p, h) = elim (Bool-cases (leb b'1' c)) [
  | inl some_digit ↦
      ground (arith, value-cons c s, pow_ten_pos (length s), digit_le 1 (c - b'0') (10 ^ length s))
  | inr no_digit ↦
      ground (arith, value-cons c s, has_non_zero-value s h, digit_le (c - b'0') 0 (10 ^ length s))
]

-- The three comparisons with one half, for a first digit `q` and a rest `r < p`.
module _ (q p r : ℕ) (below : r < p) where
  half_up_digit : leb 5 q ≡ leb (10 * p) (2 * (q * p + r))
  half_up_digit = elim (Bool-cases (leb 5 q)) [
    | inl h ↦ let bound : 5 * p ≤ q * p = digit_le 5 q p (ground arith) in ground arith
    | inr h ↦ let bound : q * p ≤ 4 * p = digit_le q 4 p (ground arith) in ground arith
  ]

  above_half_digit : (ltb 5 q || (q == 5 && not (r == 0))) ≡ ltb (10 * p) (2 * (q * p + r))
  above_half_digit = elim (Bool-cases (ltb 5 q)) [
    | inl h ↦ let bound : 6 * p ≤ q * p = digit_le 6 q p (ground arith) in ground arith
    | inr h ↦ elim (Bool-cases (q == 5)) [
      | inl e ↦ ground arith
      | inr n ↦ let bound : q * p ≤ 4 * p = digit_le q 4 p (ground arith) in ground arith
    ]
  ]

  at_half_digit : (q == 5 && r == 0) ≡ (2 * (q * p + r) == 10 * p)
  at_half_digit = elim (Bool-cases (ltb 5 q)) [
    | inl h ↦ let bound : 6 * p ≤ q * p = digit_le 6 q p (ground arith) in ground arith
    | inr h ↦ elim (Bool-cases (q == 5)) [
      | inl e ↦ ground arith
      | inr n ↦ let bound : q * p ≤ 4 * p = digit_le q 4 p (ground arith) in ground arith
    ]
  ]

-- Where a non-zero digit is discarded, the tests on digits compare its worth with one half.
round_by_mode-rounds_up :
    (mode : FspiopRoundingMode) (sign : Sign) (kept : Text) (c : ℕ) (rest : Text)
    → Digits rest
    → has_non_zero (c ∷ rest) ≡ not (value (c ∷ rest) == 0)
    → has_non_zero (c ∷ rest) ≡ true
    → round_by_mode mode sign kept c rest
      ≡ rounds_up mode sign
          (not (last_digit kept % 2 == 0))
          (value (c ∷ rest))
          (10 ^ suc (length rest))
unfolding round_by_mode
round_by_mode-rounds_up unnecessary sign kept c rest h e nz = ground arith
round_by_mode-rounds_up up sign kept c rest h e nz = ground arith
round_by_mode-rounds_up down sign kept c rest h e nz = refl
round_by_mode-rounds_up ceiling sign kept c rest h e nz = ground arith
round_by_mode-rounds_up floor sign kept c rest h e nz = ground arith
round_by_mode-rounds_up half_up sign kept c rest h e nz =
    rw (value-cons c rest, pow-succ' 10 (length rest))
      (ap ok (half_up_digit (c - b'0') (10 ^ length rest) (value rest) (value_lt rest h)))
round_by_mode-rounds_up half_down sign kept c rest h e nz =
    rw (value-cons c rest, pow-succ' 10 (length rest), has_non_zero-value rest h)
      (ap ok (above_half_digit (c - b'0') (10 ^ length rest) (value rest) (value_lt rest h)))
round_by_mode-rounds_up half_even sign kept c rest h e nz =
    rw (value-cons c rest, pow-succ' 10 (length rest), has_non_zero-value rest h)
      (ground (
        arith,
        above_half_digit (c - b'0') (10 ^ length rest) (value rest) (value_lt rest h),
        at_half_digit (c - b'0') (10 ^ length rest) (value rest) (value_lt rest h),
      ))

rounds_up-nothing :
    (mode : FspiopRoundingMode) (sign : Sign) (odd : Bool) (unit : ℕ)
    → 0 < unit
    → rounds_up mode sign odd 0 unit ≡ ok false
rounds_up-nothing unnecessary sign odd unit h = refl
rounds_up-nothing up sign odd unit h = refl
rounds_up-nothing down sign odd unit h = refl
rounds_up-nothing ceiling sign odd unit h = refl
rounds_up-nothing floor sign odd unit h = refl
rounds_up-nothing half_up sign odd unit h = ground arith
rounds_up-nothing half_down sign odd unit h = ground arith
rounds_up-nothing half_even sign odd unit h = ground arith

-- The code's digit tests decide the rule of the mode: the discarded digits, read as a number, are
-- compared with one half of the unit that they are cut from. A tie is broken by the last kept digit.
pub should_round_up-rounds_up :
    (sign : Sign) (kept disc : Text) (mode : FspiopRoundingMode)
    → Digits disc
    → should_round_up sign kept disc mode
      ≡ rounds_up mode sign (not (last_digit kept % 2 == 0)) (value disc) (10 ^ length disc)
unfolding should_round_up value value_from
should_round_up-rounds_up sign kept [] mode h =
    sym (rounds_up-nothing mode sign (not (last_digit kept % 2 == 0)) 1 (omega arith))
should_round_up-rounds_up sign kept (c ∷ rest) mode h =
    elim (Bool-cases (has_non_zero (c ∷ rest))) [
      | inl nz ↦
          rw nz
            (round_by_mode-rounds_up mode sign kept c rest h.1 (has_non_zero-value (c ∷ rest) h) nz)
      | inr z ↦
          let nothing : value (c ∷ rest) ≡ 0 = ground (arith, has_non_zero-value (c ∷ rest) h) in
          rw (z, nothing)
            (sym (
              rounds_up-nothing mode sign (not (last_digit kept % 2 == 0)) (10 ^ suc (length rest))
                (pow_ten_pos (suc (length rest)))))
    ]
