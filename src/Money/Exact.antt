-- ===== src/Money/Exact.antt =====
-- `serialize` against exact decimal arithmetic: the text is worth `v` units of which `u` make one
-- minor unit, and the result is `v / u`, rounded by the rule of the mode on the remainder `v % u`.
use pivotal.Base.{
  ℕ, suc, ◌+◌, ◌-◌, ◌*◌, ◌/◌, ◌%◌, ◌^◌, ◌≤◌, ◌<◌, ◌≡◌, refl, sym, ap, ◌∙◌, Bool, false, not, ◌&&◌,
  inl, inr, [], ◌∷◌, ◌++◌, arith, All-drop, Bool-cases, length, take, drop, replicate,
  length-append, length-take_le, length-drop, take-append-drop, drop_all, ◌==◌, leb, leb→le, Result,
  ◌>>=◌, suc==zero, >>=_assoc, ◌>>=◌,
}
use mathlib.Core.List.{append-nil, append_assoc}
use native.Mathlib.Nat.{pow-suc, pow-zero}
use pivotal.Text.{Text, strip_zeros, value, pad_end}
use pivotal.Text.Digits.{
  Digits, value-append, value-nil, value-cons, value_lt, strip_zeros-Digits, length-zeros,
}
use pivotal.Money.Parsing.{decimal, parse-normalize-render}
use pivotal.Money.Rounding.{rounds_up, should_round_up-rounds_up}
use pivotal.Money.{
  FspiopRoundingMode, up, down, ceiling, floor, half_up, half_down, half_even, unnecessary,
  MoneyError, whole, Sign, render, last_digit, should_round_up, scale_amount, signed, bump,
  check_range, serialize,
}

-- The quotient and the remainder of a number that is given with them.
div_of : (q u d : ℕ) → d < u → (q * u + d) / u ≡ q
div_of q u d h = grind arith

mod_of : (q u d : ℕ) → d < u → (q * u + d) % u ≡ d
mod_of q u d h = grind arith

module _ (frac : Text) (scale : ℕ) where
  zeros : Text
  zeros = replicate (scale - length frac) b'0'

  length-pad_end : length (pad_end frac scale) ≡ length frac + (scale - length frac)
  length-pad_end = omega (
    arith,
    length-append frac (replicate (scale - length frac) b'0'),
    length-zeros (scale - length frac),
  )

  drop-pad_end : drop scale (pad_end frac scale) ≡ drop scale frac
  drop-pad_end = elim (Bool-cases (leb (length frac) scale)) [
    | inl h ↦
        let short : length frac ≤ scale = leb→le _ _ h in
        drop_all scale (pad_end frac scale) (omega (arith, length-pad_end))
        ∙ sym (drop_all scale frac short)
    | inr h ↦
        let none_missing : scale - length frac ≡ 0 = ground arith in
        rw none_missing (ap (drop scale) (append-nil frac))
  ]

  -- The digits that are kept and those that are cut off are all the digits.
  kept-append-discarded : take scale (pad_end frac scale) ++ drop scale frac ≡ pad_end frac scale
  kept-append-discarded = rw (← drop-pad_end) (take-append-drop scale (pad_end frac scale))

  length-kept : length (take scale (pad_end frac scale)) ≡ scale
  length-kept = length-take_le scale (pad_end frac scale) (omega (arith, length-pad_end))

even_tail : (a n b : ℕ) → (a * 10 ^ suc n + b) % 2 ≡ b % 2
even_tail a n b = omega (arith, ap (λ (t : ℕ). a * t) (pow-suc 10 n))

last_digit-value : (c : ℕ) (s : Text) → value (c ∷ s) % 2 ≡ last_digit (c ∷ s) % 2
unfolding last_digit
last_digit-value c [] = omega (arith, value-cons c [], value-nil, pow-zero 10)
last_digit-value c (d ∷ s) =
    ap (λ (v : ℕ). v % 2) (value-cons c (d ∷ s))
    ∙ even_tail (c - b'0') (length s) (value (d ∷ s))
    ∙ last_digit-value d s

-- Whether the code takes the kept digits for odd: with no decimal places it takes them for even.
abbrev pub counts_as_odd : ℕ → ℕ → Bool
counts_as_odd scale q = not (scale == 0) && not (q % 2 == 0)

counts_as_odd-last_digit :
    (whole_part : ℕ) (scale : ℕ) (kept : Text)
    → length kept ≡ scale
    → not (last_digit kept % 2 == 0) ≡ counts_as_odd scale (whole_part * 10 ^ scale + value kept)
unfolding last_digit
counts_as_odd-last_digit w scale [] e = rw (← e)
counts_as_odd-last_digit w scale (c ∷ s) e =
    rw (← e, suc==zero (length s), even_tail w (length s) (value (c ∷ s)), last_digit-value c s)

-- The exact worth of a number with the digits of `frac` behind the point, and the units that make
-- one minor unit.
abbrev pub exact : Text → Text → ℕ → ℕ
exact int frac scale = value (int ++ pad_end frac scale)

abbrev pub unit : Text → ℕ → ℕ
unit frac scale = 10 ^ (length frac - scale)

-- The amount `v / u`, rounded by the rule of the mode, in the range of a uint64; `odd` decides a tie
-- of half-even rounding.
abbrev pub rounded_by : Bool → FspiopRoundingMode → Sign → ℕ → ℕ → Result MoneyError ℕ
rounded_by odd mode sign v u = do
  round_up ← rounds_up mode sign odd (v % u) u
  check_range (signed sign (bump round_up (v / u)))

-- A tie goes to the even neighbour of the quotient.
abbrev pub rounded : FspiopRoundingMode → Sign → ℕ → ℕ → Result MoneyError ℕ
rounded mode sign v u = rounded_by (not (v / u % 2 == 0)) mode sign v u

-- With decimal places, or in a mode other than half-even, the code decides ties like this.
rounded_by-rounded :
    (mode : FspiopRoundingMode) (sign : Sign) (scale v u : ℕ)
    → (mode ≡ half_even → 0 < scale)
    → rounded_by (counts_as_odd scale (v / u)) mode sign v u ≡ rounded mode sign v u
rounded_by-rounded up sign scale v u h = refl
rounded_by-rounded down sign scale v u h = refl
rounded_by-rounded ceiling sign scale v u h = refl
rounded_by-rounded floor sign scale v u h = refl
rounded_by-rounded half_up sign scale v u h = refl
rounded_by-rounded half_down sign scale v u h = refl
rounded_by-rounded half_even sign scale v u h =
    let places : 0 < scale = h refl in
    let not_zero : (scale == 0) ≡ false = ground arith in rw not_zero refl
rounded_by-rounded unnecessary sign scale v u h = refl

module _ (int frac : Text) (scale : ℕ) (hf : Digits frac) where
  kept : Text
  kept = take scale (pad_end frac scale)

  quotient : ℕ
  quotient = value int * 10 ^ scale + value kept

  remainder_lt : value (drop scale frac) < unit frac scale
  remainder_lt =
      rw (← length-drop scale frac) (value_lt (drop scale frac) (All-drop _ scale frac hf))

  exact-split : exact int frac scale ≡ quotient * unit frac scale + value (drop scale frac)
  unfolding quotient kept
  exact-split =
      ap (λ s. value (int ++ s)) (sym (kept-append-discarded frac scale))
      ∙ ap value (sym (append_assoc int kept (drop scale frac)))
      ∙ value-append (int ++ kept) (drop scale frac)
      ∙ rw (value-append int kept, length-kept frac scale, length-drop scale frac)

  exact-div : exact int frac scale / unit frac scale ≡ quotient
  exact-div = rw exact-split (div_of quotient (unit frac scale) _ remainder_lt)

  exact-mod : exact int frac scale % unit frac scale ≡ value (drop scale frac)
  exact-mod = rw exact-split (mod_of quotient (unit frac scale) _ remainder_lt)

  scale_amount-rounded_by :
      (sign : Sign) (mode : FspiopRoundingMode)
      → (scale_amount (decimal sign int frac) scale mode >>= check_range)
        ≡ rounded_by
            (counts_as_odd scale (exact int frac scale / unit frac scale))
            mode
            sign
            (exact int frac scale)
            (unit frac scale)
  unfolding scale_amount quotient kept
  scale_amount-rounded_by sign mode =
      rw (exact-div, exact-mod)
        (>>=_assoc (should_round_up sign kept (drop scale frac) mode) _ check_range
          ∙ rw (
            should_round_up-rounds_up sign kept (drop scale frac) mode (All-drop _ scale frac hf),
            length-drop scale frac,
            counts_as_odd-last_digit (value int) scale kept (length-kept frac scale),
          ))

pub serialize-rounded_by :
    (sign : Sign) (c : ℕ) (int frac : Text) (scale : ℕ) (mode : FspiopRoundingMode)
    → Digits (c ∷ int)
    → Digits frac
    → let v = exact (c ∷ int) (strip_zeros frac) scale in
      let u = unit (strip_zeros frac) scale in
      serialize (render sign (c ∷ int) frac) (whole scale) mode
      ≡ rounded_by (counts_as_odd scale (v / u)) mode sign v u
unfolding serialize
serialize-rounded_by sign c int frac scale mode hi hf =
    rw (parse-normalize-render sign c int frac hi hf) (
      scale_amount-rounded_by (c ∷ int) (strip_zeros frac) scale (strip_zeros-Digits frac hf) sign
        mode)

-- `serialize` computes exact decimal arithmetic: for a text with an optional sign, an integer part
-- and a fraction part, at every scale and in every mode, half-even at scale 0 apart, it is
-- `rounded` at the exact worth of the text, where zeros at the end of the fraction do not count.
pub serialize-rounded :
    (sign : Sign) (c : ℕ) (int frac : Text) (scale : ℕ) (mode : FspiopRoundingMode)
    → Digits (c ∷ int)
    → Digits frac
    → (mode ≡ half_even → 0 < scale)
    → serialize (render sign (c ∷ int) frac) (whole scale) mode
      ≡ rounded mode sign (exact (c ∷ int) (strip_zeros frac) scale) (unit (strip_zeros frac) scale)
serialize-rounded sign c int frac scale mode hi hf places =
    serialize-rounded_by sign c int frac scale mode hi hf
    ∙ rounded_by-rounded mode sign scale _ _ places
