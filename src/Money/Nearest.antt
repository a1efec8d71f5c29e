-- ===== src/Money/Nearest.antt =====
-- The rounding error of `serialize` in the modes that round to the nearest, and the one input class
-- on which half-even rounding does not give the even neighbour.
use pivotal.Base.{
  ℕ, ◌+◌, ◌*◌, ◌/◌, ◌%◌, ◌≤◌, ◌<◌, ◌≡◌, refl, sym, ◌∙◌, Bool, true, false, ◌&&◌, ◌||◌, [], ◌∷◌,
  arith, ok, ◌==◌, leb, ltb, ge→ltb, pos,
}
use native.Mathlib.Nat.{div-add-mod, mod-lt}
use pivotal.Money.Exact.{exact, unit, rounded_by, serialize-rounded_by}
use pivotal.Text.{value_from, Text, strip_zeros, value}
use pivotal.Text.Digits.{Digits, value-append}
use pivotal.Money.Rounding.{rounds_up, pow_ten_pos}
use pivotal.Money.{
  FspiopRoundingMode, half_up, half_down, half_even, whole, Sign, unsigned, plus, minus, is_minus,
  uint64_max, render, signed, bump, check_range, serialize,
}

-- The three modes that round to the nearest.
pub data Half : FspiopRoundingMode → Type 0 where
  to_up : Half half_up
  to_down : Half half_down
  to_even : Half half_even

choice_of_Half :
    {mode : FspiopRoundingMode} (sign : Sign) (odd : Bool) (d u : ℕ)
    → Half mode
    → (b : Bool) × (rounds_up mode sign odd d u ≡ ok b)
      × (b ≡ true → u ≤ 2 * d)
      × (b ≡ false → 2 * d ≤ u)
choice_of_Half sign odd d u to_up = (leb u (2 * d), refl, λ h. ground arith, λ h. ground arith)
choice_of_Half sign odd d u to_down = (ltb u (2 * d), refl, λ h. ground arith, λ h. ground arith)
choice_of_Half sign odd d u to_even =
    (ltb u (2 * d) || (2 * d == u && odd), refl, λ h. ground arith, λ h. ground arith)

nearest_bump :
    (b : Bool) (q u d : ℕ)
    → (b ≡ true → u ≤ 2 * d)
    → (b ≡ false → 2 * d ≤ u)
    → d < u
    → (2 * (bump b q * u) ≤ 2 * (q * u + d) + u) × (2 * (q * u + d) ≤ 2 * (bump b q * u) + u)
nearest_bump true q u d above below lt =
    let h : u ≤ 2 * d = above refl in (omega arith, omega arith)
nearest_bump false q u d above below lt =
    let h : 2 * d ≤ u = below refl in (omega arith, omega arith)

check_range-bump : (n r : ℕ) → check_range (pos n) ≡ ok r → n ≡ r
unfolding check_range
check_range-bump n r e = ground arith

rounded_by-nearest :
    {mode : FspiopRoundingMode} (sign : Sign) (odd : Bool) (v u r : ℕ)
    → Half mode
    → is_minus sign ≡ false
    → 0 < u
    → rounded_by odd mode sign v u ≡ ok r
    → (2 * (r * u) ≤ 2 * v + u) × (2 * v ≤ 2 * (r * u) + u)
rounded_by-nearest sign odd v u r half nonneg h e =
    let (b, chosen, above, below) = choice_of_Half sign odd (v % u) u half in
    let done : check_range (signed sign (bump b (v / u))) ≡ ok r = rw chosen at e in
    let split : v / u * u + v % u ≡ v = omega (arith, div-add-mod v u) in
    let value_of : bump b (v / u) ≡ r = positive sign nonneg b done in
    rw (← value_of) (rw split at (nearest_bump b (v / u) u (v % u) above below (mod-lt v h)))
  where
    positive :
        (sign : Sign)
        → is_minus sign ≡ false
        → (b : Bool) → check_range (signed sign (bump b (v / u))) ≡ ok r
        → bump b (v / u) ≡ r
    positive unsigned n b e = check_range-bump _ r e
    positive plus n b e = check_range-bump _ r e
    positive minus n b e = cc

-- In the half modes a result of `serialize` is nearest to the exact worth of the text: it is off by
-- half a minor unit at most, for every text without a minus sign and every scale.
pub serialize-nearest :
    {mode : FspiopRoundingMode} (sign : Sign) (c : ℕ) (int frac : Text) (scale r : ℕ)
    → Half mode
    → is_minus sign ≡ false
    → Digits (c ∷ int)
    → Digits frac
    → serialize (render sign (c ∷ int) frac) (whole scale) mode ≡ ok r
    → let u = unit (strip_zeros frac) scale in
      let v = exact (c ∷ int) (strip_zeros frac) scale in
      (2 * (r * u) ≤ 2 * v + u) × (2 * v ≤ 2 * (r * u) + u)
serialize-nearest {mode} sign c int frac scale r half nonneg hi hf e =
    rounded_by-nearest sign _ _ _ r half nonneg (pow_ten_pos _)
      (sym (serialize-rounded_by sign c int frac scale mode hi hf) ∙ e)

-- The code breaks a tie of half-even rounding by the last digit that it keeps, and with no decimal
-- places it keeps none: an odd integer part and one half are then rounded down to the odd number.
-- For every text `int.5` with an odd integer part, at scale 0, the result of half-even rounding is
-- the integer part itself, which is odd.
pub serialize-half_even_odd :
    (c : ℕ) (int : Text)
    → Digits (c ∷ int)
    → value (c ∷ int) % 2 ≡ 1
    → value (c ∷ int) ≤ uint64_max
    → serialize (render unsigned (c ∷ int) (b'5' ∷ [])) (whole 0) half_even ≡ ok (value (c ∷ int))
unfolding check_range strip_zeros value value_from
serialize-half_even_odd c int hi odd small =
    serialize-rounded_by unsigned c int (b'5' ∷ []) 0 half_even hi (refl, tt)
    ∙ rw (worth, tenth) (ground (arith, ge→ltb uint64_max (value (c ∷ int)) small))
  where
    worth : exact (c ∷ int) (strip_zeros (b'5' ∷ [])) 0 ≡ value (c ∷ int) * 10 + 5
    worth = value-append (c ∷ int) (b'5' ∷ [])

    tenth : unit (strip_zeros (b'5' ∷ [])) 0 ≡ 10
    tenth = refl
