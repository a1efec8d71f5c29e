-- ===== src/Money/RoundTrip.antt =====
-- `serialize` and `deserialize` one after the other, on the amounts that a uint64 holds.
use pivotal.Base.{
  ℕ, zero, suc, ◌+◌, ◌-◌, ◌*◌, ◌^◌, ◌≤◌, ◌<◌, ◌≡◌, refl, sym, ap, ◌∙◌, inl, inr, [], ◌∷◌, ◌++◌,
  arith, All-append, All-replicate, All-take, All-drop, Bool-cases, length, take, drop, replicate,
  length-append, length-take_le, length-drop, take-append-drop, take_all, drop_all, ok, leb,
  suc==zero, leb→le, ge→ltb, pos,
}
use mathlib.Core.List.{append-nil}
use pivotal.Text.{Text, codes, strip_zeros, value, to_string, pad_start, pad_end}
use pivotal.Text.Digits.{
  Digits, strip_zeros-Digits, strip_zeros_idem, value-to_string, to_string-Digits, value-append,
  length-to_string_pos, value-zeros-append, length-zeros, pad_end-strip_zeros,
  length-strip_zeros_le,
}
use pivotal.Money.Parsing.{decimal, parse-normalize-render, normalize_amount-render}
use pivotal.Money.{
  FspiopRoundingMode, whole, unsigned, render, normalize_amount, uint64_max, should_round_up,
  scale_amount, check_range, serialize, deserialize, place_point,
}

-- Where no digit is beyond the scale nothing is rounded, in any mode.
scale_amount_exact :
    (int frac : Text) (scale : ℕ) (mode : FspiopRoundingMode)
    → length frac ≤ scale
    → scale_amount (decimal unsigned int frac) scale mode
      ≡ ok (pos (value int * 10 ^ scale + value (pad_end frac scale)))
unfolding scale_amount should_round_up
scale_amount_exact int frac scale mode h = rw (
  drop_all scale frac h,
  scale_amount,
  should_round_up,
  take_all scale (pad_end frac scale) (
      omega (
        arith,
        length-append frac (replicate (scale - length frac) b'0'),
        length-zeros (scale - length frac),
      )),
)

-- A rendered amount with `scale` fraction digits is read as the number that its digits spell.
serialize-render :
    (c : ℕ) (int frac : Text) (n scale : ℕ) (mode : FspiopRoundingMode)
    → Digits (c ∷ int)
    → Digits frac
    → length frac ≡ scale
    → value ((c ∷ int) ++ frac) ≡ n
    → n ≤ uint64_max
    → serialize (render unsigned (c ∷ int) (strip_zeros frac)) (whole scale) mode ≡ ok n
unfolding serialize check_range
serialize-render c int frac n scale mode hi hf e v small =
    rw (parse-normalize-render unsigned c int (strip_zeros frac) hi (strip_zeros-Digits frac hf)) (
      rw (strip_zeros_idem frac, scale_amount_exact (c ∷ int) (strip_zeros frac) scale mode short)
        (rw (worth, ge→ltb uint64_max n small)))
  where
    short : length (strip_zeros frac) ≤ scale
    short = omega (arith, length-strip_zeros_le frac)

    worth : value (c ∷ int) * 10 ^ scale + value (pad_end (strip_zeros frac) scale) ≡ n
    worth = rw (← e, pad_end-strip_zeros frac) (sym (value-append (c ∷ int) frac) ∙ v)

-- A text with its point placed: an integer part and as many fraction digits as the scale has.
record Placed (text : Text) (scale : ℕ) (placed : Text) : Type 0 where
  first : ℕ
  int : Text
  frac : Text
  int_digits : Digits (first ∷ int)
  frac_digits : Digits frac
  fits : length frac ≡ scale
  worth : value ((first ∷ int) ++ frac) ≡ value text
  eq : placed ≡ render unsigned (first ∷ int) (strip_zeros frac)

normalize_pointed :
    (c : ℕ) (int frac : Text)
    → 0 < length frac
    → Digits (c ∷ int)
    → Digits frac
    → normalize_amount ((c ∷ int) ++ b'.' ∷ frac) ≡ render unsigned (c ∷ int) (strip_zeros frac)
normalize_pointed c int [] h hi hf = absurd (omega arith)
normalize_pointed c int (d ∷ frac) h hi hf = normalize_amount-render unsigned c int (d ∷ frac) hi hf

place_below_one :
    (text : Text) (scale : ℕ)
    → 0 < scale
    → Digits text
    → length text ≤ scale
    → Placed text scale (normalize_amount (codes "0." ++ pad_start text scale))
place_below_one text scale pos_scale h short = record {
  first = b'0';
  int = [];
  frac = pad_start text scale;
  int_digits = (refl, tt);
  frac_digits = padded;
  fits = fits;
  worth = value-zeros-append (suc (scale - length text)) text;
  eq = normalize_pointed b'0' [] (pad_start text scale) (omega (arith, fits)) (refl, tt) padded;
}
  where
    zeros : Text
    zeros = replicate (scale - length text) b'0'

    padded : Digits (pad_start text scale)
    padded = All-append _ zeros text (All-replicate _ (scale - length text) b'0' refl) h

    fits : length (pad_start text scale) ≡ scale
    fits = omega (arith, length-append zeros text, length-zeros (scale - length text))

place_within :
    (text int frac : Text) (scale : ℕ)
    → int ++ frac ≡ text
    → 0 < length int
    → 0 < scale
    → length frac ≡ scale
    → Digits int
    → Digits frac
    → Placed text scale (normalize_amount (int ++ b'.' ∷ frac))
place_within text [] frac scale e hi s f di df = absurd (omega arith)
place_within text (c ∷ int) frac scale e hi s f di df = record {
  first = c;
  int = int;
  frac = frac;
  int_digits = di;
  frac_digits = df;
  fits = f;
  worth = ap value e;
  eq = normalize_pointed c int frac (omega arith) di df;
}

place_point-Placed :
    (text : Text) (scale : ℕ)
    → 0 < scale
    → Digits text
    → 0 < length text
    → Placed text scale (place_point text scale)
unfolding place_point
place_point-Placed text scale s h l = elim (Bool-cases (leb (length text) scale)) [
  | inl short ↦ rw short (place_below_one text scale s h (leb→le _ _ short))
  | inr long ↦
      let cut : ℕ = length text - scale in
      let more : scale < length text = ground arith in
      rw long (
        place_within text (take cut text) (drop cut text) scale (take-append-drop cut text)
          (omega (arith, length-take_le cut text (omega arith))) s
          (omega (arith, length-drop cut text)) (All-take _ cut text h) (All-drop _ cut text h))
]

serialize_whole :
    (text : Text) (n : ℕ) (mode : FspiopRoundingMode)
    → Digits text
    → 0 < length text
    → value text ≡ n
    → n ≤ uint64_max
    → serialize text (whole 0) mode ≡ ok n
unfolding strip_zeros
serialize_whole [] n mode h l v small = absurd (omega arith)
serialize_whole (c ∷ int) n mode h l v small =
    serialize-render c int [] n 0 mode h tt refl (ap value (append-nil (c ∷ int)) ∙ v) small

-- Printing an amount in minor units and reading it back gives the amount, at every scale and in
-- every rounding mode: for every `n` up to the maximum of a uint64, `deserialize` succeeds and
-- `serialize` of its text is `n`.
pub serialize-deserialize :
    (n scale : ℕ) (mode : FspiopRoundingMode)
    → n ≤ uint64_max
    → (text : Text) × (deserialize (pos n) (whole scale) ≡ ok text)
      × (serialize text (whole scale) mode ≡ ok n)
unfolding deserialize
serialize-deserialize n zero mode small = (
  to_string n,
  refl,
  serialize_whole (to_string n) n mode (to_string-Digits n) (length-to_string_pos n)
      (value-to_string n) small,
)
serialize-deserialize n (suc k) mode small =
    let text : Text = to_string n in
    let placed =
      place_point-Placed text (suc k) (omega arith) (to_string-Digits n) (length-to_string_pos n) in
    (
      place_point text (suc k),
      rw (suc==zero k),
      rw placed.eq (
          serialize-render placed.first placed.int placed.frac n (suc k) mode placed.int_digits
            placed.frac_digits placed.fits (placed.worth ∙ value-to_string n) small),
    )
