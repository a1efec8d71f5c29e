-- ===== src/Money/Parsing.antt =====
-- How `match_decimal` and `normalize_amount` read a text that is put together from digits.
use pivotal.Base.{
  ℕ, ◌≡◌, refl, ap, ◌∙◌, true, false, some, [], ◌∷◌, ◌++◌, arith, All-append, ok, ◌==◌,
}
use pivotal.Text.{Text, is_digit, trim, strip_zeros}
use pivotal.Text.Digits.{Digits, strip_zeros-Digits}
use pivotal.Text.Trim.{Printable, Digits-Printable, trim_of_Printable}
use pivotal.Money.{
  Sign, unsigned, plus, minus, DecimalAmount, digit_prefix, after_digits, match_unsigned,
  match_decimal, number, render, normalize_amount, parse_decimal_amount,
}

number-Printable : (int frac : Text) → Digits int → Digits frac → Printable (number int frac)
number-Printable int [] hi hf = Digits-Printable int hi
number-Printable int (c ∷ frac) hi hf =
    All-append _ int _ (Digits-Printable int hi) (refl, Digits-Printable (c ∷ frac) hf)

render-Printable :
    (g : Sign) (int frac : Text) → Digits int → Digits frac → Printable (render g int frac)
render-Printable unsigned int frac hi hf = number-Printable int frac hi hf
render-Printable plus int frac hi hf = (refl, number-Printable int frac hi hf)
render-Printable minus int frac hi hf = (refl, number-Printable int frac hi hf)

digit_prefix_all : (s : Text) → Digits s → digit_prefix s ≡ s
unfolding digit_prefix
digit_prefix_all [] h = refl
digit_prefix_all (c ∷ s) (p, h) = rw (p, digit_prefix) (ap (◌∷◌ c) (digit_prefix_all s h))

after_digits_all : (s : Text) → Digits s → after_digits s ≡ []
unfolding after_digits
after_digits_all [] h = refl
after_digits_all (c ∷ s) (p, h) = rw (p, after_digits) (after_digits_all s h)

-- The digits in front of a unit that is no digit are taken, and reading goes on at that unit.
digit_prefix-append :
    (s : Text) (d : ℕ) (t : Text) → Digits s → is_digit d ≡ false → digit_prefix (s ++ d ∷ t) ≡ s
unfolding digit_prefix
digit_prefix-append [] d t h e = rw e
digit_prefix-append (c ∷ s) d t (p, h) e =
    rw (p, digit_prefix) (ap (◌∷◌ c) (digit_prefix-append s d t h e))

after_digits-append :
    (s : Text) (d : ℕ) (t : Text)
    → Digits s
    → is_digit d ≡ false
    → after_digits (s ++ d ∷ t) ≡ d ∷ t
unfolding after_digits
after_digits-append [] d t h e = rw e
after_digits-append (c ∷ s) d t (p, h) e = rw (p, after_digits) (after_digits-append s d t h e)

abbrev pub decimal : Sign → Text → Text → DecimalAmount
decimal g int frac = record { sign = g; integer_part = int; fraction_part = frac }

match_unsigned-number :
    (g : Sign) (c : ℕ) (int frac : Text)
    → Digits (c ∷ int)
    → Digits frac
    → match_unsigned g (number (c ∷ int) frac) ≡ some (decimal g (c ∷ int) frac)
unfolding match_unsigned
match_unsigned-number g c int [] hi hf =
    rw (digit_prefix_all (c ∷ int) hi, after_digits_all (c ∷ int) hi)
match_unsigned-number g c int (d ∷ frac) hi hf = rw (
  digit_prefix-append (c ∷ int) b'.' (d ∷ frac) hi refl,
  after_digits-append (c ∷ int) b'.' (d ∷ frac) hi refl,
  after_digits_all (d ∷ frac) hf,
)

-- A text that begins with a digit has no sign.
match_decimal_no_sign :
    (c : ℕ) (s : Text) → is_digit c ≡ true → match_decimal (c ∷ s) ≡ match_unsigned unsigned (c ∷ s)
unfolding match_decimal
match_decimal_no_sign c s h = let (p, m) = digit-not_sign c h in rw (p, match_decimal, m)
  where
    digit-not_sign : (c : ℕ) → is_digit c ≡ true → ((c == b'+') ≡ false) × ((c == b'-') ≡ false)
    digit-not_sign c h = ground arith

pub match_decimal-render :
    (g : Sign) (c : ℕ) (int frac : Text)
    → Digits (c ∷ int)
    → Digits frac
    → match_decimal (render g (c ∷ int) frac) ≡ some (decimal g (c ∷ int) frac)
unfolding match_decimal
match_decimal-render unsigned c int [] hi hf =
    match_decimal_no_sign c int hi.0 ∙ match_unsigned-number unsigned c int [] hi hf
match_decimal-render unsigned c int (d ∷ frac) hi hf =
    match_decimal_no_sign c (int ++ b'.' ∷ d ∷ frac) hi.0
    ∙ match_unsigned-number unsigned c int (d ∷ frac) hi hf
match_decimal-render plus c int frac hi hf = match_unsigned-number plus c int frac hi hf
match_decimal-render minus c int frac hi hf = match_unsigned-number minus c int frac hi hf

-- Normalizing a decimal text takes the zeros off the end of its fraction.
pub normalize_amount-render :
    (g : Sign) (c : ℕ) (int frac : Text)
    → Digits (c ∷ int)
    → Digits frac
    → normalize_amount (render g (c ∷ int) frac) ≡ render g (c ∷ int) (strip_zeros frac)
unfolding normalize_amount
normalize_amount-render g c int frac hi hf = rw (
  trim_of_Printable _ (render-Printable g (c ∷ int) frac hi hf),
  match_decimal-render g c int frac hi hf,
)

-- What `serialize` parses: the trimmed, normalized text.
pub parse-normalize-render :
    (g : Sign) (c : ℕ) (int frac : Text)
    → Digits (c ∷ int)
    → Digits frac
    → parse_decimal_amount (normalize_amount (trim (render g (c ∷ int) frac)))
      ≡ ok (decimal g (c ∷ int) (strip_zeros frac))
unfolding parse_decimal_amount
parse-normalize-render g c int frac hi hf = rw (
  trim_of_Printable _ (render-Printable g (c ∷ int) frac hi hf),
  normalize_amount-render g c int frac hi hf,
  match_decimal-render g c int (strip_zeros frac) hi (strip_zeros-Digits frac hf),
)
