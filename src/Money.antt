-- ===== src/Money.antt =====
-- packages/shared/fspiop/component/fspiop-money.ts: amounts as decimal texts and as bigints in the
-- minor unit of a currency.
pub mod Parsing
pub mod Rounding
pub mod Exact
pub mod Nearest
pub mod RoundTrip
mod Tests
use pivotal.Base.{
  ℕ, zero, suc, ◌+◌, ◌-◌, ◌*◌, ◌%◌, ◌^◌, Bool, true, false, not, ◌&&◌, ◌||◌, Option, none, some,
  List, [], ◌∷◌, ◌++◌, ltb, leb, ◌==◌, if◌then◌else◌, length, take, drop, all, Result, ok, err,
  ◌>>=◌, ◌>>◌, throw_if, or_throw, ℤ, pos, negsuc, neg_ℕ, String,
}
use pivotal.Text.{Text, codes, is_digit, trim, strip_zeros, value, to_string, pad_start, pad_end}
use pivotal.Currencies.{currency_scale}

pub data FspiopRoundingMode : Type 0 where
  up down ceiling floor half_up half_down half_even unnecessary : FspiopRoundingMode

abbrev pub uint64_max : ℕ
uint64_max = 18446744073709551615

pub data MoneyError : Type 0 where
  bad_scale amount_negative amount_not_decimal amount_above_uint64 rounding_necessary : MoneyError
  currency_not_found currency_scale_mismatch : MoneyError

-- A `number`: a non-negative integer, the negative integer -(n + 1), or no integer at all.
pub data JsNumber : Type 0 where
  whole : ℕ → JsNumber
  negative : ℕ → JsNumber
  not_integer : JsNumber

unfoldable pub validate_scale : JsNumber → Result MoneyError ℕ
validate_scale (whole n) = ok n
validate_scale (negative n) = err bad_scale
validate_scale not_integer = err bad_scale

-- The groups of `/^([+-])?(\d+)(?:\.(\d+))?$/`, with '' for a third group that is not there.
pub data Sign : Type 0 where
  unsigned plus minus : Sign

pub record DecimalAmount : Type 0 where
  pub sign : Sign
  pub integer_part : Text
  pub fraction_part : Text

unfoldable pub digit_prefix : Text → Text
digit_prefix [] = []
digit_prefix (c ∷ s) = let rest = digit_prefix s in if is_digit c then c ∷ rest else []

unfoldable pub after_digits : Text → Text
after_digits [] = []
after_digits (c ∷ s) = let rest = after_digits s in if is_digit c then rest else c ∷ s

abbrev pub is_empty : Text → Bool
is_empty [] = true
is_empty (c ∷ s) = false

-- `(?:\.(\d+))?$`
unfoldable pub match_fraction : Text → Option Text
unfolding digit_prefix after_digits
match_fraction [] = some []
match_fraction (c ∷ s) =
    if c == b'.' && not (is_empty s) && is_empty (after_digits s) then some s else none

abbrev with_fraction : Sign → Text → Option Text → Option DecimalAmount
with_fraction sign int none = none
with_fraction sign int (some frac) =
    some (record { sign = sign; integer_part = int; fraction_part = frac })

unfoldable pub match_unsigned : Sign → Text → Option DecimalAmount
unfolding match_fraction
match_unsigned sign s =
    if is_empty (digit_prefix s)
    then none
    else with_fraction sign (digit_prefix s) (match_fraction (after_digits s))

unfoldable pub match_decimal : Text → Option DecimalAmount
unfolding match_unsigned
match_decimal [] = none
match_decimal (c ∷ s) =
    if c == b'+'
    then match_unsigned plus s
    else if c == b'-'
    then match_unsigned minus s
    else match_unsigned unsigned (c ∷ s)

abbrev pub sign_text : Sign → Text
sign_text unsigned = []
sign_text plus = b'+' ∷ []
sign_text minus = b'-' ∷ []

-- `${sign}${integerPart}.${fraction}`, without the point where the fraction is empty.
abbrev pub number : Text → Text → Text
number int [] = int
number int (c ∷ frac) = int ++ b'.' ∷ c ∷ frac

abbrev pub render : Sign → Text → Text → Text
render sign int frac = sign_text sign ++ number int frac

abbrev pub normalize_match : Text → Option DecimalAmount → Text
normalize_match trimmed none = trimmed
normalize_match trimmed (some m) = render m.sign m.integer_part (strip_zeros m.fraction_part)

unfoldable pub normalize_amount : Text → Text
normalize_amount amount = normalize_match (trim amount) (match_decimal (trim amount))

unfoldable pub parse_decimal_amount : Text → Result MoneyError DecimalAmount
parse_decimal_amount amount = or_throw (match_decimal amount) amount_not_decimal

-- `/[1-9]/.test(text)`
unfoldable pub has_non_zero : Text → Bool
has_non_zero [] = false
has_non_zero (c ∷ s) = (leb b'1' c && leb c b'9') || has_non_zero s

abbrev pub is_minus : Sign → Bool
is_minus minus = true
is_minus _ = false

-- `lastKeptDigit`: the last digit kept, 0 where none is kept.
unfoldable pub last_digit : Text → ℕ
last_digit [] = 0
last_digit (c ∷ []) = c - b'0'
last_digit (c ∷ d ∷ s) = last_digit (d ∷ s)

-- The tests from `roundingMode === Unnecessary` on; `c ∷ rest` are the discarded digits.
unfoldable pub round_by_mode : FspiopRoundingMode → Sign → Text → ℕ → Text → Result MoneyError Bool
unfolding has_non_zero last_digit
round_by_mode unnecessary sign kept c rest = err rounding_necessary
round_by_mode up sign kept c rest = ok true
round_by_mode down sign kept c rest = ok false
round_by_mode ceiling sign kept c rest = ok (not (is_minus sign))
round_by_mode floor sign kept c rest = ok (is_minus sign)
round_by_mode half_up sign kept c rest = ok (leb 5 (c - b'0'))
round_by_mode half_down sign kept c rest =
    ok (ltb 5 (c - b'0') || (c - b'0' == 5 && has_non_zero rest))
round_by_mode half_even sign kept c rest =
    ok
      (ltb 5 (c - b'0') || (c - b'0' == 5 && (has_non_zero rest || not (last_digit kept % 2 == 0))))

unfoldable pub should_round_up : Sign → Text → Text → FspiopRoundingMode → Result MoneyError Bool
unfolding round_by_mode
should_round_up sign kept [] mode = ok false
should_round_up sign kept (c ∷ rest) mode =
    if has_non_zero (c ∷ rest) then round_by_mode mode sign kept c rest else ok false

abbrev pub bump : Bool → ℕ → ℕ
bump true n = n + 1
bump false n = n

-- `scaled * amount.sign`
abbrev pub signed : Sign → ℕ → ℤ
signed minus n = neg_ℕ n
signed unsigned n = pos n
signed plus n = pos n

-- Before rounding: the integer part and the digits kept, in the minor unit.
unfoldable pub scaled_down : DecimalAmount → ℕ → ℕ
scaled_down m scale =
    value m.integer_part * 10 ^ scale + value (take scale (pad_end m.fraction_part scale))

unfoldable pub scale_amount : DecimalAmount → ℕ → FspiopRoundingMode → Result MoneyError ℤ
unfolding scaled_down
scale_amount m scale mode = do
  round_up ←
      should_round_up m.sign (take scale (pad_end m.fraction_part scale))
        (drop scale m.fraction_part) mode
  ok (signed m.sign (bump round_up (scaled_down m scale)))

unfoldable pub check_range : ℤ → Result MoneyError ℕ
check_range (negsuc n) = err amount_negative
check_range (pos n) = if ltb uint64_max n then err amount_above_uint64 else ok n

unfoldable pub serialize : Text → JsNumber → FspiopRoundingMode → Result MoneyError ℕ
unfolding validate_scale parse_decimal_amount check_range
serialize amount scale mode = do
  places ← validate_scale scale
  parsed ← parse_decimal_amount (normalize_amount (trim amount))
  scaled ← scale_amount parsed places mode
  check_range scaled

unfoldable pub place_point : Text → ℕ → Text
place_point text scale =
    if leb (length text) scale
    then normalize_amount (codes "0." ++ pad_start text scale)
    else normalize_amount
        (take (length text - scale) text ++ b'.' ∷ drop (length text - scale) text)

unfoldable pub deserialize : ℤ → JsNumber → Result MoneyError Text
unfolding validate_scale place_point
deserialize amount scale = do
  places ← validate_scale scale
  elim amount [
    | negsuc n ↦ err amount_negative
    | pos n ↦ ok (if places == 0 then to_string n else place_point (to_string n) places)
  ]

-- `scaleOf`: the number of characters behind the first point.
unfoldable pub scale_of : Text → ℕ
scale_of [] = 0
scale_of (c ∷ s) = let rest = scale_of s in if c == b'.' then length s else rest

pub record Money : Type 0 where
  pub amount : Text
  pub currency : String

abbrev pub check_scale : Text → Option ℕ → Result MoneyError (Unit {0})
check_scale amount none = err currency_not_found
check_scale amount (some scale) = throw_if (ltb scale (scale_of amount)) currency_scale_mismatch

-- `validate` writes the normalized amount into its argument, also where it throws afterwards.
unfoldable pub validate : Option Money → Option Money × Result MoneyError (Unit {0})
validate none = (none, ok tt)
validate (some money) =
    let amount = normalize_amount money.amount in
    (some (record money { amount = amount }), check_scale amount (currency_scale money.currency))
