-- ===== src/Outbound/Checks.antt =====
-- packages/core/outbound/domain: the validators of component/amount-decimal-validator.ts and
-- component/payer-provided-fees-validator.ts, and the checks that two handlers share.
use pivotal.Base.{
  ℕ, Bool, true, false, not, ◌&&◌, ◌||◌, Option, none, some, List, [], ◌∷◌, ◌++◌, ltb, leb, ◌==◌,
  if◌then◌else◌, length, find, all, Result, ok, ◌>>=◌, ◌>>◌, throw_if, or_throw,
}
use pivotal.Text.{Text, codes, trim, is_digit}
use pivotal.Money.{is_empty, normalize_amount, digit_prefix, after_digits, scale_of, last_digit}
use pivotal.Responses.Subjects.{text_eq}
use pivotal.Outbound.Codes.{
  rounding_value_error, missing_extension_parameter, malformed_syntax, missing_mandatory_element,
  payer_permission_error,
}
use pivotal.Outbound.Errors.{
  Extension, Thrown, fspiop_exception, fspiop_error, exception_with_extensions, definition,
}
use pivotal.Outbound.Parties.{Party, to_optional_value}

-- The number of characters behind the point.
unfoldable pub decimal_places : Text → ℕ
decimal_places amount = scale_of amount

unfoldable pub validate_decimals : ℕ → Text → Result Thrown (Unit {0})
unfolding decimal_places
validate_decimals allowed amount =
    throw_if
      (not (is_empty (trim amount)) && ltb allowed (decimal_places (normalize_amount amount)))
      (fspiop_exception (exception_with_extensions (definition rounding_value_error) none))

-- `/^([0]|([1-9][0-9]{0,17}))([.][0-9]{0,3}[1-9])?$/`
abbrev pub is_integer_part : Text → Bool
is_integer_part [] = false
is_integer_part (c ∷ s) = if c == b'0' then is_empty s else leb (length s) 17

abbrev pub is_fraction_part : Text → Bool
is_fraction_part [] = true
is_fraction_part (c ∷ s) =
    c == b'.' && all is_digit s && not (is_empty s) && leb (length s) 4 && not (last_digit s == 0)

unfoldable pub matches_amount_pattern : Text → Bool
matches_amount_pattern s = is_integer_part (digit_prefix s) && is_fraction_part (after_digits s)

abbrev pub required_extension_keys : List Text
required_extension_keys = codes "payerProvidedSchemeFee" ∷ codes "payerProvidedPayerFee" ∷ []

abbrev pub fees_error : Thrown
fees_error =
    fspiop_error missing_extension_parameter
      (codes "Fee validation failed. Required fee information was not provided by the Payer DFSP.")

abbrev pub find_extension : Text → List Extension → Option Extension
find_extension key = find (λ item. text_eq item.key key)

unfoldable pub normalize_and_validate_fee : ℕ → Text → Text → Result Thrown Text
unfolding matches_amount_pattern validate_decimals
normalize_and_validate_fee allowed field value = do
  throw_if (not (matches_amount_pattern (normalize_amount value)))
      (fspiop_error malformed_syntax (field ++ codes " must be a valid FSPIOP amount."))
  validate_decimals allowed (normalize_amount value)
  ok (normalize_amount value)

-- `extension.value = …`, on the extension that `find` gave.
abbrev pub set_value : Text → Text → List Extension → List Extension
set_value key value [] = []
set_value key value (e ∷ es) =
    let rest = set_value key value es in
    if text_eq e.key key then record e { value = value } ∷ es else e ∷ rest

-- The extensions that are required are all found before the first is checked.
unfoldable pub check_present : List Text → List Extension → Result Thrown (Unit {0})
check_present [] extensions = ok tt
check_present (key ∷ keys) extensions = do
  found ← or_throw (find_extension key extensions) fees_error
  check_present keys extensions

unfoldable pub normalize_fees : ℕ → List Text → List Extension → Result Thrown (List Extension)
unfolding normalize_and_validate_fee
normalize_fees allowed [] extensions = ok extensions
normalize_fees allowed (key ∷ keys) extensions = do
  extension ← or_throw (find_extension key extensions) fees_error
  value ← normalize_and_validate_fee allowed key extension.value
  normalize_fees allowed keys (set_value key value extensions)

abbrev pub extensions_of : Option (List Extension) → List Extension
extensions_of none = []
extensions_of (some es) = es

-- The values of extensions are texts here. The list is the argument's, which is written to.
unfoldable pub validate_fees :
    Bool → ℕ → Bool → Option (List Extension) → Result Thrown (Option (List Extension))
unfolding check_present normalize_fees
validate_fees mandatory allowed accept extensions =
    if not accept || not mandatory then ok extensions else do
      check_present required_extension_keys (extensions_of extensions)
      normalized ← normalize_fees allowed required_extension_keys (extensions_of extensions)
      ok (some normalized)

unfoldable pub get_fsp_id : Party → Text → Text → Result Thrown Text
get_fsp_id party label purpose = or_throw (to_optional_value party.party_id_info.fsp_id) (
    fspiop_error missing_mandatory_element
      (label ++ codes ".partyIdInfo.fspId is required to resolve " ++ purpose ++ codes " routing."))

abbrev pub may_act : Option Text → Text → Bool
may_act none payer_fsp = true
may_act (some source) payer_fsp = text_eq source payer_fsp

abbrev pub or_nothing : Option Text → Text
or_nothing none = []
or_nothing (some s) = s

unfoldable pub assert_source_can_act_for_payer : Option Text → Text → Result Thrown (Unit {0})
assert_source_can_act_for_payer request_source payer_fsp =
    throw_if (not (may_act (to_optional_value request_source) payer_fsp)) (
      fspiop_error payer_permission_error (
        codes "fspiop-source '"
        ++ or_nothing (to_optional_value request_source)
        ++ codes "' is not authorized to act for payer FSP '"
        ++ payer_fsp
        ++ codes "'."))
