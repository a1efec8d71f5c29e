-- ===== src/Fees.antt =====
-- packages/shared/catalyst/dto and component: the fees of a quote. The roles, the splits and the
-- result of a calculation. Texts of roles are ASCII here, as the service's are.
pub mod Validator
pub mod Engine
pub mod MockCalculator
pub mod Within
pub mod Sharing
mod Tests
use pivotal.Base.{
  ℕ, ◌+◌, ◌-◌, ◌*◌, ◌/◌, ◌<◌, pos, Bool, true, false, not, ◌&&◌, ◌||◌, Option, none, some, List, [],
  ◌∷◌, ◌++◌, ltb, ◌==◌, if◌then◌else◌, length, drop, any, map, Result, ok, err, ◌>>=◌, ◌>>◌,
  throw_if, or_throw,
}
use pivotal.Text.{Text, codes, trim, to_string}
use pivotal.Currencies.{currencies}
use pivotal.Money.{is_empty, MoneyError, whole, half_up, serialize, deserialize}
use pivotal.Responses.Subjects.{text_eq}
use pivotal.Outbound.Errors.{Extension}
use pivotal.Outbound.Parties.{Money}
use pivotal.Outbound.Answers.{to_lower_case, scale_by_code}

pub data FeeSplitRole : Type 0 where
  payer payee hub si fxp : FeeSplitRole

abbrev pub role_text : FeeSplitRole → Text
role_text payer = codes "PAYER_FSP"
role_text payee = codes "PAYEE_FSP"
role_text hub = codes "HUB"
role_text si = codes "SI"
role_text fxp = codes "FXP"

pub record FeeSplit : Type 0 where
  pub amount : Option Text
  pub currency : Option Text

-- An object with a field for each split, in the order of `Object.entries`.
abbrev pub FeeSplits : Type 0
FeeSplits = List (Text × FeeSplit)

pub record FeePolicy : Type 0 where
  pub fee_policy_id : Option Text
  pub transaction_currency : Option Text

pub record FeeCalculationResult : Type 0 where
  pub fee_policy : Option FeePolicy
  pub fee_currency : Option Text
  pub total_fee_amount : Option Text
  pub transaction_amount : Option Text
  pub transaction_currency : Option Text
  pub fee_splits : Option FeeSplits

-- A Map with the roles as keys, in the order in which they were set.
abbrev pub PreCalculatedFees : Type 0
PreCalculatedFees = List (FeeSplitRole × Money)

pub data FeeError : Type 0 where
  unresolved missing_currency currency_mismatch missing_amount : FeeSplitRole → FeeError
  wrong_currency larger_than_calculated : FeeSplitRole → FeeError
  bad_amount : MoneyError → FeeError
  -- What a calculator of another kind throws.
  calculation_failed : Text → FeeError

abbrev pub of_amount : {A : Type 0} → Result MoneyError A → Result FeeError A
of_amount (ok a) = ok a
of_amount (err e) = err (bad_amount e)

-- `FspiopCurrencies.get(currency)?.scale`
unfoldable pub scale_of_currency : Text → Option ℕ
scale_of_currency = scale_by_code currencies

abbrev pub is_one_of : List Text → Text → Bool
is_one_of names role = any (text_eq role) names

unfoldable pub to_extension_key : Text → Text
to_extension_key role =
    let r = trim role in
    if is_one_of
      (role_text payer ∷ codes "payer_fsp" ∷ codes "payer_fsp_fee" ∷ codes "payer_fsp_fee_cc" ∷ [])
      r
    then codes "payer_fsp_fee"
    else if is_one_of
        (role_text payee
          ∷ codes "payee_fsp"
          ∷ codes "payee_fsp_fee"
          ∷ codes "payee_fsp_fee_cc"
          ∷ [])
        r
    then codes "payee_fsp_fee"
    else if is_one_of (role_text hub ∷ codes "hub" ∷ codes "hub_fee" ∷ codes "hub_fee_cc" ∷ []) r
    then codes "hub_fee"
    else if is_one_of (role_text si ∷ codes "si" ∷ codes "si_fee" ∷ codes "si_fee_cc" ∷ []) r
    then codes "si_fee"
    else if is_one_of (role_text fxp ∷ codes "fxp" ∷ codes "fxp_fee" ∷ codes "fxp_fee_cc" ∷ []) r
    then codes "fxp_fee"
    else to_lower_case r

abbrev pub splits_of : Option FeeSplits → FeeSplits
splits_of none = []
splits_of (some splits) = splits

-- What `calculate` is asked by: a policy's number, which is positive, or a scenario.
pub data FeeSelector : Type 0 where
  by_policy : ℕ → FeeSelector
  by_scenario : Text → FeeSelector

abbrev pub FeeCalculator : Type 0
FeeCalculator = FeeSelector → Money → Result FeeError FeeCalculationResult
