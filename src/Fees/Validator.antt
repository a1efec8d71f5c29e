-- ===== src/Fees/Validator.antt =====
-- packages/shared/catalyst/component/fee-validator.ts: whether the fees that were calculated before
-- are within those of the policy.
use pivotal.Base.{
  not, Option, none, some, List, [], ◌∷◌, ltb, if◌then◌else◌, Result, ok, ◌>>=◌, ◌>>◌, throw_if,
  or_throw,
}
use pivotal.Text.{Text, codes}
use pivotal.Money.{whole, half_up, serialize}
use pivotal.Responses.Subjects.{text_eq}
use pivotal.Outbound.Parties.{Money}
use pivotal.Fees.{
  FeeSplitRole, role_text, FeeSplit, FeeSplits, FeePolicy, FeeCalculationResult, PreCalculatedFees,
  FeeError, of_amount, scale_of_currency, splits_of, payer, payee, hub, si, fxp, unresolved,
  missing_currency, currency_mismatch, missing_amount, wrong_currency, larger_than_calculated,
}

-- `feeSplits[key]`
abbrev pub split_at : Text → FeeSplits → Option FeeSplit
split_at key [] = none
split_at key ((k, split) ∷ splits) =
    let rest = split_at key splits in if text_eq k key then some split else rest

abbrev pub resolve_role_aliases : FeeSplitRole → List Text
resolve_role_aliases payer =
    codes "payer_fsp" ∷ codes "payer_fsp_fee" ∷ codes "payer_fsp_fee_cc" ∷ codes "PAYER_FSP" ∷ []
resolve_role_aliases payee =
    codes "payee_fsp" ∷ codes "payee_fsp_fee" ∷ codes "payee_fsp_fee_cc" ∷ codes "PAYEE_FSP" ∷ []
resolve_role_aliases hub = codes "hub" ∷ codes "hub_fee" ∷ codes "HUB" ∷ []
resolve_role_aliases si = codes "si" ∷ codes "SI" ∷ []
resolve_role_aliases fxp = codes "fxp" ∷ codes "FXP" ∷ []

abbrev pub or_split : Option FeeSplit → Option FeeSplit → Option FeeSplit
or_split none other = other
or_split (some split) other = some split

abbrev pub first_split : List Text → FeeSplits → Option FeeSplit
first_split [] splits = none
first_split (key ∷ keys) splits = or_split (split_at key splits) (first_split keys splits)

unfoldable pub resolve_split : FeeSplits → FeeSplitRole → Option FeeSplit
resolve_split splits role = first_split (role_text role ∷ resolve_role_aliases role) splits

-- One round of the loop of `validate`; the fee itself always has a currency and an amount.
unfoldable pub validate_fee : FeeSplits → FeeSplitRole → Money → Result FeeError (Unit {0})
unfolding resolve_split
validate_fee splits role fee = do
  split ← or_throw (resolve_split splits role) (unresolved role)
  currency ← or_throw split.currency (missing_currency role)
  throw_if (not (text_eq fee.currency currency)) (currency_mismatch role)
  amount ← or_throw split.amount (missing_amount role)
  scale ← or_throw (scale_of_currency fee.currency) (wrong_currency role)
  own ← of_amount (serialize fee.amount (whole scale) half_up)
  calculated ← of_amount (serialize amount (whole scale) half_up)
  throw_if (ltb calculated own) (larger_than_calculated role)

unfoldable pub validate_each : FeeSplits → PreCalculatedFees → Result FeeError (Unit {0})
unfolding validate_fee
validate_each splits [] = ok tt
validate_each splits ((role, fee) ∷ fees) =
    validate_fee splits role fee >> validate_each splits fees

abbrev pub validate_under :
    Option FeePolicy → PreCalculatedFees → FeeSplits → Result FeeError (Unit {0})
validate_under none fees splits = ok tt
validate_under (some policy) fees splits = validate_each splits fees

unfoldable pub validate : PreCalculatedFees → FeeCalculationResult → Result FeeError (Unit {0})
unfolding validate_each
validate fees result = validate_under result.fee_policy fees (splits_of result.fee_splits)
