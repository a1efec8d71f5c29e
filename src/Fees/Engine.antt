-- ===== src/Fees/Engine.antt =====
-- packages/shared/catalyst/component/catalyst-fee-engine.ts: the extensions of a quote with its fees
-- and their sum.
use pivotal.Base.{
  ℕ, ◌+◌, ◌-◌, pos, Bool, Option, none, some, List, [], ◌∷◌, ◌++◌, ltb, if◌then◌else◌, length, drop,
  any, map, Result, ok, ◌>>=◌, ◌>>◌,
}
use pivotal.Text.{Text, codes, trim, to_string}
use pivotal.Money.{is_empty, whole, half_up, serialize, deserialize}
use pivotal.Responses.Subjects.{text_eq}
use pivotal.Outbound.Errors.{Extension}
use pivotal.Outbound.Parties.{Money}
use pivotal.Fees.{
  FeeSplitRole, role_text, FeeSplits, FeePolicy, PreCalculatedFees, FeeError, of_amount,
  scale_of_currency, to_extension_key, splits_of, FeeCalculator, by_policy, by_scenario,
}
use pivotal.Fees.Validator.{validate}

abbrev pub extension : Text → Text → Extension
extension key value = record { key = key; value = value }

abbrev pub to_extension : FeeSplitRole × Money → Extension
to_extension (role, money) = extension (to_extension_key (role_text role)) money.amount

-- `endsWith('_cc')`
abbrev pub ends_with_cc : Text → Bool
ends_with_cc key = text_eq (drop (length key - 3) key) (codes "_cc")

abbrev pub cc_key : Text → Text
cc_key key = if ends_with_cc key then key else key ++ codes "_cc"

abbrev pub to_cc_extension : Text → Text → Extension
to_cc_extension role amount = extension (cc_key (to_extension_key role)) amount

abbrev pub cc_extension_of : Text → Option Text → List Extension
cc_extension_of role none = []
cc_extension_of role (some amount) = to_cc_extension role amount ∷ []

unfoldable pub cc_extensions : FeeSplits → List Extension
cc_extensions [] = []
cc_extensions ((role, split) ∷ splits) = cc_extension_of role split.amount ++ cc_extensions splits

abbrev pub fee_keys : PreCalculatedFees → List Text
fee_keys = map (λ f. to_extension_key (role_text f.0))

-- The loops over the fees and the splits, from the total so far.
unfoldable pub sum_fees : ℕ → ℕ → PreCalculatedFees → Result FeeError ℕ
sum_fees scale total [] = ok total
sum_fees scale total ((role, money) ∷ fees) = do
  minor ← of_amount (serialize money.amount (whole scale) half_up)
  sum_fees scale (total + minor) fees

abbrev pub counted_amount : List Text → Text → Option Text → Option Text
counted_amount keys role none = none
counted_amount keys role (some amount) =
    if any (text_eq (to_extension_key role)) keys then none else some amount

abbrev pub minor_or_none : ℕ → Option Text → Result FeeError ℕ
minor_or_none scale none = ok 0
minor_or_none scale (some amount) = of_amount (serialize amount (whole scale) half_up)

unfoldable pub sum_splits : ℕ → List Text → ℕ → FeeSplits → Result FeeError ℕ
sum_splits scale keys total [] = ok total
sum_splits scale keys total ((role, split) ∷ splits) = do
  minor ← minor_or_none scale (counted_amount keys role split.amount)
  sum_splits scale keys (total + minor) splits

abbrev pub first_currency : PreCalculatedFees → Option Text
first_currency [] = none
first_currency ((role, money) ∷ fees) = some money.currency

abbrev pub currency_of_fees : Option Text → PreCalculatedFees → Option Text
currency_of_fees none fees = first_currency fees
currency_of_fees (some currency) fees = some currency

abbrev pub scale_if : Option Text → Option ℕ
scale_if none = none
scale_if (some currency) = scale_of_currency currency

unfoldable pub scheme_fee_at : ℕ → PreCalculatedFees → FeeSplits → Result FeeError Text
unfolding sum_fees sum_splits
scheme_fee_at scale fees splits = do
  own ← sum_fees scale 0 fees
  total ← sum_splits scale (fee_keys fees) own splits
  of_amount (deserialize (pos total) (whole scale))

-- Where the currency is unknown, there is no sum.
abbrev pub scheme_fee_if : Option ℕ → PreCalculatedFees → FeeSplits → Result FeeError (Option Text)
scheme_fee_if none fees splits = ok none
scheme_fee_if (some scale) fees splits = scheme_fee_at scale fees splits >>= λ t. ok (some t)

unfoldable pub to_scheme_fee_amount :
    PreCalculatedFees → Option FeeSplits → Option Text → Result FeeError (Option Text)
unfolding scheme_fee_at
to_scheme_fee_amount fees splits currency =
    scheme_fee_if (scale_if (currency_of_fees currency fees)) fees (splits_of splits)

abbrev pub extension_if : Text → Option Text → List Extension
extension_if key none = []
extension_if key (some value) = extension key value ∷ []

abbrev pub non_blank_id : Option Text → Option Text
non_blank_id none = none
non_blank_id (some id) = if is_empty (trim id) then none else some (trim id)

unfoldable pub to_extension_list :
    PreCalculatedFees
    → Option FeeSplits
    → Option Text
    → Option Text
    → Result FeeError (List Extension)
unfolding to_scheme_fee_amount cc_extensions
to_extension_list fees splits currency policy_id = do
  scheme_fee ← to_scheme_fee_amount fees splits currency
  ok (
      map to_extension fees
      ++ cc_extensions (splits_of splits)
      ++ extension_if (codes "scheme_fee_amount") scheme_fee
      ++ extension_if (codes "scheme_fee_currency") currency
      ++ extension_if (codes "scheme_fee_policy_id") (non_blank_id policy_id))

pub data EngineMode : Type 0 where
  bypass strict : EngineMode

abbrev pub policy_id_of : Option FeePolicy → Option Text
policy_id_of none = none
policy_id_of (some policy) = policy.fee_policy_id

abbrev pub policy_id_or : Option Text → ℕ → Option Text
policy_id_or (some id) fee_policy_id = some id
policy_id_or none fee_policy_id =
    if ltb 0 fee_policy_id then some (to_string fee_policy_id) else none

-- A `feePolicyId` below zero counts as zero.
unfoldable pub execute :
    EngineMode
    → FeeCalculator
    → PreCalculatedFees
    → Text
    → Money
    → ℕ
    → Result FeeError (List Extension)
unfolding to_extension_list validate
execute bypass calculate fees scenario amount fee_policy_id = to_extension_list fees none none none
execute strict calculate fees scenario amount fee_policy_id = do
  result ←
      calculate (if ltb 0 fee_policy_id then by_policy fee_policy_id else by_scenario scenario)
        amount
  validate fees result
  to_extension_list fees result.fee_splits result.fee_currency
      (policy_id_or (policy_id_of result.fee_policy) fee_policy_id)
