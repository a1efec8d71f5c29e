-- ===== src/Fees/Tests.antt =====
-- Fees of an amount of 12,345.67 and of one fee that was calculated before.
use pivotal.Base.{◌≡◌, refl, none, some, List, [], ◌∷◌, All, ok, pos, ◌+◌}
use pivotal.Text.{Text, codes, trim, strip_zeros, value, to_string}
use pivotal.Money.{
  whole, half_up, serialize, deserialize, match_decimal, normalize_amount, scale_amount,
  should_round_up,
}
use pivotal.Outbound.Errors.{Extension}
use pivotal.Outbound.Parties.{Money}
use pivotal.Fees.{
  payer, FeeCalculator, FeeCalculationResult, PreCalculatedFees, splits_of, scale_of_currency,
  to_extension_key,
}
use pivotal.Fees.Engine.{strict, execute}
use pivotal.Fees.MockCalculator.{mock_calculate, total_fee, share, hub_share}
use pivotal.Fees.Within.{IsWithin, execute-IsWithin}
use pivotal.Fees.Sharing.{execute-mock, mock_extensions}
use pivotal.Outbound.Answers.{scale_by_code}
use pivotal.Currencies.{currencies}

abbrev payment : Money
payment = record { currency = codes "USD"; amount = codes "12345.67" }

abbrev fees : PreCalculatedFees
fees = (payer, record { currency = codes "USD"; amount = codes "37" }) ∷ []

dollars : scale_of_currency (codes "USD") ≡ some 2
unfolding scale_of_currency scale_by_code currencies
dollars = refl

payment_minor : serialize (codes "12345.67") (whole 2) half_up ≡ ok 1234567
unfolding serialize match_decimal normalize_amount trim strip_zeros scale_amount should_round_up
    value
payment_minor = refl

execute-mock_example :
    (each hub total : Text) × (deserialize (pos (share (total_fee 1234567))) (whole 2) ≡ ok each)
    × (deserialize (pos (hub_share (total_fee 1234567))) (whole 2) ≡ ok hub)
    × (deserialize (pos (total_fee 1234567)) (whole 2) ≡ ok total)
    × (share (total_fee 1234567) + share (total_fee 1234567) + hub_share (total_fee 1234567)
        ≡ total_fee 1234567)
    × (execute strict mock_calculate [] (codes "P2P") payment 0
        ≡ ok (mock_extensions each hub total (codes "USD")))
execute-mock_example = execute-mock payment 2 1234567 dollars payment_minor (codes "P2P") 0

abbrev calculated : FeeCalculationResult
calculated = record {
  fee_policy = some (record { fee_policy_id = some (codes "7"); transaction_currency = none });
  fee_currency = some (codes "USD");
  total_fee_amount = none;
  transaction_amount = none;
  transaction_currency = none;
  fee_splits = some (
      (codes "payer_fsp", record { amount = some (codes "40"); currency = some (codes "USD") })
      ∷ []);
}

abbrev service : FeeCalculator
service = λ selector amount. ok calculated

abbrev accepted : List Extension
accepted =
    record { key = codes "payer_fsp_fee"; value = codes "37" }
    ∷ record { key = codes "payer_fsp_fee_cc"; value = codes "40" }
    ∷ record { key = codes "scheme_fee_amount"; value = codes "37" }
    ∷ record { key = codes "scheme_fee_currency"; value = codes "USD" }
    ∷ record { key = codes "scheme_fee_policy_id"; value = codes "7" }
    ∷ []

accepts : execute strict service fees (codes "P2P") payment 7 ≡ ok accepted
unfolding execute scale_of_currency scale_by_code currencies serialize match_decimal
    normalize_amount trim strip_zeros scale_amount should_round_up value to_extension_key
    deserialize to_string
accepts = refl

execute-IsWithin_example : All (IsWithin (splits_of calculated.fee_splits)) fees
execute-IsWithin_example =
    execute-IsWithin service fees (codes "P2P") payment 7 calculated
      (record { fee_policy_id = some (codes "7"); transaction_currency = none }) accepted refl refl
      accepts
