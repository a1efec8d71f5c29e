-- ===== src/Fees/MockCalculator.antt =====
-- packages/shared/catalyst/component/calculator/mock-fee-calculator.ts: the calculator used without
-- a fee service.
use pivotal.Base.{ℕ, ◌-◌, ◌*◌, ◌/◌, pos, Option, none, some, [], ◌∷◌, Result, ok, ◌>>=◌}
use pivotal.Text.{Text, codes}
use pivotal.Money.{whole, half_up, serialize, deserialize}
use pivotal.Fees.{FeeSplit, FeeError, of_amount, scale_of_currency, FeeCalculator}

abbrev pub scale_or_zero : Option ℕ → ℕ
scale_or_zero none = 0
scale_or_zero (some scale) = scale

abbrev pub total_fee : ℕ → ℕ
total_fee minor = minor / 100

-- The payer's share and the payee's are the same.
abbrev pub share : ℕ → ℕ
share total = total * 30 / 100

abbrev pub hub_share : ℕ → ℕ
hub_share total = total - share total - share total

abbrev pub create_split : ℕ → ℕ → Text → Result FeeError FeeSplit
create_split minor scale currency = do
  amount ← of_amount (deserialize (pos minor) (whole scale))
  ok (record { amount = some amount; currency = some currency })

-- `MockFeeCalculator.calculate`
unfoldable pub mock_calculate : FeeCalculator
mock_calculate selector amount = do
  minor ← of_amount (serialize amount.amount (whole scale) half_up)
  total ← of_amount (deserialize (pos (total_fee minor)) (whole scale))
  payer_split ← create_split (share (total_fee minor)) scale amount.currency
  payee_split ← create_split (share (total_fee minor)) scale amount.currency
  hub_split ← create_split (hub_share (total_fee minor)) scale amount.currency
  ok (record {
    fee_policy =
        some (record {
          fee_policy_id = some (codes "0");
          transaction_currency = some amount.currency;
        });
    fee_currency = some amount.currency;
    total_fee_amount = some total;
    transaction_amount = some amount.amount;
    transaction_currency = some amount.currency;
    fee_splits = some (
        (codes "payer_fsp_fee", payer_split)
        ∷ (codes "payee_fsp_fee", payee_split)
        ∷ (codes "hub_fee", hub_split)
        ∷ []);
  })
  where
    scale : ℕ
    scale = scale_or_zero (scale_of_currency amount.currency)
