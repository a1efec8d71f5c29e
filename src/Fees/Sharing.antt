-- ===== src/Fees/Sharing.antt =====
-- The engine with the calculator used without a fee service: what it makes of an amount.
use pivotal.Base.{
  ℕ, ◌+◌, ◌≤◌, ◌≡◌, refl, ap, ◌∙◌, some, List, [], ◌∷◌, ltb, if◌then◌else◌, pos, ok, on_ok, arith,
  inl, inr, Bool-cases, eq_of_ok, negsuc, ℤ,
}
use pivotal.Text.{Text, codes, trim}
use pivotal.Money.{
  whole, half_up, serialize, deserialize, uint64_max, check_range, validate_scale,
  parse_decimal_amount, normalize_amount, scale_amount,
}
use pivotal.Money.RoundTrip.{serialize-deserialize}
use pivotal.Outbound.Errors.{Extension}
use pivotal.Outbound.Parties.{Money}
use pivotal.Fees.{
  of_amount, scale_of_currency, FeeSelector, FeeCalculationResult, FeeSplits, to_extension_key,
  by_policy, by_scenario,
}
use pivotal.Fees.Validator.{validate, validate_each}
use pivotal.Fees.Engine.{
  strict, execute, extension, to_extension_list, to_scheme_fee_amount, scheme_fee_at, sum_fees,
  sum_splits, cc_extensions,
}
use pivotal.Fees.MockCalculator.{mock_calculate, total_fee, share, hub_share}

check_range_le : (z : ℤ) {n : ℕ} → check_range z ≡ ok n → n ≤ uint64_max
unfolding check_range
check_range_le (negsuc k) h = absurd (cc)
check_range_le (pos k) {n} h = elim (Bool-cases (ltb uint64_max k)) [
  | inl over ↦ absurd (cc (rw over at h))
  | inr fits ↦ let same : k ≡ n = eq_of_ok (rw fits at h) in ground arith
]

-- What `serialize` gives fits in 64 bits.
serialize_le :
    (amount : Text) (scale : ℕ) {n : ℕ}
    → serialize amount (whole scale) half_up ≡ ok n
    → n ≤ uint64_max
unfolding serialize validate_scale
serialize_le amount scale h =
    on_ok (parse_decimal_amount (normalize_amount (trim amount))) _ h λ parsed e h.
      on_ok (scale_amount parsed scale half_up) _ h λ scaled e h. check_range_le scaled h

share_sum : (n : ℕ) → share n + share n + hub_share n ≡ n
share_sum n = omega arith

-- Every share is at most the amount.
share_le : (n : ℕ) → (share (total_fee n) ≤ n) × (hub_share (total_fee n) ≤ n) × (total_fee n ≤ n)
share_le n = (omega arith, omega arith, omega arith)

abbrev pub mock_extensions : Text → Text → Text → Text → List Extension
mock_extensions each hub total currency =
    extension (codes "payer_fsp_fee_cc") each
    ∷ extension (codes "payee_fsp_fee_cc") each
    ∷ extension (codes "hub_fee_cc") hub
    ∷ extension (codes "scheme_fee_amount") total
    ∷ extension (codes "scheme_fee_currency") currency
    ∷ extension (codes "scheme_fee_policy_id") (codes "0")
    ∷ []

abbrev mock_splits : Text → Text → Text → FeeSplits
mock_splits each hub currency =
    (codes "payer_fsp_fee", record { amount = some each; currency = some currency })
    ∷ (codes "payee_fsp_fee", record { amount = some each; currency = some currency })
    ∷ (codes "hub_fee", record { amount = some hub; currency = some currency })
    ∷ []

abbrev mock_result : Money → Text → Text → Text → FeeCalculationResult
mock_result amount each hub total = record {
  fee_policy =
      some
        (record { fee_policy_id = some (codes "0"); transaction_currency = some amount.currency });
  fee_currency = some amount.currency;
  total_fee_amount = some total;
  transaction_amount = some amount.amount;
  transaction_currency = some amount.currency;
  fee_splits = some (mock_splits each hub amount.currency);
}

module _ (amount : Money) (scale minor : ℕ)
    (is_scale : scale_of_currency amount.currency ≡ some scale)
    (is_minor : serialize amount.amount (whole scale) half_up ≡ ok minor) where
  mock_calculate_lem :
      (selector : FeeSelector) {each hub total : Text}
      → deserialize (pos (share (total_fee minor))) (whole scale) ≡ ok each
      → deserialize (pos (hub_share (total_fee minor))) (whole scale) ≡ ok hub
      → deserialize (pos (total_fee minor)) (whole scale) ≡ ok total
      → mock_calculate selector amount ≡ ok (mock_result amount each hub total)
  unfolding mock_calculate
  mock_calculate_lem selector e h t = rw (is_scale, is_minor, t, e, h) refl

  scheme_fee_at-mock :
      (each hub currency : Text) {total : Text}
      → serialize each (whole scale) half_up ≡ ok (share (total_fee minor))
      → serialize hub (whole scale) half_up ≡ ok (hub_share (total_fee minor))
      → deserialize (pos (total_fee minor)) (whole scale) ≡ ok total
      → scheme_fee_at scale [] (mock_splits each hub currency) ≡ ok total
  unfolding scheme_fee_at sum_fees sum_splits
  scheme_fee_at-mock each hub currency e h t =
      rw (e, h) (ap (λ n. of_amount (deserialize (pos n) (whole scale))) adds_up ∙ ap of_amount t)
    where
      adds_up :
          0 + share (total_fee minor) + share (total_fee minor) + hub_share (total_fee minor)
          ≡ total_fee minor
      adds_up = omega (arith, share_sum (total_fee minor))

  mock_extensions_lem :
      (each hub total : Text)
      → scheme_fee_at scale [] (mock_splits each hub amount.currency) ≡ ok total
      → to_extension_list []
          (some (mock_splits each hub amount.currency))
          (some amount.currency)
          (some (codes "0"))
        ≡ ok (mock_extensions each hub total amount.currency)
  unfolding to_extension_list to_scheme_fee_amount cc_extensions to_extension_key trim
  mock_extensions_lem each hub total h = rw (is_scale, h) refl

  -- Where no fee was calculated before, the currency is known and the amount can be read, the engine
  -- succeeds in strict mode with the built-in calculator: the payer's and the payee's share are 30 of
  -- 100 parts of the total fee, rounded down, the hub's is the rest, and the sum that the engine
  -- makes of the printed shares is the printed total, one hundredth of the amount, rounded down.
  pub execute-mock :
      (scenario : Text) (fee_policy_id : ℕ)
      → (each hub total : Text) × (deserialize (pos (share (total_fee minor))) (whole scale)
          ≡ ok each)
        × (deserialize (pos (hub_share (total_fee minor))) (whole scale) ≡ ok hub)
        × (deserialize (pos (total_fee minor)) (whole scale) ≡ ok total)
        × (share (total_fee minor) + share (total_fee minor) + hub_share (total_fee minor)
            ≡ total_fee minor)
        × (execute strict mock_calculate [] scenario amount fee_policy_id
            ≡ ok (mock_extensions each hub total amount.currency))
  unfolding execute validate validate_each
  execute-mock scenario fee_policy_id =
      let small = serialize_le amount.amount scale is_minor in
      let (each_le, hub_le, total_le) = share_le minor in
      let (each, each_text, each_back) =
        serialize-deserialize (share (total_fee minor)) scale half_up (omega arith) in
      let (hub, hub_text, hub_back) =
        serialize-deserialize (hub_share (total_fee minor)) scale half_up (omega arith) in
      let (total, total_text, total_back) =
        serialize-deserialize (total_fee minor) scale half_up (omega arith) in
      (
        each,
        hub,
        total,
        each_text,
        hub_text,
        total_text,
        share_sum (total_fee minor),
        rw
            (mock_calculate_lem
              (if ltb 0 fee_policy_id then by_policy fee_policy_id else by_scenario scenario)
              each_text hub_text total_text)
            (mock_extensions_lem each hub total
              (scheme_fee_at-mock each hub amount.currency each_back hub_back total_text)),
      )
