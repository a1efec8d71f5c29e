-- ===== src/Fees/Within.antt =====
-- What a quote's fees satisfy once the engine has accepted them.
use pivotal.Base.{
  ℕ, ◌≤◌, ◌≡◌, refl, sym, ap, subst, ◌∙◌, Bool, true, false, not, some, List, [], ◌∷◌, All, ltb,
  if◌then◌else◌, Result, ok, err, throw_if, or_throw, on_ok, ok_of_or_throw, ok_of_throw_if,
  eq_of_ok, arith,
}
use pivotal.Text.{Text}
use pivotal.Money.{MoneyError, whole, half_up, serialize}
use pivotal.Responses.Subjects.{text_eq, eq_of_text_eq}
use pivotal.Outbound.Errors.{Extension}
use pivotal.Outbound.Parties.{Money}
use pivotal.Fees.{
  FeeSplitRole, FeeSplit, FeeSplits, FeePolicy, FeeCalculationResult, FeeCalculator,
  PreCalculatedFees, of_amount, scale_of_currency, splits_of, by_policy, by_scenario,
}
use pivotal.Fees.Validator.{resolve_split, validate_fee, validate_each, validate_under, validate}
use pivotal.Fees.Engine.{strict, execute}

-- The fee has a split in the same currency, and is at most the amount of the split, in minor units
-- of the currency.
pub record IsWithin (splits : FeeSplits) (fee : FeeSplitRole × Money) : Type 0 where
  pub split : FeeSplit
  pub scale : ℕ
  pub amount : Text
  pub own : ℕ
  pub calculated : ℕ
  pub is_split : resolve_split splits fee.0 ≡ some split
  pub same_currency : split.currency ≡ some fee.1.currency
  pub is_scale : scale_of_currency fee.1.currency ≡ some scale
  pub is_amount : split.amount ≡ some amount
  pub is_own : serialize fee.1.amount (whole scale) half_up ≡ ok own
  pub is_calculated : serialize amount (whole scale) half_up ≡ ok calculated
  pub own_le : own ≤ calculated

ok_of_amount : {A : Type 0} (r : Result MoneyError A) {a : A} → of_amount r ≡ ok a → r ≡ ok a
ok_of_amount (ok b) h = cc
ok_of_amount (err e) h = cc

within : (own calculated : ℕ) → ltb calculated own ≡ false → own ≤ calculated
within own calculated h = ground arith

eq_of_not : (b : Bool) → not b ≡ false → b ≡ true
eq_of_not true h = refl
eq_of_not false h = cc h

validate_fee-IsWithin :
    (splits : FeeSplits) (role : FeeSplitRole) (fee : Money) {u : Unit {0}}
    → validate_fee splits role fee ≡ ok u
    → IsWithin splits (role, fee)
unfolding validate_fee
validate_fee-IsWithin splits role fee h =
    on_ok (or_throw (resolve_split splits role) _) _ h λ split is_split h.
      on_ok (or_throw split.currency _) _ h λ currency is_currency h.
        on_ok (throw_if (not (text_eq fee.currency currency)) _) _ h λ u same h.
          on_ok (or_throw split.amount _) _ h λ amount is_amount h.
            on_ok (or_throw (scale_of_currency fee.currency) _) _ h λ scale is_scale h.
              on_ok (of_amount (serialize fee.amount (whole scale) half_up)) _ h λ own is_own h.
                on_ok (of_amount (serialize amount (whole scale) half_up)) _ h
                  λ calculated is_calculated h. record {
                    split = split;
                    scale = scale;
                    amount = amount;
                    own = own;
                    calculated = calculated;
                    is_split = ok_of_or_throw _ _ is_split;
                    same_currency =
                        ok_of_or_throw _ _ is_currency
                        ∙ ap some (
                            sym (
                              eq_of_text_eq fee.currency currency
                                (eq_of_not _ (ok_of_throw_if _ _ same))));
                    is_scale = ok_of_or_throw _ _ is_scale;
                    is_amount = ok_of_or_throw _ _ is_amount;
                    is_own = ok_of_amount _ is_own;
                    is_calculated = ok_of_amount _ is_calculated;
                    own_le = within own calculated (ok_of_throw_if _ _ h);
                  }

validate_each-IsWithin :
    (splits : FeeSplits) (fees : PreCalculatedFees) {u : Unit {0}}
    → validate_each splits fees ≡ ok u
    → All (IsWithin splits) fees
unfolding validate_each
validate_each-IsWithin splits [] h = tt
validate_each-IsWithin splits ((role, fee) ∷ fees) h =
    on_ok (validate_fee splits role fee) _ h λ u one more.
      (validate_fee-IsWithin splits role fee one, validate_each-IsWithin splits fees more)

validate-IsWithin :
    (fees : PreCalculatedFees) (result : FeeCalculationResult) (policy : FeePolicy) {u : Unit {0}}
    → result.fee_policy ≡ some policy
    → validate fees result ≡ ok u
    → All (IsWithin (splits_of result.fee_splits)) fees
unfolding validate
validate-IsWithin fees result policy p h =
    validate_each-IsWithin (splits_of result.fee_splits) fees
      (subst (λ x. validate_under x fees (splits_of result.fee_splits) ≡ ok _) p h)

-- What the engine in strict mode lets through under a policy, by whatever calculator: every fee
-- calculated before has a split of the calculation in its own currency, under its role or a name for
-- it, and is no larger than the split.
pub execute-IsWithin :
    (calculate : FeeCalculator) (fees : PreCalculatedFees) (scenario : Text) (amount : Money)
    (fee_policy_id : ℕ) (result : FeeCalculationResult) (policy : FeePolicy)
    (extensions : List Extension)
    → calculate
        (if ltb 0 fee_policy_id then by_policy fee_policy_id else by_scenario scenario)
        amount
      ≡ ok result
    → result.fee_policy ≡ some policy
    → execute strict calculate fees scenario amount fee_policy_id ≡ ok extensions
    → All (IsWithin (splits_of result.fee_splits)) fees
unfolding execute
execute-IsWithin calculate fees scenario amount fee_policy_id result policy extensions c p h =
    on_ok
      (calculate (if ltb 0 fee_policy_id then by_policy fee_policy_id else by_scenario scenario)
        amount)
      _ h
      λ found same h. on_ok (validate fees found) _ h λ u valid rest.
        validate-IsWithin fees result policy p
          (subst (λ r. validate fees r ≡ ok u) (sym (eq_of_ok (sym c ∙ same))) valid)
