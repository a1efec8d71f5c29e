-- ===== src/Outbound/Answers.antt =====
-- packages/core/outbound/domain/command/send-money-response.mapper.ts, and the fees that
-- put-accept-party.handler.ts reads from the answer to a quote.
use pivotal.Base.{
  ℕ, ◌+◌, pos, Bool, not, ◌&&◌, ◌||◌, Option, none, some, List, [], ◌∷◌, ◌++◌, leb, if◌then◌else◌,
  filter, any, map, Result, ok, err, ◌>>=◌, or_throw,
}
use pivotal.Text.{Text, codes, trim}
use pivotal.Currencies.{Profiles, currencies}
use pivotal.Money.{
  is_empty, MoneyError, bad_scale, amount_negative, amount_not_decimal, amount_above_uint64,
  rounding_necessary, currency_not_found, currency_scale_mismatch, whole, half_up, serialize,
  deserialize,
}
use pivotal.Responses.Subjects.{text_eq}
use pivotal.Outbound.Codes.{payee_unsupported_currency}
use pivotal.Outbound.Errors.{Extension, Thrown, other_error, fspiop_error}
use pivotal.Outbound.Parties.{
  FspParty, Money, QuotesIdPutResponse, TransferRequest, to_optional_value,
}

-- `toLowerCase`, as far as a comparison with a key of ASCII letters other than k and without dotless
-- ones needs it: no other unit becomes such a letter.
abbrev pub to_lower_case : Text → Text
to_lower_case = map (λ c. if leb b'A' c && leb c b'Z' then c + 32 else c)

abbrev pub key_of : Extension → Text
key_of e = to_lower_case (trim e.key)

unfoldable pub find_extension_value : List Extension → Text → Option Text
find_extension_value [] target = none
find_extension_value (e ∷ es) target =
    let rest = find_extension_value es target in
    if text_eq (key_of e) (to_lower_case (trim target)) then some (trim e.value) else rest

-- `FspiopCurrencies.get(currency)?.scale`
unfoldable pub scale_by_code : Profiles → Text → Option ℕ
scale_by_code [] code = none
scale_by_code ((c, scale) ∷ rest) code =
    let found = scale_by_code rest code in if text_eq (codes c) code then some scale else found

abbrev pub currency_or : Option Money → Text → Text
currency_or none fallback = fallback
currency_or (some money) fallback = money.currency

abbrev pub scale_or : Option Text → Option ℕ
scale_or none = none
scale_or (some currency) = scale_by_code currencies currency

-- The currency and the scale of the fee: its own where it names one that is known.
abbrev pub fee_currency : Option Text → Option ℕ → Text → ℕ → Text × ℕ
fee_currency (some currency) (some scale) default default_scale = (currency, scale)
fee_currency _ _ default default_scale = (default, default_scale)

unfoldable pub money_message : MoneyError → Text
money_message bad_scale = codes "Scale must be a non-negative integer."
money_message amount_negative = codes "Amount must be greater than or equal to zero."
money_message amount_not_decimal = codes "Amount must be a valid decimal number."
money_message amount_above_uint64 = codes "Amount is greater than uint64 max."
money_message rounding_necessary = codes "Rounding is necessary for the submitted amount."
money_message currency_not_found = codes "Currency profile not found"
money_message currency_scale_mismatch = codes "Currency scale does not match."

abbrev pub of_money : {A : Type 0} → Result MoneyError A → Result Thrown A
of_money (ok a) = ok a
of_money (err e) = err (other_error (money_message e))

abbrev pub value_or_zero : Option Text → Text
value_or_zero none = codes "0"
value_or_zero (some value) = value

abbrev pub extensions_or_empty : Option (List Extension) → List Extension
extensions_or_empty none = []
extensions_or_empty (some es) = es

unfoldable pub to_scheme_fee : QuotesIdPutResponse → Text → Result Thrown Money
unfolding find_extension_value
to_scheme_fee callback fallback_currency = do
  transfer_scale ←
      or_throw (scale_by_code currencies transfer_currency) (
        fspiop_error payee_unsupported_currency
          (codes "Unsupported currency " ++ transfer_currency))
  let fee = fee_currency named (scale_or named) transfer_currency transfer_scale
  serialized ← of_money (
      serialize (value_or_zero (find_extension_value es (codes "scheme_fee_amount"))) (whole fee.1)
        half_up)
  amount ← of_money (deserialize (pos serialized) (whole fee.1))
  ok (record { currency = fee.0; amount = amount })
  where
    es : List Extension
    es = extensions_or_empty callback.extension_list

    transfer_currency : Text
    transfer_currency = currency_or callback.transfer_amount fallback_currency

    named : Option Text
    named = find_extension_value es (codes "scheme_fee_currency")

abbrev pub fee_text : Option Money → Option Text
fee_text none = none
fee_text (some fee) = to_optional_value (some fee.amount)

abbrev pub fee_or_scheme : Option Text → Result Thrown Money → Result Thrown Text
fee_or_scheme (some amount) scheme = ok amount
fee_or_scheme none scheme = scheme >>= λ fee. ok fee.amount

unfoldable pub to_payee_fsp_fee_amount : QuotesIdPutResponse → Text → Result Thrown Text
unfolding to_scheme_fee
to_payee_fsp_fee_amount callback fallback_currency =
    fee_or_scheme (fee_text callback.payee_fsp_fee) (to_scheme_fee callback fallback_currency)

pub data StateEnum : Type 0 where
  waiting_for_party_acceptance waiting_for_quote_acceptance pending completed aborted : StateEnum

pub record SendMoneyResponse : Type 0 where
  pub transfer_id : Text
  pub home_transaction_id : Option Text
  pub from : FspParty
  pub to : FspParty
  pub amount_type : Text
  pub transaction_type : Text
  pub sub_scenario : Text
  pub note : Option Text
  pub amount : Text
  pub payee_receive_amount : Option Text
  pub transfer_amount : Option Text
  pub payee_fee : Text
  pub payer_fee : Text
  pub scheme_fee : Text
  pub currency : Text
  pub current_state : StateEnum
  pub initiated_timestamp : Text
  pub direction : Text
  pub supported_currencies : Option (List Text)
  pub extension_list : Option (List Extension)

abbrev pub fee_extension_keys : List Text
fee_extension_keys = codes "payeefee" ∷ codes "payerfee" ∷ codes "schemefee" ∷ []

-- `feeByKey.get(key)`, where a later extension replaces an earlier one.
unfoldable pub indexed_extension : Text → List Extension → Option Text
indexed_extension key [] = none
indexed_extension key (e ∷ es) = or_else (indexed_extension key es) (own e)
  where
    or_else : Option Text → Option Text → Option Text
    or_else none first = first
    or_else (some value) first = some value

    own : Extension → Option Text
    own e =
        if not (is_empty (key_of e)) && not (is_empty (trim e.value)) && text_eq (key_of e) key
        then some (trim e.value)
        else none

abbrev pub is_fee_extension : Extension → Bool
is_fee_extension e = any (text_eq (key_of e)) fee_extension_keys

unfoldable pub remove_fee_extensions : Option (List Extension) → Option (List Extension)
remove_fee_extensions none = none
remove_fee_extensions (some es) =
    some (filter (λ e. is_empty (key_of e) || not (is_fee_extension e)) es)

abbrev pub quoted_amount :
    (QuotesIdPutResponse → Option Money) → Option QuotesIdPutResponse → Option Text
quoted_amount part none = none
quoted_amount part (some quotes) = elim (part quotes) [ none ↦ none | some m ↦ some m.amount ]

unfoldable pub to_response :
    TransferRequest → StateEnum → Option (List Extension) → SendMoneyResponse
unfolding indexed_extension remove_fee_extensions
to_response t state extensions = record {
  transfer_id = t.transfer_id;
  home_transaction_id = t.home_transaction_id;
  from = t.from;
  to = t.to;
  amount_type = t.amount_type;
  transaction_type = t.transaction_type;
  sub_scenario = t.sub_scenario;
  note = t.note;
  amount = t.amount;
  payee_receive_amount = quoted_amount (λ q. q.payee_receive_amount) t.quotes;
  transfer_amount = quoted_amount (λ q. q.transfer_amount) t.quotes;
  payee_fee = value_or_zero (indexed_extension (codes "payeefee") es);
  payer_fee = value_or_zero (indexed_extension (codes "payerfee") es);
  scheme_fee = value_or_zero (indexed_extension (codes "schemefee") es);
  currency = t.currency;
  current_state = state;
  initiated_timestamp = t.initiated_timestamp;
  direction = codes "OUTGOING";
  supported_currencies = t.supported_currencies;
  extension_list = remove_fee_extensions extensions;
}
  where
    es : List Extension
    es = extensions_or_empty extensions

abbrev pub final_state : Text → StateEnum
final_state transfer_state = if text_eq transfer_state (codes "ABORTED") then aborted else completed
