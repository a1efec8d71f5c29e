-- ===== src/Outbound/Messages.antt =====
-- packages/core/outbound/domain/command: the requests that the handlers post to the hub.
use pivotal.Base.{
  Bool, not, Option, none, some, List, [], ◌∷◌, ◌++◌, if◌then◌else◌, filter, Result, ok, or_throw,
  ◌>>=◌,
}
use pivotal.Text.{Text, codes, trim}
use pivotal.Money.{is_empty}
use pivotal.Responses.Subjects.{text_eq}
use pivotal.Outbound.Codes.{quote_id_not_found}
use pivotal.Outbound.Errors.{Extension, Thrown, fspiop_error}
use pivotal.Outbound.Parties.{QuotesIdPutResponse, TransferRequest, to_optional_value}
use pivotal.Outbound.Effects.{QuotesPostRequest, TransfersPostRequest}
use pivotal.Outbound.Checks.{get_fsp_id}
use pivotal.Outbound.Answers.{to_lower_case}

abbrev pub text_or : Option Text → Text → Text
text_or none fallback = fallback
text_or (some s) fallback = s

unfoldable pub to_quotes_post_request :
    Text → TransferRequest → Option (List Extension) → QuotesPostRequest
to_quotes_post_request id t extensions = record {
  quote_id = id;
  transaction_id = id;
  transaction_request_id = id;
  payee = t.payee;
  payer = t.payer;
  amount_type = t.amount_type;
  amount = record { currency = t.currency; amount = t.amount };
  scenario = t.transaction_type;
  sub_scenario = to_optional_value (some t.sub_scenario);
  initiator = codes "PAYER";
  initiator_type = text_or t.from.initiator_type (codes "CONSUMER");
  note = t.note;
  extension_list = extensions;
}

abbrev pub home_transaction_id_key : Text
home_transaction_id_key = codes "homeTransactionId"

abbrev pub home_extension : Option Text → List Extension
home_extension none = []
home_extension (some id) =
    if is_empty id then [] else record { key = home_transaction_id_key; value = id } ∷ []

abbrev pub if_any : List Extension → Option (List Extension)
if_any [] = none
if_any (e ∷ es) = some (e ∷ es)

abbrev pub list_of : Option (List Extension) → List Extension
list_of none = []
list_of (some es) = es

abbrev pub is_home_extension : Extension → Bool
is_home_extension e = text_eq (to_lower_case (trim e.key)) (to_lower_case home_transaction_id_key)

unfoldable pub to_extension_list : QuotesIdPutResponse → Option Text → Option (List Extension)
to_extension_list q home_id =
    if_any
      (filter (λ e. not (is_home_extension e)) (list_of q.extension_list) ++ home_extension home_id)

abbrev pub quote_or_throw : Option QuotesIdPutResponse → Text → Result Thrown QuotesIdPutResponse
quote_or_throw quotes id =
    or_throw quotes (
      fspiop_error quote_id_not_found
        (codes "Quote was not found for transfer " ++ id ++ codes "."))

abbrev pub transfer_routing : Text
transfer_routing = codes "transfer"

unfoldable pub to_transfers_post_request :
    Text → TransferRequest → Result Thrown TransfersPostRequest
unfolding to_extension_list
to_transfers_post_request id t = do
  q ← quote_or_throw t.quotes id
  payer_fsp ← get_fsp_id t.payer (codes "payer") transfer_routing
  payee_fsp ← get_fsp_id t.payee (codes "payee") transfer_routing
  ok (record {
    transfer_id = id;
    payer_fsp = payer_fsp;
    payee_fsp = payee_fsp;
    amount = q.transfer_amount;
    ilp_packet = q.ilp_packet;
    condition = q.condition;
    expiration = q.expiration;
    extension_list = to_extension_list q t.home_transaction_id;
  })
