-- ===== src/Outbound/Tests.antt =====
-- A transfer from its lookup to its end, with a Redis in memory.
use pivotal.Base.{
  ◌≡◌, ◌≤◌, refl, true, false, none, some, [], ◌∷◌, List, count, ltb, ok, err, filter, not, arith,
}
use pivotal.Text.{Text, codes, trim, strip_zeros}
use pivotal.Outbound.Codes.{
  communication_error, payee_limit_error, quote_expired, internal_server_error, error_code,
  find_code, undefined, object_member,
}
use pivotal.Outbound.Errors.{
  FspiopException, definition, exception_with_extensions, to_fspiop_exception, axios_error,
  fspiop_exception, other_error,
}
use pivotal.Outbound.Parties.{
  Party, PartyIdInfo, FspParty, QuotesIdPutResponse, TransfersIdPutResponse, resolve_destination,
  to_transfer_request, to_optional_value,
}
use pivotal.Outbound.Redis.{token, lock_key, acquire_lock, release_lock}
use pivotal.Outbound.Effects.{World, Replies, ◌>>=◌, lift, catching, ensuring, calling, command}
use pivotal.Outbound.Handlers.{
  SendMoneyInput, AcceptPartyInput, AcceptQuoteInput, send_money, accept_party, accept_quote,
  lookup_phase, quote_phase, transfer_phase, accept_party_locked, accept_quote_locked,
}
use pivotal.Outbound.Messages.{
  to_extension_list, is_home_extension, home_transaction_id_key, list_of, to_quotes_post_request,
  to_transfers_post_request,
}
use pivotal.Outbound.Steps.{
  OutboundSettings, Pattern, by_amount, build_key, with_lock, get_transfer_request, set_transfer,
  delete_transfer, assert_not_suspicious, ask_hub, report, field_value, lock, unlock, increment,
}
use pivotal.Outbound.Views.{view, view_of, absent, asks_quote, asks_transfer}
use pivotal.Outbound.Storing.{IsPlain}
use pivotal.Outbound.Runs.{
  Event, sends, accepts_party, accepts_quote, evicts, serve_all, Steps, serve_all-Steps,
}
use pivotal.Outbound.AtMostOnce.{serve_all-at_most_once}
use pivotal.Outbound.Exclusion.{takes, gives_up, attempts, lock_lem, handlers-busy, busy_error}
use pivotal.Outbound.Monitoring.{is_ok, try_once, after_attempts, after_attempts-passes}
use pivotal.Outbound.Translating.{to_fspiop_exception-type, to_extension_list_lem}
use pivotal.Outbound.Memory.{memory, memory-IsRedis}
use pivotal.Outbound.Checks.{
  validate_decimals, validate_fees, get_fsp_id, assert_source_can_act_for_payer, decimal_places,
}
use pivotal.Outbound.Answers.{to_payee_fsp_fee_amount}
use pivotal.Money.{normalize_amount, scale_of, match_decimal}

abbrev payer_info : PartyIdInfo
payer_info = record {
  party_id_type = codes "MSISDN";
  party_identifier = codes "95";
  party_sub_id_or_type = none;
  fsp_id = some (codes "A");
  extension_list = none;
}

abbrev payee_party : Party
payee_party = record {
  party_id_info = record payer_info { party_identifier = codes "96"; fsp_id = some (codes "B") };
  merchant_classification_code = none;
  name = none;
  personal_info = none;
  supported_currencies = none;
}

abbrev fsp_party : Text → Text → FspParty
fsp_party id fsp = record {
  initiator_type = none;
  id_type = codes "MSISDN";
  id_value = id;
  id_sub_value = none;
  display_name = none;
  first_name = none;
  middle_name = none;
  last_name = none;
  date_of_birth = none;
  merchant_classification_code = none;
  fsp_id = some fsp;
  extension_list = none;
}

abbrev settings : OutboundSettings
settings = record {
  allowed_decimal_places = 2;
  fees_mandatory = false;
  monitor_enabled = true;
  window_ms = 1000;
  threshold = 2;
  matching_fields = by_amount ∷ [];
}

abbrev all_well : {C : Type 0} → C → Replies C
all_well answer = record {
  own_token = codes "t";
  locking = none;
  reading = none;
  saving_home_id = none;
  request_audit = none;
  counting = none;
  hub = none;
  callback = ok answer;
  caching = none;
  response_audit = none;
  error_audit = none;
  deleting = none;
  releasing = none;
}

abbrev the_id : Text
the_id = codes "01"

abbrev new_transfer : SendMoneyInput
new_transfer = record {
  correlation_id = the_id;
  source = codes "A";
  request = record {
    home_transaction_id = none;
    from = fsp_party (codes "95") (codes "A");
    to = fsp_party (codes "96") (codes "B");
    amount_type = codes "SEND";
    currency = codes "MMK";
    amount = codes "5";
    transaction_type = codes "TRANSFER";
    sub_scenario = [];
    note = none;
  };
  created_at = codes "now";
}

abbrev quote_answer : QuotesIdPutResponse
quote_answer = record {
  transfer_amount = some (record { currency = codes "MMK"; amount = codes "5" });
  payee_receive_amount = none;
  payee_fsp_fee = some (record { currency = codes "MMK"; amount = codes "1" });
  ilp_packet = [];
  condition = [];
  expiration = [];
  extension_list = none;
}

abbrev party_accepted : AcceptPartyInput
party_accepted = record {
  transfer_id = the_id;
  accept_party = true;
  amount = codes "5";
  extension_list = none;
  request_source = none;
}

abbrev quote_accepted : AcceptQuoteInput
quote_accepted = record {
  transfer_id = the_id;
  accept_quote = true;
  request_source = some (codes "A");
  home_transaction_id = some (codes "h");
}

abbrev whole_run : List Event
whole_run =
    sends (all_well payee_party) new_transfer
    ∷ accepts_party (all_well quote_answer) party_accepted
    ∷ accepts_party (all_well quote_answer) party_accepted
    ∷ accepts_quote
        (all_well (record { transfer_state = codes "COMMITTED"; extension_list = none }))
        quote_accepted
    ∷ evicts (codes "02")
    ∷ accepts_quote
        (all_well (record { transfer_state = codes "COMMITTED"; extension_list = none }))
        quote_accepted
    ∷ []

abbrev empty_world : World memory
empty_world = record { store = []; calls = [] }

the_id-IsPlain : IsPlain the_id
the_id-IsPlain = record { no_lock = λ key. refl; no_counter = λ rest. refl }

-- The whole run asks the hub once for a quote and once for a transfer, and leaves nothing cached.
whole_run_sample : view_of the_id (serve_all settings whole_run empty_world) ≡ view absent 1 1
unfolding send_money accept_party accept_quote ◌>>=◌ lift catching ensuring calling command
    with_lock get_transfer_request set_transfer delete_transfer assert_not_suspicious ask_hub report
    acquire_lock release_lock resolve_destination to_transfer_request validate_decimals
    validate_fees get_fsp_id assert_source_can_act_for_payer to_quotes_post_request
    to_transfers_post_request to_payee_fsp_fee_amount to_optional_value normalize_amount scale_of
    trim decimal_places build_key field_value lock unlock increment lookup_phase quote_phase
    transfer_phase accept_party_locked accept_quote_locked match_decimal strip_zeros
whole_run_sample = refl

serve_all-Steps_example :
    Steps 1 (view absent 0 0) (view_of the_id (serve_all settings whole_run empty_world))
serve_all-Steps_example =
    serve_all-Steps memory-IsRedis settings the_id the_id-IsPlain whole_run
      (refl, (refl, (refl, (refl, (tt, (refl, tt)))))) empty_world

serve_all-at_most_once_example :
    (count (asks_quote the_id) (serve_all settings whole_run empty_world).calls ≤ 1)
    × (count (asks_transfer the_id) (serve_all settings whole_run empty_world).calls ≤ 1)
serve_all-at_most_once_example =
    serve_all-at_most_once memory-IsRedis settings the_id the_id-IsPlain whole_run
      (refl, (refl, (refl, (refl, (tt, (refl, tt)))))) empty_world refl

lock_lem_example :
    let during =
      attempts memory
        (takes the_id (codes "u") ∷ gives_up the_id (codes "u") ∷ [])
        (acquire_lock memory the_id (codes "t") []).0 in
    ((acquire_lock memory the_id (codes "t") []).1 ≡ some (codes "t"))
    × ((acquire_lock memory the_id (codes "v") during).1 ≡ none)
    × (memory.get (lock_key the_id) (release_lock memory the_id (codes "t") during) ≡ none)
lock_lem_example =
    lock_lem memory-IsRedis the_id (codes "t")
      (takes the_id (codes "u") ∷ gives_up the_id (codes "u") ∷ []) (codes "v") (refl, (refl, tt))
      [] refl

abbrev held_world : World memory
held_world = record { store = (lock_key the_id, token (codes "u")) ∷ []; calls = [] }

abbrev done_answer : TransfersIdPutResponse
done_answer = record { transfer_state = codes "COMMITTED"; extension_list = none }

handlers-busy_example :
    (accept_party settings (all_well quote_answer) party_accepted held_world
      ≡ (held_world, err (busy_error the_id)))
    × (accept_quote settings (all_well done_answer) quote_accepted held_world
        ≡ (held_world, err (busy_error the_id)))
handlers-busy_example =
    handlers-busy memory-IsRedis settings held_world (token (codes "u")) (all_well quote_answer)
      party_accepted (all_well done_answer) quote_accepted refl refl refl refl

abbrev payment : Pattern
payment = record {
  payer_fsp = codes "A";
  payer_id = codes "95";
  payee_fsp = codes "B";
  payee_id = codes "96";
  currency = codes "MMK";
  amount = codes "5";
}

after_attempts-passes_example :
    is_ok (try_once settings payment (after_attempts settings payment 2 empty_world)).1 ≡ ltb 2 2
after_attempts-passes_example =
    after_attempts-passes memory-IsRedis settings (refl, omega arith, omega arith) payment 2
      empty_world refl

abbrev limit_exception : FspiopException
limit_exception = exception_with_extensions (definition payee_limit_error) none

unknown_code : find_code (codes "9999") ≡ undefined
unfolding find_code error_code
unknown_code = refl

-- A code that names a member of every object is not unknown to the map of errors.
member_code : find_code (codes "constructor") ≡ object_member
unfolding find_code error_code
member_code = refl

to_fspiop_exception-type_example :
    ((to_fspiop_exception (fspiop_exception limit_exception)).error_definition.error_type
      ≡ payee_limit_error)
    × ((to_fspiop_exception
          (axios_error [] (some (error_code quote_expired)) none none)).error_definition.error_type
        ≡ quote_expired)
    × ((to_fspiop_exception
          (axios_error [] (some (codes "9999")) none none)).error_definition.error_type
        ≡ communication_error)
    × ((to_fspiop_exception (other_error [])).error_definition.error_type ≡ internal_server_error)
to_fspiop_exception-type_example =
    to_fspiop_exception-type limit_exception quote_expired [] none none (codes "9999") unknown_code

to_extension_list_lem_example :
    (filter is_home_extension (list_of (to_extension_list quote_answer (some (codes "h"))))
      ≡ record { key = home_transaction_id_key; value = codes "h" } ∷ [])
    × (filter
          (λ e. not (is_home_extension e))
          (list_of (to_extension_list quote_answer (some (codes "h"))))
        ≡ [])
    × (list_of (to_extension_list quote_answer none) ≡ [])
    × (to_extension_list quote_answer (some []) ≡ to_extension_list quote_answer none)
to_extension_list_lem_example = to_extension_list_lem quote_answer b'h' []
