-- ===== src/Outbound/Handlers.antt =====
-- packages/core/outbound/domain/command: post-send-money.handler.ts, put-accept-party.handler.ts
-- and put-accept-quote.handler.ts.
use pivotal.Base.{ℕ, Bool, true, false, not, Option, none, some, List, ◌++◌, Result, ok, throw_if}
use pivotal.Text.{Text, codes}
use pivotal.Money.{normalize_amount}
use pivotal.Outbound.Codes.{
  generic_client_error, payer_rejected_transaction_request, generic_payer_rejection,
}
use pivotal.Outbound.Errors.{Extension, Thrown, fspiop_exception, fspiop_error, to_fspiop_exception}
use pivotal.Outbound.Parties.{
  Party, Money, QuotesIdPutResponse, TransfersIdPutResponse, SendMoneyRequest, TransferRequest,
  to_optional_value, resolve_destination, to_transfer_request,
}
use pivotal.Outbound.Redis.{Redis}
use pivotal.Outbound.Effects.{
  parties, quotes, transfers, request, response, QuotesPostRequest, TransfersPostRequest,
  got_parties, posted_quotes, posted_transfers, Replies, Action, ◌>>=◌, ◌>>◌, lift, catching,
}
use pivotal.Outbound.Checks.{
  validate_decimals, validate_fees, get_fsp_id, assert_source_can_act_for_payer, or_nothing,
}
use pivotal.Outbound.Answers.{
  to_payee_fsp_fee_amount, SendMoneyResponse, waiting_for_party_acceptance,
  waiting_for_quote_acceptance, to_response, final_state,
}
use pivotal.Outbound.Messages.{to_quotes_post_request, to_transfers_post_request, transfer_routing}
use pivotal.Outbound.Steps.{
  OutboundSettings, Pattern, get_transfer_request, set_transfer, delete_transfer,
  assert_not_suspicious, with_lock, report, ask_hub, audited,
}

pub record SendMoneyInput : Type 0 where
  pub correlation_id : Text
  pub source : Text
  pub request : SendMoneyRequest
  -- `createdAt.toISOString()`
  pub created_at : Text

pub record AcceptPartyInput : Type 0 where
  pub transfer_id : Text
  pub accept_party : Bool
  pub amount : Text
  pub extension_list : Option (List Extension)
  pub request_source : Option Text

pub record AcceptQuoteInput : Type 0 where
  pub transfer_id : Text
  pub accept_quote : Bool
  pub request_source : Option Text
  pub home_transaction_id : Option Text

abbrev pub is_there : {A : Type 0} → Option A → Bool
is_there none = false
is_there (some a) = true

unfoldable pub with_home_id : Option Text → TransferRequest → TransferRequest
with_home_id none t = t
with_home_id (some home) t = record t { home_transaction_id = some home }

-- The handler checks the amount of the request to be posted where there is one.
abbrev pub check_amount : ℕ → Option Money → Result Thrown (Unit {0})
check_amount allowed none = ok tt
check_amount allowed (some money) = validate_decimals allowed money.amount

module _ {R : Redis} (settings : OutboundSettings) where
  -- The part of `executeLocked` of an accepted party inside its `try`.
  unfoldable pub quote_phase :
      Replies QuotesIdPutResponse
      → AcceptPartyInput
      → TransferRequest
      → Text
      → Text
      → QuotesPostRequest
      → Action R (SendMoneyResponse × QuotesIdPutResponse)
  quote_phase replies input t source destination body = do
    lift (
        throw_if (not input.accept_party) (
          fspiop_error payer_rejected_transaction_request
            (codes "Payer rejected party confirmation.")))
    assert_not_suspicious replies.counting settings pattern
    callback ←
        ask_hub replies quotes body.quote_id (posted_quotes source destination body)
          (λ e. fspiop_exception (to_fspiop_exception e))
    let quoted = record t { quotes = some callback; transfer = none }
    fee ← lift (to_payee_fsp_fee_amount callback t.currency)
    set_transfer replies.caching input.transfer_id quoted
    audited replies.response_audit quotes response input.transfer_id source destination
    lift (ok (to_response quoted waiting_for_quote_acceptance callback.extension_list, callback))
    where
      pattern : Pattern
      pattern = record {
        payer_fsp = source;
        payer_id = t.payer.party_id_info.party_identifier;
        payee_fsp = destination;
        payee_id = t.payee.party_id_info.party_identifier;
        currency = t.currency;
        amount = t.amount;
      }

  unfoldable pub accept_party_locked :
      Replies QuotesIdPutResponse
      → AcceptPartyInput
      → Action R (SendMoneyResponse × QuotesIdPutResponse)
  unfolding quote_phase
  accept_party_locked replies input = do
    t ← get_transfer_request replies.reading id
    lift (
        throw_if (is_there t.quotes) (
          fspiop_error generic_client_error (
            codes "Quote already completed for transfer "
            ++ id
            ++ codes "; duplicate acceptParty ignored.")))
    source ← lift (get_fsp_id t.payer (codes "payer") (codes "quote"))
    lift (assert_source_can_act_for_payer input.request_source source)
    extensions ← lift (
        validate_fees settings.fees_mandatory settings.allowed_decimal_places input.accept_party
          input.extension_list)
    let confirmed = record t { amount = normalize_amount input.amount }
    lift (validate_decimals settings.allowed_decimal_places confirmed.amount)
    destination ← lift (get_fsp_id t.payee (codes "payee") (codes "quote"))
    let body = to_quotes_post_request id confirmed extensions
    audited replies.request_audit quotes request id source destination
    catching (quote_phase replies input confirmed source destination body)
        (report replies quotes id source destination)
    where
      id : Text
      id = input.transfer_id

  unfoldable pub accept_party :
      Replies QuotesIdPutResponse
      → AcceptPartyInput
      → Action R (SendMoneyResponse × QuotesIdPutResponse)
  unfolding accept_party_locked
  accept_party replies input =
      with_lock replies input.transfer_id (accept_party_locked replies input)

  -- The part of `executeLocked` of an accepted quote inside its `try`.
  unfoldable pub transfer_phase :
      Replies TransfersIdPutResponse
      → AcceptQuoteInput
      → TransferRequest
      → Text
      → Text
      → TransfersPostRequest
      → Action R (SendMoneyResponse × TransfersIdPutResponse)
  transfer_phase replies input t source destination body = do
    lift (
        throw_if (not input.accept_quote)
          (fspiop_error generic_payer_rejection (codes "Payer rejected quote confirmation.")))
    callback ←
        ask_hub replies transfers input.transfer_id (posted_transfers source destination body)
          (λ e. fspiop_exception (to_fspiop_exception e))
    let done = record t { transfer = some callback }
    audited replies.response_audit transfers response input.transfer_id source destination
    delete_transfer replies.deleting input.transfer_id
    lift (
        ok (
          to_response done (final_state callback.transfer_state) callback.extension_list,
          callback,
        ))

  unfoldable pub save_home_id :
      Option Thrown → Option Text → Text → TransferRequest → Action R (Unit {0})
  save_home_id answer none id t = lift (ok tt)
  save_home_id answer (some home) id t = set_transfer answer id t

  unfoldable pub accept_quote_locked :
      Replies TransfersIdPutResponse
      → AcceptQuoteInput
      → Action R (SendMoneyResponse × TransfersIdPutResponse)
  unfolding transfer_phase with_home_id save_home_id
  accept_quote_locked replies input = do
    t ← get_transfer_request replies.reading id
    lift (
        throw_if (is_there t.transfer) (
          fspiop_error generic_client_error (
            codes "Transfer " ++ id ++ codes " already completed; duplicate acceptQuote ignored.")))
    source ← lift (get_fsp_id t.payer (codes "payer") transfer_routing)
    lift (assert_source_can_act_for_payer input.request_source source)
    let named = with_home_id input.home_transaction_id t
    save_home_id replies.saving_home_id input.home_transaction_id id named
    destination ← lift (get_fsp_id t.payee (codes "payee") transfer_routing)
    body ← lift (to_transfers_post_request id named)
    lift (check_amount settings.allowed_decimal_places body.amount)
    audited replies.request_audit transfers request id source destination
    catching (transfer_phase replies input named source destination body)
        (report replies transfers id source destination)
    where
      id : Text
      id = input.transfer_id

  unfoldable pub accept_quote :
      Replies TransfersIdPutResponse
      → AcceptQuoteInput
      → Action R (SendMoneyResponse × TransfersIdPutResponse)
  unfolding accept_quote_locked
  accept_quote replies input =
      with_lock replies input.transfer_id (accept_quote_locked replies input)

  -- The part of `execute` of a new transfer inside its `try`.
  unfoldable pub lookup_phase :
      Replies Party → SendMoneyInput → Action R (SendMoneyResponse × Party)
  lookup_phase replies input = do
    audited replies.request_audit parties request input.correlation_id input.source
        (or_nothing destination)
    callback ←
        ask_hub replies parties input.request.to.id_value
          (got_parties input.source destination input.request.to.id_type input.request.to.id_value
            (to_optional_value input.request.to.id_sub_value))
          (λ e. e)
    found ← lift (resolve_destination callback destination)
    let t = to_transfer_request input.request found.0 input.correlation_id input.created_at
    set_transfer replies.caching input.correlation_id t
    audited replies.response_audit parties response input.correlation_id input.source found.1
    lift (ok (to_response t waiting_for_party_acceptance none, found.0))
    where
      destination : Option Text
      destination = to_optional_value input.request.to.fsp_id

  unfoldable pub send_money : Replies Party → SendMoneyInput → Action R (SendMoneyResponse × Party)
  unfolding lookup_phase
  send_money replies input = do
    lift (validate_decimals settings.allowed_decimal_places input.request.amount)
    catching (lookup_phase replies input) (
        report replies parties input.correlation_id input.source
          (or_nothing (to_optional_value input.request.to.fsp_id)))
