-- ===== src/Outbound/Translating.antt =====
-- What becomes of the code of an error, and of the extensions of a quote.
use pivotal.Base.{
  ℕ, ◌≡◌, refl, ap, ◌∙◌, Bool, true, false, not, Option, none, some, List, [], ◌∷◌, ◌++◌, inl, inr,
  if◌then◌else◌, Bool-cases, filter, arith,
}
use pivotal.Text.{Text}
use pivotal.Outbound.Codes.{
  FspiopErrorType, error_code, find_type, find_code, undefined, type_of_lookup, communication_error,
  destination_communication_error, generic_server_error, internal_server_error, not_implemented,
  service_currently_unavailable, server_timed_out, server_busy, generic_client_error,
  unacceptable_version_requested, unknown_uri, add_party_information_error, duplicate_reference_id,
  generic_validation_error, malformed_syntax, missing_mandatory_element, too_many_elements,
  too_large_payload, invalid_signature, modified_request, missing_extension_parameter,
  generic_id_not_found, destination_fsp_error, payer_fsp_id_not_found, payee_fsp_id_not_found,
  party_not_found, quote_id_not_found, transaction_request_id_not_found, transaction_id_not_found,
  transfer_id_not_found, bulk_quote_id_not_found, bulk_transfer_id_not_found, phone_number_mismatch,
  inactive_account, generic_expired_error, transaction_request_expired, quote_expired,
  transfer_expired, generic_payer_error, payer_fsp_insufficient_liquidity, generic_payer_rejection,
  payer_rejected_transaction_request, payer_fsp_unsupported_transaction_type,
  payer_unsupported_currency, payer_limit_error, suspicious_transaction_pattern,
  payer_permission_error, generic_payer_blocked_error, generic_payee_error,
  payee_fsp_insufficient_liquidity, generic_payee_rejection, payee_rejected_quote,
  payee_fsp_unsupported_transaction_type, payee_fsp_rejected_quote, payee_rejected_transaction,
  payee_fsp_rejected_transaction, payee_unsupported_currency, payee_limit_error,
  payee_permission_error, rounding_value_error, generic_payee_blocked_error,
}
use pivotal.Outbound.Errors.{
  Extension, axios_error, fspiop_exception, other_error, FspiopException, to_fspiop_exception,
  translate, normalize, exception_with_message, definition_or, definition,
}
use pivotal.Outbound.Parties.{QuotesIdPutResponse}
use pivotal.Outbound.Messages.{
  to_extension_list, is_home_extension, list_of, if_any, home_transaction_id_key,
}
use pivotal.Text.Trim.{trim_of_Printable}
use mathlib.Core.List.{append-nil}

-- Every error type is found under its code.
find_type-error_code : (t : FspiopErrorType) → find_type (error_code t) ≡ some t
unfolding find_type find_code error_code
find_type-error_code communication_error = refl
find_type-error_code destination_communication_error = refl
find_type-error_code generic_server_error = refl
find_type-error_code internal_server_error = refl
find_type-error_code not_implemented = refl
find_type-error_code service_currently_unavailable = refl
find_type-error_code server_timed_out = refl
find_type-error_code server_busy = refl
find_type-error_code generic_client_error = refl
find_type-error_code unacceptable_version_requested = refl
find_type-error_code unknown_uri = refl
find_type-error_code add_party_information_error = refl
find_type-error_code duplicate_reference_id = refl
find_type-error_code generic_validation_error = refl
find_type-error_code malformed_syntax = refl
find_type-error_code missing_mandatory_element = refl
find_type-error_code too_many_elements = refl
find_type-error_code too_large_payload = refl
find_type-error_code invalid_signature = refl
find_type-error_code modified_request = refl
find_type-error_code missing_extension_parameter = refl
find_type-error_code generic_id_not_found = refl
find_type-error_code destination_fsp_error = refl
find_type-error_code payer_fsp_id_not_found = refl
find_type-error_code payee_fsp_id_not_found = refl
find_type-error_code party_not_found = refl
find_type-error_code quote_id_not_found = refl
find_type-error_code transaction_request_id_not_found = refl
find_type-error_code transaction_id_not_found = refl
find_type-error_code transfer_id_not_found = refl
find_type-error_code bulk_quote_id_not_found = refl
find_type-error_code bulk_transfer_id_not_found = refl
find_type-error_code phone_number_mismatch = refl
find_type-error_code inactive_account = refl
find_type-error_code generic_expired_error = refl
find_type-error_code transaction_request_expired = refl
find_type-error_code quote_expired = refl
find_type-error_code transfer_expired = refl
find_type-error_code generic_payer_error = refl
find_type-error_code payer_fsp_insufficient_liquidity = refl
find_type-error_code generic_payer_rejection = refl
find_type-error_code payer_rejected_transaction_request = refl
find_type-error_code payer_fsp_unsupported_transaction_type = refl
find_type-error_code payer_unsupported_currency = refl
find_type-error_code payer_limit_error = refl
find_type-error_code suspicious_transaction_pattern = refl
find_type-error_code payer_permission_error = refl
find_type-error_code generic_payer_blocked_error = refl
find_type-error_code generic_payee_error = refl
find_type-error_code payee_fsp_insufficient_liquidity = refl
find_type-error_code generic_payee_rejection = refl
find_type-error_code payee_rejected_quote = refl
find_type-error_code payee_fsp_unsupported_transaction_type = refl
find_type-error_code payee_fsp_rejected_quote = refl
find_type-error_code payee_rejected_transaction = refl
find_type-error_code payee_fsp_rejected_transaction = refl
find_type-error_code payee_unsupported_currency = refl
find_type-error_code payee_limit_error = refl
find_type-error_code payee_permission_error = refl
find_type-error_code rounding_value_error = refl
find_type-error_code generic_payee_blocked_error = refl

type_of : FspiopException → FspiopErrorType
type_of e = e.error_definition.error_type

-- An exception keeps its error type when a handler translates it, however often, an error answer of
-- the hub with the code of a type becomes one of this type, one with a code that the map of errors
-- gives nothing for, so one that is no member of every object either, a communication error, and any
-- other error an internal server error.
pub to_fspiop_exception-type :
    (e : FspiopException) (t : FspiopErrorType) (message : Text) (desc : Option Text)
    (extensions : Option (List Extension)) (unknown : Text)
    → find_code unknown ≡ undefined
    → ((to_fspiop_exception (fspiop_exception e)).error_definition.error_type
        ≡ e.error_definition.error_type)
      × ((to_fspiop_exception
            (axios_error message (some (error_code t)) desc extensions)).error_definition.error_type
          ≡ t)
      × ((to_fspiop_exception
            (axios_error message (some unknown) desc extensions)).error_definition.error_type
          ≡ communication_error)
      × ((to_fspiop_exception (other_error message)).error_definition.error_type
          ≡ internal_server_error)
unfolding to_fspiop_exception translate normalize exception_with_message find_type
to_fspiop_exception-type e t message desc extensions unknown h = (
  ap found_type (find_type-error_code e.error_definition.error_type),
  ap (found_or communication_error) (find_type-error_code t),
  ap (λ l. found_or communication_error (type_of_lookup l)) h,
  ap found_type (find_type-error_code internal_server_error),
)
  where
    found_or : FspiopErrorType → Option FspiopErrorType → FspiopErrorType
    found_or fallback o =
        (definition_or (elim o [ none ↦ none | some t ↦ some (definition t) ]) fallback).error_type

    found_type : Option FspiopErrorType → FspiopErrorType
    found_type = found_or generic_validation_error

home_is_home :
    (id : Text) → is_home_extension (record { key = home_transaction_id_key; value = id }) ≡ true
home_is_home id =
    rw
      (trim_of_Printable home_transaction_id_key (
        refl,
        (
          refl,
          (
            refl,
            (
              refl,
              (
                refl,
                (
                  refl,
                  (
                    refl,
                    (
                      refl,
                      (refl, (refl, (refl, (refl, (refl, (refl, (refl, (refl, (refl, tt))))))))),
                    ),
                  ),
                ),
              ),
            ),
          ),
        ),
      ))
      refl

list_of-if_any : (es : List Extension) → list_of (if_any es) ≡ es
list_of-if_any [] = refl
list_of-if_any (e ∷ es) = refl

filter-append :
    (p : Extension → Bool) (xs ys : List Extension)
    → filter p (xs ++ ys) ≡ filter p xs ++ filter p ys
filter-append p [] ys = refl
filter-append p (x ∷ xs) ys = ground (arith, filter-append p xs ys)

filter_twice :
    (p q : Extension → Bool)
    → ((e : Extension) → q e ≡ not (p e))
    → (xs : List Extension) → (filter p (filter q xs) ≡ []) × (filter q (filter q xs) ≡ filter q xs)
filter_twice p q opposite [] = (refl, refl)
filter_twice p q opposite (x ∷ xs) = elim (Bool-cases (p x)) [
  | inl here ↦
      let off : q x ≡ false = opposite x ∙ ap not here in rw off (filter_twice p q opposite xs)
  | inr there ↦
      let on : q x ≡ true = opposite x ∙ ap not there in
      (
        rw (on, there) (filter_twice p q opposite xs).0,
        rw (on, on) (ap (◌∷◌ x) (filter_twice p q opposite xs).1),
      )
]

-- The request for a transfer carries the home transaction id exactly once, under its key, whatever
-- extensions with this key, in any writing, the quote has, and keeps all other extensions of the
-- quote in their order. Where there is no id, or an empty one, it carries none.
pub to_extension_list_lem :
    (q : QuotesIdPutResponse) (c : ℕ) (id : Text)
    → (filter is_home_extension (list_of (to_extension_list q (some (c ∷ id))))
        ≡ record { key = home_transaction_id_key; value = c ∷ id } ∷ [])
      × (filter (λ e. not (is_home_extension e)) (list_of (to_extension_list q (some (c ∷ id))))
          ≡ filter (λ e. not (is_home_extension e)) (list_of q.extension_list))
      × (list_of (to_extension_list q none)
          ≡ filter (λ e. not (is_home_extension e)) (list_of q.extension_list))
      × (to_extension_list q (some []) ≡ to_extension_list q none)
unfolding to_extension_list
to_extension_list_lem q c id = (
  ap (filter is_home_extension) (list_of-if_any _)
      ∙ filter-append is_home_extension others (home ∷ [])
      ∙ ap (λ xs. xs ++ filter is_home_extension (home ∷ [])) twice.0
      ∙ ap (λ b. if b then home ∷ [] else []) (home_is_home (c ∷ id)),
  ap (filter not_home) (list_of-if_any _)
      ∙ filter-append not_home others (home ∷ [])
      ∙ ap (λ xs. xs ++ filter not_home (home ∷ [])) twice.1
      ∙ ap (λ b. others ++ (if not b then home ∷ [] else [])) (home_is_home (c ∷ id))
      ∙ append-nil others,
  list_of-if_any _ ∙ append-nil others,
  refl,
)
  where
    home : Extension
    home = record { key = home_transaction_id_key; value = c ∷ id }

    not_home : Extension → Bool
    not_home e = not (is_home_extension e)

    others : List Extension
    others = filter not_home (list_of q.extension_list)

    twice : (filter is_home_extension others ≡ []) × (filter not_home others ≡ others)
    twice = filter_twice is_home_extension not_home (λ e. refl) (list_of q.extension_list)
