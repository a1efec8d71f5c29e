-- ===== src/Outbound/Codes.antt =====
-- packages/shared/fspiop/exception: the kinds of errors of FSPIOP with their codes, their
-- descriptions and the table by code.
use pivotal.Base.{Option, none, some, List, [], ◌∷◌, find, any, if◌then◌else◌}
use pivotal.Text.{Text, codes}
use pivotal.Responses.Subjects.{text_eq}

-- An error type, which is also the name of its definition.
pub data FspiopErrorType : Type 0 where
  communication_error destination_communication_error generic_server_error : FspiopErrorType
  internal_server_error not_implemented service_currently_unavailable : FspiopErrorType
  server_timed_out server_busy generic_client_error : FspiopErrorType
  unacceptable_version_requested unknown_uri add_party_information_error : FspiopErrorType
  duplicate_reference_id generic_validation_error malformed_syntax : FspiopErrorType
  missing_mandatory_element too_many_elements too_large_payload : FspiopErrorType
  invalid_signature modified_request missing_extension_parameter : FspiopErrorType
  generic_id_not_found destination_fsp_error payer_fsp_id_not_found : FspiopErrorType
  payee_fsp_id_not_found party_not_found quote_id_not_found : FspiopErrorType
  transaction_request_id_not_found transaction_id_not_found transfer_id_not_found : FspiopErrorType
  bulk_quote_id_not_found bulk_transfer_id_not_found phone_number_mismatch : FspiopErrorType
  inactive_account generic_expired_error transaction_request_expired : FspiopErrorType
  quote_expired transfer_expired generic_payer_error : FspiopErrorType
  payer_fsp_insufficient_liquidity generic_payer_rejection payer_rejected_transaction_request :
      FspiopErrorType
  payer_fsp_unsupported_transaction_type payer_unsupported_currency payer_limit_error :
      FspiopErrorType
  suspicious_transaction_pattern payer_permission_error generic_payer_blocked_error :
      FspiopErrorType
  generic_payee_error payee_fsp_insufficient_liquidity generic_payee_rejection : FspiopErrorType
  payee_rejected_quote payee_fsp_unsupported_transaction_type payee_fsp_rejected_quote :
      FspiopErrorType
  payee_rejected_transaction payee_fsp_rejected_transaction payee_unsupported_currency :
      FspiopErrorType
  payee_limit_error payee_permission_error rounding_value_error : FspiopErrorType
  generic_payee_blocked_error : FspiopErrorType

unfoldable pub error_code : FspiopErrorType → Text
error_code communication_error = codes "1000"
error_code destination_communication_error = codes "1001"
error_code generic_server_error = codes "2000"
error_code internal_server_error = codes "2001"
error_code not_implemented = codes "2002"
error_code service_currently_unavailable = codes "2003"
error_code server_timed_out = codes "2004"
error_code server_busy = codes "2005"
error_code generic_client_error = codes "3000"
error_code unacceptable_version_requested = codes "3001"
error_code unknown_uri = codes "3002"
error_code add_party_information_error = codes "3003"
error_code duplicate_reference_id = codes "3041"
error_code generic_validation_error = codes "3100"
error_code malformed_syntax = codes "3101"
error_code missing_mandatory_element = codes "3102"
error_code too_many_elements = codes "3103"
error_code too_large_payload = codes "3104"
error_code invalid_signature = codes "3105"
error_code modified_request = codes "3106"
error_code missing_extension_parameter = codes "3107"
error_code generic_id_not_found = codes "3200"
error_code destination_fsp_error = codes "3201"
error_code payer_fsp_id_not_found = codes "3202"
error_code payee_fsp_id_not_found = codes "3203"
error_code party_not_found = codes "3204"
error_code quote_id_not_found = codes "3205"
error_code transaction_request_id_not_found = codes "3206"
error_code transaction_id_not_found = codes "3207"
error_code transfer_id_not_found = codes "3208"
error_code bulk_quote_id_not_found = codes "3209"
error_code bulk_transfer_id_not_found = codes "3210"
error_code phone_number_mismatch = codes "3241"
error_code inactive_account = codes "3242"
error_code generic_expired_error = codes "3300"
error_code transaction_request_expired = codes "3301"
error_code quote_expired = codes "3302"
error_code transfer_expired = codes "3303"
error_code generic_payer_error = codes "4000"
error_code payer_fsp_insufficient_liquidity = codes "4001"
error_code generic_payer_rejection = codes "4100"
error_code payer_rejected_transaction_request = codes "4101"
error_code payer_fsp_unsupported_transaction_type = codes "4102"
error_code payer_unsupported_currency = codes "4103"
error_code payer_limit_error = codes "4200"
error_code suspicious_transaction_pattern = codes "4240"
error_code payer_permission_error = codes "4300"
error_code generic_payer_blocked_error = codes "4400"
error_code generic_payee_error = codes "5000"
error_code payee_fsp_insufficient_liquidity = codes "5001"
error_code generic_payee_rejection = codes "5100"
error_code payee_rejected_quote = codes "5101"
error_code payee_fsp_unsupported_transaction_type = codes "5102"
error_code payee_fsp_rejected_quote = codes "5103"
error_code payee_rejected_transaction = codes "5104"
error_code payee_fsp_rejected_transaction = codes "5105"
error_code payee_unsupported_currency = codes "5106"
error_code payee_limit_error = codes "5200"
error_code payee_permission_error = codes "5300"
error_code rounding_value_error = codes "5241"
error_code generic_payee_blocked_error = codes "5400"

unfoldable pub description_of : FspiopErrorType → Text
description_of communication_error = codes "Generic communication error."
description_of destination_communication_error =
    codes
      "Destination of the request failed to be reached. This usually indicates that a Peer FSP failed to respond from an intermediate entity."
description_of generic_server_error = codes "Used to avoid disclosing private details."
description_of internal_server_error = codes "Unexpected exception or bug."
description_of not_implemented = codes "Service not supported by server."
description_of service_currently_unavailable =
    codes "Service temporarily unavailable (e.g. maintenance)."
description_of server_timed_out = codes "Callback not received within timeout period."
description_of server_busy = codes "Server rejecting requests due to overload."
description_of generic_client_error = codes "Used to avoid disclosing private client errors."
description_of unacceptable_version_requested = codes "Client requested unsupported API version."
description_of unknown_uri = codes "Provided URI not recognized by server."
description_of add_party_information_error =
    codes "Error occurred while adding/updating party info."
description_of generic_validation_error = codes "Generic format error."
description_of malformed_syntax = codes "Invalid parameter format (e.g. amount '5.ABC')."
description_of missing_mandatory_element = codes "Required element in data model is missing."
description_of too_many_elements = codes "Array exceeds allowed maximum."
description_of too_large_payload = codes "Request payload exceeds allowed size."
description_of invalid_signature = codes "Payload signature invalid or modified."
description_of modified_request = codes "Parameters differ from a previously processed request."
description_of missing_extension_parameter = codes "Required extension parameter not provided."
description_of generic_id_not_found = codes "Generic identifier error."
description_of destination_fsp_error = codes "Destination FSP cannot be found or doesn't exist."
description_of payer_fsp_id_not_found = codes "Payer FSP ID not recognized."
description_of payee_fsp_id_not_found = codes "Payee FSP ID not recognized."
description_of party_not_found = codes "Provided party identifier not found."
description_of quote_id_not_found = codes "Quote ID not found on server."
description_of transaction_request_id_not_found = codes "ID not found for transaction request."
description_of transaction_id_not_found = codes "Transaction ID not found."
description_of transfer_id_not_found = codes "Transfer ID not found."
description_of bulk_quote_id_not_found = codes "Bulk quote ID not found."
description_of bulk_transfer_id_not_found = codes "Bulk transfer ID not found."
description_of generic_expired_error = codes "Generic expired object error (non-specific)."
description_of transaction_request_expired = codes "Transaction request has already expired."
description_of quote_expired = codes "The quote is no longer valid."
description_of transfer_expired = codes "The transfer has already expired."
description_of generic_payer_error = codes "Used for private payer-related errors."
description_of payer_fsp_insufficient_liquidity = codes "Payer-s FSP lacks funds."
description_of generic_payer_rejection = codes "Payer or payer FSP rejected the request."
description_of payer_rejected_transaction_request = codes "Payer rejected the transaction request."
description_of payer_fsp_unsupported_transaction_type =
    codes "Transaction type not supported by Payer FSP."
description_of payer_unsupported_currency = codes "Payer does not support requested currency."
description_of payer_limit_error = codes "Payment amount/frequency exceeds limits."
description_of suspicious_transaction_pattern = codes "Repetitive transaction pattern blocked."
description_of payer_permission_error = codes "Payer lacks permission to perform operation."
description_of generic_payer_blocked_error =
    codes "Payer is blocked or failed regulatory screening."
description_of generic_payee_error = codes "Generic error related to payee or payee FSP."
description_of payee_fsp_insufficient_liquidity = codes "Payee FSP lacks sufficient liquidity."
description_of generic_payee_rejection = codes "Payee or payee FSP rejected request."
description_of payee_rejected_quote = codes "Payee unwilling to proceed after quote."
description_of payee_fsp_unsupported_transaction_type =
    codes "Payee FSP rejects unsupported transaction type."
description_of payee_fsp_rejected_quote = codes "Payee FSP unwilling to continue after quote."
description_of payee_rejected_transaction = codes "Payee rejected the transaction."
description_of payee_fsp_rejected_transaction = codes "Payee FSP rejected the transaction."
description_of payee_unsupported_currency = codes "Payee does not support requested currency."
description_of payee_limit_error = codes "Receiving amount/frequency exceeds allowed limits."
description_of payee_permission_error = codes "Payee lacks permission to perform operation."
description_of generic_payee_blocked_error =
    codes "Payee is blocked or failed regulatory screening."
description_of rounding_value_error =
    codes "Amount is invalid. Please enter the format specified by the service provider."
description_of inactive_account = codes "Account is not active."
description_of phone_number_mismatch =
    codes
      "There was an error with your account number and phone number combination. Please contact your DFSP to verify the numbers."
description_of duplicate_reference_id = codes "Duplicate reference ID."

-- `ERROR_MAP`, in its order.
abbrev pub error_map : List FspiopErrorType
error_map =
    communication_error ∷ destination_communication_error ∷ generic_server_error
    ∷ internal_server_error ∷ not_implemented ∷ service_currently_unavailable ∷ server_timed_out
    ∷ server_busy ∷ generic_client_error ∷ unacceptable_version_requested ∷ unknown_uri
    ∷ add_party_information_error ∷ generic_validation_error ∷ malformed_syntax
    ∷ missing_mandatory_element ∷ too_many_elements ∷ too_large_payload ∷ invalid_signature
    ∷ modified_request ∷ missing_extension_parameter ∷ generic_id_not_found ∷ destination_fsp_error
    ∷ payer_fsp_id_not_found ∷ payee_fsp_id_not_found ∷ party_not_found ∷ quote_id_not_found
    ∷ transaction_request_id_not_found ∷ transaction_id_not_found ∷ transfer_id_not_found
    ∷ bulk_quote_id_not_found ∷ bulk_transfer_id_not_found ∷ generic_expired_error
    ∷ transaction_request_expired ∷ quote_expired ∷ transfer_expired ∷ generic_payer_error
    ∷ payer_fsp_insufficient_liquidity ∷ generic_payer_rejection
    ∷ payer_rejected_transaction_request ∷ payer_fsp_unsupported_transaction_type
    ∷ payer_unsupported_currency ∷ payer_limit_error ∷ suspicious_transaction_pattern
    ∷ payer_permission_error ∷ generic_payer_blocked_error ∷ generic_payee_error
    ∷ payee_fsp_insufficient_liquidity ∷ generic_payee_rejection ∷ payee_rejected_quote
    ∷ payee_fsp_unsupported_transaction_type ∷ payee_fsp_rejected_quote ∷ payee_rejected_transaction
    ∷ payee_fsp_rejected_transaction ∷ payee_unsupported_currency ∷ payee_limit_error
    ∷ payee_permission_error ∷ generic_payee_blocked_error ∷ rounding_value_error ∷ inactive_account
    ∷ phone_number_mismatch ∷ duplicate_reference_id ∷ []

-- The members that every object has, which a lookup by name finds too.
abbrev pub object_members : List Text
object_members =
    codes "constructor"
    ∷ codes "toString"
    ∷ codes "toLocaleString"
    ∷ codes "valueOf"
    ∷ codes "hasOwnProperty"
    ∷ codes "isPrototypeOf"
    ∷ codes "propertyIsEnumerable"
    ∷ codes "__proto__"
    ∷ codes "__defineGetter__"
    ∷ codes "__defineSetter__"
    ∷ codes "__lookupGetter__"
    ∷ codes "__lookupSetter__"
    ∷ []

-- What `ERROR_MAP[code]` is: undefined, a member of every object, or a definition of the map.
pub data Lookup : Type 0 where
  undefined object_member : Lookup
  defined : FspiopErrorType → Lookup

abbrev or_inherited : Option FspiopErrorType → Text → Lookup
or_inherited (some t) code = defined t
or_inherited none code = if any (text_eq code) object_members then object_member else undefined

-- `FspiopErrors.find(code)`
unfoldable pub find_code : Text → Lookup
unfolding error_code
find_code code = or_inherited (find (λ t. text_eq (error_code t) code) error_map) code

-- The definition that a lookup gives. The code of an answer of the hub is taken not to name a
-- member of every object, so the second case does not arise.
abbrev pub type_of_lookup : Lookup → Option FspiopErrorType
type_of_lookup undefined = none
type_of_lookup object_member = none
type_of_lookup (defined t) = some t

unfoldable pub find_type : Text → Option FspiopErrorType
unfolding find_code
find_type code = type_of_lookup (find_code code)
