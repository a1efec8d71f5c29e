-- ===== src/Outbound/Parties.antt =====
-- packages/core/outbound/domain: the data of a transfer, and how post-send-money.handler.ts makes
-- the cached request from the request and from the answer of the hub. Values of enumerations of
-- texts are these texts.
use pivotal.Base.{Option, none, some, List, [], ◌∷◌, if◌then◌else◌, Result, ok, err}
use pivotal.Text.{Text, codes, trim}
use pivotal.Money.{is_empty}
use pivotal.Outbound.Codes.{missing_mandatory_element}
use pivotal.Outbound.Errors.{Extension, Thrown, fspiop_error}

pub record PartyIdInfo : Type 0 where
  pub party_id_type : Text
  pub party_identifier : Text
  pub party_sub_id_or_type : Option Text
  pub fsp_id : Option Text
  pub extension_list : Option (List Extension)

pub record PartyComplexName : Type 0 where
  pub first_name : Option Text
  pub middle_name : Option Text
  pub last_name : Option Text

pub record PartyPersonalInfo : Type 0 where
  pub complex_name : Option PartyComplexName
  pub date_of_birth : Option Text

pub record Party : Type 0 where
  pub party_id_info : PartyIdInfo
  pub merchant_classification_code : Option Text
  pub name : Option Text
  pub personal_info : Option PartyPersonalInfo
  pub supported_currencies : Option (List Text)

pub record FspParty : Type 0 where
  pub initiator_type : Option Text
  pub id_type : Text
  pub id_value : Text
  pub id_sub_value : Option Text
  pub display_name : Option Text
  pub first_name : Option Text
  pub middle_name : Option Text
  pub last_name : Option Text
  pub date_of_birth : Option Text
  pub merchant_classification_code : Option Text
  pub fsp_id : Option Text
  pub extension_list : Option (List Extension)

pub record SendMoneyRequest : Type 0 where
  pub home_transaction_id : Option Text
  pub from : FspParty
  pub to : FspParty
  pub amount_type : Text
  pub currency : Text
  pub amount : Text
  pub transaction_type : Text
  pub sub_scenario : Text
  pub note : Option Text

pub record Money : Type 0 where
  pub currency : Text
  pub amount : Text

pub record QuotesIdPutResponse : Type 0 where
  pub transfer_amount : Option Money
  pub payee_receive_amount : Option Money
  pub payee_fsp_fee : Option Money
  pub ilp_packet : Text
  pub condition : Text
  pub expiration : Text
  pub extension_list : Option (List Extension)

pub record TransfersIdPutResponse : Type 0 where
  pub transfer_state : Text
  pub extension_list : Option (List Extension)

pub record TransferRequest : Type 0 where
  pub payer : Party
  pub payee : Party
  pub quotes : Option QuotesIdPutResponse
  pub transfer : Option TransfersIdPutResponse
  pub transfer_id : Text
  pub home_transaction_id : Option Text
  pub initiated_timestamp : Text
  pub from : FspParty
  pub to : FspParty
  pub amount_type : Text
  pub currency : Text
  pub amount : Text
  pub transaction_type : Text
  pub sub_scenario : Text
  pub note : Option Text
  pub supported_currencies : Option (List Text)

abbrev pub non_empty : Text → Option Text
non_empty s = if is_empty s then none else some s

-- `toOptionalValue`, and `toSubId`, which is the same.
unfoldable pub to_optional_value : Option Text → Option Text
to_optional_value none = none
to_optional_value (some value) = non_empty (trim value)

abbrev pub complex_name_of : Option PartyPersonalInfo → Option PartyComplexName
complex_name_of none = none
complex_name_of (some info) = info.complex_name

abbrev pub date_of_birth_of : Option PartyPersonalInfo → Option Text
date_of_birth_of none = none
date_of_birth_of (some info) = info.date_of_birth

abbrev pub name_part : (PartyComplexName → Option Text) → Option PartyComplexName → Option Text
name_part part none = none
name_part part (some name) = part name

unfoldable pub to_fsp_party : Party → FspParty
unfolding to_optional_value
to_fsp_party party = record {
  initiator_type = none;
  id_type = info.party_id_type;
  id_value = info.party_identifier;
  id_sub_value = to_optional_value info.party_sub_id_or_type;
  display_name = party.name;
  first_name = name_part (λ n. n.first_name) (complex_name_of party.personal_info);
  middle_name = name_part (λ n. n.middle_name) (complex_name_of party.personal_info);
  last_name = name_part (λ n. n.last_name) (complex_name_of party.personal_info);
  date_of_birth = date_of_birth_of party.personal_info;
  merchant_classification_code = party.merchant_classification_code;
  fsp_id = to_optional_value info.fsp_id;
  extension_list = info.extension_list;
}
  where
    info : PartyIdInfo
    info = party.party_id_info

-- Undefined where no part of the name is there.
unfoldable pub complex_name : Option Text → Option Text → Option Text → Option PartyComplexName
complex_name none none none = none
complex_name first middle last =
    some (record { first_name = first; middle_name = middle; last_name = last })

unfoldable pub to_party_complex_name : FspParty → Option PartyComplexName
unfolding complex_name
to_party_complex_name p = complex_name p.first_name p.middle_name p.last_name

unfoldable pub personal_info : Option PartyComplexName → Option Text → Option PartyPersonalInfo
personal_info none none = none
personal_info name birth = some (record { complex_name = name; date_of_birth = birth })

unfoldable pub to_party_personal_info : FspParty → Option PartyPersonalInfo
unfolding personal_info to_party_complex_name
to_party_personal_info p = personal_info (to_party_complex_name p) p.date_of_birth

-- An empty list is left out.
unfoldable pub some_extensions : Option (List Extension) → Option (List Extension)
some_extensions none = none
some_extensions (some []) = none
some_extensions (some (e ∷ es)) = some (e ∷ es)

unfoldable pub to_party_id_info : FspParty → PartyIdInfo
unfolding to_optional_value some_extensions
to_party_id_info p = record {
  party_id_type = p.id_type;
  party_identifier = p.id_value;
  party_sub_id_or_type = to_optional_value p.id_sub_value;
  fsp_id = p.fsp_id;
  extension_list = some_extensions p.extension_list;
}

unfoldable pub to_party : FspParty → Party
unfolding to_party_id_info to_party_personal_info
to_party p = record {
  party_id_info = to_party_id_info p;
  merchant_classification_code = p.merchant_classification_code;
  name = p.display_name;
  personal_info = to_party_personal_info p;
  supported_currencies = none;
}

abbrev pub or_default : Option Text → Option Text → Option Text
or_default none fallback = fallback
or_default (some value) fallback = some value

-- The party with its FSP, which is written back into the answer, and that FSP.
abbrev pub with_fsp_id : Party → Text → Party
with_fsp_id party fsp = record party {
  party_id_info = record party.party_id_info { fsp_id = some fsp };
}

abbrev pub resolved : Party → Option Text → Result Thrown (Party × Text)
resolved party none = err (
    fspiop_error missing_mandatory_element
      (codes "Party lookup response must include the resolved payee fspId."))
resolved party (some fsp) = ok (with_fsp_id party fsp, fsp)

unfoldable pub resolve_destination : Party → Option Text → Result Thrown (Party × Text)
unfolding to_optional_value
resolve_destination party requested =
    resolved party (or_default (to_optional_value party.party_id_info.fsp_id) requested)

-- `note?.trim().length ? note : undefined`
abbrev pub non_blank_note : Option Text → Option Text
non_blank_note none = none
non_blank_note (some note) = if is_empty (trim note) then none else some note

unfoldable pub to_transfer_request : SendMoneyRequest → Party → Text → Text → TransferRequest
unfolding to_party to_fsp_party
to_transfer_request request callback transfer_id initiated_timestamp = record {
  payer = to_party request.from;
  payee = callback;
  quotes = none;
  transfer = none;
  transfer_id = transfer_id;
  home_transaction_id = request.home_transaction_id;
  initiated_timestamp = initiated_timestamp;
  from = request.from;
  to = to_fsp_party callback;
  amount_type = request.amount_type;
  currency = request.currency;
  amount = request.amount;
  transaction_type = request.transaction_type;
  sub_scenario = request.sub_scenario;
  note = non_blank_note request.note;
  supported_currencies = callback.supported_currencies;
}
