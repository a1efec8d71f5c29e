-- ===== src/Outbound/Errors.antt =====
-- packages/shared/fspiop/exception/fspiop-exception.ts and component/fspiop-error-translator.ts:
-- exceptions, and what the handlers make of anything that was thrown.
use pivotal.Base.{Option, none, some, List, [], ◌∷◌, if◌then◌else◌}
use pivotal.Text.{Text, codes, trim}
use pivotal.Money.{is_empty}
use pivotal.Outbound.Codes.{
  FspiopErrorType, communication_error, generic_validation_error, internal_server_error, error_code,
  description_of, find_type,
}

pub record Extension : Type 0 where
  pub key : Text
  pub value : Text

pub record ErrorDefinition : Type 0 where
  pub error_type : FspiopErrorType
  pub description : Text

abbrev pub definition : FspiopErrorType → ErrorDefinition
definition t = record { error_type = t; description = description_of t }

pub record FspiopException : Type 0 where
  pub error_definition : ErrorDefinition
  pub extension_list : Option (List Extension)

-- What code may throw: an error answer of the hub, with its message and the code, description and
-- extensions of its error information, an exception of this kind, or an `Error` with its message.
pub data Thrown : Type 0 where
  axios_error : Text → Option Text → Option Text → Option (List Extension) → Thrown
  fspiop_exception : FspiopException → Thrown
  other_error : Text → Thrown

unfoldable pub first_non_blank : Option Text → Text → Text
first_non_blank none fallback = fallback
first_non_blank (some value) fallback = if is_empty (trim value) then fallback else value

-- The constructor given a message, and given extensions only.
unfoldable pub exception_with_message :
    ErrorDefinition → Text → Option (List Extension) → FspiopException
unfolding first_non_blank
exception_with_message error_def message extensions = record {
  error_definition = record {
    error_type = error_def.error_type;
    description = first_non_blank (some message) error_def.description;
  };
  extension_list = extensions;
}

abbrev pub exception_with_extensions : ErrorDefinition → Option (List Extension) → FspiopException
exception_with_extensions error_def extensions = record {
  error_definition = error_def;
  extension_list = extensions;
}

-- `new FspiopException(FspiopErrors.X, message)`, as thrown.
abbrev pub fspiop_error : FspiopErrorType → Text → Thrown
fspiop_error t message = fspiop_exception (exception_with_message (definition t) message none)

-- `FspiopErrors.find(code)`
abbrev pub find_error : Text → Option ErrorDefinition
find_error code = elim (find_type code) [ none ↦ none | some t ↦ some (definition t) ]

abbrev pub definition_or : Option ErrorDefinition → FspiopErrorType → ErrorDefinition
definition_or none fallback = definition fallback
definition_or (some found) fallback = found

unfoldable pub normalize : Thrown → FspiopException
unfolding exception_with_message
normalize (fspiop_exception e) = e
normalize (axios_error message code desc extensions) =
    exception_with_message (definition internal_server_error)
      (first_non_blank (some message) (description_of internal_server_error)) none
normalize (other_error message) =
    exception_with_message (definition internal_server_error)
      (first_non_blank (some message) (description_of internal_server_error)) none

-- `FspiopErrorTranslator.toFspiopException(exception)`, which the handlers call without a
-- transaction id: the extensions are then those of the exception itself.
unfoldable pub translate : Thrown → FspiopException
unfolding normalize
translate e =
    exception_with_extensions
      (definition_or (find_error (error_code reason.error_type)) generic_validation_error)
      (some (record { key = []; value = reason.description } ∷ []))
  where
    reason : ErrorDefinition
    reason = (normalize e).error_definition

abbrev pub or_blank : Option Text → Text
or_blank none = []
or_blank (some text) = text

abbrev pub communication_text : Text
communication_text = codes "Communication error"

-- The handlers' own `toFspiopException`.
unfoldable pub to_fspiop_exception : Thrown → FspiopException
unfolding exception_with_message translate
to_fspiop_exception (axios_error message code desc extensions) =
    exception_with_message (definition_or (find_error (or_blank code)) communication_error)
      (first_non_blank desc communication_text) extensions
to_fspiop_exception (fspiop_exception e) = translate (fspiop_exception e)
to_fspiop_exception (other_error message) = translate (other_error message)
