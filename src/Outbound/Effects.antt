-- ===== src/Outbound/Effects.antt =====
-- The handlers of packages/core/outbound/domain/command as programs: they read and write the store,
-- call others, and throw.
use pivotal.Base.{Option, none, some, List, ◌∷◌, Result, ok, err}
use pivotal.Text.{Text}
use pivotal.Outbound.Errors.{Extension, FspiopException, Thrown}
use pivotal.Outbound.Parties.{Money, Party}
use pivotal.Outbound.Redis.{Redis}

pub data Phase : Type 0 where
  parties quotes transfers : Phase

pub data RecordKind : Type 0 where
  request response : RecordKind
  error : FspiopException → RecordKind

pub record AuditRecord : Type 0 where
  pub phase : Phase
  pub kind : RecordKind
  pub correlation_id : Text
  pub payer_fsp : Text
  pub payee_fsp : Text

pub record QuotesPostRequest : Type 0 where
  pub quote_id : Text
  pub transaction_id : Text
  pub transaction_request_id : Text
  pub payee : Party
  pub payer : Party
  pub amount_type : Text
  pub amount : Money
  pub scenario : Text
  pub sub_scenario : Option Text
  pub initiator : Text
  pub initiator_type : Text
  pub note : Option Text
  pub extension_list : Option (List Extension)

pub record TransfersPostRequest : Type 0 where
  pub transfer_id : Text
  pub payer_fsp : Text
  pub payee_fsp : Text
  pub amount : Option Money
  pub ilp_packet : Text
  pub condition : Text
  pub expiration : Text
  pub extension_list : Option (List Extension)

-- A call of another system: the audit, the hub with the FSP that asks and the one asked, and the
-- subscriber for callbacks.
pub data OutboundCall : Type 0 where
  published : AuditRecord → OutboundCall
  got_parties : Text → Option Text → Text → Text → Option Text → OutboundCall
  posted_quotes : Text → Text → QuotesPostRequest → OutboundCall
  posted_transfers : Text → Text → TransfersPostRequest → OutboundCall
  waits_for cancels : Phase → Text → OutboundCall

-- What others answer while one request is served: whether each call succeeds or what it throws, the
-- token that `randomUUID` makes, and the callback. A call of Redis that throws has done nothing.
pub record Replies (C : Type 0) : Type 0 where
  pub own_token : Text
  pub locking : Option Thrown
  pub reading : Option Thrown
  pub saving_home_id : Option Thrown
  pub request_audit : Option Thrown
  pub counting : Option Thrown
  pub hub : Option Thrown
  pub callback : Result Thrown C
  pub caching : Option Thrown
  pub response_audit : Option Thrown
  pub error_audit : Option Thrown
  pub deleting : Option Thrown
  pub releasing : Option Thrown

module _ (R : Redis) where
  -- The latest call first.
  pub record World : Type 0 where
    pub store : R.Store
    pub calls : List OutboundCall

  abbrev pub Action : Type 0 → Type 0
  Action A = World → World × Result Thrown A

abbrev pub reply : Option Thrown → Result Thrown (Unit {0})
reply none = ok tt
reply (some e) = err e

module _ {R : Redis} where
  abbrev pub go_on :
      {A B : Type 0} → World R × Result Thrown A → (A → Action R B) → World R × Result Thrown B
  go_on (w, ok a) next = next a w
  go_on (w, err e) next = (w, err e)

  infixl 5 ◌>>=◌ ◌>>◌
  unfoldable pub ◌>>=◌ : {A B : Type 0} → Action R A → (A → Action R B) → Action R B
  ◌>>=◌ m next w = go_on (m w) next

  abbrev pub ◌>>◌ : {B : Type 0} → Action R (Unit {0}) → Action R B → Action R B
  m >> k = m >>= λ _. k

  unfoldable pub lift : {A : Type 0} → Result Thrown A → Action R A
  lift r w = (w, r)

  abbrev pub handled :
      {A : Type 0} → World R × Result Thrown A → (Thrown → Action R A) → World R × Result Thrown A
  handled (w, ok a) handler = (w, ok a)
  handled (w, err e) handler = handler e w

  -- `try { … } catch (error) { … }`
  unfoldable pub catching : {A : Type 0} → Action R A → (Thrown → Action R A) → Action R A
  catching m handler w = handled (m w) handler

  abbrev pub closed :
      {A : Type 0}
      → World R × Result Thrown (Unit {0})
      → Result Thrown A
      → World R × Result Thrown A
  closed (w, ok u) result = (w, result)
  closed (w, err e) result = (w, err e)

  abbrev pub after_all :
      {A : Type 0} → World R × Result Thrown A → Action R (Unit {0}) → World R × Result Thrown A
  after_all (w, result) last = closed (last w) result

  -- `try { … } finally { … }`: what the last part throws replaces the result.
  unfoldable pub ensuring : {A : Type 0} → Action R A → Action R (Unit {0}) → Action R A
  ensuring m last w = after_all (m w) last

  -- A call that is made, and then succeeds or throws.
  unfoldable pub calling : OutboundCall → Option Thrown → Action R (Unit {0})
  calling c answer w = (record w { calls = c ∷ w.calls }, reply answer)

  -- A command of Redis that is done, or throws.
  unfoldable pub command : Option Thrown → (R.Store → R.Store) → Action R (Unit {0})
  command none f w = (record w { store = f w.store }, ok tt)
  command (some e) f w = (w, err e)
