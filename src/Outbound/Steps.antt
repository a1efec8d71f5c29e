-- ===== src/Outbound/Steps.antt =====
-- The parts that the handlers of packages/core/outbound/domain/command share: reading the cached
-- request, the lock around a handler, the report of a failure, and the monitor of
-- component/suspicious-transaction-monitor.ts.
use pivotal.Base.{
  ℕ, Bool, not, ◌||◌, Option, none, some, List, ◌++◌, ltb, ◌==◌, if◌then◌else◌, map, Result, ok,
  err, or_throw, throw_if,
}
use pivotal.Text.{Text, codes}
use pivotal.Responses.Subjects.{join}
use pivotal.Outbound.Codes.{
  transfer_id_not_found, generic_client_error, suspicious_transaction_pattern,
}
use pivotal.Outbound.Errors.{
  Thrown, fspiop_exception, other_error, fspiop_error, to_fspiop_exception,
}
use pivotal.Outbound.Parties.{TransferRequest}
use pivotal.Outbound.Redis.{Redis, Value, cached, token, counter, acquire_lock, release_lock}
use pivotal.Outbound.Effects.{
  Phase, RecordKind, error, OutboundCall, published, Replies, World, Action, ◌>>=◌, ◌>>◌, lift,
  catching, ensuring, calling, command,
}

pub data SuspiciousTransactionMatchField : Type 0 where
  by_payer_fsp_id by_payer_id_value by_payee_fsp_id : SuspiciousTransactionMatchField
  by_payee_id_value by_amount by_currency : SuspiciousTransactionMatchField

pub record OutboundSettings : Type 0 where
  pub allowed_decimal_places : ℕ
  pub fees_mandatory : Bool
  pub monitor_enabled : Bool
  pub window_ms : ℕ
  pub threshold : ℕ
  pub matching_fields : List SuspiciousTransactionMatchField

pub record Pattern : Type 0 where
  pub payer_fsp : Text
  pub payer_id : Text
  pub payee_fsp : Text
  pub payee_id : Text
  pub currency : Text
  pub amount : Text

unfoldable pub field_value : Pattern → SuspiciousTransactionMatchField → Text
field_value p by_payer_fsp_id = p.payer_fsp
field_value p by_payer_id_value = p.payer_id
field_value p by_payee_fsp_id = p.payee_fsp
field_value p by_payee_id_value = p.payee_id
field_value p by_amount = p.amount
field_value p by_currency = p.currency

abbrev pub key_prefix : Text
key_prefix = codes "suspicious:"

unfoldable pub build_key : Pattern → List SuspiciousTransactionMatchField → Text
build_key p fields = key_prefix ++ join b'|' (map (field_value p) fields)

-- What is cached: another value under the key is no request that `JSON.parse` could read.
abbrev pub transfer_of : Option Value → Text → Result Thrown TransferRequest
transfer_of none id =
    err (fspiop_error transfer_id_not_found (codes "Transfer " ++ id ++ codes " was not found."))
transfer_of (some (cached t)) id = ok t
transfer_of (some (token t)) id = err (other_error (codes "Unexpected token"))
transfer_of (some (counter n)) id = err (other_error (codes "Unexpected token"))

abbrev pub token_or_busy : Option Text → Text → Result Thrown Text
token_or_busy held id = or_throw held (
    fspiop_error generic_client_error
      (codes "Transfer " ++ id ++ codes " is already being processed; ignoring duplicate request."))

module _ {R : Redis} where
  unfoldable pub get_transfer_request : Option Thrown → Text → Action R TransferRequest
  get_transfer_request reading id w =
      (w, elim reading [ none ↦ transfer_of (R.get id w.store) id | some e ↦ err e ])

  unfoldable pub set_transfer : Option Thrown → Text → TransferRequest → Action R (Unit {0})
  set_transfer answer id t = command answer (R.put id (cached t))

  unfoldable pub delete_transfer : Option Thrown → Text → Action R (Unit {0})
  delete_transfer answer id = command answer (R.del id)

  abbrev pub counted : R.Store × ℕ → World R → World R × Result Thrown ℕ
  counted r w = (record w { store = r.0 }, ok r.1)

  -- `incrementWithTtl`, for a window that is positive.
  unfoldable pub increment : Option Thrown → Text → Action R ℕ
  increment none key w = counted (R.incr key w.store) w
  increment (some e) key w = (w, err e)

  unfoldable pub assert_not_suspicious :
      Option Thrown → OutboundSettings → Pattern → Action R (Unit {0})
  unfolding increment
  assert_not_suspicious counting settings pattern =
      if not settings.monitor_enabled || settings.window_ms == 0 || settings.threshold == 0
      then lift (ok tt)
      else do
        count ← increment counting (build_key pattern settings.matching_fields)
        lift (
            throw_if (ltb settings.threshold count) (
              fspiop_error suspicious_transaction_pattern (
                codes
                  "Suspicious repetitive transaction pattern detected within the monitoring window.")))

  abbrev pub locked_world : R.Store × Option Text → World R → World R × Result Thrown (Option Text)
  locked_world r w = (record w { store = r.0 }, ok r.1)

  unfoldable pub lock : Option Thrown → Text → Text → Action R (Option Text)
  lock none id own w = locked_world (acquire_lock R id own w.store) w
  lock (some e) id own w = (w, err e)

  -- A release that fails is logged and nothing more.
  unfoldable pub unlock : Option Thrown → Text → Text → Action R (Unit {0})
  unlock none id own = command none (release_lock R id own)
  unlock (some e) id own = lift (ok tt)

  -- `execute` of the two handlers that take the lock.
  unfoldable pub with_lock : {A C : Type 0} → Replies C → Text → Action R A → Action R A
  unfolding lock unlock
  with_lock replies id body = do
    held ← lock replies.locking id replies.own_token
    own ← lift (token_or_busy held id)
    ensuring body (unlock replies.releasing id own)

  -- What a handler's `catch` does: audit the error, delete the request, and throw whatever these did.
  unfoldable pub report :
      {A C : Type 0} → Replies C → Phase → Text → Text → Text → Thrown → Action R A
  unfolding delete_transfer
  report replies phase id source destination thrown =
      ensuring
        (calling
          (published (record {
            phase = phase;
            kind = error (to_fspiop_exception thrown);
            correlation_id = id;
            payer_fsp = source;
            payee_fsp = destination;
          }))
          replies.error_audit)
        (ensuring (delete_transfer replies.deleting id) (lift (err reason)))
      >> lift (err reason)
    where
      reason : Thrown
      reason = fspiop_exception (to_fspiop_exception thrown)

  -- A call of the hub, after which an answer is awaited: where the call throws, the wait is given up.
  unfoldable pub ask_hub :
      {C : Type 0} → Replies C → Phase → Text → OutboundCall → (Thrown → Thrown) → Action R C
  ask_hub replies phase key call convert = do
    calling (OutboundCall.waits_for phase key) none
    catching (calling call replies.hub)
        λ e. do calling (OutboundCall.cancels phase key) none; lift (err (convert e))
    lift replies.callback

  abbrev pub audited : Option Thrown → Phase → RecordKind → Text → Text → Text → Action R (Unit {0})
  audited answer phase kind id source destination =
      calling
        (published (record {
          phase = phase;
          kind = kind;
          correlation_id = id;
          payer_fsp = source;
          payee_fsp = destination;
        }))
        answer
