-- ===== src/Outbound/Views.antt =====
-- An abstract view of one transfer: how far it has come, and how often the hub was asked.
use pivotal.Base.{ℕ, suc, Bool, true, false, Option, none, some, count}
use pivotal.Text.{Text}
use pivotal.Responses.Subjects.{text_eq}
use pivotal.Outbound.Redis.{Redis, Value, cached, token, counter}
use pivotal.Outbound.Effects.{
  OutboundCall, published, got_parties, posted_quotes, posted_transfers, waits_for, cancels, World,
}
use pivotal.Outbound.Handlers.{is_there}

-- No request is cached, one without a quote, one with a quote.
pub data Stage : Type 0 where
  absent found quoted : Stage

abbrev pub stage_if : Bool → Stage
stage_if true = quoted
stage_if false = found

abbrev pub stage_of : Option Value → Stage
stage_of none = absent
stage_of (some (cached t)) = stage_if (is_there t.quotes)
stage_of (some (token t)) = absent
stage_of (some (counter n)) = absent

abbrev pub asks_quote : Text → OutboundCall → Bool
asks_quote id (posted_quotes source destination body) = text_eq body.quote_id id
asks_quote id (published r) = false
asks_quote id (got_parties a b c d e) = false
asks_quote id (posted_transfers a b c) = false
asks_quote id (waits_for p k) = false
asks_quote id (cancels p k) = false

abbrev pub asks_transfer : Text → OutboundCall → Bool
asks_transfer id (posted_transfers source destination body) = text_eq body.transfer_id id
asks_transfer id (published r) = false
asks_transfer id (got_parties a b c d e) = false
asks_transfer id (posted_quotes a b c) = false
asks_transfer id (waits_for p k) = false
asks_transfer id (cancels p k) = false

pub record View : Type 0 where
  pub stage : Stage
  -- How many requests for a quote, and how many for a transfer, have gone to the hub.
  pub quotes_asked : ℕ
  pub transfers_asked : ℕ

abbrev pub view : Stage → ℕ → ℕ → View
view s q t = record { stage = s; quotes_asked = q; transfers_asked = t }

abbrev pub view_of : {R : Redis} → Text → World R → View
view_of {R} id w =
    view (stage_of (R.get id w.store)) (count (asks_quote id) w.calls)
      (count (asks_transfer id) w.calls)

-- What one request may do to a transfer, told without the handlers. Only a new transfer under the
-- same id, a fresh step, leads to a request without a quote.
pub data Step : Bool → View → View → Type 0 where
  stays : (fresh : Bool) (v : View) → Step fresh v v
  starts : (s : Stage) (q t : ℕ) → Step true (view s q t) (view found q t)
  start_fails : (s : Stage) (q t : ℕ) → Step true (view s q t) (view absent q t)
  gets_quote : (q t : ℕ) → Step false (view found q t) (view quoted (suc q) t)
  quote_fails : (q t : ℕ) → Step false (view found q t) (view absent (suc q) t)
  quote_refused : (q t : ℕ) → Step false (view found q t) (view absent q t)
  ends : (q t : ℕ) → Step false (view quoted q t) (view absent q (suc t))
  transfer_refused : (q t : ℕ) → Step false (view quoted q t) (view absent q t)
  expires : (s : Stage) (q t : ℕ) → Step false (view s q t) (view absent q t)
