-- ===== src/Outbound/AtMostOnce.antt =====
-- How often the hub is asked for a quote and for a transfer under one id.
use pivotal.Base.{ℕ, ◌+◌, ◌≤◌, ◌≡◌, refl, Bool, true, false, none, List, All, count, arith}
use pivotal.Text.{Text}
use pivotal.Outbound.Redis.{Redis, IsRedis}
use pivotal.Outbound.Effects.{World}
use pivotal.Outbound.Steps.{OutboundSettings}
use pivotal.Outbound.Views.{
  Step, stays, starts, start_fails, gets_quote, quote_fails, quote_refused, ends, transfer_refused,
  expires, View, Stage, found, quoted, absent, stage_of, asks_quote, asks_transfer,
}
use pivotal.Outbound.Storing.{IsPlain}
use pivotal.Outbound.Runs.{
  Event, Deletes, serve_all, Steps, done, fresh_step, next_step, serve_all-Steps, starts_of,
}

-- How many more requests for a quote, and for a transfer, may still come of a cached request.
quotes_left : Stage → ℕ
quotes_left absent = 0
quotes_left found = 1
quotes_left quoted = 0

transfers_left : Stage → ℕ
transfers_left absent = 0
transfers_left found = 1
transfers_left quoted = 1

abbrev fresh_count : Bool → ℕ
fresh_count true = 1
fresh_count false = 0

step_quotes :
    {b : Bool} {v u : View}
    → Step b v u
    → u.quotes_asked + quotes_left u.stage ≤ v.quotes_asked + quotes_left v.stage + fresh_count b
unfolding quotes_left
step_quotes (stays true v) = omega arith
step_quotes (stays false v) = omega arith
step_quotes (starts s q t) = omega arith
step_quotes (start_fails s q t) = omega arith
step_quotes (gets_quote q t) = omega arith
step_quotes (quote_fails q t) = omega arith
step_quotes (quote_refused q t) = omega arith
step_quotes (ends q t) = omega arith
step_quotes (transfer_refused q t) = omega arith
step_quotes (expires s q t) = omega arith

step_transfers :
    {b : Bool} {v u : View}
    → Step b v u
    → u.transfers_asked + transfers_left u.stage
      ≤ v.transfers_asked + transfers_left v.stage + fresh_count b
unfolding transfers_left
step_transfers (stays true v) = omega arith
step_transfers (stays false v) = omega arith
step_transfers (starts s q t) = omega arith
step_transfers (start_fails s q t) = omega arith
step_transfers (gets_quote q t) = omega arith
step_transfers (quote_fails q t) = omega arith
step_transfers (quote_refused q t) = omega arith
step_transfers (ends q t) = omega arith
step_transfers (transfer_refused q t) = omega arith
step_transfers (expires s q t) = omega arith

Steps-quotes :
    {n : ℕ} {v u : View}
    → Steps n v u
    → u.quotes_asked + quotes_left u.stage ≤ v.quotes_asked + quotes_left v.stage + n
Steps-quotes (done v) = omega arith
Steps-quotes (fresh_step v u x step rest) = omega (arith, step_quotes step, Steps-quotes rest)
Steps-quotes (next_step v u x step rest) = omega (arith, step_quotes step, Steps-quotes rest)

Steps-transfers :
    {n : ℕ} {v u : View}
    → Steps n v u
    → u.transfers_asked + transfers_left u.stage ≤ v.transfers_asked + transfers_left v.stage + n
Steps-transfers (done v) = omega arith
Steps-transfers (fresh_step v u x step rest) =
    omega (arith, step_transfers step, Steps-transfers rest)
Steps-transfers (next_step v u x step rest) =
    omega (arith, step_transfers step, Steps-transfers rest)

module _ {R : Redis} (law : IsRedis R) (settings : OutboundSettings) (id : Text)
    (plain : IsPlain id) where
  -- Where nothing is cached under an id and Redis deletes what the handlers ask it to, any requests
  -- and expiries lead to at most as many requests for a quote under the id, and as many for a
  -- transfer, as there are new transfers under it.
  pub serve_all-at_most_once :
      (events : List Event)
      → All Deletes events
      → (w : World R) → R.get id w.store ≡ none
      → (count (asks_quote id) (serve_all settings events w).calls
          ≤ count (asks_quote id) w.calls + starts_of id events)
        × (count (asks_transfer id) (serve_all settings events w).calls
            ≤ count (asks_transfer id) w.calls + starts_of id events)
  unfolding quotes_left transfers_left
  serve_all-at_most_once events h w empty =
      let steps = serve_all-Steps law settings id plain events h w in
      let quotes_bound = Steps-quotes steps in
      let transfers_bound = Steps-transfers steps in
      let none_left : quotes_left (stage_of (R.get id w.store)) ≡ 0 = rw empty refl in
      let none_due : transfers_left (stage_of (R.get id w.store)) ≡ 0 = rw empty refl in
      (omega arith, omega arith)
