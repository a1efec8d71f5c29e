-- ===== src/Responses/Tests.antt =====
-- Waiters for one party.
use pivotal.Base.{ℕ, ◌≡◌, refl, none, some, [], ◌∷◌, ◌==◌, find, arith}
use pivotal.Text.{Text, codes}
use pivotal.Responses.Subjects.{to_any_payee_subject}
use pivotal.Responses.Maps.{get}
use pivotal.Responses.{
  PendingEntry, Subscriber, resolved, timer_fires, wait_for, dispatch, register, take_from_recent,
  evict_expired_recent,
}
use pivotal.Responses.Cache.{receives, run, IsBounded, run-IsBounded}
use pivotal.Responses.Overwriting.{dispatch-wait_for}
use pivotal.Responses.Overtaking.{run-overtaken}

abbrev party : Text
party = codes "pivotal.fspiop.response.parties:A:B:MSISDN:1"

abbrev party_error : Text
party_error = codes "pivotal.fspiop.response.parties-error:A:B:MSISDN:1"

abbrev waiter : ℕ → PendingEntry
waiter id = record {
  id = id;
  success_subject = party;
  error_subject = party_error;
  hub_error_subject = none;
}

abbrev idle : Subscriber
idle = record { pending = []; recent = []; timers = []; settled = [] }

-- A lookup without a payee takes the callback of whichever payee answers.
any_payee_sample :
    to_any_payee_subject party ≡ some (codes "pivotal.fspiop.response.parties:A:_any_:MSISDN:1")
unfolding to_any_payee_subject
any_payee_sample = refl

dispatch-wait_for_example :
    ((dispatch 9 party 5 (wait_for 1 (waiter 1) idle)).settled ≡ (1, resolved 5) ∷ [])
    × (get party (dispatch 9 party 5 (wait_for 1 (waiter 1) idle)).pending ≡ none)
    × (get party_error (dispatch 9 party 5 (wait_for 1 (waiter 1) idle)).pending ≡ none)
unfolding take_from_recent evict_expired_recent
dispatch-wait_for_example = dispatch-wait_for 1 9 5 (waiter 1) idle refl

run-IsBounded_example : IsBounded (run (receives 3 party 5 ∷ []) idle)
run-IsBounded_example = run-IsBounded (receives 3 party 5 ∷ []) idle (omega arith)

run-overtaken_example :
    find
      (λ r. r.0 == 2)
      (run
        (receives 7 party 5 ∷ [])
        (timer_fires 1 (wait_for 2 (waiter 2) (wait_for 1 (waiter 1) idle)))).settled
    ≡ none
unfolding take_from_recent evict_expired_recent register
run-overtaken_example =
    run-overtaken 1 2 (waiter 1) (waiter 2) idle (receives 7 party 5 ∷ []) refl refl refl
      (record { unlisted = refl; untimed = refl; unsettled = refl }) refl refl refl
