-- ===== src/Pkcs11.antt =====
-- packages/shared/pkcs11/component/pkcs11-session-pool.ts: the sessions that a signing process
-- keeps open on its device. A session and a caller of `withSession` are numbers; the device hands
-- out sessions by counting. A caller whose promise is resolved holds the session until its work
-- ends; what the work does with the device is not modelled.
pub mod Fairness
pub mod Conservation
pub mod Tenants
pub mod Logins
pub mod Stopping
mod Tests
use pivotal.Base.{
  ℕ, zero, suc, ◌+◌, ◌-◌, Bool, true, false, not, Option, none, some, List, [], ◌∷◌, ◌++◌, ◌==◌,
  if◌then◌else◌, String, Result, ok, err, throw_if, ◌>>=◌, ◌>>◌,
}

-- A session lent to a caller.
pub record Lease : Type 0 where
  pub caller : ℕ
  pub session : ℕ

pub record Pool : Type 0 where
  -- In the array's order: the last one is lent first.
  pub available : List ℕ
  -- In order of arrival.
  pub waiting : List ℕ
  pub started : Bool
  pub has_standing_login : Bool
  -- The leases whose work has not ended.
  pub lent : List Lease
  -- How many sessions the device has opened.
  pub opened : ℕ

pub data PoolError : Type 0 where
  not_started no_standing_identity : PoolError

abbrev pub new_pool : Pool
new_pool = record {
  available = [];
  waiting = [];
  started = false;
  has_standing_login = false;
  lent = [];
  opened = 0;
}

-- The `for` loop of `start`: one more session for each round left.
pub open_sessions : ℕ → Pool → Pool
open_sessions zero p = p
open_sessions (suc n) p =
    open_sessions n (record p { available = p.available ++ p.opened ∷ []; opened = p.opened + 1 })

-- `identity` says whether a credential is given. The device's own failures are not modelled.
unfoldable pub start : ℕ → Bool → Pool → Pool
unfolding open_sessions
start pool_size identity p =
    if p.started
    then p
    else if not identity
    then record p { started = true }
    else open_sessions (pool_size - 1) (record p {
      started = true;
      has_standing_login = true;
      available = p.available ++ p.opened ∷ [];
      opened = p.opened + 1;
    })

-- `Array.pop`
abbrev pub pop : List ℕ → Option (List ℕ × ℕ)
pop [] = none
pop (x ∷ xs) = elim (pop xs) [ none ↦ some ([], x) | some (rest, last) ↦ some (x ∷ rest, last) ]

abbrev pub lend : ℕ → ℕ → Pool → Pool
lend caller session p = record p {
  lent = p.lent ++ record { caller = caller; session = session } ∷ [];
}

abbrev pub acquire_from : Option (List ℕ × ℕ) → ℕ → Pool → Pool × List Lease
acquire_from none caller p = (record p { waiting = p.waiting ++ caller ∷ [] }, [])
acquire_from (some (rest, session)) caller p = (
  lend caller session (record p { available = rest }),
  record { caller = caller; session = session } ∷ [],
)

-- The second component lists the promises that are resolved, each with its session.
unfoldable pub acquire : ℕ → Pool → Pool × List Lease
acquire caller p = acquire_from (pop p.available) caller p

abbrev pub hand_over : List ℕ → ℕ → Pool → Pool × List Lease
hand_over [] session p = (record p { available = p.available ++ session ∷ [] }, [])
hand_over (next ∷ rest) session p = (
  lend next session (record p { waiting = rest }),
  record { caller = next; session = session } ∷ [],
)

unfoldable pub release : ℕ → Pool → Pool × List Lease
release session p = hand_over p.waiting session p

unfoldable pub with_session : ℕ → Pool → Result PoolError (Pool × List Lease)
unfolding acquire
with_session caller p = do
  throw_if (not p.started) not_started
  throw_if (not p.has_standing_login) no_standing_identity
  ok (acquire caller p)

-- The lease that a caller holds, and the others.
abbrev pub take_lease : ℕ → List Lease → Option (Lease × List Lease)
take_lease caller [] = none
take_lease caller (l ∷ ls) =
    let rest = take_lease caller ls in
    if l.caller == caller
    then some (l, ls)
    else elim rest [ none ↦ none | some (found, others) ↦ some (found, l ∷ others) ]

abbrev pub finish_lease : Option (Lease × List Lease) → Pool → Pool × List Lease
finish_lease none p = (p, [])
finish_lease (some (l, others)) p = release l.session (record p { lent = others })

-- The `finally` of `withSession`, when the work of a caller resolves or throws.
unfoldable pub finish : ℕ → Pool → Pool × List Lease
unfolding release
finish caller p = finish_lease (take_lease caller p.lent) p

-- Closes what is available. The device's failures are swallowed, as in the code.
unfoldable pub stop : Pool → Pool
stop p = if not p.started then p else record p { started = false; available = [] }

-- What happens to a pool once it is started, in any order.
pub data Event : Type 0 where
  asks finishes : ℕ → Event

abbrev pub asked : ℕ → Pool → Result PoolError (Pool × List Lease) → Pool × List Lease
asked caller p (ok r) = r
asked caller p (err e) = (p, [])

unfoldable pub step : Event → Pool → Pool × List Lease
unfolding with_session finish
step (asks caller) p = asked caller p (with_session caller p)
step (finishes caller) p = finish caller p

unfoldable pub run : List Event → Pool → Pool × List Lease
unfolding step
run [] p = (p, [])
run (e ∷ es) p = let rest = run es (step e p).0 in (rest.0, (step e p).1 ++ rest.1)
