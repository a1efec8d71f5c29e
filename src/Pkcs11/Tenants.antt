-- ===== src/Pkcs11/Tenants.antt =====
-- `withTenantLogin` of packages/shared/pkcs11/component/pkcs11-session-pool.ts: calls that log in as
-- one tenant each, one after the other. The chain of promises is the queue of the calls behind the
-- one that works. Whether the device opens a session and accepts the credential comes with
-- the call.
use pivotal.Base.{ℕ, Bool, not, List, [], ◌∷◌, ◌++◌, if◌then◌else◌, Result, ok, err, throw_if, ◌>>◌}
use pivotal.Pkcs11.{Pool}

pub record TenantCall : Type 0 where
  pub id : ℕ
  pub opens : Bool
  pub accepted : Bool

-- What reaches the device for a call; `works` is the work that the caller gave.
pub data DeviceCall : Type 0 where
  fails_to_open opens_session logs_in fails_to_log_in works logs_out closes_session : ℕ → DeviceCall

-- The promise that a new call waits for: resolved, pending while a call works, or never resolved,
-- since opening the session threw before the `try` whose `finally` would release it.
pub data Front : Type 0 where
  idle stuck : Front
  working : ℕ → Front

pub record TenantQueue : Type 0 where
  pub front : Front
  pub queue : List TenantCall

-- The call at the front goes on when the one before it has released the queue. Where the login
-- throws, the `finally` runs at once and the next one goes on.
unfoldable pub next_tenant : List TenantCall → TenantQueue × List DeviceCall
next_tenant [] = (record { front = idle; queue = [] }, [])
next_tenant (c ∷ cs) =
    let rest = next_tenant cs in
    if not c.opens
    then (record { front = stuck; queue = cs }, fails_to_open c.id ∷ [])
    else if c.accepted
    then (
      record { front = working c.id; queue = cs },
      opens_session c.id ∷ logs_in c.id ∷ works c.id ∷ [],
    )
    else (
      rest.0,
      opens_session c.id ∷ fails_to_log_in c.id ∷ logs_out c.id ∷ closes_session c.id ∷ rest.1,
    )

abbrev pub join_queue : Front → TenantCall → TenantQueue → TenantQueue × List DeviceCall
join_queue idle c q = next_tenant (c ∷ [])
join_queue stuck c q = (record q { queue = q.queue ++ c ∷ [] }, [])
join_queue (working id) c q = (record q { queue = q.queue ++ c ∷ [] }, [])

pub data TenantError : Type 0 where
  pool_not_started holds_standing_login : TenantError

unfoldable pub with_tenant_login :
    Pool → TenantCall → TenantQueue → Result TenantError (TenantQueue × List DeviceCall)
with_tenant_login p c q = do
  throw_if (not p.started) pool_not_started
  throw_if p.has_standing_login holds_standing_login
  ok (join_queue q.front c q)

-- The work of the call in front ends, by a value or an error.
abbrev pub end_work : Front → TenantQueue → TenantQueue × List DeviceCall
end_work idle q = (q, [])
end_work stuck q = (q, [])
end_work (working id) q =
    let rest = next_tenant q.queue in (rest.0, logs_out id ∷ closes_session id ∷ rest.1)

unfoldable pub finish_tenant : TenantQueue → TenantQueue × List DeviceCall
unfolding next_tenant
finish_tenant q = end_work q.front q

pub data TenantEvent : Type 0 where
  arrives : TenantCall → TenantEvent
  ends : TenantEvent

abbrev pub admitted :
    TenantQueue → Result TenantError (TenantQueue × List DeviceCall) → TenantQueue × List DeviceCall
admitted q (ok r) = r
admitted q (err e) = (q, [])

unfoldable pub tenant_step : Pool → TenantEvent → TenantQueue → TenantQueue × List DeviceCall
unfolding with_tenant_login finish_tenant
tenant_step p (arrives c) q = admitted q (with_tenant_login p c q)
tenant_step p ends q = finish_tenant q

unfoldable pub tenant_run : Pool → List TenantEvent → TenantQueue → TenantQueue × List DeviceCall
unfolding tenant_step
tenant_run p [] q = (q, [])
tenant_run p (e ∷ es) q =
    let rest = tenant_run p es (tenant_step p e q).0 in (rest.0, (tenant_step p e q).1 ++ rest.1)
