-- ===== src/Pkcs11/Tests.antt =====
-- Runs of a small pool.
use pivotal.Pkcs11.Tenants.{
  TenantCall, TenantQueue, idle, TenantEvent, arrives, ends, next_tenant, with_tenant_login,
  finish_tenant, tenant_step, tenant_run, opens_session, logs_in, works, logs_out, closes_session,
  fails_to_open,
}
use pivotal.Pkcs11.Logins.{replay, tenant_run-replay}
use pivotal.Pkcs11.Stopping.{after_failure, tenant_run-after_failure}
use pivotal.Base.{ℕ, none, some, false, ◌≡◌, refl, inl, true, List, [], ◌∷◌, ◌++◌}
use pivotal.Pkcs11.{
  Pool, new_pool, open_sessions, start, acquire, release, with_session, finish, Event, asks,
  finishes, step, run,
}
use pivotal.Pkcs11.Fairness.{callers, IsWorkConserving, run-fair}
use pivotal.Pkcs11.Conservation.{copies, run-exclusive}

-- Three callers on two sessions; the first ends its work and the third is served.
abbrev busy : List Event
busy = asks 5 ∷ asks 6 ∷ asks 7 ∷ finishes 5 ∷ asks 8 ∷ []

run-busy : (run busy (start 2 true new_pool)).0.waiting ≡ 8 ∷ []
unfolding run step with_session acquire finish release start open_sessions
run-busy = refl

run-fair_example :
    (callers (run busy (start 2 true new_pool)).1 ++ (run busy (start 2 true new_pool)).0.waiting
      ≡ 5 ∷ 6 ∷ 7 ∷ 8 ∷ [])
    × IsWorkConserving (run busy (start 2 true new_pool)).0
unfolding start open_sessions
run-fair_example = run-fair busy (start 2 true new_pool) (refl, refl) (inl refl)

run-exclusive_example : copies 1 (run busy (start 2 true new_pool)).0 ≡ 1
run-exclusive_example = run-exclusive 2 1 busy

abbrev provisioning : Pool
provisioning = start 0 false new_pool

abbrev tenant : ℕ → TenantCall
tenant id = record { id = id; opens = true; accepted = true }

abbrev visits : List TenantEvent
visits =
    arrives (tenant 1)
    ∷ arrives (record { id = 2; opens = true; accepted = false })
    ∷ arrives (tenant 3)
    ∷ ends
    ∷ []

abbrev nobody : TenantQueue
nobody = record { front = idle; queue = [] }

tenant_run-replay_example :
    replay (some none) (tenant_run provisioning visits nobody).1 ≡ some (some 3)
unfolding tenant_run tenant_step with_tenant_login finish_tenant next_tenant start
tenant_run-replay_example = tenant_run-replay provisioning visits nobody

-- The second call finds the device unable to open a session; the third is never served.
abbrev blocked_visits : List TenantEvent
blocked_visits =
    arrives (tenant 1)
    ∷ arrives (record { id = 2; opens = false; accepted = true })
    ∷ arrives (tenant 3)
    ∷ ends
    ∷ ends
    ∷ []

blocked_test :
    (tenant_run provisioning blocked_visits nobody).1
    ≡ opens_session 1 ∷ logs_in 1 ∷ works 1 ∷ logs_out 1 ∷ closes_session 1 ∷ fails_to_open 2 ∷ []
unfolding tenant_run tenant_step with_tenant_login finish_tenant next_tenant start
blocked_test = refl

tenant_run-after_failure_example :
    after_failure (tenant_run provisioning blocked_visits nobody).1 ≡ []
tenant_run-after_failure_example = tenant_run-after_failure provisioning blocked_visits nobody
