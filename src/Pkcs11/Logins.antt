-- ===== src/Pkcs11/Logins.antt =====
-- Who is logged in on the device while tenants take turns.
use pivotal.Base.{
  ℕ, ◌≡◌, refl, sym, ap, ◌∙◌, Option, none, some, List, [], ◌∷◌, ◌++◌, ◌==◌, ==_refl, if◌then◌else◌,
  inl, inr, Bool-cases,
}
use pivotal.Pkcs11.{Pool}
use pivotal.Pkcs11.Tenants.{
  TenantCall, DeviceCall, fails_to_open, opens_session, logs_in, fails_to_log_in, works, logs_out,
  closes_session, Front, idle, stuck, working, TenantQueue, next_tenant, join_queue,
  with_tenant_login, end_work, finish_tenant, TenantEvent, arrives, ends, admitted, tenant_step,
  tenant_run,
}

-- The device's own view: who is logged in after the calls, or none where a login found somebody
-- logged in, or work was not done under the login of its own tenant.
abbrev pub login_after : Option ℕ → DeviceCall → Option (Option ℕ)
login_after none (logs_in id) = some (some id)
login_after (some other) (logs_in id) = none
login_after none (works id) = none
login_after (some other) (works id) = if other == id then some (some other) else none
login_after login (logs_out id) = some none
login_after login (fails_to_open id) = some login
login_after login (opens_session id) = some login
login_after login (fails_to_log_in id) = some login
login_after login (closes_session id) = some login

abbrev pub replay : Option (Option ℕ) → List DeviceCall → Option (Option ℕ)
replay none calls = none
replay (some login) [] = some login
replay (some login) (c ∷ cs) = replay (login_after login c) cs

replay-append :
    (login : Option (Option ℕ)) (xs ys : List DeviceCall)
    → replay login (xs ++ ys) ≡ replay (replay login xs) ys
replay-append none xs ys = refl
replay-append (some login) [] ys = refl
replay-append (some login) (c ∷ xs) ys = replay-append (login_after login c) xs ys

-- Who is logged in by the front of the queue.
abbrev pub login_of : Front → Option ℕ
login_of idle = none
login_of stuck = none
login_of (working id) = some id

own_work :
    (id : ℕ) → replay (some none) (opens_session id ∷ logs_in id ∷ works id ∷ []) ≡ some (some id)
own_work id = ap (λ b. replay (if b then some (some id) else none) []) (==_refl id)

next_tenant-replay :
    (cs : List TenantCall)
    → replay (some none) (next_tenant cs).1 ≡ some (login_of (next_tenant cs).0.front)
unfolding next_tenant
next_tenant-replay [] = refl
next_tenant-replay (c ∷ cs) = elim (Bool-cases c.opens) [
  | inr shut ↦ rw shut refl
  | inl opened ↦ elim (Bool-cases c.accepted) [
    | inl yes_in ↦ rw (opened, yes_in) (own_work c.id)
    | inr refused ↦ rw (opened, refused) (next_tenant-replay cs)
  ]
]

join_queue-replay :
    (f : Front) (c : TenantCall) (q : TenantQueue)
    → q.front ≡ f
    → replay (some (login_of f)) (join_queue f c q).1 ≡ some (login_of (join_queue f c q).0.front)
unfolding next_tenant
join_queue-replay idle c q e = next_tenant-replay (c ∷ [])
join_queue-replay stuck c q e = ap (λ f. some (login_of f)) (sym e)
join_queue-replay (working id) c q e = ap (λ f. some (login_of f)) (sym e)

with_tenant_login-replay :
    (p : Pool) (c : TenantCall) (q : TenantQueue)
    → replay (some (login_of q.front)) (admitted q (with_tenant_login p c q)).1
      ≡ some (login_of (admitted q (with_tenant_login p c q)).0.front)
unfolding with_tenant_login next_tenant
with_tenant_login-replay p c q = elim (Bool-cases p.started) [
  | inr off ↦ simp off refl
  | inl on ↦ elim (Bool-cases p.has_standing_login) [
    | inl standing ↦ simp (on, standing) refl
    | inr free ↦ simp (on, free) (join_queue-replay q.front c q refl)
  ]
]

end_work-replay :
    (f : Front) (q : TenantQueue)
    → q.front ≡ f
    → replay (some (login_of f)) (end_work f q).1 ≡ some (login_of (end_work f q).0.front)
unfolding next_tenant
end_work-replay idle q e = ap (λ f. some (login_of f)) (sym e)
end_work-replay stuck q e = ap (λ f. some (login_of f)) (sym e)
end_work-replay (working id) q e = next_tenant-replay q.queue

tenant_step-replay :
    (p : Pool) (e : TenantEvent) (q : TenantQueue)
    → replay (some (login_of q.front)) (tenant_step p e q).1
      ≡ some (login_of (tenant_step p e q).0.front)
unfolding tenant_step finish_tenant
tenant_step-replay p (arrives c) q = with_tenant_login-replay p c q
tenant_step-replay p ends q = end_work-replay q.front q refl

-- Whatever the order of events, every login finds nobody logged in, all work is done under the
-- login of its own tenant, and afterwards just the tenant whose work goes on is logged in.
pub tenant_run-replay :
    (p : Pool) (es : List TenantEvent) (q : TenantQueue)
    → replay (some (login_of q.front)) (tenant_run p es q).1
      ≡ some (login_of (tenant_run p es q).0.front)
unfolding tenant_run
tenant_run-replay p [] q = refl
tenant_run-replay p (e ∷ es) q =
    replay-append (some (login_of q.front)) (tenant_step p e q).1
      (tenant_run p es (tenant_step p e q).0).1
    ∙ ap (λ l. replay l (tenant_run p es (tenant_step p e q).0).1) (tenant_step-replay p e q)
    ∙ tenant_run-replay p es (tenant_step p e q).0
