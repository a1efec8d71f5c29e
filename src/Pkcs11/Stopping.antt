-- ===== src/Pkcs11/Stopping.antt =====
-- What follows when the device does not open a session for a tenant.
use pivotal.Base.{◌≡◌, refl, ap, ◌∙◌, List, [], ◌∷◌, ◌++◌, inl, inr, Bool-cases}
use mathlib.Core.Logic.{◌⊎◌}
use pivotal.Pkcs11.{Pool}
use pivotal.Pkcs11.Tenants.{
  TenantCall, DeviceCall, fails_to_open, opens_session, logs_in, fails_to_log_in, works, logs_out,
  closes_session, Front, idle, stuck, working, TenantQueue, next_tenant, join_queue,
  with_tenant_login, end_work, finish_tenant, TenantEvent, arrives, ends, tenant_step, tenant_run,
}

-- What reaches the device after it first failed to open a session; nothing where it never failed.
abbrev pub after_failure : List DeviceCall → List DeviceCall
after_failure [] = []
after_failure (fails_to_open id ∷ cs) = cs
after_failure (opens_session id ∷ cs) = after_failure cs
after_failure (logs_in id ∷ cs) = after_failure cs
after_failure (fails_to_log_in id ∷ cs) = after_failure cs
after_failure (works id ∷ cs) = after_failure cs
after_failure (logs_out id ∷ cs) = after_failure cs
after_failure (closes_session id ∷ cs) = after_failure cs

-- Calls without a failure to open: what follows them is not hidden behind one.
abbrev IsOpening : List DeviceCall → Type 0
IsOpening cs = (later : List DeviceCall) → after_failure (cs ++ later) ≡ after_failure later

-- A step either fails nowhere, or fails in its last call and leaves the queue stuck.
abbrev Halts : TenantQueue × List DeviceCall → Type 0
Halts r =
    IsOpening r.1
    ⊎ ((r.0.front ≡ stuck) × ((later : List DeviceCall) → after_failure (r.1 ++ later) ≡ later))

next_tenant-Halts : (cs : List TenantCall) → Halts (next_tenant cs)
unfolding next_tenant
next_tenant-Halts [] = inl (λ later. refl)
next_tenant-Halts (c ∷ cs) = elim (Bool-cases c.opens) [
  | inr shut ↦ rw shut (inr (refl, λ later. refl))
  | inl opened ↦ elim (Bool-cases c.accepted) [
    | inl yes_in ↦ rw (opened, yes_in) (inl (λ later. refl))
    | inr refused ↦
        rw (opened, refused)
          (elim (next_tenant-Halts cs) [ inl clear ↦ inl clear | inr halted ↦ inr halted ])
  ]
]

join_queue-Halts : (f : Front) (c : TenantCall) (q : TenantQueue) → Halts (join_queue f c q)
unfolding next_tenant
join_queue-Halts idle c q = next_tenant-Halts (c ∷ [])
join_queue-Halts stuck c q = inl (λ later. refl)
join_queue-Halts (working id) c q = inl (λ later. refl)

end_work-Halts : (f : Front) (q : TenantQueue) → Halts (end_work f q)
unfolding next_tenant
end_work-Halts idle q = inl (λ later. refl)
end_work-Halts stuck q = inl (λ later. refl)
end_work-Halts (working id) q = next_tenant-Halts q.queue

tenant_step-Halts : (p : Pool) (e : TenantEvent) (q : TenantQueue) → Halts (tenant_step p e q)
unfolding tenant_step finish_tenant with_tenant_login next_tenant
tenant_step-Halts p (arrives c) q = elim (Bool-cases p.started) [
  | inr off ↦ simp off (inl (λ later. refl))
  | inl on ↦ elim (Bool-cases p.has_standing_login) [
    | inl standing ↦ simp (on, standing) (inl (λ later. refl))
    | inr free ↦ simp (on, free) (join_queue-Halts q.front c q)
  ]
]
tenant_step-Halts p ends q = end_work-Halts q.front q

-- A stuck queue stays stuck, and nothing reaches the device.
tenant_step-stuck :
    (p : Pool) (e : TenantEvent) (q : TenantQueue)
    → q.front ≡ stuck
    → ((tenant_step p e q).0.front ≡ stuck) × ((tenant_step p e q).1 ≡ [])
unfolding tenant_step finish_tenant with_tenant_login next_tenant
tenant_step-stuck p (arrives c) q h = elim (Bool-cases p.started) [
  | inr off ↦ simp off (h, refl)
  | inl on ↦ elim (Bool-cases p.has_standing_login) [
    | inl standing ↦ simp (on, standing) (h, refl)
    | inr free ↦ simp (on, free, h) (refl, refl)
  ]
]
tenant_step-stuck p ends q h = simp h (refl, refl)

tenant_run-stuck :
    (p : Pool) (es : List TenantEvent) (q : TenantQueue)
    → q.front ≡ stuck
    → (tenant_run p es q).1 ≡ []
unfolding tenant_run
tenant_run-stuck p [] q h = refl
tenant_run-stuck p (e ∷ es) q h =
    let (still, quiet) = tenant_step-stuck p e q h in
    ap (λ l. l ++ (tenant_run p es (tenant_step p e q).0).1) quiet
    ∙ tenant_run-stuck p es (tenant_step p e q).0 still

-- In any run of calls of withTenantLogin, a failure of the device to open a session is the last
-- thing that reaches it: no call that was waiting or comes later gets to the device, whatever the
-- device would do for it.
pub tenant_run-after_failure :
    (p : Pool) (es : List TenantEvent) (q : TenantQueue) → after_failure (tenant_run p es q).1 ≡ []
unfolding tenant_run
tenant_run-after_failure p [] q = refl
tenant_run-after_failure p (e ∷ es) q = elim (tenant_step-Halts p e q) [
  | inl clear ↦
      clear (tenant_run p es (tenant_step p e q).0).1
      ∙ tenant_run-after_failure p es (tenant_step p e q).0
  | inr (halted, last) ↦
      last (tenant_run p es (tenant_step p e q).0).1
      ∙ tenant_run-stuck p es (tenant_step p e q).0 halted
]
