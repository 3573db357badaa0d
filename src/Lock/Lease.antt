-- ===== src/Lock/Lease.antt =====
-- The Lease of lock.go as a lock: `update`, `Acquire`, the renewal and `leaseGuard`.
use grafana_mcp_setup.Prelude.{
  ℕ, zero, suc, ◌+◌, ◌-◌, ◌*◌, ◌/◌, ◌^◌, Bool, true, false, ◌||◌, ◌&&◌, not, Option, none, some, [],
  ◌++◌, Text, codes, text_eq, ◌==◌, if◌then◌else◌,
}
use grafana_mcp_setup.Prelude.Int.{ℤ, pos, negsuc}
use grafana_mcp_setup.Exec.{Error, failure, out_of_fuel, Result, ok, err, Exec, and_then}
use grafana_mcp_setup.Go.Time.{Time, second, zero_time, after}
use grafana_mcp_setup.Rotation.Account.{hex}
use grafana_mcp_setup.Lock.Kube.{
  KubeLease, Kube, LeaseLocker, Answer, get, put, no_body, lease_body, lease_request, read_lease,
}

-- type leaseGuard, its channels apart.
pub record LeaseGuard : Type 0 where
  pub holder : Text
  pub lost : Option Error
  pub last_renew : Time

-- `lease.Spec.LeaseTransitions++` on int32.
abbrev pub next_int32 : ℤ → ℤ
next_int32 (pos n) = if n == 2 ^ 31 - 1 then negsuc n else pos (n + 1)
next_int32 (negsuc zero) = pos 0
next_int32 (negsuc (suc n)) = negsuc n

-- t.Add of a number of seconds.
abbrev pub add_seconds : Time → ℤ → Time
add_seconds t (pos n) = t + n * second
add_seconds t (negsuc n) = t - (n + 1) * second

module _ {S : Type 0} (k : Kube S) (l : LeaseLocker) where
  abbrev pub expiry_from : KubeLease → Option Time → Result Time
  expiry_from lease none = err (failure (codes "parsing Lease renewTime"))
  expiry_from lease (some t) = ok (add_seconds t lease.lease_duration_seconds)

  abbrev pub expiry_of : KubeLease → Result Time
  expiry_of lease =
      if text_eq lease.renew_time []
      then ok zero_time
      else expiry_from lease (k.parse_time lease.renew_time)

  -- The Lease that `update` writes.
  abbrev pub renewed : Text → Time → Bool → KubeLease → KubeLease
  renewed holder now ours lease = record lease {
    holder_identity = holder;
    lease_duration_seconds = pos (l.lease_duration / second);
    acquire_time = if ours then lease.acquire_time else k.format_time now;
    renew_time = k.format_time now;
    lease_transitions =
        if ours then lease.lease_transitions else next_int32 lease.lease_transitions;
  }

  abbrev pub decided : Text → Bool → Time → KubeLease → Result Time → Result (Option KubeLease)
  decided holder acquire now lease (err e) = err e
  decided holder acquire now lease (ok expires) =
      let ours = text_eq lease.holder_identity holder in
      let available = text_eq lease.holder_identity [] || not (after expires now) in
      if not acquire && not ours
      then ok none
      else if not ours && not available
      then ok none
      else ok (some (renewed holder now ours lease))

  -- What `update` makes of the Lease that it read: the Lease to write, if any.
  unfoldable pub decide : Text → Bool → Time → KubeLease → Result (Option KubeLease)
  decide holder acquire now lease = decided holder acquire now lease (expiry_of lease)

  abbrev pub written : Bool → Answer × S → Result Bool × S
  written acquire ((status, r), s) =
      if status == 409 && acquire then (ok false, s) else (succeeded r, s)
    where
      succeeded : Result (Option KubeLease) → Result Bool
      succeeded (ok _) = ok true
      succeeded (err e) = err e

  abbrev pub write_back : Bool → Option KubeLease → Exec S Bool
  write_back acquire none s = (ok false, s)
  write_back acquire (some lease) s =
      written acquire (lease_request k l put (lease_body lease) true s)

  abbrev pub decide_at : Text → Bool → KubeLease → Time × S → Result Bool × S
  decide_at holder acquire lease (now, s) =
      and_then (decide holder acquire now lease, s) (write_back acquire)

  unfoldable pub update : Text → Bool → Exec S Bool
  update holder acquire s =
      and_then (read_lease k l acquire s) (λ lease s'. decide_at holder acquire lease (k.now s'))

  abbrev pub expired_at : LeaseGuard → Time → Bool
  expired_at g now = not (after (g.last_renew + l.lease_duration) now)

  abbrev pub checked_at : LeaseGuard → Time → Result (Unit {0})
  checked_at g now = verdict g.lost
    where
      verdict : Option Error → Result (Unit {0})
      verdict none =
          if expired_at g now
          then err (failure (codes "kubernetes rotation Lease expired"))
          else ok tt
      verdict (some e) = err e

  -- `Check`
  unfoldable pub check_guard : LeaseGuard → Exec S (Unit {0})
  check_guard g s = let (now, s') = k.now s in (checked_at g now, s')

  -- The loop of `Acquire`, with fuel for its rounds.
  abbrev pub acquired : Text → Time → Bool → Option LeaseGuard
  acquired holder attempted true =
      some (record { holder = holder; lost = none; last_renew = attempted })
  acquired holder attempted false = none

  abbrev pub attempt_at : Text → Time × S → Result (Option LeaseGuard) × S
  attempt_at holder (attempted, s) =
      and_then (update holder true s) (λ b s'. (ok (acquired holder attempted b), s'))

  unfoldable pub acquire_from : ℕ → Text → Exec S LeaseGuard
  acquire_from zero holder s = (err out_of_fuel, s)
  acquire_from (suc fuel) holder s =
      and_then (attempt_at holder (k.now s)) (λ o. wait o (acquire_from fuel holder))
    where
      wait : Option LeaseGuard → Exec S LeaseGuard → Exec S LeaseGuard
      wait (some g) again s = (ok g, s)
      wait none again s = and_then (k.tick s) (λ _. again)

  -- `randomHolder` and `Acquire`
  unfoldable pub acquire_lease : ℕ → Exec S LeaseGuard
  acquire_lease fuel s =
      and_then (k.random 12 s) (λ b. acquire_from fuel (l.pod_name ++ (codes "-" ++ hex b)))

  abbrev pub lose : Text → LeaseGuard → LeaseGuard
  lose message g = record g { lost = some (failure message) }

  abbrev pub renewed_guard : LeaseGuard → Time → Result Bool × S → LeaseGuard × S
  renewed_guard g attempted (ok true, s) = (record g { last_renew = attempted }, s)
  renewed_guard g attempted (ok false, s) = (lose (codes "kubernetes rotation Lease was lost") g, s)
  renewed_guard g attempted (err e, s) = (lose (codes "kubernetes rotation Lease was lost") g, s)

  abbrev pub renew_at : LeaseGuard → Time × S → LeaseGuard × S
  renew_at g (attempted, s) = renewed_guard g attempted (update g.holder false s)

  abbrev pub tick_at : LeaseGuard → Time × S → LeaseGuard × S
  tick_at g (now, s) =
      if expired_at g now
      then (lose (codes "kubernetes rotation Lease expired before renewal") g, s)
      else renew_at g (k.now s)

  -- One tick of `renew`; a guard that is lost is renewed no more.
  unfoldable pub renew : LeaseGuard → S → LeaseGuard × S
  renew g s = tick_at g (k.now s)

  abbrev pub give_back : KubeLease → Time × S → S
  give_back lease (now, s) =
      (lease_request k l put
        (lease_body (record lease { holder_identity = []; renew_time = k.format_time now })) false
        s).1

  abbrev pub release_answer : LeaseGuard → Answer × S → S
  release_answer g ((status, ok (some lease)), s) =
      if not (text_eq lease.holder_identity g.holder) then s else give_back lease (k.now s)
  release_answer g ((status, _), s) = s

  -- `Release`
  unfoldable pub release_guard : LeaseGuard → S → S
  release_guard g s = release_answer g (lease_request k l get no_body true s)
