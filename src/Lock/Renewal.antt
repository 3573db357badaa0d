-- ===== src/Lock/Renewal.antt =====
-- What a successful update, a new guard and a guard after a renewal tell of the Lease.
use grafana_mcp_setup.Prelude.{
  ℕ, zero, suc, ◌≡◌, inl, inr, Bool, true, false, Option, none, Text, arith, Bool-cases,
  Option-cases,
}
use grafana_mcp_setup.Exec.{ok, Result-cases}
use grafana_mcp_setup.Lock.Kube.{
  KubeLease, Kube, LeaseLocker, put, lease_body, lease_request, read_lease,
}
use grafana_mcp_setup.Lock.Lease.{
  LeaseGuard, decide, update, check_guard, acquire_from, renew, decide_at, expired_at,
}
use grafana_mcp_setup.Lock.Expiry.{IsTaking, decide-IsTaking}

-- A Lease was read, decided on and written back.
pub record Wrote {S : Type 0} (k : Kube S) (l : LeaseLocker) (holder : Text) (acquire : Bool)
    (s t : S) : Type 0 where
  pub lease : KubeLease
  pub after_read : S
  pub read : read_lease k l acquire s ≡ (ok lease, after_read)
  pub taken : KubeLease
  pub taking : IsTaking k l holder acquire (k.now after_read).0 lease taken
  pub status : ℕ
  pub answer : Option KubeLease
  pub wrote :
      lease_request k l put (lease_body taken) true (k.now after_read).1 ≡ ((status, ok answer), t)

-- A guard that was made from a successful update, with the time before it.
pub record IsFresh {S : Type 0} (k : Kube S) (l : LeaseLocker) (acquire : Bool) (g : LeaseGuard)
    (t : S) : Type 0 where
  pub before : S
  pub started : (k.now before).0 ≡ g.last_renew
  pub updated : Wrote k l g.holder acquire (k.now before).1 t

module _ {S : Type 0} (k : Kube S) (l : LeaseLocker) where
  decide_at-Wrote :
      (holder : Text) (acquire : Bool) (s t : S) (lease : KubeLease) (after_read : S)
      → read_lease k l acquire s ≡ (ok lease, after_read)
      → decide_at k l holder acquire lease (k.now after_read) ≡ (ok true, t)
      → Wrote k l holder acquire s t
  decide_at-Wrote holder acquire s t lease after_read read h =
      let now = (k.now after_read).0 in
      elim (Result-cases (decide k l holder acquire now lease)) [
        | inl (o, decided) ↦ elim (Option-cases o) [
          | inl nothing ↦ absurd (grind arith)
          | inr (taken, some_lease) ↦
              let sent = lease_request k l put (lease_body taken) true (k.now after_read).1 in
              elim (Result-cases sent.0.1) [
                | inl (answer, fine) ↦ record {
                  lease = lease;
                  after_read = after_read;
                  read = read;
                  taken = taken;
                  taking = decide-IsTaking k l holder acquire now lease taken (grind arith);
                  status = sent.0.0;
                  answer = answer;
                  wrote = grind arith;
                }
                | inr (e, bad) ↦ absurd (grind arith)
              ]
        ]
        | inr (e, undecided) ↦ absurd (grind arith)
      ]

  -- An update succeeds only if the Lease was read, it was free to be written for the holder, and the
  -- API accepted the write.
  pub update-Wrote :
      (holder : Text) (acquire : Bool) (s t : S)
      → update k l holder acquire s ≡ (ok true, t)
      → Wrote k l holder acquire s t
  unfolding update
  update-Wrote holder acquire s t h = elim (Result-cases (read_lease k l acquire s).0) [
    | inl (lease, read) ↦
        decide_at-Wrote holder acquire s t lease (read_lease k l acquire s).1 (grind arith)
          (grind arith)
    | inr (e, unread) ↦ absurd (grind arith)
  ]

  -- A guard that `Acquire` returns is for its holder and not lost, and is made from a successful
  -- update that was started at the time of its last renewal.
  pub acquire_from-IsFresh :
      (fuel : ℕ) (holder : Text) (s t : S) (g : LeaseGuard)
      → acquire_from k l fuel holder s ≡ (ok g, t)
      → (g.holder ≡ holder) × (g.lost ≡ none) × IsFresh k l true g t
  unfolding acquire_from
  acquire_from-IsFresh zero holder s t g h = absurd (grind arith)
  acquire_from-IsFresh (suc fuel) holder s t g h =
      let x = update k l holder true (k.now s).1 in
      elim (Result-cases x.0) [
        | inl (b, fine) ↦ elim (Bool-cases b) [
          | inl won ↦ (
            grind arith,
            grind arith,
            record {
              before = s;
              started = grind arith;
              updated = update-Wrote g.holder true (k.now s).1 t (grind arith);
            },
          )
          | inr busy ↦ elim (Result-cases (k.tick x.1).0) [
            | inl (u, ticked) ↦ acquire_from-IsFresh fuel holder (k.tick x.1).1 t g (grind arith)
            | inr (e, ended) ↦ absurd (grind arith)
          ]
        ]
        | inr (e, bad) ↦ absurd (grind arith)
      ]

  -- After a tick of the renewal a guard passes a check only if that tick's update succeeded, and was
  -- started at the time of the guard's last renewal: a guard whose renewal failed passes none.
  pub renew-IsFresh :
      (g : LeaseGuard) (s u : S)
      → (check_guard k l (renew k l g s).0 u).0 ≡ ok tt
      → IsFresh k l false (renew k l g s).0 (renew k l g s).1
  unfolding renew check_guard
  renew-IsFresh g s u h = elim (Bool-cases (expired_at k l g (k.now s).0)) [
    | inl late ↦ absurd (grind arith)
    | inr early ↦
        let x = update k l g.holder false (k.now (k.now s).1).1 in
        elim (Result-cases x.0) [
          | inl (b, fine) ↦ elim (Bool-cases b) [
            | inl won ↦ record {
              before = (k.now s).1;
              started = grind arith;
              updated =
                  let same : (renew k l g s).0.holder ≡ g.holder = grind arith in
                  rw same (
                    update-Wrote g.holder false (k.now (k.now s).1).1 (renew k l g s).1
                      (grind arith));
            }
            | inr busy ↦ absurd (grind arith)
          ]
          | inr (e, bad) ↦ absurd (grind arith)
        ]
  ]
