-- ===== src/Lock/Expiry.antt =====
-- When a Lease changes hands (lock.go): the decision of `update`, and a guard's check.
use grafana_mcp_setup.Prelude.{
  ◌+◌, ◌*◌, ◌/◌, ◌≤◌, ◌<◌, ◌≡◌, ◌≢◌, ◌⊎◌, inl, inr, Bool, true, none, some, [], Text, text_eq,
  text_eq_iff, arith, Bool-cases,
}
use grafana_mcp_setup.Prelude.Int.{pos}
use grafana_mcp_setup.Exec.{ok, Result-cases}
use grafana_mcp_setup.Go.Time.{Time, second}
use grafana_mcp_setup.Lock.Kube.{KubeLease, Kube, LeaseLocker}
use grafana_mcp_setup.Lock.Lease.{LeaseGuard, expiry_of, renewed, decide, decided, checked_at}

-- What the format of lock.go does to a time: its text is not empty, and parses to the time without
-- the digits below a microsecond.
pub record TimeLaws {S : Type 0} (k : Kube S) : Type 0 where
  pub nonempty : (t : Time) → k.format_time t ≢ []
  pub parses : (t : Time) → k.parse_time (k.format_time t) ≡ some (t / 1000 * 1000)

-- The Lease may be written for `holder`.
abbrev pub MayTake : {S : Type 0} → Kube S → LeaseLocker → Text → Bool → Time → KubeLease → Type 0
MayTake k l holder acquire now lease =
    (lease.holder_identity ≡ holder)
    ⊎ ((acquire ≡ true)
        × ((lease.holder_identity ≡ []) ⊎ ((t : Time) × (expiry_of k l lease ≡ ok t) × (t ≤ now))))

-- What is written: the holder's name, the time, and the version that was read.
pub record IsTaking {S : Type 0} (k : Kube S) (l : LeaseLocker) (holder : Text) (acquire : Bool)
    (now : Time) (lease taken : KubeLease) : Type 0 where
  pub allowed : MayTake k l holder acquire now lease
  pub held : taken.holder_identity ≡ holder
  pub timed : taken.renew_time ≡ k.format_time now
  pub lasting : taken.lease_duration_seconds ≡ pos (l.lease_duration / second)
  pub version : taken.resource_version ≡ lease.resource_version

module _ {S : Type 0} (k : Kube S) (l : LeaseLocker) where
  decided-MayTake :
      (holder : Text) (acquire : Bool) (now : Time) (lease taken : KubeLease) (expires : Time)
      → expiry_of k l lease ≡ ok expires
      → decided k l holder acquire now lease (ok expires) ≡ ok (some taken)
      → MayTake k l holder acquire now lease
  decided-MayTake holder acquire now lease taken expires e h =
      elim (Bool-cases (text_eq lease.holder_identity holder)) [
        | inl ours ↦ inl ((text_eq_iff lease.holder_identity holder).0 ours)
        | inr others ↦ elim (Bool-cases (text_eq lease.holder_identity [])) [
          | inl free ↦ inr (grind arith, inl ((text_eq_iff lease.holder_identity []).0 free))
          | inr held ↦ inr (grind arith, inr (expires, e, grind arith))
        ]
      ]

  -- The Lease that `update` decides to write is for its own holder and this time, with the version
  -- that was read; and the one that was read is its own, or it acquires and nobody holds it, or it
  -- has expired by then.
  pub decide-IsTaking :
      (holder : Text) (acquire : Bool) (now : Time) (lease taken : KubeLease)
      → decide k l holder acquire now lease ≡ ok (some taken)
      → IsTaking k l holder acquire now lease taken
  unfolding decide
  decide-IsTaking holder acquire now lease taken h = elim (Result-cases (expiry_of k l lease)) [
    | inl (expires, e) ↦
        let g : decided k l holder acquire now lease (ok expires) ≡ ok (some taken) = grind arith in
        record {
          allowed = decided-MayTake holder acquire now lease taken expires e g;
          held = grind arith;
          timed = grind arith;
          lasting = grind arith;
          version = grind arith;
        }
    | inr (e, unread) ↦ absurd (grind arith)
  ]

  module _ (laws : TimeLaws k) (holder : Text) (at_time : Time) (ours : Bool)
      (lease : KubeLease) where
    abbrev held_lease : KubeLease
    held_lease = renewed k l holder at_time ours lease

    expiry-held_lease :
        expiry_of k l held_lease ≡ ok (at_time / 1000 * 1000 + l.lease_duration / second * second)
    expiry-held_lease =
        grind (
          arith,
          laws.parses at_time,
          laws.nonempty at_time,
          text_eq_iff (k.format_time at_time) [],
        )

    decide-held_lease :
        (other : Text) (acquire : Bool) (now : Time)
        → holder ≢ []
        → holder ≢ other
        → now < at_time / 1000 * 1000 + l.lease_duration / second * second
        → decide k l other acquire now held_lease ≡ ok none
    unfolding decide
    decide-held_lease other acquire now named differ early =
        grind (arith, expiry-held_lease, text_eq_iff holder [], text_eq_iff holder other)

    -- While the check of a guard passes, every other holder that reads the guard's Lease leaves it
    -- alone: for a guard whose last renewal was started at least a microsecond before the Lease was
    -- written, and a Lease that lasts for whole seconds.
    pub checked_guard_excludes :
        (g : LeaseGuard) (other : Text) (acquire : Bool) (now : Time)
        → holder ≢ []
        → holder ≢ other
        → l.lease_duration / second * second ≡ l.lease_duration
        → g.last_renew + 1000 ≤ at_time
        → checked_at k l g now ≡ ok tt
        → decide k l other acquire now held_lease ≡ ok none
    checked_guard_excludes g other acquire now named differ whole started passed =
        decide-held_lease other acquire now named differ (grind arith)
