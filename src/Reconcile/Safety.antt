-- ===== src/Reconcile/Safety.antt =====
-- The two commands as a whole: their deletions, their locks and their dry runs.
use grafana_mcp_setup.Prelude.{
  ℕ, ◌≡◌, refl, inl, inr, some, Bool, false, List, [], ◌∷◌, Text, arith,
}
use grafana_mcp_setup.Exec.{Exec, Result-cases}
use grafana_mcp_setup.Reconcile.Admin.{Admin}
use grafana_mcp_setup.Reconcile.Loop.{CleanupOptions}
use grafana_mcp_setup.Reconcile.Run.{
  Step, reconcile_one, reconcile, guarded, each_target, offboard_one, offboard_target, offboard,
}
use grafana_mcp_setup.Reconcile.Watched.{
  Deed, Watched, watched, Allowed, Idle, Held, locked, deletions, reconcile_one-Held,
  reconcile_one-dry_run, offboard_one-Held, offboard_one-dry_run,
}

-- Between two targets: everything was allowed, and no lock is held.
abbrev pub IsRest : List Deed → Type 0
IsRest deeds = Allowed deeds × Idle deeds

module _ {S A : Type 0} (a : Admin S) where
  guarded-IsRest :
      (work : ℕ → Text → Exec (Watched S) A)
      → ((guard : ℕ) (email : Text) (s : Watched S)
          → Held guard email s.deeds
          → Held guard email (work guard email s).1.deeds)
      → (email : Text) (s : Watched S) → IsRest s.deeds
      → IsRest (guarded (watched a) work email s).1.deeds
  guarded-IsRest work safe email s (allowed, idle) =
      elim (Result-cases (a.acquire email s.inner).0) [
        | inr (e, failed) ↦ rw failed ((idle, allowed), idle)
        | inl (guard, acquired) ↦
            let (after, held) =
              safe guard email
                (record {
                  inner = (a.acquire email s.inner).1;
                  deeds = locked email (some guard) ∷ s.deeds;
                })
                ((idle, allowed), (refl, refl)) in
            rw acquired (((email, held), after), tt)
      ]

  guarded-deletions :
      (work : ℕ → Text → Exec (Watched S) A)
      → ((guard : ℕ) (email : Text) (s : Watched S)
          → deletions (work guard email s).1.deeds ≡ deletions s.deeds)
      → (email : Text) (s : Watched S)
      → deletions (guarded (watched a) work email s).1.deeds ≡ deletions s.deeds
  guarded-deletions work none_deleted email s = grind (arith, none_deleted)

module _ {S : Type 0} (a : Admin S) (work : Text → Step (Watched S)) where
  each_target-IsRest :
      ((email : Text) (s : Watched S) → IsRest s.deeds → IsRest (work email s).1.deeds)
      → (emails : List Text) (s : Watched S) → IsRest s.deeds
      → IsRest (each_target (watched a) work emails s).1.deeds
  unfolding each_target
  each_target-IsRest safe [] s h = h
  each_target-IsRest safe (email ∷ emails) s h =
      grind (arith, safe email s h, each_target-IsRest safe emails)

  each_target-deletions :
      ((email : Text) (s : Watched S) → deletions (work email s).1.deeds ≡ deletions s.deeds)
      → (emails : List Text) (s : Watched S)
      → deletions (each_target (watched a) work emails s).1.deeds ≡ deletions s.deeds
  unfolding each_target
  each_target-deletions none_deleted [] s = refl
  each_target-deletions none_deleted (email ∷ emails) s =
      grind (arith, none_deleted email s, each_target-deletions none_deleted emails)

module _ {S : Type 0} (a : Admin S) (opts : CleanupOptions) where
  -- `Reconcile` that is started with no lock held deletes a token only directly behind a check that
  -- passed of the guard that is held for the key of an e-mail address, and only of the account that the
  -- last search, for the title of that same address, found and whose role is Viewer; under the same lock
  -- it searches and lists. It asks for a lock only where it holds none, releases the guard that it
  -- holds, and ends with no lock held, also when it fails.
  pub reconcile-IsRest :
      (emails : List Text) (s : Watched S)
      → IsRest s.deeds
      → IsRest (reconcile (watched a) opts emails s).1.deeds
  unfolding reconcile
  reconcile-IsRest emails s h = grind (
    arith,
    each_target-IsRest a (guarded (watched a) (reconcile_one (watched a) opts))
        (guarded-IsRest a (reconcile_one (watched a) opts) (reconcile_one-Held a opts)),
  )

  -- Without `--apply`, `Reconcile` tries no deletion.
  pub reconcile-dry_run :
      (emails : List Text) (s : Watched S)
      → opts.apply ≡ false
      → deletions (reconcile (watched a) opts emails s).1.deeds ≡ deletions s.deeds
  unfolding reconcile
  reconcile-dry_run emails s h = grind (
    arith,
    each_target-deletions a (guarded (watched a) (reconcile_one (watched a) opts)) (
        guarded-deletions a (reconcile_one (watched a) opts)
          (λ guard email s'. reconcile_one-dry_run a opts guard email s' h)),
  )

module _ {S : Type 0} (a : Admin S) (apply : Bool) where
  offboard_target-IsRest :
      (email : Text) (s : Watched S)
      → IsRest s.deeds
      → IsRest (offboard_target (watched a) apply email s).1.deeds
  unfolding offboard_target
  offboard_target-IsRest email s h = grind (
    arith,
    guarded-IsRest a (offboard_one (watched a) apply) (offboard_one-Held a apply) email s h,
  )

  offboard_target-deletions :
      apply ≡ false
      → (email : Text) (s : Watched S)
      → deletions (offboard_target (watched a) apply email s).1.deeds ≡ deletions s.deeds
  unfolding offboard_target
  offboard_target-deletions h email s = grind (
    arith,
    guarded-deletions a (offboard_one (watched a) apply)
        (λ guard e s'. offboard_one-dry_run a apply guard e s' h) email s,
  )

  -- `Offboard` that is started with no lock held deletes a service account only directly behind a
  -- check that passed of the guard that is held for the key of an e-mail address, and only the account
  -- that the last search, for the title of that same address, found and whose role is Viewer; under the
  -- same lock it searches. It asks for a lock only where it holds none, releases the guard that it
  -- holds, and ends with no lock held, also when it fails.
  pub offboard-IsRest :
      (emails : List Text) (s : Watched S)
      → IsRest s.deeds
      → IsRest (offboard (watched a) apply emails s).1.deeds
  unfolding offboard
  offboard-IsRest emails s h =
      grind (arith, each_target-IsRest a (offboard_target (watched a) apply) offboard_target-IsRest)

  -- Without `--apply`, `Offboard` tries no deletion.
  pub offboard-dry_run :
      (emails : List Text) (s : Watched S)
      → apply ≡ false
      → deletions (offboard (watched a) apply emails s).1.deeds ≡ deletions s.deeds
  unfolding offboard
  offboard-dry_run emails s h = grind (
    arith,
    each_target-deletions a (offboard_target (watched a) apply) (offboard_target-deletions h),
  )
