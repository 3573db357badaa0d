-- ===== src/Rotation/Trace/Revoking.antt =====
-- What `revoke` did, by its calls, its counters and its error.
use grafana_mcp_setup.Prelude.{
  ℕ, suc, ◌+◌, ◌≤◌, true, ◌≡◌, ◌≢◌, refl, ◌⊎◌, inl, inr, Option, none, some, List, [], ◌∷◌, ◌++◌,
  Text, codes, text_eq, text_eq_iff, arith, Bool-cases,
}
use grafana_mcp_setup.Exec.{Error, join_all, Result, ok, err}
use grafana_mcp_setup.Grafana.Types.{ServiceAccount, SaToken, viewer}
use grafana_mcp_setup.Rotation.Backend.{Backend}
use grafana_mcp_setup.Rotation.Account.{title_of}
use grafana_mcp_setup.Rotation.Revoke.{
  recorded, revoke_event, with_tokens, Revoked, delete_all, revoke, on_account, locked,
  revoke_result,
}
use grafana_mcp_setup.Rotation.Trace.{
  Event, Logged, logged, find, lock, unlock, delete, action, list, audited, note, value_of,
  succeeded,
}
use grafana_mcp_setup.Rotation.Trace.Deletions.{deletions, tried_deletions}

-- How many tokens were deleted.
abbrev pub done_deletions : List Event → ℕ
done_deletions [] = 0
done_deletions (delete _ _ true ∷ log) = suc (done_deletions log)
done_deletions (_ ∷ log) = done_deletions log

-- The deletions of a run, by its counters: what was tried, what was done, and no error only if
-- these agree.
pub record IsCounted (r : Revoked) (before after : List Event) : Type 0 where
  pub tried : tried_deletions after ≡ tried_deletions before + r.attempted
  pub done : done_deletions after ≡ done_deletions before + r.deleted
  pub within : r.deleted ≤ r.attempted
  pub faultless : r.error ≡ none → r.deleted ≡ r.attempted

join_all-snoc : (es : List Error) (e : Error) → join_all (es ++ e ∷ []) ≢ none
join_all-snoc [] e h = ground arith
join_all-snoc (f ∷ es) e h = ground arith

module _ {S : Type 0} (b : Backend S) (guard : ℕ) (account : Text) where
  record Grown (errs : List Error) (n d : ℕ) (before : List Event) (r : Revoked)
      (after : List Event) : Type 0 where
    tried : tried_deletions after + n ≡ tried_deletions before + r.attempted
    done : done_deletions after + d ≡ done_deletions before + r.deleted
    within : r.deleted + n ≤ r.attempted + d
    faultless : r.error ≡ none → (join_all errs ≡ none) × (r.deleted + n ≡ r.attempted + d)

  delete_all-Grown :
      (ts : List SaToken) (errs : List Error) (n d : ℕ) (s : Logged S)
      → let x = delete_all (logged b) guard account ts errs n d s in
        Grown errs n d s.log x.0 x.1.log
  unfolding delete_all
  delete_all-Grown [] errs n d s = record {
    tried = omega arith;
    done = omega arith;
    within = omega arith;
    faultless = λ e. (e, omega arith);
  }
  delete_all-Grown (t ∷ ts) errs n d s = grind (arith, delete_all-Grown ts, join_all-snoc)

-- The search for the title found a Viewer account, and all tokens that were then listed of it are
-- deleted, in their order.
pub record AllDeleted (title : Text) (log : List Event) : Type 0 where
  pub account : ServiceAccount
  pub a_viewer : account.role ≡ viewer
  pub old : List SaToken
  pub earlier : List Event
  pub trace :
      log
      ≡ deletions account.name old
          (list account.name (some old) ∷ find title (some (some account)) ∷ earlier)

module _ {S : Type 0} (b : Backend S) (guard : ℕ) where
  delete_all-faultless :
      (account : Text) (ts : List SaToken) (errs : List Error) (n d : ℕ) (s : Logged S)
      → let x = delete_all (logged b) guard account ts errs n d s in
        x.0.error ≡ none → x.1.log ≡ deletions account ts s.log
  unfolding delete_all
  delete_all-faultless account [] errs n d s h = refl
  delete_all-faultless account (t ∷ ts) errs n d s h =
      grind
        (arith, delete_all-faultless account ts, join_all-snoc, delete_all-Grown b guard account ts)

module _ {S : Type 0} (b : Backend S) where
  -- The search for the title, which is the last call, found no account.
  abbrev pub NothingToDelete : Text → List Event → Type 0
  NothingToDelete title log = (earlier : List Event) × (log ≡ find title (some none) ∷ earlier)

  with_tokens-AllDeleted :
      (guard : ℕ) (title : Text) (sa : ServiceAccount) (earlier : List Event)
      (r : Result (List SaToken) × S)
      → sa.role ≡ viewer
      → let x =
          with_tokens
            (logged b)
            guard
            sa.name
            (note (λ r. list sa.name (value_of r)) (find title (some (some sa)) ∷ earlier) r) in
        x.0.error ≡ none → AllDeleted title x.1.log
  with_tokens-AllDeleted guard title sa earlier (err e, s) v h = cc
  with_tokens-AllDeleted guard title sa earlier (ok old, s) v h = record {
    account = sa;
    a_viewer = v;
    old = old;
    earlier = earlier;
    trace = delete_all-faultless b guard sa.name old [] 0 0 _ h;
  }

  on_account-AllDeleted :
      (guard : ℕ) (title : Text) (earlier : List Event) (r : Result (Option ServiceAccount) × S)
      → let x = on_account (logged b) guard (note (λ r. find title (value_of r)) earlier r) in
        x.0.error ≡ none → AllDeleted title x.1.log ⊎ NothingToDelete title x.1.log
  on_account-AllDeleted guard title earlier (err e, s) h = cc
  on_account-AllDeleted guard title earlier (ok none, s) h = inr (earlier, refl)
  on_account-AllDeleted guard title earlier (ok (some sa), s) h =
      elim (Bool-cases (text_eq sa.role viewer)) [
        | inl viewing ↦ rw viewing (
            inl (
              with_tokens-AllDeleted guard title sa earlier (b.tokens sa.name s)
                ((text_eq_iff sa.role viewer).0 viewing) (rw viewing at h)))
        | inr other ↦ absurd (grind arith)
      ]

  on_account-IsCounted :
      (guard : ℕ) (r : Result (Option ServiceAccount) × Logged S)
      → let x = on_account (logged b) guard r in IsCounted x.0 r.1.log x.1.log
  on_account-IsCounted guard (err e, s) = record {
    tried = omega arith;
    done = omega arith;
    within = omega arith;
    faultless = λ e. refl;
  }
  on_account-IsCounted guard (ok none, s) = record {
    tried = omega arith;
    done = omega arith;
    within = omega arith;
    faultless = λ e. refl;
  }
  on_account-IsCounted guard (ok (some sa), s) = grind (arith, delete_all-Grown b)

  locked-AllDeleted :
      (email : Text) (earlier : List Event) (r : Result ℕ × S)
      → let x = locked (logged b) email (note (λ r. lock (succeeded r)) earlier r) in
        x.0.error ≡ none
        → (before : List Event) × (x.1.log ≡ unlock ∷ before)
          × (AllDeleted (title_of email) before ⊎ NothingToDelete (title_of email) before)
  locked-AllDeleted email earlier (err e, s) h = cc
  locked-AllDeleted email earlier (ok guard, s) h =
      let r = b.find (title_of email) s in
      (
        (on_account (logged b) guard
            (note (λ r. find (title_of email) (value_of r)) (lock true ∷ earlier) r)).1.log,
        refl,
        on_account-AllDeleted guard (title_of email) (lock true ∷ earlier) r h,
      )

  -- If `revoke` returns no error, then either the search for the user's title found no service account
  -- and nothing was called after it, or it found a Viewer account and every token that was then listed
  -- of it is deleted, each behind a passed check; the guard was released, and one metric
  -- "success" and one audit record "tokens_revoked" with the run's counters are the last events.
  pub revoke-AllDeleted :
      (email : Text) (s : Logged S)
      → let x = revoke (logged b) email s in
        x.0.error ≡ none
        → (before : List Event) × (x.1.log
            ≡ audited (record {
              event = codes "tokens_revoked";
              email = email;
              error = none;
              account_id = x.0.account_id;
              attempted = x.0.attempted;
              deleted = x.0.deleted;
            })
              ∷ action (codes "revoke") (codes "success")
              ∷ unlock
              ∷ before)
          × (AllDeleted (title_of email) before ⊎ NothingToDelete (title_of email) before)
  unfolding revoke revoke_result revoke_event
  revoke-AllDeleted email s h =
      let (before, trace, deleted) = locked-AllDeleted email s.log (b.acquire email s.inner) h in
      (before, grind arith, deleted)

  locked-IsCounted :
      (email : Text) (earlier : List Event) (r : Result ℕ × S)
      → let x =
          recorded
            (logged b)
            email
            (locked (logged b) email (note (λ r. lock (succeeded r)) earlier r)) in
        IsCounted x.0 earlier x.1.log
  locked-IsCounted email earlier (err e, s) = record {
    tried = omega arith;
    done = omega arith;
    within = omega arith;
    faultless = λ e. refl;
  }
  locked-IsCounted email earlier (ok guard, s) =
      let c = on_account-IsCounted guard (
        note (λ r. find (title_of email) (value_of r)) (lock true ∷ earlier)
          (b.find (title_of email) s)) in
      record { tried = c.tried; done = c.done; within = c.within; faultless = c.faultless }

  -- Whatever `revoke` meets, its counters are the deletions that it tried and those that succeeded,
  -- no deletion is counted as done that was not tried, and no error means that all tried ones were
  -- done.
  pub revoke-IsCounted :
      (email : Text) (s : Logged S)
      → let x = revoke (logged b) email s in IsCounted x.0 s.log x.1.log
  unfolding revoke
  revoke-IsCounted email s = locked-IsCounted email s.log (b.acquire email s.inner)
