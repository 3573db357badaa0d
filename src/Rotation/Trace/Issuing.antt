-- ===== src/Rotation/Trace/Issuing.antt =====
-- What `issue` did, by how it ended.
use grafana_mcp_setup.Prelude.{
  ℕ, true, false, ◌≡◌, refl, inl, inr, Option, none, some, List, [], ◌∷◌, Text, codes, arith,
  Bool-cases,
}
use grafana_mcp_setup.Exec.{Error, Result, ok, err}
use grafana_mcp_setup.Grafana.Types.{ServiceAccount, SaToken, IssuedToken}
use grafana_mcp_setup.Cookies.Flash.{FlashCodec, DeliveryPreparation}
use grafana_mcp_setup.Rotation.Backend.{Backend}
use grafana_mcp_setup.Rotation.Account.{title_of}
use grafana_mcp_setup.Rotation.Issue.{
  is_oversize, locked, IssueResult, rotate, issue, result_of, on_account, minted,
}
use grafana_mcp_setup.Rotation.Trace.{
  Event, Logged, logged, check, unlock, mint, action, find, list, read_random, note, watch,
  succeeded, value_of,
}
use grafana_mcp_setup.Rotation.Trace.Deletions.{
  deletions, minting, tried_deletions, Stopped, delete_old_complete, delete_old_partial,
}

-- Every old token was deleted, after the replacement was minted.
pub record Rotated (r : IssueResult) (log : List Event) : Type 0 where
  pub old : List SaToken
  pub earlier : List Event
  pub trace : log ≡ deletions r.account_id old (minting r.account_id r.token_name old earlier)

-- The replacement was minted, and the deletions stopped at an old token.
pub record PartlyRotated (r : IssueResult) (log : List Event) : Type 0 where
  pub old : List SaToken
  pub earlier : List Event
  pub stopped : Stopped r.account_id old (minting r.account_id r.token_name old earlier) log

abbrev pub listed_or_none : Result (List SaToken) → List SaToken
listed_or_none (ok old) = old
listed_or_none (err _) = []

module _ {S : Type 0} (b : Backend S) (codec : FlashCodec) (ttl : ℕ) (email : Text)
    (prepared : DeliveryPreparation) where
  rotate-Rotated :
      (label : Text) (guard : ℕ) (sa : ServiceAccount) (s : Logged S)
      → let x = rotate (logged b) codec ttl email prepared label guard sa s in
        x.0.error ≡ none → x.0.issued.partial_cleanup ≡ false → Rotated x.0.issued x.1.log
  unfolding rotate
  rotate-Rotated label guard sa s h k = record {
    old = listed_or_none (b.tokens sa.name s.inner).0;
    earlier = s.log;
    trace = grind (arith, delete_old_complete b);
  }

  minted-PartlyRotated :
      (label : Text) (guard : ℕ) (account name : Text) (old : List SaToken) (earlier : List Event)
      (r : Result IssuedToken × S)
      → let x = minted (logged b) codec ttl email prepared label guard account name old (
          note
            (λ r. mint account name (succeeded r))
            (check true ∷ read_random ∷ list account (some old) ∷ earlier)
            r) in
        x.0.issued.partial_cleanup ≡ true → PartlyRotated x.0.issued x.1.log
  minted-PartlyRotated label guard account name old earlier (err e, s) h = cc
  minted-PartlyRotated label guard account name old earlier (ok token, s) h =
      elim (Bool-cases (is_oversize (logged b) codec ttl email prepared token)) [
        | inl long ↦ absurd (grind (arith))
        | inr fits ↦ record {
          old = old;
          earlier = earlier;
          stopped = grind (arith, delete_old_partial b);
        }
      ]

  rotate-PartlyRotated :
      (label : Text) (guard : ℕ) (sa : ServiceAccount) (s : Logged S)
      → let x = rotate (logged b) codec ttl email prepared label guard sa s in
        x.0.issued.partial_cleanup ≡ true → PartlyRotated x.0.issued x.1.log
  unfolding rotate
  rotate-PartlyRotated label guard sa s h = grind (arith, minted-PartlyRotated)

  on_account-Rotated :
      (guard : ℕ) (r : Result (Option ServiceAccount) × Logged S)
      → let x = on_account (logged b) codec ttl email prepared guard r in
        x.0.error ≡ none → x.0.issued.partial_cleanup ≡ false → Rotated x.0.issued x.1.log
  on_account-Rotated guard r h k = grind (arith, rotate-Rotated)

  on_account-PartlyRotated :
      (guard : ℕ) (r : Result (Option ServiceAccount) × Logged S)
      → let x = on_account (logged b) codec ttl email prepared guard r in
        x.0.issued.partial_cleanup ≡ true → PartlyRotated x.0.issued x.1.log
  on_account-PartlyRotated guard r h = grind (arith, rotate-PartlyRotated)

  rotate-tried_deletions :
      (label : Text) (guard : ℕ) (sa : ServiceAccount) (s : Logged S)
      → let x = rotate (logged b) codec ttl email prepared label guard sa s in
        (e : Error) → x.0.error ≡ some e → tried_deletions x.1.log ≡ tried_deletions s.log
  unfolding rotate
  rotate-tried_deletions label guard sa s e h = grind arith

  locked-Rotated :
      (r : Result ℕ × Logged S)
      → let x = locked (logged b) codec ttl email prepared r in
        x.0.error ≡ none
        → x.0.issued.partial_cleanup ≡ false
        → (before : List Event) × (x.1.log ≡ unlock ∷ before) × Rotated x.0.issued before
  locked-Rotated (err e, s) h k = cc
  locked-Rotated (ok guard, s) h k =
      let r = watch (λ r. find (title_of email) (value_of r)) (b.find (title_of email)) s in
      (
        (on_account (logged b) codec ttl email prepared guard r).1.log,
        refl,
        on_account-Rotated guard r h k,
      )

  locked-PartlyRotated :
      (r : Result ℕ × Logged S)
      → let x = locked (logged b) codec ttl email prepared r in
        x.0.issued.partial_cleanup ≡ true
        → (before : List Event) × (x.1.log ≡ unlock ∷ before) × PartlyRotated x.0.issued before
  locked-PartlyRotated (err e, s) h = cc
  locked-PartlyRotated (ok guard, s) h =
      let r = watch (λ r. find (title_of email) (value_of r)) (b.find (title_of email)) s in
      (
        (on_account (logged b) codec ttl email prepared guard r).1.log,
        refl,
        on_account-PartlyRotated guard r h,
      )

  rotate_partial_error :
      (label : Text) (guard : ℕ) (sa : ServiceAccount) (s : Logged S)
      → let x = rotate (logged b) codec ttl email prepared label guard sa s in
        x.0.issued.partial_cleanup ≡ true → x.0.error ≡ none
  unfolding rotate
  rotate_partial_error label guard sa s h = grind arith

  -- If `issue` ends without an error and without a partial cleanup, then its last events are: the
  -- listing of the old tokens, the minting of the replacement behind a passed check, for each old
  -- token in order a passed check and its deletion, the release of the guard, and one metric
  -- "success".
  pub issue-Rotated :
      (s : Logged S)
      → let x = issue (logged b) codec ttl email prepared s in
        x.0.error ≡ none
        → x.0.issued.partial_cleanup ≡ false
        → (before : List Event) × (x.1.log ≡ action x.0.action (codes "success") ∷ unlock ∷ before)
          × Rotated x.0.issued before
  unfolding issue result_of
  issue-Rotated s h k =
      let (before, trace, rotated) = locked-Rotated ((logged b).acquire email s) h k in
      (before, grind arith, rotated)

  -- If the cleanup was partial, then `issue` reports no error, the replacement was minted, the
  -- deletions stopped at the first old token whose check or deletion failed, all tokens before it
  -- are deleted and none behind it was tried, the guard was released and one metric "partial"
  -- recorded.
  pub issue-PartlyRotated :
      (s : Logged S)
      → let x = issue (logged b) codec ttl email prepared s in
        x.0.issued.partial_cleanup ≡ true
        → (before : List Event) × (x.0.error ≡ none)
          × (x.1.log ≡ action x.0.action (codes "partial") ∷ unlock ∷ before)
          × PartlyRotated x.0.issued before
  unfolding issue result_of
  issue-PartlyRotated s h =
      let (before, trace, rotated) = locked-PartlyRotated ((logged b).acquire email s) h in
      let fine : (issue (logged b) codec ttl email prepared s).0.error ≡ none =
        grind (arith, rotate_partial_error) in
      (before, fine, grind arith, rotated)

  -- If `issue` fails, then it has tried to delete none of the old tokens, and its last event is the
  -- metric "failure".
  pub issue-tried_deletions :
      (s : Logged S) (e : Error)
      → let x = issue (logged b) codec ttl email prepared s in
        x.0.error ≡ some e
        → (tried_deletions x.1.log ≡ tried_deletions s.log)
          × (before : List Event) × (x.1.log ≡ action x.0.action (codes "failure") ∷ before)
  unfolding issue result_of
  issue-tried_deletions s e h = (
    grind (arith, rotate-tried_deletions),
    (locked (logged b) codec ttl email prepared ((logged b).acquire email s)).1.log,
    grind arith,
  )
