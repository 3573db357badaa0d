-- ===== src/Rotation/Trace/Deletions.antt =====
-- The loop of `issue` over the old tokens, by the calls that it makes.
use grafana_mcp_setup.Prelude.{
  ℕ, suc, Bool, true, false, ◌≡◌, refl, ap, ◌⊎◌, inl, inr, some, List, [], ◌∷◌, ◌++◌, Text, arith,
}
use grafana_mcp_setup.Exec.{Result, ok, err, and_then}
use grafana_mcp_setup.Grafana.Types.{SaToken}
use grafana_mcp_setup.Rotation.Backend.{Backend}
use grafana_mcp_setup.Rotation.Issue.{unless_failed, delete_old}
use grafana_mcp_setup.Rotation.Trace.{
  Event, Logged, logged, check, mint, delete, list, read_random, note, watch, succeeded,
}

-- The log after each of the tokens was checked for and deleted, in order.
abbrev pub deletions : Text → List SaToken → List Event → List Event
deletions account [] log = log
deletions account (t ∷ ts) log = deletions account ts (delete account t.id true ∷ check true ∷ log)

-- The log after a new token was asked for, from the listing of the old ones on.
abbrev pub minting : Text → Text → List SaToken → List Event → List Event
minting account name old log =
    mint account name true ∷ check true ∷ read_random ∷ list account (some old) ∷ log

-- How many deletions of listed tokens were tried.
abbrev pub tried_deletions : List Event → ℕ
tried_deletions [] = 0
tried_deletions (delete _ _ _ ∷ log) = suc (tried_deletions log)
tried_deletions (_ ∷ log) = tried_deletions log

-- One deletion, or the check before it, that failed.
abbrev pub StopsAt : Text → SaToken → List Event → List Event → Type 0
StopsAt account t before log =
    (log ≡ check false ∷ before) ⊎ (log ≡ delete account t.id false ∷ check true ∷ before)

-- A tail of the old tokens is left, and the deletion of its head is what failed.
pub record Stopped (account : Text) (ts : List SaToken) (before after : List Event) : Type 0 where
  pub gone : List SaToken
  pub kept : SaToken
  pub left : List SaToken
  pub order : ts ≡ gone ++ kept ∷ left
  pub stops : StopsAt account kept (deletions account gone before) after

Stopped-cons :
    (account : Text) (t : SaToken) (ts : List SaToken) (before after : List Event)
    → Stopped account ts (delete account t.id true ∷ check true ∷ before) after
    → Stopped account (t ∷ ts) before after
Stopped-cons account t ts before after x = record {
  gone = t ∷ x.gone;
  kept = x.kept;
  left = x.left;
  order = ap (λ (l : List SaToken). t ∷ l) x.order;
  stops = x.stops;
}

module _ {S : Type 0} (b : Backend S) (guard : ℕ) (account : Text) where
  pub delete_old_complete :
      (ts : List SaToken) (s : Logged S)
      → (delete_old (logged b) guard account ts s).0 ≡ false
      → (delete_old (logged b) guard account ts s).1.log ≡ deletions account ts s.log
  unfolding delete_old
  delete_old_complete [] s h = refl
  delete_old_complete (t ∷ ts) s h = grind (arith, delete_old_complete ts)

  module _ (t : SaToken) (ts : List SaToken) (rest : Logged S → Bool × Logged S)
      (later : (s : Logged S) → (rest s).0 ≡ true → Stopped account ts s.log (rest s).1.log)
      (before : List Event) where
    deleting : Result (Unit {0}) × S → Bool × Logged S
    deleting r =
        unless_failed (note (λ r. delete account t.id (succeeded r)) (check true ∷ before) r) rest

    deleting-Stopped :
        (r : Result (Unit {0}) × S)
        → (deleting r).0 ≡ true
        → Stopped account (t ∷ ts) before (deleting r).1.log
    unfolding deleting
    deleting-Stopped (ok u, s) h =
        Stopped-cons account t ts before _ (later (record { inner = s; log = _ }) h)
    deleting-Stopped (err e, s) h = record {
      gone = [];
      kept = t;
      left = ts;
      order = refl;
      stops = inr refl;
    }

    checking : Result (Unit {0}) × S → Bool × Logged S
    checking r =
        unless_failed
          (and_then (note (λ r. check (succeeded r)) before r)
            (λ _. watch (λ r. delete account t.id (succeeded r)) (b.delete_token account t.id)))
          rest

    checking-Stopped :
        (r : Result (Unit {0}) × S)
        → (checking r).0 ≡ true
        → Stopped account (t ∷ ts) before (checking r).1.log
    unfolding checking deleting
    checking-Stopped (ok u, s) h = deleting-Stopped (b.delete_token account t.id s) h
    checking-Stopped (err e, s) h = record {
      gone = [];
      kept = t;
      left = ts;
      order = refl;
      stops = inl refl;
    }

  pub delete_old_partial :
      (ts : List SaToken) (s : Logged S)
      → (delete_old (logged b) guard account ts s).0 ≡ true
      → Stopped account ts s.log (delete_old (logged b) guard account ts s).1.log
  unfolding delete_old checking
  delete_old_partial [] s h = cc
  delete_old_partial (t ∷ ts) s h =
      checking-Stopped t ts (delete_old (logged b) guard account ts) (delete_old_partial ts) s.log
        (b.check guard s.inner) h
