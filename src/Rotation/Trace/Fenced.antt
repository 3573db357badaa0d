-- ===== src/Rotation/Trace/Fenced.antt =====
-- The changes of a user's credentials in `issue` and `revoke`, and the guard that they are made under.
use grafana_mcp_setup.Prelude.{ℕ, true, false, List, [], ◌∷◌, Text, arith}
use grafana_mcp_setup.Exec.{Error}
use grafana_mcp_setup.Grafana.Types.{ServiceAccount, SaToken}
use grafana_mcp_setup.Cookies.Flash.{FlashCodec, DeliveryPreparation}
use grafana_mcp_setup.Rotation.Backend.{Backend}
use grafana_mcp_setup.Rotation.Issue.{delete_old, rotate, issue}
use grafana_mcp_setup.Rotation.Revoke.{delete_all, revoke}
use grafana_mcp_setup.Rotation.Trace.{
  find, list, cleanup, Event, Logged, logged, lock, check, unlock, create, mint, delete,
}

abbrev pub AfterCheck : List Event → Type 0
AfterCheck (check true ∷ _) = Unit
AfterCheck _ = ⊥

abbrev pub FencedBy : Event → List Event → Type 0
FencedBy (create _ _) before = AfterCheck before
FencedBy (mint _ _ _) before = AfterCheck before
FencedBy (delete _ _ _) before = AfterCheck before
FencedBy _ before = Unit

-- Newest first.
abbrev pub Fenced : List Event → Type 0
Fenced [] = Unit
Fenced (e ∷ before) = FencedBy e before × Fenced before

-- The last attempt to lock succeeded, and nothing was unlocked since.
abbrev pub Holding : List Event → Type 0
Holding [] = ⊥
Holding (lock true ∷ _) = Unit
Holding (lock false ∷ _) = ⊥
Holding (unlock ∷ _) = ⊥
Holding (_ ∷ before) = Holding before

abbrev pub HeldBy : Event → List Event → Type 0
HeldBy (find _ _) before = Holding before
HeldBy (list _ _) before = Holding before
HeldBy (create _ _) before = Holding before
HeldBy (mint _ _ _) before = Holding before
HeldBy (delete _ _ _) before = Holding before
HeldBy (cleanup _ _ _) before = Holding before
HeldBy _ before = Unit

-- Every call of Grafana is made while the guard is held.
abbrev pub Held : List Event → Type 0
Held [] = Unit
Held (e ∷ before) = HeldBy e before × Held before

module _ {S : Type 0} (b : Backend S) where
  delete_old-Fenced :
      (guard : ℕ) (account : Text) (ts : List SaToken) (s : Logged S)
      → Fenced s.log
      → Fenced (delete_old (logged b) guard account ts s).1.log
  unfolding delete_old
  delete_old-Fenced guard account [] s h = h
  delete_old-Fenced guard account (t ∷ ts) s h = grind (arith, delete_old-Fenced guard account ts)

  delete_old-Held :
      (guard : ℕ) (account : Text) (ts : List SaToken) (s : Logged S)
      → Held s.log
      → Holding s.log
      → Held (delete_old (logged b) guard account ts s).1.log
  unfolding delete_old
  delete_old-Held guard account [] s h k = h
  delete_old-Held guard account (t ∷ ts) s h k = grind (arith, delete_old-Held guard account ts)

  delete_all-Fenced :
      (guard : ℕ) (account : Text) (ts : List SaToken) (errs : List Error) (n d : ℕ) (s : Logged S)
      → Fenced s.log
      → Fenced (delete_all (logged b) guard account ts errs n d s).1.log
  unfolding delete_all
  delete_all-Fenced guard account [] errs n d s h = h
  delete_all-Fenced guard account (t ∷ ts) errs n d s h =
      grind (arith, delete_all-Fenced guard account ts)

module _ {S : Type 0} (b : Backend S) (codec : FlashCodec) (ttl : ℕ) (email : Text)
    (prepared : DeliveryPreparation) where
  rotate-Fenced :
      (label : Text) (guard : ℕ) (sa : ServiceAccount) (s : Logged S)
      → Fenced s.log
      → Fenced (rotate (logged b) codec ttl email prepared label guard sa s).1.log
  unfolding rotate
  rotate-Fenced label guard sa s h = grind (arith, delete_old-Fenced b)

  rotate-Held :
      (label : Text) (guard : ℕ) (sa : ServiceAccount) (s : Logged S)
      → Held s.log
      → Holding s.log
      → Held (rotate (logged b) codec ttl email prepared label guard sa s).1.log
  unfolding rotate
  rotate-Held label guard sa s h k = grind (arith, delete_old-Held b)

  -- If it was so before, then after `issue` each creation of an account, minting of a token and
  -- deletion of a listed token directly follows a check of the guard that passed.
  pub issue-Fenced :
      (s : Logged S) → Fenced s.log → Fenced (issue (logged b) codec ttl email prepared s).1.log
  unfolding issue
  issue-Fenced s h = grind (arith, rotate-Fenced)

  -- `issue` searches, lists, creates, mints, deletes and cleans up only while it holds the guard, if
  -- this was so before, and after it the guard is not held, however it ends.
  pub issue-Held :
      (s : Logged S)
      → Held s.log
      → Held (issue (logged b) codec ttl email prepared s).1.log
        × ¬ Holding (issue (logged b) codec ttl email prepared s).1.log
  unfolding issue
  issue-Held s h = (grind (arith, rotate-Held), grind arith)

module _ {S : Type 0} (b : Backend S) (email : Text) where
  -- If it was so before, then after `revoke` each deletion of a token directly follows a check of the
  -- guard that passed.
  pub revoke-Fenced : (s : Logged S) → Fenced s.log → Fenced (revoke (logged b) email s).1.log
  unfolding revoke
  revoke-Fenced s h = grind (arith, delete_all-Fenced b)
