-- ===== src/Reconcile/Watched.antt =====
-- What `reconcile` and `offboard` do, seen from outside: an `Admin` that writes down each call with
-- its outcome, newest first.
use grafana_mcp_setup.Prelude.{
  ℕ, suc, ◌≡◌, refl, Bool, true, false, Option, none, some, List, [], ◌∷◌, Text, text_eq_iff,
  text_eq, arith, Bool-cases, Option-cases, inl, inr,
}
use grafana_mcp_setup.Exec.{Result, ok, Result-cases}
use grafana_mcp_setup.Grafana.Types.{ServiceAccount, SaToken, viewer}
use grafana_mcp_setup.Rotation.Trace.{succeeded, value_of}
use grafana_mcp_setup.Rotation.Account.{title_of, validate}
use grafana_mcp_setup.Reconcile.Admin.{Admin, Line}
use grafana_mcp_setup.Reconcile.Loop.{CleanupOptions, Plan, plan_of}
use grafana_mcp_setup.Reconcile.Run.{
  dry_run, carry_out, plan_line, reconcile_account, delete_candidates, delete_viewer,
  offboard_account, reconcile_one, offboard_one,
}

-- The Boolean says whether the call succeeded, and an option holds what it returned if so.
pub data Deed : Type 0 where
  connected : Bool → Deed
  locked : Text → Option ℕ → Deed
  checked : ℕ → Bool → Deed
  unlocked : ℕ → Deed
  found : Text → Option (Option ServiceAccount) → Deed
  listed : Text → Deed
  token_deleted : Text → Text → Bool → Deed
  account_deleted : Text → Bool → Deed
  printed : Line → Deed

pub record Watched (S : Type 0) : Type 0 where
  pub inner : S
  pub deeds : List Deed

module _ {S A : Type 0} where
  abbrev pub jot : (Result A → Deed) → List Deed → Result A × S → Result A × Watched S
  jot d deeds (r, s) = (r, record { inner = s; deeds = d r ∷ deeds })

  abbrev pub with_deeds : List Deed → A × S → A × Watched S
  with_deeds deeds (a, s) = (a, record { inner = s; deeds = deeds })

abbrev pub watched : {S : Type 0} → Admin S → Admin (Watched S)
watched a = record {
  connect = λ s. jot (λ r. connected (succeeded r)) s.deeds (a.connect s.inner);
  acquire = λ email s. jot (λ r. locked email (value_of r)) s.deeds (a.acquire email s.inner);
  check = λ guard s. jot (λ r. checked guard (succeeded r)) s.deeds (a.check guard s.inner);
  release = λ guard s. record { inner = a.release guard s.inner; deeds = unlocked guard ∷ s.deeds };
  find = λ title s. jot (λ r. found title (value_of r)) s.deeds (a.find title s.inner);
  tokens = λ name s. jot (λ r. listed name) s.deeds (a.tokens name s.inner);
  delete_token = λ name id s.
      jot (λ r. token_deleted name id (succeeded r)) s.deeds (a.delete_token name id s.inner);
  delete_account = λ name s.
      jot (λ r. account_deleted name (succeeded r)) s.deeds (a.delete_account name s.inner);
  now = λ s. with_deeds s.deeds (a.now s.inner);
  print = λ line s. record { inner = a.print line s.inner; deeds = printed line ∷ s.deeds };
}

-- The last attempt to lock was for this key and returned this guard, and nothing was released since.
abbrev pub Holding : ℕ → Text → List Deed → Type 0
Holding guard email [] = ⊥
Holding guard email (locked key (some g) ∷ _) = (g ≡ guard) × (key ≡ email)
Holding guard email (locked key none ∷ _) = ⊥
Holding guard email (unlocked g ∷ _) = ⊥
Holding guard email (_ ∷ before) = Holding guard email before

-- The last call was a check of this guard that passed, under the lock of this key.
abbrev pub AfterCheck : Text → List Deed → Type 0
AfterCheck email (checked guard true ∷ before) = Holding guard email before
AfterCheck email _ = ⊥

-- The last search was for the title of this key's account, and found an account with this name that is a
-- viewer.
abbrev pub FoundViewer : Text → Text → List Deed → Type 0
FoundViewer email name [] = ⊥
FoundViewer email name (found title (some (some sa)) ∷ _) =
    (title ≡ title_of email) × (sa.name ≡ name) × (sa.role ≡ viewer)
FoundViewer email name (found title (some none) ∷ _) = ⊥
FoundViewer email name (found title none ∷ _) = ⊥
FoundViewer email name (_ ∷ before) = FoundViewer email name before

-- No lock is held.
abbrev pub Idle : List Deed → Type 0
Idle [] = Unit
Idle (locked key (some g) ∷ _) = ⊥
Idle (unlocked g ∷ _) = Unit
Idle (_ ∷ before) = Idle before

-- A lock is asked for where none is held, a search is under the lock of the key whose title it looks for, tokens are listed under the lock of
-- the account's key, a deletion is directly behind a passed check under that lock, and a guard is
-- released that is held.
abbrev pub AllowedBy : Deed → List Deed → Type 0
AllowedBy (locked _ _) before = Idle before
AllowedBy (found title _) before =
    (guard : ℕ) × (email : Text) × Holding guard email before × (title ≡ title_of email)
AllowedBy (listed name) before =
    (guard : ℕ) × (email : Text) × Holding guard email before × FoundViewer email name before
AllowedBy (token_deleted name _ _) before =
    (email : Text) × AfterCheck email before × FoundViewer email name before
AllowedBy (account_deleted name _) before =
    (email : Text) × AfterCheck email before × FoundViewer email name before
AllowedBy (unlocked guard) before = (email : Text) × Holding guard email before
AllowedBy _ before = Unit

abbrev pub Allowed : List Deed → Type 0
Allowed [] = Unit
Allowed (d ∷ before) = AllowedBy d before × Allowed before

-- Under the lock of a key.
abbrev pub Held : ℕ → Text → List Deed → Type 0
Held guard email deeds = Allowed deeds × Holding guard email deeds

-- Under the lock of a key, whose account is found and is a viewer.
abbrev OnViewer : ℕ → Text → Text → List Deed → Type 0
OnViewer guard email name deeds =
    Allowed deeds × Holding guard email deeds × FoundViewer email name deeds

-- The deletions of tokens and of accounts that were tried.
abbrev pub deletions : List Deed → ℕ
deletions [] = 0
deletions (token_deleted _ _ _ ∷ before) = suc (deletions before)
deletions (account_deleted _ _ ∷ before) = suc (deletions before)
deletions (_ ∷ before) = deletions before

validate-viewer : (sa : ServiceAccount) → validate sa ≡ ok tt → sa.role ≡ viewer
unfolding validate
validate-viewer sa h = grind (arith, text_eq_iff sa.role viewer)

module _ {S : Type 0} (a : Admin S) (opts : CleanupOptions) where
  delete_candidates-OnViewer :
      (guard : ℕ) (email account : Text) (ts : List SaToken) (s : Watched S)
      → OnViewer guard email account s.deeds
      → OnViewer guard email account
          (delete_candidates (watched a) opts guard email account ts s).1.deeds
  unfolding delete_candidates
  delete_candidates-OnViewer guard email account [] s h = h
  delete_candidates-OnViewer guard email account (t ∷ ts) s (allowed, held, viewing) =
      elim (Bool-cases (dry_run a opts)) [
        | inl dry ↦
            rw dry
              (delete_candidates-OnViewer guard email account ts _ ((tt, allowed), held, viewing))
        | inr applied ↦ rw applied (elim (Result-cases (a.check guard s.inner).0) [
          | inr (e, failed) ↦ rw failed ((tt, allowed), held, viewing)
          | inl (u, passed) ↦
              rw passed
                (elim (Result-cases (a.delete_token account t.id (a.check guard s.inner).1).0) [
                  | inr (e, failed) ↦
                      rw failed (((email, held, viewing), (tt, allowed)), held, viewing)
                  | inl (v, done) ↦ rw done (
                      delete_candidates-OnViewer guard email account ts _
                        ((tt, ((email, held, viewing), (tt, allowed))), held, viewing))
                ])
        ])
      ]

  delete_candidates-dry_run :
      (guard : ℕ) (email account : Text) (ts : List SaToken) (s : Watched S)
      → opts.apply ≡ false
      → deletions (delete_candidates (watched a) opts guard email account ts s).1.deeds
        ≡ deletions s.deeds
  unfolding delete_candidates
  delete_candidates-dry_run guard email account [] s h = refl
  delete_candidates-dry_run guard email account (t ∷ ts) s h =
      grind (arith, delete_candidates-dry_run guard email account ts)

  carry_out-Held :
      (guard : ℕ) (email : Text) (sa : ServiceAccount) (tokens : List SaToken) (plan : Plan)
      (s : Watched S)
      → OnViewer guard email sa.name s.deeds
      → Held guard email (carry_out (watched a) opts guard email sa tokens plan s).1.deeds
  carry_out-Held guard email sa tokens plan s (allowed, held, viewing) =
      elim (Bool-cases plan.keep_found) [
        | inr lost ↦ rw lost (allowed, held)
        | inl kept ↦ rw kept (
            let (allowed2, held2, _) =
              delete_candidates-OnViewer guard email sa.name plan.candidates
                (record {
                  inner = a.print (plan_line (watched a) opts email sa tokens plan) s.inner;
                  deeds = printed (plan_line (watched a) opts email sa tokens plan) ∷ s.deeds;
                })
                ((tt, allowed), held, viewing) in
            (allowed2, held2))
      ]

  reconcile_account-Held :
      (guard : ℕ) (email : Text) (sa : ServiceAccount) (s : Watched S)
      → (validate sa ≡ ok tt → OnViewer guard email sa.name s.deeds)
      → Held guard email s.deeds
      → Held guard email (reconcile_account (watched a) opts guard email (some sa) s).1.deeds
  reconcile_account-Held guard email sa s h k = elim (Result-cases (validate sa)) [
    | inr (e, bad) ↦ rw bad k
    | inl (u, valid) ↦
        let (allowed, held, viewing) = h valid in
        rw valid (elim (Result-cases (a.tokens sa.name s.inner).0) [
          | inr (e, failed) ↦ rw failed (((guard, email, held, viewing), allowed), held)
          | inl (tokens, read) ↦ rw read (
              carry_out-Held guard email sa tokens
                (plan_of (a.now (a.tokens sa.name s.inner).1).0 opts tokens)
                (record {
                  inner = (a.now (a.tokens sa.name s.inner).1).1;
                  deeds = listed sa.name ∷ s.deeds;
                })
                (((guard, email, held, viewing), allowed), held, viewing))
        ])
  ]

  pub reconcile_one-Held :
      (guard : ℕ) (email : Text) (s : Watched S)
      → Held guard email s.deeds
      → Held guard email (reconcile_one (watched a) opts guard email s).1.deeds
  unfolding reconcile_one
  reconcile_one-Held guard email s (h, k) =
      let r = (a.find (title_of email) s.inner).0 in
      elim (Result-cases r) [
        | inr (e, failed) ↦ rw failed (((guard, email, k, refl), h), k)
        | inl (o, read) ↦ rw read (elim (Option-cases o) [
          | inl missing ↦ rw missing ((tt, ((guard, email, k, refl), h)), k)
          | inr (sa, there) ↦ rw there (
              reconcile_account-Held guard email sa
                (record {
                  inner = (a.find (title_of email) s.inner).1;
                  deeds = found (title_of email) (some (some sa)) ∷ s.deeds;
                })
                (λ valid. (((guard, email, k, refl), h), k, (refl, refl, validate-viewer sa valid)))
                (((guard, email, k, refl), h), k))
        ])
      ]

  pub reconcile_one-dry_run :
      (guard : ℕ) (email : Text) (s : Watched S)
      → opts.apply ≡ false
      → deletions (reconcile_one (watched a) opts guard email s).1.deeds ≡ deletions s.deeds
  unfolding reconcile_one
  reconcile_one-dry_run guard email s h = grind (arith, delete_candidates-dry_run)

module _ {S : Type 0} (a : Admin S) (apply : Bool) where
  delete_viewer-Held :
      (guard : ℕ) (email : Text) (sa : ServiceAccount) (s : Watched S)
      → OnViewer guard email sa.name s.deeds
      → Held guard email (delete_viewer (watched a) apply guard email sa s).1.deeds
  delete_viewer-Held guard email sa s (allowed, held, viewing) =
      elim (Result-cases (a.check guard s.inner).0) [
        | inr (e, failed) ↦ rw failed ((tt, allowed), held)
        | inl (u, passed) ↦
            rw passed (elim (Result-cases (a.delete_account sa.name (a.check guard s.inner).1).0) [
              | inr (e, failed) ↦ rw failed (((email, held, viewing), (tt, allowed)), held)
              | inl (v, done) ↦ rw done (((email, held, viewing), (tt, allowed)), held)
            ])
      ]

  offboard_account-Held :
      (guard : ℕ) (email : Text) (sa : ServiceAccount) (s : Watched S)
      → (sa.role ≡ viewer → OnViewer guard email sa.name s.deeds)
      → Held guard email s.deeds
      → Held guard email (offboard_account (watched a) apply guard email (some sa) s).1.deeds
  offboard_account-Held guard email sa s h k = elim (Bool-cases (text_eq sa.role viewer)) [
    | inr other ↦ rw other k
    | inl viewing ↦ rw viewing (elim (Bool-cases apply) [
      | inr dry ↦ rw dry ((tt, k.0), k.1)
      | inl applied ↦
          rw applied
            (delete_viewer-Held guard email sa s (h ((text_eq_iff sa.role viewer).0 viewing)))
    ])
  ]

  pub offboard_one-Held :
      (guard : ℕ) (email : Text) (s : Watched S)
      → Held guard email s.deeds
      → Held guard email (offboard_one (watched a) apply guard email s).1.deeds
  unfolding offboard_one
  offboard_one-Held guard email s (h, k) = elim (Result-cases (a.find (title_of email) s.inner).0) [
    | inr (e, failed) ↦ rw failed (((guard, email, k, refl), h), k)
    | inl (o, read) ↦ rw read (elim (Option-cases o) [
      | inl missing ↦ rw missing ((tt, ((guard, email, k, refl), h)), k)
      | inr (sa, there) ↦ rw there (
          offboard_account-Held guard email sa
            (record {
              inner = (a.find (title_of email) s.inner).1;
              deeds = found (title_of email) (some (some sa)) ∷ s.deeds;
            })
            (λ v. (((guard, email, k, refl), h), k, (refl, refl, v)))
            (((guard, email, k, refl), h), k))
    ])
  ]

  pub offboard_one-dry_run :
      (guard : ℕ) (email : Text) (s : Watched S)
      → apply ≡ false
      → deletions (offboard_one (watched a) apply guard email s).1.deeds ≡ deletions s.deeds
  unfolding offboard_one
  offboard_one-dry_run guard email s h = grind arith
