-- ===== src/Reconcile/Run.antt =====
-- `Reconcile`, `reconcileOne` and `Offboard`.
use grafana_mcp_setup.Prelude.{
  ℕ, Bool, true, false, not, ◌&&◌, Option, none, some, List, [], ◌∷◌, ◌++◌, Text, codes, text_eq,
  if◌then◌else◌, length, ◌==◌,
}
use grafana_mcp_setup.Exec.{failure, wrapped, Result, ok, err, Exec, pure, and_then}
use grafana_mcp_setup.Go.Time.{Time}
use grafana_mcp_setup.Grafana.Types.{ServiceAccount, SaToken, viewer}
use grafana_mcp_setup.Rotation.Account.{validate, title_of}
use grafana_mcp_setup.Reconcile.Admin.{Admin, Line, missing, summary, token_line, account_line}
use grafana_mcp_setup.Reconcile.Targets.{normalize_targets}
use grafana_mcp_setup.Reconcile.Loop.{CleanupOptions, Plan, plan_of, keeps_one}

abbrev pub Step : Type 0 → Type 0
Step S = Exec S (Unit {0})

module _ {S : Type 0} (a : Admin S) where
  abbrev pub say : Line → Step S
  say line s = (ok tt, a.print line s)

  -- `guard.Release()` after the work on one target.
  abbrev pub release_after : {A : Type 0} → ℕ → Result A × S → Result A × S
  release_after guard (r, s) = (r, a.release guard s)

  abbrev pub guarded : {A : Type 0} → (ℕ → Text → Exec S A) → Text → Exec S A
  guarded work email s =
      and_then (a.acquire email s) (λ guard s'. release_after guard (work guard email s'))

  -- The loop over the targets; the first error ends it.
  unfoldable pub each_target : (Text → Step S) → List Text → Step S
  each_target work [] s = (ok tt, s)
  each_target work (email ∷ emails) s = and_then (work email s) (λ _. each_target work emails)

module _ {S : Type 0} (a : Admin S) (opts : CleanupOptions) where
  abbrev pub dry_run : Bool
  dry_run = not opts.apply

  -- The loop over the candidates.
  unfoldable pub delete_candidates : ℕ → Text → Text → List SaToken → Step S
  delete_candidates guard email account [] s = (ok tt, s)
  delete_candidates guard email account (t ∷ ts) s =
      and_then
        (if dry_run
          then say a (token_line email t.title true) s
          else and_then (a.check guard s) (λ _ s'.
            and_then (a.delete_token account t.id s')
              (λ _. say a (token_line email t.title false))))
        (λ _. delete_candidates guard email account ts)

  abbrev pub plan_line : Text → ServiceAccount → List SaToken → Plan → Line
  plan_line email sa tokens plan =
      summary email sa (length tokens) plan.active plan.expired_count (length plan.candidates)
        dry_run

  abbrev pub carry_out : ℕ → Text → ServiceAccount → List SaToken → Plan → Step S
  carry_out guard email sa tokens plan s =
      if not plan.keep_found
      then (err (failure (codes "keep token does not exist or is not live")), s)
      else delete_candidates guard email sa.name plan.candidates
          (a.print (plan_line email sa tokens plan) s)

  abbrev pub planned : ℕ → Text → ServiceAccount → List SaToken → Time × S → Result (Unit {0}) × S
  planned guard email sa tokens (now, s) =
      carry_out guard email sa tokens (plan_of now opts tokens) s

  -- `fmt.Errorf("%s: %w", email, err)`
  abbrev pub named : Text → Result (Unit {0}) → Result (Unit {0})
  named email (ok u) = ok u
  named email (err e) = err (wrapped email e)

  abbrev pub reconcile_account : ℕ → Text → Option ServiceAccount → Step S
  reconcile_account guard email none s = say a (missing email dry_run) s
  reconcile_account guard email (some sa) s =
      and_then (named email (validate sa), s)
        (λ _ s'.
          and_then (a.tokens sa.name s') (λ tokens s''. planned guard email sa tokens (a.now s'')))

  unfoldable pub reconcile_one : ℕ → Text → Step S
  reconcile_one guard email s = and_then (a.find (title_of email) s) (reconcile_account guard email)

  -- The checks of the options, in the source's order.
  abbrev pub checked_options : List Text → Result (Unit {0})
  checked_options targets =
      if opts.apply && (not opts.delete_expired && not (keeps_one opts))
      then err (failure (codes "reconcile --apply requires --delete-expired or --keep-token"))
      else if keeps_one opts && not (length targets == 1)
      then err (failure (codes "--keep-token requires exactly one --email target"))
      else ok tt

  abbrev pub reconcile_targets : List Text → Step S
  reconcile_targets targets s =
      and_then (checked_options targets, s)
        (λ _ s'. and_then (a.connect s') (λ _. each_target a (guarded a reconcile_one) targets))

  unfoldable pub reconcile : List Text → Step S
  unfolding reconcile_one
  reconcile emails s = and_then (normalize_targets emails, s) reconcile_targets

module _ {S : Type 0} (a : Admin S) (apply : Bool) where
  -- The line to print when the guard is released.
  abbrev pub delete_viewer : ℕ → Text → ServiceAccount → Exec S (Option Line)
  delete_viewer guard email sa s = and_then (a.check guard s) (λ _ s'.
      and_then (a.delete_account sa.name s') (λ _. pure (some (account_line email sa.name false))))

  abbrev pub offboard_account : ℕ → Text → Option ServiceAccount → Exec S (Option Line)
  offboard_account guard email none s = (ok none, a.print (missing email (not apply)) s)
  offboard_account guard email (some sa) s =
      if not (text_eq sa.role viewer)
      then (err (failure (codes "refusing to delete service account with role " ++ sa.role)), s)
      else if not apply
      then (ok none, a.print (account_line email sa.name true) s)
      else delete_viewer guard email sa s

  unfoldable pub offboard_one : ℕ → Text → Exec S (Option Line)
  offboard_one guard email s = and_then (a.find (title_of email) s) (offboard_account guard email)

  abbrev pub say_last : Option Line → Step S
  say_last none = pure tt
  say_last (some line) = say a line

  unfoldable pub offboard_target : Text → Step S
  unfolding offboard_one
  offboard_target email s = and_then (guarded a offboard_one email s) say_last

  unfoldable pub offboard : List Text → Step S
  unfolding offboard_target
  offboard emails s =
      and_then (normalize_targets emails, s)
        (λ targets s'. and_then (a.connect s') (λ _. each_target a offboard_target targets))
