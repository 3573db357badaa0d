-- ===== src/Command/Run.antt =====
-- `run` and `runDryRun`.
use grafana_mcp_setup.Prelude.{
  ◌≡◌, refl, ◌⊎◌, inl, inr, Bool, true, not, ◌||◌, Option, List, [], ◌∷◌, Text, codes, text_eq,
  text_eq_iff, if◌then◌else◌, arith, Bool-cases,
}
use grafana_mcp_setup.Exec.{failure, wrapped, Result, ok, err, Exec, Result-cases}
use grafana_mcp_setup.Web.Origin.{Url}
use grafana_mcp_setup.Config.Env.{Process}
use grafana_mcp_setup.Config.Load.{Config}
use grafana_mcp_setup.Config.Check.{Order, from_env}
use grafana_mcp_setup.Reconcile.Admin.{Admin}
use grafana_mcp_setup.Reconcile.Run.{reconcile, offboard}
use grafana_mcp_setup.Reconcile.Watched.{Watched, watched, deletions}
use grafana_mcp_setup.Reconcile.Safety.{reconcile-dry_run, offboard-dry_run}
use grafana_mcp_setup.Command.Flags.{Flags, parse_flags}
use grafana_mcp_setup.Command.Dry.{asks_nothing, parse_flags-apply}

abbrev pub reconcile_command : Text
reconcile_command = codes "reconcile"

abbrev pub offboard_command : Text
offboard_command = codes "offboard"

module _ {S : Type 0} (admin : Config → Admin S) where
  abbrev pub with_flags : Bool → Config → Result Flags → Exec S (Unit {0})
  with_flags is_reconcile cfg (err e) s = (err e, s)
  with_flags is_reconcile cfg (ok f) s =
      if is_reconcile
      then reconcile (admin cfg)
          (record { apply = f.apply; delete_expired = f.delete_expired; keep_token = f.keep_token })
          f.emails s
      else offboard (admin cfg) f.apply f.emails s

  unfoldable pub run_dry_run : Text → List Text → Config → Exec S (Unit {0})
  unfolding text_eq
  run_dry_run command args cfg s =
      with_flags (text_eq command reconcile_command) cfg
        (parse_flags (text_eq command reconcile_command) args) s

  module _ (serve : Config → Exec S (Unit {0})) where
    abbrev pub dispatch : List Text → Config → Exec S (Unit {0})
    dispatch [] cfg s = serve cfg s
    dispatch (command ∷ args) cfg s =
        if text_eq command reconcile_command || text_eq command offboard_command
        then run_dry_run command args cfg s
        else if not (text_eq command (codes "serve"))
        then (err (failure (codes "unknown command")), s)
        else serve cfg s

    abbrev pub run_with : List Text → Result Config → Exec S (Unit {0})
    run_with args (err e) s = (err (wrapped (codes "configuration") e), s)
    run_with args (ok cfg) s = dispatch args cfg s

    unfoldable pub run : (Text → Option Url) → Order → Process → List Text → Exec S (Unit {0})
    unfolding run_dry_run
    run parse order process args s = run_with args (from_env parse order process) s

module _ {S : Type 0} (admin : Config → Admin S) where
  abbrev watched_admin : Config → Admin (Watched S)
  watched_admin cfg = watched (admin cfg)

  with_flags-deletions :
      (is_reconcile : Bool) (cfg : Config) (args : List Text) (s : Watched S)
      → asks_nothing args ≡ true
      → deletions
          (with_flags watched_admin is_reconcile cfg (parse_flags is_reconcile args) s).1.deeds
        ≡ deletions s.deeds
  with_flags-deletions is_reconcile cfg args s n =
      elim (Result-cases (parse_flags is_reconcile args)) [
        | inr (e, bad) ↦ rw bad refl
        | inl (f, parsed) ↦
            let dry = parse_flags-apply is_reconcile args f n parsed in
            rw parsed (elim (Bool-cases is_reconcile) [
              | inl yes_reconcile ↦ rw yes_reconcile (
                  reconcile-dry_run (admin cfg)
                    (record {
                      apply = f.apply;
                      delete_expired = f.delete_expired;
                      keep_token = f.keep_token;
                    })
                    f.emails s dry)
              | inr is_offboard ↦
                  rw is_offboard (offboard-dry_run (admin cfg) f.apply f.emails s dry)
            ])
      ]

  -- A "reconcile" or "offboard" on the command line, none of whose further arguments names the flag
  -- "apply", tries no deletion, whatever the environment and the other arguments are.
  pub run-dry_run :
      (serve : Config → Exec (Watched S) (Unit {0})) (parse : Text → Option Url) (order : Order)
      (process : Process) (command : Text) (args : List Text) (s : Watched S)
      → (command ≡ reconcile_command) ⊎ (command ≡ offboard_command)
      → asks_nothing args ≡ true
      → deletions (run watched_admin serve parse order process (command ∷ args) s).1.deeds
        ≡ deletions s.deeds
  unfolding run run_dry_run
  run-dry_run serve parse order process command args s known n =
      elim (Result-cases (from_env parse order process)) [
        | inr (e, bad) ↦ rw bad refl
        | inl (cfg, configured) ↦
            let cleanup : (text_eq command reconcile_command || text_eq command offboard_command)
                ≡ true =
              elim known [
                | inl e ↦ grind (arith, (text_eq_iff command reconcile_command).1 e)
                | inr e ↦ elim (Bool-cases (text_eq command reconcile_command)) [
                  | inl same ↦ rw same refl
                  | inr differs ↦ rw differs ((text_eq_iff command offboard_command).1 e)
                ]
              ] in
            rw (configured, cleanup)
              (with_flags-deletions (text_eq command reconcile_command) cfg args s n)
      ]
