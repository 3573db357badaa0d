-- ===== src/Tests/Command.antt =====
-- The command line of a "reconcile" without "apply".
use grafana_mcp_setup.Prelude.{◌≡◌, refl, true, inl, List, [], ◌∷◌, Text, codes, text_eq}
use grafana_mcp_setup.Snippet.Highlight.{cut_at}
use grafana_mcp_setup.Reconcile.Watched.{watched, deletions}
use grafana_mcp_setup.Exec.{ok}
use grafana_mcp_setup.Go.Strconv.{parse_bool}
use grafana_mcp_setup.Command.Flags.{no_flags, parse_flags, parse_all, flag_named, argument}
use grafana_mcp_setup.Command.Dry.{asks_nothing}
use grafana_mcp_setup.Command.Run.{reconcile_command, run, run-dry_run}
use grafana_mcp_setup.Tests.Reconcile.{admin, start}
use grafana_mcp_setup.Tests.Config.{process, parse, in_order}

abbrev args : List Text
args =
    codes "-email" ∷ codes "ann@example.com" ∷ codes "--delete-expired" ∷ codes "-keep-token=b" ∷ []

args-ask_nothing : asks_nothing args ≡ true
unfolding asks_nothing argument cut_at text_eq
args-ask_nothing = refl

args-parsed :
    parse_flags true args
    ≡ ok (record no_flags {
      emails = codes "ann@example.com" ∷ [];
      delete_expired = true;
      keep_token = codes "b";
    })
unfolding parse_flags parse_all argument flag_named parse_bool cut_at text_eq
args-parsed = refl

run-dry_run_example :
    deletions
      (run
        (λ cfg. watched admin)
        (λ cfg s. (ok tt, s))
        parse
        in_order
        process
        (reconcile_command ∷ args)
        start).1.deeds
    ≡ 0
run-dry_run_example =
    run-dry_run (λ cfg. admin) (λ cfg s. (ok tt, s)) parse in_order process reconcile_command args
      start (inl refl) args-ask_nothing
