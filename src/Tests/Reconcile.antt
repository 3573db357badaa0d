-- ===== src/Tests/Reconcile.antt =====
-- The commands against an administration with one account and two tokens.
use grafana_mcp_setup.Prelude.{
  ◌+◌, ℕ, ◌≡◌, refl, Bool, true, false, none, some, List, [], ◌∷◌, Text, codes, text_eq,
}
use grafana_mcp_setup.Exec.{ok}
use grafana_mcp_setup.Go.Strings.{to_lower, trim_left, trim_space}
use grafana_mcp_setup.Grafana.Types.{SaToken, empty_account, viewer}
use grafana_mcp_setup.Reconcile.Admin.{Admin}
use grafana_mcp_setup.Reconcile.Targets.{normalize_targets, collect}
use grafana_mcp_setup.Reconcile.Loop.{CleanupOptions, plan_of}
use grafana_mcp_setup.Reconcile.Plan.{IsPlan, plan_of-IsPlan}
use grafana_mcp_setup.Reconcile.Run.{reconcile, offboard}
use grafana_mcp_setup.Reconcile.Watched.{Watched, watched}
use grafana_mcp_setup.Reconcile.Safety.{IsRest, reconcile-IsRest, offboard-IsRest}

abbrev token_named : Text → Bool → SaToken
token_named id expired = record {
  id = id;
  title = id;
  revoked = false;
  created = 1;
  expiration = none;
  last_used_at = none;
  has_expired = expired;
}

abbrev both : List SaToken
both = token_named (codes "a") true ∷ token_named (codes "b") false ∷ []

-- The state counts the lines of the report.
abbrev pub admin : Admin ℕ
admin = record {
  connect = λ s. (ok tt, s);
  acquire = λ email s. (ok 0, s);
  check = λ guard s. (ok tt, s);
  release = λ guard s. s;
  find = λ title s. (ok (some (record empty_account { name = codes "sa-1"; role = viewer })), s);
  tokens = λ name s. (ok both, s);
  delete_token = λ name id s. (ok tt, s);
  delete_account = λ name s. (ok tt, s);
  now = λ s. (5, s);
  print = λ line s. s + 1;
}

abbrev options : Bool → CleanupOptions
options apply = record { apply = apply; delete_expired = true; keep_token = codes "b" }

abbrev pub start : Watched ℕ
start = record { inner = 0; deeds = [] }

abbrev asked : List Text
asked = codes " Ann@Example.com" ∷ codes "ann@example.com" ∷ []

start-IsRest : IsRest start.deeds
start-IsRest = (tt, tt)

asked-targets : normalize_targets asked ≡ ok (codes "ann@example.com" ∷ [])
unfolding normalize_targets collect to_lower trim_left trim_space text_eq
asked-targets = refl

plan_of-IsPlan_example : IsPlan 5 (options true) both (plan_of 5 (options true) both)
plan_of-IsPlan_example = plan_of-IsPlan 5 (options true) both

reconcile-IsRest_example : IsRest (reconcile (watched admin) (options true) asked start).1.deeds
reconcile-IsRest_example = reconcile-IsRest admin (options true) asked start start-IsRest

offboard-IsRest_example : IsRest (offboard (watched admin) true asked start).1.deeds
offboard-IsRest_example = offboard-IsRest admin true asked start start-IsRest
