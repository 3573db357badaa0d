-- ===== src/Reconcile/Admin.antt =====
-- What reconcile.go calls: the client of grafana.go, the locker of lock.go, the clock and the writer
-- of the report.
use grafana_mcp_setup.Prelude.{ℕ, Bool, Option, List, Text}
use grafana_mcp_setup.Exec.{Exec}
use grafana_mcp_setup.Go.Time.{Time}
use grafana_mcp_setup.Grafana.Types.{ServiceAccount, SaToken}

-- The lines of the report; the last Boolean of each is the dry run.
pub data Line : Type 0 where
  missing : Text → Bool → Line
  summary : Text → ServiceAccount → ℕ → ℕ → ℕ → ℕ → Bool → Line
  token_line : Text → Text → Bool → Line
  account_line : Text → Text → Bool → Line

-- `connect` is `newMutationLocker`; a guard that `acquire` returns is known by a number.
pub record Admin (S : Type 0) : Type 0 where
  pub connect : Exec S (Unit {0})
  pub acquire : Text → Exec S ℕ
  pub check : ℕ → Exec S (Unit {0})
  pub release : ℕ → S → S
  pub find : Text → Exec S (Option ServiceAccount)
  pub tokens : Text → Exec S (List SaToken)
  pub delete_token : Text → Text → Exec S (Unit {0})
  pub delete_account : Text → Exec S (Unit {0})
  pub now : S → Time × S
  pub print : Line → S → S
