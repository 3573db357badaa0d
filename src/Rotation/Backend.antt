-- ===== src/Rotation/Backend.antt =====
-- What `liveToken`, `issue` and `revoke` of server.go call: the client of grafana.go, the locker of
-- lock.go, the clock and random source, the metrics and the audit log.
use grafana_mcp_setup.Prelude.{ℕ, Option, List, Text}
use grafana_mcp_setup.Exec.{Error, Exec}
use grafana_mcp_setup.Grafana.Types.{ServiceAccount, SaToken, IssuedToken}
use grafana_mcp_setup.Cookies.Crypto.{Host}

-- The arguments of `s.audit` in `revoke`.
pub record Audit : Type 0 where
  pub event : Text
  pub email : Text
  pub error : Option Error
  pub account_id : Text
  pub attempted : ℕ
  pub deleted : ℕ

-- A guard that `acquire` returns is known by a number.
pub record Backend (S : Type 0) : Type 0 where
  pub host : Host S
  pub open host use *
  pub acquire : Text → Exec S ℕ
  pub check : ℕ → Exec S (Unit {0})
  pub release : ℕ → S → S
  pub find : Text → Exec S (Option ServiceAccount)
  pub create : Text → Exec S ServiceAccount
  pub tokens : Text → Exec S (List SaToken)
  pub new_token : Text → Text → ℕ → Exec S IssuedToken
  pub delete_token : Text → Text → Exec S (Unit {0})
  pub cleanup : Text → Text → Exec S (Unit {0})
  pub record_action : Text → Text → S → S
  pub audit : Audit → S → S
