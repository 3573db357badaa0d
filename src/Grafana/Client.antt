-- ===== src/Grafana/Client.antt =====
-- The operations of grafana.go that the server and the commands call: each picks the API by `mode`.
use grafana_mcp_setup.Prelude.{ℕ, Bool, Option, List, Text, codes, text_eq, if◌then◌else◌}
use grafana_mcp_setup.Exec.{Exec}
use grafana_mcp_setup.Grafana.Types.{ServiceAccount, SaToken, IssuedToken}
use grafana_mcp_setup.Grafana.Net.{Net, Client}
use grafana_mcp_setup.Grafana.Iam
use grafana_mcp_setup.Grafana.Legacy

abbrev pub is_iam : Client → Bool
is_iam g = text_eq g.mode (codes "iam")

-- `fuel` bounds the pages of the IAM lists.
module _ {S : Type 0} (net : Net S) (g : Client) (fuel : ℕ) where
  unfoldable pub find_service_account : Text → Exec S (Option ServiceAccount)
  find_service_account title =
      if is_iam g
      then Iam.find_service_account net g fuel title
      else Legacy.find_service_account net g title

  unfoldable pub tokens : Text → Exec S (List SaToken)
  tokens sa_name = if is_iam g then Iam.tokens net g fuel sa_name else Legacy.tokens net g sa_name

module _ {S : Type 0} (net : Net S) (g : Client) where
  unfoldable pub ready : Bool → Exec S (Unit {0})
  ready first = if is_iam g then Iam.ready net g first else Legacy.ready net g

  unfoldable pub create_service_account : Text → Exec S ServiceAccount
  create_service_account title =
      if is_iam g
      then Iam.create_service_account net g title
      else Legacy.create_service_account net g title

  unfoldable pub delete_service_account : Text → Exec S (Unit {0})
  delete_service_account name =
      if is_iam g
      then Iam.delete_service_account net g name
      else Legacy.delete_service_account net g name

  unfoldable pub delete_token : Text → Text → Exec S (Unit {0})
  delete_token sa_name token_id =
      if is_iam g
      then Iam.delete_token net g sa_name token_id
      else Legacy.delete_token net g sa_name token_id

  unfoldable pub new_token : Text → Text → ℕ → Exec S IssuedToken
  new_token sa_name token_name ttl =
      if is_iam g
      then Iam.new_token net g sa_name token_name ttl
      else Legacy.new_token net g sa_name token_name ttl

  unfoldable pub cleanup_undelivered_token : Text → Text → Exec S (Unit {0})
  cleanup_undelivered_token sa_name token_name =
      if is_iam g
      then Iam.cleanup_undelivered_token net g sa_name token_name
      else Legacy.cleanup_undelivered_token net g sa_name token_name
