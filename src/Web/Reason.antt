-- ===== src/Web/Reason.antt =====
-- `auditReason`, `actorID` and `audit`: what the audit log says of an error.
use grafana_mcp_setup.Prelude.{
  ℕ, Bool, true, false, ◌||◌, Option, none, some, List, [], ◌∷◌, ◌++◌, Text, codes, text_eq, take,
  ◌==◌, if◌then◌else◌,
}
use grafana_mcp_setup.Exec.{
  Error, wrapped, account_state, reconciliation, reconciliation_of, joined, deadline_exceeded,
  canceled,
}
use grafana_mcp_setup.Go.Strings.{to_lower}
use grafana_mcp_setup.Grafana.Errors.{as_api}
use grafana_mcp_setup.Rotation.Account.{hex}
use grafana_mcp_setup.Web.Handlers.{is_delivery}

-- errors.Is: what a wrapped or joined error holds; *deliveryPreparationError does not unwrap.
unfoldable pub is_among : (Error → Bool) → Error → Bool
is_among p (wrapped message e) = is_among p e
is_among p (reconciliation_of e) = p (reconciliation_of e) || is_among p e
is_among p (joined e f) = is_among p e || is_among p f
is_among p e = p e

abbrev pub is_deadline : Error → Bool
is_deadline deadline_exceeded = true
is_deadline _ = false

abbrev pub is_canceled : Error → Bool
is_canceled canceled = true
is_canceled _ = false

abbrev pub is_account_state : Error → Bool
is_account_state (account_state message) = true
is_account_state _ = false

abbrev pub is_reconciliation : Error → Bool
is_reconciliation (reconciliation message) = true
is_reconciliation (reconciliation_of e) = true
is_reconciliation _ = false

abbrev pub api_reason : ℕ → Text
api_reason status =
    if status == 401
    then codes "grafana_unauthorized"
    else if status == 403
    then codes "grafana_forbidden"
    else if status == 404
    then codes "grafana_not_found"
    else if status == 409
    then codes "grafana_conflict"
    else codes "grafana_api_error"

abbrev pub other_reason : Error → Option ℕ → Text
other_reason e (some status) = api_reason status
other_reason e none =
    if is_delivery e then codes "delivery_preparation_failed" else codes "operation_failed"

unfoldable pub audit_reason : Error → Text
unfolding is_among is_delivery
audit_reason e =
    if is_among is_deadline e
    then codes "timeout"
    else if is_among is_canceled e
    then codes "canceled"
    else if is_among is_account_state e
    then codes "invalid_service_account"
    else if is_among is_reconciliation e
    then codes "token_reconciliation_required"
    else other_reason e (as_api e)

abbrev pub Attribute : Type 0
Attribute = Text × Text

abbrev pub audit_result : Text → Option Error → Text
audit_result action error =
    if text_eq action (codes "token_issued_partial_cleanup")
      || text_eq action (codes "tokens_revoked_partial")
    then codes "partial"
    else elim error [ none ↦ codes "success" | some e ↦ codes "failure" ]

module _ (sha256 : Text → Text) (error_type : Error → Text) (issuer : Text) where
  -- `actorID`: the first 8 bytes of a hash of the lower-cased address.
  abbrev pub actor_id : Text → Text
  actor_id email = hex (take 8 (sha256 (to_lower email)))

  abbrev pub reason_attributes : Text → Option Error → List Attribute
  reason_attributes action (some e) =
      (codes "reason", audit_reason e) ∷ (codes "error_type", error_type e) ∷ []
  reason_attributes action none =
      if text_eq action (codes "token_issued_partial_cleanup")
      then (codes "reason", codes "old_token_cleanup_incomplete") ∷ []
      else []

  -- `audit`: the attributes of the log record.
  unfoldable pub audit : Text → Text → Text → Option Error → List Attribute → List Attribute
  unfolding audit_reason hex to_lower text_eq
  audit request_id action email error details =
      (codes "event", action)
      ∷ (codes "issuer", issuer)
      ∷ (codes "actor", actor_id email)
      ∷ (codes "request_id", request_id)
      ∷ (codes "result", audit_result action error)
      ∷ (reason_attributes action error ++ details)
