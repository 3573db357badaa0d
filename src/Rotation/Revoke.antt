-- ===== src/Rotation/Revoke.antt =====
-- `revoke`: every token of the account is deleted; a failed deletion does not end the loop.
use grafana_mcp_setup.Prelude.{
  ℕ, ◌+◌, not, Option, none, some, List, [], ◌∷◌, ◌++◌, Text, codes, text_eq, ltb, if◌then◌else◌,
}
use grafana_mcp_setup.Exec.{Error, account_state, join_all, Result, ok, err}
use grafana_mcp_setup.Grafana.Types.{ServiceAccount, SaToken, viewer}
use grafana_mcp_setup.Rotation.Backend.{Backend, Audit}
use grafana_mcp_setup.Rotation.Account.{title_of}

-- The variables of `revoke` that its deferred function reads.
pub record Revoked : Type 0 where
  pub error : Option Error
  pub account_id : Text
  pub attempted : ℕ
  pub deleted : ℕ

abbrev pub stopped : Error → Text → Revoked
stopped e account = record { error = some e; account_id = account; attempted = 0; deleted = 0 }

abbrev pub revoke_action : Text
revoke_action = codes "revoke"

-- `result` and `event` of the deferred function.
unfoldable pub revoke_result : Option Error → ℕ → Text
revoke_result none deleted = codes "success"
revoke_result (some e) deleted = if ltb 0 deleted then codes "partial" else codes "failure"

unfoldable pub revoke_event : Option Error → ℕ → Text
revoke_event none deleted = codes "tokens_revoked"
revoke_event (some e) deleted =
    if ltb 0 deleted then codes "tokens_revoked_partial" else codes "revoke_failed"

module _ {S : Type 0} (b : Backend S) where
  -- The loop over the tokens, with its errors and its two counters.
  abbrev pub after_delete :
      Result (Unit {0}) × S → (List Error → ℕ → S → Revoked × S) → List Error → ℕ → Revoked × S
  after_delete (ok _, s) rest errs deleted = rest errs (deleted + 1) s
  after_delete (err e, s) rest errs deleted = rest (errs ++ e ∷ []) deleted s

  abbrev pub after_check :
      Result (Unit {0}) × S → Text → List Error → ℕ → ℕ → (S → Revoked × S) → Revoked × S
  after_check (err e, s) account errs attempted deleted rest = (
    record {
      error = join_all (errs ++ e ∷ []);
      account_id = account;
      attempted = attempted;
      deleted = deleted;
    },
    s,
  )
  after_check (ok _, s) account errs attempted deleted rest = rest s

  unfoldable pub delete_all : ℕ → Text → List SaToken → List Error → ℕ → ℕ → S → Revoked × S
  delete_all guard account [] errs attempted deleted s = (
    record {
      error = join_all errs;
      account_id = account;
      attempted = attempted;
      deleted = deleted;
    },
    s,
  )
  delete_all guard account (t ∷ ts) errs attempted deleted s =
      let rest = λ (errs' : List Error) (deleted' : ℕ).
        delete_all guard account ts errs' (attempted + 1) deleted' in
      after_check (b.check guard s) account errs attempted deleted
        (λ s'. after_delete (b.delete_token account t.id s') rest errs deleted)

  abbrev pub with_tokens : ℕ → Text → Result (List SaToken) × S → Revoked × S
  with_tokens guard account (err e, s) = (stopped e account, s)
  with_tokens guard account (ok tokens, s) = delete_all guard account tokens [] 0 0 s

  abbrev pub on_account : ℕ → Result (Option ServiceAccount) × S → Revoked × S
  on_account guard (err e, s) = (stopped e [], s)
  on_account guard (ok none, s) =
      (record { error = none; account_id = []; attempted = 0; deleted = 0 }, s)
  on_account guard (ok (some sa), s) =
      if not (text_eq sa.role viewer)
      then (stopped (account_state sa.role) sa.name, s)
      else with_tokens guard sa.name (b.tokens sa.name s)

  abbrev pub released : ℕ → Revoked × S → Revoked × S
  released guard (r, s) = (r, b.release guard s)

  abbrev pub locked : Text → Result ℕ × S → Revoked × S
  locked email (err e, s) = (stopped e [], s)
  locked email (ok guard, s) = released guard (on_account guard (b.find (title_of email) s))

  abbrev pub audit_of : Text → Revoked → Audit
  audit_of email r = record {
    event = revoke_event r.error r.deleted;
    email = email;
    error = r.error;
    account_id = r.account_id;
    attempted = r.attempted;
    deleted = r.deleted;
  }

  -- The deferred metric and audit record.
  abbrev pub recorded : Text → Revoked × S → Revoked × S
  recorded email (r, s) = (
    r,
    b.audit (audit_of email r) (b.record_action revoke_action (revoke_result r.error r.deleted) s),
  )

  unfoldable pub revoke : Text → S → Revoked × S
  revoke email s = recorded email (locked email (b.acquire email s))
