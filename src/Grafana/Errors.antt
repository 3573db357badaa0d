-- ===== src/Grafana/Errors.antt =====
-- How the client looks into errors and combines them (grafana.go, grafana_legacy.go).
use grafana_mcp_setup.Prelude.{
  ℕ, Bool, false, ◌&&◌, Option, none, some, Text, codes, leb, ltb, ◌==◌,
}
use grafana_mcp_setup.Exec.{
  Error, api, wrapped, reconciliation_of, delivery, joined, join, Result, ok, err, Exec, pure,
  raise, attempt, ◌>>=◌,
}

-- errors.As(err, *apiError), and its Status.
abbrev pub as_api : Error → Option ℕ
as_api (api status) = some status
as_api (wrapped _ e) = as_api e
as_api (reconciliation_of e) = as_api e
as_api (delivery e) = none
as_api (joined e f) = let second = as_api f in elim (as_api e) [ none ↦ second | some n ↦ some n ]
as_api _ = none

-- `apiErr.Status >= 400 && apiErr.Status < 500`: Grafana refused, so there is no token.
abbrev pub is_client_error : Error → Bool
is_client_error e = elim (as_api e) [ none ↦ false | some n ↦ leb 400 n && ltb n 500 ]

abbrev pub is_not_found : Error → Bool
is_not_found e = elim (as_api e) [ none ↦ false | some n ↦ n == 404 ]

abbrev pub unexpected_name : Text
unexpected_name = codes "grafana returned an unexpected service account token name"

abbrev pub bind_result {ℓ} : {A B : Type ℓ} → Result A → (A → Result B) → Result B
bind_result (ok a) f = f a
bind_result (err e) f = err e

module _ {S : Type 0} where
  -- errors.Join(err, cleanup())
  abbrev pub abandon : {A : Type 0} → Error → Exec S (Unit {0}) → Exec S A
  abandon e cleanup = do failed ← attempt cleanup; raise (join e failed)

  -- fmt.Errorf("%w: %w", errTokenReconciliation, err)
  abbrev pub as_reconciliation : Option Error → Exec S (Unit {0})
  as_reconciliation none = pure tt
  as_reconciliation (some e) = raise (reconciliation_of e)
