-- ===== src/Tests/Metrics.antt =====
-- A short history, and a handler that writes a body.
use grafana_mcp_setup.Prelude.{
  ℕ, ◌+◌, ◌-◌, ◌*◌, ◌%◌, ◌^◌, ◌≤◌, ◌≡◌, ◌≢◌, refl, List, [], ◌∷◌, Text, codes, text_eq, All, length,
  arith,
}
use grafana_mcp_setup.Prelude.Int.{pos}
use grafana_mcp_setup.Go.Strconv.{format_nat}
use grafana_mcp_setup.Metrics.Record.{
  Floats, MetricKey, ActionKey, GrafanaMetricKey, Metrics, new_metrics, record_http,
}
use grafana_mcp_setup.Metrics.Counted.{
  Event, acted, asked_grafana, denied, served, is_action, is_grafana, is_served, is_denial, tally,
  run, actions_at, grafana_at, http_at, auth_at, run-tally,
}
use grafana_mcp_setup.Metrics.Labels.{keys}
use grafana_mcp_setup.Metrics.Bounded.{IsListed, run-bounded}
use grafana_mcp_setup.Metrics.Writer.{
  WriterCall, write_header, write, Exchange, client_status, route_of, wrap, wrap-client_status,
}

-- Whole nanoseconds.
abbrev floats : Floats
floats = record {
  Float = ℕ;
  zero_float = 0;
  add_float = λ x y. x + y;
  seconds_of = λ d. d;
  show_float = format_nat;
}

abbrev history : List Event
history =
    acted (codes "issue") (codes "success")
    ∷ asked_grafana (codes "GET") (pos 200) 7
    ∷ denied (codes "oidc_failure")
    ∷ acted (codes "issue") (codes "success")
    ∷ served (codes "GET") (codes "GET /mcp") 200 9
    ∷ acted (codes "dance") (codes "fun")
    ∷ []

run-tally_example :
    ((key : ActionKey)
      → actions_at floats key (run floats history (new_metrics floats))
        ≡ tally (is_action key) history % 2 ^ 64)
    × ((key : GrafanaMetricKey)
        → grafana_at floats key (run floats history (new_metrics floats))
          ≡ tally (is_grafana key) history % 2 ^ 64)
    × ((key : MetricKey)
        → http_at floats key (run floats history (new_metrics floats))
          ≡ tally (is_served key) history % 2 ^ 64)
    × ((kind : Text)
        → auth_at floats kind (run floats history (new_metrics floats))
          ≡ tally (is_denial kind) history % 2 ^ 64)
run-tally_example = run-tally floats history

abbrev routes : List Text
routes = codes "GET /mcp" ∷ []

abbrev statuses : List ℕ
statuses = 200 ∷ []

history-IsListed : All (IsListed routes statuses) history
unfolding text_eq
history-IsListed = (tt, (tt, (tt, (tt, ((refl, refl), (tt, tt))))))

run-bounded_example :
    let m = run floats history (new_metrics floats) in
    (length (keys m.actions) ≤ 18)
    × (length (keys m.grafana) ≤ 4008)
    × (length (keys m.auth) ≤ 2)
    × (length (keys m.http) ≤ 8 * (1 * 1))
run-bounded_example = run-bounded floats routes statuses history history-IsListed

abbrev calls : List WriterCall
calls = write_header 404 ∷ write (codes "gone") ∷ write_header 200 ∷ []

abbrev exchange : Exchange
exchange = record { path = codes "/mcp"; method = codes "GET"; pattern = []; elapsed = 5 }

abbrev handler : Metrics floats → List WriterCall × Metrics floats
handler m = (calls, m)

path_differs : exchange.path ≢ codes "/metrics"
path_differs e = ground arith

wrap-client_status_example :
    let (passed, after) = wrap floats exchange handler (new_metrics floats) in
    let counted =
      record_http floats
        (codes "GET")
        (route_of exchange.pattern)
        (client_status calls)
        5
        (record (new_metrics floats) { inflight = 0 + 1 }) in
    (client_status passed ≡ client_status calls)
    × (after ≡ record counted { inflight = counted.inflight - 1 })
wrap-client_status_example =
    wrap-client_status floats exchange handler (new_metrics floats) calls
      (record (new_metrics floats) { inflight = 0 + 1 }) path_differs refl (ground arith)
