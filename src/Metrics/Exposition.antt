-- ===== src/Metrics/Exposition.antt =====
-- `ServeHTTP`: the text that the metrics are shown as.
use grafana_mcp_setup.Prelude.{ℕ, List, [], ◌∷◌, ◌++◌, Text, codes}
use grafana_mcp_setup.Go.Strconv.{format_nat, quote}
use grafana_mcp_setup.Metrics.Record.{
  Floats, MetricKey, ActionKey, GrafanaMetricKey, MetricValue, Metrics,
}

-- `quoteMetric`
abbrev pub quote_metric : Text → Text
quote_metric v = quote v

unfoldable pub concat_with : {A : Type 0} → (A → Text) → List A → Text
concat_with line [] = []
concat_with line (x ∷ xs) = line x ++ concat_with line xs

abbrev pub newline : Text
newline = codes "\n"

-- A name, its labels and its value.
abbrev pub sample : Text → Text → Text → Text
sample name labels value = name ++ (codes "{" ++ (labels ++ (codes "} " ++ (value ++ newline))))

abbrev pub http_labels : MetricKey → Text
http_labels key =
    codes "method="
    ++ (quote_metric key.method
        ++ (codes ",route="
            ++ (quote_metric key.route
                ++ (codes ",status=" ++ quote_metric (format_nat key.status)))))

abbrev pub grafana_labels : GrafanaMetricKey → Text
grafana_labels key =
    codes "method="
    ++ (quote_metric key.method ++ (codes ",status=" ++ quote_metric (format_nat key.status)))

abbrev pub action_line : ActionKey × ℕ → Text
action_line (key, count) =
    sample (codes "grafana_mcp_actions_total")
      (codes "action="
        ++ (quote_metric key.action ++ (codes ",result=" ++ quote_metric key.result)))
      (format_nat count)

abbrev pub auth_line : Text × ℕ → Text
auth_line (kind, count) =
    sample (codes "grafana_mcp_auth_failures_total") (codes "kind=" ++ quote_metric kind)
      (format_nat count)

module _ (floats : Floats) where
  abbrev pub http_lines : MetricKey × MetricValue floats → Text
  http_lines (key, value) =
      sample (codes "grafana_mcp_http_requests_total") (http_labels key) (format_nat value.count)
      ++ (sample (codes "grafana_mcp_http_request_duration_seconds_sum") (http_labels key)
            (floats.show_float value.seconds)
          ++ sample (codes "grafana_mcp_http_request_duration_seconds_count") (http_labels key)
              (format_nat value.count))

  abbrev pub grafana_lines : GrafanaMetricKey × MetricValue floats → Text
  grafana_lines (key, value) =
      sample (codes "grafana_mcp_grafana_requests_total") (grafana_labels key)
        (format_nat value.count)
      ++ (sample (codes "grafana_mcp_grafana_request_duration_seconds_sum") (grafana_labels key)
            (floats.show_float value.seconds)
          ++ sample (codes "grafana_mcp_grafana_request_duration_seconds_count")
              (grafana_labels key) (format_nat value.count))

  -- The order in which Go ranges over the clones of the four maps, which is not specified.
  pub record MapOrders : Type 0 where
    pub http : List (MetricKey × MetricValue floats) → List (MetricKey × MetricValue floats)
    pub actions : List (ActionKey × ℕ) → List (ActionKey × ℕ)
    pub grafana :
        List (GrafanaMetricKey × MetricValue floats) → List (GrafanaMetricKey × MetricValue floats)
    pub auth : List (Text × ℕ) → List (Text × ℕ)

  unfoldable pub exposition : MapOrders → Metrics floats → Text
  unfolding concat_with
  exposition orders m =
      codes "# HELP grafana_mcp_http_requests_total HTTP requests handled.\n"
      ++ (codes "# TYPE grafana_mcp_http_requests_total counter\n"
          ++ (codes "# TYPE grafana_mcp_http_request_duration_seconds summary\n"
              ++ (concat_with http_lines (orders.http m.http)
                  ++ (codes "# HELP grafana_mcp_actions_total Credential operations by outcome.\n"
                      ++ (codes "# TYPE grafana_mcp_actions_total counter\n"
                          ++ (concat_with action_line (orders.actions m.actions)
                              ++ (codes
                                    "# HELP grafana_mcp_grafana_requests_total Grafana requests; status zero means no HTTP response.\n"
                                  ++ (codes "# TYPE grafana_mcp_grafana_requests_total counter\n"
                                      ++ (codes
                                            "# TYPE grafana_mcp_grafana_request_duration_seconds summary\n"
                                          ++ (concat_with grafana_lines (orders.grafana m.grafana)
                                              ++ (codes
                                                    "# TYPE grafana_mcp_auth_failures_total counter\n"
                                                  ++ (concat_with auth_line (orders.auth m.auth)
                                                      ++ (codes
                                                            "# HELP grafana_mcp_http_requests_in_flight HTTP requests currently being handled.\n"
                                                          ++ (codes
                                                            "# TYPE grafana_mcp_http_requests_in_flight gauge\n"
                                                            ++ (codes
                                                            "grafana_mcp_http_requests_in_flight "
                                                            ++ (format_nat m.inflight
                                                            ++ (newline
                                                            ++ (codes
                                                            "# TYPE grafana_mcp_build_info gauge\n"
                                                            ++ sample
                                                            (codes "grafana_mcp_build_info")
                                                            (codes "version="
                                                            ++ quote_metric m.version)
                                                            (codes "1")))))))))))))))))))
