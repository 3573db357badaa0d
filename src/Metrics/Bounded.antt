-- ===== src/Metrics/Bounded.antt =====
-- The number of counters is bounded, by the labels that there can be.
use grafana_mcp_setup.Prelude.{
  ◌&&◌, ◌*◌, All, text_eq_iff, text_eq_refl, any, ℕ, ◌≤◌, ◌≡◌, refl, Bool, true, List, [], ◌∷◌,
  Text, codes, text_eq, contains, length, ◌==◌, ==_iff, arith, Bool-cases, inl, inr,
}
use grafana_mcp_setup.Metrics.Counters.{IsEquality}
use grafana_mcp_setup.Metrics.Labels.{
  keys, within, distinct, all_within, pigeonhole, distinct-update, all_within-update, product,
  length-product, within-product, has_number, length-count_from,
}
use grafana_mcp_setup.Metrics.Record.{
  MetricKey, same_metric, Floats, same_action, same_grafana, methods, metric_method, actions_known,
  results_known, auth_kinds, Metrics, no_value, measured, new_metrics, record_action,
  record_grafana, record_auth, record_http,
}
use grafana_mcp_setup.Metrics.Counted.{
  same_metric-IsEquality, Event, acted, asked_grafana, denied, served, same_action-IsEquality,
  same_grafana-IsEquality, text_eq-IsEquality, step, run,
}
use grafana_mcp_setup.Metrics.Labelled.{
  ==-IsEquality, action_pair, grafana_pair, statuses, action_labels, grafana_labels, run-IsLabelled,
  new_metrics-IsLabelled,
}

-- A request is served on one of the routes with one of the statuses.
abbrev pub IsListed : List Text → List ℕ → Event → Type 0
IsListed routes codes_sent (served method route status elapsed) =
    (contains routes route ≡ true) × (has_number codes_sent status ≡ true)
IsListed routes codes_sent _ = Unit

within-any :
    {K : Type 0} (same : K → K → Bool) (k : K) (ks : List K)
    → within same k ks ≡ true
    → any (λ (y : K). same y k) ks ≡ true
unfolding within
within-any same k [] h = absurd (grind arith)
within-any same k (x ∷ ks) h = grind (arith, within-any same k ks)

-- The labels of HTTP requests, for given routes and statuses.
abbrev same_answer : Text × ℕ → Text × ℕ → Bool
same_answer x y = text_eq x.0 y.0 && x.1 == y.1

same_answer-IsEquality : IsEquality same_answer
same_answer-IsEquality = record {
  sound = λ x y h. grind (arith, text_eq_iff x.0 y.0, ==_iff x.1 y.1);
  self = λ x. grind (arith, text_eq_refl x.0, ==_iff x.1 x.1);
}

abbrev answer_pair : Text → ℕ → Text × ℕ
answer_pair route status = (route, status)

abbrev metric_pair : Text → Text × ℕ → MetricKey
metric_pair method (route, status) = record { method = method; route = route; status = status }

abbrev http_labels : List Text → List ℕ → List MetricKey
http_labels routes codes_sent =
    product metric_pair (codes "other" ∷ methods) (product answer_pair routes codes_sent)

http_key-within :
    (routes : List Text) (codes_sent : List ℕ) (method route : Text) (status : ℕ)
    → contains routes route ≡ true
    → has_number codes_sent status ≡ true
    → within same_metric
        (record { method = metric_method method; route = route; status = status })
        (http_labels routes codes_sent)
      ≡ true
unfolding metric_method text_eq
http_key-within routes codes_sent method route status a b =
    within-product text_eq same_answer same_metric text_eq-IsEquality same_answer-IsEquality
      same_metric-IsEquality metric_pair _ (route, status) (codes "other" ∷ methods)
      (product answer_pair routes codes_sent)
      (elim (Bool-cases (contains methods method)) [
        | inl known ↦ rw known (grind arith)
        | inr unknown ↦ rw unknown refl
      ])
      (within-any same_answer (route, status) (product answer_pair routes codes_sent)
        (within-product text_eq ◌==◌ same_answer text_eq-IsEquality ==-IsEquality
          same_answer-IsEquality answer_pair route status routes codes_sent a b))

module _ (floats : Floats) (routes : List Text) (codes_sent : List ℕ) where
  record IsServed (m : Metrics floats) : Type 0 where
    pub distinct_keys : distinct same_metric (keys m.http) ≡ true
    pub keys_within : all_within same_metric (http_labels routes codes_sent) (keys m.http) ≡ true

  -- Only a served request touches these counters.
  step-IsServed :
      (e : Event) (m : Metrics floats)
      → IsListed routes codes_sent e
      → IsServed m
      → IsServed (step floats e m)
  unfolding step record_action record_grafana record_auth record_http
  step-IsServed (acted action result) m l h = record {
    distinct_keys = h.distinct_keys;
    keys_within = h.keys_within;
  }
  step-IsServed (asked_grafana method status elapsed) m l h = record {
    distinct_keys = h.distinct_keys;
    keys_within = h.keys_within;
  }
  step-IsServed (denied kind) m l h = elim (Bool-cases (contains auth_kinds kind)) [
    | inr unknown ↦ rw unknown h
    | inl known ↦ rw known (record { distinct_keys = h.distinct_keys; keys_within = h.keys_within })
  ]
  step-IsServed (served method route status elapsed) m l h =
      let change = measured floats (floats.seconds_of elapsed) in
      let key : MetricKey = (record {
        method = metric_method method;
        route = route;
        status = status;
      }) in
      record {
        distinct_keys =
            distinct-update same_metric same_metric-IsEquality (no_value floats) change key m.http
              h.distinct_keys;
        keys_within =
            all_within-update same_metric same_metric-IsEquality (no_value floats) change
              (http_labels routes codes_sent) key m.http
              (http_key-within routes codes_sent method route status l.0 l.1) h.keys_within;
      }

  run-IsServed :
      (history : List Event) (m : Metrics floats)
      → All (IsListed routes codes_sent) history
      → IsServed m
      → IsServed (run floats history m)
  unfolding run
  run-IsServed [] m l h = h
  run-IsServed (e ∷ history) m l h =
      run-IsServed history (step floats e m) l.1 (step-IsServed e m l.0 h)

  new_metrics-IsServed : IsServed (new_metrics floats)
  unfolding distinct all_within keys
  new_metrics-IsServed = record { distinct_keys = refl; keys_within = refl }

  -- Whatever texts and statuses are recorded, in whatever number, the metrics keep at most 18 counters
  -- of actions, 4008 of Grafana's answers and 2 of failed authentications; and of HTTP requests at most
  -- 8, by their methods, for each of the routes and each of the statuses that the requests are served
  -- on and with.
  pub run-bounded :
      (history : List Event)
      → All (IsListed routes codes_sent) history
      → let m = run floats history (new_metrics floats) in
        (length (keys m.actions) ≤ 18)
        × (length (keys m.grafana) ≤ 4008)
        × (length (keys m.auth) ≤ 2)
        × (length (keys m.http) ≤ 8 * (length routes * length codes_sent))
  run-bounded history listed =
      let h = run-IsLabelled floats history (new_metrics floats) (new_metrics-IsLabelled floats) in
      let k = run-IsServed history (new_metrics floats) listed new_metrics-IsServed in
      (
        omega (
          arith,
          length-product action_pair (codes "other" ∷ actions_known) results_known,
          pigeonhole same_action same_action-IsEquality action_labels _ h.actions_distinct
              h.actions_within,
        ),
        omega (
          arith,
          length-product grafana_pair (codes "other" ∷ methods) statuses,
          length-count_from 100 500,
          pigeonhole same_grafana same_grafana-IsEquality grafana_labels _ h.grafana_distinct
              h.grafana_within,
        ),
        pigeonhole text_eq text_eq-IsEquality auth_kinds _ h.auth_distinct h.auth_within,
        grind (
          arith,
          length-product metric_pair (codes "other" ∷ methods)
              (product answer_pair routes codes_sent),
          length-product answer_pair routes codes_sent,
          pigeonhole same_metric same_metric-IsEquality (http_labels routes codes_sent) _
              k.distinct_keys k.keys_within,
        ),
      )
