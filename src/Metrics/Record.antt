-- ===== src/Metrics/Record.antt =====
-- The metrics' state and what records in it.
use grafana_mcp_setup.Prelude.{
  ℕ, ◌+◌, ◌%◌, ◌^◌, Bool, ◌&&◌, ◌||◌, List, [], ◌∷◌, Text, codes, text_eq, contains, ltb, ◌==◌,
  if◌then◌else◌,
}
use grafana_mcp_setup.Prelude.Int.{ℤ, pos, negsuc}
use grafana_mcp_setup.Metrics.Counters.{update}

-- float64, and the seconds of a duration.
pub record Floats : Type 1 where
  pub Float : Type 0
  pub zero_float : Float
  pub add_float : Float → Float → Float
  pub seconds_of : ℕ → Float
  -- The verb %g.
  pub show_float : Float → Text

pub record MetricKey : Type 0 where
  pub method : Text
  pub route : Text
  pub status : ℕ

pub record ActionKey : Type 0 where
  pub action : Text
  pub result : Text

pub record GrafanaMetricKey : Type 0 where
  pub method : Text
  pub status : ℕ

unfoldable pub same_metric : MetricKey → MetricKey → Bool
unfolding text_eq
same_metric k l = text_eq k.method l.method && (text_eq k.route l.route && k.status == l.status)

unfoldable pub same_action : ActionKey → ActionKey → Bool
unfolding text_eq
same_action k l = text_eq k.action l.action && text_eq k.result l.result

unfoldable pub same_grafana : GrafanaMetricKey → GrafanaMetricKey → Bool
unfolding text_eq
same_grafana k l = text_eq k.method l.method && k.status == l.status

abbrev pub methods : List Text
methods =
    codes "GET"
    ∷ codes "POST"
    ∷ codes "PUT"
    ∷ codes "PATCH"
    ∷ codes "DELETE"
    ∷ codes "HEAD"
    ∷ codes "OPTIONS"
    ∷ []

-- `metricMethod`
unfoldable pub metric_method : Text → Text
unfolding text_eq
metric_method method = if contains methods method then method else codes "other"

abbrev pub actions_known : List Text
actions_known =
    codes "issue" ∷ codes "reissue" ∷ codes "revoke" ∷ codes "offboard" ∷ codes "reconcile" ∷ []

abbrev pub results_known : List Text
results_known = codes "success" ∷ codes "failure" ∷ codes "partial" ∷ []

abbrev pub auth_kinds : List Text
auth_kinds = codes "oidc_failure" ∷ codes "authorization_denial" ∷ []

-- The two switches of `RecordAction`.
unfoldable pub action_key : Text → Text → ActionKey
unfolding text_eq
action_key action result = record {
  action = if contains actions_known action then action else codes "other";
  result = if contains results_known result then result else codes "failure";
}

abbrev pub grafana_status : ℤ → ℕ
grafana_status (pos status) = if ltb status 100 || ltb 599 status then 0 else status
grafana_status (negsuc n) = 0

unfoldable pub grafana_key : Text → ℤ → GrafanaMetricKey
unfolding metric_method
grafana_key method status = record { method = metric_method method; status = grafana_status status }

-- `count++` on a uint64.
abbrev pub increment : ℕ → ℕ
increment n = (n + 1) % 2 ^ 64

module _ (floats : Floats) where
  open floats use {Float, zero_float, add_float, seconds_of}

  pub record MetricValue : Type 0 where
    pub count : ℕ
    pub seconds : Float

  -- type metrics; `inflight` is the number of requests between its two `Add`s.
  pub record Metrics : Type 0 where
    pub inflight : ℕ
    pub http : List (MetricKey × MetricValue)
    pub actions : List (ActionKey × ℕ)
    pub grafana : List (GrafanaMetricKey × MetricValue)
    pub auth : List (Text × ℕ)
    pub version : Text

  abbrev pub no_value : MetricValue
  no_value = record { count = 0; seconds = zero_float }

  abbrev pub new_metrics : Metrics
  new_metrics = record {
    inflight = 0;
    http = [];
    actions = [];
    grafana = [];
    auth = [];
    version = codes "development";
  }

  -- One more, which took a while.
  abbrev pub measured : Float → MetricValue → MetricValue
  measured seconds v = record { count = increment v.count; seconds = add_float v.seconds seconds }

  unfoldable pub set_version : Text → Metrics → Metrics
  set_version version m = record m { version = version }

  unfoldable pub record_action : Text → Text → Metrics → Metrics
  unfolding update same_action action_key
  record_action action result m = record m {
    actions = update same_action 0 increment (action_key action result) m.actions;
  }

  unfoldable pub record_grafana : Text → ℤ → ℕ → Metrics → Metrics
  unfolding update same_grafana grafana_key
  record_grafana method status elapsed m = record m {
    grafana =
        update same_grafana no_value (measured (seconds_of elapsed)) (grafana_key method status)
          m.grafana;
  }

  unfoldable pub record_auth : Text → Metrics → Metrics
  unfolding update text_eq
  record_auth kind m =
      if contains auth_kinds kind
      then record m { auth = update text_eq 0 increment kind m.auth }
      else m

  -- The end of `wrap`: a request that is over.
  unfoldable pub record_http : Text → Text → ℕ → ℕ → Metrics → Metrics
  unfolding update same_metric metric_method
  record_http method route status elapsed m = record m {
    http =
        update same_metric no_value (measured (seconds_of elapsed))
          (record { method = metric_method method; route = route; status = status }) m.http;
  }
