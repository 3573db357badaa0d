-- ===== src/Metrics/Counted.antt =====
-- The counters count: after any history, each is the number of the events with its labels.
use grafana_mcp_setup.Prelude.{
  ℕ, suc, ◌+◌, ◌%◌, ◌^◌, ◌<◌, ◌≡◌, refl, ap, Bool, false, ◌&&◌, List, [], ◌∷◌, Text, text_eq,
  text_eq_iff, text_eq_refl, contains, ==_iff, if◌then◌else◌, arith, Bool-cases, inl, inr,
}
use grafana_mcp_setup.Prelude.Int.{ℤ}
use grafana_mcp_setup.Metrics.Counters.{
  value_at, update, IsEquality, value_at-update, value_at-other,
}
use grafana_mcp_setup.Metrics.Record.{
  Floats, MetricKey, ActionKey, GrafanaMetricKey, same_metric, same_action, same_grafana,
  metric_method, auth_kinds, action_key, grafana_key, increment, MetricValue, Metrics, no_value,
  measured, new_metrics, record_action, record_grafana, record_auth, record_http,
}

-- What the program records, with the arguments of the call.
pub data Event : Type 0 where
  acted : Text → Text → Event
  asked_grafana : Text → ℤ → ℕ → Event
  denied : Text → Event
  served : Text → Text → ℕ → ℕ → Event

pub same_action-IsEquality : IsEquality same_action
unfolding same_action
same_action-IsEquality = record {
  sound = λ k l h. grind (arith, text_eq_iff k.action l.action, text_eq_iff k.result l.result);
  self = λ k. grind (arith, text_eq_refl k.action, text_eq_refl k.result);
}

pub same_grafana-IsEquality : IsEquality same_grafana
unfolding same_grafana
same_grafana-IsEquality = record {
  sound = λ k l h. grind (arith, text_eq_iff k.method l.method, ==_iff k.status l.status);
  self = λ k. grind (arith, text_eq_refl k.method, ==_iff k.status k.status);
}

pub same_metric-IsEquality : IsEquality same_metric
unfolding same_metric
same_metric-IsEquality = record {
  sound = λ k l h.
      grind (
        arith,
        text_eq_iff k.method l.method,
        text_eq_iff k.route l.route,
        ==_iff k.status l.status,
      );
  self = λ k. grind (arith, text_eq_refl k.method, text_eq_refl k.route, ==_iff k.status k.status);
}

pub text_eq-IsEquality : IsEquality text_eq
text_eq-IsEquality = record { sound = λ k l h. (text_eq_iff k l).0 h; self = text_eq_refl }

-- Which events a counter is about.
abbrev pub is_action : ActionKey → Event → Bool
is_action key (acted action result) = same_action (action_key action result) key
is_action key _ = false

abbrev pub is_grafana : GrafanaMetricKey → Event → Bool
is_grafana key (asked_grafana method status elapsed) = same_grafana (grafana_key method status) key
is_grafana key _ = false

abbrev pub is_denial : Text → Event → Bool
is_denial kind (denied k) = contains auth_kinds k && text_eq k kind
is_denial kind _ = false

abbrev pub is_served : MetricKey → Event → Bool
is_served key (served method route status elapsed) =
    same_metric (record { method = metric_method method; route = route; status = status }) key
is_served key _ = false

unfoldable pub tally : (Event → Bool) → List Event → ℕ
tally p [] = 0
tally p (e ∷ history) = let rest = tally p history in if p e then suc rest else rest

module _ (floats : Floats) where
  unfoldable pub step : Event → Metrics floats → Metrics floats
  unfolding record_action record_grafana record_auth record_http
  step (acted action result) m = record_action floats action result m
  step (asked_grafana method status elapsed) m = record_grafana floats method status elapsed m
  step (denied kind) m = record_auth floats kind m
  step (served method route status elapsed) m = record_http floats method route status elapsed m

  -- The metrics after a history, the oldest event first.
  unfoldable pub run : List Event → Metrics floats → Metrics floats
  unfolding step
  run [] m = m
  run (e ∷ history) m = run history (step e m)

  -- A number that each event of a kind increments.
  abbrev Counts : (Metrics floats → ℕ) → (Event → Bool) → Type 0
  Counts count p =
      (e : Event) (m : Metrics floats)
      → count (step e m) ≡ (if p e then increment (count m) else count m)

  count-run :
      (count : Metrics floats → ℕ) (p : Event → Bool)
      → Counts count p
      → (history : List Event) (m : Metrics floats) → count m < 2 ^ 64
      → count (run history m) ≡ (count m + tally p history) % 2 ^ 64
  unfolding run tally
  count-run count p counts [] m small = omega (arith, small)
  count-run count p counts (e ∷ history) m small = elim (Bool-cases (p e)) [
    | inl counted ↦
        let one : count (step e m) ≡ increment (count m) = grind (arith, counts e m) in
        let rest = count-run count p counts history (step e m) (omega (arith, one)) in
        rw counted (omega (arith, one, rest, small))
    | inr passed ↦
        let none_more : count (step e m) ≡ count m = grind (arith, counts e m) in
        let rest = count-run count p counts history (step e m) (omega (arith, none_more, small)) in
        rw passed (omega (arith, none_more, rest))
  ]

  count-run_new :
      (count : Metrics floats → ℕ) (p : Event → Bool)
      → Counts count p
      → (history : List Event) → count (new_metrics floats) ≡ 0
      → count (run history (new_metrics floats)) ≡ tally p history % 2 ^ 64
  count-run_new count p counts history none_yet = omega (
    arith,
    none_yet,
    count-run count p counts history (new_metrics floats) (omega (arith, none_yet)),
  )

  abbrev pub actions_at : ActionKey → Metrics floats → ℕ
  actions_at key m = value_at same_action 0 key m.actions

  abbrev pub grafana_at : GrafanaMetricKey → Metrics floats → ℕ
  grafana_at key m = (value_at same_grafana (no_value floats) key m.grafana).count

  abbrev pub auth_at : Text → Metrics floats → ℕ
  auth_at kind m = value_at text_eq 0 kind m.auth

  abbrev pub http_at : MetricKey → Metrics floats → ℕ
  http_at key m = (value_at same_metric (no_value floats) key m.http).count

  -- A map of counters after an update of one key.
  updated :
      {K : Type 0} (same : K → K → Bool) (eq : IsEquality same) (key l : K) (m : List (K × ℕ))
      → value_at same 0 l (update same 0 increment key m)
        ≡ (if same key l then increment (value_at same 0 l m) else value_at same 0 l m)
  updated same eq key l m = elim (Bool-cases (same key l)) [
    | inl here ↦ rw (here, ← eq.sound key l here) (value_at-update same eq 0 increment key m)
    | inr there ↦ rw there (value_at-other same eq 0 increment key l m there)
  ]

  updated_value :
      {K : Type 0} (same : K → K → Bool) (eq : IsEquality same) (seconds : floats.Float) (key l : K)
      (m : List (K × MetricValue floats))
      → (value_at same
          (no_value floats)
          l
          (update same (no_value floats) (measured floats seconds) key m)).count
        ≡ (if same key l
            then increment (value_at same (no_value floats) l m).count
            else (value_at same (no_value floats) l m).count)
  updated_value same eq seconds key l m = elim (Bool-cases (same key l)) [
    | inl here ↦
        rw (here, ← eq.sound key l here)
          (ap (λ (v : MetricValue floats). v.count)
            (value_at-update same eq (no_value floats) (measured floats seconds) key m))
    | inr there ↦ rw there (
        ap (λ (v : MetricValue floats). v.count)
          (value_at-other same eq (no_value floats) (measured floats seconds) key l m there))
  ]

  actions-Counts : (key : ActionKey) → Counts (actions_at key) (is_action key)
  unfolding step record_action record_grafana record_auth record_http
  actions-Counts key (acted action result) m =
      updated same_action same_action-IsEquality (action_key action result) key m.actions
  actions-Counts key (asked_grafana method status elapsed) m = refl
  actions-Counts key (denied kind) m = elim (Bool-cases (contains auth_kinds kind)) [
    | inl known ↦ rw known refl
    | inr unknown ↦ rw unknown refl
  ]
  actions-Counts key (served method route status elapsed) m = refl

  grafana-Counts : (key : GrafanaMetricKey) → Counts (grafana_at key) (is_grafana key)
  unfolding step record_action record_grafana record_auth record_http
  grafana-Counts key (acted action result) m = refl
  grafana-Counts key (asked_grafana method status elapsed) m =
      updated_value same_grafana same_grafana-IsEquality (floats.seconds_of elapsed)
        (grafana_key method status) key m.grafana
  grafana-Counts key (denied kind) m = elim (Bool-cases (contains auth_kinds kind)) [
    | inl known ↦ rw known refl
    | inr unknown ↦ rw unknown refl
  ]
  grafana-Counts key (served method route status elapsed) m = refl

  http-Counts : (key : MetricKey) → Counts (http_at key) (is_served key)
  unfolding step record_action record_grafana record_auth record_http
  http-Counts key (acted action result) m = refl
  http-Counts key (asked_grafana method status elapsed) m = refl
  http-Counts key (denied kind) m = elim (Bool-cases (contains auth_kinds kind)) [
    | inl known ↦ rw known refl
    | inr unknown ↦ rw unknown refl
  ]
  http-Counts key (served method route status elapsed) m =
      updated_value same_metric same_metric-IsEquality (floats.seconds_of elapsed)
        (record { method = metric_method method; route = route; status = status }) key m.http

  auth-Counts : (kind : Text) → Counts (auth_at kind) (is_denial kind)
  unfolding step record_action record_grafana record_auth record_http
  auth-Counts kind (acted action result) m = refl
  auth-Counts kind (asked_grafana method status elapsed) m = refl
  auth-Counts kind (denied k) m = elim (Bool-cases (contains auth_kinds k)) [
    | inl known ↦ rw known (updated text_eq text_eq-IsEquality k kind m.auth)
    | inr unknown ↦ rw unknown refl
  ]
  auth-Counts kind (served method route status elapsed) m = refl

  -- After any history of what the program records, each counter of the four maps is the number of the
  -- events that carry its labels, up to the wrap-around of 64 bits: what the metrics keep of a history
  -- is how often each of its labels came, and not the order.
  pub run-tally :
      (history : List Event)
      → ((key : ActionKey)
          → actions_at key (run history (new_metrics floats))
            ≡ tally (is_action key) history % 2 ^ 64)
        × ((key : GrafanaMetricKey)
            → grafana_at key (run history (new_metrics floats))
              ≡ tally (is_grafana key) history % 2 ^ 64)
        × ((key : MetricKey)
            → http_at key (run history (new_metrics floats))
              ≡ tally (is_served key) history % 2 ^ 64)
        × ((kind : Text)
            → auth_at kind (run history (new_metrics floats))
              ≡ tally (is_denial kind) history % 2 ^ 64)
  unfolding value_at
  run-tally history = (
    (λ key. count-run_new (actions_at key) (is_action key) (actions-Counts key) history refl),
    (λ key. count-run_new (grafana_at key) (is_grafana key) (grafana-Counts key) history refl),
    (λ key. count-run_new (http_at key) (is_served key) (http-Counts key) history refl),
    (λ kind. count-run_new (auth_at kind) (is_denial kind) (auth-Counts kind) history refl),
  )
