-- ===== src/Metrics/Labelled.antt =====
-- The labels of the counters of actions, of Grafana's answers and of failed authentications.
use grafana_mcp_setup.Prelude.{
  ℕ, ◌≡◌, refl, Bool, true, false, ◌||◌, List, [], ◌∷◌, Text, codes, text_eq, contains, ltb, ◌==◌,
  ==_iff, if◌then◌else◌, arith, Bool-cases, inl, inr,
}
use grafana_mcp_setup.Prelude.Int.{ℤ, pos, negsuc}
use grafana_mcp_setup.Metrics.Counters.{IsEquality}
use grafana_mcp_setup.Metrics.Labels.{
  keys, within, distinct, all_within, distinct-update, all_within-update, product, within-product,
  has_number, count_from, has_number-count_from,
}
use grafana_mcp_setup.Metrics.Record.{
  grafana_status, Floats, ActionKey, GrafanaMetricKey, same_action, same_grafana, methods,
  metric_method, actions_known, results_known, auth_kinds, action_key, grafana_key, increment,
  Metrics, no_value, measured, new_metrics, record_action, record_grafana, record_auth, record_http,
}
use grafana_mcp_setup.Metrics.Counted.{
  Event, acted, asked_grafana, denied, served, same_action-IsEquality, same_grafana-IsEquality,
  text_eq-IsEquality, step, run,
}

pub ==-IsEquality : IsEquality ◌==◌
==-IsEquality = record { sound = λ k l h. (==_iff k l).0 h; self = λ k. (==_iff k k).1 refl }

abbrev pub action_pair : Text → Text → ActionKey
action_pair action result = record { action = action; result = result }

abbrev pub grafana_pair : Text → ℕ → GrafanaMetricKey
grafana_pair method status = record { method = method; status = status }

-- The labels that there can be.
abbrev pub action_labels : List ActionKey
action_labels = product action_pair (codes "other" ∷ actions_known) results_known

abbrev pub statuses : List ℕ
statuses = 0 ∷ count_from 100 500

abbrev pub grafana_labels : List GrafanaMetricKey
grafana_labels = product grafana_pair (codes "other" ∷ methods) statuses

action_key-within :
    (action result : Text) → within same_action (action_key action result) action_labels ≡ true
unfolding action_key text_eq
action_key-within action result =
    within-product text_eq text_eq same_action text_eq-IsEquality text_eq-IsEquality
      same_action-IsEquality action_pair _ _ (codes "other" ∷ actions_known) results_known
      (elim (Bool-cases (contains actions_known action)) [
        | inl known ↦ rw known (grind arith)
        | inr unknown ↦ rw unknown refl
      ])
      (elim (Bool-cases (contains results_known result)) [
        | inl known ↦ rw known known
        | inr unknown ↦ rw unknown refl
      ])

listed_or_zero :
    (outside : Bool) (status : ℕ)
    → (outside ≡ false → has_number (count_from 100 500) status ≡ true)
    → has_number statuses (if outside then 0 else status) ≡ true
listed_or_zero true status h = refl
listed_or_zero false status h = elim (Bool-cases (0 == status)) [
  | inl zero_status ↦ rw zero_status refl
  | inr positive ↦ rw positive (h refl)
]

status-listed :
    (status : ℕ)
    → has_number statuses (if ltb status 100 || ltb 599 status then 0 else status) ≡ true
status-listed status =
    listed_or_zero (ltb status 100 || ltb 599 status) status
      (λ inside. has_number-count_from 100 500 status (grind arith) (grind arith))

grafana_status-listed : (status : ℤ) → has_number statuses (grafana_status status) ≡ true
grafana_status-listed (pos status) = status-listed status
grafana_status-listed (negsuc n) = refl

grafana_key-within :
    (method : Text) (status : ℤ)
    → within same_grafana (grafana_key method status) grafana_labels ≡ true
unfolding grafana_key metric_method text_eq
grafana_key-within method status =
    within-product text_eq ◌==◌ same_grafana text_eq-IsEquality ==-IsEquality
      same_grafana-IsEquality grafana_pair _ _ (codes "other" ∷ methods) statuses
      (elim (Bool-cases (contains methods method)) [
        | inl known ↦ rw known (grind arith)
        | inr unknown ↦ rw unknown refl
      ])
      (grafana_status-listed status)

module _ (floats : Floats) where
  -- The keys of the three maps are distinct and among the labels.
  pub record IsLabelled (m : Metrics floats) : Type 0 where
    pub actions_distinct : distinct same_action (keys m.actions) ≡ true
    pub actions_within : all_within same_action action_labels (keys m.actions) ≡ true
    pub grafana_distinct : distinct same_grafana (keys m.grafana) ≡ true
    pub grafana_within : all_within same_grafana grafana_labels (keys m.grafana) ≡ true
    pub auth_distinct : distinct text_eq (keys m.auth) ≡ true
    pub auth_within : all_within text_eq auth_kinds (keys m.auth) ≡ true

  record_action-IsLabelled :
      (action result : Text) (m : Metrics floats)
      → IsLabelled m
      → IsLabelled (record_action floats action result m)
  unfolding record_action
  record_action-IsLabelled action result m h = record {
    actions_distinct =
        distinct-update same_action same_action-IsEquality 0 increment (action_key action result)
          m.actions h.actions_distinct;
    actions_within =
        all_within-update same_action same_action-IsEquality 0 increment action_labels
          (action_key action result) m.actions (action_key-within action result) h.actions_within;
    grafana_distinct = h.grafana_distinct;
    grafana_within = h.grafana_within;
    auth_distinct = h.auth_distinct;
    auth_within = h.auth_within;
  }

  record_grafana-IsLabelled :
      (method : Text) (status : ℤ) (elapsed : ℕ) (m : Metrics floats)
      → IsLabelled m
      → IsLabelled (record_grafana floats method status elapsed m)
  unfolding record_grafana
  record_grafana-IsLabelled method status elapsed m h =
      let change = measured floats (floats.seconds_of elapsed) in
      record {
        actions_distinct = h.actions_distinct;
        actions_within = h.actions_within;
        grafana_distinct =
            distinct-update same_grafana same_grafana-IsEquality (no_value floats) change
              (grafana_key method status) m.grafana h.grafana_distinct;
        grafana_within =
            all_within-update same_grafana same_grafana-IsEquality (no_value floats) change
              grafana_labels (grafana_key method status) m.grafana
              (grafana_key-within method status) h.grafana_within;
        auth_distinct = h.auth_distinct;
        auth_within = h.auth_within;
      }

  within-auth_kinds :
      (kind : Text) → contains auth_kinds kind ≡ true → within text_eq kind auth_kinds ≡ true
  unfolding within
  within-auth_kinds kind h = h

  record_auth-IsLabelled :
      (kind : Text) (m : Metrics floats) → IsLabelled m → IsLabelled (record_auth floats kind m)
  unfolding record_auth
  record_auth-IsLabelled kind m h = elim (Bool-cases (contains auth_kinds kind)) [
    | inr unknown ↦ rw unknown h
    | inl known ↦ rw known (record {
      actions_distinct = h.actions_distinct;
      actions_within = h.actions_within;
      grafana_distinct = h.grafana_distinct;
      grafana_within = h.grafana_within;
      auth_distinct =
          distinct-update text_eq text_eq-IsEquality 0 increment kind m.auth h.auth_distinct;
      auth_within =
          all_within-update text_eq text_eq-IsEquality 0 increment auth_kinds kind m.auth
            (within-auth_kinds kind known) h.auth_within;
    })
  ]

  record_http-IsLabelled :
      (method route : Text) (status elapsed : ℕ) (m : Metrics floats)
      → IsLabelled m
      → IsLabelled (record_http floats method route status elapsed m)
  unfolding record_http
  record_http-IsLabelled method route status elapsed m h = record {
    actions_distinct = h.actions_distinct;
    actions_within = h.actions_within;
    grafana_distinct = h.grafana_distinct;
    grafana_within = h.grafana_within;
    auth_distinct = h.auth_distinct;
    auth_within = h.auth_within;
  }

  step-IsLabelled : (e : Event) (m : Metrics floats) → IsLabelled m → IsLabelled (step floats e m)
  unfolding step
  step-IsLabelled (acted action result) m h = record_action-IsLabelled action result m h
  step-IsLabelled (asked_grafana method status elapsed) m h =
      record_grafana-IsLabelled method status elapsed m h
  step-IsLabelled (denied kind) m h = record_auth-IsLabelled kind m h
  step-IsLabelled (served method route status elapsed) m h =
      record_http-IsLabelled method route status elapsed m h

  pub run-IsLabelled :
      (history : List Event) (m : Metrics floats) → IsLabelled m → IsLabelled (run floats history m)
  unfolding run
  run-IsLabelled [] m h = h
  run-IsLabelled (e ∷ history) m h =
      run-IsLabelled history (step floats e m) (step-IsLabelled e m h)

  pub new_metrics-IsLabelled : IsLabelled (new_metrics floats)
  unfolding distinct all_within keys
  new_metrics-IsLabelled = record {
    actions_distinct = refl;
    actions_within = refl;
    grafana_distinct = refl;
    grafana_within = refl;
    auth_distinct = refl;
    auth_within = refl;
  }
