-- ===== src/Metrics/Counters.antt =====
-- Go maps from keys to values, as association lists under a test of the keys, in the order in which the
-- keys came.
use grafana_mcp_setup.Prelude.{
  ◌≡◌, Bool, true, false, List, [], ◌∷◌, if◌then◌else◌, arith, Bool-cases, inl, inr,
}

-- The test of the keys is their equality.
pub record IsEquality {K : Type 0} (same : K → K → Bool) : Type 0 where
  pub sound : (k l : K) → same k l ≡ true → k ≡ l
  pub self : (k : K) → same k k ≡ true

module _ {K V : Type 0} (same : K → K → Bool) where
  -- `m[key]`, with the zero value for a missing key.
  unfoldable pub value_at : V → K → List (K × V) → V
  value_at zero_value key [] = zero_value
  value_at zero_value key ((k, v) ∷ m) =
      let rest = value_at zero_value key m in if same k key then v else rest

  -- `m[key] = change(m[key])`
  unfoldable pub update : V → (V → V) → K → List (K × V) → List (K × V)
  update zero_value change key [] = (key, change zero_value) ∷ []
  update zero_value change key ((k, v) ∷ m) =
      let rest = update zero_value change key m in
      if same k key then (k, change v) ∷ m else (k, v) ∷ rest

  pub value_at-update :
      (eq : IsEquality same) (zero_value : V) (change : V → V) (key : K) (m : List (K × V))
      → value_at zero_value key (update zero_value change key m)
        ≡ change (value_at zero_value key m)
  unfolding value_at update
  value_at-update eq zero_value change key [] = grind (arith, eq.self key)
  value_at-update eq zero_value change key ((k, v) ∷ m) = elim (Bool-cases (same k key)) [
    | inl here ↦ grind arith
    | inr there ↦ grind (arith, value_at-update eq zero_value change key m)
  ]

  pub value_at-other :
      (eq : IsEquality same) (zero_value : V) (change : V → V) (key l : K) (m : List (K × V))
      → same key l ≡ false
      → value_at zero_value l (update zero_value change key m) ≡ value_at zero_value l m
  unfolding value_at update
  value_at-other eq zero_value change key l [] h = grind arith
  value_at-other eq zero_value change key l ((k, v) ∷ m) h = elim (Bool-cases (same k key)) [
    | inl here ↦ grind (arith, eq.sound k key)
    | inr there ↦ grind (arith, value_at-other eq zero_value change key l m)
  ]
