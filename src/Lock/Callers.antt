-- ===== src/Lock/Callers.antt =====
-- The callers of a key in the list of all callers.
use grafana_mcp_setup.Prelude.{
  ℕ, suc, ◌+◌, ◌≡◌, refl, Bool, true, false, List, [], ◌∷◌, ◌++◌, Text, text_eq, if◌then◌else◌, All,
  arith,
}
use grafana_mcp_setup.Lock.Local.{Phase, holding, Caller}

-- The callers of a key, and those of them that hold its guard.
abbrev pub mentions : Text → List Caller → ℕ
mentions k [] = 0
mentions k (c ∷ cs) = if text_eq c.key k then suc (mentions k cs) else mentions k cs

abbrev pub is_holding : Phase → Bool
is_holding holding = true
is_holding _ = false

abbrev pub hold_of : Text → Caller → ℕ
hold_of k c = if text_eq c.key k then (if is_holding c.phase then 1 else 0) else 0

abbrev pub holders : Text → List Caller → ℕ
holders k [] = 0
holders k (c ∷ cs) = hold_of k c + holders k cs

pub mentions-middle :
    (k : Text) (xs : List Caller) (c : Caller) (ys : List Caller)
    → mentions k (xs ++ c ∷ ys)
      ≡ (if text_eq c.key k then suc (mentions k (xs ++ ys)) else mentions k (xs ++ ys))
mentions-middle k [] c ys = refl
mentions-middle k (x ∷ xs) c ys = grind (arith, mentions-middle k xs c ys)

pub holders-middle :
    (k : Text) (xs : List Caller) (c : Caller) (ys : List Caller)
    → holders k (xs ++ c ∷ ys) ≡ hold_of k c + holders k (xs ++ ys)
holders-middle k [] c ys = refl
holders-middle k (x ∷ xs) c ys = omega (arith, holders-middle k xs c ys)

module _ (P : Caller → Type 0) where
  pub All-without :
      (xs : List Caller) (c : Caller) (ys : List Caller)
      → All P (xs ++ c ∷ ys)
      → P c × All P (xs ++ ys)
  All-without [] c ys h = h
  All-without (x ∷ xs) c ys h = let rest = All-without xs c ys h.1 in (rest.0, (h.0, rest.1))

  pub All-with :
      (xs : List Caller) (c : Caller) (ys : List Caller)
      → P c
      → All P (xs ++ ys)
      → All P (xs ++ c ∷ ys)
  All-with [] c ys p h = (p, h)
  All-with (x ∷ xs) c ys p h = (h.0, All-with xs c ys p h.1)

module _ (P Q : Caller → Type 0) where
  pub All-imp : ((c : Caller) → P c → Q c) → (cs : List Caller) → All P cs → All Q cs
  All-imp f [] h = tt
  All-imp f (c ∷ cs) h = (f c h.0, All-imp f cs h.1)
