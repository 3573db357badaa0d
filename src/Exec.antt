-- ===== src/Exec.antt =====
-- Go functions that return `(T, error)` and act on the world: explicit state passing. `S` is the
-- state of everything outside the program (Grafana, Kubernetes, the clock, randomness) and of the
-- collaborators that a component calls. What happened before an error stays happened.
use grafana_mcp_setup.Prelude.{
  ◌≡◌, refl, ◌⊎◌, inl, inr, ℕ, Text, Option, none, some, List, [], ◌∷◌, arith,
}

-- Error values, by what `errors.Is` and `errors.As` see of them.
pub data Error : Type 0 where
  -- errors.New, or fmt.Errorf with no %w
  failure : Text → Error
  -- fmt.Errorf("text: %w", err)
  wrapped : Text → Error → Error
  -- *apiError, by its Status
  api : ℕ → Error
  -- wraps errServiceAccountState
  account_state : Text → Error
  -- errTokenReconciliation alone, and wrapped beside another error
  reconciliation : Text → Error
  reconciliation_of : Error → Error
  -- *deliveryPreparationError
  delivery : Error → Error
  -- errors.Join of two errors
  joined : Error → Error → Error
  -- context.DeadlineExceeded and context.Canceled
  deadline_exceeded canceled : Error
  -- not of the source: a loop of the model used up its fuel
  out_of_fuel : Error

pub data Result {ℓ} (A : Type ℓ) : Type ℓ where
  ok : A → Result A
  err : Error → Result A

pub Result-cases {ℓ} :
    {A : Type ℓ} (r : Result A) → ((a : A) × (r ≡ ok a)) ⊎ ((e : Error) × (r ≡ err e))
Result-cases (ok a) = inl (a, refl)
Result-cases (err e) = inr (e, refl)

abbrev pub Exec : Type 0 → Type 0 → Type 0
Exec S A = S → Result A × S

module _ {S A B : Type 0} where
  -- `if err != nil { return err }` after a call.
  abbrev pub and_then : Result A × S → (A → Exec S B) → Result B × S
  and_then (ok a, s) f = f a s
  and_then (err e, s) f = (err e, s)

  infixl 5 ◌>>=◌ ◌>>◌
  abbrev pub ◌>>=◌ : Exec S A → (A → Exec S B) → Exec S B
  ◌>>=◌ m f s = and_then (m s) f

  abbrev pub ◌>>◌ : Exec S A → Exec S B → Exec S B
  ◌>>◌ m n s = and_then (m s) (λ _. n)

module _ {S A : Type 0} where
  abbrev pub pure : A → Exec S A
  pure a s = (ok a, s)

  abbrev pub raise : Error → Exec S A
  raise e s = (err e, s)

  abbrev pub lift : Result A → Exec S A
  lift r s = (r, s)

  -- A call whose error is looked at and not returned.
  abbrev pub observe : Result A × S → Result (Option Error) × S
  observe (ok a, t) = (ok none, t)
  observe (err e, t) = (ok (some e), t)

  abbrev pub attempt : Exec S A → Exec S (Option Error)
  attempt m s = observe (m s)

-- errors.Join(e, err) for a non-nil `e`: a nil second error is dropped.
abbrev pub join : Error → Option Error → Error
join e none = e
join e (some f) = joined e f

-- errors.Join(errs...): nil for no error.
abbrev pub join_all : List Error → Option Error
join_all [] = none
join_all (e ∷ es) = some (join e (join_all es))

-- A chain that ends well passed its first call.
pub and_then-ok :
    {S A B : Type 0} (x : Result A × S) (f : A → Exec S B) (b : B) (t : S)
    → and_then x f ≡ (ok b, t)
    → (a : A) × (x.0 ≡ ok a) × (f a x.1 ≡ (ok b, t))
and_then-ok (ok a, s) f b t h = (a, refl, h)
and_then-ok (err e, s) f b t h = absurd (grind arith)
