-- ===== src/Fallible.antt =====
-- Go functions that return `(T, error)` and only read: results in sequence.
use grafana_mcp_setup.Prelude.{◌≡◌, refl, Bool, true, false, Text, arith}
use grafana_mcp_setup.Exec.{failure, Result, ok, err}

module _ {A B : Type 0} where
  -- `if err != nil { return err }` after a call.
  infixl 5 ◌>>=◌ ◌>>◌
  abbrev pub ◌>>=◌ : Result A → (A → Result B) → Result B
  ◌>>=◌ (ok a) f = f a
  ◌>>=◌ (err e) f = err e

  abbrev pub ◌>>◌ : Result A → Result B → Result B
  ◌>>◌ (ok a) r = r
  ◌>>◌ (err e) r = err e

  -- A sequence that ends well passed its first call.
  pub bind-ok :
      (r : Result A) (f : A → Result B) (b : B)
      → (r >>= f) ≡ ok b
      → (a : A) × (r ≡ ok a) × (f a ≡ ok b)
  bind-ok (ok a) f b h = (a, refl, h)
  bind-ok (err e) f b h = absurd (grind arith)

-- `if bad { return errors.New(message) }`
abbrev pub refuse_if : Bool → Text → Result (Unit {0})
refuse_if true message = err (failure message)
refuse_if false message = ok tt

module _ {B : Type 0} where
  -- What follows a test that refuses.
  pub refuse_if-ok :
      (bad : Bool) (message : Text) (r : Result B) (b : B)
      → (refuse_if bad message >> r) ≡ ok b
      → (bad ≡ false) × (r ≡ ok b)
  refuse_if-ok true message r b h = absurd (grind arith)
  refuse_if-ok false message r b h = (refl, h)

pub refuse_if-fine : (bad : Bool) (message : Text) → refuse_if bad message ≡ ok tt → bad ≡ false
refuse_if-fine true message h = absurd (grind arith)
refuse_if-fine false message h = refl
