-- ===== src/Reconcile/Loop.antt =====
-- `reconcileOne`'s loop over the tokens: which are counted as live, and which are to be deleted.
use grafana_mcp_setup.Prelude.{
  ℕ, ◌+◌, ◌≡◌, refl, sym, ◌∙◌, Bool, true, false, not, ◌&&◌, ◌||◌, Option, none, some, List, [],
  ◌∷◌, ◌++◌, Text, text_eq, if◌then◌else◌, length, keep_if, any, append_assoc, append-nil, arith,
  Bool-cases, inl, inr,
}
use grafana_mcp_setup.Go.Time.{Time, after}
use grafana_mcp_setup.Grafana.Types.{SaToken}

-- type CleanupOptions
pub record CleanupOptions : Type 0 where
  pub apply : Bool
  pub delete_expired : Bool
  pub keep_token : Text

abbrev pub ended : Time → Option Time → Bool
ended now none = false
ended now (some expires) = not (after expires now)

abbrev pub is_expired : Time → SaToken → Bool
is_expired now t = t.revoked || (t.has_expired || ended now t.expiration)

abbrev pub keeps_one : CleanupOptions → Bool
keeps_one opts = not (text_eq opts.keep_token [])

abbrev pub is_candidate : Time → CleanupOptions → SaToken → Bool
is_candidate now opts t =
    keeps_one opts && not (text_eq t.title opts.keep_token)
    || opts.delete_expired && is_expired now t

abbrev pub is_keeper : Time → CleanupOptions → SaToken → Bool
is_keeper now opts t = text_eq t.title opts.keep_token && not (is_expired now t)

-- The variables of the loop.
pub record Plan : Type 0 where
  pub active : ℕ
  pub expired_count : ℕ
  pub candidates : List SaToken
  pub keep_found : Bool

abbrev pub no_plan : CleanupOptions → Plan
no_plan opts = record {
  active = 0;
  expired_count = 0;
  candidates = [];
  keep_found = text_eq opts.keep_token [];
}

abbrev pub plan_step : Time → CleanupOptions → Plan → SaToken → Plan
plan_step now opts plan t = record {
  active = if is_expired now t then plan.active else plan.active + 1;
  expired_count = if is_expired now t then plan.expired_count + 1 else plan.expired_count;
  candidates = if is_candidate now opts t then plan.candidates ++ t ∷ [] else plan.candidates;
  keep_found = if is_keeper now opts t then true else plan.keep_found;
}

unfoldable pub plan_from : Time → CleanupOptions → Plan → List SaToken → Plan
plan_from now opts plan [] = plan
plan_from now opts plan (t ∷ ts) = plan_from now opts (plan_step now opts plan t) ts

abbrev pub plan_of : Time → CleanupOptions → List SaToken → Plan
plan_of now opts ts = plan_from now opts (no_plan opts) ts

pub plan_from-chosen :
    (now : Time) (opts : CleanupOptions) (plan : Plan) (ts : List SaToken)
    → (plan_from now opts plan ts).candidates
      ≡ plan.candidates ++ keep_if (is_candidate now opts) ts
unfolding plan_from
plan_from-chosen now opts plan [] = sym (append-nil plan.candidates)
plan_from-chosen now opts plan (t ∷ ts) = elim (Bool-cases (is_candidate now opts t)) [
  | inl picked ↦
      plan_from-chosen now opts (plan_step now opts plan t) ts
      ∙ rw picked (append_assoc plan.candidates (t ∷ []) (keep_if (is_candidate now opts) ts))
  | inr spared ↦ plan_from-chosen now opts (plan_step now opts plan t) ts ∙ rw spared refl
]

pub plan_from-active :
    (now : Time) (opts : CleanupOptions) (plan : Plan) (ts : List SaToken)
    → (plan_from now opts plan ts).active
      ≡ plan.active + length (keep_if (λ t. not (is_expired now t)) ts)
unfolding plan_from
plan_from-active now opts plan [] = omega arith
plan_from-active now opts plan (t ∷ ts) = elim (Bool-cases (is_expired now t)) [
  | inl old ↦ plan_from-active now opts (plan_step now opts plan t) ts ∙ rw old refl
  | inr live ↦ plan_from-active now opts (plan_step now opts plan t) ts ∙ rw live (omega arith)
]

pub plan_from-expired_count :
    (now : Time) (opts : CleanupOptions) (plan : Plan) (ts : List SaToken)
    → (plan_from now opts plan ts).expired_count
      ≡ plan.expired_count + length (keep_if (is_expired now) ts)
unfolding plan_from
plan_from-expired_count now opts plan [] = omega arith
plan_from-expired_count now opts plan (t ∷ ts) = elim (Bool-cases (is_expired now t)) [
  | inl old ↦ plan_from-expired_count now opts (plan_step now opts plan t) ts ∙ rw old (omega arith)
  | inr live ↦ plan_from-expired_count now opts (plan_step now opts plan t) ts ∙ rw live refl
]

pub plan_from-keep_found :
    (now : Time) (opts : CleanupOptions) (plan : Plan) (ts : List SaToken)
    → (plan_from now opts plan ts).keep_found ≡ (plan.keep_found || any (is_keeper now opts) ts)
unfolding plan_from
plan_from-keep_found now opts plan [] = ground arith
plan_from-keep_found now opts plan (t ∷ ts) =
    grind (arith, plan_from-keep_found now opts (plan_step now opts plan t) ts)
