-- ===== src/Go/Substrings.antt =====
-- Package strings: prefixes and substrings.
use grafana_mcp_setup.Prelude.{
  ◌≡◌, refl, Bool, true, false, ◌&&◌, ◌||◌, [], ◌∷◌, ◌++◌, Text, text_eq, ◌==◌, arith, Bool-cases,
  inl, inr,
}

-- strings.HasPrefix(s, prefix)
unfoldable pub has_prefix : Text → Text → Bool
has_prefix s [] = true
has_prefix [] (p ∷ ps) = false
has_prefix (c ∷ s) (p ∷ ps) = c == p && has_prefix s ps

-- strings.Contains(s, sub)
unfoldable pub contains_text : Text → Text → Bool
unfolding has_prefix
contains_text [] sub = has_prefix [] sub
contains_text (c ∷ s) sub = has_prefix (c ∷ s) sub || contains_text s sub

-- strings.HasSuffix(s, suffix)
unfoldable pub has_suffix : Text → Text → Bool
has_suffix [] suffix = text_eq [] suffix
has_suffix (c ∷ s) suffix = text_eq (c ∷ s) suffix || has_suffix s suffix

has_prefix-append : (s t p : Text) → has_prefix s p ≡ true → has_prefix (s ++ t) p ≡ true
unfolding has_prefix
has_prefix-append s t [] h = refl
has_prefix-append [] t (p ∷ ps) h = absurd (grind arith)
has_prefix-append (c ∷ s) t (p ∷ ps) h = grind (arith, has_prefix-append s t ps)

contains_text-prefix : (s sub : Text) → has_prefix s sub ≡ true → contains_text s sub ≡ true
unfolding contains_text
contains_text-prefix [] sub h = h
contains_text-prefix (c ∷ s) sub h = grind arith

-- What occurs in a part occurs in the whole.
pub contains_text-left :
    (s t sub : Text) → contains_text (s ++ t) sub ≡ false → contains_text s sub ≡ false
unfolding contains_text
contains_text-left [] t sub h = elim (Bool-cases (has_prefix [] sub)) [
  | inl e ↦ absurd (grind (arith, contains_text-prefix t sub (has_prefix-append [] t sub e)))
  | inr e ↦ e
]
contains_text-left (c ∷ s) t sub h =
    grind (arith, contains_text-left s t sub, has_prefix-append (c ∷ s) t sub)

pub contains_text-right :
    (s t sub : Text) → contains_text (s ++ t) sub ≡ false → contains_text t sub ≡ false
unfolding contains_text
contains_text-right [] t sub h = h
contains_text-right (c ∷ s) t sub h = grind (arith, contains_text-right s t sub)
