-- ===== src/Go/Strings.antt =====
-- Package strings, on the bytes of ASCII texts.
use grafana_mcp_setup.Prelude.{
  ℕ, suc, ◌+◌, ◌≡◌, refl, Bool, ◌&&◌, ◌||◌, List, [], ◌∷◌, ◌++◌, arith, Text, leb, ◌==◌,
  if◌then◌else◌, any, All, keep_if, true, false, ◌≢◌, Bool-cases, inl, inr,
}
use mathlib.Core.List.{reverse}

-- strings.ToLower
abbrev pub lower_byte : ℕ → ℕ
lower_byte c = if leb b'A' c && leb c b'Z' then c + 32 else c

unfoldable pub to_lower : Text → Text
to_lower [] = []
to_lower (c ∷ s) = lower_byte c ∷ to_lower s

-- The white space of strings.TrimSpace below 0x80.
abbrev pub is_space : ℕ → Bool
is_space c = c == 32 || (leb 9 c && leb c 13)

unfoldable pub trim_left : Text → Text
trim_left [] = []
trim_left (c ∷ s) = let rest = trim_left s in if is_space c then rest else c ∷ s

-- strings.TrimSpace
unfoldable pub trim_space : Text → Text
unfolding trim_left
trim_space s = reverse (trim_left (reverse (trim_left s)))

-- strings.Contains, strings.Count and strings.ContainsAny, for single bytes.
abbrev pub has_byte : ℕ → Text → Bool
has_byte b s = any (λ c. c == b) s

unfoldable pub count_byte : ℕ → Text → ℕ
count_byte b [] = 0
count_byte b (c ∷ s) = if c == b then suc (count_byte b s) else count_byte b s

pub to_lower_idem : (s : Text) → to_lower (to_lower s) ≡ to_lower s
unfolding to_lower
to_lower_idem [] = refl
to_lower_idem (c ∷ s) = ground (arith, to_lower_idem s)

-- No lower-cased text holds an upper-case letter.
abbrev pub IsLower : Text → Type 0
IsLower s = to_lower s ≡ s

pub to_lower-append : (s t : Text) → to_lower (s ++ t) ≡ to_lower s ++ to_lower t
unfolding to_lower
to_lower-append [] t = refl
to_lower-append (c ∷ s) t = ground (arith, to_lower-append s t)

cons_first : ℕ → List Text → List Text
cons_first c [] = (c ∷ []) ∷ []
cons_first c (part ∷ parts) = (c ∷ part) ∷ parts

-- strings.Split by a separator of one byte.
unfoldable pub split : ℕ → Text → List Text
unfolding cons_first
split sep [] = [] ∷ []
split sep (c ∷ s) = if c == sep then [] ∷ split sep s else cons_first c (split sep s)

-- A part without the separator, and what follows it.
pub split-part :
    (sep : ℕ) (part rest : Text)
    → All (λ c. c ≢ sep) part
    → split sep (part ++ sep ∷ rest) ≡ part ∷ split sep rest
unfolding split
split-part sep [] rest h = ground arith
split-part sep (c ∷ part) rest h = ground (arith, split-part sep part rest h.1)

pub split-last : (sep : ℕ) (part : Text) → All (λ c. c ≢ sep) part → split sep part ≡ part ∷ []
unfolding split
split-last sep [] h = refl
split-last sep (c ∷ part) h = ground (arith, split-last sep part h.1)

-- strings.Join, with a separator of one byte.
unfoldable pub join : ℕ → List Text → Text
join sep [] = []
join sep (part ∷ []) = part
join sep (part ∷ next ∷ parts) = part ++ sep ∷ join sep (next ∷ parts)

join-cons_first :
    (sep c : ℕ) (parts : List Text) → join sep (cons_first c parts) ≡ c ∷ join sep parts
unfolding join cons_first
join-cons_first sep c [] = refl
join-cons_first sep c (part ∷ []) = refl
join-cons_first sep c (part ∷ next ∷ parts) = refl

join-empty_part :
    (sep : ℕ) (parts : List Text) → parts ≢ [] → join sep ([] ∷ parts) ≡ sep ∷ join sep parts
unfolding join
join-empty_part sep [] h = absurd (h refl)
join-empty_part sep (part ∷ parts) h = refl

split_nonempty : (sep : ℕ) (s : Text) → split sep s ≢ []
unfolding split
split_nonempty sep [] = λ e. grind arith
split_nonempty sep (c ∷ s) = elim (split sep s) [
  | [] ↦ λ e. grind arith
  | part ∷ parts ↦ λ e. grind arith
]

pub join-split : (sep : ℕ) (s : Text) → join sep (split sep s) ≡ s
unfolding join split
join-split sep [] = refl
join-split sep (c ∷ s) = elim (Bool-cases (c == sep)) [
  | inl here ↦
      grind (arith, join-empty_part sep (split sep s) (split_nonempty sep s), join-split sep s)
  | inr later ↦ grind (arith, join-cons_first sep c (split sep s), join-split sep s)
]

-- strings.TrimLeft, strings.TrimRight and strings.Trim, with a cutset of one byte.
unfoldable pub trim_left_byte : ℕ → Text → Text
trim_left_byte b [] = []
trim_left_byte b (c ∷ s) = let rest = trim_left_byte b s in if c == b then rest else c ∷ s

unfoldable pub trim_right_byte : ℕ → Text → Text
trim_right_byte b [] = []
trim_right_byte b (c ∷ s) = attach c (trim_right_byte b s)
  where
    attach : ℕ → Text → Text
    attach c [] = if c == b then [] else c ∷ []
    attach c (d ∷ rest) = c ∷ d ∷ rest

unfoldable pub trim_byte : ℕ → Text → Text
unfolding trim_left_byte trim_right_byte
trim_byte b s = trim_right_byte b (trim_left_byte b s)

-- The parts between the bytes that a test finds, and strings.FieldsFunc.
unfoldable pub split_where : (ℕ → Bool) → Text → List Text
unfolding cons_first
split_where p [] = [] ∷ []
split_where p (c ∷ s) = let rest = split_where p s in if p c then [] ∷ rest else cons_first c rest

abbrev nonempty : Text → Bool
nonempty [] = false
nonempty (c ∷ s) = true

unfoldable pub fields_where : (ℕ → Bool) → Text → List Text
unfolding split_where
fields_where p s = keep_if nonempty (split_where p s)
