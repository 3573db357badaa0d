-- ===== src/Metrics/Labels.antt =====
-- Maps whose keys are distinct and come from a finite list.
use grafana_mcp_setup.Prelude.{
  ℕ, zero, suc, ◌+◌, ◌*◌, ◌≤◌, ◌<◌, ◌≡◌, refl, ap, Bool, true, false, ◌&&◌, ◌||◌, not, List, [],
  ◌∷◌, ◌++◌, map, any, length, length-append, ◌==◌, if◌then◌else◌, arith, Bool-cases, inl, inr,
}
use grafana_mcp_setup.Metrics.Counters.{update, IsEquality}

unfoldable pub keys : {K V : Type 0} → List (K × V) → List K
keys [] = []
keys ((k, v) ∷ m) = k ∷ keys m

module _ {K : Type 0} (same : K → K → Bool) where
  unfoldable pub within : K → List K → Bool
  within k [] = false
  within k (x ∷ xs) = same x k || within k xs

  unfoldable pub distinct : List K → Bool
  unfolding within
  distinct [] = true
  distinct (k ∷ ks) = not (within k ks) && distinct ks

  unfoldable pub all_within : List K → List K → Bool
  unfolding within
  all_within allowed [] = true
  all_within allowed (k ∷ ks) = within k allowed && all_within allowed ks

  remove : K → List K → List K
  remove k [] = []
  remove k (x ∷ xs) = let rest = remove k xs in if same x k then xs else x ∷ rest

  module _ (eq : IsEquality same) where
    length-remove :
        (k : K) (xs : List K) → within k xs ≡ true → length xs ≡ suc (length (remove k xs))
    unfolding remove within
    length-remove k [] h = absurd (grind arith)
    length-remove k (x ∷ xs) h = elim (Bool-cases (same x k)) [
      | inl here ↦ rw here refl
      | inr there ↦ rw there (ap suc (length-remove k xs (grind arith)))
    ]

    within-remove :
        (k l : K) (xs : List K)
        → same k l ≡ false
        → within l xs ≡ true
        → within l (remove k xs) ≡ true
    unfolding remove within
    within-remove k l [] d h = h
    within-remove k l (x ∷ xs) d h = elim (Bool-cases (same x k)) [
      | inl here ↦ grind (arith, eq.sound x k)
      | inr there ↦ grind (arith, within-remove k l xs d)
    ]

    all_within-remove :
        (k : K) (allowed ks : List K)
        → within k ks ≡ false
        → all_within allowed ks ≡ true
        → all_within (remove k allowed) ks ≡ true
    unfolding all_within within
    all_within-remove k allowed [] out h = refl
    all_within-remove k allowed (l ∷ ks) out h = elim (Bool-cases (same k l)) [
      | inl same_key ↦ absurd (grind (arith, eq.sound k l, eq.self l))
      | inr differs ↦
          grind (arith, within-remove k l allowed differs, all_within-remove k allowed ks)
    ]

    -- No more distinct keys than there are in the list that they come from.
    pub pigeonhole :
        (allowed ks : List K)
        → distinct ks ≡ true
        → all_within allowed ks ≡ true
        → length ks ≤ length allowed
    unfolding distinct all_within
    pigeonhole allowed [] d h = omega arith
    pigeonhole allowed (k ∷ ks) d h = omega (
      arith,
      length-remove k allowed (grind arith),
      pigeonhole (remove k allowed) ks (grind arith)
          (all_within-remove k allowed ks (grind arith) (grind arith)),
    )

  module _ {V : Type 0} (eq : IsEquality same) (zero_value : V) (change : V → V) where
    within-update :
        (key l : K) (m : List (K × V))
        → same key l ≡ false
        → within l (keys (update same zero_value change key m)) ≡ within l (keys m)
    unfolding update keys within
    within-update key l [] d = grind arith
    within-update key l ((k, v) ∷ m) d = elim (Bool-cases (same k key)) [
      | inl here ↦ grind arith
      | inr there ↦ grind (arith, within-update key l m d)
    ]

    -- An update keeps the keys distinct and adds none but its own.
    pub distinct-update :
        (key : K) (m : List (K × V))
        → distinct (keys m) ≡ true
        → distinct (keys (update same zero_value change key m)) ≡ true
    unfolding update keys distinct within
    distinct-update key [] d = refl
    distinct-update key ((k, v) ∷ m) d = elim (Bool-cases (same k key)) [
      | inl here ↦ grind arith
      | inr there ↦ elim (Bool-cases (same key k)) [
        | inl back ↦ absurd (grind (arith, eq.sound key k, eq.self k))
        | inr apart ↦ grind (arith, within-update key k m apart, distinct-update key m)
      ]
    ]

    pub all_within-update :
        (allowed : List K) (key : K) (m : List (K × V))
        → within key allowed ≡ true
        → all_within allowed (keys m) ≡ true
        → all_within allowed (keys (update same zero_value change key m)) ≡ true
    unfolding update keys all_within
    all_within-update allowed key [] a h = grind arith
    all_within-update allowed key ((k, v) ∷ m) a h = elim (Bool-cases (same k key)) [
      | inl here ↦ grind arith
      | inr there ↦ grind (arith, all_within-update allowed key m a)
    ]

-- Every pair of two lists.
unfoldable pub product : {A B K : Type 0} → (A → B → K) → List A → List B → List K
product pair [] ys = []
product pair (a ∷ xs) ys = map (pair a) ys ++ product pair xs ys

pub length-product :
    {A B K : Type 0} (pair : A → B → K) (xs : List A) (ys : List B)
    → length (product pair xs ys) ≡ length xs * length ys
unfolding product
length-product pair [] ys = omega arith
length-product pair (a ∷ xs) ys = grind (
  arith,
  length-append (map (pair a) ys) (product pair xs ys),
  length-map pair a ys,
  length-product pair xs ys,
)
  where
    length-map :
        {A B K : Type 0} (pair : A → B → K) (a : A) (ys : List B)
        → length (map (pair a) ys) ≡ length ys
    length-map pair a [] = refl
    length-map pair a (b ∷ ys) = ap suc (length-map pair a ys)

-- `contains` for a list of numbers.
abbrev pub has_number : List ℕ → ℕ → Bool
has_number ys n = any (λ y. y == n) ys

-- The numbers from a start on.
unfoldable pub count_from : ℕ → ℕ → List ℕ
count_from start zero = []
count_from start (suc n) = start ∷ count_from (start + 1) n

pub length-count_from : (start n : ℕ) → length (count_from start n) ≡ n
unfolding count_from
length-count_from start zero = refl
length-count_from start (suc n) = ap suc (length-count_from (start + 1) n)

pub has_number-count_from :
    (start n k : ℕ) → start ≤ k → k < start + n → has_number (count_from start n) k ≡ true
unfolding count_from
has_number-count_from start zero k low high = absurd (omega (arith, low, high))
has_number-count_from start (suc n) k low high = elim (Bool-cases (start == k)) [
  | inl here ↦ grind arith
  | inr later ↦ grind (arith, has_number-count_from (start + 1) n k)
]

module _ {A B K : Type 0} (same_a : A → A → Bool) (same_b : B → B → Bool) (same : K → K → Bool)
    (eq_a : IsEquality same_a) (eq_b : IsEquality same_b) (eq : IsEquality same)
    (pair : A → B → K) where
  within-map :
      (a : A) (b : B) (ys : List B)
      → any (λ (y : B). same_b y b) ys ≡ true
      → within same (pair a b) (map (pair a) ys) ≡ true
  unfolding within
  within-map a b [] h = h
  within-map a b (y ∷ ys) h = elim (Bool-cases (same_b y b)) [
    | inl here ↦ grind (arith, eq_b.sound y b, eq.self (pair a b))
    | inr later ↦ grind (arith, within-map a b ys)
  ]

  within-append_left :
      (k : K) (xs ys : List K) → within same k xs ≡ true → within same k (xs ++ ys) ≡ true
  unfolding within
  within-append_left k [] ys h = absurd (grind arith)
  within-append_left k (x ∷ xs) ys h = grind (arith, within-append_left k xs ys)

  within-append_right :
      (k : K) (xs ys : List K) → within same k ys ≡ true → within same k (xs ++ ys) ≡ true
  unfolding within
  within-append_right k [] ys h = h
  within-append_right k (x ∷ xs) ys h = grind (arith, within-append_right k xs ys)

  -- The pair of two members is a member of the product.
  pub within-product :
      (a : A) (b : B) (xs : List A) (ys : List B)
      → any (λ (x : A). same_a x a) xs ≡ true
      → any (λ (y : B). same_b y b) ys ≡ true
      → within same (pair a b) (product pair xs ys) ≡ true
  unfolding product
  within-product a b [] ys ha hb = absurd (grind arith)
  within-product a b (x ∷ xs) ys ha hb = elim (Bool-cases (same_a x a)) [
    | inl here ↦ rw (eq_a.sound x a here) (
        within-append_left (pair a b) (map (pair a) ys) (product pair xs ys) (within-map a b ys hb))
    | inr later ↦
        within-append_right (pair a b) (map (pair x) ys) (product pair xs ys)
          (within-product a b xs ys (grind arith) hb)
  ]
