-- ===== src/Reconcile/Plan.antt =====
-- What `reconcileOne` plans to delete, and what it never does.
use grafana_mcp_setup.Prelude.{
  ◌≤◌, ◌≢◌, ◌⊎◌, text_eq_iff, ◌+◌, ◌≡◌, refl, Bool, true, false, not, ◌&&◌, ◌||◌, Option, none,
  some, List, [], ◌∷◌, text_eq, length, keep_if, any, All, arith, Bool-cases, inl, inr,
}
use grafana_mcp_setup.Go.Time.{Time}
use grafana_mcp_setup.Grafana.Types.{SaToken}
use grafana_mcp_setup.Reconcile.Loop.{
  CleanupOptions, ended, is_expired, is_candidate, is_keeper, keeps_one, Plan, no_plan, plan_of,
  plan_from-chosen, plan_from-active, plan_from-expired_count, plan_from-keep_found,
}

-- The token is revoked, Grafana calls it expired, or its expiry is not after the given time.
abbrev pub Ended : Time → Option Time → Type 0
Ended now none = ⊥
Ended now (some expires) = expires ≤ now

abbrev pub IsExpired : Time → SaToken → Type 0
IsExpired now t = (t.revoked ≡ true) ⊎ (t.has_expired ≡ true) ⊎ Ended now t.expiration

-- A token that the options ask to delete: a name to keep is given and the token has another one, or
-- expired tokens are to go and it is one.
abbrev pub IsSelected : Time → CleanupOptions → SaToken → Type 0
IsSelected now opts t =
    ((opts.keep_token ≢ []) × (t.title ≢ opts.keep_token))
    ⊎ ((opts.delete_expired ≡ true) × IsExpired now t)

-- A live token with the name to keep.
abbrev pub IsKeeper : Time → CleanupOptions → SaToken → Type 0
IsKeeper now opts t = (t.title ≡ opts.keep_token) × ¬ IsExpired now t

-- The second list holds, in order, the elements of the first that satisfy the predicate.
pub data Picks (P : SaToken → Type 0) : List SaToken → List SaToken → Type 0 where
  none_left : Picks P [] []
  picked : (t : SaToken) {ts us : List SaToken} → P t → Picks P ts us → Picks P (t ∷ ts) (t ∷ us)
  spared : (t : SaToken) {ts us : List SaToken} → ¬ P t → Picks P ts us → Picks P (t ∷ ts) us

abbrev pub Occurs : SaToken → List SaToken → Type 0
Occurs t [] = ⊥
Occurs t (u ∷ us) = (t ≡ u) ⊎ Occurs t us

-- The search for the token to keep.
abbrev pub IsSearched : Time → CleanupOptions → List SaToken → Bool → Type 0
IsSearched now opts ts true =
    (opts.keep_token ≡ []) ⊎ ((t : SaToken) × Occurs t ts × IsKeeper now opts t)
IsSearched now opts ts false = (opts.keep_token ≢ []) × All (λ t. ¬ IsKeeper now opts t) ts

-- What the plan for a list of tokens is.
pub record IsPlan (now : Time) (opts : CleanupOptions) (ts : List SaToken) (plan : Plan)
    : Type 0 where
  pub chosen : Picks (IsSelected now opts) ts plan.candidates
  pub expired : List SaToken
  pub all_expired : Picks (IsExpired now) ts expired
  pub expired_counted : plan.expired_count ≡ length expired
  pub live_counted : plan.active + plan.expired_count ≡ length ts
  pub searched : IsSearched now opts ts plan.keep_found
  pub keepers_stay : All (λ t. ¬ IsKeeper now opts t) plan.candidates

ended-Ended : (now : Time) (o : Option Time) → ended now o ≡ true → Ended now o
ended-Ended now none h = cc
ended-Ended now (some expires) h = grind arith

Ended-ended : (now : Time) (o : Option Time) → Ended now o → ended now o ≡ true
Ended-ended now none h = absurd h
Ended-ended now (some expires) h = grind arith

is_expired-IsExpired : (now : Time) (t : SaToken) → is_expired now t ≡ true → IsExpired now t
is_expired-IsExpired now t h = elim (Bool-cases t.revoked) [
  | inl revoked ↦ inl revoked
  | inr kept ↦ elim (Bool-cases t.has_expired) [
    | inl expired ↦ inr (inl expired)
    | inr lasting ↦ inr (inr (ended-Ended now t.expiration (grind arith)))
  ]
]

IsExpired-is_expired : (now : Time) (t : SaToken) → IsExpired now t → is_expired now t ≡ true
IsExpired-is_expired now t (inl revoked) = grind arith
IsExpired-is_expired now t (inr (inl expired)) = grind arith
IsExpired-is_expired now t (inr (inr over)) = grind (arith, Ended-ended now t.expiration over)

is_candidate-IsSelected :
    (now : Time) (opts : CleanupOptions) (t : SaToken)
    → is_candidate now opts t ≡ true
    → IsSelected now opts t
is_candidate-IsSelected now opts t h =
    elim (Bool-cases (keeps_one opts && not (text_eq t.title opts.keep_token))) [
      | inl other ↦ inl (
        λ e. grind (arith, text_eq_iff opts.keep_token []),
        λ e. grind (arith, text_eq_iff t.title opts.keep_token),
      )
      | inr same ↦ inr (grind arith, is_expired-IsExpired now t (grind arith))
    ]

IsSelected-is_candidate :
    (now : Time) (opts : CleanupOptions) (t : SaToken)
    → IsSelected now opts t
    → is_candidate now opts t ≡ true
IsSelected-is_candidate now opts t (inl (given, other)) =
    grind (arith, text_eq_iff opts.keep_token [], text_eq_iff t.title opts.keep_token)
IsSelected-is_candidate now opts t (inr (asked, expired)) =
    grind (arith, IsExpired-is_expired now t expired)

is_keeper-IsKeeper :
    (now : Time) (opts : CleanupOptions) (t : SaToken)
    → is_keeper now opts t ≡ true
    → IsKeeper now opts t
is_keeper-IsKeeper now opts t h = (
  grind (arith, text_eq_iff t.title opts.keep_token),
  λ e. grind (arith, IsExpired-is_expired now t e),
)

IsKeeper-is_keeper :
    (now : Time) (opts : CleanupOptions) (t : SaToken)
    → IsKeeper now opts t
    → is_keeper now opts t ≡ true
IsKeeper-is_keeper now opts t (same, live) = elim (Bool-cases (is_expired now t)) [
  | inl old ↦ absurd (live (is_expired-IsExpired now t old))
  | inr fresh ↦ rw fresh (grind (arith, text_eq_iff t.title opts.keep_token))
]

-- A test that decides the predicate picks what satisfies it.
keep_if-Picks :
    (P : SaToken → Type 0) (p : SaToken → Bool)
    → ((t : SaToken) → p t ≡ true → P t)
    → ((t : SaToken) → P t → p t ≡ true)
    → (ts : List SaToken) → Picks P ts (keep_if p ts)
keep_if-Picks P p sound complete [] = none_left
keep_if-Picks P p sound complete (t ∷ ts) = elim (Bool-cases (p t)) [
  | inl yes_it ↦ rw yes_it (picked t (sound t yes_it) (keep_if-Picks P p sound complete ts))
  | inr no_it ↦
      rw no_it
        (spared t (λ h. grind (arith, complete t h, no_it)) (keep_if-Picks P p sound complete ts))
]

Picks-spares :
    (now : Time) (opts : CleanupOptions) {ts us : List SaToken}
    → Picks (IsSelected now opts) ts us
    → All (λ t. ¬ IsKeeper now opts t) us
Picks-spares now opts none_left = tt
Picks-spares now opts (spared t h rest) = Picks-spares now opts rest
Picks-spares now opts (picked t (inl (given, other)) rest) =
    (λ k. other k.0, Picks-spares now opts rest)
Picks-spares now opts (picked t (inr (asked, expired)) rest) =
    (λ k. k.1 expired, Picks-spares now opts rest)

any-IsSearched :
    (now : Time) (opts : CleanupOptions) (ts : List SaToken)
    → (any (is_keeper now opts) ts ≡ true → (t : SaToken) × Occurs t ts × IsKeeper now opts t)
      × (any (is_keeper now opts) ts ≡ false → All (λ t. ¬ IsKeeper now opts t) ts)
any-IsSearched now opts [] = (λ h. cc, λ h. tt)
any-IsSearched now opts (t ∷ ts) =
    let (found, lost) = any-IsSearched now opts ts in
    elim (Bool-cases (is_keeper now opts t)) [
      | inl keeper ↦ rw keeper (λ h. (t, inl refl, is_keeper-IsKeeper now opts t keeper), λ h. cc)
      | inr other ↦ rw other (
        λ h. let (u, occurs, keeper) = found h in (u, inr occurs, keeper),
        λ h. (λ k. grind (arith, IsKeeper-is_keeper now opts t k, other), lost h),
      )
    ]

text_eq-IsSearched :
    (now : Time) (opts : CleanupOptions) (ts : List SaToken)
    → IsSearched now opts ts (text_eq opts.keep_token [] || any (is_keeper now opts) ts)
text_eq-IsSearched now opts ts =
    let (found, lost) = any-IsSearched now opts ts in
    elim (Bool-cases (text_eq opts.keep_token [])) [
      | inl none_asked ↦ rw none_asked (inl ((text_eq_iff opts.keep_token []).0 none_asked))
      | inr asked ↦ elim (Bool-cases (any (is_keeper now opts) ts)) [
        | inl there ↦ rw (asked, there) (inr (found there))
        | inr missing ↦
            rw (asked, missing) (λ e. grind (arith, text_eq_iff opts.keep_token []), lost missing)
      ]
    ]

keep_if-length :
    (p : SaToken → Bool) (ts : List SaToken)
    → length (keep_if (λ t. not (p t)) ts) + length (keep_if p ts) ≡ length ts
keep_if-length p [] = refl
keep_if-length p (t ∷ ts) = elim (Bool-cases (p t)) [
  | inl yes_it ↦ rw yes_it (omega (arith, keep_if-length p ts))
  | inr no_it ↦ rw no_it (omega (arith, keep_if-length p ts))
]

-- The plan's candidates are, in order, exactly the tokens that the options ask to delete: where a name
-- to keep is given those with another name, and where expired tokens are to go the revoked and expired
-- ones. The expired tokens and the others are counted, the search for the token to keep succeeds
-- exactly when none is asked for or a live one has its name, and no live token of that name is a
-- candidate.
pub plan_of-IsPlan :
    (now : Time) (opts : CleanupOptions) (ts : List SaToken)
    → IsPlan now opts ts (plan_of now opts ts)
plan_of-IsPlan now opts ts =
    let chosen : Picks (IsSelected now opts) ts (plan_of now opts ts).candidates =
      rw (plan_from-chosen now opts (no_plan opts) ts) (
        keep_if-Picks (IsSelected now opts) (is_candidate now opts)
          (is_candidate-IsSelected now opts) (IsSelected-is_candidate now opts) ts) in
    record {
      chosen = chosen;
      expired = keep_if (is_expired now) ts;
      all_expired =
          keep_if-Picks (IsExpired now) (is_expired now) (is_expired-IsExpired now)
            (IsExpired-is_expired now) ts;
      expired_counted = omega (arith, plan_from-expired_count now opts (no_plan opts) ts);
      live_counted = omega (
        arith,
        plan_from-expired_count now opts (no_plan opts) ts,
        plan_from-active now opts (no_plan opts) ts,
        keep_if-length (is_expired now) ts,
      );
      searched =
          rw (plan_from-keep_found now opts (no_plan opts) ts) (text_eq-IsSearched now opts ts);
      keepers_stay = Picks-spares now opts chosen;
    }
