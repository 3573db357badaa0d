-- ===== src/Rotation/Choice.antt =====
-- The loop of `liveToken`, by its own test.
use grafana_mcp_setup.Prelude.{
  ◌≤◌, true, false, ◌≡◌, refl, ◌⊎◌, inl, inr, Option, none, some, List, [], ◌∷◌, arith, All,
  Bool-cases,
}
use grafana_mcp_setup.Go.Time.{Time, after}
use grafana_mcp_setup.Grafana.Types.{SaToken}
use grafana_mcp_setup.Rotation.Account.{is_dead, newest}

abbrev pub Within : SaToken → List SaToken → Type 0
Within t [] = ⊥
Within t (u ∷ us) = (t ≡ u) ⊎ Within t us

-- The live tokens of the list are no younger than `t`.
abbrev pub NoYounger : Time → List SaToken → SaToken → Type 0
NoYounger now ts t = All (λ u. is_dead now u ≡ false → u.created ≤ t.created) ts

abbrev pub IsChosen : Time → List SaToken → Option SaToken → Type 0
IsChosen now ts none = All (λ u. is_dead now u ≡ true) ts
IsChosen now ts (some t) = Within t ts × (is_dead now t ≡ false) × NoYounger now ts t

-- Where a result of the loop comes from.
abbrev Origin : Time → SaToken → List SaToken → SaToken → Type 0
Origin now best ts t = (t ≡ best) ⊎ (Within t ts × (is_dead now t ≡ false))

Origin-later :
    (now : Time) (best u : SaToken) (ts : List SaToken) (t : SaToken)
    → Origin now best ts t
    → Origin now best (u ∷ ts) t
Origin-later now best u ts t (inl e) = inl e
Origin-later now best u ts t (inr (w, live)) = inr (inr w, live)

Origin-head :
    (now : Time) (best u : SaToken) (ts : List SaToken) (t : SaToken)
    → is_dead now u ≡ false
    → Origin now u ts t
    → Origin now best (u ∷ ts) t
Origin-head now best u ts t live (inl e) = inr (inl e, rw e live)
Origin-head now best u ts t live (inr (w, alive)) = inr (inr w, alive)

record Found (now : Time) (best : SaToken) (ts : List SaToken) : Type 0 where
  t : SaToken
  found : newest now (some best) ts ≡ some t
  origin : Origin now best ts t
  above : best.created ≤ t.created
  last : NoYounger now ts t

newest_from : (now : Time) (best : SaToken) (ts : List SaToken) → Found now best ts
unfolding newest
newest_from now best [] = record {
  t = best;
  found = refl;
  origin = inl refl;
  above = omega arith;
  last = tt;
}
newest_from now best (u ∷ ts) = elim (Bool-cases (is_dead now u)) [
  | inl dead ↦
      let f = newest_from now best ts in
      record {
        t = f.t;
        found = rw dead f.found;
        origin = Origin-later now best u ts f.t f.origin;
        above = f.above;
        last = (λ e. cc, f.last);
      }
  | inr live ↦ elim (Bool-cases (after u.created best.created)) [
    | inl later ↦
        let f = newest_from now u ts in
        record {
          t = f.t;
          found = rw (live, later) f.found;
          origin = Origin-head now best u ts f.t live f.origin;
          above = grind (arith, f.above);
          last = (λ e. f.above, f.last);
        }
    | inr earlier ↦
        let f = newest_from now best ts in
        record {
          t = f.t;
          found = rw (live, earlier) f.found;
          origin = Origin-later now best u ts f.t f.origin;
          above = f.above;
          last = (λ e. grind (arith, f.above), f.last);
        }
  ]
]

Origin-IsChosen :
    (now : Time) (u : SaToken) (ts : List SaToken) (t : SaToken)
    → is_dead now u ≡ false
    → Origin now u ts t
    → u.created ≤ t.created
    → NoYounger now ts t
    → IsChosen now (u ∷ ts) (some t)
Origin-IsChosen now u ts t live (inl e) above last = (inl e, rw e live, (λ _. above, last))
Origin-IsChosen now u ts t live (inr (w, alive)) above last = (inr w, alive, (λ _. above, last))

IsChosen-skip :
    (now : Time) (u : SaToken) (ts : List SaToken) (o : Option SaToken)
    → is_dead now u ≡ true
    → IsChosen now ts o
    → IsChosen now (u ∷ ts) o
IsChosen-skip now u ts none dead h = (dead, h)
IsChosen-skip now u ts (some t) dead h = (inr h.0, h.1, (λ e. cc, h.2))

pub newest-IsChosen : (now : Time) (ts : List SaToken) → IsChosen now ts (newest now none ts)
unfolding newest
newest-IsChosen now [] = tt
newest-IsChosen now (u ∷ ts) = elim (Bool-cases (is_dead now u)) [
  | inl dead ↦ rw dead (IsChosen-skip now u ts (newest now none ts) dead (newest-IsChosen now ts))
  | inr live ↦
      let f = newest_from now u ts in
      rw (live, f.found) (Origin-IsChosen now u ts f.t live f.origin f.above f.last)
]
