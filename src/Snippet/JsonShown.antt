-- ===== src/Snippet/JsonShown.antt =====
-- What a reader sees of a painted JSON text.
use grafana_mcp_setup.Prelude.{
  ◌⊎◌, ==_iff, ◌<◌, ℕ, zero, suc, ◌≤◌, ◌≡◌, ◌≢◌, refl, ap, inl, inr, Bool, true, false, not, ◌&&◌,
  ◌||◌, [], ◌∷◌, ◌++◌, Text, codes, ◌==◌, if◌then◌else◌, length, All, arith, Bool-cases,
}
use grafana_mcp_setup.Snippet.Highlight.{
  string_rest, is_digit, number_rest, class_before, json_step, json_from,
}
use grafana_mcp_setup.Snippet.Visible.{IsClass, string_rest-append, number_rest-append}
use grafana_mcp_setup.Snippet.Shown.{
  ShowsPiece, Shows, Shows-nothing, Shows-same, Shows-cons, escaped-ShowsPiece, span-ShowsPiece,
  str-ShowsPiece,
}

-- Outside of the strings of a JSON text there is no quote.
abbrev pub HasNoQuote : Text → Type 0
HasNoQuote t = All (λ c. c ≢ 34) t

-- The text closes a string literal with its last byte, and not before; a backslash takes the next byte
-- with it.
unfoldable pub closes : Bool → Text → Bool
closes escaped [] = false
closes escaped (c ∷ s) =
    let later = closes (not escaped && c == b'\\') s in
    if not escaped && c == 34 then length s == 0 else later

-- The text does not close a string literal.
unfoldable pub stays_open : Bool → Text → Bool
stays_open escaped [] = true
stays_open escaped (c ∷ s) =
    let later = stays_open (not escaped && c == b'\\') s in
    if not escaped && c == 34 then false else later

-- A string literal in front of the rest of a JSON text: from a quote to the one that closes it, or where
-- none does to the end of the text.
abbrev pub IsJsonString : Text → Text → Type 0
IsJsonString [] rest = ⊥
IsJsonString (c ∷ inner) rest =
    (c ≡ 34) × ((closes false inner ≡ true) ⊎ ((stays_open false inner ≡ true) × (rest ≡ [])))

string_rest-closes :
    (escaped : Bool) (s : Text)
    → let (literal, rest) = string_rest escaped s in
      (closes escaped literal ≡ true) ⊎ ((stays_open escaped literal ≡ true) × (rest ≡ []))
unfolding string_rest closes stays_open
string_rest-closes escaped [] = inr (refl, refl)
string_rest-closes escaped (c ∷ s) = elim (Bool-cases (not escaped && c == 34)) [
  | inl ends ↦ rw ends (inl (rw ends refl))
  | inr goes ↦ elim (string_rest-closes (not escaped && c == b'\\') s) [
    | inl closed ↦ rw goes (inl (rw goes closed))
    | inr over ↦ rw goes (inr (rw goes over.0, over.1))
  ]
]

number_rest-HasNoQuote : (s : Text) → HasNoQuote (number_rest s).0
unfolding number_rest
number_rest-HasNoQuote [] = tt
number_rest-HasNoQuote (c ∷ s) = elim (Bool-cases (is_digit c || c == b'.')) [
  | inl goes ↦ rw goes (λ e. grind arith, number_rest-HasNoQuote s)
  | inr ends ↦ rw ends tt
]

class_before-IsClass : (rest : Text) → IsClass (class_before rest)
class_before-IsClass rest = ground arith

-- One round of the JSON painter.
record JsonRound (mask src out rest : Text) : Type 0 where
  part : Text
  parted : src ≡ part ++ rest
  shows : ShowsPiece HasNoQuote IsJsonString mask rest part out
  shorter : length rest < length src

json_step-JsonRound :
    (mask : Text) (c : ℕ) (s : Text)
    → let (out, rest) = json_step mask c s in JsonRound mask (c ∷ s) out rest
unfolding json_step
json_step-JsonRound mask c s = elim (Bool-cases (c == 34)) [
  | inl opening ↦
      let h = string_rest-append false s in
      rw opening (record {
        part = c ∷ (string_rest false s).0;
        parted = ap (λ (t : Text). c ∷ t) h.0;
        shows =
            str-ShowsPiece HasNoQuote IsJsonString mask _ _ _ (class_before-IsClass _)
              ((==_iff c 34).0 opening, string_rest-closes false s);
        shorter = omega (arith, h.1);
      })
  | inr other ↦ elim (Bool-cases (is_digit c)) [
    | inl digit ↦
        let h = number_rest-append s in
        rw (other, digit)
          (record {
            part = c ∷ (number_rest s).0;
            parted = ap (λ (t : Text). c ∷ t) h.0;
            shows =
                span-ShowsPiece HasNoQuote IsJsonString mask _ (codes "n") _ (ground arith)
                  (λ e. grind arith, number_rest-HasNoQuote s);
            shorter = omega (arith, h.1);
          })
    | inr common ↦
        rw (other, common)
          (record {
            part = c ∷ [];
            parted = refl;
            shows =
                escaped-ShowsPiece HasNoQuote IsJsonString mask _ (c ∷ []) (λ e. grind arith, tt);
            shorter = omega arith;
          })
  ]
]

pub json_from-Shows :
    (fuel : ℕ) (mask src : Text)
    → length src ≤ fuel
    → Shows HasNoQuote IsJsonString mask src (json_from fuel mask src)
unfolding json_from
json_from-Shows zero mask [] h = Shows-nothing HasNoQuote IsJsonString mask
json_from-Shows zero mask (c ∷ s) h = absurd (omega (arith, h))
json_from-Shows (suc fuel) mask [] h = Shows-nothing HasNoQuote IsJsonString mask
json_from-Shows (suc fuel) mask (c ∷ s) h =
    let r = json_step-JsonRound mask c s in
    let rest = (json_step mask c s).1 in
    Shows-same HasNoQuote IsJsonString mask (c ∷ s) (r.part ++ rest) _ r.parted (
      Shows-cons HasNoQuote IsJsonString mask r.part _ rest _ r.shows
        (json_from-Shows fuel mask rest (omega (arith, r.shorter, h))))
