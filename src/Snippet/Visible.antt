-- ===== src/Snippet/Visible.antt =====
-- The painted snippets without their tags.
use grafana_mcp_setup.Prelude.{
  ◌≤◌, ◌≡◌, ◌≢◌, refl, sym, ap, ◌∙◌, inl, inr, Bool, true, false, not, ◌&&◌, ◌||◌, [], ◌∷◌, ◌++◌,
  append_assoc, Text, codes, ◌==◌, if◌then◌else◌, length, All, arith, Bool-cases,
}
use grafana_mcp_setup.Go.Html.{escape_byte, html_escape, IsUnbracketed, html_escape-IsUnbracketed}
use grafana_mcp_setup.Snippet.Highlight.{span, string_rest, is_digit, number_rest}

-- What a reader sees: everything outside of "<" and ">". The flag says that a tag is open.
unfoldable pub visible_from : Bool → Text → Text
visible_from inside [] = []
visible_from true (c ∷ s) = visible_from (not (c == b'>')) s
visible_from false (c ∷ s) =
    let rest = visible_from (c == b'<') s in if c == b'<' then rest else c ∷ rest

unfoldable pub visible : Text → Text
unfolding visible_from
visible s = visible_from false s

visible-text :
    (t s : Text) → All IsUnbracketed t → visible_from false (t ++ s) ≡ t ++ visible_from false s
unfolding visible_from
visible-text [] s h = refl
visible-text (c ∷ t) s h = grind (arith, visible-text t s h.1)

pub visible-escaped :
    (t s : Text) → visible_from false (html_escape t ++ s) ≡ html_escape t ++ visible_from false s
visible-escaped t s = visible-text (html_escape t) s (html_escape-IsUnbracketed t)

pub html_escape-append : (s t : Text) → html_escape (s ++ t) ≡ html_escape s ++ html_escape t
unfolding html_escape
html_escape-append [] t = refl
html_escape-append (c ∷ s) t =
    ap (λ (x : Text). escape_byte c ++ x) (html_escape-append s t)
    ∙ sym (append_assoc (escape_byte c) (html_escape s) (html_escape t))

-- The name of a class that the painter uses.
abbrev pub IsClass : Text → Type 0
IsClass class = All (λ c. c ≢ b'>') class

visible-tag : (t s : Text) → IsClass t → visible_from true (t ++ s) ≡ visible_from true s
unfolding visible_from
visible-tag [] s h = refl
visible-tag (c ∷ t) s h = grind (arith, visible-tag t s h.1)

pub visible-span :
    (class text s : Text)
    → IsClass class
    → visible_from false (span class text ++ s) ≡ html_escape text ++ visible_from false s
unfolding span visible_from
visible-span class text s h =
    rw
      (
        append_assoc class (codes "\">" ++ (html_escape text ++ codes "</span>")) s,
        visible-tag class _ h,
        append_assoc (html_escape text) (codes "</span>") s,
        visible-escaped text _,
      )
      refl

pub string_rest-append :
    (escaped : Bool) (s : Text)
    → let (literal, rest) = string_rest escaped s in
      (s ≡ literal ++ rest) × (length rest ≤ length s)
unfolding string_rest
string_rest-append escaped [] = (refl, omega arith)
string_rest-append escaped (c ∷ s) =
    let h = string_rest-append (not escaped && c == b'\\') s in
    elim (Bool-cases (not escaped && c == 34)) [
      | inl ends ↦ rw ends (refl, omega arith)
      | inr goes ↦ rw goes (ap (λ (t : Text). c ∷ t) h.0, omega (arith, h.1))
    ]

pub number_rest-append :
    (s : Text)
    → let (number, rest) = number_rest s in (s ≡ number ++ rest) × (length rest ≤ length s)
unfolding number_rest
number_rest-append [] = (refl, omega arith)
number_rest-append (c ∷ s) =
    let h = number_rest-append s in
    elim (Bool-cases (is_digit c || c == b'.')) [
      | inl goes ↦ rw goes (ap (λ (t : Text). c ∷ t) h.0, omega (arith, h.1))
      | inr ends ↦ rw ends (refl, omega arith)
    ]
