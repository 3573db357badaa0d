-- ===== src/Snippet/Lines.antt =====
-- The painted TOML: its values, its lines, and the claim on both painters.
use grafana_mcp_setup.Prelude.{
  ℕ, zero, suc, ◌≤◌, ◌<◌, ◌≡◌, refl, sym, ap, ◌∙◌, inl, inr, false, some, List, [], ◌∷◌, ◌++◌,
  append_assoc, append-nil, Text, codes, ◌==◌, length, length-append, arith, Bool-cases,
  Option-cases,
}
use grafana_mcp_setup.Go.Strings.{trim_space, split, join, join-split}
use grafana_mcp_setup.Go.Substrings.{has_prefix, contains_text}
use grafana_mcp_setup.Go.Html.{html_escape}
use grafana_mcp_setup.Snippet.Highlight.{
  token_sentinel, quote, str, highlight_json, cut_at, plain_or_strings, value_step, assignment,
  toml_line, toml_lines, highlight_toml,
}
use grafana_mcp_setup.Snippet.Shown.{
  IsSeen, IsSeen-unmasked, Shows, Shows-nothing, Shows-same, Shows-one, Shows-cons, Shows-append,
  escaped-ShowsPiece, span-ShowsPiece, str-ShowsPiece, Shows-IsSeen,
}
use grafana_mcp_setup.Snippet.JsonShown.{HasNoQuote, IsJsonString, json_from-Shows}
use grafana_mcp_setup.Snippet.Visible.{visible}

cut_at-parts :
    (sep : ℕ) (s : Text) (parts : Text × Text)
    → cut_at sep s ≡ some parts
    → s ≡ parts.0 ++ sep ∷ parts.1
unfolding cut_at
cut_at-parts sep [] parts h = cc
cut_at-parts sep (c ∷ s) parts h = elim (Bool-cases (c == sep)) [
  | inl here ↦ grind arith
  | inr later ↦ elim (Option-cases (cut_at sep s)) [
    | inl missing ↦ absurd (grind arith)
    | inr (p, found) ↦ grind (arith, cut_at-parts sep s p found)
  ]
]

quoted_parts :
    (s : Text) (first second : Text × Text)
    → s ≡ first.0 ++ 34 ∷ first.1
    → first.1 ≡ second.0 ++ 34 ∷ second.1
    → s ≡ (first.0 ++ (quote ++ (second.0 ++ quote))) ++ second.1
quoted_parts s first second opening closing =
    rw
      (
        opening,
        closing,
        append_assoc first.0 (quote ++ (second.0 ++ quote)) second.1,
        append_assoc second.0 quote second.1,
      )
      refl

-- Outside of its strings a TOML text may hold anything.
abbrev pub IsAny : Text → Type 0
IsAny t = Unit

abbrev pub IsAnywhere : Text → Text → Type 0
IsAnywhere t rest = Unit

-- One round over a TOML value, in front of what the rounds behind it write.
record ValueRound (mask src out rest : Text) : Type 0 where
  shows :
      (more : Text)
      → Shows IsAny IsAnywhere mask rest more
      → Shows IsAny IsAnywhere mask src (out ++ more)
  shorter : length rest < length src

all_plain : (mask : Text) (c : ℕ) (s : Text) → ValueRound mask (c ∷ s) (html_escape (c ∷ s)) []
all_plain mask c s = record {
  shows = λ more h.
      Shows-same IsAny IsAnywhere mask (c ∷ s) ((c ∷ s) ++ []) _ (sym (append-nil (c ∷ s))) (
        Shows-cons IsAny IsAnywhere mask (c ∷ s) _ [] more
          (escaped-ShowsPiece IsAny IsAnywhere mask [] (c ∷ s) tt) h);
  shorter = omega arith;
}

value_step-ValueRound :
    (mask : Text) (c : ℕ) (s : Text)
    → let (out, rest) = value_step mask (c ∷ s) (cut_at 34 (c ∷ s)) in
      ValueRound mask (c ∷ s) out rest
value_step-ValueRound mask c s = elim (Option-cases (cut_at 34 (c ∷ s))) [
  | inl unquoted ↦ rw unquoted (all_plain mask c s)
  | inr (first, opening) ↦ elim (Option-cases (cut_at 34 first.1)) [
    | inl unclosed ↦ rw (opening, unclosed) (all_plain mask c s)
    | inr (second, closing) ↦
        let literal = quote ++ (second.0 ++ quote) in
        let parted =
          quoted_parts (c ∷ s) first second (cut_at-parts 34 (c ∷ s) first opening)
            (cut_at-parts 34 first.1 second closing) in
        rw (opening, closing)
          (record {
            shows = λ more h.
                rw (append_assoc (html_escape first.0) (str mask (codes "s") literal) more) (
                  Shows-same IsAny IsAnywhere mask (c ∷ s) (first.0 ++ (literal ++ second.1)) _
                    (parted ∙ append_assoc first.0 literal second.1)
                    (Shows-cons IsAny IsAnywhere mask first.0 _ (literal ++ second.1) _
                      (escaped-ShowsPiece IsAny IsAnywhere mask _ first.0 tt)
                      (Shows-cons IsAny IsAnywhere mask literal _ second.1 more
                        (str-ShowsPiece IsAny IsAnywhere mask _ (codes "s") literal (ground arith)
                          tt)
                        h)));
            shorter = omega (
              arith,
              ap length parted,
              length-append (first.0 ++ (quote ++ (second.0 ++ quote))) second.1,
              length-append first.0 (quote ++ (second.0 ++ quote)),
              length-append quote (second.0 ++ quote),
            );
          })
  ]
]

plain_or_strings-Shows :
    (fuel : ℕ) (mask value : Text)
    → length value ≤ fuel
    → Shows IsAny IsAnywhere mask value (plain_or_strings fuel mask value)
unfolding plain_or_strings
plain_or_strings-Shows zero mask [] h = Shows-nothing IsAny IsAnywhere mask
plain_or_strings-Shows zero mask (c ∷ s) h = absurd (omega (arith, h))
plain_or_strings-Shows (suc fuel) mask [] h = Shows-nothing IsAny IsAnywhere mask
plain_or_strings-Shows (suc fuel) mask (c ∷ s) h =
    let r = value_step-ValueRound mask c s in
    let rest = (value_step mask (c ∷ s) (cut_at 34 (c ∷ s))).1 in
    r.shows (plain_or_strings fuel mask rest)
      (plain_or_strings-Shows fuel mask rest (omega (arith, r.shorter, h)))

assignment-Shows :
    (mask line : Text) → Shows IsAny IsAnywhere mask line (assignment mask line (cut_at b'=' line))
assignment-Shows mask line = elim (Option-cases (cut_at b'=' line)) [
  | inl bare ↦
      rw bare (
        Shows-one IsAny IsAnywhere mask line _
          (escaped-ShowsPiece IsAny IsAnywhere mask [] line tt))
  | inr ((key, value), parts) ↦ rw parts (
      Shows-same IsAny IsAnywhere mask line (key ++ (b'=' ∷ value)) _
        (cut_at-parts b'=' line (key, value) parts)
        (Shows-cons IsAny IsAnywhere mask key _ (b'=' ∷ value) _
          (span-ShowsPiece IsAny IsAnywhere mask _ (codes "k") key (ground arith) tt)
          (Shows-cons IsAny IsAnywhere mask (codes "=") (html_escape (codes "=")) value _
            (escaped-ShowsPiece IsAny IsAnywhere mask _ (codes "=") tt)
            (plain_or_strings-Shows (length value) mask value (omega arith)))))
]

toml_line-Shows : (mask line : Text) → Shows IsAny IsAnywhere mask line (toml_line mask line)
unfolding toml_line
toml_line-Shows mask line = elim (Bool-cases (has_prefix (trim_space line) (codes "["))) [
  | inl header ↦ rw header (
      Shows-one IsAny IsAnywhere mask line _
        (span-ShowsPiece IsAny IsAnywhere mask [] (codes "t") line (ground arith) tt))
  | inr other ↦ rw other (assignment-Shows mask line)
]

toml_lines-Shows :
    (mask : Text) (lines : List Text)
    → Shows IsAny IsAnywhere mask (join b'\n' lines) (toml_lines mask lines)
unfolding toml_lines join
toml_lines-Shows mask [] = Shows-nothing IsAny IsAnywhere mask
toml_lines-Shows mask (line ∷ []) = toml_line-Shows mask line
toml_lines-Shows mask (line ∷ next ∷ lines) =
    Shows-append IsAny IsAnywhere mask (λ t rest other h. tt) line _
      (b'\n' ∷ join b'\n' (next ∷ lines)) _ (toml_line-Shows mask line)
      (Shows-cons IsAny IsAnywhere mask (codes "\n") (html_escape (codes "\n"))
        (join b'\n' (next ∷ lines)) _ (escaped-ShowsPiece IsAny IsAnywhere mask _ (codes "\n") tt)
        (toml_lines-Shows mask (next ∷ lines)))

-- A configuration is painted so that outside of the tags the reader sees, piece by piece, its escaped
-- source, or instead of a piece that holds the token's place the escaped mask in quotes. As JSON, the
-- pieces are the string literals and the quoteless texts between them, and every literal that holds the
-- token's place is seen as the mask; as TOML nothing is said of which pieces these are.
pub visible-IsSeen :
    (src mask : Text)
    → IsSeen HasNoQuote IsJsonString mask src (visible (highlight_json src mask))
      × IsSeen IsAny IsAnywhere mask src (visible (highlight_toml src mask))
unfolding highlight_json highlight_toml
visible-IsSeen src mask = (
  Shows-IsSeen HasNoQuote IsJsonString mask src _
      (json_from-Shows (length src) mask src (omega arith)),
  Shows-IsSeen IsAny IsAnywhere mask src _ (
      Shows-same IsAny IsAnywhere mask src (join b'\n' (split b'\n' src)) _
        (sym (join-split b'\n' src)) (toml_lines-Shows mask (split b'\n' src))),
)

-- A source that does not hold the token's place is seen as it is.
visible-highlighted :
    (src mask : Text)
    → contains_text src token_sentinel ≡ false
    → (visible (highlight_json src mask) ≡ html_escape src)
      × (visible (highlight_toml src mask) ≡ html_escape src)
visible-highlighted src mask e =
    let (json, toml) = visible-IsSeen src mask in
    (
      IsSeen-unmasked HasNoQuote IsJsonString mask json e,
      IsSeen-unmasked IsAny IsAnywhere mask toml e,
    )
