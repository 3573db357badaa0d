-- ===== src/Snippet/Highlight.antt =====
-- highlight.go: the painter and its two scanners, on ASCII texts.
use grafana_mcp_setup.Prelude.{
  ℕ, zero, suc, Bool, false, not, ◌&&◌, ◌||◌, Option, none, some, List, [], ◌∷◌, ◌++◌, Text, codes,
  leb, ◌==◌, if◌then◌else◌, length,
}
use grafana_mcp_setup.Go.Strings.{is_space, trim_space, split}
use grafana_mcp_setup.Go.Substrings.{has_prefix, contains_text}
use grafana_mcp_setup.Go.Html.{html_escape}

-- `tokenSentinel` of formats.go
abbrev pub token_sentinel : Text
token_sentinel = codes "__GRAFANA_MCP_TOKEN__"

-- What the builder is given: each function is the text that it writes.
unfoldable pub span : Text → Text → Text
span class text =
    codes "<span class=\"" ++ (class ++ (codes "\">" ++ (html_escape text ++ codes "</span>")))

abbrev pub plain : Text → Text
plain text = html_escape text

abbrev pub quote : Text
quote = codes "\""

-- `str`: a quoted string, or the mask where it holds the token's place.
unfoldable pub str : Text → Text → Text → Text
unfolding span
str mask class quoted =
    if contains_text quoted token_sentinel
    then span class quote
      ++ (codes "<span class=\"tok\">"
          ++ (html_escape mask ++ (codes "</span>" ++ span class quote)))
    else span class quoted

-- The rest of a string literal behind its opening quote, and what follows it; a backslash takes the
-- next character with it, and a literal that does not end goes to the end of the text.
unfoldable pub string_rest : Bool → Text → Text × Text
string_rest escaped [] = ([], [])
string_rest escaped (c ∷ s) =
    let (literal, rest) = string_rest (not escaped && c == b'\\') s in
    if not escaped && c == 34 then (c ∷ [], s) else (c ∷ literal, rest)

-- A string followed by a colon is a key.
unfoldable pub is_key : Text → Bool
is_key [] = false
is_key (c ∷ s) = let rest = is_key s in if is_space c then rest else c == b':'

abbrev pub is_digit : ℕ → Bool
is_digit c = leb b'0' c && leb c b'9'

unfoldable pub number_rest : Text → Text × Text
number_rest [] = ([], [])
number_rest (c ∷ s) =
    let (n, r) = number_rest s in if is_digit c || c == b'.' then (c ∷ n, r) else ([], c ∷ s)

abbrev pub class_before : Text → Text
class_before rest = if is_key rest then codes "k" else codes "s"

-- One round of the loop: what it writes, and what is left.
unfoldable pub json_step : Text → ℕ → Text → Text × Text
unfolding str string_rest number_rest span
json_step mask c s =
    let (literal, after_literal) = string_rest false s in
    let (number, after_number) = number_rest s in
    if c == 34
    then (str mask (class_before after_literal) (c ∷ literal), after_literal)
    else if is_digit c
    then (span (codes "n") (c ∷ number), after_number)
    else (plain (c ∷ []), s)

-- Each round takes one character at least: the length of the text is fuel enough.
unfoldable pub json_from : ℕ → Text → Text → Text
unfolding json_step
json_from zero mask src = []
json_from (suc fuel) mask [] = []
json_from (suc fuel) mask (c ∷ s) =
    let (out, rest) = json_step mask c s in out ++ json_from fuel mask rest

-- highlightJSON
unfoldable pub highlight_json : Text → Text → Text
unfolding json_from
highlight_json src mask = json_from (length src) mask src

-- What stands before and behind the first of a byte, if there is one.
unfoldable pub cut_at : ℕ → Text → Option (Text × Text)
cut_at sep [] = none
cut_at sep (c ∷ s) = if c == sep then some ([], s) else behind c (cut_at sep s)
  where
    behind : ℕ → Option (Text × Text) → Option (Text × Text)
    behind c none = none
    behind c (some (before, after)) = some (c ∷ before, after)

-- One round of `plainOrStrings`: a quoted part, or the rest of the value.
abbrev pub quoted_part : Text → Text → Text → Option (Text × Text) → Text × Text
quoted_part mask value before none = (plain value, [])
quoted_part mask value before (some (inner, after)) =
    (plain before ++ str mask (codes "s") (quote ++ (inner ++ quote)), after)

abbrev pub value_step : Text → Text → Option (Text × Text) → Text × Text
value_step mask value none = (plain value, [])
value_step mask value (some (before, after)) = quoted_part mask value before (cut_at 34 after)

-- A round with an empty value writes nothing, and ends the loop.
unfoldable pub plain_or_strings : ℕ → Text → Text → Text
unfolding str cut_at
plain_or_strings zero mask value = []
plain_or_strings (suc fuel) mask [] = []
plain_or_strings (suc fuel) mask (c ∷ s) =
    let (out, rest) = value_step mask (c ∷ s) (cut_at 34 (c ∷ s)) in
    out ++ plain_or_strings fuel mask rest

abbrev pub assignment : Text → Text → Option (Text × Text) → Text
assignment mask line none = plain line
assignment mask line (some (key, value)) =
    span (codes "k") key ++ (plain (codes "=") ++ plain_or_strings (length value) mask value)

unfoldable pub toml_line : Text → Text → Text
unfolding span plain_or_strings cut_at
toml_line mask line =
    if has_prefix (trim_space line) (codes "[")
    then span (codes "t") line
    else assignment mask line (cut_at b'=' line)

unfoldable pub toml_lines : Text → List Text → Text
unfolding toml_line
toml_lines mask [] = []
toml_lines mask (line ∷ []) = toml_line mask line
toml_lines mask (line ∷ next ∷ lines) =
    toml_line mask line ++ (plain (codes "\n") ++ toml_lines mask (next ∷ lines))

-- highlightTOML
unfoldable pub highlight_toml : Text → Text → Text
unfolding toml_lines
highlight_toml src mask = toml_lines mask (split b'\n' src)
