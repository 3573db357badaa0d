-- ===== src/Go/Html.antt =====
-- html/template's HTMLEscape, on bytes.
use grafana_mcp_setup.Prelude.{
  ℕ, ◌≢◌, [], ◌∷◌, ◌++◌, Text, codes, ◌==◌, if◌then◌else◌, arith, All, All-append,
}

abbrev pub escape_byte : ℕ → Text
escape_byte c =
    if c == 34
    then codes "&#34;"
    else if c == 39
    then codes "&#39;"
    else if c == b'&'
    then codes "&amp;"
    else if c == b'<'
    then codes "&lt;"
    else if c == b'>'
    then codes "&gt;"
    else if c == 0
    then 239 ∷ 191 ∷ 189 ∷ []
    else c ∷ []

unfoldable pub html_escape : Text → Text
html_escape [] = []
html_escape (c ∷ s) = escape_byte c ++ html_escape s

-- No byte of a tag's brackets.
abbrev pub IsUnbracketed : ℕ → Type 0
IsUnbracketed c = (c ≢ b'<') × (c ≢ b'>')

escape_byte-IsUnbracketed : (c : ℕ) → All IsUnbracketed (escape_byte c)
escape_byte-IsUnbracketed c = ground arith

pub html_escape-IsUnbracketed : (s : Text) → All IsUnbracketed (html_escape s)
unfolding html_escape
html_escape-IsUnbracketed [] = tt
html_escape-IsUnbracketed (c ∷ s) =
    All-append IsUnbracketed (escape_byte c) (html_escape s) (escape_byte-IsUnbracketed c)
      (html_escape-IsUnbracketed s)

-- html.EscapeString
abbrev pub escape_string_byte : ℕ → Text
escape_string_byte c = if c == 0 then 0 ∷ [] else escape_byte c

unfoldable pub escape_string : Text → Text
escape_string [] = []
escape_string (c ∷ s) = escape_string_byte c ++ escape_string s
