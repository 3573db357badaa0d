-- ===== src/Go/Url.antt =====
-- Package net/url: PathEscape and QueryEscape.
use grafana_mcp_setup.Prelude.{
  ℕ, ◌+◌, ◌/◌, ◌%◌, ◌≡◌, ◌≢◌, Bool, true, ◌&&◌, ◌||◌, [], ◌∷◌, arith, Text, leb, ltb, ◌==◌,
  if◌then◌else◌, All,
}

-- Letters, digits and "-_.~" stand for themselves everywhere.
is_unreserved : ℕ → Bool
is_unreserved c =
    leb b'a' c && leb c b'z'
    || leb b'A' c && leb c b'Z'
    || leb b'0' c && leb c b'9'
    || c == b'-'
    || c == b'_'
    || c == b'.'
    || c == b'~'

-- Of the reserved bytes a path segment keeps "$&+=:@".
keeps_in_segment : ℕ → Bool
unfolding is_unreserved
keeps_in_segment c =
    is_unreserved c || c == b'$' || c == b'&' || c == b'+' || c == b'=' || c == b':' || c == b'@'

hex_digit : ℕ → ℕ
hex_digit d = if ltb d 10 then 48 + d else 55 + d

percent : ℕ → Text → Text
unfolding hex_digit
percent c rest = b'%' ∷ hex_digit (c / 16 % 16) ∷ hex_digit (c % 16) ∷ rest

unfoldable pub path_escape : Text → Text
unfolding keeps_in_segment percent
path_escape [] = []
path_escape (c ∷ s) =
    let rest = path_escape s in if keeps_in_segment c then c ∷ rest else percent c rest

unfoldable pub query_escape : Text → Text
unfolding is_unreserved percent
query_escape [] = []
query_escape (c ∷ s) =
    let rest = query_escape s in
    if is_unreserved c then c ∷ rest else if c == b' ' then b'+' ∷ rest else percent c rest

-- A byte that ends a path segment: "/", "?" or "#".
abbrev pub InSegment : ℕ → Type 0
InSegment c = (c ≢ b'/') × (c ≢ b'?') × (c ≢ b'#')

hex_digit-InSegment : (d : ℕ) → InSegment (hex_digit (d % 16))
unfolding hex_digit
hex_digit-InSegment d = ground arith

keeps-InSegment : (c : ℕ) → keeps_in_segment c ≡ true → InSegment c
unfolding keeps_in_segment
keeps-InSegment c h = ground arith

pub path_escape-InSegment : (s : Text) → All InSegment (path_escape s)
unfolding path_escape
path_escape-InSegment [] = tt
path_escape-InSegment (c ∷ s) = ground (
  arith,
  path_escape-InSegment s,
  keeps-InSegment c,
  hex_digit-InSegment (c / 16),
  hex_digit-InSegment c,
)
