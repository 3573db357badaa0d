-- ===== src/Go/Base64.antt =====
-- base64.RawURLEncoding: no padding; the decoder passes over line ends and is not strict about the
-- unused bits of the last digit.
use grafana_mcp_setup.Prelude.{
  ℕ, ◌+◌, ◌-◌, ◌*◌, ◌/◌, ◌%◌, ◌<◌, ◌≡◌, ◌≢◌, refl, Bool, ◌&&◌, ◌||◌, not, Option, none, some, List,
  [], ◌∷◌, arith, Text, ltb, leb, ◌==◌, if◌then◌else◌, All, keep_if, ◌++◌, map,
}

alphabet : ℕ → ℕ
alphabet i =
    if ltb i 26
    then 65 + i
    else if ltb i 52
    then 71 + i
    else if ltb i 62
    then i - 4
    else if i == 62
    then b'-'
    else b'_'

sextet : ℕ → Option ℕ
sextet c =
    if leb b'A' c && leb c b'Z'
    then some (c - 65)
    else if leb b'a' c && leb c b'z'
    then some (c - 71)
    else if leb b'0' c && leb c b'9'
    then some (c + 4)
    else if c == b'-'
    then some 62
    else if c == b'_'
    then some 63
    else none

-- The sextets of the bytes.
to_sextets : Text → List ℕ
to_sextets [] = []
to_sextets (a ∷ []) = (a / 4) ∷ (a % 4 * 16) ∷ []
to_sextets (a ∷ b ∷ []) = (a / 4) ∷ (a % 4 * 16 + b / 16) ∷ (b % 16 * 4) ∷ []
to_sextets (a ∷ b ∷ c ∷ rest) =
    (a / 4) ∷ (a % 4 * 16 + b / 16) ∷ (b % 16 * 4 + c / 64) ∷ (c % 64) ∷ to_sextets rest

prepend : List ℕ → Option (List ℕ) → Option (List ℕ)
prepend ds none = none
prepend ds (some es) = some (ds ++ es)

-- A single sextet at the end is an error.
to_bytes : List ℕ → Option Text
unfolding prepend
to_bytes [] = some []
to_bytes (x ∷ []) = none
to_bytes (x ∷ y ∷ []) = some ((x * 4 + y / 16) ∷ [])
to_bytes (x ∷ y ∷ z ∷ []) = some ((x * 4 + y / 16) ∷ (y % 16 * 16 + z / 4) ∷ [])
to_bytes (x ∷ y ∷ z ∷ w ∷ rest) =
    prepend ((x * 4 + y / 16) ∷ (y % 16 * 16 + z / 4) ∷ (z % 4 * 64 + w) ∷ []) (to_bytes rest)

-- base64.RawURLEncoding.EncodeToString
unfoldable pub encode : Text → Text
unfolding alphabet to_sextets
encode s = map alphabet (to_sextets s)

both : Option ℕ → Option (List ℕ) → Option (List ℕ)
both (some d) (some ds) = some (d ∷ ds)
both (some d) none = none
both none _ = none

from_alphabet : Text → Option (List ℕ)
unfolding sextet both
from_alphabet [] = some []
from_alphabet (c ∷ s) = both (sextet c) (from_alphabet s)

abbrev not_line_end : ℕ → Bool
not_line_end c = not (c == 10 || c == 13)

-- base64.RawURLEncoding.DecodeString
unfoldable pub decode : Text → Option Text
unfolding from_alphabet to_bytes
decode s = elim (from_alphabet (keep_if not_line_end s)) [ none ↦ none | some ds ↦ to_bytes ds ]

sextet-alphabet : (i : ℕ) → i < 64 → sextet (alphabet i) ≡ some i
unfolding sextet alphabet
sextet-alphabet i h = ground arith

-- What a digit is not: a line end, and the "." that separates the parts of a CSRF token.
alphabet_plain : (i : ℕ) → (alphabet i ≢ 10) × (alphabet i ≢ 13) × (alphabet i ≢ b'.')
unfolding alphabet
alphabet_plain i = ground arith

-- The bytes of a Go string.
abbrev pub IsBytes : Text → Type 0
IsBytes = All (λ b. b < 256)

to_sextets-All : (s : Text) → IsBytes s → All (λ d. d < 64) (to_sextets s)
unfolding to_sextets
to_sextets-All [] h = tt
to_sextets-All (a ∷ []) h = omega arith
to_sextets-All (a ∷ b ∷ []) h = omega arith
to_sextets-All (a ∷ b ∷ c ∷ rest) h =
    (omega arith, (omega arith, (omega arith, (omega arith, to_sextets-All rest h.1.1.1))))

to_bytes-to_sextets : (s : Text) → IsBytes s → to_bytes (to_sextets s) ≡ some s
unfolding to_sextets to_bytes
to_bytes-to_sextets [] h = refl
to_bytes-to_sextets (a ∷ []) h = ground arith
to_bytes-to_sextets (a ∷ b ∷ []) h = ground arith
to_bytes-to_sextets (a ∷ b ∷ c ∷ rest) h = ground (arith, to_bytes-to_sextets rest h.1.1.1)

from_alphabet-map :
    (ds : List ℕ)
    → All (λ d. d < 64) ds
    → from_alphabet (keep_if not_line_end (map alphabet ds)) ≡ some ds
unfolding from_alphabet
from_alphabet-map [] h = refl
from_alphabet-map (d ∷ ds) h =
    ground (arith, alphabet_plain d, sextet-alphabet d h.0, from_alphabet-map ds h.1)

-- What is encoded decodes to the same bytes.
pub decode-encode : (s : Text) → IsBytes s → decode (encode s) ≡ some s
unfolding decode encode
decode-encode s h =
    rw (from_alphabet-map (to_sextets s) (to_sextets-All s h), decode) (to_bytes-to_sextets s h)

map-alphabet-NoDot : (ds : List ℕ) → All (λ c. c ≢ b'.') (map alphabet ds)
map-alphabet-NoDot [] = tt
map-alphabet-NoDot (d ∷ ds) = ((alphabet_plain d).2, map-alphabet-NoDot ds)

-- An encoded text has no ".".
pub encode-NoDot : (s : Text) → All (λ c. c ≢ b'.') (encode s)
unfolding encode
encode-NoDot s = map-alphabet-NoDot (to_sextets s)

pub encode-ne-nil : (s : Text) → s ≢ [] → encode s ≢ []
unfolding encode to_sextets
encode-ne-nil [] h e = h refl
encode-ne-nil (a ∷ []) h e = ground arith
encode-ne-nil (a ∷ b ∷ []) h e = ground arith
encode-ne-nil (a ∷ b ∷ c ∷ rest) h e = ground arith

-- base64.StdEncoding: the digits "+" and "/", and padding to groups of four.
std_sextet : ℕ → Option ℕ
unfolding sextet
std_sextet c =
    if c == b'+'
    then some 62
    else if c == b'/'
    then some 63
    else if c == b'-' || c == b'_'
    then none
    else sextet c

from_std_alphabet : Text → Option (List ℕ)
unfolding std_sextet both
from_std_alphabet [] = some []
from_std_alphabet (c ∷ s) = both (std_sextet c) (from_std_alphabet s)

-- The digits in front of the padding of the last group, if the groups are whole.
unpadded : Text → Option Text
unfolding prepend
unpadded [] = some []
unpadded (a ∷ b ∷ c ∷ d ∷ []) =
    if c == b'=' && d == b'='
    then some (a ∷ b ∷ [])
    else if d == b'='
    then some (a ∷ b ∷ c ∷ [])
    else some (a ∷ b ∷ c ∷ d ∷ [])
unpadded (a ∷ b ∷ c ∷ d ∷ e ∷ rest) = prepend (a ∷ b ∷ c ∷ d ∷ []) (unpadded (e ∷ rest))
unpadded _ = none

-- base64.StdEncoding.DecodeString; "=" anywhere else is no digit.
unfoldable pub std_decode : Text → Option Text
unfolding unpadded from_std_alphabet to_bytes
std_decode s = elim (unpadded (keep_if not_line_end s)) [
  | none ↦ none
  | some digits ↦ elim (from_std_alphabet digits) [ none ↦ none | some ds ↦ to_bytes ds ]
]
