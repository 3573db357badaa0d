-- ===== src/Go/Json.antt =====
-- encoding/json: strings and indented values, on ASCII texts.
use grafana_mcp_setup.Prelude.{
  ℕ, zero, suc, ◌+◌, ◌/◌, ◌%◌, ◌||◌, List, [], ◌∷◌, ◌++◌, Text, codes, ltb, ◌==◌, if◌then◌else◌,
}
use grafana_mcp_setup.Go.Strconv.{lower_hex}

abbrev pub escaped_byte : ℕ → Text
escaped_byte c =
    if c == 34 || c == b'\\'
    then b'\\' ∷ c ∷ []
    else if c == 8
    then codes "\\b"
    else if c == 12
    then codes "\\f"
    else if c == 10
    then codes "\\n"
    else if c == 13
    then codes "\\r"
    else if c == 9
    then codes "\\t"
    else if ltb c 32 || (c == b'<' || (c == b'>' || c == b'&'))
    then codes "\\u00" ++ lower_hex (c / 16) ∷ lower_hex (c % 16) ∷ []
    else c ∷ []

unfoldable pub escaped_bytes : Text → Text
escaped_bytes [] = []
escaped_bytes (c ∷ s) = escaped_byte c ++ escaped_bytes s

-- json.Marshal of a string
unfoldable pub json_string : Text → Text
unfolding escaped_bytes
json_string s = 34 ∷ (escaped_bytes s ++ 34 ∷ [])

-- What json.MarshalIndent(v, "", "  ") writes of a value at a depth.
abbrev pub Value : Type 0
Value = ℕ → Text

unfoldable pub new_line : ℕ → Text
new_line depth = b'\n' ∷ spaces depth
  where
    spaces : ℕ → Text
    spaces zero = []
    spaces (suc n) = 32 ∷ 32 ∷ spaces n

abbrev pub string_value : Text → Value
string_value s depth = json_string s

-- Elements at a depth, with commas between them.
unfoldable pub elements : List Value → Value
unfolding new_line
elements [] depth = []
elements (v ∷ []) depth = new_line depth ++ v depth
elements (v ∷ w ∷ vs) depth = new_line depth ++ (v depth ++ (b',' ∷ elements (w ∷ vs) depth))

abbrev pub field : Text × Value → Value
field (key, v) depth = json_string key ++ (codes ": " ++ v depth)

unfoldable pub array_value : List Text → Value
unfolding elements
array_value [] depth = codes "[]"
array_value (x ∷ xs) depth =
    b'[' ∷ (elements (strings (x ∷ xs)) (depth + 1) ++ (new_line depth ++ codes "]"))
  where
    strings : List Text → List Value
    strings [] = []
    strings (y ∷ ys) = string_value y ∷ strings ys

unfoldable pub object_value : List (Text × Value) → Value
unfolding elements
object_value [] depth = codes "{}"
object_value (f ∷ fs) depth =
    b'{' ∷ (elements (fields (f ∷ fs)) (depth + 1) ++ (new_line depth ++ codes "}"))
  where
    fields : List (Text × Value) → List Value
    fields [] = []
    fields (g ∷ gs) = field g ∷ fields gs
