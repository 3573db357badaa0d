-- ===== src/Config/Env.antt =====
-- The readers of environment variables, and the tests on what they read.
use grafana_mcp_setup.Prelude.{
  ℕ, Bool, true, false, not, ◌&&◌, ◌||◌, Option, none, some, List, [], ◌∷◌, ◌++◌, Text, codes,
  text_eq, any, contains, leb, ◌==◌, if◌then◌else◌,
}
use grafana_mcp_setup.Exec.{failure, wrapped, Result, ok, err}
use grafana_mcp_setup.Go.Strings.{trim_space, split, fields_where}
use grafana_mcp_setup.Go.Strconv.{parse_bool}

-- os.Getenv, and os.ReadFile.
pub record Process : Type 0 where
  pub getenv : Text → Text
  pub read_file : Text → Result Text

-- The loop of `splitList`.
abbrev pub add_part : Text → List Text → List Text
add_part part out = if text_eq part [] then out else part ∷ out

unfoldable pub trimmed_parts : List Text → List Text
trimmed_parts [] = []
trimmed_parts (part ∷ parts) = add_part (trim_space part) (trimmed_parts parts)

unfoldable pub split_list : Text → List Text
unfolding trimmed_parts
split_list v = trimmed_parts (split b',' v)

-- The separators of `splitScopes`, and its loop, with what it has collected.
abbrev pub is_scope_separator : ℕ → Bool
is_scope_separator r = r == b',' || (r == 32 || (r == 9 || (r == 10 || r == 13)))

abbrev pub add_scope : Text → List Text → List Text
add_scope p out = if not (text_eq p []) && not (contains out p) then out ++ p ∷ [] else out

unfoldable pub scopes_from : List Text → List Text → List Text
scopes_from [] out = out
scopes_from (part ∷ parts) out = scopes_from parts (add_scope (trim_space part) out)

unfoldable pub split_scopes : Text → List Text
unfolding scopes_from
split_scopes v = scopes_from (fields_where is_scope_separator v) []

-- A byte that `validHeaderName` lets through.
abbrev pub is_token_byte : ℕ → Bool
is_token_byte c =
    leb b'a' c && leb c b'z'
    || (leb b'A' c && leb c b'Z'
        || (leb b'0' c && leb c b'9' || any (λ d. d == c) (codes "!#$%&'*+-.^_`|~")))

unfoldable pub all_token_bytes : Text → Bool
all_token_bytes [] = true
all_token_bytes (c ∷ s) = is_token_byte c && all_token_bytes s

unfoldable pub valid_header_name : Text → Bool
unfolding all_token_bytes
valid_header_name name = if text_eq name [] then false else all_token_bytes name

abbrev pub bool_of : Text → Option Bool → Result Bool
bool_of key none = err (failure (key ++ codes " must be true or false"))
bool_of key (some b) = ok b

module _ (process : Process) where
  abbrev pub getenv : Text → Text
  getenv key = process.getenv key

  unfoldable pub env : Text → Text → Text
  env key fallback = if text_eq (getenv key) [] then fallback else getenv key

  unfoldable pub bool_env : Text → Result Bool
  bool_env key = if text_eq (getenv key) [] then ok false else bool_of key (parse_bool (getenv key))

  abbrev pub trimmed_secret : Text → Text → Result Text
  trimmed_secret file_key value =
      if text_eq value [] then err (failure (file_key ++ codes " is empty")) else ok value

  abbrev pub secret_in : Text → Result Text → Result Text
  secret_in file_key (err e) = err (wrapped (codes "reading " ++ file_key) e)
  secret_in file_key (ok b) = trimmed_secret file_key (trim_space b)

  unfoldable pub secret_env : Text → Text → Result Text
  secret_env value_key file_key =
      if not (text_eq (getenv value_key) []) && not (text_eq (getenv file_key) [])
      then err (failure (codes "set only one of " ++ (value_key ++ (codes " and " ++ file_key))))
      else if not (text_eq (getenv value_key) [])
      then ok (getenv value_key)
      else if text_eq (getenv file_key) []
      then err (failure (codes "set one of " ++ (value_key ++ (codes " and " ++ file_key))))
      else secret_in file_key (process.read_file (getenv file_key))
