-- ===== src/Config/Check.antt =====
-- The second part of `FromEnv`: the tests on what was loaded, in their order.
use grafana_mcp_setup.Prelude.{
  ℕ, Bool, true, not, ◌&&◌, ◌||◌, Option, none, some, List, [], ◌∷◌, ◌++◌, Text, codes, text_eq,
  any, length, ◌==◌, if◌then◌else◌,
}
use grafana_mcp_setup.Exec.{failure, Result, ok, err}
use grafana_mcp_setup.Fallible.{◌>>=◌, ◌>>◌, refuse_if}
use grafana_mcp_setup.Go.Substrings.{has_prefix, has_suffix, contains_text}
use grafana_mcp_setup.Web.Origin.{Url, normalize_origin}
use grafana_mcp_setup.Config.Env.{Process, valid_header_name}
use grafana_mcp_setup.Config.Load.{Config, native, loaded}

-- The order in which Go ranges over a map of names to texts, which is not specified.
abbrev pub Order : Type 0
Order = List (Text × Text) → List (Text × Text)

abbrev pub required_values : Config → List (Text × Text)
required_values c =
    (codes "APP_PUBLIC_URL", c.app_public_url)
    ∷ (codes "GRAFANA_URL", c.grafana_url)
    ∷ (codes "GRAFANA_PUBLIC_URL", c.public_url)
    ∷ (codes "OIDC_ISSUER", c.issuer)
    ∷ (codes "GRAFANA_NAMESPACE", c.grafana_namespace)
    ∷ []

-- The first entry of a map that fails a test is the error's.
unfoldable pub refuse_any : (Text → Bool) → Text → List (Text × Text) → Result (Unit {0})
refuse_any bad message [] = ok tt
refuse_any bad message ((name, v) ∷ rest) =
    let later = refuse_any bad message rest in
    if bad v then err (failure (name ++ message)) else later

abbrev pub is_empty : Text → Bool
is_empty v = text_eq v []

abbrev pub proxy : Text
proxy = codes "proxy"

abbrev pub header : Text
header = codes "header"

abbrev pub cookie : Text
cookie = codes "cookie"

-- Where a proxy hands over the ID token.
unfoldable pub check_source : Config → Result (Unit {0})
check_source c = do
  refuse_if (not (text_eq c.id_token_source header) && not (text_eq c.id_token_source cookie))
      (codes "ID_TOKEN_SOURCE must be header or cookie")
  refuse_if (text_eq c.id_token_source header && not (valid_header_name c.id_token_header))
      (codes "ID_TOKEN_HEADER must be a valid HTTP header name in header mode")
  refuse_if (text_eq c.id_token_source cookie && text_eq c.id_token_cookie [])
      (codes "ID_TOKEN_COOKIE is required in cookie mode")
  refuse_if (text_eq c.id_token_source cookie && not (valid_header_name c.id_token_cookie))
      (codes "ID_TOKEN_COOKIE must be a valid cookie name in cookie mode")

abbrev pub check_proxy : Config → Result (Unit {0})
check_proxy c = if text_eq c.auth_mode proxy then check_source c else ok tt

-- strings.ContainsAny(s, "{}?#% \t\r\n")
abbrev pub is_escaped_byte : ℕ → Bool
is_escaped_byte b =
    b == b'{'
    || (b == b'}'
        || (b == b'?'
            || (b == b'#' || (b == b'%' || (b == 32 || (b == 9 || (b == 13 || b == 10)))))))

abbrev pub bad_base_path : Text → Bool
bad_base_path path =
    text_eq path (codes "/")
    || (any is_escaped_byte path
        || (contains_text path (codes "//")
            || (contains_text path (codes "/../") || has_suffix path (codes "/.."))))

unfoldable pub check_modes : Config → Result (Unit {0})
check_modes c = do
  refuse_if (bad_base_path c.base_path) (codes "BASE_PATH must be a non-root, unescaped URL path")
  refuse_if
      (not (text_eq c.rotation_lock_mode (codes "local"))
        && not (text_eq c.rotation_lock_mode (codes "kubernetes")))
      (codes "ROTATION_LOCK_MODE must be local or kubernetes")
  refuse_if
      (not (text_eq c.grafana_api_mode (codes "legacy"))
        && not (text_eq c.grafana_api_mode (codes "iam")))
      (codes "GRAFANA_API_MODE must be legacy or iam")
  refuse_if
      (text_eq c.rotation_lock_mode (codes "kubernetes")
        && (text_eq c.rotation_lease [] || (text_eq c.pod_namespace [] || text_eq c.pod_name [])))
      (codes
        "ROTATION_LEASE_NAME, POD_NAMESPACE, and POD_NAME are required in kubernetes lock mode")

-- Grafana's addresses are absolute, and hold nothing but a place.
abbrev pub is_bad_url : Option Url → Bool
is_bad_url none = true
is_bad_url (some u) =
    text_eq u.scheme []
    || (text_eq u.host []
        || (not (text_eq u.scheme (codes "https")) && not (text_eq u.scheme (codes "http"))
            || (u.has_user || (not (text_eq u.raw_query []) || not (text_eq u.fragment [])))))

abbrev pub grafana_urls : Config → List (Text × Text)
grafana_urls c =
    (codes "GRAFANA_URL", c.grafana_url) ∷ (codes "GRAFANA_PUBLIC_URL", c.public_url) ∷ []

abbrev pub bad_url : (Text → Option Url) → Text → Bool
bad_url parse raw = is_bad_url (parse raw)

unfoldable pub check_required : Order → Config → Result (Unit {0})
check_required order c = do
  refuse_any is_empty (codes " is required") (order (required_values c))
  refuse_if (length c.required_groups == 0 && not c.allow_all)
      (codes "REQUIRED_GROUPS must be nonempty unless ALLOW_ALL_AUTHENTICATED_USERS=true")

abbrev pub app_origin_of : Result Text → Result Text
app_origin_of (ok origin) = ok origin
app_origin_of (err e) =
    err (failure (codes "APP_PUBLIC_URL must contain only an absolute http or https origin"))

module _ (parse : Text → Option Url) (order : Order) where
  unfoldable pub with_origin : Config → Result Config
  with_origin c = do
    origin ← app_origin_of (normalize_origin parse c.app_public_url)
    refuse_if (text_eq c.auth_mode native && not (has_prefix origin (codes "https://")))
        (codes "APP_PUBLIC_URL must use https in native auth mode")
    refuse_any (bad_url parse)
        (codes " must be an absolute http or https URL without credentials, query, or fragment")
        (order (grafana_urls c))
    ok (record c { app_origin = origin; app_public_url = origin })

  unfoldable pub validated : Config → Result Config
  validated c = do check_required order c; check_proxy c; check_modes c; with_origin c

  -- FromEnv; the configuration that it returns beside an error is not used.
  unfoldable pub from_env : Process → Result Config
  from_env process = do c ← loaded process; validated c
