-- ===== src/Config/Load.antt =====
-- The first part of `FromEnv`: what is read, in its order.
use grafana_mcp_setup.Prelude.{
  ℕ, ◌*◌, Bool, not, ◌&&◌, ◌||◌, Option, none, some, List, [], ◌∷◌, Text, codes, text_eq, contains,
  length, ltb, ◌==◌, if◌then◌else◌,
}
use grafana_mcp_setup.Prelude.Int.{ℤ, pos}
use grafana_mcp_setup.Exec.{failure, Result, ok, err}
use grafana_mcp_setup.Fallible.{◌>>=◌, ◌>>◌, refuse_if}
use grafana_mcp_setup.Go.Base64.{std_decode}
use grafana_mcp_setup.Go.Strings.{trim_byte, trim_right_byte}
use grafana_mcp_setup.Go.Strconv.{parse_int}
use grafana_mcp_setup.Go.Time.{second}
use grafana_mcp_setup.Config.Env.{
  Process, getenv, env, bool_env, secret_env, split_list, split_scopes,
}

-- type Config; a duration is its nanoseconds.
pub record Config : Type 0 where
  pub addr : Text
  pub base_path : Text
  pub app_public_url : Text
  pub app_origin : Text
  pub auth_mode : Text
  pub grafana_url : Text
  pub grafana_token : Text
  pub grafana_api_mode : Text
  pub grafana_namespace : Text
  pub public_url : Text
  pub issuer : Text
  pub client_id : Text
  pub oidc_client_secret : Text
  pub oidc_scopes : List Text
  pub id_token_source : Text
  pub id_token_header : Text
  pub id_token_cookie : Text
  pub required_groups : List Text
  pub allow_all : Bool
  pub enable_env_setup : Bool
  pub token_ttl : ℕ
  pub flash_cookie_key : Text
  pub flash_ttl : ℕ
  pub session_cookie_key : Text
  pub session_ttl : ℕ
  pub startup_timeout : ℕ
  pub readiness_ttl : ℕ
  pub rotation_lock_mode : Text
  pub rotation_lease : Text
  pub pod_namespace : Text
  pub pod_name : Text
  pub rotation_token_file : Text
  pub rotation_ca_file : Text

abbrev pub max_session_ttl_seconds : ℕ
max_session_ttl_seconds = 24 * 60 * 60

-- 32 bytes in base64.
abbrev pub key_in : Text → Option Text → Result Text
key_in message none = err (failure message)
key_in message (some key) = if not (length key == 32) then err (failure message) else ok key

unfoldable pub key_of : Text → Text → Result Text
key_of message encoded = key_in message (std_decode encoded)

-- A whole number from 1 to a limit.
abbrev pub number_in : ℕ → Text → Option ℤ → Result ℕ
number_in limit message (some (pos n)) =
    if n == 0 || ltb limit n then err (failure message) else ok n
number_in limit message _ = err (failure message)

unfoldable pub number_of : ℕ → Text → Text → Result ℕ
number_of limit message v = number_in limit message (parse_int v)

abbrev pub native : Text
native = codes "native"

-- The default session lifetime is an hour.
abbrev pub default_session_ttl : ℕ
default_session_ttl = 3600 * second

-- "openid" is asked for in any case.
abbrev pub with_openid : List Text → List Text
with_openid scopes =
    if not (contains scopes (codes "openid")) then codes "openid" ∷ scopes else scopes

module _ (process : Process) where
  -- What `Config` holds before anything is parsed.
  unfoldable pub initial : Bool → Bool → Config
  unfolding env
  initial enable_env_setup allow_all = record {
    addr = env process (codes "LISTEN_ADDR") (codes ":8080");
    base_path = b'/' ∷ trim_byte b'/' (env process (codes "BASE_PATH") (codes "/setup-mcp"));
    app_public_url = trim_right_byte b'/' (env process (codes "APP_PUBLIC_URL") []);
    app_origin = [];
    auth_mode = env process (codes "AUTH_MODE") (codes "proxy");
    grafana_url = trim_right_byte b'/' (env process (codes "GRAFANA_URL") []);
    grafana_token = [];
    grafana_api_mode = env process (codes "GRAFANA_API_MODE") (codes "legacy");
    grafana_namespace = env process (codes "GRAFANA_NAMESPACE") (codes "default");
    public_url = trim_right_byte b'/' (env process (codes "GRAFANA_PUBLIC_URL") []);
    issuer = trim_right_byte b'/' (env process (codes "OIDC_ISSUER") []);
    client_id = env process (codes "OIDC_CLIENT_ID") (codes "grafana-mcp-setup");
    oidc_client_secret = [];
    oidc_scopes =
        split_scopes (env process (codes "OIDC_SCOPES") (codes "openid,profile,email,groups"));
    id_token_source = env process (codes "ID_TOKEN_SOURCE") (codes "header");
    id_token_header = env process (codes "ID_TOKEN_HEADER") (codes "X-Grafana-MCP-ID-Token");
    id_token_cookie = env process (codes "ID_TOKEN_COOKIE") (codes "mcp_id_token");
    required_groups = split_list (getenv process (codes "REQUIRED_GROUPS"));
    allow_all = allow_all;
    enable_env_setup = enable_env_setup;
    token_ttl = 0;
    flash_cookie_key = [];
    flash_ttl = 300 * second;
    session_cookie_key = [];
    session_ttl = default_session_ttl;
    startup_timeout = 10 * second;
    readiness_ttl = 10 * second;
    rotation_lock_mode = env process (codes "ROTATION_LOCK_MODE") (codes "local");
    rotation_lease = env process (codes "ROTATION_LEASE_NAME") (codes "grafana-mcp-rotation");
    pod_namespace = getenv process (codes "POD_NAMESPACE");
    pod_name = getenv process (codes "POD_NAME");
    rotation_token_file = codes "/var/run/secrets/rotation-lock/token";
    rotation_ca_file = codes "/var/run/secrets/rotation-lock/ca.crt";
  }

  -- The mode, the scopes and the lifetime of tokens.
  unfoldable pub with_lifetime : Config → Result Config
  with_lifetime c = do
    refuse_if (not (text_eq c.auth_mode (codes "proxy")) && not (text_eq c.auth_mode native))
        (codes "AUTH_MODE must be proxy or native")
    days ←
        number_of 365 (codes "TOKEN_TTL_DAYS must be an integer from 1 to 365")
          (env process (codes "TOKEN_TTL_DAYS") (codes "90"))
    ok (record c { oidc_scopes = with_openid c.oidc_scopes; token_ttl = days * 86400 * second })

  -- Grafana's token and the key of the delivery cookie.
  unfoldable pub with_secrets : Config → Result Config
  with_secrets c = do
    token ← secret_env process (codes "GRAFANA_ADMIN_TOKEN") (codes "GRAFANA_ADMIN_TOKEN_FILE")
    encoded ← secret_env process (codes "FLASH_COOKIE_KEY") (codes "FLASH_COOKIE_KEY_FILE")
    key ← key_of (codes "FLASH_COOKIE_KEY must be base64 for exactly 32 bytes") encoded
    ok (record c { grafana_token = token; flash_cookie_key = key })

  -- What native authentication needs beside.
  unfoldable pub with_session : Config → Result Config
  with_session c = do
    secret ← secret_env process (codes "OIDC_CLIENT_SECRET") (codes "OIDC_CLIENT_SECRET_FILE")
    encoded ← secret_env process (codes "SESSION_COOKIE_KEY") (codes "SESSION_COOKIE_KEY_FILE")
    key ← key_of (codes "SESSION_COOKIE_KEY must be base64 for exactly 32 bytes") encoded
    seconds ←
        number_of max_session_ttl_seconds
          (codes "SESSION_TTL_SECONDS must be an integer from 1 to 86400")
          (env process (codes "SESSION_TTL_SECONDS") (codes "3600"))
    ok (record c {
      oidc_client_secret = secret;
      session_cookie_key = key;
      session_ttl = seconds * second;
    })

  abbrev pub with_native : Config → Result Config
  with_native c = if text_eq c.auth_mode native then with_session c else ok c

  unfoldable pub loaded : Result Config
  loaded = do
    enable_env_setup ← bool_env process (codes "ENABLE_ENV_SETUP")
    allow_all ← bool_env process (codes "ALLOW_ALL_AUTHENTICATED_USERS")
    c ← with_lifetime (initial enable_env_setup allow_all)
    d ← with_secrets c
    with_native d
