-- ===== src/Tests/Config.antt =====
-- An environment with native authentication.
use grafana_mcp_setup.Prelude.{
  ◌≡◌, refl, false, Option, some, List, [], ◌∷◌, Text, codes, text_eq, if◌then◌else◌,
}
use grafana_mcp_setup.Exec.{failure, Result, ok, err}
use grafana_mcp_setup.Go.Base64.{std_decode}
use grafana_mcp_setup.Go.Strings.{
  split, trim_space, trim_left, trim_byte, trim_left_byte, trim_right_byte, fields_where,
  split_where, to_lower,
}
use grafana_mcp_setup.Go.Strconv.{parse_int}
use grafana_mcp_setup.Go.Substrings.{has_prefix, has_suffix, contains_text}
use grafana_mcp_setup.Web.Origin.{Url, normalize_origin}
use grafana_mcp_setup.Config.Env.{
  Process, env, bool_env, secret_env, split_list, trimmed_parts, split_scopes, scopes_from,
}
use grafana_mcp_setup.Config.Load.{
  Config, key_of, number_of, initial, with_lifetime, with_secrets, with_session, loaded,
}
use grafana_mcp_setup.Config.Check.{
  refuse_any, check_modes, check_required, with_origin, validated, from_env,
}
use grafana_mcp_setup.Config.Configured.{IsConfigured, from_env-IsConfigured}

-- 32 zero bytes.
abbrev key : Text
key = codes "AAAAAAAAAAAAAAAAAAAAAAAAAAAAAAAAAAAAAAAAAAA="

abbrev value_in : List (Text × Text) → Text → Text
value_in [] name = []
value_in ((n, v) ∷ rest) name =
    let later = value_in rest name in if text_eq n name then v else later

abbrev variables : List (Text × Text)
variables =
    (codes "AUTH_MODE", codes "native")
    ∷ (codes "APP_PUBLIC_URL", codes "https://app/")
    ∷ (codes "GRAFANA_URL", codes "https://grafana")
    ∷ (codes "GRAFANA_PUBLIC_URL", codes "https://grafana")
    ∷ (codes "OIDC_ISSUER", codes "https://id")
    ∷ (codes "REQUIRED_GROUPS", codes "staff, admin")
    ∷ (codes "GRAFANA_ADMIN_TOKEN", codes "glsa")
    ∷ (codes "OIDC_CLIENT_SECRET", codes "secret")
    ∷ (codes "FLASH_COOKIE_KEY", key)
    ∷ (codes "SESSION_COOKIE_KEY", key)
    ∷ []

abbrev pub process : Process
process = record { getenv = value_in variables; read_file = λ name. err (failure name) }

-- Every text is the URL of a host over https.
abbrev pub parse : Text → Option Url
parse t = some (record {
  scheme = codes "https";
  host = codes "app";
  hostname = codes "app";
  port = [];
  has_user = false;
  path = [];
  raw_query = [];
  force_query = false;
  fragment = [];
})

abbrev pub in_order : List (Text × Text) → List (Text × Text)
in_order xs = xs

abbrev config_of : Result Config → Config
config_of (ok c) = c
config_of (err e) = initial process false false

abbrev config : Config
config = config_of (from_env parse in_order process)

accepted : from_env parse in_order process ≡ ok config
unfolding from_env loaded initial env bool_env with_lifetime number_of parse_int with_secrets
    secret_env key_of std_decode with_session validated check_required refuse_any check_modes
    has_suffix contains_text has_prefix with_origin normalize_origin to_lower text_eq trim_byte
    trim_left_byte trim_right_byte split_list split trimmed_parts trim_space trim_left split_scopes
    fields_where split_where scopes_from
accepted = refl

from_env-IsConfigured_example : IsConfigured parse config
from_env-IsConfigured_example =
    from_env-IsConfigured parse in_order (λ p xs. refl) process config accepted
