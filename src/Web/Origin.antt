-- ===== src/Web/Origin.antt =====
-- `normalizeOrigin` of config.go, over what url.Parse makes of a text.
use grafana_mcp_setup.Prelude.{
  Bool, not, ◌&&◌, ◌||◌, Option, none, some, [], ◌∷◌, ◌++◌, Text, codes, text_eq, ltb,
  if◌then◌else◌,
}
use grafana_mcp_setup.Prelude.Int.{ℤ, pos, negsuc}
use grafana_mcp_setup.Exec.{failure, Result, ok, err}
use grafana_mcp_setup.Go.Strings.{to_lower, has_byte}
use grafana_mcp_setup.Go.Strconv.{format_int, parse_int}

-- What the code reads of a url.URL.
pub record Url : Type 0 where
  pub scheme : Text
  pub host : Text
  pub hostname : Text
  pub port : Text
  pub has_user : Bool
  pub path : Text
  pub raw_query : Text
  pub force_query : Bool
  pub fragment : Text

abbrev pub https : Text
https = codes "https"

abbrev pub http : Text
http = codes "http"

abbrev pub is_origin : Url → Bool
is_origin u =
    not (text_eq u.hostname [])
    && ((text_eq u.scheme https || text_eq u.scheme http)
        && (not u.has_user
            && ((text_eq u.path [] || text_eq u.path (codes "/"))
                && (text_eq u.raw_query [] && (not u.force_query && text_eq u.fragment [])))))

-- The port without leading zeros, or empty if it is the scheme's own.
abbrev pub port_in : Text → Option ℤ → Result Text
port_in scheme (some (pos number)) =
    if ltb number 1 || ltb 65535 number
    then err (failure (codes "invalid origin port"))
    else if text_eq scheme https && text_eq (format_int (pos number)) (codes "443")
        || text_eq scheme http && text_eq (format_int (pos number)) (codes "80")
    then ok []
    else ok (format_int (pos number))
port_in scheme (some (negsuc _)) = err (failure (codes "invalid origin port"))
port_in scheme none = err (failure (codes "invalid origin port"))

abbrev pub port_of : Url → Result Text
port_of u = if text_eq u.port [] then ok [] else port_in u.scheme (parse_int u.port)

-- net.JoinHostPort, and an IPv6 host without a port.
abbrev pub bracketed : Text → Text
bracketed host = if has_byte b':' host then b'[' ∷ (host ++ codes "]") else host

abbrev pub with_port : Text → Text → Text
with_port host port = if text_eq port [] then bracketed host else bracketed host ++ b':' ∷ port

abbrev pub origin_with : Url → Result Text → Result Text
origin_with u (err e) = err e
origin_with u (ok port) = ok (u.scheme ++ (codes "://" ++ with_port (to_lower u.hostname) port))

abbrev pub origin_of : Option Url → Result Text
origin_of none = err (failure (codes "invalid origin"))
origin_of (some u) =
    if is_origin u then origin_with u (port_of u) else err (failure (codes "invalid origin"))

module _ (parse : Text → Option Url) where
  unfoldable pub normalize_origin : Text → Result Text
  normalize_origin raw = origin_of (parse raw)
