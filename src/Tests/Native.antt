-- ===== src/Tests/Native.antt =====
-- A provider that vouches for Ann, and a callback that signs her in.
use grafana_mcp_setup.Prelude.{
  ℕ, ◌+◌, ◌*◌, ◌≡◌, refl, none, some, [], ◌∷◌, Text, codes, text_eq, if◌then◌else◌,
}
use grafana_mcp_setup.Prelude.Int.{pos}
use grafana_mcp_setup.Exec.{ok}
use grafana_mcp_setup.Go.Base64.{encode, decode}
use grafana_mcp_setup.Go.Strings.{to_lower, count_byte, trim_space, trim_left}
use grafana_mcp_setup.Go.Time.{second, unix}
use grafana_mcp_setup.Cookies.Crypto.{Aead}
use grafana_mcp_setup.Cookies.Session.{
  SessionCodec, OauthStatePayload, open_kind, open_state, seal_with, seal_session,
}
use grafana_mcp_setup.Web.Identity.{known, valid_email, cut, authorise}
use grafana_mcp_setup.Web.Oidc.{
  OidcClaims, IdToken, string, Oauth, Auth, Request, verify_id_token, identity_from_id_token,
  identity,
}
use grafana_mcp_setup.Web.Authentic.{Authenticated, identity-Authenticated}
use grafana_mcp_setup.Web.Response.{sets_cookie}
use grafana_mcp_setup.Web.Native.{handle_oauth_callback}
use grafana_mcp_setup.Web.SignIn.{SetsSession, IsSignedIn, handle_oauth_callback-IsSignedIn}
use grafana_mcp_setup.Tests.Rotation.{at_second, ann}
use grafana_mcp_setup.Tests.Web.{staff, submission}

abbrev claims : OidcClaims
claims = record { email = codes "Ann@example.com"; groups = staff; nonce = codes "n" }

abbrev token : IdToken
token = record { expiry = at_second 90; claims = ok claims }

abbrev pending : OauthStatePayload
pending = record {
  version = 1;
  state = codes "s";
  nonce = codes "n";
  code_verifier = codes "v";
  expires = pos 600;
}

abbrev transparent : Aead
transparent = record {
  nonce_size = 1;
  seal = λ nonce plain aad. plain;
  open_sealed = λ nonce text aad. some text;
}

abbrev session_codec : SessionCodec
session_codec = record {
  aead = transparent;
  aad = [];
  sessions = record { marshal = λ p. 1 ∷ []; unmarshal = λ t. none };
  states = record { marshal = λ p. 2 ∷ []; unmarshal = λ t. some pending };
}

abbrev pub provider : Oauth ℕ
provider = record {
  auth_code_url = λ state parameters. state;
  exchange = λ code verifier s. (ok (string (codes "jwt")), s);
}

abbrev pub auth : Text → Auth ℕ
auth mode = record {
  auth_mode = mode;
  id_token_source = codes "header";
  id_token_header = codes "X-Token";
  id_token_cookie = [];
  required_groups = staff;
  base_path = codes "/mcp";
  session_ttl = 3600 * second;
  session = some session_codec;
  oauth = some provider;
  verifier = some (λ raw s. (ok token, s));
  host = record { now = λ s. (at_second 50, s); random = λ n s. (ok (9 ∷ []), s) };
  sha256 = λ t. t;
  record_auth = λ kind s. s + 1;
}

abbrev query_of : Text → Text
query_of name =
    if text_eq name (codes "state")
    then codes "s"
    else if text_eq name (codes "code")
    then codes "c"
    else []

abbrev pub request : Request
request = record {
  method = codes "GET";
  header = λ name. codes "jwt";
  query = query_of;
  cookie = λ name. some (codes "CQI");
  submission = submission;
}

abbrev proxied : Auth ℕ
proxied = auth (codes "proxy")

abbrev native : Auth ℕ
native = auth (codes "native")

signed_in_by_proxy : identity proxied request 0 ≡ (known ann, 0)
unfolding identity identity_from_id_token verify_id_token authorise valid_email cut count_byte
    to_lower text_eq trim_space trim_left
signed_in_by_proxy = refl

identity-Authenticated_example : Authenticated proxied request 0 ann
identity-Authenticated_example = identity-Authenticated proxied request 0 ann 0 signed_in_by_proxy

session_set : SetsSession (handle_oauth_callback native request 0).0
unfolding handle_oauth_callback open_state open_kind decode verify_id_token authorise valid_email
    cut count_byte to_lower text_eq unix seal_session seal_with encode sets_cookie
session_set = refl

handle_oauth_callback-IsSignedIn_example :
    IsSignedIn native request 0 (handle_oauth_callback native request 0).0
handle_oauth_callback-IsSignedIn_example =
    handle_oauth_callback-IsSignedIn native request 0 session_set
