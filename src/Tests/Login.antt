-- ===== src/Tests/Login.antt =====
-- A login, and the callback that brings back its state.
use grafana_mcp_setup.Prelude.{
  ℕ, zero, suc, ◌+◌, ◌≡◌, ◌≢◌, refl, ap, false, none, some, [], ◌∷◌, Text, codes, text_eq, length,
  if◌then◌else◌, arith,
}
use grafana_mcp_setup.Prelude.Int.{le_ℤ}
use grafana_mcp_setup.Exec.{ok}
use grafana_mcp_setup.Go.Base64.{IsBytes, encode}
use grafana_mcp_setup.Go.Time.{unix}
use grafana_mcp_setup.Cookies.Crypto.{Host}
use grafana_mcp_setup.Cookies.Session.{
  SessionCodec, OauthStatePayload, oauth_state_ttl, seal_with, seal_state,
}
use grafana_mcp_setup.Web.Oidc.{Auth, Request}
use grafana_mcp_setup.Web.Response.{redirect, with_cookie, oauth_state_cookie}
use grafana_mcp_setup.Web.Native.{
  LoginStart, login_start, login_parameters, handle_oauth_login, exchanged, state_cleared,
  handle_oauth_callback,
}
use grafana_mcp_setup.Web.Login.{Environment, login_time, pending_login, callback-login}
use grafana_mcp_setup.Tests.Rotation.{at_second}
use grafana_mcp_setup.Tests.Cookies.{frame, transparent, transparent-laws}
use grafana_mcp_setup.Tests.Native.{provider, auth, request}

unfoldable sevens : ℕ → Text
sevens zero = []
sevens (suc n) = 7 ∷ sevens n

sevens-IsBytes : (n : ℕ) → IsBytes (sevens n)
unfolding sevens
sevens-IsBytes zero = tt
sevens-IsBytes (suc n) = (omega arith, sevens-IsBytes n)

length-sevens : (n : ℕ) → length (sevens n) ≡ n
unfolding sevens
length-sevens zero = refl
length-sevens (suc n) = ap suc (length-sevens n)

abbrev host : Host ℕ
host = record { now = λ s. (at_second 50, s); random = λ n s. (ok (sevens n), s) }

-- 32 sevens in base64.
abbrev drawn : Text
drawn = encode (sevens 32)

abbrev payload : OauthStatePayload
payload = record {
  version = 1;
  state = drawn;
  nonce = drawn;
  code_verifier = drawn;
  expires = unix (at_second 50 + oauth_state_ttl);
}

abbrev codec : SessionCodec
codec = record {
  aead = transparent;
  aad = [];
  sessions = record { marshal = λ p. 1 ∷ []; unmarshal = λ t. none };
  states = record { marshal = λ p. 2 ∷ []; unmarshal = λ t. some payload };
}

abbrev native : Auth ℕ
native = record (auth (codes "native")) { host = host; session = some codec }

abbrev login : LoginStart
login = record {
  state = drawn;
  nonce = drawn;
  code_verifier = drawn;
  state_cookie = encode (7 ∷ transparent.seal (7 ∷ []) (2 ∷ []) (0 ∷ codes "oauth-state"));
}

abbrev query_of : Text → Text
query_of name =
    if text_eq name (codes "state")
    then drawn
    else if text_eq name (codes "code")
    then codes "c"
    else []

abbrev callback : Request
callback = record request { query = query_of; cookie = λ name. some login.state_cookie }

drawn-IsBytes : (n : ℕ) (b : Text) → ok (sevens n) ≡ ok b → IsBytes b × (length b ≡ n)
drawn-IsBytes n b h =
    let same : sevens n ≡ b = grind arith in rw (← same) (sevens-IsBytes n, length-sevens n)

environment :
    Environment native.host codec (pending_login native codec login (login_time native codec 0))
environment = record {
  laws = transparent-laws;
  random_bytes = λ n s b h. drawn-IsBytes n b h;
  nonced = λ e. omega (arith, e);
  data_bytes = ground arith;
  json_bytes = ground arith;
  kept = refl;
}

started : (login_start native codec 0).0 ≡ ok login
unfolding login_start seal_state seal_with sevens encode frame text_eq
started = refl

no_error : callback.query (codes "error") ≡ []
unfolding text_eq
no_error = refl

same_state : callback.query (codes "state") ≡ login.state
unfolding text_eq
same_state = refl

code_given : callback.query (codes "code") ≢ []
unfolding text_eq
code_given e = ground arith

in_time : le_ℤ (unix (login_time native codec 0 + oauth_state_ttl)) (unix (at_second 50)) ≡ false
unfolding unix
in_time = refl

callback-login_example :
    ((handle_oauth_login native 0).0
      ≡ with_cookie
          (oauth_state_cookie native.base_path login.state_cookie
            (native.host.now (login_start native codec 0).1).0)
          (redirect 302 (provider.auth_code_url login.state (login_parameters native login))))
    × (handle_oauth_callback native callback 1
        ≡ state_cleared native (
            exchanged native codec login.nonce (
              provider.exchange
                (callback.query (codes "code"))
                login.code_verifier
                (native.host.now 1).1)))
callback-login_example =
    callback-login native codec provider 0 login callback 1 environment refl refl started refl
      no_error same_state code_given in_time
