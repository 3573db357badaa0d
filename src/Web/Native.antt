-- ===== src/Web/Native.antt =====
-- native.go: the handlers of native authentication.
use grafana_mcp_setup.Prelude.{
  ℕ, ◌+◌, not, ◌&&◌, ◌||◌, Option, none, some, List, [], ◌∷◌, ◌++◌, Text, codes, text_eq, ltb,
  if◌then◌else◌,
}
use grafana_mcp_setup.Exec.{Result, ok, err, Exec, pure, ◌>>=◌}
use grafana_mcp_setup.Go.Base64
use grafana_mcp_setup.Go.Html.{escape_string}
use grafana_mcp_setup.Go.Time.{Time}
use grafana_mcp_setup.Cookies.Flash.{FlashCodec}
use grafana_mcp_setup.Cookies.Session.{
  SessionCodec, OauthStatePayload, open_state, seal_state, seal_session,
}
use grafana_mcp_setup.Web.Identity.{AuthError, Identity, known, refused, authorise}
use grafana_mcp_setup.Web.Origin.{Url}
use grafana_mcp_setup.Web.Mutation.{valid_mutation_request}
use grafana_mcp_setup.Web.Response.{
  Response, http_error, redirect, with_cookie, state_cookie_name, oauth_state_cookie,
  clear_oauth_state_cookie, session_cookie, clear_session_cookie, clear_flash_cookie,
}
use grafana_mcp_setup.Web.Handlers.{auth_response}
use grafana_mcp_setup.Web.Oidc.{
  IdToken, Extra, string, bytes, other, Oauth, Auth, Request, Verification, verified, unverified,
  is_native, verify_id_token, native_identity,
}

-- What `handleOAuthLogin` draws, and the cookie that seals it.
pub record LoginStart : Type 0 where
  pub state : Text
  pub nonce : Text
  pub code_verifier : Text
  pub state_cookie : Text

-- The type switch on `rawIDToken`.
abbrev pub raw_id_token : Extra → Text
raw_id_token (string value) = value
raw_id_token (bytes value) = value
raw_id_token other = []

-- `writeCallbackAuthError`
abbrev pub callback_error : AuthError → Response
callback_error e =
    if e.forbidden
    then http_error 403 (codes "forbidden")
    else http_error 400 (codes "authentication failed")

abbrev pub authentication_failed : Response
authentication_failed = http_error 400 (codes "authentication failed")

abbrev pub unavailable : Response
unavailable = http_error 500 (codes "native authentication is unavailable")

module _ {S : Type 0} (a : Auth S) where
  -- `writeIdentityError`
  unfoldable pub identity_error : Request → AuthError → Response
  identity_error r e =
      if is_native a.auth_mode && (text_eq r.method (codes "GET") && not e.forbidden)
      then redirect 302 (a.base_path ++ codes "/oauth2/login")
      else auth_response e

  -- `randomURLValue`
  abbrev pub random_url_value : ℕ → Exec S Text
  random_url_value size = do b ← a.host.random size; pure (Base64.encode b)

  unfoldable pub login_start : SessionCodec → Exec S LoginStart
  login_start codec = do
    state ← random_url_value 32
    nonce ← random_url_value 32
    code_verifier ← random_url_value 32
    state_cookie ← seal_state a.host codec state nonce code_verifier
    pure (record {
      state = state;
      nonce = nonce;
      code_verifier = code_verifier;
      state_cookie = state_cookie;
    })

  -- The parameters of the authorisation URL.
  abbrev pub login_parameters : LoginStart → List (Text × Text)
  login_parameters start =
      (codes "nonce", start.nonce)
      ∷ (codes "code_challenge", Base64.encode (a.sha256 start.code_verifier))
      ∷ (codes "code_challenge_method", codes "S256")
      ∷ []

  abbrev pub login_redirect : Oauth S → LoginStart → Time × S → Response × S
  login_redirect oauth start (now, s) = (
    with_cookie (oauth_state_cookie a.base_path start.state_cookie now)
        (redirect 302 (oauth.auth_code_url start.state (login_parameters start))),
    s,
  )

  abbrev pub login_answer : Oauth S → Result LoginStart × S → Response × S
  login_answer oauth (err e, s) = (http_error 500 (codes "could not start authentication"), s)
  login_answer oauth (ok start, s) = login_redirect oauth start (a.host.now s)

  abbrev pub login_with : Option (Oauth S) → Option SessionCodec → S → Response × S
  login_with (some oauth) (some codec) s = login_answer oauth (login_start codec s)
  login_with _ _ s = (unavailable, s)

  -- `handleOAuthLogin`
  unfoldable pub handle_oauth_login : S → Response × S
  handle_oauth_login s = login_with a.oauth a.session s

  -- `handleOAuthCallback`, from its end: the session cookie once it is sealed.
  abbrev pub signed_in : Text → Time → Time × S → Response × S
  signed_in value expires (now, s) =
      (with_cookie (session_cookie a.base_path value expires now) (redirect 303 a.base_path), s)

  abbrev pub sealed_session : Time → Result Text × S → Response × S
  sealed_session expires (err e, s) =
      (http_error 400 (codes "authentication response is too large"), s)
  sealed_session expires (ok value, s) = signed_in value expires (a.host.now s)

  -- The earlier of the token's expiry and the end of the session.
  abbrev pub session_expiry : Time → IdToken → Time
  session_expiry now token =
      if ltb token.expiry (now + a.session_ttl) then token.expiry else now + a.session_ttl

  abbrev pub sealed_until : SessionCodec → Text → Time → S → Response × S
  sealed_until codec raw expires s =
      sealed_session expires (seal_session a.host codec raw expires s)

  abbrev pub start_session : SessionCodec → Text → IdToken → Time × S → Response × S
  start_session codec raw token (now, s) = sealed_until codec raw (session_expiry now token) s

  abbrev pub when_authorised : SessionCodec → Text → IdToken → Identity × S → Response × S
  when_authorised codec raw token (refused e, s) = (callback_error e, s)
  when_authorised codec raw token (known email, s) = start_session codec raw token (a.host.now s)

  abbrev pub when_verified : SessionCodec → Text → Verification × S → Response × S
  when_verified codec raw (unverified e, s) = (callback_error e, s)
  when_verified codec raw (verified token claims, s) =
      when_authorised codec raw token
        (authorise a.record_auth a.required_groups claims.email claims.groups s)

  abbrev pub with_id_token : SessionCodec → Text → Text → S → Response × S
  with_id_token codec nonce raw s =
      if text_eq raw []
      then (authentication_failed, s)
      else when_verified codec raw (verify_id_token a raw nonce s)

  abbrev pub exchanged : SessionCodec → Text → Result Extra × S → Response × S
  exchanged codec nonce (err e, s) = (authentication_failed, s)
  exchanged codec nonce (ok extra, s) = with_id_token codec nonce (raw_id_token extra) s

  abbrev pub with_state :
      SessionCodec → Oauth S → Text → Text → Result OauthStatePayload → S → Response × S
  with_state codec oauth state code (err e) s = (authentication_failed, s)
  with_state codec oauth state code (ok payload) s =
      if not (text_eq state payload.state)
      then (authentication_failed, s)
      else exchanged codec payload.nonce (oauth.exchange code payload.code_verifier s)

  abbrev pub opened_at : SessionCodec → Oauth S → Text → Text → Text → Time × S → Response × S
  opened_at codec oauth state code value (now, s) =
      with_state codec oauth state code (open_state codec value now) s

  abbrev pub with_state_cookie :
      SessionCodec → Oauth S → Text → Text → Option Text → S → Response × S
  with_state_cookie codec oauth state code none s = (authentication_failed, s)
  with_state_cookie codec oauth state code (some value) s =
      opened_at codec oauth state code value (a.host.now s)

  abbrev pub with_query : SessionCodec → Oauth S → Request → S → Response × S
  with_query codec oauth r s =
      if not (text_eq (r.query (codes "error")) [])
      then (authentication_failed, s)
      else if text_eq (r.query (codes "state")) [] || text_eq (r.query (codes "code")) []
      then (authentication_failed, s)
      else with_state_cookie codec oauth (r.query (codes "state")) (r.query (codes "code"))
          (r.cookie state_cookie_name) s

  abbrev pub callback_with : Option (Oauth S) → Option SessionCodec → Request → S → Response × S
  callback_with (some oauth) (some codec) r s = with_query codec oauth r s
  callback_with _ _ r s = (unavailable, s)

  abbrev pub state_cleared : Response × S → Response × S
  state_cleared (response, s) = (with_cookie (clear_oauth_state_cookie a.base_path) response, s)

  -- `handleOAuthCallback`, which clears the state cookie before anything else.
  unfoldable pub handle_oauth_callback : Request → S → Response × S
  handle_oauth_callback r s = state_cleared (callback_with a.oauth a.session r s)

  -- `handleOAuthLogout`
  abbrev pub logout_response : Response
  logout_response = with_cookie (clear_session_cookie a.base_path) (
      with_cookie (clear_oauth_state_cookie a.base_path) (
        with_cookie (clear_flash_cookie a.base_path)
          (redirect 303 (a.base_path ++ codes "/oauth2/logged-out"))))

  abbrev pub logout_when : Result (Unit {0}) → S → Response × S
  logout_when (err e) s = (http_error 403 (codes "request verification failed"), s)
  logout_when (ok _) s = (logout_response, s)

  abbrev pub logout_at :
      (Text → Option Url) → FlashCodec → Text → Request → Text → Time × S → Response × S
  logout_at parse codec app_origin r email (now, s) =
      logout_when (valid_mutation_request parse codec app_origin r.submission email now) s

  abbrev pub logout_for :
      (Text → Option Url) → FlashCodec → Text → Request → Identity × S → Response × S
  logout_for parse codec app_origin r (refused e, s) = (auth_response e, s)
  logout_for parse codec app_origin r (known email, s) =
      logout_at parse codec app_origin r email (a.host.now s)

  unfoldable pub handle_oauth_logout :
      (Text → Option Url) → FlashCodec → Text → Request → S → Response × S
  handle_oauth_logout parse codec app_origin r s =
      logout_for parse codec app_origin r (native_identity a r s)

  -- `handleOAuthLoggedOut`
  unfoldable pub handle_oauth_logged_out : Response
  unfolding escape_string
  handle_oauth_logged_out = record {
    status = 200;
    location = [];
    cookies = [];
    headers = (codes "Content-Type", codes "text/html; charset=utf-8") ∷ [];
    body =
        codes
          "<!doctype html><meta charset=\"utf-8\"><title>Signed out</title><h1>Signed out</h1><p>Your local Grafana MCP session ended.</p><p><a href=\""
        ++ (escape_string a.base_path ++ codes "/oauth2/login\">Sign in</a></p>");
  }
