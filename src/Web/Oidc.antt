-- ===== src/Web/Oidc.antt =====
-- `identity` of server.go with `verifyIDToken` and `nativeIdentity` of native.go: how a request shows
-- who sent it.
use grafana_mcp_setup.Prelude.{
  ℕ, Bool, false, not, ◌&&◌, Option, none, some, List, [], Text, codes, text_eq, if◌then◌else◌,
}
use grafana_mcp_setup.Exec.{Result, ok, err, Exec}
use grafana_mcp_setup.Go.Time.{Time}
use grafana_mcp_setup.Go.Strings.{trim_space}
use grafana_mcp_setup.Cookies.Crypto.{Host}
use grafana_mcp_setup.Cookies.Session.{SessionCodec, SessionPayload, open_session}
use grafana_mcp_setup.Web.Identity.{AuthError, Identity, refused, authorise}
use grafana_mcp_setup.Web.Mutation.{Submission}
use grafana_mcp_setup.Web.Response.{session_cookie_name}

-- type oidcClaims
pub record OidcClaims : Type 0 where
  pub email : Text
  pub groups : List Text
  pub nonce : Text

-- What is used of a verified *oidc.IDToken: its expiry, and `Claims` at `oidcClaims`.
pub record IdToken : Type 0 where
  pub expiry : Time
  pub claims : Result OidcClaims

-- `token.Extra("id_token")`, by its dynamic type.
pub data Extra : Type 0 where
  string bytes : Text → Extra
  other : Extra

-- *oauth2.Config: the URL that asks for a code, from the state and the parameters, and the exchange
-- of a code under a code verifier.
pub record Oauth (S : Type 0) : Type 0 where
  pub auth_code_url : Text → List (Text × Text) → Text
  pub exchange : Text → Text → Exec S Extra

-- The fields of `Server` and of its `cfg` that authentication reads. `verify` is the verifier of
-- go-oidc, and `record_auth` the metric.
pub record Auth (S : Type 0) : Type 0 where
  pub auth_mode : Text
  pub id_token_source : Text
  pub id_token_header : Text
  pub id_token_cookie : Text
  pub required_groups : List Text
  pub base_path : Text
  pub session_ttl : ℕ
  pub session : Option SessionCodec
  pub oauth : Option (Oauth S)
  pub verifier : Option (Text → Exec S IdToken)
  pub host : Host S
  pub sha256 : Text → Text
  pub record_auth : Text → S → S

-- What the handlers read of a request: `cookie` is `r.Cookie`, and a header or a parameter of the query
-- is empty where it is missing.
pub record Request : Type 0 where
  pub method : Text
  pub header : Text → Text
  pub query : Text → Text
  pub cookie : Text → Option Text
  pub submission : Submission

pub data Verification : Type 0 where
  verified : IdToken → OidcClaims → Verification
  unverified : AuthError → Verification

abbrev pub unauthenticated : Text → AuthError
unauthenticated message = record { forbidden = false; message = message }

abbrev pub is_native : Text → Bool
is_native mode = text_eq mode (codes "native")

module _ {S : Type 0} (a : Auth S) where
  abbrev pub oidc_failure : S → S
  oidc_failure s = a.record_auth (codes "oidc_failure") s

  abbrev pub fail_verification : Text → S → Verification × S
  fail_verification message s = (unverified (unauthenticated message), oidc_failure s)

  abbrev pub with_claims : Text → IdToken → Result OidcClaims → S → Verification × S
  with_claims nonce token (err e) s = fail_verification (codes "ID token claims are invalid") s
  with_claims nonce token (ok claims) s =
      if not (text_eq nonce []) && not (text_eq claims.nonce nonce)
      then fail_verification (codes "ID token nonce mismatch") s
      else (verified token claims, s)

  abbrev pub with_token : Text → Result IdToken × S → Verification × S
  with_token nonce (err e, s) = fail_verification (codes "ID token verification failed") s
  with_token nonce (ok token, s) = with_claims nonce token token.claims s

  abbrev pub verify_by : Option (Text → Exec S IdToken) → Text → Text → S → Verification × S
  verify_by none raw nonce s = fail_verification (codes "OIDC verifier is unavailable") s
  verify_by (some verify) raw nonce s = with_token nonce (verify raw s)

  -- `verifyIDToken`
  unfoldable pub verify_id_token : Text → Text → S → Verification × S
  verify_id_token raw nonce s = verify_by a.verifier raw nonce s

  abbrev pub authorise_claims : Verification × S → Identity × S
  authorise_claims (unverified e, s) = (refused e, s)
  authorise_claims (verified token claims, s) =
      authorise a.record_auth a.required_groups claims.email claims.groups s

  -- `identityFromIDToken`
  unfoldable pub identity_from_id_token : Text → Text → S → Identity × S
  identity_from_id_token raw nonce s = authorise_claims (verify_id_token raw nonce s)

  abbrev pub no_identity : Text → S → Identity × S
  no_identity message s = (refused (unauthenticated message), oidc_failure s)

  abbrev pub from_session : Result SessionPayload → S → Identity × S
  from_session (err e) s = no_identity (codes "native session is invalid or expired") s
  from_session (ok payload) s = identity_from_id_token payload.id_token [] s

  abbrev pub opened_at : SessionCodec → Text → Time × S → Identity × S
  opened_at codec value (now, s) = from_session (open_session codec value now) s

  abbrev pub from_session_cookie : SessionCodec → Option Text → S → Identity × S
  from_session_cookie codec none s = no_identity (codes "no native session") s
  from_session_cookie codec (some value) s = opened_at codec value (a.host.now s)

  abbrev pub native_identity_by : Option SessionCodec → Request → S → Identity × S
  native_identity_by none r s = no_identity (codes "native authentication is unavailable") s
  native_identity_by (some codec) r s = from_session_cookie codec (r.cookie session_cookie_name) s

  -- `nativeIdentity`
  unfoldable pub native_identity : Request → S → Identity × S
  native_identity r s = native_identity_by a.session r s

  abbrev pub from_token_cookie : Option Text → S → Identity × S
  from_token_cookie none s = no_identity (codes "no ID token cookie") s
  from_token_cookie (some raw) s = identity_from_id_token raw [] s

  abbrev pub from_token_header : Text → S → Identity × S
  from_token_header raw s =
      if text_eq raw []
      then no_identity (codes "no ID token header") s
      else identity_from_id_token raw [] s

  -- `identity`
  unfoldable pub identity : Request → S → Identity × S
  identity r s =
      if is_native a.auth_mode
      then native_identity r s
      else if text_eq a.id_token_source (codes "cookie")
      then from_token_cookie (r.cookie a.id_token_cookie) s
      else from_token_header (trim_space (r.header a.id_token_header)) s
