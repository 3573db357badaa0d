-- ===== src/Web/SignIn.antt =====
-- When a callback signs somebody in.
use grafana_mcp_setup.Prelude.{
  ◌+◌, ◌≤◌, ◌≡◌, ◌≢◌, refl, ap, ◌⊎◌, inl, inr, true, ◌||◌, some, [], ◌∷◌, Text, codes, text_eq, ltb,
  text_eq_iff, arith, Bool-cases, Option-cases,
}
use grafana_mcp_setup.Exec.{Result, ok, err, Result-cases}
use grafana_mcp_setup.Go.Time.{Time}
use grafana_mcp_setup.Cookies.Session.{SessionCodec, OauthStatePayload, open_state, seal_session}
use grafana_mcp_setup.Cookies.States.{IsPending, open_state-IsPending}
use grafana_mcp_setup.Web.Identity.{
  Identity, known, refused, authorise, IsEmail, in_required_group, authorise-IsEmail,
}
use grafana_mcp_setup.Web.Oidc.{
  OidcClaims, IdToken, Extra, Oauth, Auth, Request, Verification, verified, unverified,
  verify_id_token,
}
use grafana_mcp_setup.Web.Response.{
  Response, session_cookie_name, session_cookie, sets_cookie, state_cookie_name,
  clear_oauth_state_cookie,
}
use grafana_mcp_setup.Web.Native.{
  raw_id_token, session_expiry, sealed_session, when_authorised, when_verified, with_id_token,
  with_state, with_query, handle_oauth_callback,
}
use grafana_mcp_setup.Web.Authentic.{IsVouched, verify_id_token-IsVouched}

abbrev pub SetsSession : Response → Type 0
SetsSession response = sets_cookie session_cookie_name response ≡ true

-- The earlier of the two ends.
abbrev IsEarlier : Time → Time → Time → Type 0
IsEarlier expires x y = (expires ≤ x) × (expires ≤ y) × ((expires ≡ x) ⊎ (expires ≡ y))

-- The session cookie of an ID token that the verifier accepted for a nonce, for an authorised user:
-- `start` is the state before the verification, and each state behind it is named. The session ends by
-- the clock as it is read behind the authorisation.
pub record IsSession {S : Type 0} (a : Auth S) (codec : SessionCodec) (nonce raw : Text) (start : S)
    (response : Response) : Type 0 where
  pub nonempty : raw ≢ []
  pub token : IdToken
  pub claims : OidcClaims
  pub checked : S
  pub verification : verify_id_token a raw nonce start ≡ (verified token claims, checked)
  pub vouched : IsVouched a raw nonce token claims
  pub name : Text
  pub admitted : S
  pub authorisation :
      authorise a.record_auth a.required_groups claims.email claims.groups checked
      ≡ (known name, admitted)
  pub email : IsEmail claims.email
  pub member : (a.required_groups ≡ []) ⊎ (in_required_group a.required_groups claims.groups ≡ true)
  pub expires : Time
  pub ends : IsEarlier expires token.expiry ((a.host.now admitted).0 + a.session_ttl)
  pub value : Text
  pub sealed : (seal_session a.host codec raw expires (a.host.now admitted).1).0 ≡ ok value
  pub delivered :
      response.cookies
      ≡ session_cookie a.base_path value expires
          (a.host.now (seal_session a.host codec raw expires (a.host.now admitted).1).1).0
        ∷ []

module _ {S : Type 0} (a : Auth S) where
  session_expiry-IsEarlier :
      (now : Time) (token : IdToken)
      → IsEarlier (session_expiry a now token) token.expiry (now + a.session_ttl)
  session_expiry-IsEarlier now token = elim (Bool-cases (ltb token.expiry (now + a.session_ttl))) [
    | inl sooner ↦ rw sooner (omega arith, grind arith, inl refl)
    | inr later ↦ rw later (grind arith, omega arith, inr refl)
  ]

  sealed_session-delivered :
      (expires : Time) (x : Result Text × S)
      → SetsSession (sealed_session a expires x).0
      → (value : Text) × (x.0 ≡ ok value)
        × ((sealed_session a expires x).0.cookies
            ≡ session_cookie a.base_path value expires (a.host.now x.1).0 ∷ [])
  unfolding sets_cookie
  sealed_session-delivered expires (err e, s) h = absurd (grind arith)
  sealed_session-delivered expires (ok value, s) h = (value, refl, refl)

  when_authorised-IsSession :
      (codec : SessionCodec) (nonce raw : Text) (start : S) (token : IdToken) (claims : OidcClaims)
      (x : Identity × S) (s : S)
      → raw ≢ []
      → verify_id_token a raw nonce start ≡ (verified token claims, s)
      → authorise a.record_auth a.required_groups claims.email claims.groups s ≡ x
      → SetsSession (when_authorised a codec raw token x).0
      → IsSession a codec nonce raw start (when_authorised a codec raw token x).0
  unfolding sets_cookie
  when_authorised-IsSession codec nonce raw start token claims (refused e, t) s given ok_token same
        h =
      absurd (elim (Bool-cases e.forbidden) [ inl f ↦ grind arith | inr f ↦ grind arith ])
  when_authorised-IsSession codec nonce raw start token claims (known name, t) s given ok_token same
        h =
      let (email, lowered, _, member) =
        authorise-IsEmail a.record_auth a.required_groups claims.email claims.groups s name t
          same in
      let expires = session_expiry a (a.host.now t).0 token in
      let (value, sealed, delivered) =
        sealed_session-delivered expires (seal_session a.host codec raw expires (a.host.now t).1)
          h in
      record {
        nonempty = given;
        token = token;
        claims = claims;
        checked = s;
        verification = ok_token;
        vouched = verify_id_token-IsVouched a raw nonce start token claims s ok_token;
        name = name;
        admitted = t;
        authorisation = same;
        email = email;
        member = member;
        expires = expires;
        ends = session_expiry-IsEarlier (a.host.now t).0 token;
        value = value;
        sealed = sealed;
        delivered = delivered;
      }

  when_verified-IsSession :
      (codec : SessionCodec) (nonce raw : Text) (x : Verification × S) (s : S)
      → raw ≢ []
      → verify_id_token a raw nonce s ≡ x
      → SetsSession (when_verified a codec raw x).0
      → IsSession a codec nonce raw s (when_verified a codec raw x).0
  unfolding sets_cookie
  when_verified-IsSession codec nonce raw (unverified e, t) s given same h =
      absurd (elim (Bool-cases e.forbidden) [ inl f ↦ grind arith | inr f ↦ grind arith ])
  when_verified-IsSession codec nonce raw (verified token claims, t) s given same h =
      when_authorised-IsSession codec nonce raw s token claims
        (authorise a.record_auth a.required_groups claims.email claims.groups t) t given same refl h

  with_id_token-IsSession :
      (codec : SessionCodec) (nonce raw : Text) (s : S)
      → SetsSession (with_id_token a codec nonce raw s).0
      → IsSession a codec nonce raw s (with_id_token a codec nonce raw s).0
  unfolding sets_cookie
  with_id_token-IsSession codec nonce raw s h = elim (Bool-cases (text_eq raw [])) [
    | inl missing ↦ absurd (grind arith)
    | inr given ↦ rw given (
        when_verified-IsSession codec nonce raw (verify_id_token a raw nonce s) s
          (λ e. grind (arith, text_eq_iff raw [])) refl (grind arith))
  ]

-- A callback that answers the request that a login started. The state cookie is judged by the clock as
-- it is read when the request comes in, in the state `start`.
pub record IsAnswered {S : Type 0} (a : Auth S) (codec : SessionCodec) (oauth : Oauth S)
    (r : Request) (start : S) (response : Response) : Type 0 where
  pub state_cookie : Text
  pub presented : r.cookie state_cookie_name ≡ some state_cookie
  pub payload : OauthStatePayload
  pub opened : open_state codec state_cookie (a.host.now start).0 ≡ ok payload
  pub pending : IsPending payload (a.host.now start).0
  pub same_state : r.query (codes "state") ≡ payload.state
  pub extra : Extra
  pub exchanged_in : S
  pub exchanged :
      oauth.exchange (r.query (codes "code")) payload.code_verifier (a.host.now start).1
      ≡ (ok extra, exchanged_in)
  pub session : IsSession a codec payload.nonce (raw_id_token extra) exchanged_in response

-- The state cookie is cleared, whatever else happens.
pub record IsSignedIn {S : Type 0} (a : Auth S) (r : Request) (start : S) (response : Response)
    : Type 0 where
  pub codec : SessionCodec
  pub oauth : Oauth S
  pub configured : (a.session ≡ some codec) × (a.oauth ≡ some oauth)
  pub answer : Response
  pub answered : IsAnswered a codec oauth r start answer
  pub cleared : response.cookies ≡ clear_oauth_state_cookie a.base_path ∷ answer.cookies

module _ {S : Type 0} (a : Auth S) where
  module _ (codec : SessionCodec) (oauth : Oauth S) (r : Request) where
    abbrev state_of : Text
    state_of = r.query (codes "state")

    abbrev code_of : Text
    code_of = r.query (codes "code")

    with_state-IsAnswered :
        (value : Text) (s : S) (x : Result OauthStatePayload)
        → r.cookie state_cookie_name ≡ some value
        → open_state codec value (a.host.now s).0 ≡ x
        → SetsSession (with_state a codec oauth state_of code_of x (a.host.now s).1).0
        → IsAnswered a codec oauth r s
            (with_state a codec oauth state_of code_of x (a.host.now s).1).0
    unfolding sets_cookie
    with_state-IsAnswered value s (err e) v o h = absurd (grind arith)
    with_state-IsAnswered value s (ok p) v o h = elim (Bool-cases (text_eq state_of p.state)) [
      | inr foreign ↦ absurd (grind arith)
      | inl same ↦ elim (Result-cases (oauth.exchange code_of p.code_verifier (a.host.now s).1).0) [
        | inr (e, failed) ↦ absurd (grind arith)
        | inl (extra, done) ↦
            let u = (oauth.exchange code_of p.code_verifier (a.host.now s).1).1 in
            rw (same, done)
              (record {
                state_cookie = value;
                presented = v;
                payload = p;
                opened = o;
                pending = (open_state-IsPending codec value (a.host.now s).0 p o).1;
                same_state = (text_eq_iff state_of p.state).0 same;
                extra = extra;
                exchanged_in = u;
                exchanged = ap (λ (y : Result Extra). (y, u)) done;
                session =
                    with_id_token-IsSession a codec p.nonce (raw_id_token extra) u (grind arith);
              })
      ]
    ]

    with_query-IsAnswered :
        (s : S)
        → SetsSession (with_query a codec oauth r s).0
        → IsAnswered a codec oauth r s (with_query a codec oauth r s).0
    unfolding sets_cookie
    with_query-IsAnswered s h = elim (Bool-cases (text_eq (r.query (codes "error")) [])) [
      | inr denied ↦ absurd (grind arith)
      | inl fine ↦ elim (Bool-cases (text_eq state_of [] || text_eq code_of [])) [
        | inl missing ↦ absurd (grind arith)
        | inr given ↦ elim (Option-cases (r.cookie state_cookie_name)) [
          | inl missing ↦ absurd (grind arith)
          | inr (value, v) ↦
              rw (fine, given, v)
                (with_state-IsAnswered value s (open_state codec value (a.host.now s).0) v refl
                  (grind arith))
        ]
      ]
    ]

  -- A callback sets the session cookie only if the request's state is the one in its state cookie, which
  -- opens and has not expired by the clock as it is read when the request comes in, the code was exchanged under that cookie's code verifier for an ID
  -- token that the verifier accepts with that cookie's nonce, and the token's user has a valid e-mail
  -- address and a required group, where groups are required; the cookie seals that token and expires
  -- with it, or after the session's lifetime, counted from the authorisation, if that is sooner, and the state cookie is cleared.
  pub handle_oauth_callback-IsSignedIn :
      (r : Request) (s : S)
      → SetsSession (handle_oauth_callback a r s).0
      → IsSignedIn a r s (handle_oauth_callback a r s).0
  unfolding handle_oauth_callback sets_cookie
  handle_oauth_callback-IsSignedIn r s h = elim (Option-cases a.oauth) [
    | inl missing ↦ absurd (grind arith)
    | inr (oauth, o) ↦ elim (Option-cases a.session) [
      | inl missing ↦ absurd (grind arith)
      | inr (codec, c) ↦ record {
        codec = codec;
        oauth = oauth;
        configured = (c, o);
        answer = (with_query a codec oauth r s).0;
        answered = with_query-IsAnswered codec oauth r s (grind arith);
        cleared = grind arith;
      }
    ]
  ]
