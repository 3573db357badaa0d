-- ===== src/Web/Authentic.antt =====
-- What a known identity goes back to.
use grafana_mcp_setup.Prelude.{
  ◌≡◌, ◌≢◌, refl, sym, ap, ◌∙◌, ◌⊎◌, inl, inr, true, false, not, ◌&&◌, Option, none, some, [], Text,
  codes, text_eq, text_eq_iff, arith, Bool-cases, Option-cases,
}
use grafana_mcp_setup.Exec.{Result, ok, err, Exec}
use grafana_mcp_setup.Go.Strings.{to_lower, trim_space}
use grafana_mcp_setup.Cookies.Session.{SessionCodec, SessionPayload, open_session}
use grafana_mcp_setup.Web.Identity.{known, IsEmail, in_required_group, authorise-IsEmail}
use grafana_mcp_setup.Web.Oidc.{
  OidcClaims, IdToken, Auth, Request, Verification, verified, unverified, is_native, with_claims,
  with_token, verify_by, verify_id_token, authorise_claims, identity_from_id_token, from_session,
  from_token_cookie, from_token_header, native_identity, identity,
}
use grafana_mcp_setup.Web.Response.{session_cookie_name}

-- The verifier accepted the token, and its claims carry the nonce that was asked for, if one was.
pub record IsVouched {S : Type 0} (a : Auth S) (raw nonce : Text) (token : IdToken)
    (claims : OidcClaims) : Type 0 where
  pub verify : Text → Exec S IdToken
  pub configured : a.verifier ≡ some verify
  pub before : S
  pub accepted : (verify raw before).0 ≡ ok token
  pub claimed : token.claims ≡ ok claims
  pub answered : nonce ≢ [] → claims.nonce ≡ nonce

-- Where a request may hold the raw ID token. A session cookie is judged by the clock as it is read when
-- the request comes in.
pub data Presented {S : Type 0} (a : Auth S) (r : Request) (s : S) (raw : Text) : Type 0 where
  in_session :
      (codec : SessionCodec) (value : Text) (p : SessionPayload)
      → is_native a.auth_mode ≡ true
      → a.session ≡ some codec
      → r.cookie session_cookie_name ≡ some value
      → open_session codec value (a.host.now s).0 ≡ ok p
      → raw ≡ p.id_token
      → Presented a r s raw
  in_cookie :
      is_native a.auth_mode ≡ false
      → a.id_token_source ≡ codes "cookie"
      → r.cookie a.id_token_cookie ≡ some raw
      → Presented a r s raw
  in_header :
      is_native a.auth_mode ≡ false
      → a.id_token_source ≢ codes "cookie"
      → raw ≢ []
      → raw ≡ trim_space (r.header a.id_token_header)
      → Presented a r s raw

-- An identity that the identity provider vouches for, and that may use the program.
pub record IsAuthentic {S : Type 0} (a : Auth S) (raw : Text) (name : Text) : Type 0 where
  pub token : IdToken
  pub claims : OidcClaims
  pub vouched : IsVouched a raw [] token claims
  pub email : IsEmail claims.email
  pub lowered : name ≡ to_lower claims.email
  pub member : (a.required_groups ≡ []) ⊎ (in_required_group a.required_groups claims.groups ≡ true)

module _ {S : Type 0} (a : Auth S) where
  with_claims-vouched :
      (nonce : Text) (token : IdToken) (c : Result OidcClaims) (s : S) (tok : IdToken)
      (claims : OidcClaims) (t : S)
      → with_claims a nonce token c s ≡ (verified tok claims, t)
      → (token ≡ tok) × (c ≡ ok claims) × (nonce ≢ [] → claims.nonce ≡ nonce)
  with_claims-vouched nonce token (err e) s tok claims t h = absurd (grind arith)
  with_claims-vouched nonce token (ok found) s tok claims t h =
      elim (Bool-cases (not (text_eq nonce []) && not (text_eq found.nonce nonce))) [
        | inl mismatch ↦ absurd (grind arith)
        | inr match ↦ (
          grind arith,
          grind arith,
          λ n. grind (arith, text_eq_iff nonce [], text_eq_iff found.nonce nonce),
        )
      ]

  with_token-vouched :
      (nonce : Text) (x : Result IdToken × S) (token : IdToken) (claims : OidcClaims) (t : S)
      → with_token a nonce x ≡ (verified token claims, t)
      → (x.0 ≡ ok token) × (token.claims ≡ ok claims) × (nonce ≢ [] → claims.nonce ≡ nonce)
  with_token-vouched nonce (err e, s) token claims t h = absurd (grind arith)
  with_token-vouched nonce (ok found, s) token claims t h =
      let (same, claimed, answered) =
        with_claims-vouched nonce found found.claims s token claims t h in
      (
        ap (λ (x : IdToken). ok x) same,
        sym (ap (λ (x : IdToken). x.claims) same) ∙ claimed,
        answered,
      )

  verify_by-IsVouched :
      (v : Option (Text → Exec S IdToken)) (raw nonce : Text) (s : S) (token : IdToken)
      (claims : OidcClaims) (t : S)
      → a.verifier ≡ v
      → verify_by a v raw nonce s ≡ (verified token claims, t)
      → IsVouched a raw nonce token claims
  verify_by-IsVouched none raw nonce s token claims t e h = absurd (grind arith)
  verify_by-IsVouched (some verify) raw nonce s token claims t e h =
      let (accepted, claimed, answered) =
        with_token-vouched nonce (verify raw s) token claims t h in
      record {
        verify = verify;
        configured = e;
        before = s;
        accepted = accepted;
        claimed = claimed;
        answered = answered;
      }

  pub verify_id_token-IsVouched :
      (raw nonce : Text) (s : S) (token : IdToken) (claims : OidcClaims) (t : S)
      → verify_id_token a raw nonce s ≡ (verified token claims, t)
      → IsVouched a raw nonce token claims
  unfolding verify_id_token
  verify_id_token-IsVouched raw nonce s token claims t h =
      verify_by-IsVouched a.verifier raw nonce s token claims t refl h

  authorise_claims-IsAuthentic :
      (raw : Text) (s : S) (x : Verification × S) (name : Text) (t : S)
      → verify_id_token a raw [] s ≡ x
      → authorise_claims a x ≡ (known name, t)
      → IsAuthentic a raw name
  authorise_claims-IsAuthentic raw s (unverified e, u) name t v h = absurd (grind arith)
  authorise_claims-IsAuthentic raw s (verified token claims, u) name t v h =
      let (email, lowered, _, member) =
        authorise-IsEmail a.record_auth a.required_groups claims.email claims.groups u name t h in
      record {
        token = token;
        claims = claims;
        vouched = verify_id_token-IsVouched raw [] s token claims u v;
        email = email;
        lowered = lowered;
        member = member;
      }

  identity_from_id_token-IsAuthentic :
      (raw : Text) (s : S) (name : Text) (t : S)
      → identity_from_id_token a raw [] s ≡ (known name, t)
      → IsAuthentic a raw name
  unfolding identity_from_id_token
  identity_from_id_token-IsAuthentic raw s name t h =
      authorise_claims-IsAuthentic raw s (verify_id_token a raw [] s) name t refl h

  -- What is shown of a known identity.
  abbrev pub Authenticated : Request → S → Text → Type 0
  Authenticated r s name = (raw : Text) × Presented a r s raw × IsAuthentic a raw name

  opened_at-Authenticated :
      (r : Request) (codec : SessionCodec) (value : Text) (s : S) (o : Result SessionPayload)
      (name : Text) (t : S)
      → is_native a.auth_mode ≡ true
      → a.session ≡ some codec
      → r.cookie session_cookie_name ≡ some value
      → open_session codec value (a.host.now s).0 ≡ o
      → from_session a o (a.host.now s).1 ≡ (known name, t)
      → Authenticated r s name
  opened_at-Authenticated r codec value s (err e) name t n c v o h = absurd (grind arith)
  opened_at-Authenticated r codec value s (ok p) name t n c v o h = (
    p.id_token,
    in_session codec value p n c v o refl,
    identity_from_id_token-IsAuthentic p.id_token (a.host.now s).1 name t h,
  )

  native_identity-Authenticated :
      (r : Request) (s : S) (name : Text) (t : S)
      → is_native a.auth_mode ≡ true
      → native_identity a r s ≡ (known name, t)
      → Authenticated r s name
  unfolding native_identity
  native_identity-Authenticated r s name t n h = elim (Option-cases a.session) [
    | inl missing ↦ absurd (grind arith)
    | inr (codec, c) ↦ elim (Option-cases (r.cookie session_cookie_name)) [
      | inl missing ↦ absurd (grind arith)
      | inr (value, v) ↦
          opened_at-Authenticated r codec value s (open_session codec value (a.host.now s).0) name t
            n c v refl (grind arith)
    ]
  ]

  from_token_cookie-Authenticated :
      (r : Request) (s : S) (name : Text) (t : S)
      → is_native a.auth_mode ≡ false
      → a.id_token_source ≡ codes "cookie"
      → from_token_cookie a (r.cookie a.id_token_cookie) s ≡ (known name, t)
      → Authenticated r s name
  from_token_cookie-Authenticated r s name t n source h =
      elim (Option-cases (r.cookie a.id_token_cookie)) [
        | inl missing ↦ absurd (grind arith)
        | inr (raw, v) ↦ (
          raw,
          in_cookie n source v,
          identity_from_id_token-IsAuthentic raw s name t (grind arith),
        )
      ]

  from_token_header-Authenticated :
      (r : Request) (s : S) (name : Text) (t : S)
      → is_native a.auth_mode ≡ false
      → a.id_token_source ≢ codes "cookie"
      → from_token_header a (trim_space (r.header a.id_token_header)) s ≡ (known name, t)
      → Authenticated r s name
  from_token_header-Authenticated r s name t n source h =
      let raw = trim_space (r.header a.id_token_header) in
      elim (Bool-cases (text_eq raw [])) [
        | inl missing ↦ absurd (grind arith)
        | inr given ↦ (
          raw,
          in_header n source (λ e. grind (arith, text_eq_iff raw [])) refl,
          identity_from_id_token-IsAuthentic raw s name t (grind arith),
        )
      ]

  -- Where `identity` gives a name, the request presents an ID token, in the session cookie of native
  -- authentication, which opens and is live by the clock as it is read when the request comes in, or else in the configured cookie or header, that the
  -- configured verifier accepted, and the name is the lower-cased valid e-mail address of its claims,
  -- which belong to a required group where groups are required.
  pub identity-Authenticated :
      (r : Request) (s : S) (name : Text) (t : S)
      → identity a r s ≡ (known name, t)
      → Authenticated r s name
  unfolding identity
  identity-Authenticated r s name t h = elim (Bool-cases (is_native a.auth_mode)) [
    | inl n ↦ native_identity-Authenticated r s name t n (grind arith)
    | inr n ↦ elim (Bool-cases (text_eq a.id_token_source (codes "cookie"))) [
      | inl source ↦
          from_token_cookie-Authenticated r s name t n
            ((text_eq_iff a.id_token_source (codes "cookie")).0 source) (grind arith)
      | inr source ↦
          from_token_header-Authenticated r s name t n
            (λ e. grind (arith, text_eq_iff a.id_token_source (codes "cookie"))) (grind arith)
    ]
  ]
