-- ===== src/Cookies/Session.antt =====
-- session.go: the session and OAuth state cookies of native authentication.
use grafana_mcp_setup.Prelude.{
  ℕ, ◌+◌, ◌*◌, ◌||◌, not, Option, none, some, [], ◌∷◌, ◌++◌, Text, codes, text_eq, length, take,
  drop, ltb, ◌==◌, if◌then◌else◌,
}
use grafana_mcp_setup.Prelude.Int.{ℤ, le_ℤ}
use grafana_mcp_setup.Exec.{Error, failure, Result, ok, err, Exec, raise, lift, ◌>>=◌}
use grafana_mcp_setup.Go.Base64
use grafana_mcp_setup.Go.Time.{Time, second, unix}
use grafana_mcp_setup.Cookies.Crypto.{Host, Aead, Coding}

pub record SessionPayload : Type 0 where
  pub version : ℕ
  pub id_token : Text
  pub expires : ℤ

pub record OauthStatePayload : Type 0 where
  pub version : ℕ
  pub state : Text
  pub nonce : Text
  pub code_verifier : Text
  pub expires : ℤ

-- type sessionCodec, its clock and random source apart.
pub record SessionCodec : Type 0 where
  pub aead : Aead
  pub aad : Text
  pub sessions : Coding SessionPayload
  pub states : Coding OauthStatePayload

-- `oauthStateTTL` and `maxSessionCookie`
abbrev pub oauth_state_ttl : ℕ
oauth_state_ttl = 600 * second

abbrev pub max_session_cookie : ℕ
max_session_cookie = 3800

abbrev pub session_aad : Text → Text
session_aad base_path = codes "grafana-mcp-native-oidc-v1" ++ (0 ∷ base_path)

abbrev pub session_kind : Text
session_kind = codes "session"

abbrev pub state_kind : Text
state_kind = codes "oauth-state"

abbrev pub too_large : Error
too_large = failure (codes "native session exceeds the cookie size limit")

abbrev pub invalid : Error
invalid = failure (codes "invalid native session cookie")

module _ (c : SessionCodec) where
  -- `associatedData`
  abbrev pub associated_data : Text → Text
  associated_data kind = c.aad ++ (0 ∷ kind)

  abbrev pub within_limit : Text → Result Text
  within_limit encoded =
      if ltb max_session_cookie (length encoded) then err too_large else ok encoded

  -- The value of `seal` once its nonce is there.
  unfoldable pub seal_with : Text → Text → Text → Result Text
  seal_with nonce payload kind =
      within_limit (Base64.encode (nonce ++ c.aead.seal nonce payload (associated_data kind)))

  abbrev pub decoded {ℓ} : {P : Type ℓ} → Coding P → Option Text → Result P
  decoded coding none = err invalid
  decoded coding (some plain) = elim (coding.unmarshal plain) [ none ↦ err invalid | some p ↦ ok p ]

  abbrev pub open_bytes {ℓ} : {P : Type ℓ} → Coding P → Text → Option Text → Result P
  open_bytes coding kind none = err invalid
  open_bytes coding kind (some sealed) =
      if ltb (length sealed) c.aead.nonce_size
      then err invalid
      else decoded coding (
          c.aead.open_sealed (take c.aead.nonce_size sealed) (drop c.aead.nonce_size sealed)
            (associated_data kind))

  -- `open`
  unfoldable pub open_kind {ℓ} : {P : Type ℓ} → Coding P → Text → Text → Result P
  open_kind coding kind value =
      if text_eq value [] || ltb max_session_cookie (length value)
      then err invalid
      else open_bytes coding kind (Base64.decode value)

  abbrev pub fresh_session : Time → Result SessionPayload → Result SessionPayload
  fresh_session now (err e) = err e
  fresh_session now (ok p) =
      if not (p.version == 1) || (text_eq p.id_token [] || le_ℤ p.expires (unix now))
      then err (failure (codes "native session expired or invalid"))
      else ok p

  unfoldable pub open_session : Text → Time → Result SessionPayload
  open_session value now = fresh_session now (open_kind c.sessions session_kind value)

  abbrev pub fresh_state : Time → Result OauthStatePayload → Result OauthStatePayload
  fresh_state now (err e) = err e
  fresh_state now (ok p) =
      if not (p.version == 1)
        || (text_eq p.state []
            || (text_eq p.nonce [] || (text_eq p.code_verifier [] || le_ℤ p.expires (unix now))))
      then err (failure (codes "native OAuth state expired or invalid"))
      else ok p

  unfoldable pub open_state : Text → Time → Result OauthStatePayload
  open_state value now = fresh_state now (open_kind c.states state_kind value)

module _ {S : Type 0} (host : Host S) (c : SessionCodec) where
  abbrev pub seal : Text → Text → Exec S Text
  seal payload kind = do
    nonce ← host.random c.aead.nonce_size
    lift (seal_with c nonce payload kind)

  -- `expires.IsZero()` is the zero time.
  unfoldable pub seal_session : Text → Time → Exec S Text
  seal_session id_token expires =
      if text_eq id_token [] || expires == 0
      then raise (failure (codes "native session is incomplete"))
      else seal
          (c.sessions.marshal (record { version = 1; id_token = id_token; expires = unix expires }))
          session_kind

  abbrev pub state_at : Text → Text → Text → Time × S → Result Text × S
  state_at state nonce code_verifier (now, s) =
      seal
        (c.states.marshal (record {
          version = 1;
          state = state;
          nonce = nonce;
          code_verifier = code_verifier;
          expires = unix (now + oauth_state_ttl);
        }))
        state_kind s

  unfoldable pub seal_state : Text → Text → Text → Exec S Text
  seal_state state nonce code_verifier s =
      if text_eq state [] || (text_eq nonce [] || text_eq code_verifier [])
      then raise (failure (codes "native OAuth state is incomplete")) s
      else state_at state nonce code_verifier (host.now s)
