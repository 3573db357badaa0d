-- ===== src/Web/Login.antt =====
-- A login and the callback that answers it.
use grafana_mcp_setup.Prelude.{
  ℕ, ◌+◌, ◌≡◌, ◌≢◌, refl, sym, ap, ◌∙◌, inl, inr, false, ◌||◌, some, [], Text, codes, text_eq,
  text_eq_iff, text_eq_refl, length, arith, Bool-cases,
}
use grafana_mcp_setup.Prelude.Int.{le_ℤ}
use grafana_mcp_setup.Exec.{ok, Result-cases}
use grafana_mcp_setup.Go.Base64.{IsBytes}
use grafana_mcp_setup.Go.Time.{Time, unix}
use grafana_mcp_setup.Cookies.Crypto.{AeadLaws, Host}
use grafana_mcp_setup.Cookies.Session.{
  SessionCodec, OauthStatePayload, oauth_state_ttl, state_at, state_kind, associated_data,
  seal_with, open_state, seal_state,
}
use grafana_mcp_setup.Cookies.States.{open_state-seal_with}
use grafana_mcp_setup.Web.Oidc.{Oauth, Auth, Request}
use grafana_mcp_setup.Web.Response.{redirect, with_cookie, state_cookie_name, oauth_state_cookie}
use grafana_mcp_setup.Web.Native.{
  LoginStart, random_url_value, login_start, login_parameters, handle_oauth_login, exchanged,
  state_cleared, handle_oauth_callback,
}

-- What the documentation of crypto/rand, encoding/json and cipher.AEAD promises of one codec and of the
-- payload that a login seals.
pub record Environment {S : Type 0} (host : Host S) (codec : SessionCodec) (p : OauthStatePayload)
    : Type 0 where
  pub laws : AeadLaws codec.aead
  pub random_bytes :
      (n : ℕ) (s : S) (b : Text) → (host.random n s).0 ≡ ok b → IsBytes b × (length b ≡ n)
  pub nonced : codec.aead.nonce_size ≢ 0
  pub data_bytes : IsBytes (associated_data codec state_kind)
  pub json_bytes : IsBytes (codec.states.marshal p)
  pub kept : codec.states.unmarshal (codec.states.marshal p) ≡ some p

module _ {S : Type 0} (a : Auth S) (codec : SessionCodec) where
  -- When `sealState` reads the clock: behind the state, the nonce and the code verifier.
  abbrev pub login_time : S → Time
  login_time s =
      (a.host.now (random_url_value a 32 (random_url_value a 32 (random_url_value a 32 s).1).1).1).0

  abbrev pub pending_login : LoginStart → Time → OauthStatePayload
  pending_login start now = record {
    version = 1;
    state = start.state;
    nonce = start.nonce;
    code_verifier = start.code_verifier;
    expires = unix (now + oauth_state_ttl);
  }

  -- The sealed cookie of a login, under a nonce that was drawn.
  record IsStarted (start : LoginStart) (now : Time) : Type 0 where
    pub drawn : Text
    pub drawn_at : S
    pub drew : (a.host.random codec.aead.nonce_size drawn_at).0 ≡ ok drawn
    pub sealed :
        seal_with codec drawn (codec.states.marshal (pending_login start now)) state_kind
        ≡ ok start.state_cookie
    pub state_given : start.state ≢ []
    pub nonce_given : start.nonce ≢ []
    pub verifier_given : start.code_verifier ≢ []

  state_at-IsStarted :
      (start : LoginStart) (now : Time) (u : S)
      → start.state ≢ []
      → start.nonce ≢ []
      → start.code_verifier ≢ []
      → (state_at a.host codec start.state start.nonce start.code_verifier (now, u)).0
        ≡ ok start.state_cookie
      → IsStarted start now
  state_at-IsStarted start now u sg ng vg h =
      elim (Result-cases (a.host.random codec.aead.nonce_size u).0) [
        | inr (e, failed) ↦ absurd (grind arith)
        | inl (drawn, drew) ↦ record {
          drawn = drawn;
          drawn_at = u;
          drew = drew;
          sealed = grind arith;
          state_given = sg;
          nonce_given = ng;
          verifier_given = vg;
        }
      ]

  seal_state-IsStarted :
      (start : LoginStart) (s : S)
      → (seal_state a.host codec start.state start.nonce start.code_verifier s).0
        ≡ ok start.state_cookie
      → IsStarted start (a.host.now s).0
  unfolding seal_state
  seal_state-IsStarted start s h =
      elim (Bool-cases
        (text_eq start.state [] || (text_eq start.nonce [] || text_eq start.code_verifier []))) [
          | inl incomplete ↦ absurd (grind arith)
          | inr complete ↦
              state_at-IsStarted start (a.host.now s).0 (a.host.now s).1
                (λ e. grind (arith, text_eq_iff start.state []))
                (λ e. grind (arith, text_eq_iff start.nonce []))
                (λ e. grind (arith, text_eq_iff start.code_verifier [])) (grind arith)
        ]

  login_start-IsStarted :
      (s : S) (start : LoginStart)
      → (login_start a codec s).0 ≡ ok start
      → IsStarted start (login_time s)
  unfolding login_start
  login_start-IsStarted s start h = elim (Result-cases (random_url_value a 32 s).0) [
    | inr (e, failed) ↦ absurd (grind arith)
    | inl (state, e1) ↦ elim (Result-cases (random_url_value a 32 (random_url_value a 32 s).1).0) [
      | inr (e, failed) ↦ absurd (grind arith)
      | inl (nonce, e2) ↦
          let u = (random_url_value a 32 (random_url_value a 32 s).1).1 in
          elim (Result-cases (random_url_value a 32 u).0) [
            | inr (e, failed) ↦ absurd (grind arith)
            | inl (code_verifier, e3) ↦
                let v = (random_url_value a 32 u).1 in
                elim (Result-cases (seal_state a.host codec state nonce code_verifier v).0) [
                  | inr (e, failed) ↦ absurd (grind arith)
                  | inl (cookie, e4) ↦
                      let drawn : LoginStart = record {
                        state = state;
                        nonce = nonce;
                        code_verifier = code_verifier;
                        state_cookie = cookie;
                      } in
                      let same : drawn ≡ start = grind arith in
                      rw (← same) (seal_state-IsStarted drawn v e4)
                ]
          ]
    ]
  ]

  started_cookie-opens :
      (start : LoginStart) (made now : Time)
      (env : Environment a.host codec (pending_login start made))
      → IsStarted start made
      → le_ℤ (unix (made + oauth_state_ttl)) (unix now) ≡ false
      → open_state codec start.state_cookie now ≡ ok (pending_login start made)
  started_cookie-opens start made now env started fresh =
      let p = pending_login start made in
      let (bytes, sized) =
        env.random_bytes codec.aead.nonce_size started.drawn_at started.drawn started.drew in
      open_state-seal_with codec env.laws started.drawn p start.state_cookie now
        (record {
          nonce_bytes = bytes;
          nonce_length = sized;
          plain_bytes = env.json_bytes;
          data_bytes = env.data_bytes;
          nonempty = λ e. env.nonced (sym sized ∙ ap length e);
        })
        env.kept started.sealed
        (record {
          version = refl;
          state_given = started.state_given;
          nonce_given = started.nonce_given;
          verifier_given = started.verifier_given;
          fresh = fresh;
        })

  -- A login whose draws succeed sends the browser to the provider with its state and sets the state
  -- cookie; a callback that brings both back, with a code and without an error, before the cookie's ten
  -- minutes are over, exchanges that code under the login's code verifier and holds the ID token
  -- that it gets to the login's nonce.
  pub callback-login :
      (oauth : Oauth S) (s : S) (start : LoginStart) (r : Request) (s' : S)
      → Environment a.host codec (pending_login start (login_time s))
      → a.session ≡ some codec
      → a.oauth ≡ some oauth
      → (login_start a codec s).0 ≡ ok start
      → r.cookie state_cookie_name ≡ some start.state_cookie
      → r.query (codes "error") ≡ []
      → r.query (codes "state") ≡ start.state
      → r.query (codes "code") ≢ []
      → le_ℤ (unix (login_time s + oauth_state_ttl)) (unix (a.host.now s').0) ≡ false
      → ((handle_oauth_login a s).0
          ≡ with_cookie
              (oauth_state_cookie a.base_path start.state_cookie
                (a.host.now (login_start a codec s).1).0)
              (redirect 302 (oauth.auth_code_url start.state (login_parameters a start))))
        × (handle_oauth_callback a r s'
            ≡ state_cleared a (
                exchanged a codec start.nonce
                  (oauth.exchange (r.query (codes "code")) start.code_verifier (a.host.now s').1)))
  unfolding handle_oauth_login handle_oauth_callback text_eq
  callback-login oauth s start r s' env c o made cookie no_error same_state code fresh =
      let started = login_start-IsStarted s start made in
      let opens = started_cookie-opens start (login_time s) (a.host.now s').0 env started fresh in
      let complete : (text_eq start.state [] || text_eq (r.query (codes "code")) []) ≡ false =
        grind (
          arith,
          started.state_given,
          text_eq_iff start.state [],
          text_eq_iff (r.query (codes "code")) [],
        ) in
      (grind arith, grind (arith, text_eq_refl start.state))
