-- ===== src/Cookies/States.antt =====
-- The OAuth state cookies of native authentication: `sealState` and `openState` of session.go.
use grafana_mcp_setup.Prelude.{◌≡◌, ◌≢◌, false, some, [], Text, text_eq_iff, arith, inl, inr}
use grafana_mcp_setup.Prelude.Int.{le_ℤ}
use grafana_mcp_setup.Exec.{ok, Result-cases}
use grafana_mcp_setup.Go.Time.{Time, unix}
use grafana_mcp_setup.Cookies.Crypto.{AeadLaws}
use grafana_mcp_setup.Cookies.Session.{
  SessionCodec, OauthStatePayload, state_kind, associated_data, seal_with, open_kind, open_state,
}
use grafana_mcp_setup.Cookies.Sessions.{IsSealable, open_kind-sealed}

-- A state payload that `openState` lets through.
pub record IsPending (p : OauthStatePayload) (now : Time) : Type 0 where
  pub version : p.version ≡ 1
  pub state_given : p.state ≢ []
  pub nonce_given : p.nonce ≢ []
  pub verifier_given : p.code_verifier ≢ []
  pub fresh : le_ℤ p.expires (unix now) ≡ false

module _ (c : SessionCodec) where
  pub open_state-IsPending :
      (value : Text) (now : Time) (p : OauthStatePayload)
      → open_state c value now ≡ ok p
      → (open_kind c c.states state_kind value ≡ ok p) × IsPending p now
  unfolding open_state
  open_state-IsPending value now p h = elim (Result-cases (open_kind c c.states state_kind value)) [
    | inl (q, opened) ↦
        let same : q ≡ p = ground arith in
        (
          rw (← same) opened,
          record {
            version = ground arith;
            state_given = ground (arith, text_eq_iff q.state []);
            nonce_given = ground (arith, text_eq_iff q.nonce []);
            verifier_given = ground (arith, text_eq_iff q.code_verifier []);
            fresh = ground arith;
          },
        )
    | inr (e, closed) ↦ absurd (ground arith)
  ]

module _ (c : SessionCodec) (laws : AeadLaws c.aead) where
  -- A state cookie opens, until it expires, to the payload that was sealed.
  pub open_state-seal_with :
      (nonce : Text) (p : OauthStatePayload) (value : Text) (now : Time)
      → IsSealable c laws nonce (c.states.marshal p) state_kind
      → c.states.unmarshal (c.states.marshal p) ≡ some p
      → seal_with c nonce (c.states.marshal p) state_kind ≡ ok value
      → IsPending p now
      → open_state c value now ≡ ok p
  unfolding open_state
  open_state-seal_with nonce p value now sealable kept sealed pending = ground (
    arith,
    open_kind-sealed c laws c.states nonce (c.states.marshal p) state_kind sealable value sealed
        state_kind,
    laws.open_seal nonce (c.states.marshal p) (associated_data c state_kind),
    kept,
    pending.version,
    pending.fresh,
    pending.state_given,
    pending.nonce_given,
    pending.verifier_given,
    text_eq_iff p.state [],
    text_eq_iff p.nonce [],
    text_eq_iff p.code_verifier [],
  )
