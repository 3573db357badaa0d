-- ===== src/Cookies/Sessions.antt =====
-- The cookies of native authentication (session.go), and their kinds.
use grafana_mcp_setup.Prelude.{
  ◌≤◌, ◌≡◌, ◌≢◌, false, some, [], ◌∷◌, ◌++◌, Text, text_eq, text_eq_iff, length, ltb, arith, inl,
  inr, append-ne-nil, append_cancel,
}
use grafana_mcp_setup.Prelude.Int.{le_ℤ}
use grafana_mcp_setup.Exec.{ok, err, Result-cases}
use grafana_mcp_setup.Go.Base64.{IsBytes, encode, decode, decode-encode, encode-ne-nil}
use grafana_mcp_setup.Go.Time.{Time, unix}
use grafana_mcp_setup.Cookies.Crypto.{AeadLaws, Coding}
use grafana_mcp_setup.Cookies.Framing.{sealed-IsBytes, sealed_long, sealed_nonce, sealed_rest}
use grafana_mcp_setup.Cookies.Session.{
  SessionCodec, SessionPayload, max_session_cookie, session_kind, associated_data, seal_with,
  open_kind, open_session, invalid, decoded,
}

module _ (c : SessionCodec) (laws : AeadLaws c.aead) where
  -- The bytes that a codec seals, under a nonce of the right length.
  pub record IsSealable (nonce plain kind : Text) : Type 0 where
    pub nonce_bytes : IsBytes nonce
    pub nonce_length : length nonce ≡ c.aead.nonce_size
    pub plain_bytes : IsBytes plain
    pub data_bytes : IsBytes (associated_data c kind)
    pub nonempty : nonce ≢ []

  module _ {P : Type 0} (coding : Coding P) (nonce plain kind : Text)
      (sealable : IsSealable nonce plain kind) (value : Text)
      (sealed : seal_with c nonce plain kind ≡ ok value) where
    abbrev raw : Text
    raw = nonce ++ c.aead.seal nonce plain (associated_data c kind)

    value-eq : value ≡ encode raw
    unfolding seal_with
    value-eq = ground arith

    value-fits : ltb max_session_cookie (length value) ≡ false
    unfolding seal_with
    value-fits = ground arith

    decode-value : decode value ≡ some raw
    decode-value = rw value-eq (
        decode-encode raw (
          sealed-IsBytes c.aead laws nonce plain (associated_data c kind) sealable.nonce_bytes
            sealable.nonce_length sealable.plain_bytes sealable.data_bytes))

    value-nonempty : text_eq value [] ≡ false
    value-nonempty = ground (
      arith,
      value-eq,
      text_eq_iff value [],
      encode-ne-nil raw (append-ne-nil nonce _ sealable.nonempty),
    )

    -- Opening under any kind comes down to the AEAD.
    pub open_kind-sealed :
        (other : Text)
        → open_kind c coding other value
          ≡ decoded c coding (
              c.aead.open_sealed nonce
                (c.aead.seal nonce plain (associated_data c kind))
                (associated_data c other))
    unfolding open_kind
    open_kind-sealed other = ground (
      arith,
      value-fits,
      value-nonempty,
      decode-value,
      sealed_long c.aead laws nonce plain (associated_data c kind) sealable.nonce_bytes
          sealable.nonce_length sealable.plain_bytes sealable.data_bytes,
      sealed_nonce c.aead laws nonce plain (associated_data c kind) sealable.nonce_bytes
          sealable.nonce_length sealable.plain_bytes sealable.data_bytes,
      sealed_rest c.aead laws nonce plain (associated_data c kind) sealable.nonce_bytes
          sealable.nonce_length sealable.plain_bytes sealable.data_bytes,
    )

  -- A session cookie opens, until it expires, to the payload that was sealed.
  pub open_session-seal_with :
      (nonce : Text) (p : SessionPayload) (value : Text) (now : Time)
      → IsSealable nonce (c.sessions.marshal p) session_kind
      → c.sessions.unmarshal (c.sessions.marshal p) ≡ some p
      → seal_with c nonce (c.sessions.marshal p) session_kind ≡ ok value
      → p.version ≡ 1
      → p.id_token ≢ []
      → le_ℤ p.expires (unix now) ≡ false
      → open_session c value now ≡ ok p
  unfolding open_session
  open_session-seal_with nonce p value now sealable kept sealed v t fresh = ground (
    arith,
    open_kind-sealed c.sessions nonce (c.sessions.marshal p) session_kind sealable value sealed
        session_kind,
    laws.open_seal nonce (c.sessions.marshal p) (associated_data c session_kind),
    kept,
    text_eq_iff p.id_token [],
  )

  -- What was sealed as one kind, such as a session, is invalid as any other, such as an OAuth state.
  pub kinds_apart :
      {P : Type 0} (coding : Coding P) (nonce plain kind other value : Text)
      → IsSealable nonce plain kind
      → seal_with c nonce plain kind ≡ ok value
      → kind ≢ other
      → open_kind c coding other value ≡ err invalid
  kinds_apart coding nonce plain kind other value sealable sealed differ = rw (
    open_kind-sealed coding nonce plain kind sealable value sealed other,
    laws.open_other nonce plain (associated_data c kind) (associated_data c other)
        (λ e. differ (ground (arith, append_cancel c.aad (0 ∷ kind) (0 ∷ other) e))),
  )

-- Why a session cookie was accepted.
pub record IsLive (c : SessionCodec) (value : Text) (now : Time) (p : SessionPayload) : Type 0 where
  pub short : length value ≤ max_session_cookie
  pub opened : open_kind c c.sessions session_kind value ≡ ok p
  pub version : p.version ≡ 1
  pub nonempty : p.id_token ≢ []
  pub fresh : le_ℤ p.expires (unix now) ≡ false

module _ (c : SessionCodec) where
  open_kind-short :
      {P : Type 0} (coding : Coding P) (kind value : Text) (p : P)
      → open_kind c coding kind value ≡ ok p
      → length value ≤ max_session_cookie
  unfolding open_kind
  open_kind-short coding kind value p h = ground arith

  -- A session is accepted only from a cookie of at most 3800 bytes that opens as a session, to a
  -- payload of version 1 with an ID token, before it expires.
  pub open_session-IsLive :
      (value : Text) (now : Time) (p : SessionPayload)
      → open_session c value now ≡ ok p
      → IsLive c value now p
  unfolding open_session
  open_session-IsLive value now p h =
      elim (Result-cases (open_kind c c.sessions session_kind value)) [
        | inl (q, opened) ↦
            let same : q ≡ p = ground arith in
            record {
              short = open_kind-short c.sessions session_kind value q opened;
              opened = rw (← same) opened;
              version = ground arith;
              nonempty = ground (arith, text_eq_iff q.id_token []);
              fresh = ground arith;
            }
        | inr (e, closed) ↦ absurd (ground arith)
      ]
