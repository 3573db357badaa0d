-- ===== src/Cookies/Sealed.antt =====
-- The delivery cookie of stash.go, sealed and opened.
use grafana_mcp_setup.Prelude.{
  ◌≡◌, ◌≢◌, Bool, false, Option, some, [], ◌++◌, Text, text_eq_iff, length, take, drop, ltb, arith,
  inl, inr, Option-cases,
}
use grafana_mcp_setup.Prelude.Int.{le_ℤ}
use grafana_mcp_setup.Exec.{ok, err}
use grafana_mcp_setup.Go.Base64.{IsBytes, decode, decode-encode}
use grafana_mcp_setup.Go.Time.{Time, unix, time_of_unix}
use grafana_mcp_setup.Grafana.Types.{unix_time}
use grafana_mcp_setup.Cookies.Crypto.{AeadLaws}
use grafana_mcp_setup.Cookies.Framing.{sealed-IsBytes, sealed_long, sealed_nonce, sealed_rest}
use grafana_mcp_setup.Cookies.Flash.{
  FlashCodec, FlashPayload, FlashPreparation, OpenedFlash, flash_payload, seal_prepared, accept,
  invalid, open_flash,
}

-- What the caller of `open` learns of a payload.
abbrev pub opened_of : FlashPayload → OpenedFlash
opened_of p = record {
  token = p.token;
  partial = p.partial;
  token_created = time_of_unix p.token_created;
  token_expires = unix_time p.token_expires;
}

module _ (c : FlashCodec) where
  accept-ok :
      (email : Text) (now : Time) (p : FlashPayload)
      → p.version ≡ 1
      → p.token ≢ []
      → p.email ≡ email
      → le_ℤ p.expires (unix now) ≡ false
      → accept c email now p ≡ ok (opened_of p)
  unfolding accept
  accept-ok email now p v t m fresh =
      ground (arith, text_eq_iff p.token [], text_eq_iff p.email email)

  -- The conditions under which a codec seals: bytes throughout, and a payload that JSON keeps.
  pub record IsSealable (prepared : FlashPreparation) (p : FlashPayload) : Type 0 where
    pub nonce_bytes : IsBytes prepared.nonce
    pub nonce_length : length prepared.nonce ≡ c.aead.nonce_size
    pub aad_bytes : IsBytes c.aad
    pub plain_bytes : IsBytes (c.coding.marshal p)
    pub kept : c.coding.unmarshal (c.coding.marshal p) ≡ some p

  module _ (laws : AeadLaws c.aead) (prepared : FlashPreparation) (email token : Text)
      (partial : Bool) (created : Time) (expires : Option Time)
      (sealable : IsSealable prepared
        (flash_payload prepared email token partial created expires)) where
    abbrev payload : FlashPayload
    payload = flash_payload prepared email token partial created expires

    abbrev value : Text
    value = seal_prepared c prepared email token partial created expires

    abbrev sealed : Text
    sealed = prepared.nonce ++ c.aead.seal prepared.nonce (c.coding.marshal payload) c.aad

    decode-value : decode value ≡ some sealed
    unfolding seal_prepared
    decode-value = decode-encode sealed (
        sealed-IsBytes c.aead laws prepared.nonce (c.coding.marshal payload) c.aad
          sealable.nonce_bytes sealable.nonce_length sealable.plain_bytes sealable.aad_bytes)

    abbrev plain : Text
    plain = c.coding.marshal payload

    long_enough : ltb (length sealed) c.aead.nonce_size ≡ false
    long_enough =
        sealed_long c.aead laws prepared.nonce plain c.aad sealable.nonce_bytes
          sealable.nonce_length sealable.plain_bytes sealable.aad_bytes

    nonce_part : take c.aead.nonce_size sealed ≡ prepared.nonce
    nonce_part =
        sealed_nonce c.aead laws prepared.nonce plain c.aad sealable.nonce_bytes
          sealable.nonce_length sealable.plain_bytes sealable.aad_bytes

    sealed_part : drop c.aead.nonce_size sealed ≡ c.aead.seal prepared.nonce plain c.aad
    sealed_part =
        sealed_rest c.aead laws prepared.nonce plain c.aad sealable.nonce_bytes
          sealable.nonce_length sealable.plain_bytes sealable.aad_bytes

    -- A delivery cookie opens, for the identity that it was sealed for and before it expires, to the
    -- token, the partial flag and the two times (in whole seconds) that were sealed.
    pub open_flash-seal_prepared :
        (now : Time)
        → token ≢ []
        → le_ℤ prepared.expires (unix now) ≡ false
        → open_flash c value email now ≡ ok (opened_of payload)
    unfolding open_flash
    open_flash-seal_prepared now nonempty fresh = ground (
      arith,
      decode-value,
      long_enough,
      nonce_part,
      sealed_part,
      laws.open_seal prepared.nonce plain c.aad,
      sealable.kept,
      accept-ok email now payload,
    )

    -- A delivery cookie that was sealed for one base path is invalid at any other.
    pub open_flash-other_path :
        (other : Text) (reader : Text) (now : Time)
        → c.aad ≢ other
        → open_flash (record c { aad = other }) value reader now ≡ err invalid
    unfolding open_flash
    open_flash-other_path other reader now differ = ground (
      arith,
      decode-value,
      long_enough,
      nonce_part,
      sealed_part,
      laws.open_other prepared.nonce plain c.aad other differ,
    )

  -- Why a delivery cookie was accepted.
  pub record IsGenuine (value email : Text) (now : Time) (o : OpenedFlash) : Type 0 where
    pub sealed : Text
    pub plain : Text
    pub payload : FlashPayload
    pub decodes : decode value ≡ some sealed
    pub opens :
        c.aead.open_sealed (take c.aead.nonce_size sealed) (drop c.aead.nonce_size sealed) c.aad
        ≡ some plain
    pub unmarshals : c.coding.unmarshal plain ≡ some payload
    pub version : payload.version ≡ 1
    pub identity : payload.email ≡ email
    pub nonempty : payload.token ≢ []
    pub fresh : le_ℤ payload.expires (unix now) ≡ false
    pub opened : o ≡ opened_of payload

  module _ (value email : Text) (now : Time) (o : OpenedFlash) where
    IsGenuine-payload :
        (sealed plain : Text) (payload : FlashPayload)
        → decode value ≡ some sealed
        → c.aead.open_sealed (take c.aead.nonce_size sealed) (drop c.aead.nonce_size sealed) c.aad
          ≡ some plain
        → c.coding.unmarshal plain ≡ some payload
        → accept c email now payload ≡ ok o
        → IsGenuine value email now o
    unfolding accept
    IsGenuine-payload sealed plain p d e u h = record {
      sealed = sealed;
      plain = plain;
      payload = p;
      decodes = d;
      opens = e;
      unmarshals = u;
      version = ground arith;
      identity = ground (arith, text_eq_iff p.email email);
      nonempty = ground (arith, text_eq_iff p.token []);
      fresh = ground arith;
      opened = ground arith;
    }

  -- A delivery cookie is accepted only if it decodes and opens under the codec's key and path to a
  -- payload of version 1 with a token, for the very identity that presents it, that has not
  -- expired; the result is that payload's.
  pub open_flash-IsGenuine :
      (value email : Text) (now : Time) (o : OpenedFlash)
      → open_flash c value email now ≡ ok o
      → IsGenuine value email now o
  unfolding open_flash
  open_flash-IsGenuine value email now o h = elim (Option-cases (decode value)) [
    | inl e ↦ absurd (ground arith)
    | inr (sealed, d) ↦
        elim (Option-cases (
          c.aead.open_sealed (take c.aead.nonce_size sealed) (drop c.aead.nonce_size sealed)
            c.aad)) [
              | inl e ↦ absurd (ground arith)
              | inr (plain, e) ↦ elim (Option-cases (c.coding.unmarshal plain)) [
                | inl n ↦ absurd (ground arith)
                | inr (payload, u) ↦
                    IsGenuine-payload value email now o sealed plain payload d e u (ground arith)
              ]
            ]
  ]
