-- ===== src/Cookies/Framing.antt =====
-- A nonce in front of what was sealed under it, as both codecs write it, and its two slices.
use grafana_mcp_setup.Prelude.{
  ◌≡◌, false, Text, ◌++◌, length, length-append, take, drop, take-append, drop-append, All-append,
  ltb, arith,
}
use grafana_mcp_setup.Go.Base64.{IsBytes}
use grafana_mcp_setup.Cookies.Crypto.{Aead, AeadLaws}

-- The sealed bytes behind their nonce, and what the two slices of them are.
module _ (a : Aead) (laws : AeadLaws a) (nonce plain aad : Text) (nonce_bytes : IsBytes nonce)
    (nonce_length : length nonce ≡ a.nonce_size) (plain_bytes : IsBytes plain)
    (aad_bytes : IsBytes aad) where
  abbrev pub sealed_text : Text
  sealed_text = nonce ++ a.seal nonce plain aad

  pub sealed-IsBytes : IsBytes sealed_text
  sealed-IsBytes =
      All-append _ nonce _ nonce_bytes (laws.seal_bytes nonce plain aad plain_bytes aad_bytes)

  pub sealed_long : ltb (length sealed_text) a.nonce_size ≡ false
  sealed_long = ground (arith, length-append nonce (a.seal nonce plain aad))

  pub sealed_nonce : take a.nonce_size sealed_text ≡ nonce
  sealed_nonce = rw (← nonce_length) (take-append nonce _)

  pub sealed_rest : drop a.nonce_size sealed_text ≡ a.seal nonce plain aad
  sealed_rest = rw (← nonce_length) (drop-append nonce _)
