-- ===== src/Cookies/Crypto.antt =====
-- What the codecs take from crypto/cipher, crypto/hmac and encoding/json, and from the machine.
use grafana_mcp_setup.Prelude.{ℕ, ◌≡◌, ◌≢◌, Option, none, some, Text}
use grafana_mcp_setup.Exec.{Exec}
use grafana_mcp_setup.Go.Time.{Time}
use grafana_mcp_setup.Go.Base64.{IsBytes}

-- The clock and the random source.
pub record Host (S : Type 0) : Type 0 where
  pub now : S → Time × S
  pub random : ℕ → Exec S Text

-- cipher.AEAD under one key: nonce, text and associated data.
pub record Aead : Type 0 where
  pub nonce_size : ℕ
  pub seal : Text → Text → Text → Text
  pub open_sealed : Text → Text → Text → Option Text

-- What the documentation of cipher.AEAD and of GCM promises of bytes: `Seal` yields bytes, which
-- `Open` takes back to the text under the same nonce and data, and under no other data.
pub record AeadLaws (a : Aead) : Type 0 where
  pub seal_bytes :
      (nonce plain aad : Text) → IsBytes plain → IsBytes aad → IsBytes (a.seal nonce plain aad)
  pub open_seal :
      (nonce plain aad : Text) → a.open_sealed nonce (a.seal nonce plain aad) aad ≡ some plain
  pub open_other :
      (nonce plain aad other : Text)
      → aad ≢ other
      → a.open_sealed nonce (a.seal nonce plain aad) other ≡ none

-- json.Marshal and json.Unmarshal at one type of payload.
pub record Coding {ℓ} (P : Type ℓ) : Type ℓ where
  pub marshal : P → Text
  pub unmarshal : Text → Option P
