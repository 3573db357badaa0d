-- ===== src/Cookies/Make.antt =====
-- `newFlashCodec` and `newSessionCodec`: the codecs of a key.
use grafana_mcp_setup.Prelude.{
  ℕ, ◌≡◌, refl, not, ◌∷◌, ◌++◌, Text, codes, length, ◌==◌, if◌then◌else◌,
}
use grafana_mcp_setup.Exec.{failure, Result, ok, err}
use grafana_mcp_setup.Config.Load.{Config}
use grafana_mcp_setup.Config.Valid.{IsLoaded, IsNative}
use grafana_mcp_setup.Cookies.Crypto.{Aead, Coding}
use grafana_mcp_setup.Cookies.Flash.{FlashPayload, FlashCodec}
use grafana_mcp_setup.Cookies.Session.{SessionPayload, OauthStatePayload, SessionCodec}

-- crypto/aes with cipher.NewGCM, crypto/sha256, and crypto/hmac of a key and a message.
pub record Primitives : Type 0 where
  pub gcm : Text → Result Aead
  pub sha256 : Text → Text
  pub hmac : Text → Text → Text

-- What crypto/aes documents: a key of 32 bytes is accepted.
pub record PrimitiveLaws (p : Primitives) : Type 0 where
  pub accepts : (key : Text) → length key ≡ 32 → (a : Aead) × (p.gcm key ≡ ok a)

module _ (primitives : Primitives) where
  abbrev pub flash_of : Coding FlashPayload → Text → ℕ → Text → Aead → FlashCodec
  flash_of coding key ttl base_path aead = record {
    aead = aead;
    coding = coding;
    mac = primitives.hmac (primitives.sha256 (key ++ codes "csrf-v1"));
    ttl = ttl;
    aad = codes "grafana-mcp-flash-v1" ++ 0 ∷ base_path;
  }

  abbrev pub flash_with : Coding FlashPayload → Text → ℕ → Text → Result Aead → Result FlashCodec
  flash_with coding key ttl base_path (err e) = err e
  flash_with coding key ttl base_path (ok aead) = ok (flash_of coding key ttl base_path aead)

  unfoldable pub new_flash_codec : Coding FlashPayload → Text → ℕ → Text → Result FlashCodec
  new_flash_codec coding key ttl base_path =
      if not (length key == 32)
      then err (failure (codes "flash cookie key must contain 32 bytes"))
      else flash_with coding key ttl base_path (primitives.gcm key)

  abbrev pub session_of :
      Coding SessionPayload → Coding OauthStatePayload → Text → Aead → SessionCodec
  session_of sessions states base_path aead = record {
    aead = aead;
    aad = codes "grafana-mcp-native-oidc-v1" ++ 0 ∷ base_path;
    sessions = sessions;
    states = states;
  }

  abbrev pub session_with :
      Coding SessionPayload → Coding OauthStatePayload → Text → Result Aead → Result SessionCodec
  session_with sessions states base_path (err e) = err e
  session_with sessions states base_path (ok aead) = ok (session_of sessions states base_path aead)

  unfoldable pub new_session_codec :
      Coding SessionPayload → Coding OauthStatePayload → Text → Text → Result SessionCodec
  new_session_codec sessions states key base_path =
      if not (length key == 32)
      then err (failure (codes "session cookie key must contain 32 bytes"))
      else session_with sessions states base_path (primitives.gcm key)

  module _ (laws : PrimitiveLaws primitives) where
    -- A configuration that was read has a key for the delivery cookie.
    flash_made :
        (coding : Coding FlashPayload) (c : Config)
        → IsLoaded c
        → (codec : FlashCodec) × (new_flash_codec coding c.flash_cookie_key c.flash_ttl c.base_path
            ≡ ok codec)
    unfolding new_flash_codec
    flash_made coding c is_loaded =
        let (aead, accepted) = laws.accepts c.flash_cookie_key is_loaded.flash_key in
        (
          flash_of coding c.flash_cookie_key c.flash_ttl c.base_path aead,
          rw (is_loaded.flash_key, accepted) refl,
        )

    -- With native authentication it has one for the session cookie, too.
    session_made :
        (sessions : Coding SessionPayload) (states : Coding OauthStatePayload) (c : Config)
        → IsNative c
        → (codec : SessionCodec) × (new_session_codec sessions states c.session_cookie_key
              c.base_path
            ≡ ok codec)
    unfolding new_session_codec
    session_made sessions states c is_native =
        let (aead, accepted) = laws.accepts c.session_cookie_key is_native.key in
        (session_of sessions states c.base_path aead, rw (is_native.key, accepted) refl)
