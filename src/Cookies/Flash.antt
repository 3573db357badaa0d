-- ===== src/Cookies/Flash.antt =====
-- stash.go: the delivery cookie and the CSRF token.
use grafana_mcp_setup.Prelude.{
  ℕ, ◌+◌, Bool, false, ◌||◌, not, Option, none, some, List, [], ◌∷◌, ◌++◌, Text, codes, text_eq,
  length, take, drop, ltb, ◌==◌, if◌then◌else◌,
}
use grafana_mcp_setup.Prelude.Int.{ℤ, pos, le_ℤ}
use grafana_mcp_setup.Exec.{Error, failure, Result, ok, err, Exec, pure, ◌>>=◌}
use grafana_mcp_setup.Go.Strings.{split}
use grafana_mcp_setup.Go.Strconv.{format_int, parse_int}
use grafana_mcp_setup.Go.Base64
use grafana_mcp_setup.Go.Time.{Time, unix, time_of_unix}
use grafana_mcp_setup.Grafana.Types.{unix_time}
use grafana_mcp_setup.Cookies.Crypto.{Host, Aead, Coding}

pub record FlashPayload : Type 0 where
  pub version : ℕ
  pub email : Text
  pub token : Text
  pub expires : ℤ
  pub token_created : ℤ
  pub token_expires : ℤ
  pub partial : Bool

-- type flashCodec, its clock and random source apart; `mac` is HMAC-SHA256 under `csrfKey`.
pub record FlashCodec : Type 0 where
  pub aead : Aead
  pub coding : Coding FlashPayload
  pub mac : Text → Text
  pub ttl : ℕ
  pub aad : Text

pub record FlashPreparation : Type 0 where
  pub nonce : Text
  pub expires : ℤ

pub record OpenedFlash : Type 0 where
  pub token : Text
  pub partial : Bool
  pub token_created : Time
  pub token_expires : Option Time

pub record DeliveryPreparation : Type 0 where
  pub success : FlashPreparation
  pub partial : FlashPreparation

-- The associated data of `newFlashCodec`: the name of the format, a zero byte and the base path.
abbrev pub flash_aad : Text → Text
flash_aad base_path = codes "grafana-mcp-flash-v1" ++ (0 ∷ base_path)

-- What the CSRF token's code authenticates: the identity, a zero byte and the first two parts.
abbrev pub csrf_message : Text → Text → Text
csrf_message email payload = email ++ (0 ∷ payload)

abbrev pub csrf_token : FlashCodec → Text → Text → Text
csrf_token c email payload = payload ++ (b'.' ∷ Base64.encode (c.mac (csrf_message email payload)))

module _ {S : Type 0} (host : Host S) (c : FlashCodec) where
  abbrev pub clock : Exec S Time
  clock s = let (t, s') = host.now s in (ok t, s')

  unfoldable pub prepare : Exec S FlashPreparation
  prepare = do
    nonce ← host.random c.aead.nonce_size
    now ← clock
    pure (record { nonce = nonce; expires = unix (now + c.ttl) })

  unfoldable pub prepare_delivery : Exec S DeliveryPreparation
  prepare_delivery = do
    success ← prepare
    partial ← prepare
    pure (record { success = success; partial = partial })

  unfoldable pub csrf : Text → Exec S Text
  csrf email = do
    nonce ← host.random 16
    now ← clock
    pure (csrf_token c email (format_int (unix (now + c.ttl)) ++ (b'.' ∷ Base64.encode nonce)))

abbrev pub unix_or_zero : Option Time → ℤ
unix_or_zero none = pos 0
unix_or_zero (some t) = unix t

abbrev pub flash_payload : FlashPreparation → Text → Text → Bool → Time → Option Time → FlashPayload
flash_payload prepared email token partial created token_expires = record {
  version = 1;
  email = email;
  token = token;
  expires = prepared.expires;
  token_created = unix created;
  token_expires = unix_or_zero token_expires;
  partial = partial;
}

abbrev pub invalid : Error
invalid = failure (codes "invalid flash cookie")

module _ (c : FlashCodec) where
  unfoldable pub seal_prepared : FlashPreparation → Text → Text → Bool → Time → Option Time → Text
  seal_prepared prepared email token partial created token_expires = Base64.encode (
      prepared.nonce
      ++ c.aead.seal prepared.nonce
          (c.coding.marshal (flash_payload prepared email token partial created token_expires))
          c.aad)

  -- The tests of `open` on what was sealed, in their order.
  unfoldable pub accept : Text → Time → FlashPayload → Result OpenedFlash
  accept email now payload =
      if not (payload.version == 1)
        || (text_eq payload.token [] || not (text_eq payload.email email))
      then err (failure (codes "flash cookie belongs to another identity"))
      else if le_ℤ payload.expires (unix now)
      then err (failure (codes "flash cookie expired"))
      else ok (record {
        token = payload.token;
        partial = payload.partial;
        token_created = time_of_unix payload.token_created;
        token_expires = unix_time payload.token_expires;
      })

  abbrev pub accept_decoded : Text → Time → Option FlashPayload → Result OpenedFlash
  accept_decoded email now none = err invalid
  accept_decoded email now (some payload) = accept email now payload

  abbrev pub accept_plain : Text → Time → Option Text → Result OpenedFlash
  accept_plain email now none = err invalid
  accept_plain email now (some plain) = accept_decoded email now (c.coding.unmarshal plain)

  abbrev pub accept_sealed : Text → Time → Option Text → Result OpenedFlash
  accept_sealed email now none = err invalid
  accept_sealed email now (some sealed) =
      if ltb (length sealed) c.aead.nonce_size
      then err invalid
      else accept_plain email now
          (c.aead.open_sealed (take c.aead.nonce_size sealed) (drop c.aead.nonce_size sealed) c.aad)

  -- `open`, of a cookie's value and the identity that presents it, at the time `now`.
  unfoldable pub open_flash : Text → Text → Time → Result OpenedFlash
  open_flash value email now = accept_sealed email now (Base64.decode value)

  abbrev pub same_mac : Text → Text → Option Text → Result (Unit {0})
  same_mac email payload none = err (failure (codes "invalid CSRF token"))
  same_mac email payload (some got) =
      if text_eq got (c.mac (csrf_message email payload))
      then ok tt
      else err (failure (codes "invalid CSRF token"))

  abbrev pub unexpired : Text → Time → Text → Text → Text → Option ℤ → Result (Unit {0})
  unexpired email now first second code none = err (failure (codes "expired CSRF token"))
  unexpired email now first second code (some exp) =
      if le_ℤ exp (unix now)
      then err (failure (codes "expired CSRF token"))
      else same_mac email (first ++ (b'.' ∷ second)) (Base64.decode code)

  abbrev pub check_parts : Text → Time → List Text → Result (Unit {0})
  check_parts email now (first ∷ second ∷ code ∷ []) =
      unexpired email now first second code (parse_int first)
  check_parts email now _ = err (failure (codes "invalid CSRF token"))

  unfoldable pub validate_csrf : Text → Text → Time → Result (Unit {0})
  validate_csrf value email now = check_parts email now (split b'.' value)

module _ {S : Type 0} (host : Host S) (c : FlashCodec) where
  -- `seal`, which reads the clock twice.
  unfoldable pub seal : Text → Text → Exec S Text
  seal email token = do
    prepared ← prepare host c
    now ← clock host c
    pure (seal_prepared c prepared email token false now none)
