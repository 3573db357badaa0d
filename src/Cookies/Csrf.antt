-- ===== src/Cookies/Csrf.antt =====
-- The CSRF token of stash.go, and the identity that it is for.
use grafana_mcp_setup.Prelude.{
  ℕ, ◌+◌, ◌^◌, ◌<◌, ◌≡◌, ◌≢◌, refl, sym, ◌∙◌, false, Option, none, some, List, [], ◌∷◌, ◌++◌,
  append_assoc, Text, text_eq_iff, text_eq_refl, arith, inl, inr, Option-cases, append_cancel_right,
}
use grafana_mcp_setup.Prelude.Int.{ℤ, pos, le_ℤ}
use grafana_mcp_setup.Exec.{ok, Result-cases}
use grafana_mcp_setup.Go.Base64.{IsBytes, encode, decode, decode-encode, encode-NoDot}
use grafana_mcp_setup.Go.Strings.{split, split-part, split-last}
use grafana_mcp_setup.Go.Strconv.{format_int, parse_int, parse_int-format_int, format_int-NoDot}
use grafana_mcp_setup.Go.Time.{Time, unix}
use grafana_mcp_setup.Cookies.Crypto.{Host}
use grafana_mcp_setup.Cookies.Flash.{
  FlashCodec, csrf_message, csrf, csrf_token, unexpired, validate_csrf, check_parts,
}

abbrev pub payload_of : ℕ → Text → Text
payload_of expires nonce = format_int (pos expires) ++ (b'.' ∷ encode nonce)

-- The value that `csrf` builds, in three parts.
abbrev pub token_of : FlashCodec → Text → ℕ → Text → Text
token_of c email expires nonce =
    format_int (pos expires)
    ++ (b'.'
        ∷ (encode nonce ++ (b'.' ∷ encode (c.mac (csrf_message email (payload_of expires nonce))))))

module _ (c : FlashCodec) where
  split-token_of :
      (email nonce : Text) (expires : ℕ)
      → split b'.' (token_of c email expires nonce)
        ≡ format_int (pos expires)
          ∷ encode nonce
          ∷ encode (c.mac (csrf_message email (payload_of expires nonce)))
          ∷ []
  split-token_of email nonce expires =
      rw (split-part b'.' (format_int (pos expires)) _ (format_int-NoDot (pos expires))) (
        rw (split-part b'.' (encode nonce) _ (encode-NoDot nonce))
          (rw (split-last b'.' _ (encode-NoDot _)) refl))

  validate_csrf-token_of :
      (email nonce : Text) (expires : ℕ) (now : Time)
      → expires < 2 ^ 63
      → IsBytes (c.mac (csrf_message email (payload_of expires nonce)))
      → le_ℤ (pos expires) (unix now) ≡ false
      → validate_csrf c (token_of c email expires nonce) email now ≡ ok tt
  unfolding validate_csrf
  validate_csrf-token_of email nonce expires now small bytes fresh =
      rw (split-token_of email nonce expires) (
        ground (
          arith,
          parse_int-format_int expires small,
          decode-encode (c.mac (csrf_message email (payload_of expires nonce))) bytes,
          text_eq_refl (c.mac (csrf_message email (payload_of expires nonce))),
        ))

  csrf_token-eq :
      (email nonce : Text) (expires : ℕ)
      → csrf_token c email (payload_of expires nonce) ≡ token_of c email expires nonce
  csrf_token-eq email nonce expires = append_assoc (format_int (pos expires)) _ _

  -- The token that `csrf` returns is valid for the identity that it was made for, at every time
  -- before its expiry, which is the codec's lifetime after the time that `csrf` read.
  pub validate-csrf :
      {S : Type 0} (host : Host S) (s : S) (email value : Text) (expires : ℕ) (now : Time)
      → ((m : Text) → IsBytes (c.mac m))
      → (csrf host c email s).0 ≡ ok value
      → unix ((host.now (host.random 16 s).1).0 + c.ttl) ≡ pos expires
      → expires < 2 ^ 63
      → le_ℤ (pos expires) (unix now) ≡ false
      → validate_csrf c value email now ≡ ok tt
  unfolding csrf
  validate-csrf host s email value expires now bytes made at_time small fresh =
      elim (Result-cases (host.random 16 s).0) [
        | inl (nonce, drawn) ↦
            let same : value ≡ token_of c email expires nonce =
              ground (arith, csrf_token-eq email nonce expires) in
            rw same (validate_csrf-token_of email nonce expires now small (bytes _) fresh)
        | inr (e, failed) ↦ absurd (ground arith)
      ]

  -- What an accepted token has shown.
  pub record IsAuthentic (value email : Text) (now : Time) : Type 0 where
    pub first : Text
    pub second : Text
    pub code : Text
    pub expires : ℤ
    pub parts : split b'.' value ≡ first ∷ second ∷ code ∷ []
    pub parses : parse_int first ≡ some expires
    pub fresh : le_ℤ expires (unix now) ≡ false
    pub authentic : decode code ≡ some (c.mac (csrf_message email (first ++ (b'.' ∷ second))))

  unexpired-IsAuthentic :
      (value email first second code : Text) (now : Time) (e : Option ℤ)
      → split b'.' value ≡ first ∷ second ∷ code ∷ []
      → parse_int first ≡ e
      → unexpired c email now first second code e ≡ ok tt
      → IsAuthentic value email now
  unexpired-IsAuthentic value email first second code now none p q h = cc
  unexpired-IsAuthentic value email first second code now (some expires) p q h = record {
    first = first;
    second = second;
    code = code;
    expires = expires;
    parts = p;
    parses = q;
    fresh = ground arith;
    authentic = elim (Option-cases (decode code)) [
      | inl e ↦ absurd (ground arith)
      | inr (got, d) ↦
          ground (arith, text_eq_iff got (c.mac (csrf_message email (first ++ (b'.' ∷ second)))))
    ];
  }

  parts-IsAuthentic :
      (value email : Text) (now : Time) (parts : List Text)
      → split b'.' value ≡ parts
      → check_parts c email now parts ≡ ok tt
      → IsAuthentic value email now
  parts-IsAuthentic value email now (first ∷ second ∷ code ∷ []) p h =
      unexpired-IsAuthentic value email first second code now (parse_int first) p refl h
  parts-IsAuthentic value email now _ p h = cc

  validate_csrf-IsAuthentic :
      (value email : Text) (now : Time)
      → validate_csrf c value email now ≡ ok tt
      → IsAuthentic value email now
  unfolding validate_csrf
  validate_csrf-IsAuthentic value email now h =
      parts-IsAuthentic value email now (split b'.' value) refl h

  -- A value that is a valid CSRF token of two distinct identities, whenever it is presented, exhibits
  -- two distinct messages with the same authentication code.
  pub validate_csrf-collision :
      (value email other : Text) (now later : Time)
      → validate_csrf c value email now ≡ ok tt
      → validate_csrf c value other later ≡ ok tt
      → email ≢ other
      → (m : Text) × (n : Text) × (m ≢ n) × (c.mac m ≡ c.mac n)
  validate_csrf-collision value email other now later h k differ =
      let a = validate_csrf-IsAuthentic value email now h in
      let b = validate_csrf-IsAuthentic value other later k in
      let parts = sym a.parts ∙ b.parts in
      let payload = a.first ++ (b'.' ∷ a.second) in
      (
        csrf_message email payload,
        csrf_message other payload,
        (λ e. differ (append_cancel_right email other (0 ∷ payload) e)),
        cc (parts, a.authentic, b.authentic),
      )
