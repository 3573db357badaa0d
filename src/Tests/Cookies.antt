-- ===== src/Tests/Cookies.antt =====
-- The codecs with a transparent cipher, which writes the associated data in front of the text.
use grafana_mcp_setup.Prelude.{
  ◌+◌, ◌*◌, ℕ, ◌≡◌, ◌≢◌, refl, false, ◌&&◌, Option, none, some, [], ◌∷◌, ◌++◌, Text, codes,
  text_eq_refl, ◌==◌, ==_iff, if◌then◌else◌, arith, All-append,
}
use grafana_mcp_setup.Prelude.Int.{pos, le_ℤ}
use grafana_mcp_setup.Exec.{ok, err}
use grafana_mcp_setup.Go.Base64.{IsBytes, encode, decode}
use grafana_mcp_setup.Go.Strconv.{format_int, format_nat, parse_int}
use grafana_mcp_setup.Go.Strings.{split}
use grafana_mcp_setup.Go.Time.{Time, unix, second, unix_epoch}
use grafana_mcp_setup.Cookies.Crypto.{Host, Aead, AeadLaws}
use grafana_mcp_setup.Cookies.Flash.{
  FlashCodec, FlashPayload, FlashPreparation, flash_payload, seal_prepared, open_flash, csrf,
  validate_csrf,
}
use grafana_mcp_setup.Cookies.Sealed.{
  opened_of, IsSealable, open_flash-seal_prepared, IsGenuine, open_flash-IsGenuine,
}
use grafana_mcp_setup.Cookies.Session.{
  SessionCodec, SessionPayload, OauthStatePayload, session_kind, state_kind, seal_with, open_kind,
  open_session,
}
use grafana_mcp_setup.Cookies.Session
use grafana_mcp_setup.Cookies.Sessions
use grafana_mcp_setup.Cookies.Sessions.{
  open_session-seal_with, kinds_apart, open_session-IsLive, IsLive,
}
use grafana_mcp_setup.Cookies.Csrf.{validate-csrf, validate_csrf-collision}

unfoldable pub frame : Text → Text
frame [] = 0 ∷ []
frame (x ∷ d) = 1 ∷ x ∷ frame d

unfoldable pub unframe : Text → Text → Option Text
unframe [] (x ∷ c) = if x == 0 then some c else none
unframe (y ∷ d) (x ∷ z ∷ c) = let rest = unframe d c in if x == 1 && z == y then rest else none
unframe _ _ = none

abbrev pub transparent : Aead
transparent = record {
  nonce_size = 1;
  seal = λ nonce plain aad. frame aad ++ plain;
  open_sealed = λ nonce text aad. unframe aad text;
}

frame-IsBytes : (d : Text) → IsBytes d → IsBytes (frame d)
unfolding frame
frame-IsBytes [] h = ground arith
frame-IsBytes (x ∷ d) h = (omega arith, (h.0, frame-IsBytes d h.1))

unframe-frame : (d plain : Text) → unframe d (frame d ++ plain) ≡ some plain
unfolding frame unframe
unframe-frame [] plain = refl
unframe-frame (x ∷ d) plain = grind (arith, unframe-frame d plain)

unframe-other : (d other plain : Text) → d ≢ other → unframe other (frame d ++ plain) ≡ none
unfolding frame unframe
unframe-other [] [] plain h = absurd (h refl)
unframe-other [] (y ∷ other) [] h = refl
unframe-other [] (y ∷ other) (c ∷ plain) h = refl
unframe-other (x ∷ d) [] plain h = refl
unframe-other (x ∷ d) (y ∷ other) plain h = grind (arith, unframe-other d other plain, ==_iff x y)

pub transparent-laws : AeadLaws transparent
transparent-laws = record {
  seal_bytes = λ nonce plain aad p q. All-append _ (frame aad) plain (frame-IsBytes aad q) p;
  open_seal = λ nonce plain aad. unframe-frame aad plain;
  open_other = λ nonce plain aad other h. unframe-other aad other plain h;
}

abbrev ann : Text
ann = codes "ann@example.com"

abbrev bob : Text
bob = codes "bob@example.com"

abbrev secret : Text
secret = codes "glsa_1"

-- Seconds after 1970.
abbrev at_second : ℕ → Time
at_second n = (unix_epoch + n) * second

abbrev prepared : FlashPreparation
prepared = record { nonce = 9 ∷ []; expires = pos 100 }

abbrev delivery : FlashPayload
delivery = flash_payload prepared ann secret false (at_second 10) none

abbrev flash_codec : FlashCodec
flash_codec = record {
  aead = transparent;
  coding = record { marshal = λ p. 1 ∷ []; unmarshal = λ t. some delivery };
  mac = λ m. 7 ∷ [];
  ttl = 60 * second;
  aad = codes "/mcp";
}

delivery-IsSealable : IsSealable flash_codec prepared delivery
delivery-IsSealable = record {
  nonce_bytes = ground arith;
  nonce_length = refl;
  aad_bytes = ground arith;
  plain_bytes = ground arith;
  kept = refl;
}

fresh_at_50 : le_ℤ (pos 100) (unix (at_second 50)) ≡ false
unfolding unix
fresh_at_50 = refl

open_flash-seal_prepared_example :
    open_flash flash_codec
      (seal_prepared flash_codec prepared ann secret false (at_second 10) none)
      ann
      (at_second 50)
    ≡ ok (opened_of delivery)
open_flash-seal_prepared_example =
    open_flash-seal_prepared flash_codec transparent-laws prepared ann secret false (at_second 10)
      none delivery-IsSealable (at_second 50) (λ e. cc) fresh_at_50

open_flash-IsGenuine_example :
    IsGenuine flash_codec
      (seal_prepared flash_codec prepared ann secret false (at_second 10) none)
      ann
      (at_second 50)
      (opened_of delivery)
open_flash-IsGenuine_example =
    open_flash-IsGenuine flash_codec
      (seal_prepared flash_codec prepared ann secret false (at_second 10) none) ann (at_second 50)
      (opened_of delivery) open_flash-seal_prepared_example

-- Native sessions.
abbrev live_session : SessionPayload
live_session = record { version = 1; id_token = codes "jwt"; expires = pos 100 }

abbrev session_codec : SessionCodec
session_codec = record {
  aead = transparent;
  aad = codes "/mcp";
  sessions = record { marshal = λ p. 1 ∷ []; unmarshal = λ t. some live_session };
  states = record { marshal = λ p. 2 ∷ []; unmarshal = λ t. none };
}

abbrev session_cookie : Text
session_cookie = codes "CQEvAW0BYwFwAQABcwFlAXMBcwFpAW8BbgAB"

session-IsSealable :
    Sessions.IsSealable session_codec transparent-laws (9 ∷ []) (1 ∷ []) session_kind
session-IsSealable = record {
  nonce_bytes = ground arith;
  nonce_length = refl;
  plain_bytes = ground arith;
  data_bytes = ground arith;
  nonempty = λ e. cc;
}

session-sealed : seal_with session_codec (9 ∷ []) (1 ∷ []) session_kind ≡ ok session_cookie
unfolding seal_with frame encode
session-sealed = refl

kinds_apart_example :
    open_kind session_codec (session_codec.sessions) state_kind session_cookie ≡ err Session.invalid
kinds_apart_example =
    kinds_apart session_codec transparent-laws session_codec.sessions (9 ∷ []) (1 ∷ []) session_kind
      state_kind session_cookie session-IsSealable session-sealed (λ e. cc)

-- CSRF tokens, at second 40 with a lifetime of a minute.
abbrev host : Host ℕ
host = record { now = λ s. (at_second 40, s); random = λ n s. (ok (9 ∷ []), s) }

abbrev csrf_value : Text
csrf_value = codes "100.CQ.Bw"

csrf-made : (csrf host flash_codec ann 0).0 ≡ ok csrf_value
unfolding csrf format_int format_nat encode unix
csrf-made = refl

ends_at_100 : unix (at_second 40 + 60 * second) ≡ pos 100
unfolding unix
ends_at_100 = refl

validate-csrf_example : validate_csrf flash_codec csrf_value ann (at_second 50) ≡ ok tt
validate-csrf_example =
    validate-csrf flash_codec host 0 ann csrf_value 100 (at_second 50) (λ m. ground arith) csrf-made
      ends_at_100 (omega arith) fresh_at_50

valid_for_bob : validate_csrf flash_codec csrf_value bob (at_second 50) ≡ ok tt
unfolding validate_csrf split parse_int decode unix
valid_for_bob = rw (text_eq_refl (7 ∷ [])) refl

ann_is_not_bob : ann ≢ bob
ann_is_not_bob e = ground arith

-- The code of these tests is constant, and so it collides.
validate_csrf-collision_example :
    (m : Text) × (n : Text) × (m ≢ n) × (flash_codec.mac m ≡ flash_codec.mac n)
validate_csrf-collision_example =
    validate_csrf-collision flash_codec csrf_value ann bob (at_second 50) (at_second 50)
      validate-csrf_example valid_for_bob ann_is_not_bob
