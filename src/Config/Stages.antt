-- ===== src/Config/Stages.antt =====
-- What the stages of `loaded` return.
use grafana_mcp_setup.Prelude.{
  ℕ, ◌*◌, ◌≤◌, ◌≡◌, ◌≢◌, refl, ◌⊎◌, inl, inr, true, false, not, ◌&&◌, ◌||◌, Option, none, some,
  List, [], Text, codes, text_eq, text_eq_iff, contains, length, ltb, ◌==◌, ==_iff, arith,
  Bool-cases, Option-cases,
}
use grafana_mcp_setup.Prelude.Int.{ℤ, pos, negsuc}
use grafana_mcp_setup.Exec.{ok, Result-cases}
use grafana_mcp_setup.Go.Base64.{std_decode}
use grafana_mcp_setup.Go.Strings.{trim_space}
use grafana_mcp_setup.Go.Strconv.{parse_int}
use grafana_mcp_setup.Go.Time.{second}
use grafana_mcp_setup.Config.Env.{Process, env, secret_env}
use grafana_mcp_setup.Config.Load.{
  Config, max_session_ttl_seconds, key_of, number_in, number_of, native, with_openid, with_lifetime,
  with_secrets, with_session,
}

number_of-bounds :
    (limit : ℕ) (message v : Text) (n : ℕ)
    → number_of limit message v ≡ ok n
    → (1 ≤ n) × (n ≤ limit)
unfolding number_of
number_of-bounds limit message v n h = go (parse_int v) h
  where
    go : (o : Option ℤ) → number_in limit message o ≡ ok n → (1 ≤ n) × (n ≤ limit)
    go none h = absurd (grind arith)
    go (some (pos m)) h = elim (Bool-cases (m == 0 || ltb limit m)) [
      | inl bad ↦ absurd (grind arith)
      | inr good ↦ (grind arith, grind arith)
    ]
    go (some (negsuc m)) h = absurd (grind arith)

key_of-length : (message encoded key : Text) → key_of message encoded ≡ ok key → length key ≡ 32
unfolding key_of
key_of-length message encoded key h = elim (Option-cases (std_decode encoded)) [
  | inl bad ↦ absurd (grind arith)
  | inr (k, decoded) ↦ grind (arith, ==_iff (length k) 32)
]

-- One of two texts, as a test refuses anything else.
pub one_of : (v a b : Text) → (not (text_eq v a) && not (text_eq v b)) ≡ false → (v ≡ a) ⊎ (v ≡ b)
one_of v a b h = elim (Bool-cases (text_eq v a)) [
  | inl same ↦ inl ((text_eq_iff v a).0 same)
  | inr differs ↦ inr ((text_eq_iff v b).0 (grind arith))
]

pub contains-with_openid :
    (scopes : List Text) → contains (with_openid scopes) (codes "openid") ≡ true
unfolding text_eq
contains-with_openid scopes = elim (Bool-cases (contains scopes (codes "openid"))) [
  | inl there ↦ rw there there
  | inr missing ↦ rw missing refl
]

module _ (process : Process) where
  secret_env_nonempty :
      (value_key file_key secret : Text)
      → secret_env process value_key file_key ≡ ok secret
      → secret ≢ []
  unfolding secret_env
  secret_env_nonempty value_key file_key secret h =
      let v = process.getenv value_key in
      let file = process.getenv file_key in
      elim (Bool-cases (text_eq v [])) [
        | inr given ↦ elim (Bool-cases (text_eq file [])) [
          | inl unset ↦ λ e. grind (arith, text_eq_iff v [])
          | inr both ↦ absurd (grind arith)
        ]
        | inl missing ↦ elim (Bool-cases (text_eq file [])) [
          | inl unset ↦ absurd (grind arith)
          | inr there ↦ elim (Result-cases (process.read_file file)) [
            | inr (e, failed) ↦ absurd (grind arith)
            | inl (b, content) ↦ elim (Bool-cases (text_eq (trim_space b) [])) [
              | inl empty ↦ absurd (grind arith)
              | inr full ↦ λ e. grind (arith, text_eq_iff (trim_space b) [])
            ]
          ]
        ]
      ]

  pub with_lifetime-ok :
      (c d : Config)
      → with_lifetime process c ≡ ok d
      → ((c.auth_mode ≡ codes "proxy") ⊎ (c.auth_mode ≡ native))
        × ((days : ℕ) × (1 ≤ days)
            × (days ≤ 365)
            × (d ≡ record c {
              oidc_scopes = with_openid c.oidc_scopes;
              token_ttl = days * 86400 * second;
            }))
  unfolding with_lifetime
  with_lifetime-ok c d h =
      elim (Bool-cases
        (not (text_eq c.auth_mode (codes "proxy")) && not (text_eq c.auth_mode native))) [
          | inl unknown ↦ absurd (grind arith)
          | inr mode ↦
              elim (Result-cases (
                number_of 365 (codes "TOKEN_TTL_DAYS must be an integer from 1 to 365")
                  (env process (codes "TOKEN_TTL_DAYS") (codes "90")))) [
                    | inr (e, failed) ↦ absurd (grind arith)
                    | inl (days, parsed) ↦
                        let (low, high) = number_of-bounds 365 _ _ days parsed in
                        (one_of c.auth_mode _ _ mode, (days, low, high, grind arith))
                  ]
        ]

  pub with_secrets-ok :
      (c d : Config)
      → with_secrets process c ≡ ok d
      → (token : Text) × (key : Text) × (token ≢ [])
        × (length key ≡ 32)
        × (d ≡ record c { grafana_token = token; flash_cookie_key = key })
  unfolding with_secrets
  with_secrets-ok c d h =
      elim (Result-cases
        (secret_env process (codes "GRAFANA_ADMIN_TOKEN") (codes "GRAFANA_ADMIN_TOKEN_FILE"))) [
          | inr (e, failed) ↦ absurd (grind arith)
          | inl (token, t) ↦
              elim (Result-cases
                (secret_env process (codes "FLASH_COOKIE_KEY") (codes "FLASH_COOKIE_KEY_FILE"))) [
                  | inr (e, failed) ↦ absurd (grind arith)
                  | inl (encoded, f) ↦
                      elim (Result-cases (
                        key_of (codes "FLASH_COOKIE_KEY must be base64 for exactly 32 bytes")
                          encoded)) [
                            | inr (e, failed) ↦ absurd (grind arith)
                            | inl (key, k) ↦ (
                              token,
                              key,
                              secret_env_nonempty _ _ token t,
                              key_of-length _ encoded key k,
                              grind arith,
                            )
                          ]
                ]
        ]

  pub with_session-ok :
      (c d : Config)
      → with_session process c ≡ ok d
      → (secret : Text) × (key : Text) × (seconds : ℕ) × (secret ≢ [])
        × (length key ≡ 32)
        × (1 ≤ seconds)
        × (seconds ≤ max_session_ttl_seconds)
        × (d ≡ record c {
          oidc_client_secret = secret;
          session_cookie_key = key;
          session_ttl = seconds * second;
        })
  unfolding with_session
  with_session-ok c d h =
      elim (Result-cases
        (secret_env process (codes "OIDC_CLIENT_SECRET") (codes "OIDC_CLIENT_SECRET_FILE"))) [
          | inr (e, failed) ↦ absurd (grind arith)
          | inl (secret, s) ↦
              elim (Result-cases (
                secret_env process (codes "SESSION_COOKIE_KEY")
                  (codes "SESSION_COOKIE_KEY_FILE"))) [
                    | inr (e, failed) ↦ absurd (grind arith)
                    | inl (encoded, f) ↦
                        elim (Result-cases (
                          key_of (codes "SESSION_COOKIE_KEY must be base64 for exactly 32 bytes")
                            encoded)) [
                              | inr (e, failed) ↦ absurd (grind arith)
                              | inl (key, k) ↦
                                  elim (Result-cases (
                                    number_of max_session_ttl_seconds
                                      (codes
                                        "SESSION_TTL_SECONDS must be an integer from 1 to 86400")
                                      (env process (codes "SESSION_TTL_SECONDS") (codes "3600")))) [
                                        | inr (e, failed) ↦ absurd (grind arith)
                                        | inl (seconds, n) ↦
                                            let (low, high) =
                                              number_of-bounds max_session_ttl_seconds _ _ seconds
                                                n in
                                            (
                                              secret,
                                              key,
                                              seconds,
                                              secret_env_nonempty _ _ secret s,
                                              key_of-length _ encoded key k,
                                              low,
                                              high,
                                              grind arith,
                                            )
                                      ]
                            ]
                  ]
        ]
