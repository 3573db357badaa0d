-- ===== src/Config/Valid.antt =====
-- What a configuration that `FromEnv` returns satisfies: the part that is read.
use grafana_mcp_setup.Prelude.{
  ℕ, ◌*◌, ◌≤◌, ◌≡◌, ◌≢◌, refl, ◌⊎◌, inl, inr, true, [], ◌∷◌, Text, codes, text_eq, text_eq_iff,
  contains, length, arith, Bool-cases,
}
use grafana_mcp_setup.Exec.{ok, Result-cases}
use grafana_mcp_setup.Go.Time.{second}
use grafana_mcp_setup.Config.Env.{Process, bool_env}
use grafana_mcp_setup.Config.Load.{
  Config, native, with_openid, initial, with_lifetime, with_secrets, with_native, loaded,
}
use grafana_mcp_setup.Config.Stages.{
  contains-with_openid, with_lifetime-ok, with_secrets-ok, with_session-ok,
}

-- What native authentication is given.
pub record IsNative (c : Config) : Type 0 where
  pub secret : c.oidc_client_secret ≢ []
  pub key : length c.session_cookie_key ≡ 32
  pub lifetime :
      (seconds : ℕ) × (1 ≤ seconds) × (seconds ≤ 86400) × (c.session_ttl ≡ seconds * second)

-- A loaded configuration.
pub record IsLoaded (c : Config) : Type 0 where
  pub mode : (c.auth_mode ≡ codes "proxy") ⊎ (c.auth_mode ≡ native)
  pub scopes : contains c.oidc_scopes (codes "openid") ≡ true
  pub lifetime : (days : ℕ) × (1 ≤ days) × (days ≤ 365) × (c.token_ttl ≡ days * 86400 * second)
  pub token : c.grafana_token ≢ []
  pub flash_key : length c.flash_cookie_key ≡ 32
  pub session : c.auth_mode ≡ native → IsNative c
  pub rooted : (rest : Text) × (c.base_path ≡ b'/' ∷ rest)

with_native-ok :
    (process : Process) (c d : Config)
    → with_native process c ≡ ok d
    → (d.auth_mode ≡ c.auth_mode)
      × (d.oidc_scopes ≡ c.oidc_scopes)
      × (d.token_ttl ≡ c.token_ttl)
      × (d.grafana_token ≡ c.grafana_token)
      × (d.flash_cookie_key ≡ c.flash_cookie_key)
      × (d.base_path ≡ c.base_path)
      × (d.auth_mode ≡ native → IsNative d)
with_native-ok process c d h = elim (Bool-cases (text_eq c.auth_mode native)) [
  | inr proxied ↦
      let same : c ≡ d = grind arith in
      rw (← same) (
        refl,
        refl,
        refl,
        refl,
        refl,
        refl,
        λ e. absurd (grind (arith, text_eq_iff c.auth_mode native)),
      )
  | inl n ↦
      let (secret, key, seconds, s, k, low, high, same) =
        with_session-ok process c d (grind arith) in
      rw same (
        refl,
        refl,
        refl,
        refl,
        refl,
        refl,
        λ e. record { secret = s; key = k; lifetime = (seconds, low, high, refl) },
      )
]

stages-IsLoaded :
    (process : Process) (c0 c1 c2 c : Config) (rest : Text)
    → c0.base_path ≡ b'/' ∷ rest
    → with_lifetime process c0 ≡ ok c1
    → with_secrets process c1 ≡ ok c2
    → with_native process c2 ≡ ok c
    → IsLoaded c
stages-IsLoaded process c0 c1 c2 c rest root e1 e2 e3 =
    let (mode, (days, low, high, same1)) = with_lifetime-ok process c0 c1 e1 in
    let (token, key, t, k, same2) = with_secrets-ok process c1 c2 e2 in
    let (am, scopes, ttl, tok, fk, bp, n) = with_native-ok process c2 c e3 in
    let before : c2 ≡ record c0 {
      oidc_scopes = with_openid c0.oidc_scopes;
      token_ttl = days * 86400 * second;
      grafana_token = token;
      flash_cookie_key = key;
    } =
      rw (same2, same1) refl in
    record {
      mode = rw (am, before) mode;
      scopes = rw (scopes, before) (contains-with_openid c0.oidc_scopes);
      lifetime = (days, low, high, rw (ttl, before) refl);
      token = rw (tok, before) t;
      flash_key = rw (fk, before) k;
      session = n;
      rooted = (rest, rw (bp, before) root);
    }

pub loaded-IsLoaded : (process : Process) (c : Config) → loaded process ≡ ok c → IsLoaded c
unfolding loaded initial
loaded-IsLoaded process c h = elim (Result-cases (bool_env process (codes "ENABLE_ENV_SETUP"))) [
  | inr (e, failed) ↦ absurd (grind arith)
  | inl (enable, e1) ↦
      elim (Result-cases (bool_env process (codes "ALLOW_ALL_AUTHENTICATED_USERS"))) [
        | inr (e, failed) ↦ absurd (grind arith)
        | inl (allow, e2) ↦
            let c0 = initial process enable allow in
            elim (Result-cases (with_lifetime process c0)) [
              | inr (e, failed) ↦ absurd (grind arith)
              | inl (c1, e3) ↦ elim (Result-cases (with_secrets process c1)) [
                | inr (e, failed) ↦ absurd (grind arith)
                | inl (c2, e4) ↦ stages-IsLoaded process c0 c1 c2 c _ refl e3 e4 (grind arith)
              ]
            ]
      ]
]
