-- ===== src/Web/New.antt =====
-- `New`: the server of a configuration.
use grafana_mcp_setup.Prelude.{
  ◌≡◌, refl, Bool, false, Option, none, some, List, [], ◌++◌, Text, codes, text_eq, true,
  text_eq_iff, ◌==◌, if◌then◌else◌, arith, Bool-cases, inl, inr,
}
use grafana_mcp_setup.Exec.{failure, wrapped, Result, ok, err, Exec}
use grafana_mcp_setup.Fallible.{◌>>=◌}
use grafana_mcp_setup.Cookies.Crypto.{Coding}
use grafana_mcp_setup.Cookies.Flash.{FlashPayload, FlashCodec}
use grafana_mcp_setup.Cookies.Session.{SessionPayload, OauthStatePayload, SessionCodec}
use grafana_mcp_setup.Cookies.Make.{Primitives, new_flash_codec, new_session_codec}
use grafana_mcp_setup.Config.Env.{Process}
use grafana_mcp_setup.Config.Load.{Config, native, with_openid, default_session_ttl}
use grafana_mcp_setup.Config.Valid.{IsLoaded}
use grafana_mcp_setup.Grafana.Net.{Client}
use grafana_mcp_setup.Lock.Kube.{LeaseLocker}
use grafana_mcp_setup.Lock.Make.{new_lease_locker}

-- The fields that are set of oauth2.Config, over go-oidc's endpoints.
pub record OauthConfig (E : Type 0) : Type 0 where
  pub client_id : Text
  pub client_secret : Text
  pub endpoint : E
  pub redirect_url : Text
  pub scopes : List Text

pub data Locker : Type 0 where
  local_locker : Locker
  lease_locker : LeaseLocker → Locker

-- type Server, its metrics, HTTP client and readiness apart, which start empty.
pub record Server (E V : Type 0) : Type 0 where
  pub cfg : Config
  pub grafana : Client
  pub verifier : V
  pub flash : FlashCodec
  pub session : Option SessionCodec
  pub oauth : Option (OauthConfig E)
  pub locker : Locker

-- The configuration as it is completed for native authentication.
abbrev pub completed_native : Config → Result Config
completed_native cfg =
    if text_eq cfg.oidc_client_secret []
    then err (failure (codes "OIDC_CLIENT_SECRET is required in native auth mode"))
    else ok (record cfg {
      session_ttl = if cfg.session_ttl == 0 then default_session_ttl else cfg.session_ttl;
      oidc_scopes = with_openid cfg.oidc_scopes;
    })

unfoldable pub completed : Config → Result Config
unfolding text_eq
completed cfg = if text_eq cfg.auth_mode native then completed_native cfg else ok cfg

-- For a configuration that was loaded there is nothing to complete.
pub completed-loaded : (c : Config) → IsLoaded c → completed c ≡ ok c
unfolding completed
completed-loaded c is_loaded = elim (Bool-cases (text_eq c.auth_mode native)) [
  | inr proxied ↦ rw proxied refl
  | inl is_native ↦
      let session = is_loaded.session ((text_eq_iff c.auth_mode native).0 is_native) in
      let kept : text_eq c.oidc_client_secret [] ≡ false =
        grind (arith, text_eq_iff c.oidc_client_secret [], session.secret) in
      let (seconds, positive, bounded, e) = session.lifetime in
      let lasting : (c.session_ttl == 0) ≡ false = grind (arith, e, positive) in
      rw (is_native, kept, lasting, is_loaded.scopes) refl
]

abbrev pub grafana_of : Config → Client
grafana_of cfg = record {
  base = cfg.grafana_url;
  token = cfg.grafana_token;
  mode = cfg.grafana_api_mode;
  namespace = cfg.grafana_namespace;
  metered = true;
}

-- go-oidc: the discovery of a provider `P`, its endpoints and its verifier for a client.
module _ {S P E V : Type 0} (discover : Text → Exec S P) (endpoint : P → E)
    (verifier : P → Text → V) (primitives : Primitives) (deliveries : Coding FlashPayload)
    (sessions : Coding SessionPayload) (states : Coding OauthStatePayload)
    (has_certificates : Text → Bool) (process : Process) where
  unfoldable pub locker_of : Config → Result Locker
  unfolding text_eq new_lease_locker
  locker_of cfg =
      if text_eq cfg.rotation_lock_mode (codes "kubernetes")
      then (new_lease_locker has_certificates process cfg >>= (λ l. ok (lease_locker l)))
      else ok local_locker

  abbrev pub oauth_of : P → Config → OauthConfig E
  oauth_of provider cfg = record {
    client_id = cfg.client_id;
    client_secret = cfg.oidc_client_secret;
    endpoint = endpoint provider;
    redirect_url = cfg.app_origin ++ (cfg.base_path ++ codes "/oauth2/callback");
    scopes = cfg.oidc_scopes;
  }

  -- The session codec and the OAuth configuration, with native authentication.
  unfoldable pub login_of : P → Config → Result (Option SessionCodec × Option (OauthConfig E))
  unfolding text_eq new_session_codec
  login_of provider cfg =
      if text_eq cfg.auth_mode native
      then (new_session_codec primitives sessions states cfg.session_cookie_key cfg.base_path
          >>= (λ codec. ok (some codec, some (oauth_of provider cfg))))
      else ok (none, none)

  unfoldable pub server_of : Config → P → Result (Server E V)
  unfolding new_flash_codec locker_of login_of
  server_of cfg provider = do
    flash ← new_flash_codec primitives deliveries cfg.flash_cookie_key cfg.flash_ttl cfg.base_path
    locker ← locker_of cfg
    (session, oauth) ← login_of provider cfg
    ok (record {
      cfg = cfg;
      grafana = grafana_of cfg;
      verifier = verifier provider cfg.client_id;
      flash = flash;
      session = session;
      oauth = oauth;
      locker = locker;
    })

  abbrev pub discovered : Config → Result P × S → Result (Server E V) × S
  discovered cfg (err e, s) = (err (wrapped (codes "discovering the OIDC provider") e), s)
  discovered cfg (ok provider, s) = (server_of cfg provider, s)

  abbrev pub new_of : Result Config → Exec S (Server E V)
  new_of (err e) s = (err e, s)
  new_of (ok cfg) s = discovered cfg (discover cfg.issuer s)

  unfoldable pub new : Config → Exec S (Server E V)
  unfolding completed server_of
  new cfg s = new_of (completed cfg) s
