-- ===== src/Config/Configured.antt =====
-- `FromEnv` as a whole.
use grafana_mcp_setup.Prelude.{
  ◌≡◌, ◌≢◌, refl, ◌⊎◌, inl, inr, true, false, Option, [], Text, codes, text_eq_iff, arith,
}
use grafana_mcp_setup.Exec.{ok, Result-cases}
use grafana_mcp_setup.Go.Substrings.{has_prefix}
use grafana_mcp_setup.Web.Origin.{Url, normalize_origin}
use grafana_mcp_setup.Config.Env.{Process}
use grafana_mcp_setup.Config.Load.{Config, native, loaded}
use grafana_mcp_setup.Config.Check.{
  Order, proxy, check_proxy, check_modes, is_bad_url, check_required, with_origin, validated,
  from_env,
}
use grafana_mcp_setup.Config.Valid.{IsLoaded, loaded-IsLoaded}
use grafana_mcp_setup.Config.Checked.{
  IsFair, IsSourced, check_source-IsSourced, IsModes, check_modes-IsModes, with_origin-ok,
  IsRequired, check_required-IsRequired,
}

-- A configuration that FromEnv lets through.
pub record IsConfigured (parse : Text → Option Url) (c : Config) : Type 0 where
  pub loaded : IsLoaded c
  pub required : (c.issuer ≢ []) × (c.grafana_namespace ≢ [])
  pub somebody : (c.required_groups ≢ []) ⊎ (c.allow_all ≡ true)
  pub sourced : c.auth_mode ≡ proxy → IsSourced c
  pub modes : IsModes c
  pub origin :
      (raw : Text) × (normalize_origin parse raw ≡ ok c.app_origin)
      × (c.app_public_url ≡ c.app_origin)
  pub secure : c.auth_mode ≡ native → has_prefix c.app_origin (codes "https://") ≡ true
  pub addresses :
      (is_bad_url (parse c.grafana_url) ≡ false) × (is_bad_url (parse c.public_url) ≡ false)

with_origin-IsLoaded :
    (c : Config) (origin : Text)
    → IsLoaded c
    → IsLoaded (record c { app_origin = origin; app_public_url = origin })
with_origin-IsLoaded c origin h = record {
  mode = h.mode;
  scopes = h.scopes;
  lifetime = h.lifetime;
  token = h.token;
  flash_key = h.flash_key;
  session = λ e. record {
    secret = (h.session e).secret;
    key = (h.session e).key;
    lifetime = (h.session e).lifetime;
  };
  rooted = h.rooted;
}

module _ (parse : Text → Option Url) (order : Order) (fair : IsFair order) where
  check_proxy-IsSourced : (c : Config) → check_proxy c ≡ ok tt → c.auth_mode ≡ proxy → IsSourced c
  check_proxy-IsSourced c h mode =
      check_source-IsSourced c (grind (arith, text_eq_iff c.auth_mode proxy))

  with_origin-IsConfigured :
      (c d : Config)
      → IsLoaded c
      → IsRequired parse order c
      → (c.auth_mode ≡ proxy → IsSourced c)
      → IsModes c
      → with_origin parse order c ≡ ok d
      → IsConfigured parse d
  with_origin-IsConfigured c d l r s m h =
      let (origin, placed, same) = with_origin-ok parse order fair c d h in
      rw same (record {
        loaded = with_origin-IsLoaded c origin l;
        required = (r.issuer, r.namespace);
        somebody = r.somebody;
        sourced = s;
        modes = record {
          base_path = m.base_path;
          lock_mode = m.lock_mode;
          api_mode = m.api_mode;
          lease = m.lease;
        };
        origin = (c.app_public_url, placed.normal, refl);
        secure = placed.secure;
        addresses = (placed.grafana, placed.public);
      })

  validated-IsConfigured :
      (c d : Config) → IsLoaded c → validated parse order c ≡ ok d → IsConfigured parse d
  unfolding validated
  validated-IsConfigured c d l h = elim (Result-cases (check_required order c)) [
    | inr (e, failed) ↦ absurd (grind arith)
    | inl (_, required) ↦ elim (Result-cases (check_proxy c)) [
      | inr (e, failed) ↦ absurd (grind arith)
      | inl (_, sourced) ↦ elim (Result-cases (check_modes c)) [
        | inr (e, failed) ↦ absurd (grind arith)
        | inl (_, modes) ↦
            with_origin-IsConfigured c d l (check_required-IsRequired parse order fair c required)
              (check_proxy-IsSourced c sourced) (check_modes-IsModes c modes) (grind arith)
      ]
    ]
  ]

  -- A configuration that FromEnv returns, in whichever order Go ranges over its maps, is in its bounds:
  -- tokens live 1 to 365 whole days and sessions 1 to 86400 whole seconds, keys have 32 bytes, "openid"
  -- is among the scopes, the modes are the known ones with what each of them needs, the base path is
  -- not the root and free of the bytes and parts that it must not hold, the origin is the normalised
  -- one of a URL, by https in native authentication, Grafana's URLs are absolute, and somebody is
  -- allowed in.
  pub from_env-IsConfigured :
      (process : Process) (c : Config) → from_env parse order process ≡ ok c → IsConfigured parse c
  unfolding from_env
  from_env-IsConfigured process d h = elim (Result-cases (loaded process)) [
    | inr (e, failed) ↦ absurd (grind arith)
    | inl (c, ready) ↦ validated-IsConfigured c d (loaded-IsLoaded process c ready) (grind arith)
  ]
