-- ===== src/Config/Checked.antt =====
-- What a configuration that `FromEnv` returns satisfies: the part that is tested, and all of it.
use grafana_mcp_setup.Prelude.{
  ◌≡◌, ◌≢◌, refl, sym, ap, ◌∙◌, ◌⊎◌, inl, inr, Bool, true, false, not, ◌&&◌, ◌||◌, Option, List, [],
  ◌∷◌, Text, codes, text_eq, text_eq_iff, any, all, length, ◌==◌, arith, Bool-cases,
}
use grafana_mcp_setup.Exec.{ok, Result-cases}
use grafana_mcp_setup.Fallible.{refuse_if-ok, refuse_if-fine}
use grafana_mcp_setup.Go.Substrings.{has_prefix, has_suffix, contains_text}
use grafana_mcp_setup.Web.Origin.{Url, normalize_origin}
use grafana_mcp_setup.Config.Env.{valid_header_name}
use grafana_mcp_setup.Config.Load.{Config, native}
use grafana_mcp_setup.Config.Check.{
  Order, required_values, refuse_any, is_empty, header, cookie, check_source, is_escaped_byte,
  bad_base_path, check_modes, is_bad_url, bad_url, grafana_urls, check_required, with_origin,
}
use grafana_mcp_setup.Config.Stages.{one_of}

-- Go's range statement visits each entry of a map once.
abbrev pub IsFair : Order → Type 0
IsFair order = (p : Text × Text → Bool) (xs : List (Text × Text)) → all p (order xs) ≡ all p xs

refuse_any-all :
    (bad : Text → Bool) (message : Text) (xs : List (Text × Text))
    → refuse_any bad message xs ≡ ok tt
    → all (λ (x : Text × Text). not (bad x.1)) xs ≡ true
unfolding refuse_any
refuse_any-all bad message [] h = refl
refuse_any-all bad message ((name, v) ∷ rest) h = elim (Bool-cases (bad v)) [
  | inl wrong ↦ absurd (grind arith)
  | inr fine ↦ grind (arith, refuse_any-all bad message rest)
]

-- Where a proxy's ID token is looked for.
abbrev pub IsSourced : Config → Type 0
IsSourced c =
    ((c.id_token_source ≡ header) × (valid_header_name c.id_token_header ≡ true))
    ⊎ ((c.id_token_source ≡ cookie) × (valid_header_name c.id_token_cookie ≡ true))

pub check_source-IsSourced : (c : Config) → check_source c ≡ ok tt → IsSourced c
unfolding check_source text_eq
check_source-IsSourced c h =
    elim (Bool-cases
      (not (text_eq c.id_token_source header) && not (text_eq c.id_token_source cookie))) [
        | inl unknown ↦ absurd (grind arith)
        | inr known ↦ elim (one_of c.id_token_source header cookie known) [
          | inl e ↦ elim (Bool-cases (valid_header_name c.id_token_header)) [
            | inl good ↦ inl (e, good)
            | inr bad ↦ absurd (grind arith)
          ]
          | inr e ↦ elim (Bool-cases (valid_header_name c.id_token_cookie)) [
            | inl good ↦ inr (e, good)
            | inr bad ↦ absurd (grind arith)
          ]
        ]
      ]

-- The path that all the routes of the program are under.
pub record IsBasePath (path : Text) : Type 0 where
  pub not_root : path ≢ codes "/"
  pub unescaped : any is_escaped_byte path ≡ false
  pub single_slashes : contains_text path (codes "//") ≡ false
  pub no_parent : contains_text path (codes "/../") ≡ false
  pub no_last_parent : has_suffix path (codes "/..") ≡ false

bad_base_path-IsBasePath : (path : Text) → bad_base_path path ≡ false → IsBasePath path
bad_base_path-IsBasePath path h = record {
  not_root = λ e. grind (arith, text_eq_iff path (codes "/"));
  unescaped = grind arith;
  single_slashes = grind arith;
  no_parent = grind arith;
  no_last_parent = grind arith;
}

-- The modes and what the Lease lock needs.
pub record IsModes (c : Config) : Type 0 where
  pub base_path : IsBasePath c.base_path
  pub lock_mode :
      (c.rotation_lock_mode ≡ codes "local") ⊎ (c.rotation_lock_mode ≡ codes "kubernetes")
  pub api_mode : (c.grafana_api_mode ≡ codes "legacy") ⊎ (c.grafana_api_mode ≡ codes "iam")
  pub lease :
      c.rotation_lock_mode ≡ codes "kubernetes"
      → (c.rotation_lease ≢ []) × (c.pod_namespace ≢ []) × (c.pod_name ≢ [])

lease_needs :
    (c : Config)
    → (text_eq c.rotation_lock_mode (codes "kubernetes")
        && (text_eq c.rotation_lease [] || (text_eq c.pod_namespace [] || text_eq c.pod_name [])))
      ≡ false
    → c.rotation_lock_mode ≡ codes "kubernetes"
    → (c.rotation_lease ≢ []) × (c.pod_namespace ≢ []) × (c.pod_name ≢ [])
lease_needs c h mode =
    let kubernetes = (text_eq_iff c.rotation_lock_mode (codes "kubernetes")).1 mode in
    (
      λ e. grind (arith, text_eq_iff c.rotation_lease []),
      λ e. grind (arith, text_eq_iff c.pod_namespace []),
      λ e. grind (arith, text_eq_iff c.pod_name []),
    )

pub check_modes-IsModes : (c : Config) → check_modes c ≡ ok tt → IsModes c
unfolding check_modes
check_modes-IsModes c h =
    let (path, h1) = refuse_if-ok (bad_base_path c.base_path) _ _ tt h in
    let (lock, h2) =
      refuse_if-ok
        (not (text_eq c.rotation_lock_mode (codes "local"))
          && not (text_eq c.rotation_lock_mode (codes "kubernetes")))
        _ _ tt h1 in
    let (api, h3) =
      refuse_if-ok
        (not (text_eq c.grafana_api_mode (codes "legacy"))
          && not (text_eq c.grafana_api_mode (codes "iam")))
        _ _ tt h2 in
    record {
      base_path = bad_base_path-IsBasePath c.base_path path;
      lock_mode = one_of c.rotation_lock_mode _ _ lock;
      api_mode = one_of c.grafana_api_mode _ _ api;
      lease = lease_needs c (refuse_if-fine _ _ h3);
    }

module _ (parse : Text → Option Url) (order : Order) where
  -- The addresses.
  pub record IsPlaced (c : Config) (origin : Text) : Type 0 where
    pub normal : normalize_origin parse c.app_public_url ≡ ok origin
    pub secure : c.auth_mode ≡ native → has_prefix origin (codes "https://") ≡ true
    pub grafana : is_bad_url (parse c.grafana_url) ≡ false
    pub public : is_bad_url (parse c.public_url) ≡ false

  abbrev url_message : Text
  url_message =
      codes " must be an absolute http or https URL without credentials, query, or fragment"

  pub with_origin-ok :
      (fair : IsFair order) (c d : Config)
      → with_origin parse order c ≡ ok d
      → (origin : Text) × IsPlaced c origin
        × (d ≡ record c { app_origin = origin; app_public_url = origin })
  unfolding with_origin
  with_origin-ok fair c d h = elim (Result-cases (normalize_origin parse c.app_public_url)) [
    | inr (e, failed) ↦ absurd (grind arith)
    | inl (origin, normal) ↦
        elim (Bool-cases
          (text_eq c.auth_mode native && not (has_prefix origin (codes "https://")))) [
            | inl insecure ↦ absurd (grind arith)
            | inr secure ↦
                elim (Result-cases
                  (refuse_any (bad_url parse) url_message (order (grafana_urls c)))) [
                    | inr (e, failed) ↦ absurd (grind arith)
                    | inl (u, fine) ↦
                        let good : all (λ (x : Text × Text). not (bad_url parse x.1))
                              (grafana_urls c)
                            ≡ true =
                          sym (fair _ (grafana_urls c))
                          ∙ refuse_any-all (bad_url parse) url_message (order (grafana_urls c))
                              fine in
                        (
                          origin,
                          record {
                            normal = normal;
                            secure = λ e. grind (arith, text_eq_iff c.auth_mode native);
                            grafana = grind arith;
                            public = grind arith;
                          },
                          grind arith,
                        )
                  ]
          ]
  ]

  -- A value for each name that must have one, and somebody who may use the program.
  pub record IsRequired (c : Config) : Type 0 where
    pub app : c.app_public_url ≢ []
    pub grafana : c.grafana_url ≢ []
    pub public : c.public_url ≢ []
    pub issuer : c.issuer ≢ []
    pub namespace : c.grafana_namespace ≢ []
    pub somebody : (c.required_groups ≢ []) ⊎ (c.allow_all ≡ true)

  somebody_allowed :
      (c : Config)
      → (length c.required_groups == 0 && not c.allow_all) ≡ false
      → (c.required_groups ≢ []) ⊎ (c.allow_all ≡ true)
  somebody_allowed c h = elim (Bool-cases c.allow_all) [
    | inl everybody ↦ inr everybody
    | inr members ↦ inl (λ e. grind (arith, ap length e))
  ]

  pub check_required-IsRequired :
      (fair : IsFair order) (c : Config) → check_required order c ≡ ok tt → IsRequired c
  unfolding check_required text_eq
  check_required-IsRequired fair c h =
      elim (Result-cases (refuse_any is_empty (codes " is required") (order (required_values c)))) [
        | inr (e, failed) ↦ absurd (grind arith)
        | inl (u, fine) ↦
            let good : all (λ (x : Text × Text). not (is_empty x.1)) (required_values c) ≡ true =
              sym (fair _ (required_values c))
              ∙ refuse_any-all is_empty _ (order (required_values c)) fine in
            record {
              app = λ e. grind (arith, text_eq_iff c.app_public_url []);
              grafana = λ e. grind (arith, text_eq_iff c.grafana_url []);
              public = λ e. grind (arith, text_eq_iff c.public_url []);
              issuer = λ e. grind (arith, text_eq_iff c.issuer []);
              namespace = λ e. grind (arith, text_eq_iff c.grafana_namespace []);
              somebody = somebody_allowed c (
                  refuse_if-fine (length c.required_groups == 0 && not c.allow_all)
                    (codes
                      "REQUIRED_GROUPS must be nonempty unless ALLOW_ALL_AUTHENTICATED_USERS=true")
                    (grind arith));
            }
      ]
