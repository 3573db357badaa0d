-- ===== src/Web/Mutation.antt =====
-- `validMutationRequest`: which requests may change something.
use grafana_mcp_setup.Prelude.{
  ◌≡◌, ◌⊎◌, inl, inr, Bool, true, false, not, ◌||◌, Option, none, some, [], ◌++◌, Text, codes,
  text_eq, text_eq_iff, if◌then◌else◌, arith, Bool-cases, Option-cases,
}
use grafana_mcp_setup.Exec.{Error, failure, Result, ok, err}
use grafana_mcp_setup.Go.Time.{Time}
use grafana_mcp_setup.Cookies.Flash.{FlashCodec, validate_csrf}
use grafana_mcp_setup.Web.Origin.{Url, normalize_origin}

-- What is read of a request: a header is empty where it is missing, and `form` is the form's
-- "csrf_token", unless ParseForm fails.
pub record Submission : Type 0 where
  pub sec_fetch_site : Text
  pub origin : Text
  pub referer : Text
  pub form : Option Text

module _ (parse : Text → Option Url) (codec : FlashCodec) (app_origin : Text) where
  abbrev pub origin_of_referer : Option Url → Text
  origin_of_referer none = []
  origin_of_referer (some u) =
      if text_eq u.scheme [] || text_eq u.host [] then [] else u.scheme ++ (codes "://" ++ u.host)

  -- The Origin header, or what the Referer says.
  abbrev pub claimed_origin : Submission → Text
  claimed_origin r =
      if not (text_eq r.origin [])
      then r.origin
      else if text_eq r.referer []
      then []
      else origin_of_referer (parse r.referer)

  abbrev pub same_origin : Result Text → Bool
  same_origin (ok origin) = text_eq origin app_origin
  same_origin (err e) = false

  abbrev pub from_app : Submission → Bool
  from_app r =
      if not (text_eq r.sec_fetch_site [])
      then text_eq r.sec_fetch_site (codes "same-origin")
      else same_origin (normalize_origin parse (claimed_origin r))

  abbrev pub foreign_error : Submission → Error
  foreign_error r = failure (
      if text_eq r.sec_fetch_site []
      then codes "request origin does not match APP_PUBLIC_URL"
      else codes "cross-origin request")

  abbrev pub with_token : Text → Time → Option Text → Result (Unit {0})
  with_token email now none = err (failure (codes "invalid form"))
  with_token email now (some token) = validate_csrf codec token email now

  unfoldable pub valid_mutation_request : Submission → Text → Time → Result (Unit {0})
  valid_mutation_request r email now =
      if not (from_app r) then err (foreign_error r) else with_token email now r.form

  -- Why a request was let through.
  pub record IsVerified (r : Submission) (email : Text) (now : Time) : Type 0 where
    pub token : Text
    pub submitted : r.form ≡ some token
    pub authentic : validate_csrf codec token email now ≡ ok tt
    pub sent_by_app :
        (r.sec_fetch_site ≡ codes "same-origin")
        ⊎ ((r.sec_fetch_site ≡ []) × (normalize_origin parse (claimed_origin r) ≡ ok app_origin))

  same_origin-eq : (o : Result Text) → same_origin o ≡ true → o ≡ ok app_origin
  same_origin-eq (ok origin) h = ap_ok ((text_eq_iff origin app_origin).0 h)
    where
      ap_ok : origin ≡ app_origin → ok origin ≡ ok app_origin
      ap_ok e = cc
  same_origin-eq (err e) h = cc

  from_app-origin :
      (r : Submission)
      → from_app r ≡ true
      → (r.sec_fetch_site ≡ codes "same-origin")
        ⊎ ((r.sec_fetch_site ≡ []) × (normalize_origin parse (claimed_origin r) ≡ ok app_origin))
  from_app-origin r h = elim (Bool-cases (text_eq r.sec_fetch_site [])) [
    | inl missing ↦ inr (
      (text_eq_iff r.sec_fetch_site []).0 missing,
      same_origin-eq (normalize_origin parse (claimed_origin r)) (rw missing at h),
    )
    | inr given ↦ inl ((text_eq_iff r.sec_fetch_site (codes "same-origin")).0 (rw given at h))
  ]

  -- A request may change something only if its form carries a CSRF token that is valid for the
  -- identity at that time, and if its Sec-Fetch-Site is "same-origin", or is missing and the origin
  -- that the Origin header or else the Referer names is the application's.
  pub valid_mutation_request-IsVerified :
      (r : Submission) (email : Text) (now : Time)
      → valid_mutation_request r email now ≡ ok tt
      → IsVerified r email now
  unfolding valid_mutation_request
  valid_mutation_request-IsVerified r email now h = elim (Bool-cases (from_app r)) [
    | inl ours ↦ elim (Option-cases r.form) [
      | inl unparsed ↦ absurd (grind arith)
      | inr (token, submitted) ↦ record {
        token = token;
        submitted = submitted;
        authentic = rw (ours, submitted) at h;
        sent_by_app = from_app-origin r ours;
      }
    ]
    | inr foreign ↦ absurd (grind arith)
  ]
