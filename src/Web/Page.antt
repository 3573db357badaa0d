-- ===== src/Web/Page.antt =====
-- The page of server.go and page.go: what `handlePage` and `handleShow` tell the template.
use grafana_mcp_setup.Prelude.{
  ℕ, ◌-◌, ◌/◌, Bool, true, false, not, ◌&&◌, Option, none, some, List, [], ◌∷◌, Text, codes, ltb,
  ◌==◌, if◌then◌else◌,
}
use grafana_mcp_setup.Exec.{Error, Result, ok, err}
use grafana_mcp_setup.Go.Strconv.{format_nat}
use grafana_mcp_setup.Go.Time.{Time, zero_time}
use grafana_mcp_setup.Go.Dates.{day, format_date}
use grafana_mcp_setup.Grafana.Types.{SaToken}
use grafana_mcp_setup.Cookies.Flash.{FlashCodec, OpenedFlash, csrf, open_flash}
use grafana_mcp_setup.Rotation.Backend.{Backend}
use grafana_mcp_setup.Rotation.Account.{live_token}
use grafana_mcp_setup.Web.Identity.{Identity, known, refused}
use grafana_mcp_setup.Web.Response.{
  Response, http_error, SetCookie, clear_flash_cookie, flash_cookie_name,
}
use grafana_mcp_setup.Web.Oidc.{Auth, Request}
use grafana_mcp_setup.Web.Native.{identity_error}

-- `stateNone`, `stateActive` and `stateIssued`
pub data PageState : Type 0 where
  nothing active issued : PageState

-- type pageData, the snippets and the icons of its formats apart, which follow from the URL and the mask.
pub record PageData : Type 0 where
  pub email : Text
  pub base_path : Text
  pub state : PageState
  pub token : Text
  pub mask : Text
  pub spent : Bool
  pub created : Text
  pub expires : Text
  pub expires_in : Text
  pub last_used : Text
  pub ttl_days : ℕ
  pub public_url : Text
  pub csrf_token : Text
  pub csp_nonce : Text
  pub style_url : Text
  pub script_url : Text
  pub partial_cleanup : Bool
  pub enable_env_setup : Bool
  pub native_auth : Bool

-- The whole days until a time; what has expired for less than a day counts as none, and what has
-- expired for longer is left out.
abbrev pub days_left : Time → Time → Text
days_left now expires =
    if ltb expires now && not ((now - expires) / day == 0)
    then []
    else format_nat ((expires - now) / day)

abbrev pub used_date : Option Time → Text
used_date none = codes "never"
used_date (some t) = if t == zero_time then codes "never" else format_date t

-- `fillFrom`, of the times of a token, at the time `now`.
unfoldable pub fill_from : Time → Time → Option Time → Option Time → PageData → PageData
unfolding format_date
fill_from now created none used d = record d {
  created = format_date created;
  expires = codes "never";
  last_used = used_date used;
}
fill_from now created (some expires) used d = record d {
  created = format_date created;
  expires = format_date expires;
  expires_in = days_left now expires;
  last_used = used_date used;
}

-- What a handler comes to: data to render, or an answer, and the cookies that it set before.
pub data Outcome : Type 0 where
  shows : PageData → Outcome
  answers : Response → Outcome

module _ {S : Type 0} (b : Backend S) (codec : FlashCodec) (a : Auth S) (token_ttl : ℕ)
    (audit_status : Text → Error → S → S) where
  -- `pageData` with `ttlDays`
  abbrev pub page_data : Text → Text → PageData
  page_data email csrf_token = record {
    email = email;
    base_path = [];
    state = nothing;
    token = [];
    mask = [];
    spent = false;
    created = [];
    expires = [];
    expires_in = [];
    last_used = [];
    ttl_days = token_ttl / day;
    public_url = [];
    csrf_token = csrf_token;
    csp_nonce = [];
    style_url = [];
    script_url = [];
    partial_cleanup = false;
    enable_env_setup = false;
    native_auth = false;
  }

  abbrev pub filled : SaToken → PageData → Time × S → Outcome × S
  filled t d (now, s) = (shows (fill_from now t.created t.expiration t.last_used_at d), s)

  -- The end of both handlers: what Grafana knows of the user's token.
  abbrev pub status_with : Text → Bool → PageData → Result (Option SaToken) × S → Outcome × S
  status_with email spent d (err e, s) =
      (answers (http_error 502 (codes "could not reach Grafana")), audit_status email e s)
  status_with email spent d (ok none, s) = (shows (record d { state = nothing }), s)
  status_with email spent d (ok (some t), s) =
      filled t (record d { state = active; spent = spent }) (b.now s)

  abbrev pub status_of : Text → Bool → PageData → S → Outcome × S
  status_of email spent d s = status_with email spent d (live_token b email s)

  abbrev pub not_prepared : Outcome
  not_prepared = answers (http_error 500 (codes "could not prepare the page"))

  abbrev pub page_with : Text → Result Text × S → Outcome × S
  page_with email (err e, s) = (not_prepared, s)
  page_with email (ok csrf_token, s) = status_of email false (page_data email csrf_token) s

  abbrev pub page_for : Request → Identity × S → Outcome × S
  page_for r (refused e, s) = (answers (identity_error a r e), s)
  page_for r (known email, s) = page_with email (csrf b.host codec email s)

  -- `handlePage`, up to `render`
  unfoldable pub handle_page : (S → Identity × S) → Request → S → Outcome × S
  handle_page identity r s = page_for r (identity s)

  abbrev pub revealed : PageData → OpenedFlash → PageData
  revealed d opened = record d {
    state = issued;
    token = opened.token;
    partial_cleanup = opened.partial;
  }

  abbrev pub revealed_at : PageData → OpenedFlash → Time × S → Outcome × S
  revealed_at d opened (now, s) =
      (shows (fill_from now opened.token_created opened.token_expires none (revealed d opened)), s)

  abbrev pub show_opened : Text → PageData → Result OpenedFlash → S → Outcome × S
  show_opened email d (err e) s = status_of email true d s
  show_opened email d (ok opened) s = revealed_at d opened (b.now s)

  abbrev pub show_at : Text → PageData → Text → Time × S → Outcome × S
  show_at email d value (now, s) = show_opened email d (open_flash codec value email now) s

  abbrev pub after_cookies : List SetCookie → Outcome × S → List SetCookie × Outcome × S
  after_cookies cookies (outcome, s) = (cookies, outcome, s)

  -- The delivery cookie is cleared before it is opened.
  abbrev pub show_cookie : Text → PageData → Option Text → S → List SetCookie × Outcome × S
  show_cookie email d none s = after_cookies [] (status_of email true d s)
  show_cookie email d (some value) s =
      after_cookies (clear_flash_cookie a.base_path ∷ []) (show_at email d value (b.now s))

  abbrev pub show_with : Text → Request → Result Text × S → List SetCookie × Outcome × S
  show_with email r (err e, s) = ([], not_prepared, s)
  show_with email r (ok csrf_token, s) =
      show_cookie email (page_data email csrf_token) (r.cookie flash_cookie_name) s

  abbrev pub show_for : Request → Identity × S → List SetCookie × Outcome × S
  show_for r (refused e, s) = ([], answers (identity_error a r e), s)
  show_for r (known email, s) = show_with email r (csrf b.host codec email s)

  -- `handleShow`, up to `render`
  unfoldable pub handle_show : (S → Identity × S) → Request → S → List SetCookie × Outcome × S
  handle_show identity r s = show_for r (identity s)
