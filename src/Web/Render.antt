-- ===== src/Web/Render.antt =====
-- `render` of page.go around the template, and the two handlers that end in it.
use grafana_mcp_setup.Prelude.{ℕ, List, [], ◌∷◌, ◌++◌, Text, codes, text_eq, if◌then◌else◌}
use grafana_mcp_setup.Exec.{Error, Result, ok, err, Exec}
use grafana_mcp_setup.Go.Base64
use grafana_mcp_setup.Cookies.Flash.{FlashCodec}
use grafana_mcp_setup.Rotation.Backend.{Backend}
use grafana_mcp_setup.Config.Load.{Config}
use grafana_mcp_setup.Snippet.Formats.{McpFormat, formats}
use grafana_mcp_setup.Web.Response.{Response, http_error, SetCookie}
use grafana_mcp_setup.Web.Oidc.{Auth, Request, is_native, identity}
use grafana_mcp_setup.Web.Assets.{Asset, asset_url}
use grafana_mcp_setup.Web.Page.{
  PageState, nothing, active, issued, PageData, Outcome, shows, answers, handle_page, handle_show,
}

-- A run of `maskWidth` asterisks, or what stands for a token that cannot be shown.
abbrev pub mask_of : PageState → Text
mask_of issued = codes "************"
mask_of active = codes "<your token>"
mask_of nothing = []

abbrev pub formats_of : Text → Text → List McpFormat
formats_of public_url mask = if text_eq mask [] then [] else formats public_url mask

abbrev pub page_policy : Text → Text
page_policy nonce =
    codes "default-src 'none'; style-src 'self' 'nonce-"
    ++ (nonce
        ++ codes
            "'; script-src 'self'; base-uri 'none'; form-action 'self'; frame-ancestors 'none'")

abbrev pub page_response : Text → Text → Response
page_response nonce body = record {
  status = 200;
  location = [];
  cookies = [];
  headers =
      (codes "Content-Type", codes "text/html; charset=utf-8")
      ∷ (codes "Cache-Control", codes "no-store")
      ∷ (codes "Content-Security-Policy", page_policy nonce)
      ∷ [];
  body = body;
}

-- `execute` is the template of page.go, over the data and its formats.
module _ {S : Type 0} (cfg : Config) (assets : List Asset) (random : ℕ → Exec S Text)
    (execute : PageData → List McpFormat → Text) where
  abbrev pub completed : PageData → Text → PageData
  completed d nonce = record d {
    enable_env_setup = cfg.enable_env_setup;
    native_auth = is_native cfg.auth_mode;
    public_url = cfg.public_url;
    base_path = cfg.base_path;
    mask = mask_of d.state;
    csp_nonce = nonce;
    style_url = asset_url assets cfg.base_path (codes "app.css");
    script_url = asset_url assets cfg.base_path (codes "app.js");
  }

  abbrev pub rendered : PageData → Result Text × S → Response × S
  rendered d (err e, s) = (http_error 500 (codes "could not prepare the page"), s)
  rendered d (ok b, s) =
      let nonce = Base64.encode b in
      (
        page_response nonce
            (execute (completed d nonce) (formats_of cfg.public_url (mask_of d.state))),
        s,
      )

  unfoldable pub render : PageData → S → Response × S
  render d s = rendered d (random 18 s)

  abbrev pub finish : Outcome × S → Response × S
  finish (answers response, s) = (response, s)
  finish (shows d, s) = render d s

  abbrev pub with_cookies : List SetCookie → Response × S → Response × S
  with_cookies cookies (response, s) =
      (record response { cookies = cookies ++ response.cookies }, s)

  abbrev pub finish_with : List SetCookie × Outcome × S → Response × S
  finish_with (cookies, outcome, s) = with_cookies cookies (finish (outcome, s))

module _ {S : Type 0} (b : Backend S) (codec : FlashCodec) (a : Auth S) (cfg : Config)
    (assets : List Asset) (execute : PageData → List McpFormat → Text)
    (audit_status : Text → Error → S → S) where
  -- The handlers of `GET` at the base path and below it, at "/token".
  unfoldable pub get_page : Request → S → Response × S
  unfolding handle_page identity render
  get_page r s =
      finish cfg assets b.random execute
        (handle_page b codec a cfg.token_ttl audit_status (identity a r) r s)

  unfoldable pub get_token : Request → S → Response × S
  unfolding handle_show identity render
  get_token r s =
      finish_with cfg assets b.random execute
        (handle_show b codec a cfg.token_ttl audit_status (identity a r) r s)
