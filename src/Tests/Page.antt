-- ===== src/Tests/Page.antt =====
-- A page that shows a token.
use grafana_mcp_setup.Prelude.{
  ℕ, ◌*◌, ◌≡◌, ◌≢◌, ◌⊎◌, refl, false, none, some, List, [], Text, codes, text_eq, arith,
}
use grafana_mcp_setup.Prelude.Int.{pos}
use grafana_mcp_setup.Exec.{Error}
use grafana_mcp_setup.Go.Base64.{decode}
use grafana_mcp_setup.Go.Time.{second, unix}
use grafana_mcp_setup.Grafana.Types.{SaToken, unix_time}
use grafana_mcp_setup.Cookies.Flash.{FlashCodec, FlashPayload, csrf, open_flash, accept}
use grafana_mcp_setup.Web.Oidc.{Auth}
use grafana_mcp_setup.Web.Page.{fill_from, handle_page, handle_show}
use grafana_mcp_setup.Web.Show.{token_of, IsRevealed, handle_show-IsRevealed}
use grafana_mcp_setup.Tests.Rotation.{codec, works, start, ann}
use grafana_mcp_setup.Tests.Web.{as_ann}
use grafana_mcp_setup.Tests.Native.{request}

abbrev delivery : FlashPayload
delivery = record {
  version = 1;
  email = ann;
  token = codes "glsa_1";
  expires = pos 100;
  token_created = pos 10;
  token_expires = pos 0;
  partial = false;
}

abbrev delivering : FlashCodec
delivering = record codec {
  coding = record { marshal = λ p. p.token; unmarshal = λ t. some delivery };
}

abbrev auth : Auth (List SaToken)
auth = record {
  auth_mode = codes "proxy";
  id_token_source = codes "header";
  id_token_header = codes "X-Token";
  id_token_cookie = [];
  required_groups = [];
  base_path = codes "/mcp";
  session_ttl = 0;
  session = none;
  oauth = none;
  verifier = none;
  host = works.host;
  sha256 = λ t. t;
  record_auth = λ kind s. s;
}

abbrev no_audit : Text → Error → List SaToken → List SaToken
no_audit email e s = s

abbrev ttl : ℕ
ttl = 3600 * second

shown :
    token_of (handle_show works delivering auth ttl no_audit as_ann request start.inner).1
    ≡ codes "glsa_1"
unfolding handle_show csrf open_flash accept decode unix fill_from text_eq unix_time
shown = refl

shown_nonempty :
    token_of (handle_show works delivering auth ttl no_audit as_ann request start.inner).1 ≢ []
shown_nonempty e = ground (arith, shown, e)

handle_show-IsRevealed_example :
    ((token_of (handle_show works delivering auth ttl no_audit as_ann request start.inner).1 ≡ [])
      ⊎ IsRevealed works delivering auth ttl no_audit as_ann request start.inner
          (token_of (handle_show works delivering auth ttl no_audit as_ann request start.inner).1))
    × (token_of (handle_page works delivering auth ttl no_audit as_ann request start.inner).0 ≡ [])
handle_show-IsRevealed_example =
    handle_show-IsRevealed works delivering auth ttl no_audit as_ann request start.inner
