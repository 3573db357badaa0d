-- ===== src/Tests/Web.antt =====
-- A request of a signed-in user.
use grafana_mcp_setup.Prelude.{
  ℕ, ◌*◌, ◌≡◌, refl, Option, none, some, List, [], ◌∷◌, Text, codes, text_eq,
}
use grafana_mcp_setup.Exec.{ok}
use grafana_mcp_setup.Go.Base64.{encode, decode}
use grafana_mcp_setup.Go.Strings.{to_lower, count_byte, split}
use grafana_mcp_setup.Go.Strconv.{parse_int}
use grafana_mcp_setup.Go.Time.{unix, second}
use grafana_mcp_setup.Grafana.Types.{SaToken}
use grafana_mcp_setup.Cookies.Flash.{
  FlashCodec, validate_csrf, seal_prepared, prepare, prepare_delivery,
}
use grafana_mcp_setup.Rotation.Account.{validate}
use grafana_mcp_setup.Rotation.Issue.{delete_old, rotate, issue, token_name, prepare_and_issue}
use grafana_mcp_setup.Web.Identity.{Identity, known, valid_email, cut, authorise}
use grafana_mcp_setup.Web.Origin.{Url}
use grafana_mcp_setup.Web.Mutation.{
  Submission, valid_mutation_request, IsVerified, valid_mutation_request-IsVerified,
}
use grafana_mcp_setup.Web.Handlers.{Site, handle_issue, IsIssued, handle_issue-IsIssued}
use grafana_mcp_setup.Tests.Rotation.{at_second, codec, works, start, ann}

abbrev denials : Text → ℕ → ℕ
denials kind n = n

abbrev pub staff : List Text
staff = codes "staff" ∷ []

abbrev no_denials : ℕ
no_denials = 0

signed_in : authorise denials staff (codes "Ann@example.com") staff 0 ≡ (known ann, 0)
unfolding authorise valid_email cut count_byte to_lower text_eq
signed_in = refl

abbrev no_urls : Text → Option Url
no_urls t = none

abbrev pub origin : Text
origin = codes "https://app"

abbrev pub submission : Submission
submission = record {
  sec_fetch_site = codes "same-origin";
  origin = [];
  referer = [];
  form = some (codes "100.CQ.Bw");
}

abbrev pub constant_codec : FlashCodec
constant_codec = record codec { mac = λ m. 7 ∷ [] }

let_through :
    valid_mutation_request no_urls constant_codec origin submission ann (at_second 50) ≡ ok tt
unfolding valid_mutation_request validate_csrf split parse_int decode unix text_eq
let_through = refl

valid_mutation_request-IsVerified_example :
    IsVerified no_urls constant_codec origin submission ann (at_second 50)
valid_mutation_request-IsVerified_example =
    valid_mutation_request-IsVerified no_urls constant_codec origin submission ann (at_second 50)
      let_through

abbrev pub site : Site
site = record {
  app_origin = origin;
  base_path = codes "/mcp";
  token_ttl = 3600 * second;
  flash_ttl = 60 * second;
}

abbrev pub as_ann : List SaToken → Identity × List SaToken
as_ann s = (known ann, s)

redirected :
    (handle_issue works constant_codec site no_urls
      (λ a s. s)
      as_ann
      submission
      start.inner).0.status
    ≡ 303
unfolding handle_issue valid_mutation_request validate_csrf split parse_int decode unix text_eq
    prepare_and_issue prepare_delivery prepare issue rotate validate delete_old token_name
    seal_prepared encode
redirected = refl

handle_issue-IsIssued_example :
    IsIssued works constant_codec site no_urls
      (λ a s. s)
      as_ann
      submission
      start.inner
      (handle_issue works constant_codec site no_urls (λ a s. s) as_ann submission start.inner).0
handle_issue-IsIssued_example =
    handle_issue-IsIssued works constant_codec site no_urls (λ a s. s) as_ann submission start.inner
      redirected
