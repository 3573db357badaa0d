-- ===== src/Grafana/Iam.antt =====
-- The IAM API of grafana.go: service accounts and tokens as Kubernetes-style resources, listed in
-- pages that a continuation token links.
use grafana_mcp_setup.Prelude.{
  ℕ, zero, suc, ◌/◌, Bool, false, ◌&&◌, ◌||◌, not, Option, none, some, List, [], ◌∷◌, ◌++◌, Text,
  codes, text_eq, contains, any, all, if◌then◌else◌,
}
use grafana_mcp_setup.Exec.{
  Error, failure, reconciliation, out_of_fuel, Result, ok, err, Exec, pure, raise, lift, attempt,
  ◌>>=◌, ◌>>◌,
}
use grafana_mcp_setup.Go.Strings.{to_lower}
use grafana_mcp_setup.Go.Time.{Time, second, after, zero_time}
use grafana_mcp_setup.Go.Url.{path_escape, query_escape}
use grafana_mcp_setup.Grafana.Types.{
  ServiceAccount, empty_account, SaToken, TokenWire, AccountPage, TokenPage, IssuedWire,
  IssuedToken, Resource, unix_time, viewer,
}
use grafana_mcp_setup.Grafana.Errors.{
  is_client_error, is_not_found, unexpected_name, abandon, as_reconciliation, bind_result,
}
use grafana_mcp_setup.Grafana.Net.{
  Net, Client, get, post, delete, no_body, account_body, token_body, no_output, do_request,
}
use grafana_mcp_setup.Prelude.Int.{pos}

abbrev pub iam_api_version : Text
iam_api_version = codes "iam.grafana.app/v0alpha1"

unfoldable pub collection_path : Client → Text
collection_path g =
    codes "/apis/iam.grafana.app/v0alpha1/namespaces/"
    ++ (path_escape g.namespace ++ codes "/serviceaccounts")

unfoldable pub tokens_path : Client → Text → Text
unfolding collection_path
tokens_path g sa_name = collection_path g ++ (codes "/" ++ (path_escape sa_name ++ codes "/tokens"))

-- url.Values.Encode, whose keys are sorted.
unfoldable pub page_query : Text → Text
page_query continuation =
    if text_eq continuation []
    then codes "limit=100"
    else codes "continue=" ++ (query_escape continuation ++ codes "&limit=100")

abbrev pub multiple_accounts : Error
multiple_accounts = failure (codes "multiple Grafana service accounts have title")

-- One match may be kept; a second one is an error.
unfoldable pub take_match : Option ServiceAccount → ServiceAccount → Result (Option ServiceAccount)
take_match none account = ok (some account)
take_match (some _) account = err multiple_accounts

-- The loop over `page.Items`.
unfoldable pub scan_items :
    Text → Option ServiceAccount → List ServiceAccount → Result (Option ServiceAccount)
unfolding take_match
scan_items title found [] = ok found
scan_items title found (account ∷ items) =
    bind_result (if text_eq account.title title then take_match found account else ok found)
      (λ f. scan_items title f items)

-- `digest` is the hexadecimal text of the first ten bytes of a SHA-256 sum.
abbrev pub resource_name : (Text → Text) → Text → Text
resource_name digest title = codes "mcp-" ++ digest (to_lower title)

-- The body of a new service account.
abbrev pub new_account : (Text → Text) → Text → Text → ServiceAccount
new_account digest namespace title = record {
  api_version = iam_api_version;
  kind = codes "ServiceAccount";
  name = resource_name digest title;
  generate_name = [];
  namespace = namespace;
  title = title;
  role = viewer;
  disabled = false;
  plugin = [];
}

-- The inner loops of `ready`: every resource of the name has every verb, and there is one.
abbrev pub named : Text → Resource → Bool
named name r = text_eq r.name name

unfoldable pub capable : List Resource → Text → List Text → Bool
capable resources name verbs =
    any (named name) resources
    && all (λ r. not (named name r) || all (contains r.verbs) verbs) resources

abbrev pub require_capability : List Resource → Text × List Text → Result (Unit {0})
require_capability resources (name, verbs) =
    if capable resources name verbs
    then ok tt
    else err (failure (codes "grafana IAM resource is unavailable or lacks a capability"))

abbrev pub accounts_capability : Text × List Text
accounts_capability = (codes "serviceaccounts", codes "list" ∷ codes "create" ∷ codes "delete" ∷ [])

abbrev pub tokens_capability : Text × List Text
tokens_capability =
    (codes "serviceaccounts/tokens", codes "get" ∷ codes "create" ∷ codes "delete" ∷ [])

abbrev pub no_issue : IssuedWire
no_issue = record { token = []; token_name = []; expires = pos 0 }

module _ {S : Type 0} where
  abbrev pub issued_at : Text → IssuedWire → Time × S → Result IssuedToken × S
  issued_at token_name out (t, s) = (
    ok (record {
      secret = out.token;
      name = token_name;
      created = t;
      expires = unix_time out.expires;
    }),
    s,
  )

module _ {S : Type 0} (net : Net S) where
  -- `expires != nil && time.Now().After(*expires)`: the clock is read only for a token that expires.
  abbrev pub has_expired_by : Option Time → S → Bool × S
  has_expired_by none s = (false, s)
  has_expired_by (some expires) s = let (t, s') = net.now s in (after t expires, s')

  abbrev pub to_token : TokenWire → Bool → SaToken
  to_token wire expired = record {
    id = wire.title;
    title = wire.title;
    revoked = wire.revoked;
    created = elim (unix_time wire.created) [ none ↦ zero_time | some t ↦ t ];
    expiration = unix_time wire.expires;
    last_used_at = unix_time wire.last_used;
    has_expired = expired;
  }

  -- The loop over `page.Items` of `tokens`.
  convert : List TokenWire → S → List SaToken × S
  convert [] s = ([], s)
  convert (wire ∷ wires) s =
      let (expired, s1) = has_expired_by (unix_time wire.expires) s in
      let (rest, s2) = convert wires s1 in (to_token wire expired ∷ rest, s2)

module _ {S : Type 0} (net : Net S) (g : Client) where
  abbrev pub account_page : Text → Exec S AccountPage
  account_page continuation =
      do_request net g (record { continuation = []; items = [] }) net.decode_accounts get
        (collection_path g ++ (codes "?" ++ page_query continuation)) no_body

  -- The page loop of `findServiceAccount`.
  unfoldable pub find_pages :
      ℕ → Text → Text → List Text → Option ServiceAccount → Exec S (Option ServiceAccount)
  find_pages zero title continuation seen found = raise out_of_fuel
  find_pages (suc fuel) title continuation seen found = do
    page ← account_page continuation
    found' ← lift (scan_items title found page.items)
    let next = find_pages fuel title page.continuation (page.continuation ∷ seen) found'
    if text_eq page.continuation []
        then pure found'
        else if contains seen page.continuation
        then raise
            (failure (codes "grafana service account pagination repeated a continuation token"))
        else next

  unfoldable pub find_service_account : ℕ → Text → Exec S (Option ServiceAccount)
  find_service_account fuel title = find_pages fuel title [] [] none

  unfoldable pub create_service_account : Text → Exec S ServiceAccount
  create_service_account title =
      do_request net g empty_account net.decode_account post (collection_path g)
        (account_body (new_account net.digest g.namespace title))

  unfoldable pub delete_service_account : Text → Exec S (Unit {0})
  delete_service_account name =
      do_request net g tt no_output delete (collection_path g ++ (codes "/" ++ path_escape name))
        no_body

  abbrev pub token_page : Text → Text → Exec S TokenPage
  token_page sa_name continuation =
      do_request net g (record { items = []; continuation = [] }) net.decode_tokens get
        (tokens_path g sa_name ++ (codes "?" ++ page_query continuation)) no_body

  -- The page loop of `tokens`.
  unfoldable pub token_pages : ℕ → Text → Text → List Text → List SaToken → Exec S (List SaToken)
  unfolding convert
  token_pages zero sa_name continuation seen found = raise out_of_fuel
  token_pages (suc fuel) sa_name continuation seen found = do
    page ← token_page sa_name continuation
    more ← (λ s. let (tokens, s') = convert net page.items s in (ok tokens, s'))
    let next = token_pages fuel sa_name page.continuation (page.continuation ∷ seen) (found ++ more)
    if text_eq page.continuation []
        then pure (found ++ more)
        else if contains seen page.continuation
        then raise (failure (codes "grafana token pagination repeated a continuation token"))
        else next

  unfoldable pub tokens : ℕ → Text → Exec S (List SaToken)
  tokens fuel sa_name = token_pages fuel sa_name [] [] []

  unfoldable pub delete_token : Text → Text → Exec S (Unit {0})
  delete_token sa_name token_id =
      do_request net g tt net.decode_message delete
        (tokens_path g sa_name ++ (codes "/" ++ path_escape token_id)) no_body

  unfoldable pub cleanup_undelivered_token : Text → Text → Exec S (Unit {0})
  unfolding delete_token
  cleanup_undelivered_token sa_name token_name = do
    failed ← attempt (delete_token sa_name token_name)
    as_reconciliation failed

  abbrev pub answered : IssuedWire → Text → Text → Exec S IssuedToken
  answered out sa_name token_name =
      if text_eq out.token []
      then abandon (failure (codes "grafana returned an empty service account token"))
          (cleanup_undelivered_token sa_name token_name)
      else if not (text_eq out.token_name token_name)
      then abandon (reconciliation unexpected_name) (cleanup_undelivered_token sa_name token_name)
      else λ s. issued_at token_name out (net.now s)

  abbrev pub refused : Error → Text → Text → Exec S IssuedToken
  refused e sa_name token_name =
      if is_client_error e
      then raise e
      else abandon e (cleanup_undelivered_token sa_name token_name)

  abbrev pub settle : Text → Text → Result IssuedWire × S → Result IssuedToken × S
  settle sa_name token_name (ok out, s) = answered out sa_name token_name s
  settle sa_name token_name (err e, s) = refused e sa_name token_name s

  unfoldable pub new_token : Text → Text → ℕ → Exec S IssuedToken
  new_token sa_name token_name ttl s = settle sa_name token_name (
      do_request net g no_issue net.decode_issued post (tokens_path g sa_name)
        (token_body token_name (ttl / second)) s)

  -- `ready`: the discovery document, then one page. `first` is the capability that the random order
  -- of Go's map iteration checks first; both are checked whatever it is.
  abbrev pub missing_api : Result (List Resource) × S → Result (List Resource) × S
  missing_api (ok resources, s) = (ok resources, s)
  missing_api (err e, s) =
      (err (if is_not_found e then failure (codes "grafana IAM API is unavailable") else e), s)

  unfoldable pub ready : Bool → Exec S (Unit {0})
  ready first = do
    resources ← (λ s. missing_api (
        do_request net g [] net.decode_discovery get (codes "/apis/" ++ iam_api_version) no_body s))
    lift (require_capability resources (if first then accounts_capability else tokens_capability))
    lift (require_capability resources (if first then tokens_capability else accounts_capability))
    do_request net g (record { continuation = []; items = [] }) net.decode_accounts get
        (collection_path g ++ codes "?limit=1") no_body
    pure tt
