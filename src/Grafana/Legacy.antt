-- ===== src/Grafana/Legacy.antt =====
-- grafana_legacy.go: the API under /api/serviceaccounts, with numeric IDs and numbered pages.
use grafana_mcp_setup.Prelude.{
  ℕ, zero, suc, ◌+◌, ◌/◌, Bool, true, false, ◌||◌, not, Option, none, some, List, [], ◌∷◌, ◌++◌,
  Text, codes, text_eq, length, leb, ltb, keep_if, if◌then◌else◌,
}
use grafana_mcp_setup.Prelude.Int.{ℤ, pos, negsuc, is_positive, is_negative}
use grafana_mcp_setup.Exec.{
  Error, failure, wrapped, reconciliation, reconciliation_of, Result, ok, err, Exec, pure, raise,
  lift, attempt, and_then, ◌>>=◌, ◌>>◌,
}
use grafana_mcp_setup.Go.Strconv.{format_int, parse_int}
use grafana_mcp_setup.Go.Time.{Time, second, after}
use grafana_mcp_setup.Go.Url.{query_escape}
use grafana_mcp_setup.Grafana.Types.{
  ServiceAccount, empty_account, SaToken, IssuedToken, LegacyServiceAccount, LegacySearchPage,
  LegacyToken, LegacyIssued, viewer,
}
use grafana_mcp_setup.Grafana.Errors.{
  is_client_error, unexpected_name, abandon, as_reconciliation, bind_result,
}
use grafana_mcp_setup.Grafana.Net.{
  Net, Client, get, post, delete, no_body, legacy_account_body, legacy_token_body, no_output,
  do_request,
}
use grafana_mcp_setup.Grafana.Iam.{multiple_accounts}

abbrev pub accounts_path : Text
accounts_path = codes "/api/serviceaccounts"

unfoldable pub normalize_account : LegacyServiceAccount → Result ServiceAccount
normalize_account wire =
    if is_positive wire.id
    then ok (record empty_account {
      name = format_int wire.id;
      title = wire.name;
      role = wire.role;
      disabled = wire.is_disabled;
    })
    else err (failure (codes "grafana returned an invalid legacy service account ID"))

-- `legacyNumericID`: the decimal text of a positive int64.
unfoldable pub numeric_id : Text → Result Text
numeric_id raw = elim (parse_int raw) [
  | none ↦ err (failure (codes "invalid legacy Grafana ID"))
  | some id ↦
      if is_positive id
      then ok (format_int id)
      else err (failure (codes "invalid legacy Grafana ID"))
]

-- One entry of a search page: other names are passed over, a second match is an error.
unfoldable pub take_wire :
    Text → Option ServiceAccount → LegacyServiceAccount → Result (Option ServiceAccount)
unfolding normalize_account
take_wire title none wire =
    if text_eq wire.name title
    then bind_result (normalize_account wire) (λ account. ok (some account))
    else ok none
take_wire title (some account) wire =
    if text_eq wire.name title then err multiple_accounts else ok (some account)

-- The loop over `page.ServiceAccounts`.
unfoldable pub scan_wires :
    Text → Option ServiceAccount → List LegacyServiceAccount → Result (Option ServiceAccount)
unfolding take_wire
scan_wires title found [] = ok found
scan_wires title found (wire ∷ wires) =
    bind_result (take_wire title found wire) (λ f. scan_wires title f wires)

-- `const perPage = 100`, and the bound of the page loop.
abbrev pub per_page : ℕ
per_page = 100

abbrev pub max_pages : ℕ
max_pages = 10000

unfoldable pub search_query : ℕ → Text → Text
search_query page title =
    codes "page=" ++ (format_int (pos page) ++ (codes "&perpage=100&query=" ++ query_escape title))

-- `seen >= page.TotalCount`
abbrev pub reaches : ℕ → ℤ → Bool
reaches seen (pos total) = leb total seen
reaches seen (negsuc _) = true

abbrev pub no_search : LegacySearchPage
no_search = record { total_count = pos 0; service_accounts = [] }

abbrev pub no_account : LegacyServiceAccount
no_account = record { id = pos 0; name = []; role = []; is_disabled = false }

abbrev pub no_issue : LegacyIssued
no_issue = record { id = pos 0; name = []; key = [] }

abbrev pub is_titled : Text → SaToken → Bool
is_titled name t = text_eq t.title name

module _ {S : Type 0} (net : Net S) where
  -- `token.HasExpired || token.Expiration != nil && !token.Expiration.After(time.Now())`
  abbrev pub expiry_by : Option Time → S → Bool × S
  expiry_by none s = (false, s)
  expiry_by (some expires) s = let (t, s') = net.now s in (not (after expires t), s')

  abbrev pub expired_by : LegacyToken → S → Bool × S
  expired_by token s = if token.has_expired then (true, s) else expiry_by token.expiration s

  abbrev pub to_token : LegacyToken → Bool → SaToken
  to_token token expired = record {
    id = format_int token.id;
    title = token.name;
    revoked = false;
    created = token.created;
    expiration = token.expiration;
    last_used_at = token.last_used_at;
    has_expired = expired;
  }

  -- The loop of `legacyTokens`.
  unfoldable pub convert : List LegacyToken → Exec S (List SaToken)
  convert [] = pure []
  convert (token ∷ rest) = do
    lift (
        if is_positive token.id
        then ok tt
        else err (failure (codes "grafana returned an invalid legacy service account token ID")))
    expired ← (λ s. let (b, s') = expired_by token s in (ok b, s'))
    more ← convert rest
    pure (to_token token expired ∷ more)

module _ {S : Type 0} (net : Net S) (g : Client) where
  abbrev pub search : Text → Exec S LegacySearchPage
  search query =
      do_request net g no_search net.decode_search get
        (accounts_path ++ (codes "/search?" ++ query)) no_body

  abbrev pub unavailable : Result LegacySearchPage × S → Result (Unit {0}) × S
  unavailable (ok page, s) = (ok tt, s)
  unavailable (err e, s) =
      (err (wrapped (codes "grafana legacy service account API is unavailable") e), s)

  unfoldable pub ready : Exec S (Unit {0})
  ready s = unavailable (search (codes "page=1&perpage=1") s)

  -- The page loop of `legacyFindServiceAccount`: `left` pages may still be read.
  unfoldable pub find_from :
      ℕ → Text → ℕ → ℕ → Option ServiceAccount → Exec S (Option ServiceAccount)
  find_from zero title page_number seen found =
      raise (failure (codes "grafana legacy service account pagination exceeded its limit"))
  find_from (suc left) title page_number seen found = do
    page ← search (search_query page_number title)
    lift (
        if is_negative page.total_count
        then err (failure (codes "grafana returned an invalid legacy service account count"))
        else ok tt)
    found' ← lift (scan_wires title found page.service_accounts)
    let seen' = seen + length page.service_accounts
    let next = find_from left title (page_number + 1) seen' found'
    if ltb (length page.service_accounts) per_page || reaches seen' page.total_count
        then pure found'
        else next

  unfoldable pub find_service_account : Text → Exec S (Option ServiceAccount)
  find_service_account title = find_from max_pages title 1 0 none

  unfoldable pub create_service_account : Text → Exec S ServiceAccount
  create_service_account title = do
    wire ←
        do_request net g no_account net.decode_legacy_account post accounts_path
          (legacy_account_body title viewer false)
    lift (normalize_account wire)

  unfoldable pub delete_service_account : Text → Exec S (Unit {0})
  delete_service_account sa_id = do
    id ← lift (numeric_id sa_id)
    do_request net g tt no_output delete (accounts_path ++ (codes "/" ++ id)) no_body

  unfoldable pub tokens : Text → Exec S (List SaToken)
  unfolding convert numeric_id
  tokens sa_id = do
    id ← lift (numeric_id sa_id)
    wire ←
        do_request net g [] net.decode_legacy_tokens get
          (accounts_path ++ (codes "/" ++ (id ++ codes "/tokens"))) no_body
    convert net wire

  unfoldable pub delete_token : Text → Text → Exec S (Unit {0})
  unfolding numeric_id
  delete_token sa_id token_id = do
    sa ← lift (numeric_id sa_id)
    id ← lift (numeric_id token_id)
    do_request net g tt no_output delete
        (accounts_path ++ (codes "/" ++ (sa ++ (codes "/tokens/" ++ id)))) no_body

  abbrev pub single : List SaToken → Result SaToken
  single (token ∷ []) = ok token
  single _ = err (reconciliation (codes "found legacy tokens with the requested name"))

  abbrev pub remove_listed : Text → SaToken → Exec S (Unit {0})
  remove_listed sa_id token = do
    failed ← attempt (delete_token sa_id token.id)
    as_reconciliation failed

  abbrev pub remove_titled : Text → Text → Result (List SaToken) × S → Result (Unit {0}) × S
  remove_titled sa_id token_name (err e, s) = (err (reconciliation_of e), s)
  remove_titled sa_id token_name (ok listed, s) =
      and_then (single (keep_if (is_titled token_name) listed), s) (remove_listed sa_id)

  unfoldable pub cleanup_undelivered_token : Text → Text → Exec S (Unit {0})
  unfolding tokens delete_token
  cleanup_undelivered_token sa_id token_name s = remove_titled sa_id token_name (tokens sa_id s)

  abbrev pub issued_at : Text → LegacyIssued → ℕ → Time × S → Result IssuedToken × S
  issued_at token_name out ttl (t, s) = (
    ok (record { secret = out.key; name = token_name; created = t; expires = some (t + ttl) }),
    s,
  )

  abbrev pub answered : LegacyIssued → Text → Text → ℕ → Exec S IssuedToken
  answered out sa_id token_name ttl =
      if text_eq out.key []
      then abandon (failure (codes "grafana returned an empty service account token"))
          (cleanup_undelivered_token sa_id token_name)
      else if not (text_eq out.name token_name)
      then abandon (reconciliation unexpected_name) (cleanup_undelivered_token sa_id token_name)
      else λ s. issued_at token_name out ttl (net.now s)

  abbrev pub refused : Error → Text → Text → Exec S IssuedToken
  refused e sa_id token_name =
      if is_client_error e then raise e else abandon e (cleanup_undelivered_token sa_id token_name)

  abbrev pub settle : Text → Text → ℕ → Result LegacyIssued × S → Result IssuedToken × S
  settle sa_id token_name ttl (ok out, s) = answered out sa_id token_name ttl s
  settle sa_id token_name ttl (err e, s) = refused e sa_id token_name s

  unfoldable pub new_token : Text → Text → ℕ → Exec S IssuedToken
  unfolding numeric_id
  new_token sa_id token_name ttl = do
    id ← lift (numeric_id sa_id)
    λ s. settle id token_name ttl (
        do_request net g no_issue net.decode_legacy_issued post
          (accounts_path ++ (codes "/" ++ (id ++ codes "/tokens")))
          (legacy_token_body token_name (ttl / second)) s)
