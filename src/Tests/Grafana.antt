-- ===== src/Tests/Grafana.antt =====
-- The client against a transport that answers every request with the number of requests before it.
use grafana_mcp_setup.Prelude.{
  ◌+◌, ◌*◌, ℕ, zero, ◌≡◌, ◌≢◌, refl, true, Option, none, some, List, [], ◌∷◌, Text, codes, text_eq,
  text_eq_refl, contains, keep_if, arith,
}
use grafana_mcp_setup.Prelude.Int.{pos}
use grafana_mcp_setup.Exec.{out_of_fuel, ok, err}
use grafana_mcp_setup.Go.Time.{second}
use grafana_mcp_setup.Grafana.Types.{ServiceAccount, empty_account, AccountPage}
use grafana_mcp_setup.Grafana.Net.{Net, Client, response, do_request}
use grafana_mcp_setup.Grafana.Iam.{
  account_page, take_match, scan_items, find_pages, find_service_account, new_token,
}
use grafana_mcp_setup.Grafana.Pages.{
  Fetched, sole, is_titled, find_service_account-sole, find_service_account_total,
}
use grafana_mcp_setup.Grafana.Traffic.{
  Traffic, watched, NewTokenOutcome, issue_answer, new_token-Outcome,
}

abbrev named_account : ServiceAccount
named_account = record empty_account { title = codes "mcp-ann"; name = codes "sa-1" }

-- Two pages; the account stands on the second.
abbrev page_at : Text → Option AccountPage
page_at (zero ∷ _) = some (record { continuation = codes "c"; items = empty_account ∷ [] })
page_at _ = some (record { continuation = []; items = named_account ∷ [] })

-- The same continuation for ever.
abbrev same_page : Text → Option AccountPage
same_page _ = some (record { continuation = codes "c"; items = [] })

abbrev net : (Text → Option AccountPage) → Net ℕ
net accounts = record {
  json = record {
    decode_accounts = accounts;
    decode_account = λ t. none;
    decode_tokens = λ t. none;
    decode_issued =
        λ t. some (record { token = codes "glsa_1"; token_name = codes "other"; expires = pos 0 });
    decode_message = λ t. some tt;
    decode_discovery = λ t. none;
    decode_search = λ t. none;
    decode_legacy_account = λ t. none;
    decode_legacy_tokens = λ t. none;
    decode_legacy_issued = λ t. none;
  };
  digest = λ t. t;
  send = λ r n. (response 200 (n ∷ []), n + 1);
  now = λ n. (5, n);
  record_grafana = λ method status elapsed n. n;
}

abbrev client : Client
client = record {
  base = codes "http://grafana";
  token = codes "t";
  mode = codes "iam";
  namespace = codes "default";
  metered = true;
}

on_second_page :
    find_service_account (net page_at) client 3 (codes "mcp-ann") 0 ≡ (ok (some named_account), 2)
unfolding find_service_account find_pages scan_items take_match do_request text_eq
on_second_page = refl

find_service_account-sole_example :
    (items : List ServiceAccount) × Fetched (net page_at) client [] 0 items 2
    × (sole (keep_if (is_titled (codes "mcp-ann")) items) ≡ ok (some named_account))
find_service_account-sole_example =
    find_service_account-sole (net page_at) client 3 (codes "mcp-ann") 0 (some named_account) 2
      on_second_page

same_page-known :
    (c : Text) (s : ℕ) (page : AccountPage)
    → (account_page (net same_page) client c s).0 ≡ ok page
    → page.continuation ≢ []
    → contains (codes "c" ∷ []) page.continuation ≡ true
unfolding do_request
same_page-known c s page h k = grind (arith, text_eq_refl (codes "c"))

same_page-answers :
    (c : Text) (s : ℕ) → (account_page (net same_page) client c s).0 ≢ err out_of_fuel
unfolding do_request
same_page-answers c s h = grind arith

find_service_account_total_example :
    (find_service_account (net same_page) client 2 (codes "mcp-ann") 0).0 ≢ err out_of_fuel
find_service_account_total_example =
    find_service_account_total (net same_page) client (codes "c" ∷ []) same_page-known
      same_page-answers 2 (codes "mcp-ann") 0 (omega arith)

abbrev quiet : Traffic ℕ
quiet = record { inner = 0; sent = [] }

-- Grafana answers with a token of another name.
new_token-Outcome_example :
    let y =
      new_token (watched (net page_at)) client (codes "sa-1") (codes "mcp-1") (60 * second) quiet in
    NewTokenOutcome client
      (codes "sa-1")
      (codes "mcp-1")
      (60 * second)
      []
      (issue_answer (net page_at) client (codes "sa-1") (codes "mcp-1") (60 * second) quiet).0
      y.0
      y.1.sent
new_token-Outcome_example =
    new_token-Outcome (net page_at) client (codes "sa-1") (codes "mcp-1") (60 * second) quiet
