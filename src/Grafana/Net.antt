-- ===== src/Grafana/Net.antt =====
-- `(*grafana).do` of grafana.go: one HTTP round trip, its metric, and what its answer means.
use grafana_mcp_setup.Prelude.{
  ℕ, ◌-◌, Bool, Option, none, some, List, ◌++◌, Text, codes, leb, ◌==◌, if◌then◌else◌,
}
use grafana_mcp_setup.Exec.{Error, failure, wrapped, api, Result, ok, err, Exec}
use grafana_mcp_setup.Go.Time.{Time}
use grafana_mcp_setup.Grafana.Types.{
  ServiceAccount, AccountPage, TokenPage, IssuedWire, Resource, LegacyServiceAccount,
  LegacySearchPage, LegacyToken, LegacyIssued,
}

pub data Method : Type 0 where
  get post delete : Method

-- The value that `json.Marshal` is given.
pub data Payload : Type 0 where
  no_body : Payload
  account_body : ServiceAccount → Payload
  token_body : Text → ℕ → Payload
  legacy_account_body : Text → Text → Bool → Payload
  legacy_token_body : Text → ℕ → Payload

pub record Request : Type 0 where
  pub method : Method
  pub url : Text
  pub authorization : Text
  pub payload : Payload

-- No HTTP answer (an invalid URL, a broken connection, an expired context), or a status and a body.
pub data Reply : Type 0 where
  failed : Error → Reply
  response : ℕ → Text → Reply

-- encoding/json, for each type that the client decodes; `none` is its error.
pub record Json : Type 0 where
  pub decode_accounts : Text → Option AccountPage
  pub decode_account : Text → Option ServiceAccount
  pub decode_tokens : Text → Option TokenPage
  pub decode_issued : Text → Option IssuedWire
  pub decode_message : Text → Option (Unit {0})
  pub decode_discovery : Text → Option (List Resource)
  pub decode_search : Text → Option LegacySearchPage
  pub decode_legacy_account : Text → Option LegacyServiceAccount
  pub decode_legacy_tokens : Text → Option (List LegacyToken)
  pub decode_legacy_issued : Text → Option LegacyIssued

-- What the client reaches outside the program, and its metrics.
pub record Net (S : Type 0) : Type 0 where
  pub json : Json
  pub open json use *
  -- SHA-256, its first ten bytes in hexadecimal.
  pub digest : Text → Text
  pub send : Request → S → Reply × S
  pub now : S → Time × S
  pub record_grafana : Method → ℕ → ℕ → S → S

-- type grafana; `metered` says that its `metrics` is not nil.
pub record Client : Type 0 where
  pub base : Text
  pub token : Text
  pub mode : Text
  pub namespace : Text
  pub metered : Bool

-- The status that the metric records: 0 if there was no HTTP answer.
abbrev pub reply_status : Reply → ℕ
reply_status (failed e) = 0
reply_status (response status body) = status

abbrev pub decoded {ℓ} : {A : Type ℓ} → Option A → Result A
decoded none = err (wrapped (codes "decoding Grafana response") (failure (codes "json")))
decoded (some a) = ok a

-- `zero` is the value that `out` keeps where nothing is decoded into it.
abbrev pub outcome {ℓ} : {A : Type ℓ} → A → (Text → Option A) → Reply → Result A
outcome zero decode (failed e) = err e
outcome zero decode (response status body) =
    if leb 300 status
    then err (api status)
    else if status == 204
    then ok zero
    else decoded (decode body)

-- A call with `out == nil`.
abbrev pub no_output : Text → Option (Unit {0})
no_output body = some tt

abbrev pub request_to : Client → Method → Text → Payload → Request
request_to g method path body = record {
  method = method;
  url = g.base ++ path;
  authorization = codes "Bearer " ++ g.token;
  payload = body;
}

module _ {S : Type 0} (net : Net S) (g : Client) where
  abbrev pub measure : Method → ℕ → Time → Time × S → S
  measure method status started (ended, s) =
      if g.metered then net.record_grafana method status (ended - started) s else s

  abbrev pub finish :
      {A : Type 0} → A → (Text → Option A) → Method → Time → Reply × S → Result A × S
  finish zero decode method started (reply, s) =
      (outcome zero decode reply, measure method (reply_status reply) started (net.now s))

  abbrev pub exchange :
      {A : Type 0} → A → (Text → Option A) → Method → Text → Payload → Time × S → Result A × S
  exchange zero decode method path body (started, s) =
      finish zero decode method started (net.send (request_to g method path body) s)

  unfoldable pub do_request :
      {A : Type 0} → A → (Text → Option A) → Method → Text → Payload → Exec S A
  do_request zero decode method path body s = exchange zero decode method path body (net.now s)
