-- ===== src/Grafana/Types.antt =====
-- The data of grafana.go and grafana_legacy.go. A `*time.Time` is an `Option Time`.
use grafana_mcp_setup.Prelude.{
  Bool, false, Option, none, some, List, [], Text, codes, if◌then◌else◌,
}
use grafana_mcp_setup.Prelude.Int.{ℤ, is_positive}
use grafana_mcp_setup.Go.Time.{Time, time_of_unix}

-- metadata and spec in one record; CreationTimestamp, which nothing reads, is left out.
pub record ServiceAccount : Type 0 where
  pub api_version : Text
  pub kind : Text
  pub name : Text
  pub generate_name : Text
  pub namespace : Text
  pub title : Text
  pub role : Text
  pub disabled : Bool
  pub plugin : Text

-- `var sa serviceAccount`
abbrev pub empty_account : ServiceAccount
empty_account = record {
  api_version = [];
  kind = [];
  name = [];
  generate_name = [];
  namespace = [];
  title = [];
  role = [];
  disabled = false;
  plugin = [];
}

pub record SaToken : Type 0 where
  pub id : Text
  pub title : Text
  pub revoked : Bool
  pub created : Time
  pub expiration : Option Time
  pub last_used_at : Option Time
  pub has_expired : Bool

pub record TokenWire : Type 0 where
  pub title : Text
  pub revoked : Bool
  pub expires : ℤ
  pub created : ℤ
  pub updated : ℤ
  pub last_used : ℤ

pub record AccountPage : Type 0 where
  pub continuation : Text
  pub items : List ServiceAccount

pub record TokenPage : Type 0 where
  pub items : List TokenWire
  pub continuation : Text

-- The answer to a new token, in the IAM API.
pub record IssuedWire : Type 0 where
  pub token : Text
  pub token_name : Text
  pub expires : ℤ

pub record IssuedToken : Type 0 where
  pub secret : Text
  pub name : Text
  pub created : Time
  pub expires : Option Time

-- A resource of the IAM API's discovery document.
pub record Resource : Type 0 where
  pub name : Text
  pub verbs : List Text

pub record LegacyServiceAccount : Type 0 where
  pub id : ℤ
  pub name : Text
  pub role : Text
  pub is_disabled : Bool

pub record LegacySearchPage : Type 0 where
  pub total_count : ℤ
  pub service_accounts : List LegacyServiceAccount

pub record LegacyToken : Type 0 where
  pub id : ℤ
  pub name : Text
  pub created : Time
  pub expiration : Option Time
  pub last_used_at : Option Time
  pub has_expired : Bool

pub record LegacyIssued : Type 0 where
  pub id : ℤ
  pub name : Text
  pub key : Text

unfoldable pub unix_time : ℤ → Option Time
unix_time v = if is_positive v then some (time_of_unix v) else none

abbrev pub viewer : Text
viewer = codes "Viewer"
