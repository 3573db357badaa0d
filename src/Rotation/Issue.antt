-- ===== src/Rotation/Issue.antt =====
-- `prepareAndIssue` and `issue`: a replacement is created before the old tokens are deleted.
use grafana_mcp_setup.Prelude.{
  ℕ, Bool, true, false, ◌||◌, Option, none, some, List, [], ◌∷◌, ◌++◌, Text, codes, length, ltb,
  if◌then◌else◌,
}
use grafana_mcp_setup.Exec.{
  Error, failure, delivery, join, Result, ok, err, Exec, pure, attempt, and_then, ◌>>=◌, ◌>>◌,
}
use grafana_mcp_setup.Go.Time.{Time, unix}
use grafana_mcp_setup.Grafana.Types.{ServiceAccount, SaToken, IssuedToken}
use grafana_mcp_setup.Cookies.Flash.{
  FlashCodec, FlashPreparation, DeliveryPreparation, prepare_delivery, seal_prepared,
}
use grafana_mcp_setup.Rotation.Backend.{Backend}
use grafana_mcp_setup.Rotation.Account.{validate, title_of, clock, hex, base36}

-- type issueResult
pub record IssueResult : Type 0 where
  pub token : Text
  pub flash_cookie : Text
  pub partial_cleanup : Bool
  pub account_id : Text
  pub token_name : Text

abbrev pub no_issue : IssueResult
no_issue = record {
  token = [];
  flash_cookie = [];
  partial_cleanup = false;
  account_id = [];
  token_name = [];
}

-- `issue` returns what it has beside its error; `action` is the label of the metric.
pub record Issued : Type 0 where
  pub issued : IssueResult
  pub error : Option Error
  pub action : Text

abbrev pub issue_action : Text
issue_action = codes "issue"

abbrev pub reissue_action : Text
reissue_action = codes "reissue"

abbrev pub max_flash_cookie : ℕ
max_flash_cookie = 3800

abbrev pub oversize : Error
oversize = failure (codes "replacement token exceeded the delivery cookie limit")

-- The result of the deferred metric.
unfoldable pub result_of : Option Error → Bool → Text
result_of (some e) partial = codes "failure"
result_of none partial = if partial then codes "partial" else codes "success"

abbrev pub failed : Text → Error → Issued
failed action e = record { issued = no_issue; error = some e; action = action }

-- `tokenName`
unfoldable pub token_name : Time → Text → Text
token_name now entropy = codes "mcp-" ++ (base36 (unix now) ++ (codes "-" ++ hex entropy))

-- One round of the cleanup loop: a failed check or deletion ends it.
abbrev pub unless_failed {ℓ} : {S : Type ℓ} → Result (Unit {0}) × S → (S → Bool × S) → Bool × S
unless_failed (ok _, s) rest = rest s
unless_failed (err _, s) rest = (true, s)

module _ {S : Type 0} (b : Backend S) where
  -- The loop over the old tokens: `true` if it stopped at one that it could not delete.
  unfoldable pub delete_old : ℕ → Text → List SaToken → S → Bool × S
  delete_old guard sa_name [] s = (false, s)
  delete_old guard sa_name (t ∷ ts) s =
      unless_failed (and_then (b.check guard s) (λ _. b.delete_token sa_name t.id))
        (delete_old guard sa_name ts)

-- What `issue` reads of its server and its caller.
module _ {S : Type 0} (b : Backend S) (codec : FlashCodec) (ttl : ℕ) (email : Text)
    (prepared : DeliveryPreparation) where
  abbrev pub cookie : Bool → FlashPreparation → IssuedToken → Text
  cookie partial preparation created =
      seal_prepared codec preparation email created.secret partial created.created created.expires

  abbrev pub success_cookie : IssuedToken → Text
  success_cookie created = cookie false prepared.success created

  abbrev pub partial_cookie : IssuedToken → Text
  partial_cookie created = cookie true prepared.partial created

  abbrev pub is_oversize : IssuedToken → Bool
  is_oversize created =
      ltb max_flash_cookie (length (success_cookie created))
      || ltb max_flash_cookie (length (partial_cookie created))

  abbrev pub result_with : Text → Text → IssuedToken → Text → Bool → IssueResult
  result_with account name created value partial = record {
    token = created.secret;
    flash_cookie = value;
    partial_cleanup = partial;
    account_id = account;
    token_name = name;
  }

  -- A cookie that is too long: the new token is deleted again.
  abbrev pub undelivered : Text → Text → Text → IssuedToken → Result (Option Error) × S → Issued × S
  undelivered action account name created (ok e, s) = (
    record {
      issued = result_with account name created [] false;
      error = some (join oversize e);
      action = action;
    },
    s,
  )
  undelivered action account name created (err e, s) = (failed action e, s)

  abbrev pub cleaned_up : Text → Text → Text → IssuedToken → Bool × S → Issued × S
  cleaned_up action account name created (partial, s) = (
    record {
      issued =
          result_with account name created
            (if partial then partial_cookie created else success_cookie created) partial;
      error = none;
      action = action;
    },
    s,
  )

  abbrev pub delivered : Text → ℕ → Text → Text → List SaToken → IssuedToken → S → Issued × S
  delivered action guard account name old created s =
      if is_oversize created
      then undelivered action account name created (attempt (b.cleanup account created.name) s)
      else cleaned_up action account name created (delete_old b guard account old s)

  abbrev pub minted : Text → ℕ → Text → Text → List SaToken → Result IssuedToken × S → Issued × S
  minted action guard account name old (err e, s) = (
    record {
      issued = record no_issue { account_id = account; token_name = name };
      error = some e;
      action = action;
    },
    s,
  )
  minted action guard account name old (ok created, s) =
      delivered action guard account name old created s

  -- The old tokens, the entropy, the time and the check, in this order.
  abbrev pub before_minting : ℕ → Text → Exec S (List SaToken × Text)
  before_minting guard account = do
    old ← b.tokens account
    entropy ← b.random 6
    now ← clock b
    b.check guard
    pure (old, token_name now entropy)

  abbrev pub listed : Text → ℕ → Text → Result (List SaToken × Text) × S → Issued × S
  listed action guard account (err e, s) = (failed action e, s)
  listed action guard account (ok (old, name), s) =
      minted action guard account name old (b.new_token account name ttl s)

  abbrev pub validated : Text → ℕ → Text → Result (Unit {0}) → S → Issued × S
  validated action guard account (err e) s = (failed action e, s)
  validated action guard account (ok _) s =
      listed action guard account (before_minting guard account s)

  unfoldable pub rotate : Text → ℕ → ServiceAccount → S → Issued × S
  rotate action guard sa s = validated action guard sa.name (validate sa) s

  abbrev pub created : ℕ → Result ServiceAccount × S → Issued × S
  created guard (err e, s) = (failed issue_action e, s)
  created guard (ok sa, s) = rotate issue_action guard sa s

  abbrev pub on_account : ℕ → Result (Option ServiceAccount) × S → Issued × S
  on_account guard (err e, s) = (failed issue_action e, s)
  on_account guard (ok none, s) =
      created guard (and_then (b.check guard s) (λ _. b.create (title_of email)))
  on_account guard (ok (some sa), s) = rotate reissue_action guard sa s

  -- `defer guard.Release()`
  abbrev pub released : ℕ → Issued × S → Issued × S
  released guard (r, s) = (r, b.release guard s)

  abbrev pub locked : Result ℕ × S → Issued × S
  locked (err e, s) = (failed issue_action e, s)
  locked (ok guard, s) = released guard (on_account guard (b.find (title_of email) s))

  -- The deferred metric, which runs last.
  abbrev pub recorded : Issued × S → Issued × S
  recorded (r, s) = (r, b.record_action r.action (result_of r.error r.issued.partial_cleanup) s)

  unfoldable pub issue : S → Issued × S
  unfolding rotate
  issue s = recorded (locked (b.acquire email s))

module _ {S : Type 0} (b : Backend S) (codec : FlashCodec) (ttl : ℕ) (email : Text) where
  abbrev pub prepared_issue : Result DeliveryPreparation × S → Issued × S
  prepared_issue (err e, s) = (
    record { issued = no_issue; error = some (delivery e); action = issue_action },
    b.record_action issue_action (codes "failure") s,
  )
  prepared_issue (ok prepared, s) = issue b codec ttl email prepared s

  unfoldable pub prepare_and_issue : S → Issued × S
  prepare_and_issue s = prepared_issue (prepare_delivery b.host codec s)
