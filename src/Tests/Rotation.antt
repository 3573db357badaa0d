-- ===== src/Tests/Rotation.antt =====
-- Issuing and revoking against a backend that keeps one account's tokens in a list.
use grafana_mcp_setup.Prelude.{
  ◌+◌, ◌*◌, ℕ, ◌≡◌, refl, ◌⊎◌, Bool, true, false, none, some, List, [], ◌∷◌, Text, codes, text_eq,
  if◌then◌else◌, keep_if, not,
}
use grafana_mcp_setup.Prelude.Int.{pos}
use grafana_mcp_setup.Exec.{failure, ok, err}
use grafana_mcp_setup.Go.Base64.{encode}
use grafana_mcp_setup.Go.Time.{Time, second, unix_epoch}
use grafana_mcp_setup.Grafana.Types.{ServiceAccount, SaToken, empty_account, viewer}
use grafana_mcp_setup.Cookies.Flash.{FlashCodec, DeliveryPreparation, seal_prepared}
use grafana_mcp_setup.Rotation.Backend.{Backend}
use grafana_mcp_setup.Rotation.Account.{validate, title_of, newest, live_token}
use grafana_mcp_setup.Rotation.Issue.{Issued, delete_old, rotate, issue, token_name}
use grafana_mcp_setup.Rotation.Revoke.{Revoked, revoke, delete_all}
use grafana_mcp_setup.Rotation.Newest.{LiveAnswer, NoAccount, live_token-IsNewest}
use grafana_mcp_setup.Rotation.Delivery.{IsDelivered, issue-IsDelivered}
use grafana_mcp_setup.Rotation.Trace.{Event, Logged, logged, action, unlock, audited}
use grafana_mcp_setup.Rotation.Trace.Fenced.{Fenced, Held, Holding, issue-Fenced, issue-Held}
use grafana_mcp_setup.Rotation.Trace.Deletions.{tried_deletions}
use grafana_mcp_setup.Rotation.Trace.Issuing.{
  Rotated, PartlyRotated, issue-Rotated, issue-PartlyRotated, issue-tried_deletions,
}
use grafana_mcp_setup.Rotation.Trace.Revoking.{
  AllDeleted, NothingToDelete, IsCounted, revoke-AllDeleted, revoke-IsCounted,
}

abbrev pub at_second : ℕ → Time
at_second n = (unix_epoch + n) * second

abbrev pub old_token : Text → ℕ → SaToken
old_token id n = record {
  id = id;
  title = id;
  revoked = false;
  created = at_second n;
  expiration = none;
  last_used_at = none;
  has_expired = false;
}

abbrev account : ServiceAccount
account = record empty_account { name = codes "sa-1"; role = viewer }

-- `refused` is the token that the backend does not delete, `lost` says that no guard is had.
abbrev pub backend : Text → Bool → Backend (List SaToken)
backend refused lost = record {
  host = record { now = λ s. (at_second 50, s); random = λ n s. (ok (171 ∷ []), s) };
  acquire = λ email s. (if lost then err (failure (codes "lock")) else ok 0, s);
  check = λ guard s. (ok tt, s);
  release = λ guard s. s;
  find = λ title s. (ok (some account), s);
  create = λ title s. (ok account, s);
  tokens = λ name s. (ok s, s);
  new_token = λ name token ttl s. (
    ok (record { secret = codes "glsa_2"; name = token; created = at_second 50; expires = none }),
    old_token token 50 ∷ s,
  );
  delete_token = λ name id s.
      if text_eq id refused
      then (err (failure (codes "delete")), s)
      else (ok tt, keep_if (λ t. not (text_eq t.id id)) s);
  cleanup = λ name token s. (ok tt, s);
  record_action = λ label result s. s;
  audit = λ a s. s;
}

abbrev pub codec : FlashCodec
codec = record {
  aead = record {
    nonce_size = 1;
    seal = λ nonce plain aad. plain;
    open_sealed = λ nonce text aad. some text;
  };
  coding = record { marshal = λ p. p.token; unmarshal = λ t. none };
  mac = λ m. m;
  ttl = 60 * second;
  aad = [];
}

abbrev preparation : DeliveryPreparation
preparation = record {
  success = record { nonce = 1 ∷ []; expires = pos 100 };
  partial = record { nonce = 2 ∷ []; expires = pos 100 };
}

abbrev pub start : Logged (List SaToken)
start = record { inner = old_token (codes "a") 1 ∷ old_token (codes "b") 2 ∷ []; log = [] }

abbrev pub works : Backend (List SaToken)
works = backend [] false

-- It keeps the token "b".
abbrev stops : Backend (List SaToken)
stops = backend (codes "b") false

abbrev locked_out : Backend (List SaToken)
locked_out = backend [] true

abbrev pub ann : Text
ann = codes "ann@example.com"

abbrev ttl : ℕ
ttl = 3600 * second

abbrev issued_by : Backend (List SaToken) → Issued × Logged (List SaToken)
issued_by b = issue (logged b) codec ttl ann preparation start

works_error : (issued_by works).0.error ≡ none
unfolding issue rotate validate text_eq delete_old token_name seal_prepared encode
works_error = refl

works_complete : (issued_by works).0.issued.partial_cleanup ≡ false
unfolding issue rotate validate text_eq delete_old token_name seal_prepared encode
works_complete = refl

stops_partial : (issued_by stops).0.issued.partial_cleanup ≡ true
unfolding issue rotate validate text_eq delete_old token_name seal_prepared encode
stops_partial = refl

locked_out_error : (issued_by locked_out).0.error ≡ some (failure (codes "lock"))
unfolding issue rotate validate text_eq delete_old token_name seal_prepared encode
locked_out_error = refl

issue-Fenced_example : Fenced (issued_by stops).1.log
issue-Fenced_example = issue-Fenced stops codec ttl ann preparation start tt

issue-Held_example : Held (issued_by works).1.log × ¬ Holding (issued_by works).1.log
issue-Held_example = issue-Held works codec ttl ann preparation start tt

issue-Rotated_example :
    (before : List Event) × ((issued_by works).1.log
      ≡ action (issued_by works).0.action (codes "success") ∷ unlock ∷ before)
    × Rotated (issued_by works).0.issued before
issue-Rotated_example =
    issue-Rotated works codec ttl ann preparation start works_error works_complete

issue-PartlyRotated_example :
    (before : List Event) × ((issued_by stops).0.error ≡ none)
    × ((issued_by stops).1.log
        ≡ action (issued_by stops).0.action (codes "partial") ∷ unlock ∷ before)
    × PartlyRotated (issued_by stops).0.issued before
issue-PartlyRotated_example =
    issue-PartlyRotated stops codec ttl ann preparation start stops_partial

issue-tried_deletions_example :
    (tried_deletions (issued_by locked_out).1.log ≡ 0)
    × (before : List Event) × ((issued_by locked_out).1.log
        ≡ action (issued_by locked_out).0.action (codes "failure") ∷ before)
issue-tried_deletions_example =
    issue-tried_deletions locked_out codec ttl ann preparation start (failure (codes "lock"))
      locked_out_error

delivered_error : (issue works codec ttl ann preparation start.inner).0.error ≡ none
unfolding issue rotate validate text_eq delete_old token_name seal_prepared encode
delivered_error = refl

issue-IsDelivered_example :
    IsDelivered codec ann preparation (issue works codec ttl ann preparation start.inner).0.issued
issue-IsDelivered_example =
    issue-IsDelivered works codec ttl ann preparation start.inner delivered_error

abbrev revoked : Revoked × Logged (List SaToken)
revoked = revoke (logged works) ann start

revoked_error : revoked.0.error ≡ none
unfolding revoke delete_all text_eq
revoked_error = refl

revoke-AllDeleted_example :
    (before : List Event) × (revoked.1.log
      ≡ audited (record {
        event = codes "tokens_revoked";
        email = ann;
        error = none;
        account_id = revoked.0.account_id;
        attempted = revoked.0.attempted;
        deleted = revoked.0.deleted;
      })
        ∷ action (codes "revoke") (codes "success")
        ∷ unlock
        ∷ before)
    × (AllDeleted (title_of ann) before ⊎ NothingToDelete works (title_of ann) before)
revoke-AllDeleted_example = revoke-AllDeleted works ann start revoked_error

revoke-IsCounted_example :
    IsCounted (revoke (logged stops) ann start).0 [] (revoke (logged stops) ann start).1.log
revoke-IsCounted_example = revoke-IsCounted stops ann start

live-second : (live_token works ann start.inner).0 ≡ ok (some (old_token (codes "b") 2))
unfolding live_token validate text_eq newest
live-second = refl

live_token-IsNewest_example :
    let found = works.find (title_of ann) start.inner in
    NoAccount works found.0 (some (old_token (codes "b") 2))
    ⊎ LiveAnswer works (some (old_token (codes "b") 2)) found
live_token-IsNewest_example =
    live_token-IsNewest works ann start.inner (some (old_token (codes "b") 2)) live-second
