-- ===== src/Web/Handlers.antt =====
-- `handleIssue` and `handleRevoke`.
use grafana_mcp_setup.Prelude.{
  ℕ, ◌/◌, ◌≡◌, refl, inl, inr, Bool, true, false, ◌||◌, Option, none, some, [], ◌∷◌, ◌++◌, Text,
  codes, if◌then◌else◌, arith, Option-cases,
}
use grafana_mcp_setup.Exec.{
  Error, wrapped, reconciliation_of, delivery, joined, Result, ok, err, Result-cases,
}
use grafana_mcp_setup.Go.Time.{Time, second}
use grafana_mcp_setup.Cookies.Flash.{FlashCodec}
use grafana_mcp_setup.Rotation.Backend.{Backend}
use grafana_mcp_setup.Rotation.Issue.{Issued, prepare_and_issue}
use grafana_mcp_setup.Rotation.Revoke.{Revoked, revoke}
use grafana_mcp_setup.Web.Identity.{AuthError, Identity, known, refused}
use grafana_mcp_setup.Web.Origin.{Url}
use grafana_mcp_setup.Web.Response.{Response, http_error, redirect, with_cookie, flash_cookie}
use grafana_mcp_setup.Web.Mutation.{
  Submission, valid_mutation_request, IsVerified, valid_mutation_request-IsVerified,
}

-- The audit record of `handleIssue`.
pub record IssueAudit : Type 0 where
  pub event : Text
  pub email : Text
  pub error : Option Error
  pub account_id : Text
  pub token_name : Text

-- `writeAuthError`
abbrev pub auth_response : AuthError → Response
auth_response e =
    if e.forbidden
    then http_error 403 (codes "forbidden")
    else http_error 401 (codes "not signed in")

-- errors.As(err, *deliveryPreparationError)
unfoldable pub is_delivery : Error → Bool
is_delivery (delivery e) = true
is_delivery (wrapped _ e) = is_delivery e
is_delivery (reconciliation_of e) = is_delivery e
is_delivery (joined e f) = is_delivery e || is_delivery f
is_delivery _ = false

-- The configuration that the handlers read.
pub record Site : Type 0 where
  pub app_origin : Text
  pub base_path : Text
  pub token_ttl : ℕ
  pub flash_ttl : ℕ

module _ {S : Type 0} (b : Backend S) (codec : FlashCodec) (site : Site) (parse : Text → Option Url)
    (audit_issue : IssueAudit → S → S) where
  abbrev pub audit_of : Text → Text → Issued → IssueAudit
  audit_of event email x = record {
    event = event;
    email = email;
    error = x.error;
    account_id = x.issued.account_id;
    token_name = x.issued.token_name;
  }

  abbrev pub issue_response : Text → Issued × S → Response × S
  issue_response email (x, s) = respond x.error
    where
      respond : Option Error → Response × S
      respond (some e) = (
        http_error (if is_delivery e then 500 else 502) (codes "could not issue a token"),
        audit_issue (audit_of (codes "issue_failed") email x) s,
      )
      respond none = deliver (b.now s)
        where
          deliver : Time × S → Response × S
          deliver (now, t) = (
            with_cookie
                (flash_cookie site.base_path site.flash_ttl x.issued.flash_cookie
                  (site.flash_ttl / second) now)
                (redirect 303 (site.base_path ++ codes "/token")),
            audit_issue
                (audit_of
                  (if x.issued.partial_cleanup
                    then codes "token_issued_partial_cleanup"
                    else codes "token_issued")
                  email x)
                t,
          )

  -- The identity, then the request, then the work.
  abbrev pub when_verified : Result (Unit {0}) → (S → Response × S) → S → Response × S
  when_verified (err e) work s = (http_error 403 (codes "request verification failed"), s)
  when_verified (ok _) work s = work s

  abbrev pub verified_at : Submission → Text → (S → Response × S) → Time × S → Response × S
  verified_at r email work (now, s) =
      when_verified (valid_mutation_request parse codec site.app_origin r email now) work s

  abbrev pub issue_for : Submission → Identity × S → Response × S
  issue_for r (refused e, s) = (auth_response e, s)
  issue_for r (known email, s) =
      verified_at r email
        (λ s'. issue_response email (prepare_and_issue b codec site.token_ttl email s')) (b.now s)

  -- `identity` looks at the request's token and may record a metric.
  unfoldable pub handle_issue : (S → Identity × S) → Submission → S → Response × S
  handle_issue identity r s = issue_for r (identity s)

  abbrev pub revoke_response : Revoked × S → Response × S
  revoke_response (x, s) = respond x.error
    where
      respond : Option Error → Response × S
      respond (some e) = (http_error 502 (codes "could not revoke every token"), s)
      respond none = (redirect 303 site.base_path, s)

  abbrev pub revoke_for : Submission → Identity × S → Response × S
  revoke_for r (refused e, s) = (auth_response e, s)
  revoke_for r (known email, s) =
      verified_at r email (λ s'. revoke_response (revoke b email s')) (b.now s)

  unfoldable pub handle_revoke : (S → Identity × S) → Submission → S → Response × S
  handle_revoke identity r s = revoke_for r (identity s)

  -- A redirect came from a verified request of a known identity whose issue succeeded.
  pub record IsIssued (identity : S → Identity × S) (r : Submission) (s : S) (response : Response)
      : Type 0 where
    pub email : Text
    pub authenticated : (identity s).0 ≡ known email
    pub now : Time
    pub verified : IsVerified parse codec site.app_origin r email now
    pub before : S
    pub succeeded : (prepare_and_issue b codec site.token_ttl email before).0.error ≡ none
    pub set_at : Time
    pub delivered :
        response.cookies
        ≡ flash_cookie site.base_path site.flash_ttl
            (prepare_and_issue b codec site.token_ttl email before).0.issued.flash_cookie
            (site.flash_ttl / second)
            set_at
          ∷ []

  issue_for-IsIssued :
      (identity : S → Identity × S) (r : Submission) (s : S)
      → (x : Identity × S) → identity s ≡ x
      → (issue_for r x).0.status ≡ 303
      → IsIssued identity r s (issue_for r x).0
  issue_for-IsIssued identity r s (refused e, t) same h = absurd (grind arith)
  issue_for-IsIssued identity r s (known email, t) same h =
      let now = b.now t in
      elim (Result-cases (valid_mutation_request parse codec site.app_origin r email now.0)) [
        | inl (u, fine) ↦
            let x = prepare_and_issue b codec site.token_ttl email now.1 in
            elim (Option-cases x.0.error) [
              | inl success ↦ record {
                email = email;
                authenticated = grind arith;
                now = now.0;
                verified =
                    valid_mutation_request-IsVerified parse codec site.app_origin r email now.0
                      fine;
                before = now.1;
                succeeded = success;
                set_at = (b.now x.1).0;
                delivered = grind arith;
              }
              | inr (e, failed) ↦ absurd (grind arith)
            ]
        | inr (e, bad) ↦ absurd (grind arith)
      ]

  -- `handleIssue` redirects, which it does with status 303, only for a known identity whose request is
  -- verified and whose issue succeeded, and it then sets the delivery cookie of that issue.
  pub handle_issue-IsIssued :
      (identity : S → Identity × S) (r : Submission) (s : S)
      → (handle_issue identity r s).0.status ≡ 303
      → IsIssued identity r s (handle_issue identity r s).0
  unfolding handle_issue
  handle_issue-IsIssued identity r s h = issue_for-IsIssued identity r s (identity s) refl h
