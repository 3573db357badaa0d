-- ===== src/Grafana/Traffic.antt =====
-- The requests that the client sends, seen from outside: a transport that writes down each request,
-- newest first; and what `newToken` leaves behind.
use grafana_mcp_setup.Prelude.{
  ℕ, ◌/◌, ◌≡◌, ◌≢◌, refl, sym, ap, ◌∙◌, ◌⊎◌, inl, inr, true, false, Option, List, [], ◌∷◌, ◌++◌,
  Text, codes, text_eq, text_eq_iff, Bool-cases, arith,
}
use grafana_mcp_setup.Exec.{Error, failure, reconciliation, Result, ok, err, observe, and_then}
use grafana_mcp_setup.Go.Time.{second}
use grafana_mcp_setup.Go.Url.{path_escape}
use grafana_mcp_setup.Grafana.Types.{IssuedWire, IssuedToken}
use grafana_mcp_setup.Grafana.Errors.{unexpected_name, is_client_error, abandon, as_reconciliation}
use grafana_mcp_setup.Grafana.Net.{
  Net, Client, Method, post, delete, Payload, no_body, token_body, Request, request_to, do_request,
}
use grafana_mcp_setup.Grafana.Iam
use grafana_mcp_setup.Grafana.Iam.{tokens_path}

pub record Traffic (S : Type 0) : Type 0 where
  pub inner : S
  pub sent : List Request

module _ {S A : Type 0} where
  abbrev pub keep_sent : List Request → A × S → A × Traffic S
  keep_sent sent (a, s) = (a, record { inner = s; sent = sent })

abbrev pub watched : {S : Type 0} → Net S → Net (Traffic S)
watched net = record {
  json = net.json;
  digest = net.digest;
  send = λ r s. keep_sent (r ∷ s.sent) (net.send r s.inner);
  now = λ s. keep_sent s.sent (net.now s.inner);
  record_grafana = λ method status elapsed s. record s {
    inner = net.record_grafana method status elapsed s.inner;
  };
}

module _ {S : Type 0} (net : Net S) (g : Client) where
  -- One round trip is one request.
  pub sent-do_request :
      {A : Type 0} (zero : A) (decode : Text → Option A) (method : Method) (path : Text)
      (body : Payload) (s : Traffic S)
      → (do_request (watched net) g zero decode method path body s).1.sent
        ≡ request_to g method path body ∷ s.sent
  unfolding do_request
  sent-do_request zero decode method path body s = grind arith

-- The requests of the IAM API that ask for a token and that delete it again.
abbrev pub mint_request : Client → Text → Text → ℕ → Request
mint_request g sa_name token_name ttl =
    request_to g post (tokens_path g sa_name) (token_body token_name (ttl / second))

abbrev pub removal_request : Client → Text → Text → Request
removal_request g sa_name token_name =
    request_to g delete (tokens_path g sa_name ++ (codes "/" ++ path_escape token_name)) no_body

-- What `newToken` of the IAM API makes of Grafana's answer: the token, if the answer holds one under the
-- requested name; the refusal (a status from 400 to 499); and else an error, behind an attempt to
-- delete the token.
pub data NewTokenOutcome (g : Client) (sa_name token_name : Text) (ttl : ℕ) (before : List Request)
    : Result IssuedWire → Result IssuedToken → List Request → Type 0 where
  issued :
      (out : IssuedWire) (token : IssuedToken)
      → out.token ≢ []
      → out.token_name ≡ token_name
      → token.secret ≡ out.token
      → token.name ≡ out.token_name
      → NewTokenOutcome g sa_name token_name ttl before
          (ok out)
          (ok token)
          (mint_request g sa_name token_name ttl ∷ before)
  turned_down :
      (e : Error)
      → is_client_error e ≡ true
      → NewTokenOutcome g sa_name token_name ttl before
          (err e)
          (err e)
          (mint_request g sa_name token_name ttl ∷ before)
  unclear :
      (e f : Error)
      → is_client_error e ≡ false
      → NewTokenOutcome g sa_name token_name ttl before
          (err e)
          (err f)
          (removal_request g sa_name token_name ∷ mint_request g sa_name token_name ttl ∷ before)
  unusable :
      (out : IssuedWire) (f : Error)
      → (out.token ≡ []) ⊎ (out.token_name ≢ token_name)
      → NewTokenOutcome g sa_name token_name ttl before
          (ok out)
          (err f)
          (removal_request g sa_name token_name ∷ mint_request g sa_name token_name ttl ∷ before)

module _ {S : Type 0} (net : Net S) (g : Client) (sa_name token_name : Text) (ttl : ℕ) where
  -- A call that ends with an error, with one more request.
  pub record IsRemoved (before : List Request) (x : Result IssuedToken × Traffic S) : Type 0 where
    error : Error
    failed : x.0 ≡ err error
    removed :
        x.1.sent
        ≡ removal_request g sa_name token_name ∷ mint_request g sa_name token_name ttl ∷ before

  deletion-IsRemoved :
      (e : Error) (before : List Request) (x : Result (Unit {0}) × Traffic S)
      → x.1.sent
        ≡ removal_request g sa_name token_name ∷ mint_request g sa_name token_name ttl ∷ before
      → IsRemoved before (abandon e (λ s. and_then (observe x) as_reconciliation) x.1)
  deletion-IsRemoved e before (ok u, s) h = record { error = _; failed = refl; removed = h }
  deletion-IsRemoved e before (err f, s) h = record { error = _; failed = refl; removed = h }

  abandoned-IsRemoved :
      (e : Error) (before : List Request) (s : Traffic S)
      → s.sent ≡ mint_request g sa_name token_name ttl ∷ before
      → IsRemoved before
          (abandon e (Iam.cleanup_undelivered_token (watched net) g sa_name token_name) s)
  unfolding Iam.cleanup_undelivered_token
  abandoned-IsRemoved e before s h =
      deletion-IsRemoved e before (Iam.delete_token (watched net) g sa_name token_name s) (
        unfold Iam.delete_token in
        (sent-do_request net g tt net.decode_message delete
            (tokens_path g sa_name ++ (codes "/" ++ path_escape token_name)) no_body s
          ∙ ap (λ (l : List Request). removal_request g sa_name token_name ∷ l) h))

  answered-Outcome :
      (before : List Request) (out : IssuedWire) (s : Traffic S)
      → s.sent ≡ mint_request g sa_name token_name ttl ∷ before
      → let y = Iam.answered (watched net) g out sa_name token_name s in
        NewTokenOutcome g sa_name token_name ttl before (ok out) y.0 y.1.sent
  answered-Outcome before out s h = elim (Bool-cases (text_eq out.token [])) [
    | inl empty ↦
        let x =
          abandoned-IsRemoved (failure (codes "grafana returned an empty service account token"))
            before s h in
        rw (empty, x.failed, x.removed)
          (unusable out x.error (inl ((text_eq_iff out.token []).0 empty)))
    | inr full ↦ elim (Bool-cases (text_eq out.token_name token_name)) [
      | inl same ↦
          let named = (text_eq_iff out.token_name token_name).0 same in
          rw (full, same, h)
            (issued out _ (λ e. ground (arith, text_eq_iff out.token [])) named refl (sym named))
      | inr other ↦
          let x = abandoned-IsRemoved (reconciliation unexpected_name) before s h in
          rw (full, other, x.failed, x.removed)
            (unusable out x.error (inr (λ e. grind (arith, text_eq_iff out.token_name token_name))))
    ]
  ]

  settle-Outcome :
      (before : List Request) (x : Result IssuedWire × Traffic S)
      → x.1.sent ≡ mint_request g sa_name token_name ttl ∷ before
      → let y = Iam.settle (watched net) g sa_name token_name x in
        NewTokenOutcome g sa_name token_name ttl before x.0 y.0 y.1.sent
  settle-Outcome before (ok out, s) h = answered-Outcome before out s h
  settle-Outcome before (err e, s) h = elim (Bool-cases (is_client_error e)) [
    | inl refused ↦ rw (refused, h) (turned_down e refused)
    | inr other ↦
        let x = abandoned-IsRemoved e before s h in
        rw (other, x.failed, x.removed) (unclear e x.error other)
  ]

  -- The request of `newToken` for a token, and what Grafana answers to it.
  abbrev pub issue_answer : Traffic S → Result IssuedWire × Traffic S
  issue_answer s =
      do_request (watched net) g Iam.no_issue net.decode_issued post (tokens_path g sa_name)
        (token_body token_name (ttl / second)) s

  -- `newToken` of the IAM API sends one request for the token. If the answer holds a nonempty secret under
  -- the requested name, it returns these and sends nothing more; if Grafana refused with a status from
  -- 400 to 499, it returns that error and sends nothing more; on any other failure, and on an answer
  -- without a secret or with another name, it sends one more request, which deletes the token of the
  -- requested name, and returns an error.
  pub new_token-Outcome :
      (s : Traffic S)
      → let y = Iam.new_token (watched net) g sa_name token_name ttl s in
        NewTokenOutcome g sa_name token_name ttl s.sent (issue_answer s).0 y.0 y.1.sent
  unfolding Iam.new_token
  new_token-Outcome s = settle-Outcome s.sent (issue_answer s) (
      sent-do_request net g Iam.no_issue net.decode_issued post (tokens_path g sa_name)
        (token_body token_name (ttl / second)) s)
