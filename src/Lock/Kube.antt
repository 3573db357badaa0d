-- ===== src/Lock/Kube.antt =====
-- The Kubernetes Lease API as lock.go calls it: `request` and `readLease`.
use grafana_mcp_setup.Prelude.{
  ℕ, Bool, true, false, ◌||◌, not, Option, none, some, List, [], ◌++◌, Text, codes, leb, ◌==◌,
  if◌then◌else◌,
}
use grafana_mcp_setup.Prelude.Int.{ℤ, pos}
use grafana_mcp_setup.Exec.{Error, failure, wrapped, Result, ok, err, Exec}
use grafana_mcp_setup.Go.Strings.{trim_space}
use grafana_mcp_setup.Go.Time.{Time}
use grafana_mcp_setup.Go.Url.{path_escape}

-- type kubeLease, its metadata and spec in one record; owner references are raw JSON.
pub record KubeLease : Type 0 where
  pub api_version : Text
  pub kind : Text
  pub name : Text
  pub namespace : Text
  pub resource_version : Text
  pub uid : Text
  pub labels : List (Text × Text)
  pub annotations : List (Text × Text)
  pub owner_references : List Text
  pub finalizers : List Text
  pub holder_identity : Text
  pub lease_duration_seconds : ℤ
  pub acquire_time : Text
  pub renew_time : Text
  pub lease_transitions : ℤ

pub data KubeMethod : Type 0 where
  get post put : KubeMethod

-- `initial` is the new Lease of `readLease`, by its name and namespace.
pub data KubeBody : Type 0 where
  no_body : KubeBody
  initial : Text → Text → KubeBody
  lease_body : KubeLease → KubeBody

pub record KubeRequest : Type 0 where
  pub method : KubeMethod
  pub url : Text
  pub authorization : Text
  pub body : KubeBody

pub data KubeReply : Type 0 where
  failed : Error → KubeReply
  response : ℕ → Text → KubeReply

-- What the locker reaches outside the program: HTTP, the token file, the clock, the random source, a
-- wait for the ticker or the context's end, JSON, and the text of times.
pub record Kube (S : Type 0) : Type 0 where
  pub send : KubeRequest → S → KubeReply × S
  pub read_token : Exec S Text
  pub now : S → Time × S
  pub random : ℕ → Exec S Text
  pub tick : Exec S (Unit {0})
  pub decode : Text → Option KubeLease
  pub parse_time : Text → Option Time
  pub format_time : Time → Text

-- type leaseLocker, its client and clock apart.
pub record LeaseLocker : Type 0 where
  pub base_url : Text
  pub lease_name : Text
  pub namespace : Text
  pub pod_name : Text
  pub lease_duration : ℕ

unfoldable pub lease_collection : LeaseLocker → Text
lease_collection l =
    codes "/apis/coordination.k8s.io/v1/namespaces/" ++ (path_escape l.namespace ++ codes "/leases")

unfoldable pub lease_path : LeaseLocker → Text
unfolding lease_collection
lease_path l = lease_collection l ++ (codes "/" ++ path_escape l.lease_name)

abbrev pub path_of : LeaseLocker → KubeMethod → Text
path_of l post = lease_collection l
path_of l _ = lease_path l

-- The status, which is 0 without an HTTP answer, and the error or what was decoded.
abbrev pub Answer : Type 0
Answer = ℕ × Result (Option KubeLease)

abbrev pub decoded_lease : ℕ → Option KubeLease → Answer
decoded_lease status none = (status, err (failure (codes "json")))
decoded_lease status (some lease) = (status, ok (some lease))

module _ {S : Type 0} (k : Kube S) (l : LeaseLocker) where
  -- `wanted` says that `out` is not nil.
  abbrev pub answer_of : Bool → KubeReply → Answer
  answer_of wanted (failed e) = (0, err e)
  answer_of wanted (response status body) =
      if leb 300 status
      then (status, err (failure (codes "kubernetes Lease returned HTTP status")))
      else if wanted
      then decoded_lease status (k.decode body)
      else (status, ok none)

  abbrev pub answered_by : Bool → KubeReply × S → Answer × S
  answered_by wanted (reply, s) = (answer_of wanted reply, s)

  abbrev pub send_with : KubeMethod → KubeBody → Bool → Result Text × S → Answer × S
  send_with method body wanted (err e, s) =
      ((0, err (wrapped (codes "reading Kubernetes token") e)), s)
  send_with method body wanted (ok token, s) = answered_by wanted (
      k.send
        (record {
          method = method;
          url = l.base_url ++ path_of l method;
          authorization = codes "Bearer " ++ trim_space token;
          body = body;
        })
        s)

  unfoldable pub lease_request : KubeMethod → KubeBody → Bool → S → Answer × S
  lease_request method body wanted s = send_with method body wanted (k.read_token s)

  -- `var lease kubeLease`
  abbrev pub empty_lease : KubeLease
  empty_lease = record {
    api_version = [];
    kind = [];
    name = [];
    namespace = [];
    resource_version = [];
    uid = [];
    labels = [];
    annotations = [];
    owner_references = [];
    finalizers = [];
    holder_identity = [];
    lease_duration_seconds = pos 0;
    acquire_time = [];
    renew_time = [];
    lease_transitions = pos 0;
  }

  abbrev pub lease_of : Result (Option KubeLease) → Result KubeLease
  lease_of (err e) = err e
  lease_of (ok none) = ok empty_lease
  lease_of (ok (some lease)) = ok lease

  abbrev pub fetched : Answer × S → Result KubeLease × S
  fetched ((status, r), s) = (lease_of r, s)

  -- After the POST: a conflict means that another pod has created the Lease.
  abbrev pub created : Answer × S → Result KubeLease × S
  created ((status, err e), s) =
      if status == 409 then fetched (lease_request get no_body true s) else (err e, s)
  created ((status, ok _), s) = fetched (lease_request get no_body true s)

  abbrev pub or_create : Bool → Answer × S → Result KubeLease × S
  or_create create ((status, r), s) =
      if not (status == 404) || not create
      then (lease_of r, s)
      else created (lease_request post (initial l.lease_name l.namespace) false s)

  unfoldable pub read_lease : Bool → Exec S KubeLease
  unfolding lease_request
  read_lease create s = or_create create (lease_request get no_body true s)

  unfoldable pub ready_lease : Exec S (Unit {0})
  ready_lease s = checked (read_lease true s)
    where
      checked : Result KubeLease × S → Result (Unit {0}) × S
      checked (ok _, s) = (ok tt, s)
      checked (err e, s) = (err e, s)
