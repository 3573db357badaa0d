-- ===== src/Rotation/Trace.antt =====
-- The calls that `issue` and `revoke` make, as they are seen from outside: a backend that writes
-- down each call with its outcome, newest first.
pub mod Fenced
pub mod Deletions
pub mod Issuing
pub mod Revoking
use grafana_mcp_setup.Prelude.{ℕ, Bool, true, false, ◌≡◌, Option, none, some, List, [], ◌∷◌, Text}
use grafana_mcp_setup.Exec.{Result, ok, err, Exec}
use grafana_mcp_setup.Grafana.Types.{ServiceAccount, SaToken, IssuedToken}
use grafana_mcp_setup.Cookies.Crypto.{Host}
use grafana_mcp_setup.Rotation.Backend.{Backend, Audit}

-- The Boolean says whether the call succeeded, and an option holds what it returned if so.
pub data Event : Type 0 where
  lock : Bool → Event
  check : Bool → Event
  unlock : Event
  find : Text → Option (Option ServiceAccount) → Event
  list : Text → Option (List SaToken) → Event
  create : Text → Bool → Event
  mint : Text → Text → Bool → Event
  delete : Text → Text → Bool → Event
  cleanup : Text → Text → Bool → Event
  read_random : Event
  action : Text → Text → Event
  audited : Audit → Event

pub record Logged (S : Type 0) : Type 0 where
  pub inner : S
  pub log : List Event

abbrev pub succeeded {ℓ} : {A : Type ℓ} → Result A → Bool
succeeded (ok _) = true
succeeded (err _) = false

abbrev pub value_of {ℓ} : {A : Type ℓ} → Result A → Option A
value_of (ok a) = some a
value_of (err _) = none

module _ {S A : Type 0} where
  abbrev note : (Result A → Event) → List Event → Result A × S → Result A × Logged S
  note e log (r, s) = (r, record { inner = s; log = e r ∷ log })

  abbrev watch : (Result A → Event) → Exec S A → Exec (Logged S) A
  watch e m s = note e s.log (m s.inner)

  abbrev keep_log : List Event → A × S → A × Logged S
  keep_log log (a, s) = (a, record { inner = s; log = log })

abbrev pub logged : {S : Type 0} → Backend S → Backend (Logged S)
logged b = record {
  host = record {
    now = λ s. keep_log s.log (b.now s.inner);
    random = λ n. watch (λ _. read_random) (b.random n);
  };
  acquire = λ email. watch (λ r. lock (succeeded r)) (b.acquire email);
  check = λ guard. watch (λ r. check (succeeded r)) (b.check guard);
  release = λ guard s. record { inner = b.release guard s.inner; log = unlock ∷ s.log };
  find = λ title. watch (λ r. find title (value_of r)) (b.find title);
  create = λ title. watch (λ r. create title (succeeded r)) (b.create title);
  tokens = λ account. watch (λ r. list account (value_of r)) (b.tokens account);
  new_token = λ account name ttl.
      watch (λ r. mint account name (succeeded r)) (b.new_token account name ttl);
  delete_token =
      λ account id. watch (λ r. delete account id (succeeded r)) (b.delete_token account id);
  cleanup =
      λ account name. watch (λ r. cleanup account name (succeeded r)) (b.cleanup account name);
  record_action = λ label result s. record {
    inner = b.record_action label result s.inner;
    log = action label result ∷ s.log;
  };
  audit = λ a s. record { inner = b.audit a s.inner; log = audited a ∷ s.log };
}
