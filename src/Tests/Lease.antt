-- ===== src/Tests/Lease.antt =====
-- A Lease that nobody holds, in an API that accepts every write; the state is the clock.
use grafana_mcp_setup.Prelude.{
  ◌+◌, ◌*◌, ◌/◌, ℕ, ◌≡◌, ◌≢◌, refl, true, false, Option, none, some, [], ◌∷◌, Text, codes, text_eq,
  arith,
}
use grafana_mcp_setup.Prelude.Int.{pos}
use grafana_mcp_setup.Exec.{ok}
use grafana_mcp_setup.Go.Time.{Time, second}
use grafana_mcp_setup.Lock.Kube.{KubeLease, Kube, LeaseLocker, response, lease_request, read_lease}
use grafana_mcp_setup.Lock.Lease.{
  LeaseGuard, renewed, decide, update, check_guard, acquire_from, renew,
}
use grafana_mcp_setup.Lock.Expiry.{TimeLaws, checked_guard_excludes}
use grafana_mcp_setup.Lock.Renewal.{
  Wrote, update-Wrote, IsFresh, acquire_from-IsFresh, renew-IsFresh,
}

abbrev parse_time : Text → Option Time
parse_time [] = none
parse_time (n ∷ _) = some (n * 1000)

abbrev free_lease : KubeLease
free_lease = record {
  api_version = [];
  kind = [];
  name = [];
  namespace = [];
  resource_version = codes "7";
  uid = [];
  labels = [];
  annotations = [];
  owner_references = [];
  finalizers = [];
  holder_identity = [];
  lease_duration_seconds = pos 0;
  acquire_time = [];
  renew_time = [];
  lease_transitions = pos 0;
}

abbrev pod_a : Text
pod_a = codes "pod-a"

abbrev own_lease : KubeLease
own_lease = record free_lease { holder_identity = pod_a }

abbrev kube : KubeLease → Kube ℕ
kube lease = record {
  send = λ r s. (response 200 [], s);
  read_token = λ s. (ok (codes "token"), s);
  now = λ s. (s, s + 1000);
  random = λ n s. (ok (1 ∷ []), s);
  tick = λ s. (ok tt, s);
  decode = λ t. some lease;
  parse_time = parse_time;
  format_time = λ t. t / 1000 ∷ [];
}

abbrev locker : LeaseLocker
locker = record {
  base_url = codes "https://kubernetes";
  lease_name = codes "rotation";
  namespace = codes "default";
  pod_name = codes "pod";
  lease_duration = 15 * second;
}

kube-laws : (lease : KubeLease) → TimeLaws (kube lease)
kube-laws lease = record { nonempty = λ t e. ground arith; parses = λ t. refl }

abbrev taken : KubeLease
taken = renewed (kube free_lease) locker pod_a 5000 false free_lease

decided_free : decide (kube free_lease) locker pod_a true 5000 free_lease ≡ ok (some taken)
unfolding decide text_eq
decided_free = refl

abbrev guard : LeaseGuard
guard = record { holder = pod_a; lost = none; last_renew = 4000 }

pods_differ : pod_a ≢ codes "pod-b"
pods_differ e = ground arith

checked_guard_excludes_example :
    decide
      (kube free_lease)
      locker
      (codes "pod-b")
      true
      9000
      (renewed (kube free_lease) locker pod_a 5000 false free_lease)
    ≡ ok none
checked_guard_excludes_example =
    checked_guard_excludes (kube free_lease) locker (kube-laws free_lease) pod_a 5000 false
      free_lease guard (codes "pod-b") true 9000 (λ e. ground arith) pods_differ refl (omega arith)
      refl

updated : update (kube free_lease) locker pod_a true 4000 ≡ (ok true, 5000)
unfolding update read_lease lease_request decide text_eq
updated = refl

update-Wrote_example : Wrote (kube free_lease) locker pod_a true 4000 5000
update-Wrote_example = update-Wrote (kube free_lease) locker pod_a true 4000 5000 updated

abbrev fresh_guard : LeaseGuard
fresh_guard = record { holder = pod_a; lost = none; last_renew = 3000 }

made : acquire_from (kube free_lease) locker 1 pod_a 3000 ≡ (ok fresh_guard, 5000)
unfolding acquire_from update read_lease lease_request decide text_eq
made = refl

acquire_from-IsFresh_example :
    (pod_a ≡ pod_a)
    × (fresh_guard.lost ≡ none)
    × IsFresh (kube free_lease) locker true fresh_guard 5000
acquire_from-IsFresh_example =
    acquire_from-IsFresh (kube free_lease) locker 1 pod_a 3000 5000 fresh_guard made

still_checked :
    (check_guard (kube own_lease) locker (renew (kube own_lease) locker guard 6000).0 9000).0
    ≡ ok tt
unfolding renew update read_lease lease_request decide text_eq check_guard
still_checked = refl

renew-IsFresh_example :
    IsFresh
      (kube own_lease)
      locker
      false
      (renew (kube own_lease) locker guard 6000).0
      (renew (kube own_lease) locker guard 6000).1
renew-IsFresh_example = renew-IsFresh (kube own_lease) locker guard 6000 9000 still_checked
