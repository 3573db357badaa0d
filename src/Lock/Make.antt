-- ===== src/Lock/Make.antt =====
-- `newLeaseLocker`: the locker of a pod.
use grafana_mcp_setup.Prelude.{
  ◌*◌, Bool, not, [], ◌∷◌, ◌++◌, Text, codes, text_eq, false, ◌||◌, ◌==◌, if◌then◌else◌,
}
use grafana_mcp_setup.Exec.{failure, wrapped, Result, ok, err}
use grafana_mcp_setup.Go.Time.{second}
use grafana_mcp_setup.Config.Env.{Process, env}
use grafana_mcp_setup.Config.Load.{Config}
use grafana_mcp_setup.Lock.Kube.{LeaseLocker}

-- net.JoinHostPort: an IPv6 address stands in brackets.
unfoldable pub has_colon : Text → Bool
has_colon [] = false
has_colon (c ∷ rest) = c == b':' || has_colon rest

abbrev pub join_host_port : Text → Text → Text
join_host_port host port =
    if has_colon host then b'[' ∷ (host ++ (b']' ∷ b':' ∷ port)) else host ++ (b':' ∷ port)

-- The certificates that a file holds are for crypto/x509 to find.
module _ (has_certificates : Text → Bool) (process : Process) where
  abbrev pub with_certificates : Config → Result Text → Result LeaseLocker
  with_certificates cfg (err e) = err (wrapped (codes "reading Kubernetes CA") e)
  with_certificates cfg (ok certificates) =
      if not (has_certificates certificates)
      then err (failure (codes "kubernetes CA contains no certificates"))
      else ok (record {
        base_url =
            codes "https://"
            ++ join_host_port (process.getenv (codes "KUBERNETES_SERVICE_HOST"))
                (env process (codes "KUBERNETES_SERVICE_PORT") (codes "443"));
        lease_name = cfg.rotation_lease;
        namespace = cfg.pod_namespace;
        pod_name = cfg.pod_name;
        lease_duration = 15 * second;
      })

  unfoldable pub new_lease_locker : Config → Result LeaseLocker
  unfolding has_colon env text_eq
  new_lease_locker cfg =
      if text_eq (process.getenv (codes "KUBERNETES_SERVICE_HOST")) []
      then err (failure (codes "KUBERNETES_SERVICE_HOST is required in kubernetes lock mode"))
      else with_certificates cfg (process.read_file cfg.rotation_ca_file)
