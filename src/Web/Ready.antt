-- ===== src/Web/Ready.antt =====
-- `handleReady`: the checks of Grafana and of the lock, whose outcome is kept for a while.
use grafana_mcp_setup.Prelude.{
  ℕ, ◌-◌, ◌||◌, Option, none, some, [], Text, codes, leb, ◌==◌, if◌then◌else◌,
}
use grafana_mcp_setup.Exec.{Error, Result, ok, err, Exec, pure, ◌>>◌}
use grafana_mcp_setup.Go.Time.{Time, zero_time}
use grafana_mcp_setup.Web.Response.{Response, http_error}

-- type readinessState; `checked` is zero before the first check.
pub record Readiness : Type 0 where
  pub checked : Time
  pub error : Option Error

abbrev pub ready_response : (Error → Text) → Option Error → Response
ready_response show_error none = record {
  status = 200;
  location = [];
  cookies = [];
  headers = [];
  body = codes "ready\n";
}
ready_response show_error (some e) = http_error 503 (show_error e)

abbrev pub error_in : Result (Unit {0}) → Option Error
error_in (ok u) = none
error_in (err e) = some e

-- A locker that has no `ready` is not asked.
abbrev pub locker_check : {S : Type 0} → Option (Exec S (Unit {0})) → Exec S (Unit {0})
locker_check none = pure tt
locker_check (some check) = check

unfoldable pub check_all :
    {S : Type 0} → Exec S (Unit {0}) → Option (Exec S (Unit {0})) → Exec S (Unit {0})
check_all grafana_ready locker_ready = do grafana_ready; locker_check locker_ready

module _ {S : Type 0} (now : S → Time × S) (grafana_ready : Exec S (Unit {0}))
    (locker_ready : Option (Exec S (Unit {0}))) (readiness_ttl : ℕ)
    (show_error : Error → Text) where
  abbrev pub checked_at : Option Error → Time × S → Readiness × S
  checked_at error (t, s) = (record { checked = t; error = error }, s)

  abbrev pub checked_anew : Result (Unit {0}) × S → Readiness × S
  checked_anew (r, s) = checked_at (error_in r) (now s)

  abbrev pub refreshed : Readiness → Time × S → Readiness × S
  refreshed ready (t, s) =
      if ready.checked == zero_time || leb readiness_ttl (t - ready.checked)
      then checked_anew (check_all grafana_ready locker_ready s)
      else (ready, s)

  abbrev pub answered : Readiness × S → Response × Readiness × S
  answered (ready, s) = (ready_response show_error ready.error, ready, s)

  -- The handler runs under the state's mutex.
  unfoldable pub handle_ready : Readiness → S → Response × Readiness × S
  unfolding check_all
  handle_ready ready s = answered (refreshed ready (now s))
