-- ===== src/Tests/Ready.antt =====
-- Requests for the readiness while Grafana is down, by a clock that every call advances.
use grafana_mcp_setup.Prelude.{ℕ, ◌+◌, ◌*◌, ◌≤◌, ◌≡◌, refl, some, arith, codes, Text}
use grafana_mcp_setup.Exec.{Error, failure, Exec, ok, err}
use grafana_mcp_setup.Go.Time.{Time}
use grafana_mcp_setup.Web.Ready.{check_all, handle_ready}
use grafana_mcp_setup.Web.Cached.{
  Clock, not_checked, at_start, request, handle_all, handle_all-checks,
}

abbrev ticking : ℕ → Time × ℕ
ticking s = (s, s + 1)

abbrev down : Exec ℕ (Unit {0})
down s = (err (failure (codes "no Grafana")), s + 4)

abbrev locks : Exec ℕ (Unit {0})
locks s = (ok tt, s + 1)

abbrev shown : Error → Text
shown e = codes "not ready"

later : (s n : ℕ) → s ≤ s + n
later s n = omega arith

same : (s : ℕ) → s ≤ s
same s = omega arith

clock : Clock ticking down (some locks)
clock = record {
  time = λ s. s;
  reads = λ s. (same s, later s 1);
  asks = λ s. later s 4;
  locks = λ s. later s 1;
}

-- Four requests within one lifetime of 20 ask once.
handled : (handle_all ticking down (some locks) 20 shown 4 (not_checked, at_start 5)).1.checks ≡ 1
unfolding handle_all request handle_ready check_all
handled = refl

handle_all-checks_example :
    (handle_all ticking down (some locks) 20 shown 4 (not_checked, at_start 5)).1.checks * 20 + 5
    ≤ (handle_all ticking down (some locks) 20 shown 4 (not_checked, at_start 5)).1.inner + 20
unfolding clock
handle_all-checks_example =
    handle_all-checks ticking down (some locks) 20 shown clock 4 5 (later 1 4)
