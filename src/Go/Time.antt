-- ===== src/Go/Time.antt =====
-- Package time. A time is its nanoseconds since the zero time, the start of year 1 in UTC; a
-- duration is its nanoseconds.
use grafana_mcp_setup.Prelude.{ℕ, ◌+◌, ◌-◌, ◌*◌, ◌/◌, ◌≡◌, Bool, arith, ltb}
use grafana_mcp_setup.Prelude.Int.{ℤ, pos, negsuc, sub_ℕ}

abbrev pub Time : Type 0
Time = ℕ

abbrev pub second : ℕ
second = 1_000_000_000

-- time.Time{}
abbrev pub zero_time : Time
zero_time = 0

-- The seconds from the zero time to 1970.
abbrev pub unix_epoch : ℕ
unix_epoch = 62_135_596_800

-- a.After(b)
abbrev pub after : Time → Time → Bool
after a b = ltb b a

-- t.Unix()
unfoldable pub unix : Time → ℤ
unix t = sub_ℕ (t / second) unix_epoch

-- time.Unix(v, 0), at the zero time for a `v` before it.
unfoldable pub time_of_unix : ℤ → Time
time_of_unix (pos n) = (unix_epoch + n) * second
time_of_unix (negsuc n) = (unix_epoch - (n + 1)) * second

-- Whole seconds survive the round trip.
pub unix-time_of_unix : (n : ℕ) → unix (time_of_unix (pos n)) ≡ pos n
unfolding unix time_of_unix
unix-time_of_unix n = ground arith
