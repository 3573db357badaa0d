-- ===== src/Go/Dates.antt =====
-- Package time: the calendar, for `t.UTC().Format("2 Jan 2006")`.
use grafana_mcp_setup.Prelude.{
  ℕ, ◌+◌, ◌-◌, ◌*◌, ◌/◌, ◌%◌, Bool, not, ◌&&◌, ◌||◌, List, [], ◌∷◌, ◌++◌, Text, codes, ltb, ◌==◌,
  if◌then◌else◌,
}
use grafana_mcp_setup.Go.Strconv.{format_nat}
use grafana_mcp_setup.Go.Time.{Time, second}

abbrev pub day : ℕ
day = 86400 * second

-- A day of a month of a year.
pub record Date : Type 0 where
  pub year : ℕ
  pub month : Text
  pub day_of_month : ℕ

abbrev pub at_most_three : ℕ → ℕ
at_most_three n = if ltb 3 n then 3 else n

abbrev pub is_leap : ℕ → Bool
is_leap year = year % 4 == 0 && (not (year % 100 == 0) || year % 400 == 0)

-- The months and their lengths.
abbrev pub months : Bool → List (Text × ℕ)
months leap =
    (codes "Jan", 31)
    ∷ (codes "Feb", if leap then 29 else 28)
    ∷ (codes "Mar", 31)
    ∷ (codes "Apr", 30)
    ∷ (codes "May", 31)
    ∷ (codes "Jun", 30)
    ∷ (codes "Jul", 31)
    ∷ (codes "Aug", 31)
    ∷ (codes "Sep", 30)
    ∷ (codes "Oct", 31)
    ∷ (codes "Nov", 30)
    ∷ (codes "Dec", 31)
    ∷ []

unfoldable pub date_in : ℕ → ℕ → List (Text × ℕ) → Date
date_in year d [] = record { year = year; month = []; day_of_month = d + 1 }
date_in year d ((month, days) ∷ later) =
    let rest = date_in year (d - days) later in
    if ltb d days then record { year = year; month = month; day_of_month = d + 1 } else rest

-- The days behind the centuries, the leap cycles and the years in front of them.
abbrev pub date_with : ℕ → ℕ → Date
date_with year d = date_in year d (months (is_leap year))

abbrev pub years_of : ℕ → ℕ → Date
years_of base r = let n = at_most_three (r / 365) in date_with (base + n) (r - n * 365)

abbrev pub cycles_of : ℕ → ℕ → Date
cycles_of base r = years_of (base + 4 * (r / 1461)) (r % 1461)

abbrev pub centuries_of : ℕ → ℕ → Date
centuries_of base r =
    let n = at_most_three (r / 36524) in cycles_of (base + 100 * n) (r - n * 36524)

unfoldable pub date_of : Time → Date
unfolding date_in
date_of t = let d = t / day in centuries_of (1 + 400 * (d / 146097)) (d % 146097)

-- A year has four digits at least.
abbrev pub padded_year : ℕ → Text
padded_year year =
    if ltb year 10
    then codes "000" ++ format_nat year
    else if ltb year 100
    then codes "00" ++ format_nat year
    else if ltb year 1000
    then codes "0" ++ format_nat year
    else format_nat year

unfoldable pub format_date : Time → Text
unfolding date_of
format_date t =
    let d = date_of t in format_nat d.day_of_month ++ (32 ∷ (d.month ++ (32 ∷ padded_year d.year)))
