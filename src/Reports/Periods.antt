-- ===== src/Reports/Periods.antt =====
-- `latestCompletedPeriod` of src/modules/reports/report-schedules.service.js. A day is the number of
-- UTC days since the epoch, a Thursday, and a month the number of months since January 1970.
pub mod Latest
use backend_pluseops.Base.{ℕ, suc, ◌+◌, ◌-◌, ◌%◌, ◌≤◌, ◌<◌}

-- What `Date` knows of months.
pub record Calendar : Type 0 where
  -- `Date.UTC(year, month, 1)`
  pub first_of : ℕ → ℕ
  -- `getUTCFullYear`, `getUTCMonth`
  pub month_of : ℕ → ℕ
  pub begins : (day : ℕ) → first_of (month_of day) ≤ day
  pub ends : (day : ℕ) → day < first_of (suc (month_of day))
  pub grows : (month : ℕ) → first_of month < first_of (suc month)

pub data Frequency : Type 0 where
  daily weekly monthly : Frequency

-- The `key` of a period; the three spellings differ.
pub data Key : Type 0 where
  of_day : ℕ → Key
  week_of : ℕ → Key
  of_month : ℕ → Key

pub record Period : Type 0 where
  pub key : Key
  pub from : ℕ
  pub to : ℕ

-- `getUTCDay`, with Sunday as 0
abbrev pub utc_day : ℕ → ℕ
utc_day day = (day + 4) % 7

abbrev pub since_monday : ℕ → ℕ
since_monday today = (utc_day today + 6) % 7

unfoldable pub latest_completed_period : Calendar → Frequency → ℕ → Period
latest_completed_period c Frequency.daily today = record {
  key = of_day (today - 1);
  from = today - 1;
  to = today - 1;
}
latest_completed_period c Frequency.weekly today =
    let monday = today - since_monday today - 7 in
    record { key = week_of monday; from = monday; to = monday + 6 }
latest_completed_period c Frequency.monthly today =
    let month = c.month_of today in
    record { key = of_month (month - 1); from = c.first_of (month - 1); to = c.first_of month - 1 }
