-- ===== src/Reports/Schedules/Running.antt =====
-- `runDue` and `runOne` of report-schedules.service.js.
use backend_pluseops.Base.{
  ℕ, Bool, true, false, ◌&&◌, Option, none, some, List, [], ◌∷◌, Result, ok, err, Error, nat_eq,
  ◌==◌, if◌then◌else◌, forbidden,
}
use backend_pluseops.Base.Lists.{any, filter}
use backend_pluseops.Base.Tables.{Table, lookup, upsert}
use backend_pluseops.Auth.{tenant_scope}
use backend_pluseops.Reports.{
  Desk, Schedule, ReportType, LastError, creator_inactive, creator_cannot_read, request_failed,
  request, accepts_range,
}
use backend_pluseops.Reports.Periods.{Calendar, Key, Period, latest_completed_period}
use backend_pluseops.Reports.Schedules.{same_period, is_active_staff}

-- The conditional update of runDue, with its count: the row is enabled and its period is still the
-- one that was read.
unfoldable pub is_unclaimed : Schedule → Schedule → Bool
is_unclaimed snapshot r = r.enabled && same_period r.last_period snapshot.last_period

unfoldable pub claim : Schedule → Key → ℕ → Desk → Bool × Desk
claim snapshot key now s = elim (lookup snapshot.id s.schedules) [
  | none ↦ (false, s)
  | some r ↦
      if is_unclaimed snapshot r
      then (
        true,
        record s {
          schedules =
              upsert snapshot.id (record r { last_period = some key; last_run_at = some now })
                s.schedules;
        },
      )
      else (false, s)
]

-- The updates of runOne: of the report, of the error, and `pause`.
unfoldable pub noted : ℕ → (Schedule → Schedule) → Desk → Desk
noted id f s = elim (lookup id s.schedules) [
  | none ↦ s
  | some r ↦ record s { schedules = upsert id (f r) s.schedules }
]

abbrev pub paused : LastError → Schedule → Schedule
paused reason r = record r { enabled = false; last_error = some reason }

abbrev pub reported : ℕ → Schedule → Schedule
reported report r = record r { last_report_id = some report; last_error = none }

abbrev pub troubled : Schedule → Schedule
troubled r = record r { last_error = some request_failed }

abbrev pub is_forbidden : Error → Bool
is_forbidden forbidden = true
is_forbidden _ = false

abbrev pub range_of : ReportType → Period → Option (ℕ × ℕ)
range_of kind p = if accepts_range kind then some (p.from, p.to) else none

-- The end of runOne, by what `request` came to.
unfoldable pub run_outcome : ℕ → Result ℕ → Desk → Result (Option ℕ) × Desk
run_outcome id (ok report) s = (ok (some report), noted id (reported report) s)
run_outcome id (err e) s =
    if is_forbidden e
    then (ok none, noted id (paused creator_cannot_read) s)
    else (err e, noted id troubled s)

unfoldable pub run_as :
    Result (Unit {0}) → Schedule → Period → ℕ → ℕ → Desk → Result (Option ℕ) × Desk
run_as queued r p user at s =
    let range = range_of r.kind p in
    let asked = request queued tenant_scope user r.tenant_id r.kind range (some r.id) at s in
    if is_active_staff r.tenant_id user s
    then run_outcome r.id asked.0 asked.1
    else (ok none, noted r.id (paused creator_inactive) s)

-- `runOne`: nothing is answered for a schedule that pauses.
unfoldable pub run_one : Result (Unit {0}) → Schedule → Period → ℕ → Desk → Result (Option ℕ) × Desk
run_one queued r p at s = elim r.created_by [
  | none ↦ (ok none, noted r.id (paused creator_inactive) s)
  | some user ↦ run_as queued r p user at s
]

abbrev pub is_due : List ℕ → Schedule → Bool
is_due open_tenants r = r.enabled && any (λ t. t == r.tenant_id) open_tenants

abbrev pub rows_of : Table ℕ Schedule → List Schedule
rows_of [] = []
rows_of (r ∷ rs) = r.1 ∷ rows_of rs

-- `results.push(…)`
abbrev pub with_answer : Option ℕ → Result (List (Option ℕ)) → Result (List (Option ℕ))
with_answer answer (ok answers) = ok (answer ∷ answers)
with_answer answer (err e) = err e

-- An error leaves the loop, with the state as it is.
abbrev pub collected :
    Result (Option ℕ) → Desk → Result (List (Option ℕ)) × Desk → Result (List (Option ℕ)) × Desk
collected (err e) left rest = (err e, left)
collected (ok answer) left rest = (with_answer answer rest.0, rest.1)

module _ (c : Calendar) where
  -- The loop of runDue over the schedules that were read; an error of runOne leaves it. `queued` tells
  -- what enqueueReport does for a schedule, and `at` is the time stamp of new reports.
  unfoldable pub run_each :
      (ℕ → Result (Unit {0})) → ℕ → ℕ → List Schedule → Desk → Result (List (Option ℕ)) × Desk
  run_each queued now at [] s = (ok [], s)
  run_each queued now at (r ∷ rs) s =
      let p = latest_completed_period c r.frequency now in
      let claimed = claim r p.key now s in
      let outcome = run_one (queued r.id) r p at claimed.1 in
      let skipped = run_each queued now at rs s in
      let lost = run_each queued now at rs claimed.1 in
      let rest = run_each queued now at rs outcome.1 in
      if same_period r.last_period (some p.key)
      then skipped
      else if claimed.0
      then collected outcome.0 outcome.1 rest
      else lost

  -- `runDue`
  unfoldable pub run_due : (ℕ → Result (Unit {0})) → ℕ → ℕ → Desk → Result (List (Option ℕ)) × Desk
  run_due queued now at s =
      run_each queued now at (filter (is_due s.open_tenants) (rows_of s.schedules)) s
