-- ===== src/Reports/Schedules.antt =====
-- src/modules/reports/report-schedules.service.js: create, update and remove;
-- runDue and runOne stand in Running. `now` is
-- the number of UTC days since the epoch, the part of the clock that the periods depend on.
pub mod Running
pub mod Keys
pub mod Writing
pub mod Keeping
pub mod Once
use backend_pluseops.Base.{
  ℕ, Bool, true, false, not, ◌&&◌, ◌||◌, Option, none, some, List, [], ◌∷◌, Result, ok, err, Error,
  ◌+◌, nat_eq, ◌==◌, get_or, if◌then◌else◌, forbidden, report_schedule_not_found,
  invalid_recipients,
}
use backend_pluseops.Base.Lists.{any, filter}
use backend_pluseops.Base.Tables.{Table, lookup, upsert}
use backend_pluseops.Auth.{
  User, Scope, Membership, tenant_scope, is_active_user, is_active_membership,
}
use backend_pluseops.Access.{Access}
use backend_pluseops.Reports.{
  Desk, Schedule, ReportType, LastError, creator_inactive, creator_cannot_read, request_failed,
  assert_can_read, request, accepts_range,
}
use backend_pluseops.Reports.Periods.{
  Calendar, Frequency, Key, of_day, week_of, of_month, Period, latest_completed_period,
}

abbrev pub same_key : Key → Key → Bool
same_key (of_day a) (of_day b) = a == b
same_key (week_of a) (week_of b) = a == b
same_key (of_month a) (of_month b) = a == b
same_key _ _ = false

abbrev pub same_period : Option Key → Option Key → Bool
same_period none none = true
same_period (some a) (some b) = same_key a b
same_period _ _ = false

abbrev pub same_frequency : Frequency → Frequency → Bool
same_frequency Frequency.daily Frequency.daily = true
same_frequency Frequency.weekly Frequency.weekly = true
same_frequency Frequency.monthly Frequency.monthly = true
same_frequency _ _ = false

-- `memberships: { some: { tenantId, status: 'ACTIVE' } }`
abbrev pub is_staff_row : ℕ → ℕ → Membership → Bool
is_staff_row tenant user m =
    m.tenant_id == tenant && (m.user_id == user && is_active_membership m.status)

-- `activeStaff`, for one user: deleted users have no row.
unfoldable pub is_active_staff : ℕ → ℕ → Desk → Bool
is_active_staff tenant user s =
    any (λ (u : User). u.id == user && is_active_user u.status) s.users
    && any (is_staff_row tenant user) s.access.memberships

-- `assertRecipients`
unfoldable pub are_recipients : ℕ → List ℕ → Desk → Bool
are_recipients tenant [] s = true
are_recipients tenant (u ∷ us) s = is_active_staff tenant u s && are_recipients tenant us s

-- `[...new Set(ids)]`
unfoldable pub unique_ids : List ℕ → List ℕ
unique_ids [] = []
unique_ids (x ∷ xs) = x ∷ filter (λ y. not (y == x)) (unique_ids xs)

-- `recipientUserIds?.length ? recipientUserIds : [userId]`
abbrev pub or_caller : ℕ → List ℕ → List ℕ
or_caller user [] = user ∷ []
or_caller user (x ∷ xs) = x ∷ xs

unfoldable pub put_schedule : Schedule → Desk → Desk
put_schedule r s = record s { schedules = upsert r.id r s.schedules }

-- The end of `create`, by what `assertCanRead` came to.
unfoldable pub add_schedule : Result (Unit {0}) → Schedule → Desk → Result ℕ × Desk
add_schedule (err e) created s = (err e, s)
add_schedule (ok passed) created s =
    if are_recipients created.tenant_id created.recipients s
    then (ok created.id, put_schedule created (record s { next_id = s.next_id + 1 }))
    else (err invalid_recipients, s)

-- The end of `update`.
unfoldable pub write_changes :
    Result (Unit {0}) → List ℕ → Schedule → Desk → Result (Unit {0}) × Desk
write_changes (err e) recipients r s = (err e, s)
write_changes (ok passed) recipients r s =
    if are_recipients r.tenant_id recipients s
    then (ok tt, put_schedule r s)
    else (err invalid_recipients, s)

-- `find`
unfoldable pub find_schedule : ℕ → ℕ → Desk → Option Schedule
find_schedule tenant id s = elim (lookup id s.schedules) [
  | none ↦ none
  | some r ↦ if r.tenant_id == tenant then some r else none
]

pub record Changes : Type 0 where
  pub recipients : Option (List ℕ)
  pub enabled : Option Bool
  pub frequency : Option Frequency

-- `remove`
unfoldable pub remove : ℕ → ℕ → Desk → Result (Unit {0}) × Desk
remove tenant id s = elim (find_schedule tenant id s) [
  | none ↦ (err report_schedule_not_found, s)
  | some before ↦ (ok tt, record s { schedules = filter (λ r. not (r.0 == id)) s.schedules })
]

module _ (c : Calendar) where
  abbrev pub key_of : Frequency → ℕ → Key
  key_of frequency now = (latest_completed_period c frequency now).key

  -- The first report covers the next period to end.
  abbrev pub new_schedule : ℕ → ℕ → ℕ → ReportType → Frequency → List ℕ → Bool → ℕ → Schedule
  new_schedule id user tenant kind frequency recipients enabled now = record {
    id = id;
    tenant_id = tenant;
    created_by = some user;
    kind = kind;
    frequency = frequency;
    recipients = recipients;
    enabled = enabled;
    last_period = some (key_of frequency now);
    last_run_at = none;
    last_report_id = none;
    last_error = none;
  }

  -- `create`
  unfoldable pub create :
      Scope → ℕ → ℕ → ReportType → Frequency → List ℕ → Option Bool → ℕ → Desk → Result ℕ × Desk
  create scope user tenant kind frequency asked enabled now s =
      let allowed = assert_can_read kind scope user tenant s.access in
      let recipients = unique_ids (or_caller user asked) in
      let t = record s { access = allowed.1 } in
      let created =
        new_schedule s.next_id user tenant kind frequency recipients (get_or enabled true) now in
      add_schedule allowed.0 created t

  -- A new frequency starts from the last period that ended, and so does a schedule that is switched
  -- on again.
  unfoldable pub next_period : Schedule → Changes → ℕ → Option Key
  next_period before changes now =
      let frequency = get_or changes.frequency before.frequency in
      if not (same_frequency frequency before.frequency)
        || (get_or changes.enabled false && not before.enabled)
      then some (key_of frequency now)
      else before.last_period

  abbrev pub changed : Schedule → Changes → ℕ → Schedule
  changed before changes now = record before {
    recipients = elim changes.recipients [ none ↦ before.recipients | some ids ↦ unique_ids ids ];
    enabled = get_or changes.enabled before.enabled;
    last_error = if get_or changes.enabled false then none else before.last_error;
    frequency = get_or changes.frequency before.frequency;
    last_period = next_period before changes now;
  }

  -- `update`
  unfoldable pub update : Scope → ℕ → ℕ → ℕ → Changes → ℕ → Desk → Result (Unit {0}) × Desk
  update scope user tenant id changes now s = elim (find_schedule tenant id s) [
    | none ↦ (err report_schedule_not_found, s)
    | some before ↦
        let allowed = assert_can_read before.kind scope user tenant s.access in
        let t = record s { access = allowed.1 } in
        write_changes allowed.0 (get_or changes.recipients []) (changed before changes now) t
  ]
