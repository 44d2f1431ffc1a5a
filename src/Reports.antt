-- ===== src/Reports.antt =====
-- src/modules/reports: the rows, and `assertCanRead`, `request`, `get` and `download` of
-- reports.service.js. The files stand in Csv, the periods and the schedules of
-- report-schedules.service.js in Periods and Schedules, and `generate` in Generating.
pub mod Csv
pub mod Periods
pub mod Schedules
pub mod Generating
use backend_pluseops.Base.{
  ℕ, Bool, true, false, ◌&&◌, Option, none, some, List, [], ◌∷◌, ◌++◌, Result, ok, err, ◌+◌, nat_eq,
  ◌==◌, if◌then◌else◌, forbidden, report_not_found, report_not_ready,
}
use backend_pluseops.Base.Lists.{any, find, filter}
use backend_pluseops.Base.Tables.{Table}
use backend_pluseops.Auth.{User, Scope, is_active_user, is_active_membership}
use backend_pluseops.Access.{Access, Permission}
use backend_pluseops.Access.Authorizing.{
  Demand, read_action, satisfies, get_user_permissions, is_support,
}
use backend_pluseops.Reports.Periods.{Key, Frequency}

pub data ReportType : Type 0 where
  orders inventory customers : ReportType

pub data ReportStatus : Type 0 where
  pending processing completed failed : ReportStatus

-- `range` holds the filters `from` and `to`; the other filters are left out. `created_at` is a time
-- stamp, and `storage_key` stands for the path of the file under the tenant's prefix.
pub record Report : Type 0 where
  pub id : ℕ
  pub tenant_id : ℕ
  pub requested_by : Option ℕ
  pub schedule_id : Option ℕ
  pub kind : ReportType
  pub range : Option (ℕ × ℕ)
  pub status : ReportStatus
  pub storage_key : Option ℕ
  pub row_count : Option ℕ
  pub created_at : ℕ

-- The texts of `lastError`
pub data LastError : Type 0 where
  creator_inactive creator_cannot_read request_failed : LastError

pub record Schedule : Type 0 where
  pub id : ℕ
  pub tenant_id : ℕ
  pub created_by : Option ℕ
  pub kind : ReportType
  pub frequency : Frequency
  pub recipients : List ℕ
  pub enabled : Bool
  pub last_period : Option Key
  pub last_run_at : Option ℕ
  pub last_report_id : Option ℕ
  pub last_error : Option LastError

-- `reports` stands in the order of `created_at`. `open_tenants` are the tenants with the status
-- ACTIVE or TRIAL, and `next_id` stands for the database's uuids.
pub record Desk : Type 0 where
  pub users : List User
  pub access : Access
  pub open_tenants : List ℕ
  pub schedules : Table ℕ Schedule
  pub reports : List Report
  pub next_id : ℕ

-- REPORT_DEFINITIONS[type].permission
unfoldable pub permission_of : ReportType → Demand
permission_of ReportType.orders = record { resource = 1; action = read_action }
permission_of ReportType.inventory = record { resource = 2; action = read_action }
permission_of ReportType.customers = record { resource = 3; action = read_action }

-- REPORT_DEFINITIONS[type].filters.includes('from')
unfoldable pub accepts_range : ReportType → Bool
accepts_range ReportType.orders = true
accepts_range ReportType.inventory = false
accepts_range ReportType.customers = true

-- `assertCanRead`; reading the permissions may fill the cache.
unfoldable pub assert_can_read : ReportType → Scope → ℕ → ℕ → Access → Result (Unit {0}) × Access
assert_can_read kind scope user tenant s =
    if is_support scope
    then (ok tt, s)
    else let found = get_user_permissions user tenant s in
      (if any (satisfies (permission_of kind)) found.0 then ok tt else err forbidden, found.1)

-- `tx.report.create`
unfoldable pub new_report : ℕ → ℕ → ℕ → ReportType → Option (ℕ × ℕ) → Option ℕ → ℕ → Report
new_report id tenant user kind range schedule now = record {
  id = id;
  tenant_id = tenant;
  requested_by = some user;
  schedule_id = schedule;
  kind = kind;
  range = range;
  status = ReportStatus.pending;
  storage_key = none;
  row_count = none;
  created_at = now;
}

-- `request`: the row is committed before `enqueueReport` is called, which may throw.
unfoldable pub request :
    Result (Unit {0})
    → Scope
    → ℕ
    → ℕ
    → ReportType
    → Option (ℕ × ℕ)
    → Option ℕ
    → ℕ
    → Desk
    → Result ℕ × Desk
request queued scope user tenant kind range schedule now s =
    let allowed = assert_can_read kind scope user tenant s.access in
    elim allowed.0 [
      | err e ↦ (err e, record s { access = allowed.1 })
      | ok passed ↦
          let report = new_report s.next_id tenant user kind range schedule now in
          let t = record s {
            access = allowed.1;
            reports = s.reports ++ (report ∷ []);
            next_id = s.next_id + 1;
          } in
          elim queued [ err e ↦ (err e, t) | ok sent ↦ (ok s.next_id, t) ]
    ]

abbrev pub is_report : ℕ → ℕ → Report → Bool
is_report tenant id r = r.id == id && r.tenant_id == tenant

-- `get`
unfoldable pub get_report : ℕ → ℕ → Desk → Option Report
get_report tenant id s = find (is_report tenant id) s.reports

abbrev pub is_completed : ReportStatus → Bool
is_completed ReportStatus.completed = true
is_completed _ = false

-- `download`: the key that the signed url is for.
unfoldable pub download : Scope → ℕ → ℕ → ℕ → Desk → Result (Option ℕ) × Access
download scope user tenant id s = elim (get_report tenant id s) [
  | none ↦ (err report_not_found, s.access)
  | some r ↦
      let allowed = assert_can_read r.kind scope user tenant s.access in
      elim allowed.0 [
        | err e ↦ (err e, allowed.1)
        | ok passed ↦
            (if is_completed r.status then ok r.storage_key else err report_not_ready, allowed.1)
      ]
]
