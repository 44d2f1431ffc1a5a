-- ===== src/Examples/Reporting.antt =====
-- Reports: a schedule that a worker claims, the periods, the files, and a report that is generated.
use backend_pluseops.Base.{
  ℕ, suc, ◌*◌, ◌/◌, ◌≤◌, ◌<◌, ◌≡◌, refl, true, false, none, some, [], ◌∷◌, ok, arith,
}
use backend_pluseops.Base.Tables.{lookup, upsert}
use backend_pluseops.Auth.{User, support_scope, UserStatus, MembershipStatus}
use backend_pluseops.Reports.{Desk, Schedule, ReportType, assert_can_read}
use backend_pluseops.Reports.Periods.{Calendar, Frequency, of_day, week_of, latest_completed_period}
use backend_pluseops.Reports.Periods.Latest.{IsLatest, latest_completed_period-IsLatest}
use backend_pluseops.Reports.Schedules.{
  create, new_schedule, add_schedule, put_schedule, are_recipients, is_active_staff, unique_ids,
}
use backend_pluseops.Reports.Schedules.Running.{claim, is_unclaimed}

-- Months of thirty days.
begins_lem : (day : ℕ) → 30 * (day / 30) ≤ day
begins_lem day = omega arith

ends_lem : (day : ℕ) → day < 30 * suc (day / 30)
ends_lem day = omega arith

grows_lem : (month : ℕ) → 30 * month < 30 * suc month
grows_lem month = omega arith

abbrev even_months : Calendar
even_months = record {
  first_of = λ m. 30 * m;
  month_of = λ d. d / 30;
  begins = begins_lem;
  ends = ends_lem;
  grows = grows_lem;
}

abbrev pub owner : User
owner = record {
  id = 7;
  tenant_id = 1;
  email = 70;
  password_hash = 71;
  first_name = 72;
  last_name = 73;
  status = UserStatus.active;
  email_verified = true;
  last_login_at = none;
}

abbrev pub empty_desk : Desk
empty_desk = record {
  users = owner ∷ [];
  access = record {
    memberships = record { tenant_id = 1; user_id = 7; status = MembershipStatus.active } ∷ [];
    roles = [];
    permissions = [];
    user_roles = [];
    role_permissions = [];
    cache = [];
  };
  open_tenants = 1 ∷ [];
  schedules = [];
  reports = [];
  next_id = 1;
}

abbrev daily_orders : Schedule
daily_orders = new_schedule even_months 1 7 1 ReportType.orders Frequency.daily (7 ∷ []) true 40

abbrev desk : Desk
desk = record empty_desk { schedules = (1, daily_orders) ∷ []; next_id = 2 }

created_daily :
    create even_months support_scope 7 1 ReportType.orders Frequency.daily [] none 40 empty_desk
    ≡ (ok 1, desk)
unfolding create assert_can_read add_schedule put_schedule are_recipients is_active_staff unique_ids
    latest_completed_period upsert
created_daily = refl

abbrev claimed_desk : Desk
claimed_desk = record desk {
  schedules =
      (1, record daily_orders { last_period = some (of_day 40); last_run_at = some 41 }) ∷ [];
}

-- On the next day a worker claims the day that has ended, and no other can.
claimed_day : claim daily_orders (of_day 40) 41 desk ≡ (true, claimed_desk)
unfolding claim is_unclaimed latest_completed_period lookup upsert
claimed_day = refl

claimed_before : claim daily_orders (of_day 40) 41 claimed_desk ≡ (false, claimed_desk)
unfolding claim is_unclaimed latest_completed_period lookup upsert
claimed_before = refl

latest_completed_period-IsLatest_example :
    IsLatest even_months Frequency.monthly 70
      (latest_completed_period even_months Frequency.monthly 70).from
      (latest_completed_period even_months Frequency.monthly 70).to
latest_completed_period-IsLatest_example =
    latest_completed_period-IsLatest even_months Frequency.monthly 70 (omega arith) (omega arith)

last_week :
    latest_completed_period even_months Frequency.weekly 20
    ≡ record { key = week_of 11; from = 11; to = 17 }
unfolding latest_completed_period
last_week = refl
