-- ===== src/Reports/Schedules/Keys.antt =====
-- The keys of the periods: they tell their frequency, and grow with the days.
use backend_pluseops.Base.{ℕ, true, Option, none, some, ◌-◌, ◌≤◌, ◌≡◌, refl, ap, arith, nat_eq}
use backend_pluseops.Reports.Periods.{
  Calendar, Frequency, Key, since_monday, of_day, week_of, of_month, latest_completed_period,
}
use backend_pluseops.Reports.Periods.Latest.{month_of_mono}
use backend_pluseops.Reports.Schedules.{key_of, same_period, same_frequency}

abbrev pub Claim : Type 0
Claim = ℕ × Key

pub same_period-eq : (a b : Option Key) → same_period a b ≡ true → a ≡ b
same_period-eq none none h = refl
same_period-eq (some (of_day a)) (some (of_day b)) h = ground arith
same_period-eq (some (week_of a)) (some (week_of b)) h = ground arith
same_period-eq (some (of_month a)) (some (of_month b)) h = ground arith
same_period-eq none (some b) h = cc
same_period-eq (some a) none h = cc
same_period-eq (some (of_day a)) (some (week_of b)) h = cc
same_period-eq (some (of_day a)) (some (of_month b)) h = cc
same_period-eq (some (week_of a)) (some (of_day b)) h = cc
same_period-eq (some (week_of a)) (some (of_month b)) h = cc
same_period-eq (some (of_month a)) (some (of_day b)) h = cc
same_period-eq (some (of_month a)) (some (week_of b)) h = cc

pub same_period_refl : (k : Key) → same_period (some k) (some k) ≡ true
same_period_refl (of_day a) = ground arith
same_period_refl (week_of a) = ground arith
same_period_refl (of_month a) = ground arith

pub same_frequency-eq : (f g : Frequency) → same_frequency f g ≡ true → f ≡ g
same_frequency-eq Frequency.daily Frequency.daily h = refl
same_frequency-eq Frequency.weekly Frequency.weekly h = refl
same_frequency-eq Frequency.monthly Frequency.monthly h = refl
same_frequency-eq Frequency.daily Frequency.weekly h = cc
same_frequency-eq Frequency.daily Frequency.monthly h = cc
same_frequency-eq Frequency.weekly Frequency.daily h = cc
same_frequency-eq Frequency.weekly Frequency.monthly h = cc
same_frequency-eq Frequency.monthly Frequency.daily h = cc
same_frequency-eq Frequency.monthly Frequency.weekly h = cc

pub some-inj : (a b : Key) → some a ≡ some b → a ≡ b
some-inj a b e = cc

abbrev monday_before : ℕ → ℕ
monday_before n = n - since_monday n - 7

monday_before-between :
    (a b d : ℕ)
    → a ≤ b
    → b ≤ d
    → monday_before a ≡ monday_before d
    → monday_before b ≡ monday_before d
monday_before-between a b d h k e = omega arith

week_of-inj : (a b : ℕ) → week_of a ≡ week_of b → a ≡ b
week_of-inj a b e = cc

module _ (c : Calendar) where
  -- Keys of two frequencies differ.
  pub key_of-frequency : (f g : Frequency) (a b : ℕ) → key_of c f a ≡ key_of c g b → f ≡ g
  unfolding latest_completed_period
  key_of-frequency Frequency.daily Frequency.daily a b h = refl
  key_of-frequency Frequency.weekly Frequency.weekly a b h = refl
  key_of-frequency Frequency.monthly Frequency.monthly a b h = refl
  key_of-frequency Frequency.daily Frequency.weekly a b h = cc
  key_of-frequency Frequency.daily Frequency.monthly a b h = cc
  key_of-frequency Frequency.weekly Frequency.daily a b h = cc
  key_of-frequency Frequency.weekly Frequency.monthly a b h = cc
  key_of-frequency Frequency.monthly Frequency.daily a b h = cc
  key_of-frequency Frequency.monthly Frequency.weekly a b h = cc

  -- Between two days with one key every day has it.
  pub key_of-between :
      (f : Frequency) (a b d : ℕ)
      → a ≤ b
      → b ≤ d
      → key_of c f a ≡ key_of c f d
      → key_of c f b ≡ key_of c f d
  unfolding latest_completed_period
  key_of-between Frequency.daily a b d h k e = ground arith
  key_of-between Frequency.weekly a b d h k e =
      ap week_of (monday_before-between a b d h k (week_of-inj _ _ e))
  key_of-between Frequency.monthly a b d h k e =
      ground (arith, month_of_mono c a b h, month_of_mono c b d k)
