-- ===== src/Reports/Periods/Latest.antt =====
-- The period of `latestCompletedPeriod` among all periods of its frequency.
use backend_pluseops.Base.{
  ℕ, zero, suc, ◌+◌, ◌-◌, ◌%◌, ◌≤◌, ◌<◌, ◌≡◌, refl, ap, arith, inl, inr, leb, Bool-cases, leb→le,
}
use backend_pluseops.Reports.Periods.{Calendar, Frequency, latest_completed_period}

module _ (c : Calendar) where
  open c use {first_of, month_of, begins, ends, grows}

  first_of_mono : (a k : ℕ) → first_of a ≤ first_of (a + k)
  first_of_mono a zero = let e : a + 0 ≡ a = omega arith in rw e (omega arith)
  first_of_mono a (suc k) =
      let e : a + suc k ≡ suc (a + k) = omega arith in
      rw e (omega (arith, first_of_mono a k, grows (a + k)))

  -- A month that has begun by a day is no later than that of the day.
  month-le : (m day : ℕ) → first_of m ≤ day → m ≤ month_of day
  month-le m day h = elim (Bool-cases (leb m (month_of day))) [
    | inl before ↦ leb→le m (month_of day) before
    | inr after ↦
        let later : suc (month_of day) ≤ m = ground arith in
        let split : suc (month_of day) + (m - suc (month_of day)) ≡ m = omega arith in
        absurd (
          omega (
            arith,
            ends day,
            first_of_mono (suc (month_of day)) (m - suc (month_of day)),
            ap first_of split,
            h,
          ))
  ]

  -- The periods of a frequency: a day, a week from Monday to Sunday, a month.
  pub data IsPeriod : Frequency → ℕ → ℕ → Type 0 where
    day : {n : ℕ} → IsPeriod Frequency.daily n n
    week : {n m : ℕ} → n % 7 ≡ 4 → m ≡ n + 6 → IsPeriod Frequency.weekly n m
    month :
        {n m : ℕ} (k : ℕ)
        → n ≡ first_of k
        → suc m ≡ first_of (suc k)
        → IsPeriod Frequency.monthly n m

  -- A period that has ended before today, and ends no earlier than any other such one.
  pub record IsLatest (f : Frequency) (today from to : ℕ) : Type 0 where
    pub period : IsPeriod f from to
    pub ended : to < today
    pub last : (n m : ℕ) → IsPeriod f n m → m < today → m ≤ to

  month_back : (today : ℕ) → 1 ≤ month_of today → suc (month_of today - 1) ≡ month_of today
  month_back today h = omega arith

  last_month :
      (today n m : ℕ)
      → 1 ≤ month_of today
      → IsPeriod Frequency.monthly n m
      → m < today
      → m ≤ first_of (month_of today) - 1
  last_month today n m h (month k e g) before =
      let begun : suc k ≤ month_of today = month-le (suc k) today (omega (arith, g)) in
      let split : suc k + (month_of today - suc k) ≡ month_of today = omega arith in
      omega (arith, g, first_of_mono (suc k) (month_of today - suc k), ap first_of split)

  last_week :
      (today monday n m : ℕ)
      → monday % 7 ≡ 4
      → today ≤ monday + 13
      → IsPeriod Frequency.weekly n m
      → m < today
      → m ≤ monday + 6
  last_week today monday n m h near (week e g) before = omega arith

  last_day : (today n m : ℕ) → IsPeriod Frequency.daily n m → m < today → m ≤ today - 1
  last_day today n m day before = omega arith

  -- From February 1970 on, the period that latestCompletedPeriod answers is a whole day, a week from
  -- Monday to Sunday or a month, has ended before today, and no other period of its frequency that
  -- has ended ends later.
  pub latest_completed_period-IsLatest :
      (f : Frequency) (today : ℕ)
      → 14 ≤ today
      → 1 ≤ month_of today
      → IsLatest f today
          (latest_completed_period c f today).from
          (latest_completed_period c f today).to
  unfolding latest_completed_period
  latest_completed_period-IsLatest Frequency.daily today h k = record {
    period = day;
    ended = omega arith;
    last = last_day today;
  }
  latest_completed_period-IsLatest Frequency.weekly today h k = record {
    period = week (omega arith) refl;
    ended = omega arith;
    last = λ n m. last_week today _ n m (omega arith) (omega arith);
  }
  latest_completed_period-IsLatest Frequency.monthly today h k = record {
    period = month (month_of today - 1) refl (
        rw (month_back today k)
          (omega (arith, grows (month_of today - 1), ap first_of (month_back today k))));
    ended =
        omega (arith, begins today, grows (month_of today - 1), ap first_of (month_back today k));
    last = λ n m p b. last_month today n m k p b;
  }

  pub month_of_mono : (a b : ℕ) → a ≤ b → month_of a ≤ month_of b
  month_of_mono a b h = month-le (month_of a) b (omega (arith, begins a))
