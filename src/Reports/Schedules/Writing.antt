-- ===== src/Reports/Schedules/Writing.antt =====
-- What the writes of `runOne` and the upserts keep: the period of a row is that of an earlier day,
-- from which on it was not claimed.
use backend_pluseops.Base.{
  ℕ, not, Option, some, List, Result, ok, err, ◌≤◌, ◌≡◌, refl, sym, ◌∙◌, arith, nat_eq, ◌==◌,
  Bool-cases, Option-cases, inl, inr, ==_iff,
}
use backend_pluseops.Base.Lists.{All, filter}
use backend_pluseops.Base.Tables.{Table, lookup, upsert, lookup-upsert, lookup-filter}
use backend_pluseops.Auth.{tenant_scope}
use backend_pluseops.Reports.{
  Desk, Schedule, ReportType, request, creator_inactive, creator_cannot_read,
}
use backend_pluseops.Reports.Periods.{Calendar, Frequency, Period}
use backend_pluseops.Reports.Schedules.{is_active_staff, key_of, is_active_staff}
use backend_pluseops.Reports.Schedules.Running.{
  noted, paused, reported, troubled, run_outcome, run_as, run_one, is_forbidden, range_of,
}
use backend_pluseops.Reports.Schedules.Keys.{Claim}

module _ (c : Calendar) where
  -- A claim of the schedule, if it is one, was of a period up to the day.
  abbrev pub Before : ℕ → ℕ → Claim → Type 0
  Before id day entry =
      entry.0 ≡ id → (f : Frequency) × (d : ℕ) × (d ≤ day) × (entry.1 ≡ key_of c f d)

  -- A row whose period is that of an earlier day, from which on it was not claimed.
  abbrev pub Kept : List Claim → ℕ → ℕ → Schedule → Type 0
  Kept log day id r =
      (d : ℕ) × (d ≤ day)
      × (r.id ≡ id)
      × (r.last_period ≡ some (key_of c r.frequency d))
      × All (Before id d) log

  -- What a worker has read.
  abbrev pub Timed : ℕ → Schedule → Type 0
  Timed day r = (d : ℕ) × (d ≤ day) × (r.last_period ≡ some (key_of c r.frequency d))

  abbrev pub Dated : ℕ → Claim → Type 0
  Dated day entry = (f : Frequency) × (d : ℕ) × (d ≤ day) × (entry.1 ≡ key_of c f d)

  unfoldable pub Rows : List Claim → ℕ → Table ℕ Schedule → Type 0
  Rows log day rows = (id : ℕ) (r : Schedule) → lookup id rows ≡ some r → Kept log day id r

  pub Rows-upsert :
      (log : List Claim) (day id : ℕ) (r : Schedule) (rows : Table ℕ Schedule)
      → Kept log day id r
      → Rows log day rows
      → Rows log day (upsert id r rows)
  unfolding Rows
  Rows-upsert log day id r rows k h j q e = elim (Bool-cases (id == j)) [
    | inl same ↦
        let key : id ≡ j = (==_iff id j).0 same in
        let row : r ≡ q = ground (arith, lookup-upsert id j r rows, e) in rw (sym row, sym key) k
    | inr other ↦ h j q (ground (arith, lookup-upsert id j r rows, e))
  ]

  pub Rows-filter :
      (log : List Claim) (day id : ℕ) (rows : Table ℕ Schedule)
      → Rows log day rows
      → Rows log day (filter (λ r. not (r.0 == id)) rows)
  unfolding Rows
  Rows-filter log day id rows h j q e =
      h j q (ground (arith, lookup-filter (λ k. not (k == id)) j rows, e))

  -- Writes that leave the frequency and the period alone.
  Rows-noted :
      (log : List Claim) (day id : ℕ) (f : Schedule → Schedule) (s : Desk)
      → ((r : Schedule)
          → ((f r).frequency ≡ r.frequency)
            × ((f r).last_period ≡ r.last_period)
            × ((f r).id ≡ r.id))
      → Rows log day s.schedules
      → Rows log day (noted id f s).schedules
  unfolding noted Rows
  Rows-noted log day id f s same h = elim (Option-cases (lookup id s.schedules)) [
    | inl gone ↦ rw (gone, noted) h
    | inr (r, there) ↦
        let (d, le, name, period, before) = h id r there in
        let kept : Kept log day id (f r) =
          (d, le, (same r).2 ∙ name, rw ((same r).0) ((same r).1 ∙ period), before) in
        rw (there, noted) (Rows-upsert log day id (f r) s.schedules kept h)
  ]

  request-schedules :
      (queued : Result (Unit {0})) (user tenant : ℕ) (kind : ReportType) (range : Option (ℕ × ℕ))
      (schedule : Option ℕ) (at : ℕ) (s : Desk)
      → (request queued tenant_scope user tenant kind range schedule at s).1.schedules ≡ s.schedules
  unfolding request
  request-schedules queued user tenant kind range schedule at s = ground arith

  run_outcome-Rows :
      (log : List Claim) (day id : ℕ) (asked : Result ℕ) (s : Desk)
      → Rows log day s.schedules
      → Rows log day (run_outcome id asked s).1.schedules
  unfolding run_outcome
  run_outcome-Rows log day id (ok report) s h =
      Rows-noted log day id (reported report) s (λ r. (refl, refl, refl)) h
  run_outcome-Rows log day id (err e) s h = elim (Bool-cases (is_forbidden e)) [
    | inl refused ↦
        rw refused
          (Rows-noted log day id (paused creator_cannot_read) s (λ r. (refl, refl, refl)) h)
    | inr other ↦ rw other (Rows-noted log day id troubled s (λ r. (refl, refl, refl)) h)
  ]

  run_as-Rows :
      (log : List Claim) (day : ℕ) (queued : Result (Unit {0})) (r : Schedule) (p : Period)
      (user at : ℕ) (s : Desk)
      → Rows log day s.schedules
      → Rows log day (run_as queued r p user at s).1.schedules
  unfolding run_as
  run_as-Rows log day queued r p user at s h =
      elim (Bool-cases (is_active_staff r.tenant_id user s)) [
        | inl staff ↦ rw staff (
            run_outcome-Rows log day r.id _ _ (
              rw
                (request-schedules queued user r.tenant_id r.kind (range_of r.kind p) (some r.id) at
                  s)
                h))
        | inr gone ↦
            rw gone
              (Rows-noted log day r.id (paused creator_inactive) s (λ r. (refl, refl, refl)) h)
      ]

  pub run_one-Rows :
      (log : List Claim) (day : ℕ) (queued : Result (Unit {0})) (r : Schedule) (p : Period) (at : ℕ)
      (s : Desk)
      → Rows log day s.schedules
      → Rows log day (run_one queued r p at s).1.schedules
  unfolding run_one run_as
  run_one-Rows log day queued r p at s h = elim (Option-cases r.created_by) [
    | inl nobody ↦
        rw nobody (Rows-noted log day r.id (paused creator_inactive) s (λ r. (refl, refl, refl)) h)
    | inr (user, there) ↦ rw there (run_as-Rows log day queued r p user at s h)
  ]
