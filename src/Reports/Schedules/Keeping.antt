-- ===== src/Reports/Schedules/Keeping.antt =====
-- What claims and requests keep of the rows, of what workers have read and of the claims.
use backend_pluseops.Base.{
  ℕ, Bool, true, false, not, ◌&&◌, ◌||◌, Option, some, List, [], ◌∷◌, Result, ok, err, ◌≤◌, ◌≡◌,
  ◌≢◌, refl, sym, ap, ◌∙◌, arith, nat_eq, ◌==◌, get_or, Bool-cases, Option-cases, inl, inr, ==_iff,
}
use backend_pluseops.Base.Lists.{All, All-mono}
use backend_pluseops.Base.Tables.{Table, lookup, upsert, lookup-upsert}
use backend_pluseops.Auth.{Scope}
use backend_pluseops.Reports.{Desk, Schedule, ReportType}
use backend_pluseops.Reports.Periods.{Calendar, Frequency, Key}
use backend_pluseops.Reports.Schedules.{
  Changes, unique_ids, or_caller, are_recipients, create, new_schedule, update, add_schedule,
  write_changes, key_of, same_frequency, changed, next_period, put_schedule, find_schedule,
}
use backend_pluseops.Reports.Schedules.Running.{claim, is_unclaimed}
use backend_pluseops.Reports.Schedules.Keys.{
  Claim, same_period-eq, key_of-frequency, key_of-between, same_frequency-eq,
}
use backend_pluseops.Reports.Schedules.Writing.{Before, Kept, Timed, Dated, Rows, Rows-upsert}

-- No claim is there twice.
abbrev pub Distinct : List Claim → Type 0
Distinct [] = Unit
Distinct (entry ∷ log) = All (λ x. x ≢ entry) log × Distinct log

module _ (c : Calendar) where
  abbrev pub taken : Schedule → Key → ℕ → Schedule
  taken r key now = record r { last_period = some key; last_run_at = some now }

  pub claim-true :
      (snapshot : Schedule) (key : Key) (now : ℕ) (s t : Desk)
      → claim snapshot key now s ≡ (true, t)
      → (r : Schedule) × (lookup snapshot.id s.schedules ≡ some r)
        × (r.last_period ≡ snapshot.last_period)
        × (t.schedules ≡ upsert snapshot.id (taken r key now) s.schedules)
  unfolding claim is_unclaimed
  claim-true snapshot key now s t e = elim (Option-cases (lookup snapshot.id s.schedules)) [
    | inl gone ↦ ground (arith, gone, e)
    | inr (r, there) ↦ (
      r,
      there,
      same_period-eq r.last_period snapshot.last_period (ground (arith, there, e)),
      ground (arith, there, e),
    )
  ]

  -- A claim of a schedule's period, and the claims before it.
  pub fresh :
      (log : List Claim) (id d day : ℕ) (f : Frequency)
      → d ≤ day
      → key_of c f d ≢ key_of c f day
      → All (Before c id d) log
      → All (λ entry. entry ≢ (id, key_of c f day)) log
  fresh log id d day f le apart before =
      All-mono (Before c id d) (λ entry. entry ≢ (id, key_of c f day)) log
        (λ entry b e.
          let (g, a, early, key) = b (ap (λ (x : Claim). x.0) e) in
          let same : key_of c f day ≡ key_of c g a = sym (ap (λ (x : Claim). x.1) e) ∙ key in
          let freq : f ≡ g = key_of-frequency c f g day a same in
          let again : key_of c f a ≡ key_of c f day = ap (λ h. key_of c h a) freq ∙ sym same in
          apart (key_of-between c f a d day early le again))
        before

  pub record IsKept (log : List Claim) (reads : List Schedule) (day : ℕ) (rows : Table ℕ Schedule)
      : Type 0 where
    pub kept : Rows c log day rows
    pub timed : All (Timed c day) reads
    pub dated : All (Dated c day) log
    pub distinct : Distinct log

  pub later-IsKept :
      (log : List Claim) (reads : List Schedule) (day later : ℕ) (rows : Table ℕ Schedule)
      → day ≤ later
      → IsKept log reads day rows
      → IsKept log reads later rows
  unfolding Rows
  later-IsKept log reads day later rows le k = record {
    kept = λ id r e.
        (let (d, early, name, period, before) = k.kept id r e in
          (d, omega (arith, early, le), name, period, before));
    timed =
        All-mono (Timed c day) (Timed c later) reads (λ r h. (h.0, omega (arith, h.1, le), h.2))
          k.timed;
    dated =
        All-mono (Dated c day) (Dated c later) log
          (λ entry h. (h.0, h.1, omega (arith, h.2, le), h.3)) k.dated;
    distinct = k.distinct;
  }

  -- A row whose period is the latest of the day.
  pub Kept-now :
      (log : List Claim) (day : ℕ) (r : Schedule)
      → All (Dated c day) log
      → r.last_period ≡ some (key_of c r.frequency day)
      → Kept c log day r.id r
  Kept-now log day r h e = (
    day,
    omega arith,
    refl,
    e,
    All-mono (Dated c day) (Before c r.id day) log (λ entry d same. d) h,
  )

  -- The claim is logged; other rows are not touched by it.
  pub Rows-claimed :
      (log : List Claim) (day id : ℕ) (f : Frequency) (r : Schedule) (rows : Table ℕ Schedule)
      → r.frequency ≡ f
      → r.id ≡ id
      → All (Dated c day) log
      → Rows c log day rows
      → Rows c ((id, key_of c f day) ∷ log) day (upsert id (taken r (key_of c f day) day) rows)
  unfolding Rows
  Rows-claimed log day id f r rows freq name dated h j q e = elim (Bool-cases (id == j)) [
    | inl same ↦
        let key : id ≡ j = (==_iff id j).0 same in
        let row : taken r (key_of c f day) day ≡ q =
          ground (arith, lookup-upsert id j (taken r (key_of c f day) day) rows, e) in
        rw (sym row) (
          day,
          omega arith,
          name ∙ key,
          ap (λ g. some (key_of c g day)) (sym freq),
          (
            λ k. (f, day, omega arith, refl),
            All-mono (Dated c day) (Before c j day) log (λ entry d k. d) dated,
          ),
        )
    | inr other ↦
        let there : lookup j rows ≡ some q =
          ground (arith, lookup-upsert id j (taken r (key_of c f day) day) rows, e) in
        let (d, early, called, period, before) = h j q there in
        let apart : id ≢ j = λ k. ground (arith, (==_iff id j).1 k) in
        (d, early, called, period, (λ k. absurd (apart k), before))
  ]

  add_schedule-Rows :
      (log : List Claim) (day : ℕ) (allowed : Result (Unit {0})) (created : Schedule) (s : Desk)
      → Kept c log day created.id created
      → Rows c log day s.schedules
      → Rows c log day (add_schedule allowed created s).1.schedules
  unfolding add_schedule put_schedule
  add_schedule-Rows log day (err e) created s k h = h
  add_schedule-Rows log day (ok passed) created s k h =
      elim (Bool-cases (are_recipients created.tenant_id created.recipients s)) [
        | inl staff ↦ rw staff (Rows-upsert c log day created.id created s.schedules k h)
        | inr strangers ↦ rw strangers h
      ]

  write_changes-Rows :
      (log : List Claim) (day : ℕ) (allowed : Result (Unit {0})) (recipients : List ℕ)
      (r : Schedule) (s : Desk)
      → Kept c log day r.id r
      → Rows c log day s.schedules
      → Rows c log day (write_changes allowed recipients r s).1.schedules
  unfolding write_changes put_schedule
  write_changes-Rows log day (err e) recipients r s k h = h
  write_changes-Rows log day (ok passed) recipients r s k h =
      elim (Bool-cases (are_recipients r.tenant_id recipients s)) [
        | inl staff ↦ rw staff (Rows-upsert c log day r.id r s.schedules k h)
        | inr strangers ↦ rw strangers h
      ]

  pub create-Rows :
      (log : List Claim) (day : ℕ) (scope : Scope) (user tenant : ℕ) (kind : ReportType)
      (frequency : Frequency) (asked : List ℕ) (enabled : Option Bool) (s : Desk)
      → All (Dated c day) log
      → Rows c log day s.schedules
      → Rows c log day (create c scope user tenant kind frequency asked enabled day s).1.schedules
  unfolding create
  create-Rows log day scope user tenant kind frequency asked enabled s dated h =
      let recipients = unique_ids (or_caller user asked) in
      let created =
        new_schedule c s.next_id user tenant kind frequency recipients (get_or enabled true) day in
      add_schedule-Rows log day _ created _ (Kept-now log day created dated refl) h

  changed-Kept :
      (log : List Claim) (day : ℕ) (before : Schedule) (changes : Changes)
      → All (Dated c day) log
      → Kept c log day before.id before
      → Kept c log day before.id (changed c before changes day)
  unfolding next_period
  changed-Kept log day before changes dated k =
      elim (Bool-cases (
        not (same_frequency (get_or changes.frequency before.frequency) before.frequency)
        || (get_or changes.enabled false && not before.enabled))) [
          | inl restarted ↦
              Kept-now log day (changed c before changes day) dated (rw (restarted, next_period))
          | inr goes_on ↦
              let (d, early, name, period, kept) = k in
              let same : get_or changes.frequency before.frequency ≡ before.frequency =
                same_frequency-eq _ _ (ground arith) in
              (
                d,
                early,
                name,
                rw (goes_on, next_period) (period ∙ ap (λ f. some (key_of c f d)) (sym same)),
                kept,
              )
        ]

  find_schedule-there :
      (tenant id : ℕ) (s : Desk) (r : Schedule)
      → find_schedule tenant id s ≡ some r
      → lookup id s.schedules ≡ some r
  unfolding find_schedule
  find_schedule-there tenant id s r e = ground arith

  pub update-Rows :
      (log : List Claim) (day : ℕ) (scope : Scope) (user tenant id : ℕ) (changes : Changes)
      (s : Desk)
      → All (Dated c day) log
      → Rows c log day s.schedules
      → Rows c log day (update c scope user tenant id changes day s).1.schedules
  unfolding update Rows
  update-Rows log day scope user tenant id changes s dated h =
      elim (Option-cases (find_schedule tenant id s)) [
        | inl gone ↦ rw (gone, update) h
        | inr (r, found) ↦
            let there = find_schedule-there tenant id s r found in
            let kept = h id r there in
            let here : Kept c log day r.id r = (
              kept.0,
              kept.1,
              refl,
              kept.3,
              All-mono (Before c id kept.0) (Before c r.id kept.0) log (λ entry b e. b (e ∙ kept.2))
                  kept.4,
            ) in
            rw (found, update)
              (write_changes-Rows log day _ _ (changed c r changes day) _
                (changed-Kept log day r changes dated here) h)
      ]
