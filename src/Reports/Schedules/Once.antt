-- ===== src/Reports/Schedules/Once.antt =====
-- Which periods the workers claim, over any sequence of requests and of steps of their ticks.
use backend_pluseops.Base.{
  ℕ, Bool, true, false, Option, some, List, [], ◌∷◌, Result, ok, err, ◌≤◌, ◌≡◌, ap, arith, nat_eq,
  Bool-cases, inl, inr, ◌⊎◌,
}
use backend_pluseops.Base.Lists.{All}
use backend_pluseops.Base.Tables.{lookup}
use backend_pluseops.Auth.{Scope}
use backend_pluseops.Reports.{Desk, Schedule, ReportType}
use backend_pluseops.Reports.Periods.{Calendar, Frequency, Key, Period, latest_completed_period}
use backend_pluseops.Reports.Schedules.{Changes, create, update, remove, key_of, same_period}
use backend_pluseops.Reports.Schedules.Running.{claim, run_one, run_each, collected}
use backend_pluseops.Reports.Schedules.Keys.{Claim}

abbrev pub Among : Schedule → List Schedule → Type 0
Among r [] = ⊥
Among r (q ∷ reads) = (r ≡ q) ⊎ Among r reads

module _ (c : Calendar) where
  -- What has happened by a day: the claims that won, newest first, the rows that workers have read, and
  -- the state. Requests and the steps of any number of ticks interleave as they like: a tick reads a
  -- row, claims its period at any later time of the same day
  -- (a tick that goes on after midnight with the day it started on is left out), and ends `runOne` at any time.
  pub data History : List Claim → List Schedule → ℕ → Desk → Type 0 where
    opened : {s : Desk} (day : ℕ) → s.schedules ≡ [] → History [] [] day s
    waited :
        {log : List Claim} {reads : List Schedule} {day later : ℕ} {s : Desk}
        → History log reads day s
        → day ≤ later
        → History log reads later s
    looked :
        {log : List Claim} {reads : List Schedule} {day : ℕ} {s : Desk} (id : ℕ) (r : Schedule)
        → History log reads day s
        → lookup id s.schedules ≡ some r
        → History log (r ∷ reads) day s
    claimed :
        {log : List Claim} {reads : List Schedule} {day : ℕ} {s t : Desk} (r : Schedule)
        → History log reads day s
        → Among r reads
        → same_period r.last_period (some (key_of c r.frequency day)) ≡ false
        → claim r (key_of c r.frequency day) day s ≡ (true, t)
        → History ((r.id, key_of c r.frequency day) ∷ log) reads day t
    ran :
        {log : List Claim} {reads : List Schedule} {day : ℕ} {s : Desk} (queued : Result (Unit {0}))
        (r : Schedule) (p : Period) (at : ℕ)
        → History log reads day s
        → History log reads day (run_one queued r p at s).1
    created :
        {log : List Claim} {reads : List Schedule} {day : ℕ} {s : Desk} (scope : Scope)
        (user tenant : ℕ) (kind : ReportType) (frequency : Frequency) (asked : List ℕ)
        (enabled : Option Bool)
        → History log reads day s
        → History log reads day (create c scope user tenant kind frequency asked enabled day s).1
    updated :
        {log : List Claim} {reads : List Schedule} {day : ℕ} {s : Desk} (scope : Scope)
        (user tenant id : ℕ) (changes : Changes)
        → History log reads day s
        → History log reads day (update c scope user tenant id changes day s).1
    removed :
        {log : List Claim} {reads : List Schedule} {day : ℕ} {s : Desk} (tenant id : ℕ)
        → History log reads day s
        → History log reads day (remove tenant id s).1

  claim-false :
      (r : Schedule) (key : Key) (now : ℕ) (s : Desk)
      → (claim r key now s).0 ≡ false
      → (claim r key now s).1 ≡ s
  unfolding claim
  claim-false r key now s e = ground arith

  -- A state that some history ends in, with claims of its own.
  abbrev Ends : List Schedule → ℕ → Desk → Type 0
  Ends reads day s = (log : List Claim) × History log reads day s

  collected-Ends :
      {reads : List Schedule} {day : ℕ} (answer : Result (Option ℕ)) (left : Desk)
      (rest : Result (List (Option ℕ)) × Desk)
      → Ends reads day left
      → Ends reads day rest.1
      → Ends reads day (collected answer left rest).1
  collected-Ends (err e) left rest h k = h
  collected-Ends (ok answer) left rest h k = k

  -- The loop of a tick that nothing interrupts is such a history.
  pub run_each-History :
      {reads : List Schedule} {day : ℕ} (queued : ℕ → Result (Unit {0})) (at : ℕ)
      (rs : List Schedule) (s : Desk) (log : List Claim)
      → All (λ r. Among r reads) rs
      → History log reads day s
      → Ends reads day (run_each c queued day at rs s).1
  unfolding run_each
  run_each-History queued at [] s log m h = (log, h)
  run_each-History {reads} {day} queued at (r ∷ rs) s log m h =
      let key = key_of c r.frequency day in
      let p = latest_completed_period c r.frequency day in
      let won = claim r key day s in
      elim (Bool-cases (same_period r.last_period (some key))) [
        | inl covered ↦ rw covered (run_each-History queued at rs s log m.1 h)
        | inr open_period ↦ elim (Bool-cases won.0) [
          | inr lost ↦
              rw (open_period, lost, claim-false r key day s lost)
                (run_each-History queued at rs s log m.1 h)
          | inl first ↦
              let claims = claimed {t = won.1} r h m.0 open_period (ap (λ b. (b, won.1)) first) in
              let after = ran (queued r.id) r p at claims in
              rw (open_period, first)
                (collected-Ends _ _ _ (_, after)
                  (run_each-History queued at rs (run_one (queued r.id) r p at won.1).1
                    ((r.id, key) ∷ log) m.1 after))
        ]
      ]
