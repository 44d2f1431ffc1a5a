-- ===== src/Reports/Generating/Stored.antt =====
-- What `generate` stores and records.
use backend_pluseops.Base.{
  ℕ, true, ◌≤◌, ◌≡◌, ◌≢◌, ◌⊎◌, Error, Option, none, some, List, ◌∷◌, map, Result, ok, err, nat_eq,
}
use backend_pluseops.Base.Lists.{length}
use backend_pluseops.Reports.{Desk, Report, get_report, is_completed}
use backend_pluseops.Reports.Csv.{Text}
use backend_pluseops.Reports.Csv.Reading.{read_file}
use backend_pluseops.Reports.Csv.RoundTrip.{shown}
use backend_pluseops.Reports.Generating.{
  max_rows, Outcome, generated, processing, completed_with, failed_now, fail, complete, Faults,
}

module _ (faults : Faults) (header : List (Option Text)) (rows : List (List (Option Text)))
    (tenant id : ℕ) where
  -- A file that a reader of CSV gives the header and the rows of.
  abbrev pub IsFile : Option Text → Type 0
  IsFile file =
      (f : Text) × (file ≡ some f) × (read_file f ≡ some (map (map shown) (header ∷ rows)))

  -- Such a file, and the row that tells of it.
  pub record IsStored (count : ℕ) (file : Option Text) (s t : Desk) : Type 0 where
    pub bounded : length rows ≤ max_rows
    pub whole : faults.rows ≡ none
    pub counted : count ≡ length rows
    pub contents : IsFile file
    pub row :
        (r : Report) × (get_report tenant id s ≡ some r)
        × (get_report tenant id t ≡ some (completed_with count (processing r)))

  -- The upload raised, or the update to COMPLETED did.
  abbrev pub IsLate : Type 0
  IsLate = (faults.upload ≢ none) ⊎ (faults.complete ≢ none)

  -- No file, or a whole one that the row does not tell of.
  abbrev pub IsLeft : Option Text → Type 0
  IsLeft file = (file ≡ none) ⊎ (IsFile file × IsLate)

  -- The row is FAILED, or PROCESSING where the database refuses that as well.
  abbrev pub IsMarked : Error → Desk → Desk → Type 0
  IsMarked e s t =
      (r : Report) × (get_report tenant id s ≡ some r)
      × (((faults.fail ≡ none) × (get_report tenant id t ≡ some (failed_now (processing r))))
          ⊎ ((faults.fail ≡ some e) × (get_report tenant id t ≡ some (processing r))))

  abbrev pub IsFailed : Error → Option Text → Desk → Desk → Type 0
  IsFailed e file s t =
      ((faults.start ≡ some e) × (file ≡ none) × (t ≡ s)) ⊎ (IsLeft file × IsMarked e s t)

  -- What each outcome of `generate` means.
  abbrev pub Settles : Desk → Result Outcome × Option Text × Desk → Type 0
  Settles s (ok (generated count), file, t) = IsStored count file s t
  Settles s (ok Outcome.skipped_missing, file, t) =
      (get_report tenant id s ≡ none) × (file ≡ none) × (t ≡ s)
  Settles s (ok Outcome.skipped_completed, file, t) =
      ((r : Report) × (get_report tenant id s ≡ some r) × (is_completed r.status ≡ true))
      × (file ≡ none)
      × (t ≡ s)
  Settles s (err e, file, t) = IsFailed e file s t
