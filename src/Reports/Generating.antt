-- ===== src/Reports/Generating.antt =====
-- `generate` of src/modules/reports/reports.service.js. The rows of a report, which
-- reports.builders.js reads from the tables, are an argument, and so are the faults on the way.
pub mod Stored
use backend_pluseops.Base.{
  ℕ, Bool, true, false, ◌&&◌, Option, none, some, List, [], ◌∷◌, map, Result, ok, err, Error,
  nat_eq, ◌==◌, ltb, if◌then◌else◌, report_too_large,
}
use backend_pluseops.Base.Lists.{length}
use backend_pluseops.Reports.{Desk, Report, ReportStatus, get_report, is_completed}
use backend_pluseops.Reports.Csv.{Text, csv_file}

-- MAX_ROWS
abbrev pub max_rows : ℕ
max_rows = 100000

pub data Outcome : Type 0 where
  skipped_missing skipped_completed : Outcome
  generated : ℕ → Outcome

abbrev pub with_id : ℕ → (Report → Report) → Report → Report
with_id id f r = if r.id == id then f r else r

-- `prisma.report.update({ where: { id } })`
unfoldable pub update_report : ℕ → (Report → Report) → Desk → Desk
update_report id f s = record s { reports = map (with_id id f) s.reports }

abbrev pub processing : Report → Report
processing r = record r { status = ReportStatus.processing }

abbrev pub completed_with : ℕ → Report → Report
completed_with count r = record r {
  status = ReportStatus.completed;
  storage_key = some r.id;
  row_count = some count;
}

abbrev pub failed_now : Report → Report
failed_now r = record r { status = ReportStatus.failed }

-- What goes wrong on the way: the read of the rows stops with an error after those that came, the
-- upload raises, with the file at its place all the same or not, and the database refuses one of the
-- three updates of the row.
pub record Faults : Type 0 where
  pub rows : Option Error
  pub upload : Option Error
  pub arrived : Bool
  pub start : Option Error
  pub complete : Option Error
  pub fail : Option Error

-- The lines, where the read of the rows ends without an error.
unfoldable pub finished : Option Error → List (List (Option Text)) → Result Text
finished none lines = ok (csv_file lines)
finished (some e) lines = err e

-- Each row is counted before its line is built.
unfoldable pub build : Option Error → List (Option Text) → List (List (Option Text)) → Result Text
build fault header rows =
    if ltb max_rows (length rows) then err report_too_large else finished fault (header ∷ rows)

-- The `catch`, with what the upload has left.
unfoldable pub fail :
    Option Error → ℕ → Error → Option Text → Desk → Result Outcome × Option Text × Desk
fail none id e file s = (err e, file, update_report id failed_now s)
fail (some x) id e file s = (err x, file, s)

-- The update to COMPLETED, after the upload.
unfoldable pub complete :
    Option Error → Option Error → ℕ → ℕ → Text → Desk → Result Outcome × Option Text × Desk
complete none then_fail id count file s =
    (ok (generated count), some file, update_report id (completed_with count) s)
complete (some e) then_fail id count file s = fail then_fail id e (some file) s

unfoldable pub store :
    Option Error → Faults → ℕ → ℕ → Text → Desk → Result Outcome × Option Text × Desk
store none faults id count file s = complete faults.complete faults.fail id count file s
store (some e) faults id count file s =
    fail faults.fail id e (if faults.arrived then some file else none) s

unfoldable pub store_built :
    Faults → ℕ → ℕ → Result Text → Desk → Result Outcome × Option Text × Desk
store_built faults id count (err e) s = fail faults.fail id e none s
store_built faults id count (ok file) s = store faults.upload faults id count file s

-- The update to PROCESSING, and what follows.
unfoldable pub process :
    Option Error
    → Faults
    → List (Option Text)
    → List (List (Option Text))
    → ℕ
    → Desk
    → Result Outcome × Option Text × Desk
process (some e) faults header rows id s = (err e, none, s)
process none faults header rows id s =
    store_built faults id (length rows) (build faults.rows header rows)
      (update_report id processing s)

-- `generate`, with the file that this call has put under the key of the report, if it has.
unfoldable pub generate :
    Faults
    → List (Option Text)
    → List (List (Option Text))
    → ℕ
    → ℕ
    → Desk
    → Result Outcome × Option Text × Desk
generate faults header rows tenant id s =
    let run = process faults.start faults header rows id s in
    elim (get_report tenant id s) [
      | none ↦ (ok skipped_missing, none, s)
      | some r ↦ if is_completed r.status then (ok skipped_completed, none, s) else run
    ]
