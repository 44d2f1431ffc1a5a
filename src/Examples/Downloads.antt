-- ===== src/Examples/Downloads.antt =====
-- The file of a report, and calls of an HTTP service.
use backend_pluseops.Base.{
  ℕ, ◌≡◌, refl, true, false, none, some, Option, List, [], ◌∷◌, err, map, if◌then◌else◌, nat_eq,
  ◌==◌, database_fault,
}
use backend_pluseops.Reports.{Desk, Report, ReportType, ReportStatus, get_report}
use backend_pluseops.Reports.Csv.{
  Text, guarded, escaped, quoted, csv_cell, joined, csv_line, csv_file, starts_formula,
}
use backend_pluseops.Reports.Csv.Reading.{read_file}
use backend_pluseops.Reports.Csv.RoundTrip.{shown, opens_formula, read_file-csv_file}
use backend_pluseops.Reports.Generating.{
  Faults, generate, process, store_built, store, complete, fail, build, finished, update_report,
}
use backend_pluseops.HttpClient.{
  Reply, response, success, failure, request_with_retry, attempt_from, round, caught,
  fetch_with_timeout, is_retryable, is_retryable_status, status_failure, unavailable,
}
use backend_pluseops.HttpClient.Retrying.{IsRetried, request_with_retry-IsRetried}
use backend_pluseops.Examples.Reporting.{empty_desk}

-- `a,"` and `=1`
abbrev cells : List (Option Text)
cells = some (b'a' ∷ b',' ∷ b'"' ∷ []) ∷ none ∷ some (b'=' ∷ b'1' ∷ []) ∷ []

-- `"a,""",,'=1`
line_of_cells :
    csv_line cells
    ≡ b'"' ∷ b'a' ∷ b',' ∷ b'"' ∷ b'"' ∷ b'"' ∷ b',' ∷ b',' ∷ 39 ∷ b'=' ∷ b'1' ∷ 13 ∷ 10 ∷ []
unfolding csv_line joined csv_cell quoted escaped guarded starts_formula
line_of_cells = refl

read_file-csv_file_example :
    (read_file (csv_file (cells ∷ cells ∷ [])) ≡ some (map (map shown) (cells ∷ cells ∷ [])))
    × ((v : Option Text) → opens_formula (shown v) ≡ false)
read_file-csv_file_example = read_file-csv_file (cells ∷ cells ∷ []) (tt, (tt, tt))

abbrev asked : Report
asked = record {
  id = 3;
  tenant_id = 1;
  requested_by = some 7;
  schedule_id = none;
  kind = ReportType.orders;
  range = none;
  status = ReportStatus.pending;
  storage_key = none;
  row_count = none;
  created_at = 40;
}

abbrev waiting : Desk
waiting = record empty_desk { reports = asked ∷ [] }

-- The upload goes well, and then the database refuses the update to COMPLETED.
abbrev refused_update : Faults
refused_update = record {
  rows = none;
  upload = none;
  arrived = true;
  start = none;
  complete = some database_fault;
  fail = none;
}

left_behind : generate refused_update cells (cells ∷ []) 1 3 waiting ≡ (
  err database_fault,
  some (csv_file (cells ∷ cells ∷ [])),
  record waiting { reports = record asked { status = ReportStatus.failed } ∷ [] },
)
unfolding generate process store_built store complete fail build finished update_report get_report
left_behind = refl

-- A service that is down once, and then answers.
abbrev replies : ℕ → Reply
replies n = if n == 1 then response 503 else response 200

called_again :
    request_with_retry true 2 200 replies
    ≡ record { outcome = success 200; attempts = 2; waits = 200 ∷ [] }
unfolding request_with_retry attempt_from round caught fetch_with_timeout is_retryable
    is_retryable_status status_failure
called_again = refl

not_called_again : request_with_retry false 2 200 replies ≡ record {
  outcome = failure (record { code = unavailable; status = 503 });
  attempts = 1;
  waits = [];
}
unfolding request_with_retry attempt_from round caught fetch_with_timeout is_retryable
    is_retryable_status status_failure
not_called_again = refl

request_with_retry-IsRetried_example :
    IsRetried true replies 1 2 (request_with_retry true 2 200 replies)
request_with_retry-IsRetried_example = request_with_retry-IsRetried true replies 2 200
