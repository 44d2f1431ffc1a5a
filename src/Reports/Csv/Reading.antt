-- ===== src/Reports/Csv/Reading.antt =====
-- A reader of CSV files by RFC 4180, which the files of the reports are measured against.
use backend_pluseops.Base.{ℕ, Option, none, some, List, [], ◌∷◌, ◌++◌, ◌==◌, if◌then◌else◌}
use backend_pluseops.Reports.Csv.{Text, quote, comma, carriage_return, line_feed}

pub data Mode : Type 0 where
  line_start field_start plain inside quote_seen line_end broken : Mode

pub record Reader : Type 0 where
  pub rows : List (List Text)
  pub cells : List Text
  pub buf : Text
  pub mode : Mode

abbrev pub push : Reader → ℕ → Mode → Reader
push r c m = record r { buf = r.buf ++ (c ∷ []); mode = m }

-- A cell ends.
abbrev pub ends : Reader → Mode → Reader
ends r m = record r { cells = r.cells ++ (r.buf ∷ []); buf = []; mode = m }

abbrev pub ends_line : Reader → Reader
ends_line r = record r { rows = r.rows ++ (r.cells ∷ []); cells = []; mode = Mode.line_start }

abbrev pub break_off : Reader → Reader
break_off r = record r { mode = Mode.broken }

unfoldable pub begin : Reader → ℕ → Reader
begin r c =
    if c == quote
    then record r { mode = Mode.inside }
    else if c == comma
    then ends r Mode.field_start
    else if c == carriage_return
    then ends r Mode.line_end
    else if c == line_feed
    then break_off r
    else push r c Mode.plain

unfoldable pub step_in : Mode → Reader → ℕ → Reader
unfolding begin
step_in Mode.line_start r c = begin r c
step_in Mode.field_start r c = begin r c
step_in Mode.plain r c =
    if c == comma
    then ends r Mode.field_start
    else if c == carriage_return
    then ends r Mode.line_end
    else if c == quote
    then break_off r
    else if c == line_feed
    then break_off r
    else push r c Mode.plain
step_in Mode.inside r c =
    if c == quote then record r { mode = Mode.quote_seen } else push r c Mode.inside
step_in Mode.quote_seen r c =
    if c == quote
    then push r c Mode.inside
    else if c == comma
    then ends r Mode.field_start
    else if c == carriage_return
    then ends r Mode.line_end
    else break_off r
step_in Mode.line_end r c = if c == line_feed then ends_line r else break_off r
step_in Mode.broken r c = r

unfoldable pub read : Reader → Text → Reader
unfolding step_in
read r [] = r
read r (c ∷ cs) = read (step_in r.mode r c) cs

abbrev pub table : Mode → Reader → Option (List (List Text))
table Mode.line_start r = some r.rows
table _ r = none

abbrev pub empty_reader : Reader
empty_reader = record { rows = []; cells = []; buf = []; mode = Mode.line_start }

-- The cells of a file, without its byte order mark.
unfoldable pub read_file : Text → Option (List (List Text))
unfolding read
read_file [] = none
read_file (c ∷ cs) = let r = read empty_reader cs in if c == 0xfeff then table r.mode r else none
