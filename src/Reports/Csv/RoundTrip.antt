-- ===== src/Reports/Csv/RoundTrip.antt =====
-- The files of reports.csv.js, read back by the reader of Reading.
use mathlib.Core.List.{append-nil, append_assoc}
use backend_pluseops.Base.{
  ℕ, Bool, true, false, Option, none, some, List, [], ◌∷◌, ◌++◌, map, ◌==◌, ◌≡◌, refl, ap, ◌∙◌,
  arith, ==_iff, if◌then◌else◌, Bool-cases, inl, inr,
}
use backend_pluseops.Base.Lists.{any, All}
use backend_pluseops.Reports.Csv.{
  Text, quote, comma, carriage_return, line_feed, starts_formula, guarded, is_special, escaped,
  quoted, csv_cell, joined, csv_line, lines, csv_file,
}
use backend_pluseops.Reports.Csv.Reading.{Mode, Reader, begin, step_in, read, read_file}

abbrev state : List (List Text) → List Text → Text → Mode → Reader
state rows cells buf m = record { rows = rows; cells = cells; buf = buf; mode = m }

module _ (rows : List (List Text)) (cells : List Text) (rest : Text) where
  grown :
      (buf text : Text) (c : ℕ) (m : Mode)
      → read (state rows cells ((buf ++ (c ∷ [])) ++ text) m) rest
        ≡ read (state rows cells (buf ++ (c ∷ text)) m) rest
  grown buf text c m = rw append_assoc

  read-escaped :
      (text buf : Text)
      → read (state rows cells buf Mode.inside) ((escaped text ++ (quote ∷ [])) ++ rest)
        ≡ read (state rows cells (buf ++ text) Mode.quote_seen) rest
  unfolding read escaped
  read-escaped [] buf = rw append-nil
  read-escaped (c ∷ cs) buf = elim (Bool-cases (c == quote)) [
    | inl double ↦
        let e : c ≡ quote = (==_iff c quote).0 double in
        rw e (read-escaped cs (buf ++ (quote ∷ [])) ∙ grown buf cs quote Mode.quote_seen)
    | inr single ↦
        let step : step_in Mode.inside (state rows cells buf Mode.inside) c
            ≡ state rows cells (buf ++ (c ∷ [])) Mode.inside =
          rw single in
        rw single (
          ap (λ r. read r ((escaped cs ++ (quote ∷ [])) ++ rest)) step
          ∙ read-escaped cs (buf ++ (c ∷ []))
          ∙ grown buf cs c Mode.quote_seen)
  ]

  read_plain :
      (text buf : Text)
      → any is_special text ≡ false
      → read (state rows cells buf Mode.plain) (text ++ rest)
        ≡ read (state rows cells (buf ++ text) Mode.plain) rest
  unfolding read
  read_plain [] buf h = rw append-nil
  read_plain (c ∷ cs) buf h =
      let later : any is_special cs ≡ false = ground arith in
      let step : step_in Mode.plain (state rows cells buf Mode.plain) c
          ≡ state rows cells (buf ++ (c ∷ [])) Mode.plain =
        ground arith in
      ap (λ r. read r (cs ++ rest)) step
      ∙ read_plain cs (buf ++ (c ∷ [])) later
      ∙ grown buf cs c Mode.plain

-- A cell stands at the start of a line or not, and at its end or not.
abbrev start : Bool → Mode
start true = Mode.line_start
start false = Mode.field_start

abbrev separator : Bool → ℕ
separator true = carriage_return
separator false = comma

abbrev next_mode : Bool → Mode
next_mode true = Mode.line_end
next_mode false = Mode.field_start

module _ (rows : List (List Text)) (cells : List Text) (rest : Text) where
  begin-ends :
      (first last : Bool)
      → step_in (start first) (state rows cells [] (start first)) (separator last)
        ≡ state rows (cells ++ ([] ∷ [])) [] (next_mode last)
  unfolding step_in
  begin-ends true true = refl
  begin-ends true false = refl
  begin-ends false true = refl
  begin-ends false false = refl

  begin_plain :
      (first : Bool) (c : ℕ) (cs : Text)
      → any is_special (c ∷ cs) ≡ false
      → step_in (start first) (state rows cells [] (start first)) c
        ≡ state rows cells (c ∷ []) Mode.plain
  unfolding step_in begin
  begin_plain true c cs h = ground arith
  begin_plain false c cs h = ground arith

  begin_quoted :
      (first : Bool)
      → step_in (start first) (state rows cells [] (start first)) quote
        ≡ state rows cells [] Mode.inside
  unfolding step_in begin
  begin_quoted true = refl
  begin_quoted false = refl

  plain-ends :
      (last : Bool) (buf : Text)
      → read (state rows cells buf Mode.plain) (separator last ∷ rest)
        ≡ read (state rows (cells ++ (buf ∷ [])) [] (next_mode last)) rest
  unfolding read
  plain-ends true buf = refl
  plain-ends false buf = refl

  quoted-ends :
      (last : Bool) (buf : Text)
      → read (state rows cells buf Mode.quote_seen) (separator last ∷ rest)
        ≡ read (state rows (cells ++ (buf ∷ [])) [] (next_mode last)) rest
  unfolding read
  quoted-ends true buf = refl
  quoted-ends false buf = refl

  read_bare :
      (first last : Bool) (text : Text)
      → any is_special text ≡ false
      → read (state rows cells [] (start first)) (text ++ (separator last ∷ rest))
        ≡ read (state rows (cells ++ (text ∷ [])) [] (next_mode last)) rest
  unfolding read
  read_bare first last [] h = ap (λ r. read r rest) (begin-ends first last)
  read_bare first last (c ∷ cs) h =
      ap (λ r. read r (cs ++ (separator last ∷ rest))) (begin_plain first c cs h)
      ∙ read_plain rows cells (separator last ∷ rest) cs (c ∷ []) (ground arith)
      ∙ plain-ends last (c ∷ cs)

  read-quoted :
      (first last : Bool) (text : Text)
      → read (state rows cells [] (start first)) (quoted text ++ (separator last ∷ rest))
        ≡ read (state rows (cells ++ (text ∷ [])) [] (next_mode last)) rest
  unfolding read quoted
  read-quoted first last text = elim (Bool-cases (any is_special text)) [
    | inl special ↦ rw special (
        ap (λ r. read r ((escaped text ++ (quote ∷ [])) ++ (separator last ∷ rest)))
          (begin_quoted first)
        ∙ read-escaped rows cells (separator last ∷ rest) text []
        ∙ quoted-ends last text)
    | inr bare ↦ rw bare (read_bare first last text bare)
  ]

-- `= + - @`, a tab and a carriage return
abbrev formula_starts : List ℕ
formula_starts = b'=' ∷ b'+' ∷ b'-' ∷ b'@' ∷ 9 ∷ 13 ∷ []

abbrev pub opens_formula : Text → Bool
opens_formula [] = false
opens_formula (c ∷ cs) = any (λ d. c == d) formula_starts

-- What a reader is to see of a value: its text, and an apostrophe before it where a spreadsheet would
-- run the text.
abbrev pub shown : Option Text → Text
shown none = []
shown (some text) = if opens_formula text then 39 ∷ text else text

guarded-shown : (text : Text) → guarded text ≡ shown (some text)
unfolding guarded starts_formula
guarded-shown [] = refl
guarded-shown (c ∷ cs) = ground arith

read-csv_cell :
    (rows : List (List Text)) (cells : List Text) (first last : Bool) (v : Option Text)
    (rest : Text)
    → read (state rows cells [] (start first)) (csv_cell v ++ (separator last ∷ rest))
      ≡ read (state rows (cells ++ (shown v ∷ [])) [] (next_mode last)) rest
unfolding csv_cell
read-csv_cell rows cells first last none rest = read_bare rows cells rest first last [] refl
read-csv_cell rows cells first last (some text) rest =
    read-quoted rows cells rest first last (guarded text)
    ∙ ap (λ t. read (state rows (cells ++ (t ∷ [])) [] (next_mode last)) rest) (guarded-shown text)

read-joined :
    (rows : List (List Text)) (cells : List Text) (first : Bool) (v : Option Text)
    (vs : List (Option Text)) (rest : Text)
    → read (state rows cells [] (start first)) (joined (v ∷ vs) ++ (carriage_return ∷ rest))
      ≡ read (state rows (cells ++ map shown (v ∷ vs)) [] Mode.line_end) rest
unfolding joined
read-joined rows cells first v [] rest = read-csv_cell rows cells first true v rest
read-joined rows cells first v (w ∷ vs) rest =
    ap (read (state rows cells [] (start first)))
      (append_assoc (csv_cell v) (comma ∷ joined (w ∷ vs)) (carriage_return ∷ rest))
    ∙ read-csv_cell rows cells first false v (joined (w ∷ vs) ++ (carriage_return ∷ rest))
    ∙ read-joined rows (cells ++ (shown v ∷ [])) false w vs rest
    ∙ ap (λ c. read (state rows c [] Mode.line_end) rest)
        (append_assoc cells (shown v ∷ []) (map shown (w ∷ vs)))

abbrev pub Filled : List (Option Text) → Type 0
Filled [] = ⊥
Filled (v ∷ vs) = Unit {0}

read-lines :
    (before : List (List Text)) (rows : List (List (Option Text)))
    → All Filled rows
    → read (state before [] [] Mode.line_start) (lines rows)
      ≡ state (before ++ map (map shown) rows) [] [] Mode.line_start
unfolding read lines csv_line
read-lines before [] h = rw append-nil
read-lines before ([] ∷ rows) h = absurd h.0
read-lines before ((v ∷ vs) ∷ rows) h =
    ap (read (state before [] [] Mode.line_start))
      (append_assoc (joined (v ∷ vs)) (carriage_return ∷ line_feed ∷ []) (lines rows))
    ∙ read-joined before [] true v vs (line_feed ∷ lines rows)
    ∙ read-lines (before ++ (map shown (v ∷ vs) ∷ [])) rows h.1
    ∙ ap (λ b. state b [] [] Mode.line_start)
        (append_assoc before (map shown (v ∷ vs) ∷ []) (map (map shown) rows))

-- No cell that a reader sees begins a formula.
shown_harmless : (v : Option Text) → opens_formula (shown v) ≡ false
shown_harmless none = refl
shown_harmless (some []) = refl
shown_harmless (some (c ∷ cs)) = ground arith

-- A reader of CSV by RFC 4180 reads back, from the file of any rows that have a cell each, exactly
-- those rows, whatever characters the values hold: a value is read as its whole text, or as an
-- apostrophe and its whole text if that begins with one of = + - @, a tab or a carriage return; no
-- cell that is read begins with one of these.
pub read_file-csv_file :
    (rows : List (List (Option Text)))
    → All Filled rows
    → (read_file (csv_file rows) ≡ some (map (map shown) rows))
      × ((v : Option Text) → opens_formula (shown v) ≡ false)
unfolding read_file csv_file
read_file-csv_file rows h = (rw (read-lines [] rows h), shown_harmless)
