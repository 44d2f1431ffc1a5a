-- ===== src/Reports/Csv.antt =====
-- src/modules/reports/reports.csv.js, and the file that `generate` of reports.service.js joins from
-- its lines. A text is the list of its UTF-16 code units.
pub mod Reading
pub mod RoundTrip
use backend_pluseops.Base.{
  ℕ, Bool, true, false, ◌||◌, Option, none, some, List, [], ◌∷◌, ◌++◌, map, ◌==◌, if◌then◌else◌,
}
use backend_pluseops.Base.Lists.{any}

abbrev pub Text : Type 0
Text = List ℕ

abbrev pub quote : ℕ
quote = b'"'

abbrev pub comma : ℕ
comma = b','

abbrev pub carriage_return : ℕ
carriage_return = 13

abbrev pub line_feed : ℕ
line_feed = 10

abbrev pub apostrophe : ℕ
apostrophe = 39

-- `/^[=+\-@\t\r]/`
abbrev pub is_formula_start : ℕ → Bool
is_formula_start c =
    c == b'=' || c == b'+' || c == b'-' || c == b'@' || c == 9 || c == carriage_return

unfoldable pub starts_formula : Text → Bool
starts_formula [] = false
starts_formula (c ∷ cs) = is_formula_start c

unfoldable pub guarded : Text → Text
unfolding starts_formula
guarded text = if starts_formula text then apostrophe ∷ text else text

-- `/[",\r\n]/`
abbrev pub is_special : ℕ → Bool
is_special c = c == quote || c == comma || c == carriage_return || c == line_feed

-- `text.replace(/"/g, '""')`
unfoldable pub escaped : Text → Text
escaped [] = []
escaped (c ∷ cs) = let rest = escaped cs in if c == quote then quote ∷ quote ∷ rest else c ∷ rest

unfoldable pub quoted : Text → Text
quoted text = if any is_special text then quote ∷ (escaped text ++ (quote ∷ [])) else text

-- `csvCell`: nothing stands for null and undefined, and any other value comes with its text.
unfoldable pub csv_cell : Option Text → Text
csv_cell none = []
csv_cell (some text) = quoted (guarded text)

-- `values.map(csvCell).join(',')`
unfoldable pub joined : List (Option Text) → Text
joined [] = []
joined (v ∷ []) = csv_cell v
joined (v ∷ w ∷ vs) = csv_cell v ++ (comma ∷ joined (w ∷ vs))

unfoldable pub csv_line : List (Option Text) → Text
csv_line values = joined values ++ (carriage_return ∷ line_feed ∷ [])

-- `chunks.join('')`
unfoldable pub lines : List (List (Option Text)) → Text
lines [] = []
lines (row ∷ rows) = csv_line row ++ lines rows

-- The byte order mark and the lines.
unfoldable pub csv_file : List (List (Option Text)) → Text
csv_file rows = 0xfeff ∷ lines rows
