-- ===== src/AutoExport/Csv.antt =====
-- app/src/electron/managers/AutoExportManager.ts: the text of a CSV file, as `writeExportFiles` builds
-- it, and a reader of such files that is described apart from it.
pub mod RoundTrip
use facenox.Base.{
  ℕ, ◌≡◌, refl, sym, ap, ◌∙◌, ◌≢◌, Bool, List, [], ◌∷◌, ◌++◌, map, Option, none, some, arith, ◌==◌,
  ==_iff, if◌then◌else◌, if_elim, append_assoc, append-nil, Bool-cases, inl, inr, All,
}
use facenox.Base.Text.{Text, codes, replace_all, join}

-- `"${cell.replace(/"/g, '""')}"`
unfoldable pub csv_cell : Text → Text
csv_cell cell = b'"' ∷ (replace_all b'"' (b'"' ∷ b'"' ∷ []) cell ++ b'"' ∷ [])

abbrev pub csv_cells : List Text → List Text
csv_cells [] = []
csv_cells (cell ∷ cells) = csv_cell cell ∷ csv_cells cells

unfoldable pub csv_row : List Text → Text
csv_row row = join b',' (csv_cells row)

abbrev pub csv_rows : List (List Text) → List Text
csv_rows [] = []
csv_rows (row ∷ rows) = csv_row row ∷ csv_rows rows

-- `[header, ...rows]`, each cell quoted, cells joined by commas and rows by line feeds.
unfoldable pub csv_content : List (List Text) → Text
csv_content rows = join b'\n' (csv_rows rows)

-- A reader of files in which every cell is quoted: where it stands, the cell and the row so far.
pub data Mode : Type 0 where
  before_cell in_cell after_quote : Mode

abbrev pub add_row : List Text → Option (List (List Text)) → Option (List (List Text))
add_row row none = none
add_row row (some rows) = some (row ∷ rows)

pub read_csv : Mode → Text → List Text → Text → Option (List (List Text))
read_csv before_cell cell row [] = none
read_csv before_cell cell row (c ∷ s) =
    let next = read_csv in_cell [] row s in if c == b'"' then next else none
read_csv in_cell cell row [] = none
read_csv in_cell cell row (c ∷ s) =
    let quote = read_csv after_quote cell row s in
    let inside = read_csv in_cell (cell ++ c ∷ []) row s in if c == b'"' then quote else inside
read_csv after_quote cell row [] = some ((row ++ cell ∷ []) ∷ [])
read_csv after_quote cell row (c ∷ s) =
    let doubled = read_csv in_cell (cell ++ b'"' ∷ []) row s in
    let comma = read_csv before_cell [] (row ++ cell ∷ []) s in
    let line = add_row (row ++ cell ∷ []) (read_csv before_cell [] [] s) in
    if c == b'"' then doubled else if c == b',' then comma else if c == b'\n' then line else none

pub parse_csv : Text → Option (List (List Text))
unfolding read_csv
parse_csv s = read_csv before_cell [] [] s
