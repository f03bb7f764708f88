-- ===== src/AutoExport/Files.antt =====
-- app/src/electron/managers/AutoExportManager.ts: the files of a report (`writeExportFiles`), as
-- names and contents. The workbook's text and the trimming of a name are parameters.
use facenox.Base.{
  ◌≡◌, ap, List, [], ◌∷◌, ◌++◌, Option, some, ◌==◌, any, if◌then◌else◌, All, All-append,
}
use facenox.Base.Text.{Text, codes}
use facenox.AutoExport.{Format, excel_workbook, individual_csvs, combined_csv}
use facenox.AutoExport.Csv.{csv_content, parse_csv}
use facenox.AutoExport.Csv.RoundTrip.{NonEmpty, parse_csv-csv_content}

-- `ProcessedGroupData`, with the group's name
pub record ProcessedGroupData : Type 0 where
  pub name : Text
  pub header : List Text
  pub rows : List (List Text)

abbrev forbidden : Text
forbidden = codes "\\/:*?\"<>|"

-- `name.replace(/[\\/:*?"<>|]/g, "_")`
abbrev pub replace_forbidden : Text → Text
replace_forbidden [] = []
replace_forbidden (c ∷ s) = (if any (λ f. f == c) forbidden then b'_' else c) ∷ replace_forbidden s

abbrev pub combined_header : List Text
combined_header =
    codes "Group"
    ∷ codes "Name"
    ∷ codes "Date"
    ∷ codes "Visit"
    ∷ codes "Status"
    ∷ codes "Time in"
    ∷ codes "Time out"
    ∷ codes "Departure"
    ∷ codes "Total hours"
    ∷ codes "Late (mins)"
    ∷ codes "Notes"
    ∷ []

-- `[group.name, ...row]`, for the rows of a group.
abbrev pub with_name : Text → List (List Text) → List (List Text)
with_name name [] = []
with_name name (row ∷ rows) = (name ∷ row) ∷ with_name name rows

unfoldable pub combined_rows : List ProcessedGroupData → List (List Text)
combined_rows [] = []
combined_rows (g ∷ groups) = with_name g.name g.rows ++ combined_rows groups

module _ (trim : Text → Text) (build_excel_xml : List ProcessedGroupData → Text) where
  pub sanitize_filename : Text → Text
  sanitize_filename name = trim (replace_forbidden name)

  group_files : Text → List ProcessedGroupData → List (Text × Text)
  unfolding sanitize_filename
  group_files date [] = []
  group_files date (g ∷ groups) =
      (
        sanitize_filename (g.name ++ codes " - Attendance (" ++ date ++ codes ").csv"),
        csv_content (g.header ∷ g.rows),
      )
      ∷ group_files date groups

  -- The files in the order in which they are written.
  pub write_export_files : Format → Text → List ProcessedGroupData → List (Text × Text)
  unfolding sanitize_filename group_files combined_rows
  write_export_files excel_workbook date groups =
      (
        sanitize_filename (codes "All Groups Attendance (" ++ date ++ codes ").xls"),
        build_excel_xml groups,
      )
      ∷ []
  write_export_files individual_csvs date groups = group_files date groups
  write_export_files combined_csv date groups =
      (
        sanitize_filename (codes "All Groups Combined Attendance (" ++ date ++ codes ").csv"),
        csv_content (combined_header ∷ combined_rows groups),
      )
      ∷ []

with_name-NonEmpty : (name : Text) (rows : List (List Text)) → All NonEmpty (with_name name rows)
with_name-NonEmpty name [] = tt
with_name-NonEmpty name (row ∷ rows) = (tt, with_name-NonEmpty name rows)

combined_rows-NonEmpty : (groups : List ProcessedGroupData) → All NonEmpty (combined_rows groups)
unfolding combined_rows
combined_rows-NonEmpty [] = tt
combined_rows-NonEmpty (g ∷ groups) =
    All-append NonEmpty (with_name g.name g.rows) (combined_rows groups)
      (with_name-NonEmpty g.name g.rows) (combined_rows-NonEmpty groups)

abbrev parsed_files : List (Text × Text) → List (Option (List (List Text)))
parsed_files [] = []
parsed_files ((name, content) ∷ files) = parse_csv content ∷ parsed_files files

-- The combined report is one file, which is read back as the header and the rows of all groups,
-- each with the name of its group in front.
pub parsed_files-combined :
    (trim : Text → Text) (build_excel_xml : List ProcessedGroupData → Text) (date : Text)
    (groups : List ProcessedGroupData)
    → parsed_files (write_export_files trim build_excel_xml combined_csv date groups)
      ≡ some (combined_header ∷ combined_rows groups) ∷ []
unfolding write_export_files
parsed_files-combined trim build_excel_xml date groups =
    ap (λ (o : Option (List (List Text))). o ∷ [])
      (parse_csv-csv_content combined_header (combined_rows groups)
        (tt, combined_rows-NonEmpty groups))
