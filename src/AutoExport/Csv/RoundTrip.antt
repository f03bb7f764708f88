-- ===== src/AutoExport/Csv/RoundTrip.antt =====
-- What is written is read back.
use facenox.Base.{
  ◌≡◌, refl, sym, ap, ◌∙◌, List, [], ◌∷◌, ◌++◌, Option, some, ◌==◌, ==_iff, append_assoc,
  append-nil, Bool-cases, inl, inr, All,
}
use facenox.Base.Text.{Text, replace_all}
use facenox.AutoExport.Csv.{
  csv_cell, csv_row, csv_content, before_cell, in_cell, after_quote, add_row, read_csv, parse_csv,
}

read_csv-cell :
    (cell s : Text) (row : List Text) (rest : Text)
    → read_csv in_cell cell row (replace_all b'"' (b'"' ∷ b'"' ∷ []) s ++ b'"' ∷ rest)
      ≡ read_csv after_quote (cell ++ s) row rest
unfolding read_csv
read_csv-cell cell [] row rest = rw append-nil
read_csv-cell cell (c ∷ s) row rest = elim (Bool-cases (c == b'"')) [
  | inl quote ↦
      rw (quote, (==_iff c b'"').0 quote)
        (read_csv-cell (cell ++ b'"' ∷ []) s row rest
          ∙ ap (λ (t : Text). read_csv after_quote t row rest) (append_assoc cell (b'"' ∷ []) s))
  | inr other ↦
      rw (other, other)
        (read_csv-cell (cell ++ c ∷ []) s row rest
          ∙ ap (λ (t : Text). read_csv after_quote t row rest) (append_assoc cell (c ∷ []) s))
]

read_csv-csv_cell :
    (cell acc : Text) (row : List Text) (rest : Text)
    → read_csv before_cell acc row (csv_cell cell ++ rest) ≡ read_csv after_quote cell row rest
unfolding csv_cell read_csv
read_csv-csv_cell cell acc row rest =
    ap (read_csv in_cell [] row)
      (append_assoc (replace_all b'"' (b'"' ∷ b'"' ∷ []) cell) (b'"' ∷ []) rest)
    ∙ read_csv-cell [] cell row rest

-- What stands behind a row: the end of the file, or a line feed and the other rows.
abbrev Ends : Text → Type 0
Ends [] = Unit {0}
Ends (c ∷ rest) = c ≡ b'\n'

abbrev end_row : List Text → Text → Option (List (List Text))
end_row row [] = some (row ∷ [])
end_row row (c ∷ rest) = add_row row (read_csv before_cell [] [] rest)

read_csv-end :
    (cell : Text) (row : List Text) (rest : Text)
    → Ends rest
    → read_csv after_quote cell row rest ≡ end_row (row ++ cell ∷ []) rest
unfolding read_csv
read_csv-end cell row [] h = refl
read_csv-end cell row (c ∷ rest) h = rw h refl

read_csv-comma :
    (cell : Text) (row : List Text) (rest : Text)
    → read_csv after_quote cell row (b',' ∷ rest) ≡ read_csv before_cell [] (row ++ cell ∷ []) rest
unfolding read_csv
read_csv-comma cell row rest = refl

read_csv-csv_row :
    (cell : Text) (cells : List Text) (acc : Text) (row : List Text) (rest : Text)
    → Ends rest
    → read_csv before_cell acc row (csv_row (cell ∷ cells) ++ rest)
      ≡ end_row (row ++ cell ∷ cells) rest
unfolding csv_row
read_csv-csv_row cell [] acc row rest h =
    read_csv-csv_cell cell acc row rest ∙ read_csv-end cell row rest h
read_csv-csv_row cell (next ∷ cells) acc row rest h =
    ap (read_csv before_cell acc row)
      (append_assoc (csv_cell cell) (b',' ∷ csv_row (next ∷ cells)) rest)
    ∙ (read_csv-csv_cell cell acc row (b',' ∷ (csv_row (next ∷ cells) ++ rest))
        ∙ (read_csv-comma cell row (csv_row (next ∷ cells) ++ rest)
            ∙ (read_csv-csv_row next cells [] (row ++ cell ∷ []) rest h
                ∙ ap (λ (r : List Text). end_row r rest)
                    (append_assoc row (cell ∷ []) (next ∷ cells)))))

abbrev pub NonEmpty : List Text → Type 0
NonEmpty [] = ⊥
NonEmpty (cell ∷ cells) = Unit {0}

read_csv-csv_content :
    (row : List Text) (rows : List (List Text))
    → All NonEmpty (row ∷ rows)
    → read_csv before_cell [] [] (csv_content (row ∷ rows)) ≡ some (row ∷ rows)
unfolding csv_content
read_csv-csv_content [] rows (h, k) = absurd h
read_csv-csv_content (cell ∷ cells) [] h =
    ap (read_csv before_cell [] []) (sym (append-nil (csv_row (cell ∷ cells))))
    ∙ read_csv-csv_row cell cells [] [] [] tt
read_csv-csv_content (cell ∷ cells) (row ∷ rows) (h, k) =
    read_csv-csv_row cell cells [] [] (b'\n' ∷ csv_content (row ∷ rows)) refl
    ∙ ap (add_row (cell ∷ cells)) (read_csv-csv_content row rows k)

-- A file of at least one row, each with at least one cell, is read back as these rows, whatever
-- characters the cells hold: quotes, commas and line feeds included.
pub parse_csv-csv_content :
    (row : List Text) (rows : List (List Text))
    → All NonEmpty (row ∷ rows)
    → parse_csv (csv_content (row ∷ rows)) ≡ some (row ∷ rows)
unfolding parse_csv
parse_csv-csv_content row rows h = read_csv-csv_content row rows h
