-- ===== src/BulkImport/Request.antt =====
-- Which rows the request of an import holds.
use facenox.Base.{
  ◌+◌, ◌≡◌, refl, ap, ◌∙◌, ◌≤◌, Bool, true, false, not, List, [], ◌∷◌, Option, none, some, String,
  if_elim, arith, append-nil,
}
use facenox.Base.Keys.{===_refl, string_eq}
use facenox.BulkImport.{
  InputRow, BulkMemberImportRow, BulkMemberImportCheckpoint, Drawn, ids_of, in_set, without,
  assign_ids, fill_available, candidates, ids_found, reconcile_bulk_member_rows,
}
use facenox.BulkImport.Tokens.{
  count, count-cons, in_set→count, uuids_of, count-without_le, count-assign_ids, count-match_rows,
  total-fill_available,
}
use facenox.BulkImport.Reconcile.{Fresh, assigned, found, left}

abbrev pub rows_of : List BulkMemberImportRow → List InputRow
rows_of [] = []
rows_of (r ∷ rows) = r.row ∷ rows_of rows

abbrev pub inputs_of : List Drawn → List InputRow
inputs_of [] = []
inputs_of ((row, uuid) ∷ input) = row ∷ inputs_of input

rows_of-assign_ids :
    (input : List Drawn) (hits : List (Option BulkMemberImportRow))
    (remaining : List BulkMemberImportRow)
    → rows_of (assign_ids input hits remaining) ≡ inputs_of input
unfolding assign_ids
rows_of-assign_ids [] hits remaining = refl
rows_of-assign_ids ((row, uuid) ∷ input) (some r ∷ hits) remaining =
    ap (◌∷◌ row) (rows_of-assign_ids input hits remaining)
rows_of-assign_ids ((row, uuid) ∷ input) (none ∷ hits) (r ∷ remaining) =
    ap (◌∷◌ row) (rows_of-assign_ids input hits remaining)
rows_of-assign_ids ((row, uuid) ∷ input) (none ∷ hits) [] =
    ap (◌∷◌ row) (rows_of-assign_ids input hits [])
rows_of-assign_ids ((row, uuid) ∷ input) [] (r ∷ remaining) =
    ap (◌∷◌ row) (rows_of-assign_ids input [] remaining)
rows_of-assign_ids ((row, uuid) ∷ input) [] [] = ap (◌∷◌ row) (rows_of-assign_ids input [] [])

count_self : (id : String) → count id (id ∷ []) ≡ 1
count_self id = rw (===_refl id) refl

not_false : (b : Bool) → not b ≡ false → b ≡ true
not_false true h = refl
not_false false h = absurd cc

-- Without the completed rows, the tokens given are pending ones and drawn ones.
count-assigned_pending :
    (c : BulkMemberImportCheckpoint) (input : List Drawn) (t : String)
    → count t (ids_of (assigned c input false))
      ≤ count t (ids_of c.pending) + count t (ids_of c.pending) + count t (uuids_of input)
count-assigned_pending c input t = omega (
  arith,
  count-assign_ids t input (found c input false) (left c input false),
  count-match_rows t (fill_available [] (candidates c false)) input,
  total-fill_available t [] (candidates c false),
  ap (λ (rows : List BulkMemberImportRow). count t (ids_of rows)) (append-nil c.pending),
  count-without_le t (ids_found (found c input false)) c.pending,
)

-- A filter by tokens that are not there takes nothing away.
without-none :
    (ids : List String) (rows : List BulkMemberImportRow)
    → ((t : String) → in_set t ids ≡ true → count t (ids_of rows) ≡ 0)
    → without ids rows ≡ rows
without-none ids [] h = refl
without-none ids (r ∷ rows) h =
    if_elim (λ (v : List BulkMemberImportRow). v ≡ r ∷ rows) (not (in_set r.creation_id ids))
      (λ _. ap (◌∷◌ r) (without-none ids rows (λ t k. omega (arith, h t k, count-cons t r rows))))
      (λ e. absurd (
        omega (
          arith,
          h r.creation_id (not_false (in_set r.creation_id ids) e),
          count-cons r.creation_id r rows,
          count_self r.creation_id,
        )))

-- Without the completed rows, a reconciliation does not throw, and the requests to come hold the
-- rows of the input, each once and in order.
pub rows_of-reconcile_bulk_member_rows :
    (c : BulkMemberImportCheckpoint) (input : List Drawn)
    → Fresh c input
    → (c' : BulkMemberImportCheckpoint) × (reconcile_bulk_member_rows c input false ≡ some c')
      × (rows_of c'.pending ≡ inputs_of input)
      × (c'.completed ≡ c.completed)
unfolding reconcile_bulk_member_rows
rows_of-reconcile_bulk_member_rows c input fresh =
    let rows = assigned c input false in
    (
      record c { pending = without (ids_of c.completed) rows },
      refl,
      ap rows_of (
            without-none (ids_of c.completed) rows (λ t h. omega (
              arith,
              in_set→count t (ids_of c.completed) h,
              fresh t,
              count-assigned_pending c input t,
            )))
          ∙ rows_of-assign_ids input (found c input false) (left c input false),
      refl,
    )
