-- ===== src/BulkImport/Tests.antt =====
-- An import that is corrected and sent again, and the theorems at it.
use facenox.Base.{
  any, ◌+◌, ◌≡◌, ◌≤◌, refl, arith, true, false, ◌&&◌, List, [], ◌∷◌, none, some, String,
  if◌then◌else◌,
}
use facenox.Base.Keys.{◌===◌, string_eq, same_list}
use facenox.JsMap.{get, set}
use facenox.BulkImport.{
  InputRow, BulkMemberImportRow, BulkMemberImportCheckpoint, BulkMemberCreationResponse, Drawn,
  ids_of, in_set, reconcile_bulk_member_rows, checkpoint_bulk_member_response,
}
use facenox.BulkImport.Tokens.{count}
use facenox.BulkImport.Reconcile.{Fresh, Distinct}
use facenox.BulkImport.Request.{rows_of, inputs_of, rows_of-reconcile_bulk_member_rows}
use facenox.BulkImport.Response.{reports, count-checkpoint_bulk_member_response}

abbrev named : String → InputRow
named name = record { name = name; role = none; email = none; person_id = none }

abbrev row_of : String → String → BulkMemberImportRow
row_of name id = record { row = named name; creation_id = id }

abbrev sent : BulkMemberImportCheckpoint
sent = record { pending = row_of "Ann" "k1" ∷ []; completed = [] }

-- The name is corrected; the request keeps its token.
abbrev corrected : List Drawn
corrected = (named "Anne", "k2") ∷ []

abbrev again : BulkMemberImportCheckpoint
again = record { pending = row_of "Anne" "k1" ∷ []; completed = [] }

keeps_token : reconcile_bulk_member_rows sent corrected false ≡ some again
unfolding reconcile_bulk_member_rows get set same_list
keeps_token = refl

apart : (a b t : String) → (a === b) ≡ false → count t (a ∷ b ∷ []) ≤ 1
apart a b t h =
    ground (arith, string_eq.same_iff a t, string_eq.same_iff b t, string_eq.same_iff a b)

split : (a b t : String) → count t (a ∷ b ∷ []) ≡ count t (a ∷ []) + count t (b ∷ [])
split a b t = ground arith

corrected-Fresh : Fresh sent corrected
corrected-Fresh t = omega (arith, apart "k1" "k2" t refl, split "k1" "k2" t)

rows_of-reconcile_bulk_member_rows_example :
    (c : BulkMemberImportCheckpoint) × (reconcile_bulk_member_rows sent corrected false ≡ some c)
    × (rows_of c.pending ≡ inputs_of corrected)
    × (c.completed ≡ sent.completed)
rows_of-reconcile_bulk_member_rows_example =
    rows_of-reconcile_bulk_member_rows sent corrected corrected-Fresh

abbrev response : BulkMemberCreationResponse
response = record {
  results = record { success = true; creation_id = some "k1" } ∷ [];
  success_count = 1;
  error_count = 0;
  members = [];
}

abbrev two_rows : BulkMemberImportCheckpoint
two_rows = record { pending = row_of "Ann" "k1" ∷ row_of "Bob" "k2" ∷ []; completed = [] }

moved_row :
    checkpoint_bulk_member_response two_rows two_rows.pending response
    ≡ record { pending = row_of "Bob" "k2" ∷ []; completed = row_of "Ann" "k1" ∷ [] }
unfolding checkpoint_bulk_member_response
moved_row = refl

two_rows-Distinct : Distinct two_rows
two_rows-Distinct t = omega (arith, apart "k1" "k2" t refl)

count-checkpoint_bulk_member_response_example :
    (count "k1"
        (ids_of (checkpoint_bulk_member_response two_rows two_rows.pending response).pending)
      ≡ (if any (reports "k1") response.results && in_set "k1" (ids_of two_rows.pending)
          then 0
          else count "k1" (ids_of two_rows.pending)))
    × (count "k1"
            (ids_of (checkpoint_bulk_member_response two_rows two_rows.pending response).pending)
          + count "k1" (
              ids_of (checkpoint_bulk_member_response two_rows two_rows.pending response).completed)
        ≡ count "k1" (ids_of two_rows.pending) + count "k1" (ids_of two_rows.completed))
count-checkpoint_bulk_member_response_example =
    count-checkpoint_bulk_member_response two_rows two_rows.pending response "k1" refl (omega arith)
      two_rows-Distinct (omega arith)
