-- ===== src/BulkImport.antt =====
-- app/src/components/group/modals/utils/bulkMemberImport.ts: the checkpoint of an import of members,
-- by which a request that is sent again keeps its token.
pub mod Tokens
pub mod Tests
pub mod Reconcile
pub mod Request
mod Completion
pub mod Response
use facenox.Base.{
  ℕ, suc, Bool, true, false, not, ◌&&◌, ◌||◌, List, [], ◌∷◌, ◌++◌, Option, none, some, String,
  length, keep, any, ltb, ◌==◌, if◌then◌else◌,
}
use facenox.Base.Keys.{◌===◌, string_eq, list_eq}
use facenox.JsMap.{JsMap, get, set}

pub record InputRow : Type 0 where
  pub name : String
  pub role : Option String
  pub email : Option String
  pub person_id : Option String

pub record BulkMemberImportRow : Type 0 where
  pub row : InputRow
  pub creation_id : String

pub record BulkMemberImportCheckpoint : Type 0 where
  pub pending : List BulkMemberImportRow
  pub completed : List BulkMemberImportRow

abbrev pub empty_checkpoint : BulkMemberImportCheckpoint
empty_checkpoint = record { pending = []; completed = [] }

-- `text || ""`
abbrev pub text_of : Option String → String
text_of none = ""
text_of (some text) = text

-- `rowKey`: the array that `JSON.stringify` writes.
abbrev pub row_key : InputRow → List String
row_key row = row.name ∷ text_of row.role ∷ text_of row.email ∷ text_of row.person_id ∷ []

abbrev pub Available : Type 0
Available = JsMap (List String) (List BulkMemberImportRow)

-- `available.get(key)`, or no rows.
abbrev pub rows_or_none : Option (List BulkMemberImportRow) → List BulkMemberImportRow
rows_or_none none = []
rows_or_none (some rows) = rows

unfoldable pub rows_at : List String → Available → List BulkMemberImportRow
rows_at key available = rows_or_none (get key available)

-- The loop that fills `available`.
unfoldable pub fill_available : Available → List BulkMemberImportRow → Available
unfolding rows_at
fill_available available [] = available
fill_available available (r ∷ rows) =
    fill_available (set (row_key r.row) (rows_at (row_key r.row) available ++ r ∷ []) available)
      rows

-- `?.shift()`: the first row, and the rows behind it.
abbrev pub first_row : List BulkMemberImportRow → Option BulkMemberImportRow
first_row [] = none
first_row (r ∷ rows) = some r

abbrev pub other_rows : List BulkMemberImportRow → List BulkMemberImportRow
other_rows [] = []
other_rows (r ∷ rows) = rows

-- An input row, with what `crypto.randomUUID()` gives if it is called for this row.
abbrev pub Drawn : Type 0
Drawn = InputRow × String

-- `matches`
unfoldable pub match_rows : Available → List Drawn → List (Option BulkMemberImportRow)
unfolding rows_at
match_rows available [] = []
match_rows available ((row, uuid) ∷ input) =
    let rows = rows_at (row_key row) available in
    first_row rows ∷ match_rows (set (row_key row) (other_rows rows) available) input

abbrev pub ids_of : List BulkMemberImportRow → List String
ids_of [] = []
ids_of (r ∷ rows) = r.creation_id ∷ ids_of rows

-- `used`: the tokens of the rows that are found.
abbrev pub ids_found : List (Option BulkMemberImportRow) → List String
ids_found [] = []
ids_found (none ∷ found) = ids_found found
ids_found (some r ∷ found) = r.creation_id ∷ ids_found found

-- `set.has(id)`
abbrev pub in_set : String → List String → Bool
in_set id ids = any (λ i. i === id) ids

abbrev pub without : List String → List BulkMemberImportRow → List BulkMemberImportRow
without ids = keep (λ r. not (in_set r.creation_id ids))

abbrev pub count_missing : List (Option BulkMemberImportRow) → ℕ
count_missing [] = 0
count_missing (none ∷ found) = suc (count_missing found)
count_missing (some r ∷ found) = count_missing found

-- `matches[index]?.creationId ?? remaining.shift()?.creationId ?? crypto.randomUUID()`
unfoldable pub assign_ids :
    List Drawn
    → List (Option BulkMemberImportRow)
    → List BulkMemberImportRow
    → List BulkMemberImportRow
assign_ids [] found remaining = []
assign_ids ((row, uuid) ∷ input) (some r ∷ found) remaining =
    record { row = row; creation_id = r.creation_id } ∷ assign_ids input found remaining
assign_ids ((row, uuid) ∷ input) (none ∷ found) (r ∷ remaining) =
    record { row = row; creation_id = r.creation_id } ∷ assign_ids input found remaining
assign_ids ((row, uuid) ∷ input) (none ∷ found) [] =
    record { row = row; creation_id = uuid } ∷ assign_ids input found []
assign_ids ((row, uuid) ∷ input) [] (r ∷ remaining) =
    record { row = row; creation_id = r.creation_id } ∷ assign_ids input [] remaining
assign_ids ((row, uuid) ∷ input) [] [] =
    record { row = row; creation_id = uuid } ∷ assign_ids input [] []

abbrev pub candidates : BulkMemberImportCheckpoint → Bool → List BulkMemberImportRow
candidates c includes_completed = c.pending ++ (if includes_completed then c.completed else [])

-- `reconcileBulkMemberRows`: the new checkpoint, or nothing when it throws.
unfoldable pub reconcile_bulk_member_rows :
    BulkMemberImportCheckpoint → List Drawn → Bool → Option BulkMemberImportCheckpoint
unfolding fill_available match_rows assign_ids
reconcile_bulk_member_rows c input includes_completed =
    let found = match_rows (fill_available [] (candidates c includes_completed)) input in
    let remaining = without (ids_found found) c.pending in
    if includes_completed
      && (ltb 0 (length c.completed) && ltb (length remaining) (count_missing found))
    then none
    else some
        (record c { pending = without (ids_of c.completed) (assign_ids input found remaining) })

-- `BulkMemberCreationResponse`
pub record ResultRow : Type 0 where
  pub success : Bool
  pub creation_id : Option String

pub record CreatedMember : Type 0 where
  pub name : String
  pub role : Option String

pub record BulkMemberCreationResponse : Type 0 where
  pub results : List ResultRow
  pub success_count : ℕ
  pub error_count : ℕ
  pub members : List CreatedMember

-- The tokens of the rows that have succeeded, where the response names them.
unfoldable pub succeeded_ids : List ResultRow → List String
succeeded_ids [] = []
succeeded_ids (r ∷ results) =
    let rest = succeeded_ids results in
    let id = text_of r.creation_id in if r.success && not (id === "") then id ∷ rest else rest

abbrev is_same_member : InputRow → CreatedMember → Bool
is_same_member row member = (member.name === row.name) && (text_of member.role === text_of row.role)

-- `members.findIndex` and `members.splice`: the members without the first one of this row, if any.
unfoldable pub take_member : InputRow → List CreatedMember → Option (List CreatedMember)
take_member row [] = none
take_member row (member ∷ members) =
    let rest = take_member row members in
    if is_same_member row member
    then some members
    else elim rest [ none ↦ none | some others ↦ some (member ∷ others) ]

unfoldable pub ids_by_member : List BulkMemberImportRow → List CreatedMember → List String
unfolding take_member
ids_by_member [] members = []
ids_by_member (r ∷ chunk) members = elim (take_member r.row members) [
  | none ↦ ids_by_member chunk members
  | some others ↦ r.creation_id ∷ ids_by_member chunk others
]

-- `successful`
unfoldable pub successful_ids : List BulkMemberImportRow → BulkMemberCreationResponse → List String
unfolding succeeded_ids ids_by_member
successful_ids chunk response =
    if ltb 0 (length response.results)
    then succeeded_ids response.results
    else if (response.success_count == length chunk) && (response.error_count == 0)
    then ids_of chunk
    else ids_by_member chunk response.members

-- The loop that adds the rows to `checkpoint.completed`.
unfoldable pub complete_rows :
    List String → List BulkMemberImportRow → List BulkMemberImportRow → List BulkMemberImportRow
complete_rows successful [] completed = completed
complete_rows successful (r ∷ chunk) completed =
    if in_set r.creation_id successful && not (in_set r.creation_id (ids_of completed))
    then complete_rows successful chunk (completed ++ r ∷ [])
    else complete_rows successful chunk completed

unfoldable pub checkpoint_bulk_member_response :
    BulkMemberImportCheckpoint
    → List BulkMemberImportRow
    → BulkMemberCreationResponse
    → BulkMemberImportCheckpoint
unfolding successful_ids complete_rows
checkpoint_bulk_member_response c chunk response =
    let completed = complete_rows (successful_ids chunk response) chunk c.completed in
    record { pending = without (ids_of completed) c.pending; completed = completed }
