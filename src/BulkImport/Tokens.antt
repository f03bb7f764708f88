-- ===== src/BulkImport/Tokens.antt =====
-- How often a token stands in the lists of an import.
use facenox.Base.{
  ℕ, suc, ◌+◌, ◌≡◌, refl, ap, ◌∙◌, ◌≤◌, Bool, true, false, not, List, [], ◌∷◌, ◌++◌, Option, none,
  some, String, if◌then◌else◌, if_elim, Bool-cases, inl, inr, arith,
}
use facenox.Base.Keys.{◌===◌, string_eq, list_eq}
use facenox.JsMap.{get, set}
use facenox.BulkImport.{
  BulkMemberImportRow, Available, rows_at, rows_or_none, fill_available, first_row, other_rows,
  Drawn, match_rows, ids_of, ids_found, in_set, without, assign_ids, row_key,
}

abbrev pub count : String → List String → ℕ
count t [] = 0
count t (id ∷ ids) = if id === t then suc (count t ids) else count t ids

pub count-append : (t : String) (s u : List String) → count t (s ++ u) ≡ count t s + count t u
count-append t [] u = omega arith
count-append t (id ∷ s) u = ground (arith, count-append t s u)

pub ids_of-append : (r s : List BulkMemberImportRow) → ids_of (r ++ s) ≡ ids_of r ++ ids_of s
ids_of-append [] s = refl
ids_of-append (x ∷ r) s = ap (◌∷◌ x.creation_id) (ids_of-append r s)

pub in_set→count : (t : String) (ids : List String) → in_set t ids ≡ true → 1 ≤ count t ids
in_set→count t [] h = absurd cc
in_set→count t (id ∷ ids) h = ground (arith, in_set→count t ids)

pub not_in_set→count : (t : String) (ids : List String) → in_set t ids ≡ false → count t ids ≡ 0
not_in_set→count t [] h = refl
not_in_set→count t (id ∷ ids) h = ground (arith, not_in_set→count t ids)

without_step :
    (x y same : Bool) (c n : ℕ)
    → (same ≡ true → x ≡ y)
    → c ≡ (if y then 0 else n)
    → (if not x then (if same then suc c else c) else c)
      ≡ (if y then 0 else if same then suc n else n)
without_step x y same c n h k = ground arith

count-if :
    (t : String) (b : Bool) (r : BulkMemberImportRow) (rows : List BulkMemberImportRow)
    → count t (ids_of (if b then r ∷ rows else rows)) ≡ (
        if b
        then (if r.creation_id === t then suc (count t (ids_of rows)) else count t (ids_of rows))
        else count t (ids_of rows))
count-if t true r rows = refl
count-if t false r rows = refl

-- A filter by tokens keeps all rows of a token or none.
count-without :
    (t : String) (ids : List String) (rows : List BulkMemberImportRow)
    → count t (ids_of (without ids rows)) ≡ (if in_set t ids then 0 else count t (ids_of rows))
count-without t ids [] = if_elim (λ (n : ℕ). 0 ≡ n) (in_set t ids) (λ _. refl) (λ _. refl)
count-without t ids (r ∷ rows) =
    count-if t (not (in_set r.creation_id ids)) r (without ids rows)
    ∙ without_step (in_set r.creation_id ids) (in_set t ids) (r.creation_id === t)
        (count t (ids_of (without ids rows))) (count t (ids_of rows))
        (λ e. ap (λ (id : String). in_set id ids) ((string_eq.same_iff r.creation_id t).0 e))
        (count-without t ids rows)

pub count-without_in :
    (t : String) (ids : List String) (rows : List BulkMemberImportRow)
    → in_set t ids ≡ true
    → count t (ids_of (without ids rows)) ≡ 0
count-without_in t ids rows h =
    count-without t ids rows ∙ ap (λ (b : Bool). if b then 0 else count t (ids_of rows)) h

pub count-without_out :
    (t : String) (ids : List String) (rows : List BulkMemberImportRow)
    → in_set t ids ≡ false
    → count t (ids_of (without ids rows)) ≡ count t (ids_of rows)
count-without_out t ids rows h =
    count-without t ids rows ∙ ap (λ (b : Bool). if b then 0 else count t (ids_of rows)) h

pub count-without_le :
    (t : String) (ids : List String) (rows : List BulkMemberImportRow)
    → count t (ids_of (without ids rows)) ≤ count t (ids_of rows)
count-without_le t ids rows = elim (Bool-cases (in_set t ids)) [
  | inl h ↦ omega (arith, count-without_in t ids rows h)
  | inr h ↦ omega (arith, count-without_out t ids rows h)
]

-- How often a token stands in the rows of a `Map`.
abbrev pub total : String → Available → ℕ
total t [] = 0
total t ((key, rows) ∷ available) = count t (ids_of rows) + total t available

total_step :
    (t : String) (b : Bool) (key : List String) (rows old : List BulkMemberImportRow)
    (available others : Available) (found : Option (List BulkMemberImportRow))
    → total t others + count t (ids_of (rows_or_none found))
      ≡ total t available + count t (ids_of rows)
    → total t (if b then (key, rows) ∷ available else (key, old) ∷ others)
        + count t (ids_of (rows_or_none (if b then some old else found)))
      ≡ count t (ids_of old) + total t available + count t (ids_of rows)
total_step t true key rows old available others found h = omega arith
total_step t false key rows old available others found h = omega (arith, h)

pub total-set :
    (t : String) (key : List String) (rows : List BulkMemberImportRow) (available : Available)
    → total t (set key rows available) + count t (ids_of (rows_at key available))
      ≡ total t available + count t (ids_of rows)
unfolding rows_at get set
total-set t key rows [] = omega arith
total-set t key rows ((k, old) ∷ available) =
    total_step t (k === key) k rows old available (set key rows available) (get key available)
      (total-set t key rows available)

pub count-cons :
    (t : String) (r : BulkMemberImportRow) (rows : List BulkMemberImportRow)
    → count t (ids_of (r ∷ rows)) ≡ count t (r.creation_id ∷ []) + count t (ids_of rows)
count-cons t r rows = ground arith

pub count-snoc :
    (t : String) (rows : List BulkMemberImportRow) (r : BulkMemberImportRow)
    → count t (ids_of (rows ++ r ∷ [])) ≡ count t (ids_of rows) + count t (r.creation_id ∷ [])
count-snoc t rows r =
    ap (count t) (ids_of-append rows (r ∷ [])) ∙ count-append t (ids_of rows) (r.creation_id ∷ [])

count-shift :
    (t : String) (rows : List BulkMemberImportRow) (found : List (Option BulkMemberImportRow))
    → count t (ids_found (first_row rows ∷ found)) + count t (ids_of (other_rows rows))
      ≡ count t (ids_of rows) + count t (ids_found found)
count-shift t [] found = omega arith
count-shift t (r ∷ rows) found = ground arith

pub total-fill_available :
    (t : String) (available : Available) (rows : List BulkMemberImportRow)
    → total t (fill_available available rows) ≡ total t available + count t (ids_of rows)
unfolding fill_available
total-fill_available t available [] = omega arith
total-fill_available t available (r ∷ rows) =
    let key = row_key r.row in
    omega (
      arith,
      total-fill_available t (set key (rows_at key available ++ r ∷ []) available) rows,
      total-set t key (rows_at key available ++ r ∷ []) available,
      count-snoc t (rows_at key available) r,
      count-cons t r rows,
    )

-- The rows that are found, and those that are left, are the rows that were there.
pub count-match_rows :
    (t : String) (available : Available) (input : List Drawn)
    → count t (ids_found (match_rows available input)) ≤ total t available
unfolding match_rows
count-match_rows t available [] = omega arith
count-match_rows t available ((row, uuid) ∷ input) =
    let key = row_key row in
    let rows = rows_at key available in
    omega (
      arith,
      count-shift t rows (match_rows (set key (other_rows rows) available) input),
      total-set t key (other_rows rows) available,
      count-match_rows t (set key (other_rows rows) available) input,
    )

abbrev pub uuids_of : List Drawn → List String
uuids_of [] = []
uuids_of ((row, uuid) ∷ input) = uuid ∷ uuids_of input

-- A token is given to no more rows than it is found, left or drawn.
pub count-assign_ids :
    (t : String) (input : List Drawn) (found : List (Option BulkMemberImportRow))
    (remaining : List BulkMemberImportRow)
    → count t (ids_of (assign_ids input found remaining))
      ≤ count t (ids_found found) + count t (ids_of remaining) + count t (uuids_of input)
unfolding assign_ids
count-assign_ids t [] found remaining = omega arith
count-assign_ids t ((row, uuid) ∷ input) (some r ∷ found) remaining =
    ground (arith, count-assign_ids t input found remaining)
count-assign_ids t ((row, uuid) ∷ input) (none ∷ found) (r ∷ remaining) =
    ground (arith, count-assign_ids t input found remaining)
count-assign_ids t ((row, uuid) ∷ input) (none ∷ found) [] =
    ground (arith, count-assign_ids t input found [])
count-assign_ids t ((row, uuid) ∷ input) [] (r ∷ remaining) =
    ground (arith, count-assign_ids t input [] remaining)
count-assign_ids t ((row, uuid) ∷ input) [] [] = ground (arith, count-assign_ids t input [] [])
