-- ===== src/BulkImport/Reconcile.antt =====
-- What the reconciliation of an import guarantees of the tokens and of the rows.
use mathlib.Core.Path.{subst}
use facenox.Base.{
  ◌+◌, ◌≡◌, ap, ◌∙◌, ◌≤◌, Bool, ◌&&◌, List, [], ◌++◌, Option, none, some, String, length, ltb,
  if_elim, from_then, from_else, Bool-cases, inl, inr, arith,
}
use facenox.Base.Keys.{string_eq}
use facenox.BulkImport.{
  BulkMemberImportRow, BulkMemberImportCheckpoint, fill_available, Drawn, match_rows, ids_of,
  ids_found, in_set, without, assign_ids, candidates, count_missing, reconcile_bulk_member_rows,
}
use facenox.BulkImport.Tokens.{
  count, count-append, ids_of-append, not_in_set→count, count-without_in, count-without_out,
  total-fill_available, count-match_rows, count-assign_ids, uuids_of,
}

-- No token stands twice in a checkpoint.
abbrev pub Distinct : BulkMemberImportCheckpoint → Type 0
Distinct c = (t : String) → count t (ids_of c.pending) + count t (ids_of c.completed) ≤ 1

-- The drawn tokens are new and differ from each other.
abbrev pub Fresh : BulkMemberImportCheckpoint → List Drawn → Type 0
Fresh c input =
    (t : String)
    → count t (ids_of c.pending) + count t (ids_of c.completed) + count t (uuids_of input) ≤ 1

count-ids_of :
    (t : String) (r s : List BulkMemberImportRow)
    → count t (ids_of (r ++ s)) ≡ count t (ids_of r) + count t (ids_of s)
count-ids_of t r s = ap (count t) (ids_of-append r s) ∙ count-append t (ids_of r) (ids_of s)

no_checkpoint : {c : BulkMemberImportCheckpoint} → none ≡ some c → ⊥
no_checkpoint h = absurd cc

some_eq : {c d : BulkMemberImportCheckpoint} → some c ≡ some d → c ≡ d
some_eq h = cc

module _ (c : BulkMemberImportCheckpoint) (input : List Drawn) (inc : Bool) where
  abbrev pub found : List (Option BulkMemberImportRow)
  found = match_rows (fill_available [] (candidates c inc)) input

  abbrev pub left : List BulkMemberImportRow
  left = without (ids_found found) c.pending

  abbrev pub assigned : List BulkMemberImportRow
  assigned = assign_ids input found left

  count-candidates :
      (t : String)
      → count t (ids_of (candidates c inc))
        ≤ count t (ids_of c.pending) + count t (ids_of c.completed)
  count-candidates t =
      if_elim
        (λ (rows : List BulkMemberImportRow).
          count t (ids_of (c.pending ++ rows))
          ≤ count t (ids_of c.pending) + count t (ids_of c.completed))
        inc (λ _. omega (arith, count-ids_of t c.pending c.completed))
        (λ _. omega (arith, count-ids_of t c.pending []))

  count-found :
      (t : String)
      → count t (ids_found found) ≤ count t (ids_of c.pending) + count t (ids_of c.completed)
  count-found t = omega (
    arith,
    count-match_rows t (fill_available [] (candidates c inc)) input,
    total-fill_available t [] (candidates c inc),
    count-candidates t,
  )

  -- A token that is not completed is given at most as often as it was pending or is drawn.
  count-assigned :
      (t : String)
      → count t (ids_of c.completed) ≡ 0
      → count t (ids_of assigned) ≤ count t (ids_of c.pending) + count t (uuids_of input)
  count-assigned t none_completed = elim (Bool-cases (in_set t (ids_found found))) [
    | inl used ↦ omega (
      arith,
      count-assign_ids t input found left,
      count-found t,
      none_completed,
      count-without_in t (ids_found found) c.pending used,
    )
    | inr unused ↦ omega (
      arith,
      count-assign_ids t input found left,
      not_in_set→count t (ids_found found) unused,
      count-without_out t (ids_found found) c.pending unused,
    )
  ]

  reconciled : BulkMemberImportCheckpoint
  reconciled = record c { pending = without (ids_of c.completed) assigned }

  reconciled-Distinct : Fresh c input → Distinct reconciled
  unfolding reconciled
  reconciled-Distinct fresh t = elim (Bool-cases (in_set t (ids_of c.completed))) [
    | inl done ↦ omega (arith, count-without_in t (ids_of c.completed) assigned done, fresh t)
    | inr new ↦ omega (
      arith,
      count-without_out t (ids_of c.completed) assigned new,
      fresh t,
      not_in_set→count t (ids_of c.completed) new,
      count-assigned t (not_in_set→count t (ids_of c.completed) new),
    )
  ]

  reconcile_bulk_member_rows-reconciled :
      (c' : BulkMemberImportCheckpoint)
      → reconcile_bulk_member_rows c input inc ≡ some c'
      → reconciled ≡ c'
  unfolding reconcile_bulk_member_rows reconciled
  reconcile_bulk_member_rows-reconciled c' h =
      let refused =
        inc && (ltb 0 (length c.completed) && ltb (length left) (count_missing found)) in
      elim (Bool-cases refused) [
        | inl thrown ↦ absurd (no_checkpoint (from_then refused (some reconciled) thrown h))
        | inr kept ↦ some_eq (from_else refused none kept h)
      ]

  -- A reconciliation that does not throw leaves no token twice: no two of the requests to come
  -- share a token, and none has that of a member that is already there.
  pub reconcile_bulk_member_rows-Distinct :
      (c' : BulkMemberImportCheckpoint)
      → Fresh c input
      → reconcile_bulk_member_rows c input inc ≡ some c'
      → Distinct c'
  reconcile_bulk_member_rows-Distinct c' fresh h =
      subst Distinct (reconcile_bulk_member_rows-reconciled c' h) (reconciled-Distinct fresh)
