-- ===== src/BulkImport/Completion.antt =====
-- How often a token stands among the completed rows after the rows of a request have been gone through.
use mathlib.Core.Path.{subst}
use facenox.Base.{
  ℕ, ◌+◌, ◌≡◌, refl, sym, ◌≤◌, Bool, true, false, not, ◌&&◌, List, [], ◌∷◌, ◌++◌, String,
  if◌then◌else◌, if_elim, Bool-cases, inl, inr, arith, and_split,
}
use facenox.Base.Keys.{◌===◌, string_eq}
use facenox.BulkImport.{BulkMemberImportRow, ids_of, in_set, complete_rows}
use facenox.BulkImport.Tokens.{count, count-cons, count-snoc, in_set→count, not_in_set→count}

-- `1` for the token of a row, `0` for the others.
abbrev one : String → BulkMemberImportRow → ℕ
one t r = count t (r.creation_id ∷ [])

abbrev pushes : List String → BulkMemberImportRow → List BulkMemberImportRow → Bool
pushes ok r completed = in_set r.creation_id ok && not (in_set r.creation_id (ids_of completed))

from_not : (b : Bool) → not b ≡ true → b ≡ false
from_not false h = refl
from_not true h = absurd cc

pub from_and : (a b : Bool) → a ≡ true → (a && b) ≡ false → b ≡ false
from_and true b h k = k
from_and false b h k = absurd cc

clash : (b : Bool) → b ≡ true → b ≡ false → ⊥
clash b h k = absurd cc

skipped_there : (a b : Bool) → a ≡ true → (a && not b) ≡ false → b ≡ true
skipped_there true true h k = refl
skipped_there true false h k = absurd cc
skipped_there false b h k = absurd cc

one-same :
    (t : String) (r : BulkMemberImportRow) (b : Bool)
    → (r.creation_id === t) ≡ b
    → one t r ≡ (if b then 1 else 0)
one-same t r b h = rw h refl

-- A row is pushed only if its token is not there yet.
one-pushes :
    (t : String) (ok : List String) (r : BulkMemberImportRow) (completed : List BulkMemberImportRow)
    → pushes ok r completed ≡ true
    → count t (ids_of completed) ≤ 1
    → count t (ids_of completed) + one t r ≤ 1
one-pushes t ok r completed h room = elim (Bool-cases (r.creation_id === t)) [
  | inl same ↦
      let absent =
        from_not (in_set r.creation_id (ids_of completed))
          (and_split (in_set r.creation_id ok) (not (in_set r.creation_id (ids_of completed)))
            h).1 in
      omega (
        arith,
        one-same t r true same,
        not_in_set→count t (ids_of completed) (
            subst (λ (id : String). in_set id (ids_of completed) ≡ false)
              ((string_eq.same_iff r.creation_id t).0 same) absent),
      )
  | inr other ↦ omega (arith, one-same t r false other, room)
]

one-failed :
    (t : String) (ok : List String) (r : BulkMemberImportRow) (completed : List BulkMemberImportRow)
    → pushes ok r completed ≡ true
    → in_set t ok ≡ false
    → one t r ≡ 0
one-failed t ok r completed h failed = elim (Bool-cases (r.creation_id === t)) [
  | inl same ↦
      let succeeded =
        (and_split (in_set r.creation_id ok) (not (in_set r.creation_id (ids_of completed))) h).0 in
      absurd (
        clash (in_set t ok)
          (subst (λ (id : String). in_set id ok ≡ true)
            ((string_eq.same_iff r.creation_id t).0 same) succeeded)
          failed)
  | inr other ↦ one-same t r false other
]

-- A row of a token that has succeeded is skipped only if the token is there already.
one-skipped :
    (t : String) (ok : List String) (r : BulkMemberImportRow) (completed : List BulkMemberImportRow)
    → pushes ok r completed ≡ false
    → in_set t ok ≡ true
    → one t r ≤ count t (ids_of completed)
one-skipped t ok r completed h succeeded = elim (Bool-cases (r.creation_id === t)) [
  | inl same ↦
      let id_is = (string_eq.same_iff r.creation_id t).0 same in
      omega (
        arith,
        one-same t r true same,
        in_set→count t (ids_of completed) (
            subst (λ (id : String). in_set id (ids_of completed) ≡ true) id_is
              (skipped_there (in_set r.creation_id ok) (in_set r.creation_id (ids_of completed))
                (subst (λ (id : String). in_set id ok ≡ true) (sym id_is) succeeded) h)),
      )
  | inr other ↦ omega (arith, one-same t r false other)
]

module _ (t : String) (ok : List String) where
  abbrev pub after : List BulkMemberImportRow → List BulkMemberImportRow → ℕ
  after chunk completed = count t (ids_of (complete_rows ok chunk completed))

  pub count-complete_rows :
      (chunk completed : List BulkMemberImportRow)
      → (count t (ids_of completed) ≤ after chunk completed)
        × (after chunk completed ≤ count t (ids_of completed) + count t (ids_of chunk))
        × (count t (ids_of completed) ≤ 1 → after chunk completed ≤ 1)
  unfolding complete_rows
  count-complete_rows [] completed = (omega arith, omega arith, λ h. h)
  count-complete_rows (r ∷ chunk) completed =
      let P : List BulkMemberImportRow → Type 0 = λ rows.
        (count t (ids_of completed) ≤ count t (ids_of rows))
        × (count t (ids_of rows) ≤ count t (ids_of completed) + count t (ids_of (r ∷ chunk)))
        × (count t (ids_of completed) ≤ 1 → count t (ids_of rows) ≤ 1) in
      if_elim P (in_set r.creation_id ok && not (in_set r.creation_id (ids_of completed)))
        (λ pushed.
          let (low, high, single) = count-complete_rows chunk (completed ++ r ∷ []) in
          (
            omega (arith, low, count-snoc t completed r),
            omega (arith, high, count-snoc t completed r, count-cons t r chunk),
            λ h.
                single
                  (omega (arith, count-snoc t completed r, one-pushes t ok r completed pushed h)),
          ))
        (λ skipped.
          let (low, high, single) = count-complete_rows chunk completed in
          (low, omega (arith, high, count-cons t r chunk), single))

  -- A token that does not succeed is not completed.
  pub count-complete_rows_failed :
      (chunk completed : List BulkMemberImportRow)
      → in_set t ok ≡ false
      → after chunk completed ≡ count t (ids_of completed)
  unfolding complete_rows
  count-complete_rows_failed [] completed h = refl
  count-complete_rows_failed (r ∷ chunk) completed h =
      if_elim
        (λ (rows : List BulkMemberImportRow). count t (ids_of rows) ≡ count t (ids_of completed))
        (pushes ok r completed)
        (λ pushed. omega (
          arith,
          count-complete_rows_failed chunk (completed ++ r ∷ []) h,
          count-snoc t completed r,
          one-failed t ok r completed pushed h,
        ))
        (λ skipped. count-complete_rows_failed chunk completed h)

  -- A token that succeeds is completed.
  pub count-complete_rows_ok :
      (chunk completed : List BulkMemberImportRow)
      → in_set t ok ≡ true
      → 1 ≤ count t (ids_of completed) + count t (ids_of chunk)
      → 1 ≤ after chunk completed
  unfolding complete_rows
  count-complete_rows_ok [] completed h k = omega (arith, k)
  count-complete_rows_ok (r ∷ chunk) completed h k =
      if_elim (λ (rows : List BulkMemberImportRow). 1 ≤ count t (ids_of rows))
        (pushes ok r completed)
        (λ pushed.
          count-complete_rows_ok chunk (completed ++ r ∷ []) h
            (omega (arith, count-snoc t completed r, count-cons t r chunk, k)))
        (λ skipped.
          count-complete_rows_ok chunk completed h
            (omega (arith, count-cons t r chunk, k, one-skipped t ok r completed skipped h)))
