-- ===== src/BulkImport/Response.antt =====
-- What a response to a request of an import makes of the checkpoint.
use facenox.Base.{
  ℕ, ◌+◌, ◌≡◌, ◌≤◌, ◌<◌, ◌∙◌, ◌≢◌, sym, ap, refl, Bool, true, false, not, ◌||◌, any, length, Option,
  none, some, [], ◌∷◌, lt→ltb, ◌&&◌, List, String, if◌then◌else◌, if_elim, Bool-cases, inl, inr,
  arith, and_split,
}
use facenox.Base.Keys.{◌===◌, string_eq, option_eq, ===_ne}
use facenox.BulkImport.{
  ResultRow, text_of, succeeded_ids, BulkMemberImportRow, BulkMemberImportCheckpoint,
  BulkMemberCreationResponse, ids_of, in_set, without, complete_rows, successful_ids,
  checkpoint_bulk_member_response,
}
use facenox.BulkImport.Tokens.{
  count, in_set→count, not_in_set→count, count-without_in, count-without_out,
}
use facenox.BulkImport.Reconcile.{Distinct}
use facenox.BulkImport.Completion.{
  after, count-complete_rows, count-complete_rows_failed, count-complete_rows_ok, from_and,
}

-- A token that has not succeeded or is not in the request is completed only if it was before.
not_moved :
    (t : String) (ok : List String) (chunk completed : List BulkMemberImportRow)
    → (in_set t ok && in_set t (ids_of chunk)) ≡ false
    → after t ok chunk completed ≡ count t (ids_of completed)
not_moved t ok chunk completed h = elim (Bool-cases (in_set t ok)) [
  | inl succeeded ↦
      let (low, high, single) = count-complete_rows t ok chunk completed in
      omega (
        arith,
        low,
        high,
        not_in_set→count t (ids_of chunk)
            (from_and (in_set t ok) (in_set t (ids_of chunk)) succeeded h),
      )
  | inr failed ↦ count-complete_rows_failed t ok chunk completed failed
]

-- A result that is of the token and a success.
abbrev pub reports : String → ResultRow → Bool
reports t r = r.success && (r.creation_id === some t)

empty_apart : (t id : String) → (t === "") ≡ false → (id === "") ≡ true → id ≢ t
empty_apart t id named empty same =
    cc ((string_eq.same_iff t "").1 (sym same ∙ (string_eq.same_iff id "").0 empty))

reports-named :
    (t : String) (success : Bool) (id : Option String) (rest : List String)
    → (t === "") ≡ false
    → in_set t (if success && not (text_of id === "") then text_of id ∷ rest else rest)
      ≡ (success && (id === some t)) || in_set t rest
reports-named t false id rest named = refl
reports-named t true none rest named = refl
reports-named t true (some id) rest named = elim (Bool-cases (id === "")) [
  | inl empty ↦ rw (empty, ===_ne id t (empty_apart t id named empty)) refl
  | inr whole ↦ rw whole refl
]

in_set-succeeded_ids :
    (t : String) (results : List ResultRow)
    → (t === "") ≡ false
    → in_set t (succeeded_ids results) ≡ any (reports t) results
unfolding succeeded_ids
in_set-succeeded_ids t [] named = refl
in_set-succeeded_ids t (r ∷ results) named =
    reports-named t r.success r.creation_id (succeeded_ids results) named
    ∙ ap (λ (b : Bool). reports t r || b) (in_set-succeeded_ids t results named)

in_set-successful_ids :
    (t : String) (chunk : List BulkMemberImportRow) (response : BulkMemberCreationResponse)
    → (t === "") ≡ false
    → 0 < length response.results
    → in_set t (successful_ids chunk response) ≡ any (reports t) response.results
unfolding successful_ids
in_set-successful_ids t chunk response named listed =
    rw (lt→ltb 0 (length response.results) listed) (in_set-succeeded_ids t response.results named)

module _ (c : BulkMemberImportCheckpoint) (chunk : List BulkMemberImportRow)
    (response : BulkMemberCreationResponse) where
  moved :
      (t : String)
      → Distinct c
      → count t (ids_of chunk) ≤ count t (ids_of c.pending)
      → (count t (ids_of (checkpoint_bulk_member_response c chunk response).pending) ≡ (
          if in_set t (successful_ids chunk response) && in_set t (ids_of chunk)
          then 0
          else count t (ids_of c.pending)))
        × (count t (ids_of (checkpoint_bulk_member_response c chunk response).pending)
              + count t (ids_of (checkpoint_bulk_member_response c chunk response).completed)
            ≡ count t (ids_of c.pending) + count t (ids_of c.completed))
  unfolding checkpoint_bulk_member_response
  moved t distinct sent =
      let ok = successful_ids chunk response in
      let done = complete_rows ok chunk c.completed in
      let (low, high, single) = count-complete_rows t ok chunk c.completed in
      let P : ℕ → Type 0 = λ n. count t (ids_of (without (ids_of done) c.pending)) ≡ n in
      elim (Bool-cases (in_set t (ids_of done))) [
        | inl there ↦
            let none_pending = count-without_in t (ids_of done) c.pending there in
            let some_done = in_set→count t (ids_of done) there in
            (
              if_elim P (in_set t ok && in_set t (ids_of chunk)) (λ _. none_pending)
                  (λ kept. omega (
                    arith,
                    none_pending,
                    some_done,
                    distinct t,
                    sent,
                    high,
                    not_moved t ok chunk c.completed kept,
                  )),
              omega (
                arith,
                none_pending,
                some_done,
                low,
                high,
                single (omega (arith, distinct t)),
                distinct t,
                sent,
              ),
            )
        | inr absent ↦
            let all_pending = count-without_out t (ids_of done) c.pending absent in
            let none_done = not_in_set→count t (ids_of done) absent in
            (
              if_elim P (in_set t ok && in_set t (ids_of chunk))
                  (λ both.
                    let (succeeded, sent_now) =
                      and_split (in_set t ok) (in_set t (ids_of chunk)) both in
                    absurd (
                      omega (
                        arith,
                        none_done,
                        count-complete_rows_ok t ok chunk c.completed succeeded
                            (omega (arith, in_set→count t (ids_of chunk) sent_now)),
                      )))
                  (λ _. all_pending),
              omega (arith, all_pending, none_done, low),
            )
      ]

  -- A response that lists its results moves a token that is not empty from the pending rows to the
  -- completed ones exactly if the request holds it and one of the results is of it and a success,
  -- where the tokens of the checkpoint are distinct and the rows of the request are pending: none is
  -- lost and none is there twice.
  pub count-checkpoint_bulk_member_response :
      (t : String)
      → (t === "") ≡ false
      → 0 < length response.results
      → Distinct c
      → count t (ids_of chunk) ≤ count t (ids_of c.pending)
      → (count t (ids_of (checkpoint_bulk_member_response c chunk response).pending) ≡ (
          if any (reports t) response.results && in_set t (ids_of chunk)
          then 0
          else count t (ids_of c.pending)))
        × (count t (ids_of (checkpoint_bulk_member_response c chunk response).pending)
              + count t (ids_of (checkpoint_bulk_member_response c chunk response).completed)
            ≡ count t (ids_of c.pending) + count t (ids_of c.completed))
  count-checkpoint_bulk_member_response t named listed distinct sent =
      rw (← (in_set-successful_ids t chunk response named listed)) (moved t distinct sent)
