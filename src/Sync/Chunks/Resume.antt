-- ===== src/Sync/Chunks/Resume.antt =====
-- Rebuilding a rejected batch: which rows of the export are sent again.
use facenox.Base.{
  true, not, ◌≡◌, refl, ◌≢◌, ◌↔◌, List, [], ◌∷◌, map, Option, none, some, String, arith,
  if◌then◌else◌, Elem, Elem-keep→, →Elem-keep, ◌∙◌,
}
use facenox.Base.Keys.{◌===◌, string_eq}
use facenox.JsMap.{get, set_all}
use facenox.JsMap.Laws.{get-set_all, last_value}
use facenox.Sync.Chunks.{Row, row_entry, remaining_rows, is_fingerprint}

-- The fingerprint under which the last of the accepted rows with this key was sent.
abbrev pub last_mark : String → List Row → Option String
last_mark key [] = none
last_mark key (row ∷ rows) = elim (last_mark key rows) [
  | some mark ↦ some mark
  | none ↦ if row.key === key then some row.fingerprint else none
]

last_value-last_mark :
    (key : String) (rows : List Row) → last_value key (map row_entry rows) ≡ last_mark key rows
last_value-last_mark key [] = refl
last_value-last_mark key (row ∷ rows) = ground (arith, last_value-last_mark key rows)

get-last_mark :
    (key : String) (rows : List Row)
    → get key (set_all [] (map row_entry rows)) ≡ last_mark key rows
unfolding get
get-last_mark key rows =
    get-set_all key [] (map row_entry rows) ∙ ground (arith, last_value-last_mark key rows)

is_fingerprint-false :
    (o : Option String) (mark : String) → (not (is_fingerprint o mark) ≡ true) ↔ (o ≢ some mark)
is_fingerprint-false none mark = ground arith
is_fingerprint-false (some old) mark = ground (arith, string_eq.same_iff old mark)

-- A row of the export is sent again exactly when no accepted row has its key or the last accepted
-- row with its key had another fingerprint.
pub remaining_rows_iff :
    (row : Row) (rows accepted : List Row)
    → Elem row (remaining_rows rows accepted)
      ↔ (Elem row rows × (last_mark row.key accepted ≢ some row.fingerprint))
unfolding remaining_rows
remaining_rows_iff row rows accepted =
    let test = λ (r : Row).
      not (is_fingerprint (get r.key (set_all [] (map row_entry accepted))) r.fingerprint) in
    let same = get-last_mark row.key accepted in
    let mark = is_fingerprint-false (last_mark row.key accepted) row.fingerprint in
    (
      λ h. let (there, passed) = Elem-keep→ test row rows h in (there, mark.0 (rw (← same) passed)),
      λ h. →Elem-keep test row rows h.0 (rw same (mark.1 h.1)),
    )
