-- ===== src/AutoExport/Rows/Laws.antt =====
-- What a group's report holds: every session of a member once, in the order of the visits.
use facenox.Base.{
  ℕ, suc, ◌+◌, ◌≡◌, refl, sym, ap, ◌∙◌, List, [], ◌∷◌, ◌++◌, map, Option, some, String, leb, leb→le,
  ◌==◌, length, length-append, keep, append_assoc, append-nil, ◌≤◌, inl, inr, Bool-cases, arith,
  if◌then◌else◌, if_elim,
}
use facenox.Base.Keys.{◌===◌, string_eq}
use facenox.Base.Text.{Text}
use facenox.JsMap.{JsMap, get, set}
use facenox.JsMap.Laws.{get-set}
use facenox.AutoExport.Rows.{
  GroupRecord, MemberRecord, SessionRecord, visits_of, group_sessions, visit_of, insert_visit,
  sort_visits, lines_of, row_of, member_rows, append_rows, group_rows,
}

-- The sessions of a person, in the order of the answer.
abbrev pub sessions_of : String → List SessionRecord → List SessionRecord
sessions_of id = keep (λ s. s.person_id === id)

visits_of-set :
    (id person : String) (visits : List SessionRecord) (m : JsMap String (List SessionRecord))
    → visits_of id (set person visits m) ≡ (if person === id then visits else visits_of id m)
unfolding visits_of
visits_of-set id person visits m = elim (Bool-cases (person === id)) [
  | inl same ↦ rw (get-set person id visits m, same) refl
  | inr other ↦ rw (get-set person id visits m, other) refl
]

visits_of-group_sessions :
    (id : String) (m : JsMap String (List SessionRecord)) (sessions : List SessionRecord)
    → visits_of id (group_sessions m sessions) ≡ visits_of id m ++ sessions_of id sessions
unfolding group_sessions
visits_of-group_sessions id m [] = sym (append-nil (visits_of id m))
visits_of-group_sessions id m (s ∷ sessions) =
    visits_of-group_sessions id (set s.person_id (visits_of s.person_id m ++ s ∷ []) m) sessions
    ∙ (ap (λ (v : List SessionRecord). v ++ sessions_of id sessions)
          (visits_of-set id s.person_id (visits_of s.person_id m ++ s ∷ []) m)
        ∙ elim (Bool-cases (s.person_id === id)) [
          | inl same ↦ rw (same) (
              ap (λ (p : String). (visits_of p m ++ s ∷ []) ++ sessions_of id sessions)
                ((string_eq.same_iff s.person_id id).0 same)
              ∙ append_assoc (visits_of id m) (s ∷ []) (sessions_of id sessions))
          | inr other ↦ rw (other) refl
        ])

-- Every visit comes no later than those behind it.
abbrev pub Ascending : List SessionRecord → Type 0
Ascending [] = Unit {0}
Ascending (s ∷ []) = Unit {0}
Ascending (s ∷ t ∷ visits) = (visit_of s ≤ visit_of t) × Ascending (t ∷ visits)

insert_visit-behind :
    (t s : SessionRecord) (visits : List SessionRecord)
    → visit_of t ≤ visit_of s
    → Ascending (t ∷ visits)
    → Ascending (t ∷ insert_visit s visits)
unfolding insert_visit
insert_visit-behind t s [] h k = (h, tt)
insert_visit-behind t s (u ∷ visits) h (k, l) =
    if_elim (λ (v : List SessionRecord). Ascending (t ∷ v)) (leb (visit_of s) (visit_of u))
      (λ e. (h, (leb→le (visit_of s) (visit_of u) e, l)))
      (λ e. (k, insert_visit-behind u s visits (ground arith) l))

insert_visit-Ascending :
    (s : SessionRecord) (visits : List SessionRecord)
    → Ascending visits
    → Ascending (insert_visit s visits)
unfolding insert_visit
insert_visit-Ascending s [] h = tt
insert_visit-Ascending s (t ∷ visits) h =
    if_elim Ascending (leb (visit_of s) (visit_of t)) (λ e. (leb→le (visit_of s) (visit_of t) e, h))
      (λ e. insert_visit-behind t s visits (ground arith) h)

-- The visits of one number keep their order: the sort is stable.
abbrev pub with_number : ℕ → List SessionRecord → List SessionRecord
with_number n = keep (λ s. visit_of s == n)

with_number-insert_visit :
    (n : ℕ) (s : SessionRecord) (visits : List SessionRecord)
    → with_number n (insert_visit s visits) ≡ with_number n (s ∷ visits)
unfolding insert_visit
with_number-insert_visit n s [] = refl
with_number-insert_visit n s (t ∷ visits) =
    if_elim (λ (v : List SessionRecord). with_number n v ≡ with_number n (s ∷ t ∷ visits))
      (leb (visit_of s) (visit_of t)) (λ e. refl)
      (λ e. rw (with_number-insert_visit n s visits) (ground arith))

sort_visits-Ascending : (visits : List SessionRecord) → Ascending (sort_visits visits)
unfolding sort_visits
sort_visits-Ascending [] = tt
sort_visits-Ascending (s ∷ visits) =
    insert_visit-Ascending s (sort_visits visits) (sort_visits-Ascending visits)

with_number-sort_visits :
    (n : ℕ) (visits : List SessionRecord)
    → with_number n (sort_visits visits) ≡ with_number n visits
unfolding sort_visits
with_number-sort_visits n [] = refl
with_number-sort_visits n (s ∷ visits) =
    with_number-insert_visit n s (sort_visits visits)
    ∙ ap (λ (v : List SessionRecord). if visit_of s == n then s ∷ v else v)
        (with_number-sort_visits n visits)

length-insert_visit :
    (s : SessionRecord) (visits : List SessionRecord)
    → length (insert_visit s visits) ≡ suc (length visits)
unfolding insert_visit
length-insert_visit s [] = refl
length-insert_visit s (t ∷ visits) =
    if_elim (λ (v : List SessionRecord). length v ≡ suc (suc (length visits)))
      (leb (visit_of s) (visit_of t)) (λ e. refl) (λ e. ap suc (length-insert_visit s visits))

length-sort_visits : (visits : List SessionRecord) → length (sort_visits visits) ≡ length visits
unfolding sort_visits
length-sort_visits [] = refl
length-sort_visits (s ∷ visits) =
    length-insert_visit s (sort_visits visits) ∙ ap suc (length-sort_visits visits)

-- The visits that the report shows of a person are its sessions in the service's answer, in
-- ascending order of their numbers, and those of one number in the order of the answer: each
-- session once, none of another person.
pub sort_visits-group_sessions :
    (id : String) (sessions : List SessionRecord)
    → Ascending (sort_visits (visits_of id (group_sessions [] sessions)))
      × ((n : ℕ)
          → with_number n (sort_visits (visits_of id (group_sessions [] sessions)))
            ≡ with_number n (sessions_of id sessions))
unfolding visits_of get
sort_visits-group_sessions id sessions = (
  sort_visits-Ascending (visits_of id (group_sessions [] sessions)),
  λ n.
      with_number-sort_visits n (visits_of id (group_sessions [] sessions))
      ∙ ap (with_number n) (visits_of-group_sessions id [] sessions),
)

-- A person's rows in the report: its sessions, or the one row that says it was absent.
abbrev pub row_count : List SessionRecord → ℕ
row_count [] = 1
row_count (s ∷ visits) = suc (length visits)

abbrev pub total_rows : List SessionRecord → List MemberRecord → ℕ
total_rows sessions [] = 0
total_rows sessions (member ∷ members) =
    row_count (sessions_of member.person_id sessions) + total_rows sessions members

length-map : {A B : Type 0} (f : A → B) (xs : List A) → length (map f xs) ≡ length xs
length-map f [] = refl
length-map f (x ∷ xs) = ap suc (length-map f xs)

length-lines_of : (visits : List SessionRecord) → length (lines_of visits) ≡ row_count visits
unfolding lines_of
length-lines_of [] = refl
length-lines_of (s ∷ visits) = ap suc (length-map some visits)

row_count-length : (v w : List SessionRecord) → length v ≡ length w → row_count v ≡ row_count w
row_count-length [] [] h = refl
row_count-length [] (s ∷ w) h = absurd (omega arith)
row_count-length (s ∷ v) [] h = absurd (omega arith)
row_count-length (s ∷ v) (t ∷ w) h = h

module _ (print : ℕ → Text) (date : Text) (details : Option SessionRecord → List Text) where
  length-member_rows :
      (group : GroupRecord) (sessions : List SessionRecord) (member : MemberRecord)
      → length (member_rows print date details group (group_sessions [] sessions) member)
        ≡ row_count (sessions_of member.person_id sessions)
  unfolding member_rows visits_of get
  length-member_rows group sessions member =
      let visits = visits_of member.person_id (group_sessions [] sessions) in
      length-map (row_of print date details group member (sort_visits visits))
        (lines_of (sort_visits visits))
      ∙ (length-lines_of (sort_visits visits)
          ∙ row_count-length (sort_visits visits) (sessions_of member.person_id sessions) (
              length-sort_visits visits
              ∙ ap length (visits_of-group_sessions member.person_id [] sessions)))

  length-append_rows :
      (group : GroupRecord) (sessions : List SessionRecord) (members : List MemberRecord)
      → length (append_rows print date details group (group_sessions [] sessions) members)
        ≡ total_rows sessions members
  length-append_rows group sessions [] = refl
  length-append_rows group sessions (member ∷ members) =
      length-append (member_rows print date details group (group_sessions [] sessions) member)
        (append_rows print date details group (group_sessions [] sessions) members)
      ∙ rw (length-member_rows group sessions member, length-append_rows group sessions members)
          refl

  -- The report of a group has a row for every session of each member, and one for each member
  -- without a session, whatever else the service's answer holds.
  pub length-group_rows :
      (group : GroupRecord) (members : List MemberRecord) (sessions : List SessionRecord)
      → length (group_rows print date details group members sessions) ≡ total_rows sessions members
  unfolding group_rows
  length-group_rows group members sessions = length-append_rows group sessions members
