-- ===== src/AutoExport/Rows.antt =====
-- app/src/electron/managers/AutoExportManager.ts: the rows of a group's report, from the answers of
-- the local service (`fetchAndProcessAttendance`).
pub mod Laws
use facenox.Base.{
  ℕ, ◌-◌, Bool, true, false, not, ◌&&◌, ◌||◌, List, [], ◌∷◌, ◌++◌, map, Option, none, some, String,
  ltb, leb, length, keep, if◌then◌else◌,
}
use facenox.Base.Keys.{◌===◌, string_eq}
use facenox.Base.Text.{Text, codes}
use facenox.JsMap.{JsMap, get, set}
use facenox.AutoExport.{or_else}

-- `GroupRecord`, with its settings' attendance mode
pub record GroupRecord : Type 0 where
  pub id : String
  pub name : Text
  pub is_active : Option Bool
  pub is_deleted : Option Bool
  pub attendance_mode : Option String

pub record MemberRecord : Type 0 where
  pub person_id : String
  pub name : Text

-- `SessionRecord`; `details` stands for the fields whose text the date helpers make.
pub record SessionRecord : Type 0 where
  pub person_id : String
  pub visit_number : Option ℕ
  pub is_late : Option Bool
  pub status : Option Text
  pub details : ℕ

-- `!!value`, for an optional Boolean.
abbrev truthy : Option Bool → Bool
truthy (some true) = true
truthy _ = false

-- `g.is_active !== false`
abbrev not_false : Option Bool → Bool
not_false (some false) = false
not_false _ = true

unfoldable pub active_groups : List GroupRecord → List GroupRecord
active_groups = keep (λ g. not (truthy g.is_deleted) && not_false g.is_active)

-- `sessionMap.get(id) ?? []`
unfoldable pub visits_of : String → JsMap String (List SessionRecord) → List SessionRecord
visits_of id m = or_else (get id m) []

-- The loop that fills `sessionMap`.
unfoldable pub group_sessions :
    JsMap String (List SessionRecord) → List SessionRecord → JsMap String (List SessionRecord)
group_sessions m [] = m
group_sessions m (s ∷ sessions) =
    group_sessions (set s.person_id (visits_of s.person_id m ++ s ∷ []) m) sessions

-- `visit_number ?? 1`
abbrev pub visit_of : SessionRecord → ℕ
visit_of s = or_else s.visit_number 1

-- `visits.sort`, which is stable: a visit goes before the first later one.
unfoldable pub insert_visit : SessionRecord → List SessionRecord → List SessionRecord
insert_visit s [] = s ∷ []
insert_visit s (t ∷ visits) =
    let rest = insert_visit s visits in
    if leb (visit_of s) (visit_of t) then s ∷ t ∷ visits else t ∷ rest

unfoldable pub sort_visits : List SessionRecord → List SessionRecord
sort_visits [] = []
sort_visits (s ∷ visits) = insert_visit s (sort_visits visits)

-- `visits.length ? visits : [undefined]`
unfoldable pub lines_of : List SessionRecord → List (Option SessionRecord)
lines_of [] = none ∷ []
lines_of (s ∷ visits) = map some (s ∷ visits)

-- `c.toUpperCase()` of an ASCII letter
abbrev upper : ℕ → ℕ
upper c = if leb b'a' c && leb c b'z' then c - 32 else c

abbrev capitalised : Text → Text
capitalised [] = []
capitalised (c ∷ s) = upper c ∷ s

-- `session.status` in the test of an `else if`
abbrev status_word : Option Text → Text
status_word none = codes "Present"
status_word (some []) = codes "Present"
status_word (some (c ∷ s)) = capitalised (c ∷ s)

unfoldable pub status_of : Option SessionRecord → Text
status_of none = codes "Absent"
status_of (some s) = if truthy s.is_late then codes "Late" else status_word s.status

-- `attendance_mode === "visits" || visits.length > 1`
unfoldable pub shows_visit : GroupRecord → List SessionRecord → Bool
shows_visit group visits =
    (elim group.attendance_mode [ none ↦ false | some mode ↦ mode === "visits" ])
    || ltb 1 (length visits)

-- `member.name || "Member"`
abbrev name_or : Text → Text
name_or [] = codes "Member"
name_or (c ∷ s) = c ∷ s

-- `String(session?.visit_number ?? (session ? 1 : ""))`
unfoldable pub visit_text : (ℕ → Text) → Option SessionRecord → Text
visit_text print none = []
visit_text print (some s) = print (visit_of s)

-- `print` writes a number; `date` is the day's text and `details` the cells behind the status.
module _ (print : ℕ → Text) (date : Text) (details : Option SessionRecord → List Text) where
  unfoldable pub row_of :
      GroupRecord → MemberRecord → List SessionRecord → Option SessionRecord → List Text
  unfolding shows_visit status_of visit_text
  row_of group member visits line =
      name_or member.name
      ∷ date
      ∷ (if shows_visit group visits then visit_text print line else [])
      ∷ status_of line
      ∷ details line

  unfoldable pub member_rows :
      GroupRecord → JsMap String (List SessionRecord) → MemberRecord → List (List Text)
  unfolding visits_of sort_visits lines_of row_of
  member_rows group sessions member =
      let visits = sort_visits (visits_of member.person_id sessions) in
      map (row_of group member visits) (lines_of visits)

  abbrev pub append_rows :
      GroupRecord → JsMap String (List SessionRecord) → List MemberRecord → List (List Text)
  append_rows group sessions [] = []
  append_rows group sessions (member ∷ members) =
      member_rows group sessions member ++ append_rows group sessions members

  unfoldable pub group_rows :
      GroupRecord → List MemberRecord → List SessionRecord → List (List Text)
  unfolding group_sessions
  group_rows group members sessions = append_rows group (group_sessions [] sessions) members
