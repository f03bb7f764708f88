-- ===== src/AutoExport/Tests.antt =====
-- A day of the daily report, and the theorems at it.
use facenox.Base.{ℕ, ◌≡◌, refl, ◌≤◌, true, false, List, [], ◌∷◌, Option, none, some, String, length}
use facenox.Base.Text.{Text, codes}
use facenox.JsMap.{get, set}
use facenox.AutoExport.{
  Manager, Updates, Event, checked, ended, updated, written, failed, exports, config_of, text_geb,
}
use facenox.AutoExport.Schedule.{exports-once}
use facenox.AutoExport.Csv.{csv_content, csv_row, csv_cell, parse_csv}
use facenox.AutoExport.Csv.RoundTrip.{parse_csv-csv_content}
use facenox.AutoExport.Xml.{escape_xml}
use facenox.AutoExport.Rows.{
  GroupRecord, MemberRecord, SessionRecord, visits_of, group_sessions, sort_visits, insert_visit,
  member_rows, group_rows,
}

abbrev no_updates : Updates
no_updates = record {
  enabled = none;
  time = none;
  directory = none;
  format = none;
  last_exported_date = none;
}

abbrev at_five : Manager
at_five = record {
  stored = some (record no_updates { enabled = some true; time = some (codes "17:00") });
  is_exporting = false;
  running = none;
}

-- Too early, due, busy, failed, due again, done, and checked again after a change of the time.
abbrev one_day : List Event
one_day =
    checked "2026-05-04" (codes "16:59")
    ∷ checked "2026-05-04" (codes "17:00")
    ∷ checked "2026-05-04" (codes "17:01")
    ∷ ended failed
    ∷ checked "2026-05-04" (codes "17:02")
    ∷ ended written
    ∷ updated (record no_updates { time = some (codes "18:00") })
    ∷ checked "2026-05-04" (codes "18:01")
    ∷ ended written
    ∷ []

one_report : exports "Reports" one_day at_five ≡ "2026-05-04" ∷ []
unfolding exports config_of
one_report = refl

exports-once_example : length (exports "Reports" one_day at_five) ≤ 1
exports-once_example =
    exports-once "Reports" "2026-05-04" one_day at_five refl refl
      (refl, (refl, (refl, (tt, (refl, (tt, (refl, (refl, (tt, tt)))))))))

before_noon : text_geb (codes "09:30") (codes "17:00") ≡ false
before_noon = refl

abbrev quoted : List Text
quoted = codes "a,\"b\"" ∷ [] ∷ []

abbrev plain : List Text
plain = codes "c" ∷ []

parse_csv-csv_content_example :
    parse_csv (csv_content (quoted ∷ plain ∷ [])) ≡ some (quoted ∷ plain ∷ [])
parse_csv-csv_content_example = parse_csv-csv_content quoted (plain ∷ []) (tt, (tt, tt))

quoted_content : csv_content (quoted ∷ plain ∷ []) ≡ codes "\"a,\"\"b\"\"\",\"\"\n\"c\""
unfolding csv_content csv_row csv_cell
quoted_content = refl

escaped : escape_xml (codes "R&D <") ≡ codes "R&amp;D &lt;"
unfolding escape_xml
escaped = refl

abbrev session : String → Option ℕ → ℕ → SessionRecord
session person number details = record {
  person_id = person;
  visit_number = number;
  is_late = none;
  status = none;
  details = details;
}

abbrev answer : List SessionRecord
answer =
    session "p" (some 2) 0 ∷ session "q" none 1 ∷ session "p" none 2 ∷ session "p" (some 2) 3 ∷ []

sorted_visits :
    sort_visits (visits_of "p" (group_sessions [] answer))
    ≡ session "p" none 2 ∷ session "p" (some 2) 0 ∷ session "p" (some 2) 3 ∷ []
unfolding sort_visits visits_of group_sessions get set insert_visit
sorted_visits = refl

abbrev group : GroupRecord
group = record {
  id = "g";
  name = codes "Staff";
  is_active = none;
  is_deleted = none;
  attendance_mode = none;
}

abbrev members : List MemberRecord
members =
    record { person_id = "p"; name = codes "Ann" } ∷ record { person_id = "r"; name = [] } ∷ []

abbrev print_one : ℕ → Text
print_one n = n ∷ []

abbrev no_details : Option SessionRecord → List Text
no_details line = []

four_rows : length (group_rows print_one (codes "05/04/2026") no_details group members answer) ≡ 4
unfolding group_rows member_rows get set insert_visit
four_rows = refl
