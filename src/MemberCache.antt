-- ===== src/MemberCache.antt =====
-- app/src/components/main/utils/memberCacheHelpers.ts: the member that belongs to a recognised person,
-- from the cache or from the local service. A cache is an object, known by a number, and the
-- reference to the current one can change while the service is asked. Also `trimTrackingHistory` of
-- app/src/components/main/utils/recognitionHelpers.ts.
pub mod Laws
pub mod RecognitionMaps
pub mod Tests
use facenox.Base.{
  ℕ, ◌-◌, Bool, true, false, not, ◌&&◌, List, [], ◌∷◌, Option, none, some, String, ◌==◌, leb, put,
  length, drop, if◌then◌else◌,
}
use facenox.Base.Keys.{◌===◌, string_eq}
use facenox.JsMap.{JsMap, get, set}

pub record AttendanceMember : Type 0 where
  pub group_id : String
  pub name : String

pub record Caches : Type 0 where
  pub current : Option ℕ
  pub contents : ℕ → JsMap String (Option AttendanceMember)

-- What the request of a member brings.
pub data MemberAnswer : Type 0 where
  answered : Option AttendanceMember → MemberAnswer
  threw : MemberAnswer

-- The member, if any, and the name that is shown; or `null`.
abbrev pub Recognized : Type 0
Recognized = Option (Option AttendanceMember × String)

abbrev pub is_same_cache : ℕ → Option ℕ → Bool
is_same_cache c none = false
is_same_cache c (some d) = d == c

abbrev pub name_or : String → String → String
name_or name person = if name === "" then person else name

abbrev pub all_groups_id : String
all_groups_id = "all"

-- The group whose members alone are accepted.
abbrev pub restricting : Option String → Option String
restricting none = none
restricting (some group) =
    if not (group === all_groups_id) && not (group === "all") then some group else none

abbrev pub if_in_group : Option String → AttendanceMember → Recognized → Recognized
if_in_group none member result = result
if_in_group (some group) member result = if member.group_id === group then result else none

abbrev pub checked : String → Option String → Option AttendanceMember → Recognized
checked person group none = none
checked person group (some member) =
    if_in_group (restricting group) member (some (some member, name_or member.name person))

abbrev pub on_error : String → Option String → Recognized
on_error person (some group) = none
on_error person none = some (none, person)

abbrev pub remember : ℕ → String → AttendanceMember → Caches → Caches
remember c person member s =
    if is_same_cache c s.current
    then record s { contents = put c (set person (some member) (s.contents c)) s.contents }
    else s

abbrev pub after_answer : ℕ → String → Option String → MemberAnswer → Caches → Recognized × Caches
after_answer c person group threw s = (on_error person group, s)
after_answer c person group (answered none) s = (none, s)
after_answer c person group (answered (some member)) s =
    (checked person group (some member), remember c person member s)

abbrev pub in_cache :
    ℕ
    → String
    → Option String
    → Option (Option AttendanceMember)
    → MemberAnswer
    → Caches
    → Caches
    → Recognized × Caches
in_cache c person group (some found) answer s later = (checked person group found, s)
in_cache c person group none answer s later = after_answer c person group answer later

abbrev pub with_cache :
    Option ℕ → String → Option String → MemberAnswer → Caches → Caches → Recognized × Caches
with_cache none person group answer s later = (none, s)
with_cache (some c) person group answer s later =
    in_cache c person group (get person (s.contents c)) answer s later

-- From the caches at the call and those at the answer, if the service is asked.
unfoldable pub get_member_from_cache :
    String → Option String → MemberAnswer → Caches → Caches → Recognized × Caches
get_member_from_cache person group answer s later = with_cache s.current person group answer s later

abbrev pub tracking_history_limit : ℕ
tracking_history_limit = 20

unfoldable pub trim_tracking_history : {T : Type 0} → List T → List T
trim_tracking_history history =
    if leb (length history) tracking_history_limit
    then history
    else drop (length history - tracking_history_limit) history
