-- ===== src/GroupStore.antt =====
-- app/src/components/group/stores/groupStore.ts: the groups and the members that the management of
-- groups shows, with the answers that come after the selection has changed. Members and what the
-- overviews hold are of any type.
pub mod Events
pub mod Laws
pub mod Tests
use facenox.Base.{
  ℕ, ◌+◌, Bool, true, false, not, ◌&&◌, ◌||◌, List, [], ◌∷◌, Option, none, some, String, put, ◌==◌,
  if◌then◌else◌,
}
use facenox.Base.Keys.{◌===◌, string_eq, list_eq}
use facenox.JsMap.{JsMap, get, set}

pub record AttendanceGroup : Type 0 where
  pub id : String
  pub name : String

-- What the attendance store holds when the state is reset.
pub record Initial (M : Type 0) : Type 0 where
  pub current_group : Option AttendanceGroup
  pub attendance_groups : List AttendanceGroup
  pub group_members : List M

pub record GroupState (M S R : Type 0) : Type 0 where
  pub selected_group : Option AttendanceGroup
  pub groups : List AttendanceGroup
  pub members : List M
  pub overview_stats : JsMap String S
  pub overview_records : JsMap String (JsMap (List String) R)
  pub loading : Bool
  pub error : Option String
  pub last_deleted_group_id : Option String
  pub group_details_request_id : ℕ

abbrev pub id_of : Option AttendanceGroup → Option String
id_of none = none
id_of (some group) = some group.id

abbrev pub same_id : Option String → Option String → Bool
same_id none none = true
same_id (some a) (some b) = a === b
same_id _ _ = false

abbrev pub find_group : String → List AttendanceGroup → Option AttendanceGroup
find_group id [] = none
find_group id (group ∷ groups) =
    let rest = find_group id groups in if group.id === id then some group else rest

-- What a request brings, or the text of its error.
pub data Answer (A : Type 0) : Type 0 where
  received : A → Answer A
  failed : String → Answer A

-- `records || {}`
abbrev pub or_none : {A : Type 0} → Option (List A) → List A
or_none none = []
or_none (some records) = records

abbrev pub is_cached : {A : Type 0} → Option A → Bool
is_cached none = false
is_cached (some a) = true

module _ {M S R : Type 0} where
  abbrev pub initial_state : Initial M → ℕ → GroupState M S R
  initial_state initial request_id = record {
    selected_group = initial.current_group;
    groups = initial.attendance_groups;
    members = initial.group_members;
    overview_stats = [];
    overview_records = [];
    loading = false;
    error = none;
    last_deleted_group_id = none;
    group_details_request_id = request_id;
  }

  abbrev pub without_members : Option AttendanceGroup → GroupState M S R → GroupState M S R
  without_members none s = record s { members = [] }
  without_members (some group) s = s

  unfoldable pub set_selected_group : Option AttendanceGroup → GroupState M S R → GroupState M S R
  set_selected_group group s = without_members group (
      if same_id (id_of s.selected_group) (id_of group)
      then record s { selected_group = group }
      else record s {
        group_details_request_id = s.group_details_request_id + 1;
        selected_group = group;
        members = [];
        loading = false;
        error = none;
      })

  abbrev pub start_loading : GroupState M S R → GroupState M S R
  start_loading s = record s { loading = true; error = none }

  abbrev pub none_selected : GroupState M S R → GroupState M S R
  none_selected s = record s { selected_group = none; members = [] }

  abbrev pub still_selected : Option AttendanceGroup → GroupState M S R → GroupState M S R
  still_selected none s = none_selected s
  still_selected (some group) s = record s { selected_group = some group }

  abbrev pub refresh_selected :
      Option AttendanceGroup → List AttendanceGroup → GroupState M S R → GroupState M S R
  refresh_selected none all_groups s = s
  refresh_selected (some current) all_groups s = still_selected (find_group current.id all_groups) s

  abbrev pub take_groups : List AttendanceGroup → GroupState M S R → GroupState M S R
  take_groups [] s = none_selected (record s { groups = [] })
  take_groups (group ∷ groups) s =
      refresh_selected s.selected_group (group ∷ groups) (record s { groups = group ∷ groups })

  abbrev pub fetched_groups : Answer (List AttendanceGroup) → GroupState M S R → GroupState M S R
  fetched_groups (received all_groups) s = take_groups all_groups s
  fetched_groups (failed text) s = record s { error = some text }

  -- The rest of `fetchGroups` when its answer arrives.
  unfoldable pub end_fetch_groups :
      Answer (List AttendanceGroup) → GroupState M S R → GroupState M S R
  end_fetch_groups answer s = record (fetched_groups answer s) { loading = false }

  unfoldable pub fetch_group_details : String → GroupState M S R → GroupState M S R
  fetch_group_details group_id s =
      if same_id (id_of s.selected_group) (some group_id)
      then start_loading (record s { group_details_request_id = s.group_details_request_id + 1 })
      else s

  abbrev pub fetched_members : Answer (List M) → GroupState M S R → GroupState M S R
  fetched_members (received members) s = record s { members = members }
  fetched_members (failed text) s = record s { error = some text }

  -- The rest of `fetchGroupDetails` of a request and its group when its answer arrives.
  unfoldable pub end_fetch_group_details :
      ℕ → String → Answer (List M) → GroupState M S R → GroupState M S R
  end_fetch_group_details request_id group_id answer s =
      if request_id == s.group_details_request_id
        && same_id (id_of s.selected_group) (some group_id)
      then record (fetched_members answer s) { loading = false }
      else s

  unfoldable pub fetch_overview_data :
      String → List String → Bool → GroupState M S R → GroupState M S R
  fetch_overview_data group_id period force_loading s =
      if force_loading
        || (not (is_cached (get group_id s.overview_stats))
            || not (is_cached (get period (or_none (get group_id s.overview_records)))))
      then start_loading s
      else s

  abbrev pub fetched_overview :
      String → List String → Answer (S × R) → GroupState M S R → GroupState M S R
  fetched_overview group_id period (received (stats, records)) s = record s {
    overview_stats = set group_id stats s.overview_stats;
    overview_records =
        set group_id (set period records (or_none (get group_id s.overview_records)))
          s.overview_records;
  }
  fetched_overview group_id period (failed text) s = record s { error = some text }

  unfoldable pub end_fetch_overview_data :
      String → List String → Answer (S × R) → GroupState M S R → GroupState M S R
  end_fetch_overview_data group_id period answer s =
      record (fetched_overview group_id period answer s) { loading = false }

  unfoldable pub delete_group : String → GroupState M S R → GroupState M S R
  delete_group group_id s = record s { loading = true; last_deleted_group_id = some group_id }

  -- When the group is deleted, up to the request of the groups; or with the text of the error.
  unfoldable pub end_delete_group : String → Option String → GroupState M S R → GroupState M S R
  end_delete_group group_id none s =
      let s' = if same_id (id_of s.selected_group) (some group_id) then none_selected s else s in
      start_loading s'
  end_delete_group group_id (some text) s = record s {
    error = some text;
    last_deleted_group_id = none;
    loading = false;
  }

  -- After the groups have been fetched again.
  unfoldable pub forget_deleted : GroupState M S R → GroupState M S R
  forget_deleted s = record s { last_deleted_group_id = none; loading = false }

  unfoldable pub reset : Initial M → GroupState M S R → GroupState M S R
  reset initial s = initial_state initial (s.group_details_request_id + 1)
