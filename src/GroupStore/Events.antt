-- ===== src/GroupStore/Events.antt =====
-- app/src/components/group/stores/groupStore.ts: the calls of the store and the answers to its
-- requests, in any order.
use facenox.Base.{ℕ, Bool, List, [], ◌∷◌, Option, String}
use facenox.GroupStore.{
  AttendanceGroup, Initial, GroupState, Answer, set_selected_group, start_loading, end_fetch_groups,
  fetch_group_details, end_fetch_group_details, fetch_overview_data, end_fetch_overview_data,
  delete_group, end_delete_group, forget_deleted, reset,
}

pub data Event (M S R : Type 0) : Type 0 where
  selects : Option AttendanceGroup → Event M S R
  fetches_groups forgets_deleted : Event M S R
  gets_groups : Answer (List AttendanceGroup) → Event M S R
  fetches_details : String → Event M S R
  gets_details : ℕ → String → Answer (List M) → Event M S R
  fetches_overview : String → List String → Bool → Event M S R
  gets_overview : String → List String → Answer (S × R) → Event M S R
  deletes : String → Event M S R
  gets_deleted : String → Option String → Event M S R
  resets : Initial M → Event M S R
  sets_groups : List AttendanceGroup → Event M S R
  sets_members : List M → Event M S R
  sets_loading : Bool → Event M S R
  sets_error : Option String → Event M S R

module _ {M S R : Type 0} where
  unfoldable pub handle : Event M S R → GroupState M S R → GroupState M S R
  unfolding set_selected_group end_fetch_groups fetch_group_details end_fetch_group_details
      fetch_overview_data end_fetch_overview_data delete_group end_delete_group forget_deleted reset
  handle (selects group) s = set_selected_group group s
  handle fetches_groups s = start_loading s
  handle forgets_deleted s = forget_deleted s
  handle (gets_groups answer) s = end_fetch_groups answer s
  handle (fetches_details group_id) s = fetch_group_details group_id s
  handle (gets_details request_id group_id answer) s =
      end_fetch_group_details request_id group_id answer s
  handle (fetches_overview group_id period force_loading) s =
      fetch_overview_data group_id period force_loading s
  handle (gets_overview group_id period answer) s = end_fetch_overview_data group_id period answer s
  handle (deletes group_id) s = delete_group group_id s
  handle (gets_deleted group_id answer) s = end_delete_group group_id answer s
  handle (resets initial) s = reset initial s
  handle (sets_groups groups) s = record s { groups = groups }
  handle (sets_members members) s = record s { members = members }
  handle (sets_loading loading) s = record s { loading = loading }
  handle (sets_error error) s = record s { error = error }

  unfoldable pub handle_all : List (Event M S R) → GroupState M S R → GroupState M S R
  handle_all [] s = s
  handle_all (event ∷ events) s = handle_all events (handle event s)
