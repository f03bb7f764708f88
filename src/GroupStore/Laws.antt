-- ===== src/GroupStore/Laws.antt =====
-- app/src/components/group/stores/groupStore.ts: the members that are shown are those of the group
-- that is selected.
use facenox.Base.{
  ℕ, ◌≡◌, refl, sym, true, ◌&&◌, ◌||◌, not, List, [], ◌∷◌, Option, none, some, String, ◌==◌,
  if_elim, ◌⊎◌, inl, inr, arith, and_split,
}
use facenox.Base.Keys.{string_eq, list_eq}
use mathlib.Core.Path.{subst}
use facenox.JsMap.{get}
use facenox.GroupStore.{
  AttendanceGroup, GroupState, Answer, received, failed, id_of, same_id, find_group,
  set_selected_group, without_members, refresh_selected, still_selected, take_groups,
  fetched_groups, end_fetch_groups, fetch_group_details, end_fetch_group_details,
  fetch_overview_data, end_fetch_overview_data, fetched_overview, delete_group, end_delete_group,
  forget_deleted, reset, start_loading, is_cached, or_none,
}
use facenox.GroupStore.Events.{
  Event, selects, fetches_groups, forgets_deleted, gets_groups, fetches_details, gets_details,
  fetches_overview, gets_overview, deletes, gets_deleted, resets, sets_groups, sets_members,
  sets_loading, sets_error, handle, handle_all,
}

find_group-id :
    (id : String) (groups : List AttendanceGroup) (group : AttendanceGroup)
    → find_group id groups ≡ some group
    → group.id ≡ id
find_group-id id [] group h = absurd cc
find_group-id id (other ∷ groups) group h =
    ground (arith, find_group-id id groups group, string_eq.same_iff other.id id, h)

module _ {M : Type 0} (Members : String → List M → Type 0) where
  -- No members, or those of the group.
  abbrev pub Shown : Option AttendanceGroup → List M → Type 0
  Shown none members = members ≡ []
  Shown (some group) members = (members ≡ []) ⊎ Members group.id members

  Shown-of :
      (selected : Option AttendanceGroup) (id : String) (members : List M)
      → same_id (id_of selected) (some id) ≡ true
      → Members id members
      → Shown selected members
  Shown-of none id members h k = absurd cc
  Shown-of (some group) id members h k = inr (rw ((string_eq.same_iff group.id id).0 h) k)

  Shown-same :
      (old : Option AttendanceGroup) (group : AttendanceGroup) (members : List M)
      → same_id (id_of old) (some group.id) ≡ true
      → Shown old members
      → Shown (some group) members
  Shown-same none group members h k = absurd cc
  Shown-same (some old) group members h k = rw (← ((string_eq.same_iff old.id group.id).0 h)) k

module _ {M S R : Type 0} (Members : String → List M → Type 0) where
  abbrev pub ShownIn : GroupState M S R → Type 0
  ShownIn s = Shown Members s.selected_group s.members

  -- The service answers with members of the group that it is asked for, the attendance store holds
  -- members of its group, and `setMembers` is called with members of the group that is selected.
  abbrev pub Honest : Event M S R → GroupState M S R → Type 0
  Honest (gets_details request_id group_id (received members)) s = Members group_id members
  Honest (resets initial) s = Shown Members initial.current_group initial.group_members
  Honest (sets_members members) s = Shown Members s.selected_group members
  Honest event s = Unit

  abbrev pub AllHonest : List (Event M S R) → GroupState M S R → Type 0
  AllHonest [] s = Unit
  AllHonest (event ∷ events) s = Honest event s × AllHonest events (handle event s)

  set_selected_group-Shown :
      (group : Option AttendanceGroup) (s : GroupState M S R)
      → ShownIn s
      → ShownIn (set_selected_group group s)
  unfolding set_selected_group
  set_selected_group-Shown none s shown =
      if_elim (λ (t : GroupState M S R). ShownIn (without_members none t))
        (same_id (id_of s.selected_group) none) (λ _. refl) (λ _. refl)
  set_selected_group-Shown (some group) s shown =
      if_elim ShownIn (same_id (id_of s.selected_group) (some group.id))
        (λ same. Shown-same Members s.selected_group group s.members same shown) (λ _. inl refl)

  still_selected-Shown :
      (current : AttendanceGroup) (found : Option AttendanceGroup) (s : GroupState M S R)
      → ((group : AttendanceGroup) → found ≡ some group → group.id ≡ current.id)
      → s.selected_group ≡ some current
      → ShownIn s
      → ShownIn (still_selected found s)
  still_selected-Shown current none s same h shown = refl
  still_selected-Shown current (some group) s same h shown =
      Shown-same Members (some current) group s.members
        ((string_eq.same_iff current.id group.id).1 (sym (same group refl)))
        (subst (λ (selected : Option AttendanceGroup). Shown Members selected s.members) h shown)

  refresh_selected-Shown :
      (selected : Option AttendanceGroup) (groups : List AttendanceGroup) (s : GroupState M S R)
      → s.selected_group ≡ selected
      → ShownIn s
      → ShownIn (refresh_selected selected groups s)
  refresh_selected-Shown none groups s h shown = shown
  refresh_selected-Shown (some current) groups s h shown =
      still_selected-Shown current (find_group current.id groups) s
        (find_group-id current.id groups) h shown

  take_groups-Shown :
      (groups : List AttendanceGroup) (s : GroupState M S R)
      → ShownIn s
      → ShownIn (take_groups groups s)
  take_groups-Shown [] s shown = refl
  take_groups-Shown (group ∷ groups) s shown =
      refresh_selected-Shown s.selected_group (group ∷ groups) _ refl shown

  fetched_groups-Shown :
      (answer : Answer (List AttendanceGroup)) (s : GroupState M S R)
      → ShownIn s
      → ShownIn (fetched_groups answer s)
  fetched_groups-Shown (received groups) s shown = take_groups-Shown groups s shown
  fetched_groups-Shown (failed text) s shown = shown

  end_fetch_group_details-Shown :
      (request_id : ℕ) (group_id : String) (answer : Answer (List M)) (s : GroupState M S R)
      → Honest (gets_details request_id group_id answer) s
      → ShownIn s
      → ShownIn (end_fetch_group_details request_id group_id answer s)
  unfolding end_fetch_group_details
  end_fetch_group_details-Shown request_id group_id (failed text) s honest shown =
      if_elim ShownIn _ (λ _. shown) (λ _. shown)
  end_fetch_group_details-Shown request_id group_id (received members) s honest shown =
      if_elim ShownIn
        (request_id == s.group_details_request_id
          && same_id (id_of s.selected_group) (some group_id))
        (λ h. Shown-of Members s.selected_group group_id members (and_split _ _ h).1 honest)
        (λ _. shown)

  end_delete_group-Shown :
      (group_id : String) (answer : Option String) (s : GroupState M S R)
      → ShownIn s
      → ShownIn (end_delete_group group_id answer s)
  unfolding end_delete_group
  end_delete_group-Shown group_id (some text) s shown = shown
  end_delete_group-Shown group_id none s shown =
      if_elim (λ (t : GroupState M S R). ShownIn (start_loading t))
        (same_id (id_of s.selected_group) (some group_id)) (λ _. refl) (λ _. shown)

  fetched_overview-Shown :
      (group_id : String) (period : List String) (answer : Answer (S × R)) (s : GroupState M S R)
      → ShownIn s
      → ShownIn (fetched_overview group_id period answer s)
  fetched_overview-Shown group_id period (received (stats, records)) s shown = shown
  fetched_overview-Shown group_id period (failed text) s shown = shown

  handle-Shown :
      (event : Event M S R) (s : GroupState M S R)
      → Honest event s
      → ShownIn s
      → ShownIn (handle event s)
  unfolding handle end_fetch_groups fetch_group_details fetch_overview_data end_fetch_overview_data
      delete_group forget_deleted reset
  handle-Shown (selects group) s honest shown = set_selected_group-Shown group s shown
  handle-Shown fetches_groups s honest shown = shown
  handle-Shown forgets_deleted s honest shown = shown
  handle-Shown (gets_groups answer) s honest shown = fetched_groups-Shown answer s shown
  handle-Shown (fetches_details group_id) s honest shown =
      if_elim ShownIn (same_id (id_of s.selected_group) (some group_id)) (λ _. shown) (λ _. shown)
  handle-Shown (gets_details request_id group_id answer) s honest shown =
      end_fetch_group_details-Shown request_id group_id answer s honest shown
  handle-Shown (fetches_overview group_id period force_loading) s honest shown =
      if_elim ShownIn
        (force_loading
          || (not (is_cached (get group_id s.overview_stats))
              || not (is_cached (get period (or_none (get group_id s.overview_records))))))
        (λ _. shown) (λ _. shown)
  handle-Shown (gets_overview group_id period answer) s honest shown =
      fetched_overview-Shown group_id period answer s shown
  handle-Shown (deletes group_id) s honest shown = shown
  handle-Shown (gets_deleted group_id answer) s honest shown =
      end_delete_group-Shown group_id answer s shown
  handle-Shown (resets initial) s honest shown = honest
  handle-Shown (sets_groups groups) s honest shown = shown
  handle-Shown (sets_members members) s honest shown = honest
  handle-Shown (sets_loading loading) s honest shown = shown
  handle-Shown (sets_error error) s honest shown = shown

  -- However the store is called and in whatever order the answers to its requests come, the members
  -- that it holds are those of the group that is selected, or none, if this holds at first, the
  -- service answers with members of the group that it is asked for, the attendance store holds
  -- members of its group and `setMembers` is called with none or with members of the group that is
  -- selected then.
  pub handle_all-Shown :
      (events : List (Event M S R)) (s : GroupState M S R)
      → AllHonest events s
      → ShownIn s
      → ShownIn (handle_all events s)
  unfolding handle_all
  handle_all-Shown [] s honest shown = shown
  handle_all-Shown (event ∷ events) s (first, rest) shown =
      handle_all-Shown events (handle event s) rest (handle-Shown event s first shown)
