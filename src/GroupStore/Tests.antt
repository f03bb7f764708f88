-- ===== src/GroupStore/Tests.antt =====
-- A run with a late answer, and the theorem at it.
use facenox.Base.{ℕ, ◌≡◌, refl, List, [], ◌∷◌, none, some, String, All, false}
use facenox.GroupStore.{
  AttendanceGroup, Initial, received, initial_state, set_selected_group, end_fetch_groups,
  fetch_group_details, end_fetch_group_details, delete_group, end_delete_group, forget_deleted,
}
use facenox.GroupStore.Events.{
  Event, selects, forgets_deleted, gets_groups, fetches_details, gets_details, deletes,
  gets_deleted, handle, handle_all,
}
use facenox.GroupStore.Laws.{ShownIn, handle_all-Shown}

abbrev red : AttendanceGroup
red = record { id = "r"; name = "Red" }

abbrev blue : AttendanceGroup
blue = record { id = "b"; name = "Blue" }

-- A member is its name with the number of its group.
abbrev Member : Type 0
Member = String × String

abbrev AreOf : String → List Member → Type 0
AreOf id members = All (λ (m : Member). m.1 ≡ id) members

abbrev nothing : Initial Member
nothing = record { current_group = none; attendance_groups = []; group_members = [] }

-- The answer for the red group comes after the blue one has been selected.
abbrev late : List (Event Member ℕ ℕ)
late =
    selects (some red)
    ∷ fetches_details "r"
    ∷ selects (some blue)
    ∷ fetches_details "b"
    ∷ gets_details 4 "b" (received (("Bea", "b") ∷ []))
    ∷ gets_details 2 "r" (received (("Rob", "r") ∷ []))
    ∷ []

late_ignored : (handle_all late (initial_state nothing 0)).members ≡ ("Bea", "b") ∷ []
unfolding handle_all handle set_selected_group fetch_group_details end_fetch_group_details
late_ignored = refl

-- A deleted group is no longer selected, and nothing is being loaded in the end.
abbrev deletion : List (Event Member ℕ ℕ)
deletion =
    selects (some red)
    ∷ deletes "r"
    ∷ gets_deleted "r" none
    ∷ gets_groups (received (blue ∷ []))
    ∷ forgets_deleted
    ∷ []

after_deletion :
    let s = handle_all deletion (initial_state nothing 0) in
    (s.selected_group ≡ none) × (s.loading ≡ false) × (s.last_deleted_group_id ≡ none)
unfolding handle_all handle set_selected_group delete_group end_delete_group end_fetch_groups
    forget_deleted
after_deletion = (refl, refl, refl)

handle_all-Shown_example : ShownIn AreOf (handle_all late (initial_state nothing 0))
handle_all-Shown_example =
    handle_all-Shown AreOf late (initial_state nothing 0)
      (tt, (tt, (tt, (tt, ((refl, tt), ((refl, tt), tt)))))) refl
