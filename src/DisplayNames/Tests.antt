-- ===== src/DisplayNames/Tests.antt =====
-- Names that are shared and names that are not.
use facenox.Base.{◌≡◌, refl, ℕ, List, [], ◌∷◌, String, ◌==◌, if◌then◌else◌, map, some}
use facenox.DisplayNames.{
  Person, Shown, generate_display_names, Group, create_display_name_map,
  generate_group_display_names,
}
use facenox.Base.Keys.{string_eq}
use facenox.JsMap.{get, set, set_all}
use facenox.DisplayNames.Laws.{by_place, generate_display_names-by_place}

abbrev person : String → String → Person
person id name = record { person_id = id; name = name }

abbrev same_case : String → String
same_case name = name

-- For the tests, the number of the second is 2.
abbrev numbered : String → ℕ → String
numbered name n = if n == 2 then "John (2)" else "John (3)"

abbrev display_name_of : Shown → String
display_name_of s = s.display_name

abbrev team : List Person
team = person "1" "John" ∷ person "2" "Ann" ∷ person "3" "John" ∷ []

team_names :
    map display_name_of (generate_display_names same_case numbered team)
    ≡ "John" ∷ "Ann" ∷ "John (2)" ∷ []
unfolding generate_display_names
team_names = refl

-- A person who is named like that is shown under the same text as the second John.
collision :
    map display_name_of (generate_display_names same_case numbered (person "4" "John (2)" ∷ team))
    ≡ "John (2)" ∷ "John" ∷ "Ann" ∷ "John (2)" ∷ []
unfolding generate_display_names
collision = refl

generate_display_names-by_place_example :
    generate_display_names same_case numbered team ≡ by_place same_case numbered team [] team
generate_display_names-by_place_example = generate_display_names-by_place same_case numbered team

last_name :
    get "1" (create_display_name_map same_case numbered (person "1" "Ann" ∷ person "1" "Bob" ∷ []))
    ≡ some "Bob"
unfolding create_display_name_map get set set_all
last_name = refl

abbrev group_of : String → String → Group
group_of id name = record { id = id; name = name }

group_names :
    map display_name_of
      (generate_group_display_names same_case numbered (group_of "1" "A" ∷ group_of "2" "A" ∷ []))
    ≡ "A" ∷ "John (2)" ∷ []
unfolding generate_group_display_names
group_names = refl
