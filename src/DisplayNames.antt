-- ===== src/DisplayNames.antt =====
-- app/src/utils/displayNameUtils.ts: the names under which persons and groups are shown. The two
-- generators of the file are the same code on an id and a name; that for groups is the one for
-- persons here, on the ids and names of the groups.
--
-- `lower` is `toLowerCase`, and `numbered name n` the text of `${name} (${n})`.
pub mod Laws
mod Tests
use facenox.Base.{
  ℕ, ◌+◌, Bool, true, false, List, [], ◌∷◌, Option, none, some, String, ◌==◌, if◌then◌else◌,
}
use facenox.Base.Keys.{◌===◌, string_eq}
use facenox.JsMap.{JsMap, get, set, set_all}

pub record Person : Type 0 where
  pub person_id : String
  pub name : String

-- `HasIdAndName`
pub record Group : Type 0 where
  pub id : String
  pub name : String

pub record Shown : Type 0 where
  pub person : Person
  pub display_name : String

-- `counts.get(name) || otherwise`: a count of 0 is as good as none.
abbrev pub count_or : ℕ → Option ℕ → ℕ
count_or otherwise none = otherwise
count_or otherwise (some n) = if n == 0 then otherwise else n

module _ (lower : String → String) (numbered : String → ℕ → String) where
  -- The first `forEach`.
  pub name_occurrences : List Person → JsMap String ℕ → JsMap String ℕ
  unfolding get set
  name_occurrences [] counts = counts
  name_occurrences (p ∷ persons) counts =
      let name = lower p.name in
      name_occurrences persons (set name (count_or 0 (get name counts) + 1) counts)

  -- The `map`, whose function advances `nameCounters`.
  pub display_names : JsMap String ℕ → List Person → JsMap String ℕ → List Shown
  unfolding get set
  display_names occurrences [] counters = []
  display_names occurrences (p ∷ persons) counters =
      let name = lower p.name in
      let current = count_or 0 (get name counters) in
      let single = display_names occurrences persons counters in
      let several = display_names occurrences persons (set name (current + 1) counters) in
      if count_or 1 (get name occurrences) == 1
      then record { person = p; display_name = p.name } ∷ single
      else record {
        person = p;
        display_name = if current == 0 then p.name else numbered p.name (current + 1);
      }
        ∷ several

  unfoldable pub generate_display_names : List Person → List Shown
  unfolding name_occurrences display_names
  generate_display_names persons = display_names (name_occurrences persons []) persons []

  find_shown : String → List Shown → Option Shown
  find_shown id [] = none
  find_shown id (s ∷ shown) =
      let rest = find_shown id shown in if s.person.person_id === id then some s else rest

  abbrev name_or : String → Option Shown → String
  name_or otherwise none = otherwise
  name_or otherwise (some s) = if s.display_name === "" then otherwise else s.display_name

  pub get_display_name : String → List Person → String
  unfolding generate_display_names find_shown
  get_display_name id persons = name_or "Member" (find_shown id (generate_display_names persons))

  abbrev shown_names : List Shown → List (String × String)
  shown_names [] = []
  shown_names (s ∷ shown) = (s.person.person_id, s.display_name) ∷ shown_names shown

  -- `createDisplayNameMap`
  unfoldable pub create_display_name_map : List Person → JsMap String String
  unfolding generate_display_names
  create_display_name_map persons = set_all [] (shown_names (generate_display_names persons))

  abbrev named_entry : Group → Person
  named_entry group = record { person_id = group.id; name = group.name }

  abbrev named_entries : List Group → List Person
  named_entries [] = []
  named_entries (group ∷ groups) = named_entry group ∷ named_entries groups

  -- `generateGroupDisplayNames`
  unfoldable pub generate_group_display_names : List Group → List Shown
  unfolding generate_display_names
  generate_group_display_names groups = generate_display_names (named_entries groups)
