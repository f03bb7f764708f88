-- ===== src/MemberCache/Laws.antt =====
-- app/src/components/main/utils/memberCacheHelpers.ts: a recognised person is a member of the group
-- that is attended.
use facenox.Base.{ℕ, ◌≡◌, ◌≢◌, ◌∙◌, refl, sym, Option, none, some, String, ◌==◌, if_elim, arith}
use mathlib.Core.Path.{subst}
use facenox.Base.Keys.{◌===◌, string_eq, ===_ne}
use facenox.JsMap.{JsMap, get, set}
use facenox.JsMap.Laws.{get-set}
use facenox.MemberCache.{
  AttendanceMember, Caches, MemberAnswer, answered, threw, Recognized, is_same_cache, name_or,
  all_groups_id, restricting, if_in_group, checked, on_error, remember, after_answer, in_cache,
  with_cache, get_member_from_cache,
}

restricting-same : (group id : String) → restricting (some group) ≡ some id → group ≡ id
restricting-same group id h = ground arith

restricting-some : (group : String) → group ≢ all_groups_id → restricting (some group) ≢ none
restricting-some group other h = ground (arith, ===_ne group all_groups_id other)

module _ (Is : String → AttendanceMember → Type 0) where
  -- A member of the person, if there is one.
  abbrev pub IsOf : String → Option AttendanceMember → Type 0
  IsOf person none = Unit
  IsOf person (some member) = Is person member

  abbrev pub IsFound : String → Option (Option AttendanceMember) → Type 0
  IsFound person none = Unit
  IsFound person (some found) = IsOf person found

  abbrev pub IsAnswer : String → MemberAnswer → Type 0
  IsAnswer person threw = Unit
  IsAnswer person (answered member) = IsOf person member

  -- Every cache holds members under their persons.
  abbrev pub Good : Caches → Type 0
  Good s = (c : ℕ) (person : String) → IsFound person (get person (s.contents c))

  abbrev pub InGroup : Option String → AttendanceMember → Type 0
  InGroup none member = Unit
  InGroup (some group) member = group ≢ all_groups_id → member.group_id ≡ group

  -- A result with a member is one of the person, in the group if that is not the one of all; one without a member
  -- is given only where there is no group.
  abbrev pub Fits : String → Option String → Recognized → Type 0
  Fits person group none = Unit
  Fits person group (some (none, name)) = (group ≡ none) × (name ≡ person)
  Fits person group (some (some member, name)) = Is person member × InGroup group member

  unrestricted-InGroup :
      (group : Option String) (member : AttendanceMember)
      → restricting group ≡ none
      → InGroup group member
  unrestricted-InGroup none member h = tt
  unrestricted-InGroup (some group) member h = λ other. absurd (restricting-some group other h)

  restricted-InGroup :
      (group : Option String) (id : String) (member : AttendanceMember)
      → restricting group ≡ some id
      → member.group_id ≡ id
      → InGroup group member
  restricted-InGroup none id member h same = absurd cc
  restricted-InGroup (some group) id member h same =
      λ other. same ∙ sym (restricting-same group id h)

  if_in_group-Fits :
      (person : String) (group limit : Option String) (member : AttendanceMember) (name : String)
      → restricting group ≡ limit
      → Is person member
      → Fits person group (if_in_group limit member (some (some member, name)))
  if_in_group-Fits person group none member name h is = (is, unrestricted-InGroup group member h)
  if_in_group-Fits person group (some id) member name h is =
      if_elim (Fits person group) (member.group_id === id)
        (λ same. (
          is,
          restricted-InGroup group id member h ((string_eq.same_iff member.group_id id).0 same),
        ))
        (λ _. tt)

  checked-Fits :
      (person : String) (group : Option String) (found : Option AttendanceMember)
      → IsOf person found
      → Fits person group (checked person group found)
  checked-Fits person group none is = tt
  checked-Fits person group (some member) is =
      if_in_group-Fits person group (restricting group) member (name_or member.name person) refl is

  on_error-Fits :
      (person : String) (group : Option String) → Fits person group (on_error person group)
  on_error-Fits person none = (refl, refl)
  on_error-Fits person (some group) = tt

  set-IsFound :
      (person other : String) (member : AttendanceMember)
      (m : JsMap String (Option AttendanceMember))
      → Is person member
      → ((q : String) → IsFound q (get q m))
      → IsFound other (get other (set person (some member) m))
  set-IsFound person other member m is old = rw (get-set person other (some member) m) (
      if_elim (IsFound other) (person === other)
        (λ same. subst (λ (q : String). Is q member) ((string_eq.same_iff person other).0 same) is)
        (λ _. old other))

  remember-Good :
      (c : ℕ) (person : String) (member : AttendanceMember) (s : Caches)
      → Is person member
      → Good s
      → Good (remember c person member s)
  remember-Good c person member s is good =
      if_elim Good (is_same_cache c s.current)
        (λ _ d q.
          if_elim (λ (m : JsMap String (Option AttendanceMember)). IsFound q (get q m)) (c == d)
            (λ _. set-IsFound person q member (s.contents c) is (good c)) (λ _. good d q))
        (λ _. good)

  abbrev Both : String → Option String → Recognized × Caches → Type 0
  Both person group (result, s) = Fits person group result × Good s

  after_answer-Both :
      (c : ℕ) (person : String) (group : Option String) (answer : MemberAnswer) (s : Caches)
      → IsAnswer person answer
      → Good s
      → Both person group (after_answer c person group answer s)
  after_answer-Both c person group threw s is good = (on_error-Fits person group, good)
  after_answer-Both c person group (answered none) s is good = (tt, good)
  after_answer-Both c person group (answered (some member)) s is good =
      (checked-Fits person group (some member) is, remember-Good c person member s is good)

  in_cache-Both :
      (c : ℕ) (person : String) (group : Option String) (found : Option (Option AttendanceMember))
      (answer : MemberAnswer) (s later : Caches)
      → IsFound person found
      → IsAnswer person answer
      → Good s
      → Good later
      → Both person group (in_cache c person group found answer s later)
  in_cache-Both c person group (some found) answer s later is h good good_later =
      (checked-Fits person group found is, good)
  in_cache-Both c person group none answer s later is h good good_later =
      after_answer-Both c person group answer later h good_later

  with_cache-Both :
      (current : Option ℕ) (person : String) (group : Option String) (answer : MemberAnswer)
      (s later : Caches)
      → IsAnswer person answer
      → Good s
      → Good later
      → Both person group (with_cache current person group answer s later)
  with_cache-Both none person group answer s later h good good_later = (tt, good)
  with_cache-Both (some c) person group answer s later h good good_later =
      in_cache-Both c person group (get person (s.contents c)) answer s later (good c person) h good
        good_later

  -- A member that is given for a person is one of this person, in the group that is attended if this
  -- is not the one of all groups; a result without a member, with the person as the name, is given
  -- only where no group is attended; and the caches hold members under their own persons afterwards,
  -- if they did so before and at the answer, and the service answers with the member of the person.
  pub get_member_from_cache-Fits :
      (person : String) (group : Option String) (answer : MemberAnswer) (s later : Caches)
      → IsAnswer person answer
      → Good s
      → Good later
      → Fits person group (get_member_from_cache person group answer s later).0
        × Good (get_member_from_cache person group answer s later).1
  unfolding get_member_from_cache
  get_member_from_cache-Fits person group answer s later =
      with_cache-Both s.current person group answer s later
