-- ===== src/MemberCache/RecognitionMaps/Laws.antt =====
-- Two recognition maps are found to be the same exactly if each face has the same answer in both.
use facenox.Base.{
  ℕ, ◌≡◌, ◌≢◌, ◌↔◌, ◌∙◌, refl, sym, ap, inl, inr, arith, Bool, true, false, not, ◌&&◌, [], ◌∷◌,
  Option, none, some, String, length, ◌==◌, ==_iff, and_split, Bool-cases, Option-cases,
  if◌then◌else◌,
}
use facenox.Base.Keys.{Eq, ◌===◌, nat_eq, string_eq, bool_eq, option_eq, same_option_iff}
use facenox.JsMap.{JsMap, get}
use facenox.MemberCache.RecognitionMaps.Entries.{
  IsMap, get-cons_self, get-cons_other, get-cons_same, apart, some-ne-none, covered,
}
use facenox.MemberCache.RecognitionMaps.{
  RecognitionResponse, same_fields, is_recognition_response_equal, every_equal,
  are_recognition_maps_equal,
}

-- The parts of an answer that are shown: all but the time that it took.
abbrev Shown : Type 0 → Type 0
Shown S = Bool × Option String × Option String × S × Option String × Option String

abbrev pub shown : {S : Type 0} → RecognitionResponse S → Shown S
shown a = (a.success, a.person_id, a.name, a.similarity, a.error, a.member_name)

abbrev pub shown_of : {S : Type 0} → Option (RecognitionResponse S) → Option (Shown S)
shown_of none = none
shown_of (some a) = some (shown a)

and_join : (a b : Bool) → a ≡ true → b ≡ true → (a && b) ≡ true
and_join a b h k = rw h k

if_split : (a b : Bool) → (if a then b else false) ≡ true → (a ≡ true) × (b ≡ true)
if_split true b h = (refl, h)
if_split false b h = absurd cc

unless_split : (a b : Bool) → (if not a then false else b) ≡ true → (a ≡ true) × (b ≡ true)
unless_split true b h = (refl, h)
unless_split false b h = absurd cc

unless_join : (a b : Bool) → a ≡ true → b ≡ true → (if not a then false else b) ≡ true
unless_join true b h k = k
unless_join false b h k = absurd cc

module _ {S : Type 0} ⦃e : Eq S⦄ where
  same_fields-shown : (a b : RecognitionResponse S) → same_fields a b ≡ true → shown a ≡ shown b
  same_fields-shown a b h =
      let (success, h1) = and_split (a.success === b.success) _ h in
      let (person, h2) = and_split (a.person_id === b.person_id) _ h1 in
      let (name, h3) = and_split (a.name === b.name) _ h2 in
      let (similarity, h4) = and_split (a.similarity === b.similarity) _ h3 in
      let (error, member) = and_split (a.error === b.error) (a.member_name === b.member_name) h4 in
      λ i. (
        (bool_eq.same_iff a.success b.success).0 success i,
        (same_option_iff a.person_id b.person_id).0 person i,
        (same_option_iff a.name b.name).0 name i,
        (e.same_iff a.similarity b.similarity).0 similarity i,
        (same_option_iff a.error b.error).0 error i,
        (same_option_iff a.member_name b.member_name).0 member i,
      )

  shown-same_fields : (a b : RecognitionResponse S) → shown a ≡ shown b → same_fields a b ≡ true
  shown-same_fields a b h =
      and_join _ _ ((bool_eq.same_iff a.success b.success).1 (ap (λ (x : Shown S). x.0) h)) (
        and_join _ _ ((same_option_iff a.person_id b.person_id).1 (ap (λ (x : Shown S). x.1) h)) (
          and_join _ _ ((same_option_iff a.name b.name).1 (ap (λ (x : Shown S). x.2) h)) (
            and_join _ _ ((e.same_iff a.similarity b.similarity).1 (ap (λ (x : Shown S). x.3) h)) (
              and_join _ _ ((same_option_iff a.error b.error).1 (ap (λ (x : Shown S). x.4) h))
                ((same_option_iff a.member_name b.member_name).1 (ap (λ (x : Shown S). x.5) h))))))

  abbrev shown_or : Shown S → Option (Shown S) → Shown S
  shown_or x none = x
  shown_or x (some y) = y

  is_recognition_response_equal_iff :
      (a b : Option (RecognitionResponse S))
      → (is_recognition_response_equal a b ≡ true) ↔ (shown_of a ≡ shown_of b)
  unfolding is_recognition_response_equal
  is_recognition_response_equal_iff none none = (λ h. refl, λ h. refl)
  is_recognition_response_equal_iff (some a) (some b) = (
    λ h. ap some (same_fields-shown a b h),
    λ h. shown-same_fields a b (ap (shown_or (shown a)) h),
  )
  is_recognition_response_equal_iff none (some b) = (λ h. absurd cc, λ h. absurd cc)
  is_recognition_response_equal_iff (some a) none = (λ h. absurd cc, λ h. absurd cc)

  every_equal-cons :
      (prev next : JsMap ℕ (RecognitionResponse S)) (j : ℕ) (w : RecognitionResponse S)
      → every_equal prev ((j, w) ∷ next) ≡ true
      → (is_recognition_response_equal (get j prev) (some w) ≡ true)
        × (every_equal prev next ≡ true)
  unfolding every_equal
  every_equal-cons prev next j w h =
      if_split (is_recognition_response_equal (get j prev) (some w)) (every_equal prev next) h

  -- Every entry of `next` has its counterpart.
  every_equal→shown :
      (prev next : JsMap ℕ (RecognitionResponse S)) (key : ℕ) (v : RecognitionResponse S)
      → every_equal prev next ≡ true
      → get key next ≡ some v
      → shown_of (get key prev) ≡ some (shown v)
  unfolding every_equal get
  every_equal→shown prev [] key v h found = absurd cc
  every_equal→shown prev ((j, w) ∷ next) key v h found =
      let (same, rest) = every_equal-cons prev next j w h in
      elim (Bool-cases (j == key)) [
        | inl e ↦
            ap (λ x. shown_of (get x prev)) (sym ((==_iff j key).0 e))
            ∙ (is_recognition_response_equal_iff (get j prev) (some w)).0 same
            ∙ ap shown_of (sym (get-cons_same next j key w e) ∙ found)
        | inr other ↦
            every_equal→shown prev next key v rest (sym (get-cons_other next j key w other) ∙ found)
      ]

  shown→every_equal :
      (prev next : JsMap ℕ (RecognitionResponse S))
      → IsMap next
      → ((key : ℕ) (v : RecognitionResponse S)
          → get key next ≡ some v
          → shown_of (get key prev) ≡ some (shown v))
      → every_equal prev next ≡ true
  unfolding every_equal get
  shown→every_equal prev [] m h = refl
  shown→every_equal prev ((j, w) ∷ next) (fresh, m) h =
      rw
        ((is_recognition_response_equal_iff (get j prev) (some w)).1
          (h j w (get-cons_self next j w)))
        (shown→every_equal prev next m (λ key v found. h key v (
          get-cons_other next j key w
            (apart next j key fresh (λ gone. some-ne-none (sym found ∙ gone)))
          ∙ found)))

  shown-ne-none :
      (a : Option (RecognitionResponse S)) (b : RecognitionResponse S)
      → shown_of a ≡ some (shown b)
      → a ≢ none
  shown-ne-none none b h e = cc
  shown-ne-none (some a) b h e = cc

  -- Faces with the same answers in both are keys of both.
  keys-shown :
      (prev next : JsMap ℕ (RecognitionResponse S)) (k : ℕ)
      → shown_of (get k prev) ≡ shown_of (get k next)
      → get k next ≢ none
      → get k prev ≢ none
  keys-shown prev next k h found = elim (Option-cases (get k next)) [
    | inl gone ↦ absurd (found gone)
    | inr (v, e) ↦ shown-ne-none (get k prev) v (h ∙ ap shown_of e)
  ]

  length-shown :
      (prev next : JsMap ℕ (RecognitionResponse S))
      → IsMap prev
      → IsMap next
      → ((k : ℕ) → shown_of (get k prev) ≡ shown_of (get k next))
      → length prev ≡ length next
  length-shown prev next p n h =
      let (le, _) = covered prev next n (λ k. keys-shown prev next k (h k)) in
      let (ge, _) = covered next prev p (λ k. keys-shown next prev k (sym (h k))) in
      omega (arith, le, ge)

  equal→shown :
      (prev next : JsMap ℕ (RecognitionResponse S))
      → IsMap next
      → length prev ≡ length next
      → every_equal prev next ≡ true
      → (k : ℕ) → shown_of (get k prev) ≡ shown_of (get k next)
  equal→shown prev next n size h k = elim (Option-cases (get k next)) [
    | inr (v, e) ↦ every_equal→shown prev next k v h e ∙ sym (ap shown_of e)
    | inl gone ↦
        let (_, same) = covered prev next n (λ j found. elim (Option-cases (get j next)) [
          | inl none_there ↦ absurd (found none_there)
          | inr (v, e) ↦ shown-ne-none (get j prev) v (every_equal→shown prev next j v h e)
        ]) in
        ap shown_of (same size k gone ∙ sym gone)
  ]

  -- Two maps without a key twice, which are equal if they are one object, are found to be the same
  -- exactly if each face has the same answer in both, up to the time that it took, or none in both.
  pub are_recognition_maps_equal_iff :
      (is_one_object : Bool) (prev next : JsMap ℕ (RecognitionResponse S))
      → (is_one_object ≡ true → prev ≡ next)
      → IsMap prev
      → IsMap next
      → (are_recognition_maps_equal is_one_object prev next ≡ true)
        ↔ ((k : ℕ) → shown_of (get k prev) ≡ shown_of (get k next))
  unfolding are_recognition_maps_equal
  are_recognition_maps_equal_iff true prev next one p n =
      (λ h k. ap (λ m. shown_of (get k m)) (one refl), λ h. refl)
  are_recognition_maps_equal_iff false prev next one p n = (
    λ h.
        let (size, every) = unless_split (length prev == length next) (every_equal prev next) h in
        equal→shown prev next n ((==_iff (length prev) (length next)).0 size) every,
    λ h.
        unless_join (length prev == length next) (every_equal prev next)
          ((==_iff (length prev) (length next)).1 (length-shown prev next p n h))
          (shown→every_equal prev next n (λ k v e. h k ∙ ap shown_of e)),
  )
