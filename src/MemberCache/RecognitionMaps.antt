-- ===== src/MemberCache/RecognitionMaps.antt =====
-- app/src/components/main/utils/recognitionHelpers.ts: whether two maps of recognition answers are the
-- same, so that the view need not be drawn again. Numbers that are compared by `===` are a
-- parameter; `NaN`, which differs from itself, is not among them, so that an object is equal to
-- itself by its fields too. That two maps are one object is an argument.
pub mod Entries
pub mod Laws
use facenox.Base.{
  ℕ, Bool, true, false, not, ◌&&◌, List, [], ◌∷◌, Option, none, some, String, length, ◌==◌,
  if◌then◌else◌,
}
use facenox.Base.Keys.{Eq, ◌===◌, nat_eq, string_eq, bool_eq, option_eq}
use facenox.JsMap.{JsMap, get}

-- `ExtendedFaceRecognitionResponse`
pub record RecognitionResponse (S : Type 0) : Type 0 where
  pub success : Bool
  pub person_id : Option String
  pub name : Option String
  pub similarity : S
  pub processing_time : S
  pub error : Option String
  pub member_name : Option String

module _ {S : Type 0} ⦃e : Eq S⦄ where
  abbrev pub same_fields : RecognitionResponse S → RecognitionResponse S → Bool
  same_fields a b =
      a.success === b.success
      && (a.person_id === b.person_id
          && (a.name === b.name
              && (a.similarity === b.similarity
                  && (a.error === b.error && a.member_name === b.member_name))))

  unfoldable pub is_recognition_response_equal :
      Option (RecognitionResponse S) → Option (RecognitionResponse S) → Bool
  is_recognition_response_equal none none = true
  is_recognition_response_equal (some a) (some b) = same_fields a b
  is_recognition_response_equal _ _ = false

  -- The loop over the entries of `next`.
  unfoldable pub every_equal :
      JsMap ℕ (RecognitionResponse S) → List (ℕ × RecognitionResponse S) → Bool
  unfolding is_recognition_response_equal
  every_equal prev [] = true
  every_equal prev ((key, next_value) ∷ next) =
      if is_recognition_response_equal (get key prev) (some next_value)
      then every_equal prev next
      else false

  unfoldable pub are_recognition_maps_equal :
      Bool → JsMap ℕ (RecognitionResponse S) → JsMap ℕ (RecognitionResponse S) → Bool
  unfolding every_equal
  are_recognition_maps_equal is_one_object prev next =
      if is_one_object
      then true
      else if not (length prev == length next)
      then false
      else every_equal prev next
