-- ===== src/MemberCache/Tests.antt =====
-- Answers of the service, and the theorem at one of them.
use facenox.Base.{ℕ, ◌≡◌, ◌↔◌, refl, true, false, [], ◌∷◌, none, some, String}
use facenox.Base.Keys.{nat_eq, string_eq}
use facenox.JsMap.{JsMap, get, set}
use facenox.MemberCache.{AttendanceMember, Caches, answered, get_member_from_cache}
use facenox.MemberCache.RecognitionMaps.{RecognitionResponse, are_recognition_maps_equal}
use facenox.MemberCache.RecognitionMaps.Entries.{IsMap}
use facenox.MemberCache.RecognitionMaps.Laws.{shown_of, are_recognition_maps_equal_iff}
use facenox.MemberCache.Laws.{Fits, Good, get_member_from_cache-Fits}

abbrev ann : AttendanceMember
ann = record { group_id = "g"; name = "Ann" }

abbrev fresh : Caches
fresh = record { current = some 0; contents = λ c. [] }

-- The cache was replaced while the service was asked, so that nothing is stored.
abbrev replaced : Caches
replaced = record { current = some 1; contents = λ c. [] }

stored :
    get "p1"
      ((get_member_from_cache "p1" (some "g") (answered (some ann)) fresh fresh).1.contents 0)
    ≡ some (some ann)
unfolding get_member_from_cache get set
stored = refl

not_stored :
    get "p1"
      ((get_member_from_cache "p1" (some "g") (answered (some ann)) fresh replaced).1.contents 1)
    ≡ none
unfolding get_member_from_cache get set
not_stored = refl

other_group : (get_member_from_cache "p1" (some "h") (answered (some ann)) fresh fresh).0 ≡ none
unfolding get_member_from_cache get
other_group = refl

-- The service knows one person.
abbrev IsAnn : String → AttendanceMember → Type 0
IsAnn person member = (person ≡ "p1") × (member ≡ ann)

fresh-Good : Good IsAnn fresh
unfolding get
fresh-Good c person = tt

get_member_from_cache-Fits_example :
    Fits IsAnn "p1"
      (some "g")
      (get_member_from_cache "p1" (some "g") (answered (some ann)) fresh fresh).0
    × Good IsAnn (get_member_from_cache "p1" (some "g") (answered (some ann)) fresh fresh).1
get_member_from_cache-Fits_example =
    get_member_from_cache-Fits IsAnn "p1" (some "g") (answered (some ann)) fresh fresh (refl, refl)
      fresh-Good fresh-Good

-- A similarity in percent and a time in milliseconds.
abbrev answer : String → ℕ → ℕ → RecognitionResponse ℕ
answer person similarity time = record {
  success = true;
  person_id = some person;
  name = none;
  similarity = similarity;
  processing_time = time;
  error = none;
  member_name = some person;
}

abbrev two_faces : JsMap ℕ (RecognitionResponse ℕ)
two_faces = (1, answer "p1" 90 12) ∷ (2, answer "p2" 80 15) ∷ []

-- The same faces in another order and after another time.
abbrev two_faces_later : JsMap ℕ (RecognitionResponse ℕ)
two_faces_later = (2, answer "p2" 80 31) ∷ (1, answer "p1" 90 9) ∷ []

abbrev one_face : JsMap ℕ (RecognitionResponse ℕ)
one_face = (1, answer "p1" 90 12) ∷ []

abbrev less_similar : JsMap ℕ (RecognitionResponse ℕ)
less_similar = (1, answer "p1" 90 12) ∷ (2, answer "p2" 70 15) ∷ []

same_faces : are_recognition_maps_equal false two_faces two_faces_later ≡ true
unfolding are_recognition_maps_equal get
same_faces = refl

fewer_faces : are_recognition_maps_equal false two_faces one_face ≡ false
unfolding are_recognition_maps_equal get
fewer_faces = refl

other_similarity : are_recognition_maps_equal false two_faces less_similar ≡ false
unfolding are_recognition_maps_equal get
other_similarity = refl

two_faces-IsMap : IsMap two_faces
unfolding get
two_faces-IsMap = (refl, (refl, tt))

two_faces_later-IsMap : IsMap two_faces_later
unfolding get
two_faces_later-IsMap = (refl, (refl, tt))

are_recognition_maps_equal_iff_example :
    (are_recognition_maps_equal false two_faces two_faces_later ≡ true)
    ↔ ((k : ℕ) → shown_of (get k two_faces) ≡ shown_of (get k two_faces_later))
are_recognition_maps_equal_iff_example =
    are_recognition_maps_equal_iff false two_faces two_faces_later (λ h. absurd cc) two_faces-IsMap
      two_faces_later-IsMap
