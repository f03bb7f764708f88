-- ===== src/Sync/Pull/Tests.antt =====
-- A download of two pages, with a removed template and one that cannot be read.
use facenox.Base.{
  ℕ, zero, suc, ◌≡◌, refl, Bool, true, false, List, [], ◌∷◌, Option, none, some, String,
}
use facenox.Base.Keys.{◌===◌, string_eq}
use facenox.Sync.Policy.Tests.{before, willing}
use facenox.Sync.Upload.{Acknowledgements, empty_acknowledgements}
use facenox.Sync.Pull.{
  FaceRow, Page, PageAnswer, page, page_http, imported, faces_imported, Round, PullState, broke_off,
  too_many_pages, page_failed, pull_metadata, pull_state, is_success,
}

abbrev face : String → String → Bool → FaceRow
face person text gone = record {
  person_id = person;
  embedding_encrypted = text;
  is_deleted = gone;
  sync_revision = 4;
}

abbrev page_of : String → List FaceRow → Bool → Option String → Page
page_of group faces more next = record {
  schema_version = 2;
  groups = group ∷ [];
  members = [];
  face_embeddings = faces;
  policy = none;
  has_more = more;
  next_cursor = next;
}

abbrev round : PageAnswer → Round
round answer = record {
  answer = answer;
  local = willing;
  metadata = imported;
  faces = faces_imported 1 0;
}

abbrev first_page : Page
first_page = page_of "a" (face "p" "sealed" false ∷ []) true (some "c1")

abbrev last_page : Page
last_page = page_of "b" (face "q" "" true ∷ []) false (some "c2")

abbrev pub rounds : ℕ → Round
rounds zero = round (page first_page)
rounds (suc n) = round (page last_page)

abbrev pub opens : String → String → Bool
opens text key = text === "sealed"

abbrev acks : Acknowledgements
acks = record empty_acknowledgements { faces = ("p", 3) ∷ [] }

abbrev result : PullState
result = pull_state (pull_metadata opens "key" acks rounds before)

asked_for : result.requested ≡ none ∷ some "c1" ∷ []
unfolding pull_metadata
asked_for = refl

-- Without the key the template of the first page cannot be read.
no_key : is_success (pull_metadata opens "" acks rounds before) ≡ false
unfolding pull_metadata
no_key = refl

endless :
    (s : PullState) × (pull_metadata opens "key" acks (λ n. round (page first_page)) before
      ≡ broke_off too_many_pages s)
unfolding pull_metadata
endless = (_, refl)

refused :
    (s : PullState) × (pull_metadata opens "key" acks (λ n. round (page_http 500)) before
      ≡ broke_off page_failed s)
unfolding pull_metadata
refused = (_, refl)
