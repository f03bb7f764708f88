-- ===== src/Sync/Pull.antt =====
-- app/src/electron/managers/BackgroundSyncManager.ts: `pullMetadata`, the download of the Cloud's
-- directory page by page, with the import of each page into the local service.
--
-- A page is what the Cloud answers to a request; the import answers are those of the local service.
-- `decrypts` says whether `decryptEmbedding` (node's crypto) accepts a ciphertext under a key. The
-- texts of groups and members pass through unread and are left out, and so are error texts.
pub mod Chain
pub mod Laws
pub mod Tests
use facenox.Base.{
  ℕ, zero, suc, ◌+◌, Bool, true, false, not, ◌&&◌, ◌||◌, List, [], ◌∷◌, ◌++◌, Option, none, some,
  String, leb, ◌==◌, if◌then◌else◌, length,
}
use facenox.Base.Keys.{◌===◌, string_eq}
use facenox.JsMap.{get}
use facenox.Sync.Policy.{
  Policy, PolicyState, PolicyError, LocalAnswers, Applied, applied, failed, apply_remote_policy,
}
use facenox.Sync.Upload.{Acknowledgements, is_ok}

pub record FaceRow : Type 0 where
  pub person_id : String
  pub embedding_encrypted : String
  pub is_deleted : Bool
  pub sync_revision : ℕ

pub record Page : Type 0 where
  pub schema_version : ℕ
  pub groups : List String
  pub members : List String
  pub face_embeddings : List FaceRow
  pub policy : Option Policy
  pub has_more : Bool
  pub next_cursor : Option String

pub data PageAnswer : Type 0 where
  page_unreachable : PageAnswer
  page_http : ℕ → PageAnswer
  page : Page → PageAnswer

pub data ImportAnswer : Type 0 where
  import_unreachable import_refused imported : ImportAnswer

-- The batch import throws, or says how many templates it took and how many it could not.
pub data FacesAnswer : Type 0 where
  faces_refused : FacesAnswer
  faces_imported : ℕ → ℕ → FacesAnswer

-- What happens in one round of the loop.
pub record Round : Type 0 where
  pub answer : PageAnswer
  pub local : LocalAnswers
  pub metadata : ImportAnswer
  pub faces : FacesAnswer

-- An entry of the batch that is posted for the faces of a page.
pub record BatchRow : Type 0 where
  pub person_id : String
  pub is_deleted : Bool
  pub sync_revision : ℕ
  pub acknowledged_version : Option ℕ
  pub accepted_revision : Option ℕ

pub record PullState : Type 0 where
  pub cursor : Option String
  pub has_more : Bool
  pub page_count : ℕ
  pub embeddings : ℕ
  pub failures : ℕ
  pub policy : PolicyState
  -- the cursors that were asked for and the pages that were imported, oldest first
  pub requested : List (Option String)
  pub pages : List Page
  -- the face batches that the local service took, oldest first
  pub batches : List (List BatchRow)

pub data PullError : Type 0 where
  page_failed import_failed old_cloud too_many_pages : PullError
  policy_refused : PolicyError → PullError

pub data PullOutcome : Type 0 where
  went_on : PullState → PullOutcome
  broke_off : PullError → PullState → PullOutcome

infixl 5 ◌>>=◌
abbrev pub ◌>>=◌ : PullOutcome → (PullState → PullOutcome) → PullOutcome
went_on s >>= k = k s
broke_off e s >>= k = broke_off e s

abbrev pub max_pages : ℕ
max_pages = 100

-- A non-empty string.
abbrev pub truthy : Option String → Option String
truthy none = none
truthy (some text) = if text === "" then none else some text

abbrev pub first_state : PolicyState → PullState
first_state policy = record {
  cursor = none;
  has_more = true;
  page_count = 0;
  embeddings = 0;
  failures = 0;
  policy = policy;
  requested = [];
  pages = [];
  batches = [];
}

pub batch_row : Acknowledgements → FaceRow → BatchRow
unfolding get
batch_row acks fe = record {
  person_id = fe.person_id;
  is_deleted = fe.is_deleted;
  sync_revision = fe.sync_revision;
  acknowledged_version = get fe.person_id acks.faces;
  accepted_revision = get fe.person_id acks.accepted.faces;
}

-- The request to `import-embeddings-batch`, which is made for a batch that is not empty.
pub post_batch : FacesAnswer → List BatchRow → PullState → PullState
post_batch answer [] s = s
post_batch faces_refused (row ∷ rows) s = record s { failures = s.failures + length (row ∷ rows) }
post_batch (faces_imported count refused) (row ∷ rows) s = record s {
  embeddings = s.embeddings + count;
  failures = s.failures + refused;
  batches = s.batches ++ (row ∷ rows) ∷ [];
}

policy_outcome : PullState → Applied → PullOutcome
policy_outcome s (applied p) = went_on (record s { policy = p })
policy_outcome s (failed e p) = broke_off (policy_refused e) (record s { policy = p })

-- `if (pullPayload.policy && pageCount === 1)`
pub apply_policy : LocalAnswers → Option Policy → PullState → PullOutcome
unfolding apply_remote_policy policy_outcome
apply_policy local policy s =
    if s.page_count == 1
    then policy_outcome s (apply_remote_policy local policy s.policy)
    else went_on s

pub import_metadata : ImportAnswer → Page → PullState → PullOutcome
import_metadata imported p s = went_on (record s { pages = s.pages ++ p ∷ [] })
import_metadata _ p s = broke_off import_failed s

next_page : Option String → Bool → PullState → PullState
next_page none has_more s = record s { has_more = false }
next_page (some cursor) false s = record s { has_more = false }
next_page (some cursor) true s = record s { cursor = some cursor; has_more = true }

-- `if (pullPayload.has_more && pullPayload.next_cursor)`
pub continue_after : Page → PullState → PullState
unfolding next_page
continue_after p s = next_page (truthy p.next_cursor) p.has_more s

module _ (decrypts : String → String → Bool) (key : String) (acks : Acknowledgements) where
  -- `try { … decryptEmbedding(…) … } catch`: a deleted template needs no key.
  abbrev pub readable : FaceRow → Bool
  readable fe = fe.is_deleted || (not (key === "") && decrypts fe.embedding_encrypted key)

  -- The batch of a page, and how many of its templates could not be read.
  pub batch_of : List FaceRow → List BatchRow
  unfolding batch_row
  batch_of [] = []
  batch_of (fe ∷ rows) =
      let rest = batch_of rows in if readable fe then batch_row acks fe ∷ rest else rest

  pub unreadable : List FaceRow → ℕ
  unreadable [] = 0
  unreadable (fe ∷ rows) = let rest = unreadable rows in if readable fe then rest else rest + 1

  import_faces : FacesAnswer → List FaceRow → PullState → PullState
  unfolding post_batch batch_of unreadable
  import_faces answer rows s =
      post_batch answer (batch_of rows) (record s { failures = s.failures + unreadable rows })

  on_page : Round → Page → PullState → PullOutcome
  unfolding apply_policy import_metadata import_faces continue_after
  on_page r p s =
      if p.schema_version == 2
      then (do
        s' ← apply_policy r.local p.policy s
        s'' ← import_metadata r.metadata p s'
        went_on (continue_after p (import_faces r.faces p.face_embeddings s'')))
      else broke_off old_cloud s

  abbrev pub ask : PullState → PullState
  ask s = record s { page_count = s.page_count + 1; requested = s.requested ++ s.cursor ∷ [] }

  on_answer : Round → PageAnswer → PullState → PullOutcome
  unfolding on_page
  on_answer r page_unreachable s = broke_off page_failed s
  on_answer r (page_http status) s = broke_off page_failed s
  on_answer r (page p) s = on_page r p s

  -- One round of the `while` loop.
  pub pull_page : Round → PullState → PullOutcome
  unfolding on_answer
  pull_page r s = on_answer r r.answer (ask s)

  -- The `while` loop, by the rounds that are left of `MAX_PAGES`, and the test behind it.
  pub pull_pages : (ℕ → Round) → ℕ → PullState → PullOutcome
  unfolding pull_page
  pull_pages rounds zero s = if s.has_more then broke_off too_many_pages s else went_on s
  pull_pages rounds (suc left) s =
      let go = (do s' ← pull_page (rounds s.page_count) s; pull_pages rounds left s') in
      if s.has_more then go else went_on s

  unfoldable pub pull_metadata : (ℕ → Round) → PolicyState → PullOutcome
  unfolding pull_pages
  pull_metadata rounds policy = pull_pages rounds max_pages (first_state policy)

-- `success: totalDecryptFailures === 0`, and false where the loop was left by an error.
abbrev pub is_success : PullOutcome → Bool
is_success (went_on s) = s.failures == 0
is_success (broke_off e s) = false

abbrev pub pull_state : PullOutcome → PullState
pull_state (went_on s) = s
pull_state (broke_off e s) = s
