-- ===== src/Sync/Upload.antt =====
-- app/src/electron/managers/BackgroundSyncManager.ts: the upload of the pending chunks, which is the
-- loop over `pending.chunks` in `performSync`, with the acknowledgements that it collects.
--
-- The Cloud is seen through its answers, one for each request. `saved` is the value of
-- `sync.pendingUpload` in the persistent store and `pending` the object in memory; the object
-- `acknowledged` is a field of it. Error texts are left out: an error is a constructor.
pub mod Step
pub mod Loop
pub mod Accepted
pub mod Tests
use facenox.Base.{
  ℕ, zero, suc, ◌+◌, Bool, true, false, not, ◌&&◌, ◌||◌, List, [], ◌∷◌, ◌++◌, Option, none, some,
  String, leb, ◌==◌, if◌then◌else◌, any, drop,
}
use facenox.Base.Keys.{◌===◌, string_eq}
use facenox.JsMap.{JsMap, set_all}
use facenox.Sync.Chunks.{
  Row, Kind, groups, members, face_embeddings, deleted_sessions, Chunk, rows_of,
}
use facenox.Sync.Policy.{
  Policy, PolicyState, PolicyError, LocalAnswers, applied, failed, Applied, apply_remote_policy,
}

-- `Record<string, number>`
abbrev pub Versions : Type 0
Versions = JsMap String ℕ

pub record AcceptedRevisions : Type 0 where
  pub groups : Versions
  pub members : Versions
  pub faces : Versions

pub record Acknowledgements : Type 0 where
  pub groups : Versions
  pub members : Versions
  pub faces : Versions
  pub accepted : AcceptedRevisions

abbrev pub empty_acknowledgements : Acknowledgements
empty_acknowledgements = record {
  groups = [];
  members = [];
  faces = [];
  accepted = record { groups = []; members = []; faces = [] };
}

abbrev versioned : List Row → List (String × ℕ)
versioned [] = []
versioned (row ∷ rows) = (row.key, row.version) ∷ versioned rows

-- The ids of an array of the chunk, each with its version.
pub versions : Kind → Chunk → List (String × ℕ)
unfolding rows_of
versions kind chunk = versioned (rows_of kind chunk.tables)

abbrev keys : List Row → List String
keys [] = []
keys (row ∷ rows) = row.key ∷ keys rows

pub ids : Kind → Chunk → List String
unfolding rows_of
ids kind chunk = keys (rows_of kind chunk.tables)

pub record PendingUpload : Type 0 where
  pub device_id : String
  pub site_id : String
  pub remote_base_url : String
  pub exported_at : String
  pub chunks : List Chunk
  pub next : ℕ
  pub acknowledged : Acknowledgements
  pub rejected : Bool

-- A response; the fields of a body that is no JSON are absent.
pub record Reply : Type 0 where
  pub status : ℕ
  pub retry_after_ms : ℕ
  pub conflicts : ℕ
  pub deleted_session_ids : List String
  pub accepted : Option AcceptedRevisions
  pub policy : Option Policy

pub data Answer : Type 0 where
  unreachable : Answer
  answered : Reply → Answer

-- The answer of the Cloud to a request, and those of the local service to the policy in it.
pub record Exchange : Type 0 where
  pub answer : Answer
  pub local : LocalAnswers

pub record UploadState : Type 0 where
  pub pending : PendingUpload
  pub saved : PendingUpload
  pub conflicts : ℕ
  pub policy : PolicyState
  -- the delays given to `triggerDebouncedSync`
  pub debounced : List ℕ
  -- the chunks that were recorded as accepted, oldest first
  pub pushed : List Chunk

pub data PushError : Type 0 where
  network deletions_unconfirmed : PushError
  http : ℕ → PushError
  policy_refused : PolicyError → PushError

pub data Outcome : Type 0 where
  finished : UploadState → Outcome
  stopped : PushError → UploadState → Outcome

infixl 5 ◌>>=◌
abbrev pub ◌>>=◌ : Outcome → (UploadState → Outcome) → Outcome
finished s >>= k = k s
stopped e s >>= k = stopped e s

-- `Response.ok`
abbrev pub is_ok : ℕ → Bool
is_ok status = leb 200 status && leb status 299

-- `[400, 402, 422].includes(remote.status)`
abbrev pub is_rejection : ℕ → Bool
is_rejection status = status == 400 || (status == 402 || status == 422)

abbrev is_among : List String → String → Bool
is_among ids id = any (λ other. other === id) ids

abbrev pub any_unconfirmed : List String → List String → Bool
any_unconfirmed rows confirmed = any (λ id. not (is_among confirmed id)) rows

-- `if (remote.status === 429) this.triggerDebouncedSync(result.retryAfterMs || 5000)`
note_retry : Reply → UploadState → UploadState
note_retry r s =
    if r.status == 429
    then record s {
      debounced = s.debounced ++ (if r.retry_after_ms == 0 then 5000 else r.retry_after_ms) ∷ [];
    }
    else s

merge_accepted : Option AcceptedRevisions → AcceptedRevisions → AcceptedRevisions
unfolding set_all
merge_accepted none old = old
merge_accepted (some new) old = record {
  groups = set_all old.groups new.groups;
  members = set_all old.members new.members;
  faces = set_all old.faces new.faces;
}

-- The three loops over the rows of the chunk, and `Object.assign` of the accepted revisions.
pub acknowledge : Chunk → Reply → Acknowledgements → Acknowledgements
unfolding set_all merge_accepted versions
acknowledge payload r old = record {
  groups = set_all old.groups (versions groups payload);
  members = set_all old.members (versions members payload);
  faces = set_all old.faces (versions face_embeddings payload);
  accepted = merge_accepted r.accepted old.accepted;
}

reject : UploadState → UploadState
reject s =
    let pending = record s.pending { rejected = true } in
    record s { pending = pending; saved = pending }

-- The acknowledgements reach the object in memory before the policy is applied, and the store
-- after it.
collect : Chunk → Reply → UploadState → UploadState
unfolding acknowledge
collect payload r s = record s {
  pending = record s.pending { acknowledged = acknowledge payload r s.pending.acknowledged };
  conflicts = s.conflicts + r.conflicts;
}

advance : Chunk → ℕ → UploadState → UploadState
advance payload i s =
    let pending = record s.pending { next = i + 1 } in
    record s { pending = pending; saved = pending; pushed = s.pushed ++ payload ∷ [] }

after_policy : Chunk → ℕ → UploadState → Applied → Outcome
unfolding advance
after_policy payload i s (applied policy) =
    finished (advance payload i (record s { policy = policy }))
after_policy payload i s (failed e policy) =
    stopped (policy_refused e) (record s { policy = policy })

-- The body of the loop for the chunk `i`, after its answer.
pub on_reply : Reply → LocalAnswers → Chunk → ℕ → UploadState → Outcome
unfolding note_retry reject collect after_policy ids
on_reply r local payload i s =
    let noted = note_retry r s in
    if is_ok r.status
    then (if any_unconfirmed (ids deleted_sessions payload) r.deleted_session_ids
        then stopped deletions_unconfirmed noted
        else after_policy payload i (collect payload r noted)
            (apply_remote_policy local r.policy noted.policy))
    else stopped (http r.status) (if is_rejection r.status then reject noted else noted)

pub push_one : Exchange → Chunk → ℕ → UploadState → Outcome
unfolding on_reply
push_one ex payload i s = elim ex.answer [
  | unreachable ↦ stopped network s
  | answered r ↦ on_reply r ex.local payload i s
]

-- The loop over the chunks from `i` on; `exchanges i` is what happens to the request for chunk `i`.
pub push_all : (ℕ → Exchange) → List Chunk → ℕ → UploadState → Outcome
unfolding push_one
push_all exchanges [] i s = finished s
push_all exchanges (payload ∷ left) i s = do
  s' ← push_one (exchanges i) payload i s
  push_all exchanges left (i + 1) s'

-- `for (let i = pending.next; i < pending.chunks.length; i++)`
unfoldable pub upload : (ℕ → Exchange) → UploadState → Outcome
unfolding push_all
upload exchanges s = push_all exchanges (drop s.pending.next s.pending.chunks) s.pending.next s
