-- ===== src/Sync/Session.antt =====
-- app/src/electron/managers/BackgroundSyncManager.ts: `performSync` from the test of the connection
-- to the result. The flags that keep two runs apart are modelled in Sync/Gate.antt.
--
-- A run is seen through the answers that it meets: those of the Cloud, and those of the local
-- service, whose export comes as `normalizeAttendanceExportForRemote` leaves it. `key_fits` says
-- whether a text decodes to 32 bytes, and `schema_ok` whether the payload passes the schema of
-- app/src/shared/syncContract.ts. Message texts are left out.
mod Stages
pub mod Laws
pub mod Rebuild
mod Tests
use facenox.Base.{
  ℕ, ◌+◌, Bool, true, false, not, ◌&&◌, ◌||◌, List, [], ◌∷◌, ◌++◌, Option, none, some, String,
  length, take, drop, any, ltb, ◌==◌, if◌then◌else◌,
}
use facenox.Base.Keys.{◌===◌, string_eq}
use facenox.Sync.Chunks.{
  Bytes, Row, Table, Chunk, Envelope, Packing, returned, threw, groups, members, records, sessions,
  deleted_sessions, face_embeddings, rows_of, rebuild_sync_chunks, max_sync_bytes,
}
use facenox.Sync.Policy.{PolicyState, keep_or}
use facenox.Sync.Upload.{
  Acknowledgements, empty_acknowledgements, PendingUpload, Exchange, UploadState, Outcome, finished,
  stopped, upload,
}
use facenox.Sync.Pull.{Round, truthy, pull_metadata, pull_state, is_success}

pub record Connection : Type 0 where
  pub remote_base_url : String
  pub site_id : String
  pub device_id : String
  pub device_token : String

pub data Status : Type 0 where
  idle success error : Status

-- The keys of the persistent store that a run reads and writes.
pub record Store : Type 0 where
  pub pending_upload : Option PendingUpload
  pub pending_acknowledgements : Option Acknowledgements
  pub last_synced_at : Option String
  pub last_sync_status : Status
  pub encryption_key : String
  pub policy : PolicyState

-- A refused request that is not 404 is `key_refused`.
pub data KeyAnswer : Type 0 where
  key_refused key_missing : KeyAnswer
  key_found : Option String → Option String → KeyAnswer

-- A group or a member stands beside `sync_dirty !== false`.
pub record Export : Type 0 where
  pub exported_at : String
  pub groups : List (Row × Bool)
  pub members : List (Row × Bool)
  pub records : List Row
  pub sessions : List Row
  pub deleted_sessions : List Row

-- `none` where the local service refuses an export.
pub record Run : Type 0 where
  pub key_answer : KeyAnswer
  pub export : Option Export
  pub faces : Option (List Row)
  pub schema_ok : Bool
  pub envelope : Envelope
  pub prefix : Bytes
  pub session_deletions : Bool
  pub exchanges : ℕ → Exchange
  pub suspended : Bool
  pub rounds : ℕ → Round

abbrev pub is_complete : Connection → Bool
is_complete c = not (
    c.remote_base_url === "" || (c.site_id === "" || (c.device_id === "" || c.device_token === "")))

-- The test whether a pending upload belongs to another connection.
abbrev pub is_foreign : Connection → PendingUpload → Bool
is_foreign c p =
    not (p.device_id === c.device_id)
    || (not (p.site_id === c.site_id) || not (p.remote_base_url === c.remote_base_url))

pub own_pending : Connection → Option PendingUpload → Option PendingUpload
own_pending c none = none
own_pending c (some p) = if is_foreign c p then none else some p

-- `pending?.acknowledged ?? persistentStore.get("sync.pendingAcknowledgements") ?? empty`
pub first_acknowledged : Option PendingUpload → Option Acknowledgements → Acknowledgements
first_acknowledged (some p) kept = p.acknowledged
first_acknowledged none (some kept) = kept
first_acknowledged none none = empty_acknowledgements

abbrev is_site : Option String → String → Bool
is_site none site = false
is_site (some id) site = id === site

-- What the key request ends in: an error, no key, or a key to be stored.
pub data KeyResult : Type 0 where
  key_error no_key : KeyResult
  new_key : String → KeyResult

module _ (key_fits : String → Bool) where
  check_key : Connection → Option String → Option String → KeyResult
  check_key c site none = no_key
  check_key c site (some key) =
      if is_site site c.site_id && key_fits key then new_key key else key_error

  fetch_key : Connection → KeyAnswer → KeyResult
  unfolding check_key
  fetch_key c key_refused = key_error
  fetch_key c key_missing = no_key
  fetch_key c (key_found site key) = check_key c site (truthy key)

abbrev dirty : List (Row × Bool) → List Row
dirty [] = []
dirty ((row, changed) ∷ rows) = let rest = dirty rows in if changed then row ∷ rest else rest

-- `attendance_export` of the payload.
pub source_tables : Export → List Row → List Table
source_tables e faces =
    (groups, dirty e.groups)
    ∷ (members, dirty e.members)
    ∷ (records, e.records)
    ∷ (sessions, e.sessions)
    ∷ (deleted_sessions, e.deleted_sessions)
    ∷ (face_embeddings, faces)
    ∷ []

-- Face templates are exported only with a key.
abbrev pub exported_faces : String → Run → Option (List Row)
exported_faces key run = if key === "" then some [] else run.faces

abbrev pub accepted_chunks : Option PendingUpload → List Chunk
accepted_chunks none = []
accepted_chunks (some p) = take p.next p.chunks

new_batch :
    Connection
    → Acknowledgements
    → List Chunk
    → String
    → Packing (List Chunk)
    → Option PendingUpload
new_batch c acknowledged accepted exported_at (threw failure) = none
new_batch c acknowledged accepted exported_at (returned chunks) = some (record {
  device_id = c.device_id;
  site_id = c.site_id;
  remote_base_url = c.remote_base_url;
  exported_at = exported_at;
  chunks = accepted ++ chunks;
  next = length accepted;
  acknowledged = acknowledged;
  rejected = false;
})

pack_export :
    Run
    → Connection
    → Acknowledgements
    → List Chunk
    → Export
    → Option (List Row)
    → Option PendingUpload
unfolding new_batch source_tables rebuild_sync_chunks
pack_export run c acknowledged accepted e none = none
pack_export run c acknowledged accepted e (some faces) =
    if run.schema_ok
    then new_batch c acknowledged accepted e.exported_at (
        rebuild_sync_chunks run.envelope run.prefix max_sync_bytes (source_tables e faces) accepted)
    else none

-- The new batch, and `none` where the export, its packing or the schema throws.
build_batch :
    Run → Connection → String → Acknowledgements → List Chunk → Option Export → Option PendingUpload
unfolding pack_export
build_batch run c key acknowledged accepted none = none
build_batch run c key acknowledged accepted (some e) =
    pack_export run c acknowledged accepted e (exported_faces key run)

-- `if (!pending || pending.rejected)`
pub prepare :
    Run → Connection → String → Acknowledgements → Option PendingUpload → Option PendingUpload
unfolding build_batch
prepare run c key acknowledged none = build_batch run c key acknowledged [] run.export
prepare run c key acknowledged (some p) =
    let rebuilt = build_batch run c key acknowledged (accepted_chunks (some p)) run.export in
    if p.rejected then rebuilt else some p

abbrev has_rows : List Row → Bool
has_rows rows = ltb 0 (length rows)

-- Whether a chunk that is still to be sent removes sessions.
pub removes_sessions : PendingUpload → Bool
unfolding rows_of
removes_sessions p =
    any (λ (chunk : Chunk). has_rows (rows_of deleted_sessions chunk.tables)) (drop p.next p.chunks)

-- What the upload leaves: the store, the object `acknowledged`, and `exportedAt` if `pushed`.
pub record Pushed : Type 0 where
  pub store : Store
  pub acknowledged : Acknowledgements
  pub pushed_at : Option String
  pub failed : Bool

-- The state in which the loop over the chunks starts; the chunks below `next` were recorded before.
pub first_upload : PendingUpload → PolicyState → UploadState
first_upload p policy = record {
  pending = p;
  saved = p;
  conflicts = 0;
  policy = policy;
  debounced = [];
  pushed = take p.next p.chunks;
}

after_upload : String → Store → Outcome → Pushed
after_upload exported_at s (finished u) = record {
  store = record s { pending_upload = some u.saved; policy = u.policy };
  acknowledged = u.pending.acknowledged;
  pushed_at = some exported_at;
  failed = false;
}
after_upload exported_at s (stopped e u) = record {
  store = record s { pending_upload = some u.saved; policy = u.policy };
  acknowledged = u.pending.acknowledged;
  pushed_at = none;
  failed = true;
}

-- Nothing was sent: `failed` is false where only a download was asked for.
abbrev unsent : Bool → Acknowledgements → Store → Pushed
unsent failed acknowledged s = record {
  store = s;
  acknowledged = acknowledged;
  pushed_at = none;
  failed = failed;
}

-- The batch, which is in the store by now, and the upload of its chunks.
pub send : Run → Acknowledgements → Store → Option PendingUpload → Pushed
unfolding removes_sessions after_upload first_upload upload
send run acknowledged s none = unsent true acknowledged s
send run acknowledged s (some p) =
    let s' = record s { pending_upload = some p } in
    if removes_sessions p && not run.session_deletions
    then unsent true acknowledged s'
    else after_upload p.exported_at s' (upload run.exchanges (first_upload p s.policy))

pub push_stage : Run → Connection → Bool → Option PendingUpload → Acknowledgements → Store → Pushed
unfolding prepare send
push_stage run c pull_only pending acknowledged s =
    if pull_only
    then unsent false acknowledged s
    else send run acknowledged s (prepare run c s.encryption_key acknowledged pending)

pub record Report : Type 0 where
  pub store : Store
  pub success : Bool

abbrev pub pushed_time : Option String → Option String
pushed_time none = none
pushed_time (some at) = truthy (some at)

abbrev pub cleared : Option String → Option PendingUpload → Option PendingUpload
cleared none pending = pending
cleared (some at) pending = none

module _ (decrypts : String → String → Bool) (key_fits : String → Bool) where
  -- The download and what the run leaves in the store.
  pub finish : Run → Bool → Pushed → Report
  unfolding pull_metadata
  finish run key_failed u =
      let pull =
        pull_metadata decrypts u.store.encryption_key u.acknowledged run.rounds u.store.policy in
      let ok = is_success pull in
      let succeeded = not u.failed && (not key_failed && ok) in
      if run.suspended then record { store = u.store; success = false } else record {
        store = record {
          pending_upload = cleared u.pushed_at u.store.pending_upload;
          pending_acknowledgements = if ok then none else some u.acknowledged;
          last_synced_at = keep_or (pushed_time u.pushed_at) u.store.last_synced_at;
          last_sync_status = if succeeded then success else error;
          encryption_key = u.store.encryption_key;
          policy = (pull_state pull).policy;
        };
        success = succeeded;
      }

  with_key :
      Run → Connection → Bool → Option PendingUpload → Acknowledgements → Store → KeyResult → Report
  unfolding finish push_stage
  with_key run c pull_only pending acknowledged s key_error =
      finish run true (push_stage run c pull_only pending acknowledged s)
  with_key run c pull_only pending acknowledged s no_key =
      finish run false (push_stage run c pull_only pending acknowledged s)
  with_key run c pull_only pending acknowledged s (new_key key) =
      finish run false
        (push_stage run c pull_only pending acknowledged (record s { encryption_key = key }))

  -- A run on a complete connection.
  run_sync : Run → Connection → Bool → Store → Report
  unfolding own_pending first_acknowledged with_key fetch_key
  run_sync run c pull_only s =
      let pending = own_pending c s.pending_upload in
      let acknowledged = first_acknowledged pending s.pending_acknowledgements in
      let s' = record s { pending_upload = pending } in
      let fetched =
        if s.encryption_key === "" then fetch_key key_fits c run.key_answer else no_key in
      with_key run c pull_only pending acknowledged s' fetched

  pub perform_sync : Run → Connection → Bool → Store → Report
  unfolding run_sync
  perform_sync run c pull_only s =
      if is_complete c then run_sync run c pull_only s else record { store = s; success = false }
