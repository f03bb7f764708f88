-- ===== src/Sync/Upload/Tests.antt =====
-- A batch of two chunks that is sent in two attempts, and the theorems at that run.
use facenox.Base.{
  ℕ, zero, suc, ◌≤◌, ◌≡◌, refl, true, false, [], ◌∷◌, none, some, String, Elem, length, take,
}
use facenox.Base.Keys.{string_eq}
use facenox.JsMap.{get}
use facenox.JsMap.Laws.{last_value}
use facenox.Sync.Policy.{apply_remote_policy}
use facenox.Sync.Policy.Tests.{before, willing}
use facenox.Sync.Chunks.{Row, Chunk, groups, members, face_embeddings, deleted_sessions}
use facenox.Sync.Upload.{
  Reply, answered, Exchange, UploadState, PendingUpload, finished, stopped, http,
  deletions_unconfirmed, push_one, upload, empty_acknowledgements, is_ok, versions, ids,
}
use facenox.Sync.Upload.Loop.{reload, state_of, attempts, attempts-pushed, upload-finished}
use facenox.Sync.Upload.Accepted.{push_one-accepted}

abbrev pub row : String → Row
row key = record { key = key; json = b'{' ∷ b'}' ∷ []; fingerprint = key; version = 7 }

abbrev pub first : Chunk
first = record {
  snapshot_id = b'1' ∷ [];
  tables = (members, row "m" ∷ []) ∷ (deleted_sessions, row "d" ∷ []) ∷ [];
}

abbrev pub second : Chunk
second = record { snapshot_id = b'2' ∷ []; tables = (members, row "n" ∷ []) ∷ [] }

abbrev pub batch : PendingUpload
batch = record {
  device_id = "device";
  site_id = "site";
  remote_base_url = "https://cloud";
  exported_at = "2026-01-01T00:00:00Z";
  chunks = first ∷ second ∷ [];
  next = 0;
  acknowledged = empty_acknowledgements;
  rejected = false;
}

abbrev pub start : UploadState
start = record {
  pending = batch;
  saved = batch;
  conflicts = 0;
  policy = before;
  debounced = [];
  pushed = [];
}

abbrev pub reply : ℕ → Reply
reply status = record {
  status = status;
  retry_after_ms = 0;
  conflicts = 1;
  deleted_session_ids = "d" ∷ [];
  accepted = none;
  policy = none;
}

abbrev pub taken : Exchange
taken = record { answer = answered (reply 200); local = willing }

-- The first chunk is taken, and the second is turned down for now.
abbrev pub busy : ℕ → Exchange
busy zero = taken
busy (suc i) = record { answer = answered (reply 429); local = willing }

abbrev pub well : ℕ → Exchange
well i = taken

abbrev sent_one : UploadState
sent_one = attempts (busy ∷ []) start

abbrev sent_all : UploadState
sent_all = state_of (upload well (reload sent_one))

stays_behind : upload busy start ≡ stopped (http 429) sent_one
unfolding attempts reload upload apply_remote_policy
stays_behind = refl

asks_again : sent_one.debounced ≡ 5000 ∷ []
unfolding attempts reload upload apply_remote_policy
asks_again = refl

goes_on : upload well (reload sent_one) ≡ finished sent_all
unfolding attempts reload upload apply_remote_policy
goes_on = refl

not_confirmed :
    (s : UploadState) × (push_one
        (record {
          answer = answered (record (reply 200) { deleted_session_ids = [] });
          local = willing;
        })
        first
        0
        start
      ≡ stopped deletions_unconfirmed s)
unfolding push_one apply_remote_policy
not_confirmed = (_, refl)

rejected :
    (state_of
      (push_one (record taken { answer = answered (reply 422) }) first 0 start)).saved.rejected
    ≡ true
unfolding push_one apply_remote_policy
rejected = refl

attempts-pushed_example :
    (sent_one.saved.chunks ≡ start.saved.chunks)
    × (sent_one.pushed ≡ take sent_one.saved.next start.saved.chunks)
    × (sent_one.saved.next ≤ length start.saved.chunks)
attempts-pushed_example = attempts-pushed (busy ∷ []) start refl refl refl

upload-finished_example : sent_all.pushed ≡ first ∷ second ∷ []
upload-finished_example = upload-finished (busy ∷ []) well start sent_all refl refl refl goes_on

abbrev after_first : UploadState
after_first = state_of (push_one taken first 0 start)

first-taken : push_one taken first 0 start ≡ finished after_first
unfolding push_one apply_remote_policy
first-taken = refl

push_one-accepted_example :
    (r : Reply) × (taken.answer ≡ answered r)
    × (is_ok r.status ≡ true)
    × (after_first.saved.next ≡ 1)
    × ((id : String) → Elem id (ids deleted_sessions first) → Elem id r.deleted_session_ids)
    × ((id : String) (version : ℕ)
        → last_value id (versions groups first) ≡ some version
        → get id after_first.saved.acknowledged.groups ≡ some version)
    × ((id : String) (version : ℕ)
        → last_value id (versions members first) ≡ some version
        → get id after_first.saved.acknowledged.members ≡ some version)
    × ((id : String) (version : ℕ)
        → last_value id (versions face_embeddings first) ≡ some version
        → get id after_first.saved.acknowledged.faces ≡ some version)
push_one-accepted_example = push_one-accepted taken first 0 start after_first first-taken
