-- ===== src/Sync/Session/Tests.antt =====
-- Runs on a small store, and the theorems at them.
use facenox.Base.{
  ◌≢◌, inl, inr, ◌≡◌, refl, Bool, true, false, [], ◌∷◌, none, some, String, arith, take, ◌++◌,
}
use facenox.Base.Keys.{string_eq}
use facenox.Sync.Chunks.{groups, members, records, sessions, deleted_sessions, face_embeddings}
use facenox.Sync.Chunks.Tests.{envelope, prefix}
use facenox.Sync.Policy.{apply_remote_policy}
use facenox.Sync.Policy.Tests.{before}
use facenox.Sync.Upload.{PendingUpload, empty_acknowledgements, upload}
use facenox.Sync.Upload.Tests.{row, batch, busy, well}
use facenox.Sync.Pull.{pull_metadata}
use facenox.Sync.Pull.Tests.{rounds, opens}
use facenox.Sync.Session.{Connection, Store, idle, Run, Export, key_missing, perform_sync}
use facenox.Sync.Session.Laws.{Advances, perform_sync-foreign, perform_sync-Advances}

abbrev connection : Connection
connection = record {
  remote_base_url = "https://cloud";
  site_id = "site";
  device_id = "device";
  device_token = "token";
}

abbrev store : Store
store = record {
  pending_upload = some batch;
  pending_acknowledgements = none;
  last_synced_at = none;
  last_sync_status = idle;
  encryption_key = "key";
  policy = before;
}

-- The member of the first chunk is unchanged, and the other one is new.
abbrev export : Export
export = record {
  exported_at = "2026-02-02T00:00:00Z";
  groups = [];
  members = (row "m", true) ∷ (row "old", false) ∷ (row "o", true) ∷ [];
  records = [];
  sessions = [];
  deleted_sessions = [];
}

abbrev run : Run
run = record {
  key_answer = key_missing;
  export = some export;
  faces = some [];
  schema_ok = true;
  envelope = envelope;
  prefix = prefix;
  session_deletions = true;
  exchanges = well;
  suspended = false;
  rounds = rounds;
}

abbrev fits_key : String → Bool
fits_key key = true

all_sent :
    (perform_sync opens fits_key run connection false store).store.last_synced_at
    ≡ some "2026-01-01T00:00:00Z"
unfolding perform_sync upload apply_remote_policy pull_metadata
all_sent = refl

one_sent :
    (perform_sync opens fits_key
      (record run { exchanges = busy })
      connection
      false
      store).store.last_synced_at
    ≡ none
unfolding perform_sync upload apply_remote_policy pull_metadata
one_sent = refl

downloaded :
    (perform_sync opens fits_key run connection true store).store.pending_upload ≡ some batch
unfolding perform_sync upload apply_remote_policy pull_metadata
downloaded = refl

perform_sync-Advances_example :
    Advances run connection store (perform_sync opens fits_key run connection false store).store
perform_sync-Advances_example =
    perform_sync-Advances opens fits_key run connection false store (omega arith)

abbrev other_site : Connection
other_site = record connection { site_id = "other" }

other_site-ne : batch.site_id ≢ other_site.site_id
other_site-ne h = cc ((string_eq.same_iff batch.site_id other_site.site_id).1 h)

perform_sync-foreign_example :
    perform_sync opens fits_key run other_site false store
    ≡ perform_sync opens fits_key run other_site false (record store { pending_upload = none })
perform_sync-foreign_example =
    perform_sync-foreign opens fits_key run other_site false store batch refl
      (inr (inl other_site-ne)) refl

abbrev rejected_batch : PendingUpload
rejected_batch = record batch { next = 1; rejected = true }

abbrev renewed_batch : PendingUpload
renewed_batch = record {
  device_id = "device";
  site_id = "site";
  remote_base_url = "https://cloud";
  exported_at = "2026-02-02T00:00:00Z";
  chunks =
      take 1 batch.chunks
      ++ record {
        snapshot_id =
            b'd' ∷ b':' ∷ b'p' ∷ b'a' ∷ b'r' ∷ b't' ∷ b'-' ∷ b'1' ∷ b'-' ∷ b'o' ∷ b'f' ∷ b'-' ∷ b'1'
            ∷ [];
        tables =
            (groups, [])
            ∷ (members, row "o" ∷ [])
            ∷ (records, [])
            ∷ (sessions, [])
            ∷ (deleted_sessions, [])
            ∷ (face_embeddings, [])
            ∷ [];
      }
        ∷ [];
  next = 1;
  acknowledged = empty_acknowledgements;
  rejected = false;
}
