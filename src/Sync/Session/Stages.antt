-- ===== src/Sync/Session/Stages.antt =====
-- What the stages of a run of `performSync` keep: the stored position lies within the batch, and the
-- time of the last synchronisation moves only when a batch has been sent.
use facenox.Base.{
  ◌≤◌, ◌≡◌, refl, sym, ap, Bool, true, false, not, ◌&&◌, List, [], Option, none, some, String,
  arith, length, take, drop, length-append, length-take, take-append-drop, inl, inr, Bool-cases,
}
use facenox.Base.Keys.{string_eq}
use facenox.Sync.Chunks.{Chunk, Packing, returned, threw, rebuild_sync_chunks, max_sync_bytes, Row}
use facenox.Sync.Policy.{PolicyState}
use facenox.Sync.Upload.{
  Acknowledgements, PendingUpload, UploadState, Outcome, finished, stopped, upload,
}
use facenox.Sync.Upload.Step.{Stands, Reached}
use facenox.Sync.Upload.Loop.{upload-Reached}
use facenox.Sync.Session.{
  Connection, Store, Run, Export, Pushed, prepare, build_batch, pack_export, new_batch,
  after_upload, source_tables, exported_faces, accepted_chunks, send, push_stage, first_upload,
  removes_sessions,
}

-- The stored position lies within the batch.
abbrev pub Fits : Option PendingUpload → Type 0
Fits none = Unit {0}
Fits (some p) = p.next ≤ length p.chunks

new_batch-Fits :
    (c : Connection) (acknowledged : Acknowledgements) (accepted : List Chunk) (at : String)
    (packed : Packing (List Chunk))
    → Fits (new_batch c acknowledged accepted at packed)
unfolding new_batch
new_batch-Fits c acknowledged accepted at (threw failure) = tt
new_batch-Fits c acknowledged accepted at (returned chunks) =
    omega (arith, length-append accepted chunks)

build_batch-Fits :
    (run : Run) (c : Connection) (key : String) (acknowledged : Acknowledgements)
    (accepted : List Chunk) (export : Option Export)
    → Fits (build_batch run c key acknowledged accepted export)
unfolding build_batch pack_export
build_batch-Fits run c key acknowledged accepted none = tt
build_batch-Fits run c key acknowledged accepted (some e) = at_faces (exported_faces key run)
  where
    at_faces : (faces : Option (List Row)) → Fits (pack_export run c acknowledged accepted e faces)
    at_faces none = tt
    at_faces (some faces) = elim (Bool-cases run.schema_ok) [
      | inr bad ↦ rw bad tt
      | inl fine ↦ rw fine (
          new_batch-Fits c acknowledged accepted e.exported_at (
            rebuild_sync_chunks run.envelope run.prefix max_sync_bytes (source_tables e faces)
              accepted))
    ]

prepare-Fits :
    (run : Run) (c : Connection) (key : String) (acknowledged : Acknowledgements)
    (pending : Option PendingUpload)
    → Fits pending
    → Fits (prepare run c key acknowledged pending)
unfolding prepare
prepare-Fits run c key acknowledged none h = build_batch-Fits run c key acknowledged [] run.export
prepare-Fits run c key acknowledged (some p) h = elim (Bool-cases p.rejected) [
  | inl rejected ↦
      rw rejected (build_batch-Fits run c key acknowledged (accepted_chunks (some p)) run.export)
  | inr kept ↦ rw kept h
]

first_upload-Stands :
    (p : PendingUpload) (policy : PolicyState)
    → p.next ≤ length p.chunks
    → Stands p.chunks (take p.next p.chunks) (drop p.next p.chunks) (first_upload p policy)
unfolding first_upload
first_upload-Stands p policy h =
    let counted : p.next ≡ length (take p.next p.chunks) = sym (length-take p.next p.chunks h) in
    record {
      split = sym (take-append-drop p.next p.chunks);
      logged = refl;
      saved_chunks = refl;
      saved_next = counted;
      pending_chunks = refl;
      pending_next = counted;
    }

Stands-Fits :
    (chunks done left : List Chunk) (u : UploadState)
    → Stands chunks done left u
    → Fits (some u.saved)
Stands-Fits chunks done left u h =
    omega
      (arith, h.saved_next, ap length h.saved_chunks, ap length h.split, length-append done left)

-- A batch whose upload has ended: each of its chunks was recorded as accepted, in this run or in an
-- earlier one, once and in order.
abbrev pub Sent : Run → PendingUpload → PolicyState → Type 0
Sent run p policy =
    (u : UploadState) × (upload run.exchanges (first_upload p policy) ≡ finished u)
    × (u.pushed ≡ p.chunks)

-- What the upload stage has done with the batch that has been prepared, if any.
pub record Stage (run : Run) (prepared : Option PendingUpload) (before : Option String)
    (policy : PolicyState) (u : Pushed) : Type 0 where
  pub fits : Fits u.store.pending_upload
  pub untouched : u.store.last_synced_at ≡ before
  pub sent :
      (at : String)
      → u.pushed_at ≡ some at
      → (p : PendingUpload) × (prepared ≡ some p) × (at ≡ p.exported_at) × Sent run p policy

after_upload-Stage :
    (run : Run) (s : Store) (p : PendingUpload) (policy : PolicyState) (o : Outcome)
    → upload run.exchanges (first_upload p policy) ≡ o
    → Reached p.chunks o
    → Stage run (some p) s.last_synced_at policy (after_upload p.exported_at s o)
unfolding after_upload
after_upload-Stage run s p policy (finished u) e h = record {
  fits = Stands-Fits p.chunks p.chunks [] u h;
  untouched = refl;
  sent = λ at same. (p, refl, cc, (u, e, h.logged));
}
after_upload-Stage run s p policy (stopped er u) e (done, left, h) = record {
  fits = Stands-Fits p.chunks done left u h;
  untouched = refl;
  sent = λ at same. absurd cc;
}

send-Stage :
    (run : Run) (acknowledged : Acknowledgements) (s : Store) (prepared : Option PendingUpload)
    → Fits s.pending_upload
    → Fits prepared
    → Stage run prepared s.last_synced_at s.policy (send run acknowledged s prepared)
unfolding send
send-Stage run acknowledged s none old h = record {
  fits = old;
  untouched = refl;
  sent = λ at same. absurd cc;
}
send-Stage run acknowledged s (some p) old h =
    elim (Bool-cases (removes_sessions p && not run.session_deletions)) [
      | inl unsupported ↦
          rw unsupported (record { fits = h; untouched = refl; sent = λ at same. absurd cc })
      | inr fine ↦ rw fine (
          after_upload-Stage run (record s { pending_upload = some p }) p s.policy
            (upload run.exchanges (first_upload p s.policy)) refl
            (upload-Reached run.exchanges p.chunks (take p.next p.chunks) (drop p.next p.chunks)
              (first_upload p s.policy) (first_upload-Stands p s.policy h)))
    ]

pub push_stage-Stage :
    (run : Run) (c : Connection) (pull_only : Bool) (pending : Option PendingUpload)
    (acknowledged : Acknowledgements) (s : Store)
    → Fits s.pending_upload
    → Fits pending
    → Stage run
        (prepare run c s.encryption_key acknowledged pending)
        s.last_synced_at
        s.policy
        (push_stage run c pull_only pending acknowledged s)
unfolding push_stage
push_stage-Stage run c true pending acknowledged s old h = record {
  fits = old;
  untouched = refl;
  sent = λ at same. absurd cc;
}
push_stage-Stage run c false pending acknowledged s old h =
    send-Stage run acknowledged s (prepare run c s.encryption_key acknowledged pending) old
      (prepare-Fits run c s.encryption_key acknowledged pending h)
