-- ===== src/Sync/Upload/Loop.antt =====
-- Where an upload stands after any number of attempts: the chunks recorded as accepted are a prefix
-- of the pending ones, each once and in order, and an attempt goes on where the last one stopped.
use facenox.Base.{
  ℕ, ◌≤◌, ◌≡◌, refl, sym, ◌∙◌, ap, List, [], ◌∷◌, ◌++◌, arith, length, length-append, drop, take,
}
use facenox.Sync.Chunks.{Chunk}
use facenox.Sync.Upload.{PendingUpload, Exchange, UploadState, Outcome, finished, stopped, upload}
use facenox.Sync.Upload.Step.{push_all-Reached, Stands, Reached}

-- An attempt on the batch that the store holds.
unfoldable pub reload : UploadState → UploadState
reload s = record s { pending = s.saved }

abbrev pub state_of : Outcome → UploadState
state_of (finished s) = s
state_of (stopped e s) = s

unfoldable pub attempts : List (ℕ → Exchange) → UploadState → UploadState
unfolding reload
attempts [] s = s
attempts (exchanges ∷ more) s = attempts more (state_of (upload exchanges (reload s)))

pub drop-length : (done left : List Chunk) → drop (length done) (done ++ left) ≡ left
drop-length [] left = refl
drop-length (payload ∷ done) left = drop-length done left

pub take-length : (done left : List Chunk) → take (length done) (done ++ left) ≡ done
take-length [] left = refl
take-length (payload ∷ done) left = ap (◌∷◌ payload) (take-length done left)

pub upload-Reached :
    (exchanges : ℕ → Exchange) (chunks done left : List Chunk) (s : UploadState)
    → Stands chunks done left s
    → Reached chunks (upload exchanges s)
unfolding upload
upload-Reached exchanges chunks done left s h =
    let rest : drop s.pending.next s.pending.chunks ≡ left =
      rw (h.pending_next, h.pending_chunks, h.split) (drop-length done left) in
    rw rest (push_all-Reached exchanges chunks done left s.pending.next s h h.pending_next)

reload-Stands :
    (chunks done left : List Chunk) (s : UploadState)
    → Stands chunks done left s
    → Stands chunks done left (reload s)
unfolding reload
reload-Stands chunks done left s h = record {
  split = h.split;
  logged = h.logged;
  saved_chunks = h.saved_chunks;
  saved_next = h.saved_next;
  pending_chunks = h.saved_chunks;
  pending_next = h.saved_next;
}

abbrev Somewhere : List Chunk → UploadState → Type 0
Somewhere chunks s = (done : List Chunk) × (left : List Chunk) × Stands chunks done left s

Reached-Somewhere :
    (chunks : List Chunk) (o : Outcome) → Reached chunks o → Somewhere chunks (state_of o)
Reached-Somewhere chunks (finished s) h = (chunks, [], h)
Reached-Somewhere chunks (stopped e s) h = h

attempts-Stands :
    (exs : List (ℕ → Exchange)) (chunks : List Chunk) (s : UploadState)
    → Somewhere chunks s
    → Somewhere chunks (attempts exs s)
unfolding attempts
attempts-Stands [] chunks s h = h
attempts-Stands (exchanges ∷ more) chunks s (done, left, h) =
    attempts-Stands more chunks (state_of (upload exchanges (reload s))) (
      Reached-Somewhere chunks (upload exchanges (reload s))
        (upload-Reached exchanges chunks done left (reload s) (reload-Stands chunks done left s h)))

start-Stands :
    (s : UploadState)
    → s.pending ≡ s.saved
    → s.saved.next ≡ 0
    → s.pushed ≡ []
    → Stands s.saved.chunks [] s.saved.chunks s
start-Stands s same zeroed none_yet = record {
  split = refl;
  logged = none_yet;
  saved_chunks = refl;
  saved_next = zeroed;
  pending_chunks = ap (λ (p : PendingUpload). p.chunks) same;
  pending_next = ap (λ (p : PendingUpload). p.next) same ∙ zeroed;
}

-- A new batch stays the same over any number of interrupted attempts, whatever the Cloud answers.
-- After them the chunks that were recorded as accepted are exactly those below the stored `next`,
-- each once and in their order, and `next` is at most the number of chunks.
pub attempts-pushed :
    (exs : List (ℕ → Exchange)) (s : UploadState)
    → s.pending ≡ s.saved
    → s.saved.next ≡ 0
    → s.pushed ≡ []
    → let after = attempts exs s in
      (after.saved.chunks ≡ s.saved.chunks)
      × (after.pushed ≡ take after.saved.next s.saved.chunks)
      × (after.saved.next ≤ length s.saved.chunks)
attempts-pushed exs s same zeroed none_yet =
    let (done, left, h) =
      attempts-Stands exs s.saved.chunks s
        ([], s.saved.chunks, start-Stands s same zeroed none_yet) in
    (
      h.saved_chunks,
      rw (h.logged, h.saved_next, h.split) (sym (take-length done left)),
      omega (arith, h.saved_next, ap length h.split, length-append done left),
    )

-- If an attempt after any number of interrupted ones ends without an error, every chunk of the batch
-- has been recorded as accepted, once and in order.
pub upload-finished :
    (exs : List (ℕ → Exchange)) (exchanges : ℕ → Exchange) (s s' : UploadState)
    → s.pending ≡ s.saved
    → s.saved.next ≡ 0
    → s.pushed ≡ []
    → upload exchanges (reload (attempts exs s)) ≡ finished s'
    → s'.pushed ≡ s.saved.chunks
upload-finished exs exchanges s s' same zeroed none_yet e =
    let (done, left, h) =
      attempts-Stands exs s.saved.chunks s
        ([], s.saved.chunks, start-Stands s same zeroed none_yet) in
    let reached : Reached s.saved.chunks (upload exchanges (reload (attempts exs s))) =
      upload-Reached exchanges s.saved.chunks done left (reload (attempts exs s))
        (reload-Stands s.saved.chunks done left (attempts exs s) h) in
    let at_end : Stands s.saved.chunks s.saved.chunks [] s' = rw e at reached in at_end.logged
