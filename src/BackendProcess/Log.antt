-- ===== src/BackendProcess/Log.antt =====
-- app/src/electron/backend/BackendProcessManager.ts: the log of the local service and its rotation.
-- A file is the list of the texts written to it. The stream that a rotation closes calls back, and
-- so does a timer, which looks first whether the rotation is still to be done. Errors of the file
-- system are left out.
pub mod Laws
pub mod Tests
use facenox.Base.{
  ℕ, ◌+◌, Bool, true, false, not, ◌&&◌, ◌||◌, List, [], ◌∷◌, ◌++◌, ltb, if◌then◌else◌,
}
use facenox.Base.Text.{Text}

abbrev pub max_log_size : ℕ
max_log_size = 5242880

pub record Log : Type 0 where
  pub has_stream : Bool
  pub is_rotating : Bool
  pub queue : List Text
  pub size : ℕ
  pub file : List Text
  pub old_file : List Text

module _ (byte_length : Text → ℕ) (notice : Text) where
  unfoldable pub total_length : List Text → ℕ
  total_length [] = 0
  total_length (text ∷ texts) = byte_length text + total_length texts

  -- `performRotation`: the notice and the texts that wait stand in the new file.
  unfoldable pub perform_rotation : Log → Log
  unfolding total_length
  perform_rotation l = record {
    has_stream = true;
    is_rotating = false;
    queue = [];
    size = byte_length notice + total_length l.queue;
    file = notice ∷ l.queue;
    old_file = l.file;
  }

  -- `rotateBackendLog`, which performs the rotation at once if there is no stream to close.
  unfoldable pub rotate_backend_log : Log → Log
  unfolding perform_rotation
  rotate_backend_log l =
      if l.is_rotating
      then l
      else if l.has_stream
      then record l { is_rotating = true; has_stream = false }
      else perform_rotation (record l { is_rotating = true })

  abbrev enqueue : Text → Log → Log
  enqueue text l = record l { queue = l.queue ++ text ∷ [] }

  unfoldable pub write_to_backend_log : Text → Log → Log
  unfolding rotate_backend_log
  write_to_backend_log text l =
      if l.is_rotating || not l.has_stream
      then enqueue text l
      else if ltb max_log_size (l.size + byte_length text)
      then rotate_backend_log (enqueue text l)
      else record l { file = l.file ++ text ∷ []; size = l.size + byte_length text }

  -- The callback of the timer.
  unfoldable pub on_rotation_timer : Log → Log
  unfolding perform_rotation
  on_rotation_timer l = if l.is_rotating && not l.has_stream then perform_rotation l else l

  unfoldable pub write_all : List Text → Log → Log
  unfolding write_to_backend_log
  write_all [] l = l
  write_all (text ∷ texts) l = write_all texts (write_to_backend_log text l)
