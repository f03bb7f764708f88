-- ===== src/BackendProcess/Output.antt =====
-- app/src/electron/backend/BackendProcessManager.ts: the lines of the service's standard output, which
-- arrives in chunks of bytes of any size. JSON, trimming and the decoding of the bytes of one chunk
-- by `toString` are parameters; what the developer's console prints is left out.
mod Lines
pub mod Laws
pub mod Tests
use facenox.Base.{
  ℕ, Bool, true, false, ◌&&◌, List, [], ◌∷◌, ◌++◌, Option, none, some, ◌==◌, length, drop,
  if◌then◌else◌,
}
use facenox.Base.Text.{Text, codes, starts_with}

abbrev pub newline : ℕ
newline = 10

abbrev pub carriage_return : ℕ
carriage_return = 13

abbrev pub is_newline_next : Text → Bool
is_newline_next [] = false
is_newline_next (c ∷ text) = c == newline

abbrev pub onto_first_line : ℕ → List Text → List Text
onto_first_line c [] = (c ∷ []) ∷ []
onto_first_line c (line ∷ lines) = (c ∷ line) ∷ lines

-- `text.split(/\r?\n/)`: a carriage return right before a newline belongs to the separator.
unfoldable pub split_lines : Text → List Text
split_lines [] = [] ∷ []
split_lines (c ∷ text) =
    let rest = split_lines text in
    if c == newline
    then [] ∷ rest
    else if c == carriage_return && is_newline_next text
    then rest
    else onto_first_line c rest

-- `lines.pop() ?? ""`, and the lines that are left.
abbrev pub last_line : List Text → Text
last_line [] = []
last_line (line ∷ []) = line
last_line (line ∷ next ∷ lines) = last_line (next ∷ lines)

abbrev pub without_last : List Text → List Text
without_last [] = []
without_last (line ∷ []) = []
without_last (line ∷ next ∷ lines) = line ∷ without_last (next ∷ lines)

abbrev pub progress_prefix : Text
progress_prefix = codes "FACENOX_STARTUP_PROGRESS:"

-- What has been written to the log, and the progress that the listeners have been told.
pub record Output {ℓ} (A : Type ℓ) : Type ℓ where
  pub stdout_buffer : Text
  pub logged : List Text
  pub emitted : List A

-- `parse` is JSON.parse with the reading of the fields, `none` where one of them throws.
module _ {ℓ} {A : Type ℓ} (trim : Text → Text) (parse : Text → Option A) where
  abbrev pub emit_if_some : Option A → Output A → Output A
  emit_if_some none o = o
  emit_if_some (some update) o = record o { emitted = o.emitted ++ update ∷ [] }

  unfoldable pub handle_stdout_line : Text → Output A → Output A
  handle_stdout_line line o =
      if starts_with progress_prefix (trim line)
      then emit_if_some (parse (drop (length progress_prefix) (trim line))) o
      else o

  -- `writeToBackendLog` of the line, and its progress.
  unfoldable pub take_line : Text → Output A → Output A
  unfolding handle_stdout_line
  take_line line o =
      handle_stdout_line line
        (record o { logged = o.logged ++ (codes "[STDOUT] " ++ line ++ newline ∷ []) ∷ [] })

  unfoldable pub take_lines : List Text → Output A → Output A
  unfolding take_line
  take_lines [] o = o
  take_lines (line ∷ lines) o = take_lines lines (take_line line o)

  unfoldable pub handle_stdout_chunk : Text → Output A → Output A
  unfolding split_lines take_lines
  handle_stdout_chunk chunk o =
      let lines = split_lines (o.stdout_buffer ++ chunk) in
      take_lines (without_last lines) (record o { stdout_buffer = last_line lines })

  -- The handler of `data`, on the chunks that arrive.
  unfoldable pub handle_chunks : (List ℕ → Text) → List (List ℕ) → Output A → Output A
  unfolding handle_stdout_chunk
  handle_chunks to_string [] o = o
  handle_chunks to_string (chunk ∷ chunks) o =
      handle_chunks to_string chunks (handle_stdout_chunk (to_string chunk) o)
