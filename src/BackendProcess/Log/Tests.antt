-- ===== src/BackendProcess/Log/Tests.antt =====
-- A log that is rotated.
use facenox.Base.{ℕ, ◌+◌, ◌≡◌, refl, true, false, [], ◌∷◌}
use facenox.Base.Text.{Text, codes}
use facenox.BackendProcess.Log.{Log, max_log_size, perform_rotation, on_rotation_timer, write_all}

-- For the tests, a text of one character fills the log.
abbrev bytes : Text → ℕ
bytes [] = 0
bytes (c ∷ []) = max_log_size
bytes (c ∷ d ∷ text) = 2

abbrev fresh : Log
fresh = record {
  has_stream = true;
  is_rotating = false;
  queue = [];
  size = 0;
  file = [];
  old_file = [];
}

abbrev rotating : Log
rotating = write_all bytes (codes "new") (codes "ab" ∷ codes "c" ∷ codes "de" ∷ []) fresh

rotated : on_rotation_timer bytes (codes "new") rotating ≡ record {
  has_stream = true;
  is_rotating = false;
  queue = [];
  size = max_log_size + 4;
  file = codes "new" ∷ codes "c" ∷ codes "de" ∷ [];
  old_file = codes "ab" ∷ [];
}
unfolding on_rotation_timer write_all
rotated = refl

-- When the stream closes only after the timer, its callback rotates again, and the older texts go.
rotated_twice :
    (perform_rotation bytes (codes "new") (on_rotation_timer bytes (codes "new") rotating)).old_file
    ≡ codes "new" ∷ codes "c" ∷ codes "de" ∷ []
unfolding on_rotation_timer perform_rotation write_all
rotated_twice = refl
