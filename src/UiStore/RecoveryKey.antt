-- ===== src/UiStore/RecoveryKey.antt =====
-- app/src/utils/recoveryKey.ts: the recovery key of the administrator's PIN, as code units.
-- `toUpperCase` is a parameter; `trim` only removes characters that the filter removes as well.
use facenox.Base.{
  ℕ, Bool, true, false, ◌&&◌, ◌||◌, List, [], ◌∷◌, ◌++◌, Option, none, some, leb, keep, get_elem?,
}
use facenox.Base.Keys.{◌===◌, nat_eq, list_eq}
use facenox.Base.Text.{Text, codes}

abbrev pub unambiguous_chars : Text
unambiguous_chars = codes "23456789ABCDEFGHJKLMNPQRSTUVWXYZ"

-- `UNAMBIGUOUS_CHARS.charAt(i)`
abbrev pub char_at : Option ℕ → Text
char_at none = []
char_at (some c) = c ∷ []

abbrev pub drawn : List ℕ → Text
drawn [] = []
drawn (i ∷ draws) = char_at (get_elem? unambiguous_chars i) ++ drawn draws

-- With the random numbers of the two parts.
unfoldable pub generate_recovery_key : List ℕ → List ℕ → Text
generate_recovery_key first second = drawn first ++ b'-' ∷ drawn second

-- `[A-Z0-9]`
abbrev pub is_key_char : ℕ → Bool
is_key_char c = leb b'A' c && leb c b'Z' || (leb b'0' c && leb c b'9')

module _ (to_upper_case : Text → Text) where
  unfoldable pub normalize_recovery_key : Text → Text
  normalize_recovery_key key = keep is_key_char (to_upper_case key)

  abbrev pub is_text : Text → Bool
  is_text [] = false
  is_text _ = true

  unfoldable pub compare_recovery_keys : Text → Text → Bool
  unfolding normalize_recovery_key
  compare_recovery_keys input target =
      is_text (normalize_recovery_key input)
      && (is_text (normalize_recovery_key target)
          && normalize_recovery_key input === normalize_recovery_key target)
