-- ===== src/Versions.antt =====
-- app/src/electron/updaterUtils.ts: the comparison of two versions, as code units. The results 1, -1
-- and 0 are `gt`, `lt` and `eq`.
pub mod Laws
pub mod Checks
pub mod Tests
use Prim.Native.Nat.{Ordering, lt, eq, gt}
use facenox.Base.{
  ℕ, ◌+◌, ◌*◌, ◌-◌, Bool, true, false, ◌&&◌, ◌||◌, List, [], ◌∷◌, Option, none, some, map, leb, ltb,
  ◌==◌, if◌then◌else◌,
}
use facenox.Base.Text.{Text, split, join}

abbrev pub is_digit : ℕ → Bool
is_digit c = leb b'0' c && leb c b'9'

-- The value of the digits in front, with what has been read.
abbrev pub digits_value : ℕ → Text → ℕ
digits_value read [] = read
digits_value read (c ∷ s) =
    let rest = digits_value (read * 10 + (c - b'0')) s in if is_digit c then rest else read

-- The white space and line ends of JavaScript.
abbrev pub is_space : ℕ → Bool
is_space c =
    c == b' '
    || (leb 9 c && leb c 13)
    || c == 160
    || c == 5760
    || (leb 8192 c && leb c 8202)
    || c == 8232
    || c == 8233
    || c == 8239
    || c == 8287
    || c == 12288
    || c == 65279

abbrev pub skip_sign : Text → Text
skip_sign [] = []
skip_sign (c ∷ s) = if c == b'+' then s else c ∷ s

abbrev pub skip_spaces : Text → Text
skip_spaces [] = []
skip_spaces (c ∷ s) = let rest = skip_spaces s in if is_space c then rest else c ∷ s

-- `parseInt(part, 10) || 0`, of a part without a minus sign. The number is exact, as that of `parseInt`
-- is up to 2 ^ 53; a version with a larger number is outside the model.
unfoldable pub parse_number : Text → ℕ
parse_number part = digits_value 0 (skip_sign (skip_spaces part))

abbrev pub drop_v : Text → Text
drop_v [] = []
drop_v (c ∷ s) = if c == b'v' then s else c ∷ s

pub record VersionParts : Type 0 where
  pub numeric : List ℕ
  pub pre : Option Text

-- `preParts.length > 0 ? preParts.join("-") : null`, and an empty text counts as none.
abbrev pub pre_of : List Text → Option Text
pre_of parts = elim (join b'-' parts) [ [] ↦ none | c ∷ s ↦ some (c ∷ s) ]

abbrev pub parts_of : List Text → VersionParts
parts_of [] = record { numeric = []; pre = none }
parts_of (v ∷ pre_parts) = record {
  numeric = map parse_number (split b'.' (drop_v v));
  pre = pre_of pre_parts;
}

unfoldable pub get_version_parts : Text → VersionParts
unfolding parse_number
get_version_parts version = parts_of (split b'-' version)

abbrev pub cmp_nat : ℕ → ℕ → Ordering
cmp_nat a b = if ltb b a then gt else if ltb a b then lt else eq

-- The second comparison where the first finds no difference.
abbrev pub then_by : Ordering → Ordering → Ordering
then_by eq o = o
then_by lt o = lt
then_by gt o = gt

-- A missing number counts as 0.
abbrev pub compare_numbers : List ℕ → List ℕ → Ordering
compare_numbers [] [] = eq
compare_numbers [] (b ∷ t) = then_by (cmp_nat 0 b) (compare_numbers [] t)
compare_numbers (a ∷ s) [] = then_by (cmp_nat a 0) (compare_numbers s [])
compare_numbers (a ∷ s) (b ∷ t) = then_by (cmp_nat a b) (compare_numbers s t)

-- Element by element, the shorter one first.
abbrev pub compare_lists : {A : Type 0} → (A → A → Ordering) → List A → List A → Ordering
compare_lists cmp [] [] = eq
compare_lists cmp [] (b ∷ t) = lt
compare_lists cmp (a ∷ s) [] = gt
compare_lists cmp (a ∷ s) (b ∷ t) = then_by (cmp a b) (compare_lists cmp s t)

-- A segment is a number, where it has digits only, or a word.
pub data Segment : Type 0 where
  number : ℕ → Segment
  word : Text → Segment

abbrev pub all_digits : Text → Bool
all_digits [] = true
all_digits (c ∷ s) = is_digit c && all_digits s

abbrev pub segment_of : Text → Segment
segment_of [] = word []
segment_of (c ∷ s) = if all_digits (c ∷ s) then number (digits_value 0 (c ∷ s)) else word (c ∷ s)

abbrev pub compare_segments : Segment → Segment → Ordering
compare_segments (number a) (number b) = cmp_nat a b
compare_segments (number a) (word t) = lt
compare_segments (word s) (number b) = gt
compare_segments (word s) (word t) = compare_lists cmp_nat s t

abbrev pub segments : Text → List Segment
segments pre = map segment_of (split b'.' pre)

-- A version without an addition comes after the same one with one.
abbrev pub compare_pre : Option Text → Option Text → Ordering
compare_pre none none = eq
compare_pre none (some b) = gt
compare_pre (some a) none = lt
compare_pre (some a) (some b) = compare_lists compare_segments (segments a) (segments b)

abbrev pub compare_parts : VersionParts → VersionParts → Ordering
compare_parts a b = then_by (compare_numbers a.numeric b.numeric) (compare_pre a.pre b.pre)

unfoldable pub compare_versions : Text → Text → Ordering
unfolding get_version_parts
compare_versions a b = compare_parts (get_version_parts a) (get_version_parts b)
