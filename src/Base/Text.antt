-- ===== src/Base/Text.antt =====
-- Texts that the program walks, as the lists of their code units.
use Prim.Native.Nat.{ℕ}
use Prim.Native.Char.{code}
use Prim.Native.String.{String}
use mathlib.Core.Path.{◌≡◌, refl}
use mathlib.Core.Bool.{Bool, true, false, ◌&&◌}
use mathlib.Core.List.{List, [], ◌∷◌, ◌++◌}
use native.Mathlib.Omega.{arith}
use facenox.Base.Tests.{◌==◌, ==_iff, if◌then◌else◌}
use facenox.Base.Lists.{any}

abbrev pub Text : Type 0
Text = List ℕ

-- The code units of a literal of ASCII characters.
abbrev pub codes : String → Text
codes String.[] = []
codes (String.◌∷◌ c s) = code c ∷ codes s

-- `s.replace(/c/g, by)`
abbrev pub replace_all : ℕ → Text → Text → Text
replace_all c by [] = []
replace_all c by (x ∷ s) = (if x == c then by else x ∷ []) ++ replace_all c by s

-- `texts.join(separator)`, for a separator of one character.
abbrev pub join : ℕ → List Text → Text
join separator [] = []
join separator (text ∷ []) = text
join separator (text ∷ more ∷ texts) = text ++ separator ∷ join separator (more ∷ texts)

-- `text.startsWith(prefix)`, the prefix first.
abbrev pub starts_with : Text → Text → Bool
starts_with [] text = true
starts_with (c ∷ prefix) [] = false
starts_with (c ∷ prefix) (x ∷ text) = c == x && starts_with prefix text

abbrev onto_first : ℕ → List Text → List Text
onto_first x [] = (x ∷ []) ∷ []
onto_first x (part ∷ parts) = (x ∷ part) ∷ parts

-- `text.split(separator)`, for a separator of one character.
abbrev pub split : ℕ → Text → List Text
split separator [] = [] ∷ []
split separator (x ∷ text) =
    let rest = split separator text in if x == separator then [] ∷ rest else onto_first x rest

abbrev pub holds : ℕ → Text → Bool
holds c text = any (λ x. x == c) text

pub split-append :
    (c : ℕ) (s text : Text) → holds c s ≡ false → split c (s ++ c ∷ text) ≡ s ∷ split c text
split-append c [] text h = ground (arith, ==_iff c c)
split-append c (x ∷ s) text h = ground (arith, split-append c s text)

pub split_whole : (c : ℕ) (s : Text) → holds c s ≡ false → split c s ≡ s ∷ []
split_whole c [] h = refl
split_whole c (x ∷ s) h = ground (arith, split_whole c s)
