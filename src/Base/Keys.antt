-- ===== src/Base/Keys.antt =====
-- Equality of keys as an instance argument: what `===` and the key lookup of a JavaScript `Map` or
-- `Set` need of strings and numbers.
use Prim.Native.Nat.{ℕ}
use Prim.Native.String.{String}
use mathlib.Core.Path.{◌≡◌, refl, ap, ◌∙◌}
use mathlib.Core.Logic.{◌↔◌, ◌≢◌}
use mathlib.Core.Bool.{Bool, true, false, not, ◌&&◌}
use mathlib.Core.Option.{Option, none, some}
use mathlib.Core.List.{List, [], ◌∷◌}
use native.Mathlib.Omega.{arith}
use text.Mathlib.Text.{◌==◌ as str_eq}
use text.Mathlib.TextEquality.{eq_iff}
use facenox.Base.Tests.{◌==◌, ==_iff, and_split}

pub record Eq {ℓ} (K : Type ℓ) : Type ℓ where
  pub same : K → K → Bool
  pub same_iff : (a b : K) → (same a b ≡ true) ↔ (a ≡ b)

infix 50 ◌===◌
abbrev pub ◌===◌ {ℓ} : {K : Type ℓ} ⦃e : Eq K⦄ → K → K → Bool
◌===◌ ⦃e⦄ = e.same

instance abbrev pub nat_eq : Eq ℕ
nat_eq = record { same = ◌==◌; same_iff = ==_iff }

instance abbrev pub string_eq : Eq String
string_eq = record { same = str_eq; same_iff = eq_iff }

abbrev same_bool : Bool → Bool → Bool
same_bool true b = b
same_bool false b = not b

pub same_bool_iff : (a b : Bool) → (same_bool a b ≡ true) ↔ (a ≡ b)
same_bool_iff true true = (λ h. refl, λ h. refl)
same_bool_iff true false = (λ h. absurd cc, λ h. absurd cc)
same_bool_iff false true = (λ h. absurd cc, λ h. absurd cc)
same_bool_iff false false = (λ h. refl, λ h. refl)

instance abbrev pub bool_eq : Eq Bool
bool_eq = record { same = same_bool; same_iff = same_bool_iff }

-- Keys that may be missing, where a missing one is like another.
abbrev same_option {ℓ} : {K : Type ℓ} ⦃e : Eq K⦄ → Option K → Option K → Bool
same_option none none = true
same_option (some a) (some b) = a === b
same_option _ _ = false

pub same_option_iff {ℓ} :
    {K : Type ℓ} ⦃e : Eq K⦄ (a b : Option K) → (same_option a b ≡ true) ↔ (a ≡ b)
same_option_iff none none = (λ h. refl, λ h. refl)
same_option_iff ⦃e⦄ (some a) (some b) =
    (λ h. ap some ((e.same_iff a b).0 h), λ h. (e.same_iff a b).1 cc)
same_option_iff none (some b) = (λ h. absurd cc, λ h. absurd cc)
same_option_iff (some a) none = (λ h. absurd cc, λ h. absurd cc)

instance abbrev pub option_eq {ℓ} : {K : Type ℓ} ⦃e : Eq K⦄ → Eq (Option K)
option_eq = record { same = same_option; same_iff = same_option_iff }

module _ {ℓ} {K : Type ℓ} ⦃e : Eq K⦄ where
  pub ===_refl : (a : K) → (a === a) ≡ true
  ===_refl a = (e.same_iff a a).1 refl

  pub ===_ne : (a b : K) → a ≢ b → (a === b) ≡ false
  ===_ne a b h = ground (arith, e.same_iff a b)

abbrev head_or {ℓ} : {K : Type ℓ} → K → List K → K
head_or k [] = k
head_or k (a ∷ s) = a

abbrev tail {ℓ} : {K : Type ℓ} → List K → List K
tail [] = []
tail (a ∷ s) = s

unfoldable pub same_list {ℓ} : {K : Type ℓ} ⦃e : Eq K⦄ → List K → List K → Bool
same_list [] [] = true
same_list (a ∷ s) (b ∷ t) = (a === b) && same_list s t
same_list _ _ = false

pub same_list_iff {ℓ} : {K : Type ℓ} ⦃e : Eq K⦄ (s t : List K) → (same_list s t ≡ true) ↔ (s ≡ t)
unfolding same_list
same_list_iff [] [] = (λ _. refl, λ _. refl)
same_list_iff ⦃e⦄ (a ∷ s) (b ∷ t) = (
  λ h.
      let (k, l) = and_split (a === b) (same_list s t) h in
      ap (λ x. x ∷ s) ((e.same_iff a b).0 k) ∙ ap (◌∷◌ b) ((same_list_iff s t).0 l),
  λ h. rw ((e.same_iff a b).1 (ap (head_or a) h)) ((same_list_iff s t).1 (ap tail h)),
)
same_list_iff [] (b ∷ t) = (λ h. absurd cc, λ h. absurd cc)
same_list_iff (a ∷ s) [] = (λ h. absurd cc, λ h. absurd cc)

-- Arrays of keys, compared by the JSON text that `JSON.stringify` gives them.
instance abbrev pub list_eq {ℓ} : {K : Type ℓ} ⦃e : Eq K⦄ → Eq (List K)
list_eq = record { same = same_list; same_iff = same_list_iff }
