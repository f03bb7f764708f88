-- ===== src/JsMap.antt =====
-- The JavaScript `Map` as the program uses it: an association list in insertion order. `set` on a
-- key that is there keeps its place, as iteration over a `Map` does; a missing key gives `none`.
pub mod Laws
use facenox.Base.{Bool, true, false, not, List, [], ◌∷◌, ◌++◌, Option, none, some, if◌then◌else◌}
use facenox.Base.Keys.{Eq, ◌===◌}

abbrev pub JsMap {ℓ κ} : Type ℓ → Type κ → Type (ℓ ⊔ κ)
JsMap K V = List (K × V)

module _ {ℓ κ} {K : Type ℓ} {V : Type κ} ⦃e : Eq K⦄ where
  unfoldable pub get : K → JsMap K V → Option V
  get k [] = none
  get k ((j, v) ∷ m) = if j === k then some v else get k m

  unfoldable pub has : K → JsMap K V → Bool
  has k [] = false
  has k ((j, v) ∷ m) = if j === k then true else has k m

  unfoldable pub set : K → V → JsMap K V → JsMap K V
  set k v [] = (k, v) ∷ []
  set k v ((j, w) ∷ m) = if j === k then (j, v) ∷ m else (j, w) ∷ set k v m

  unfoldable pub delete : K → JsMap K V → JsMap K V
  delete k [] = []
  delete k ((j, w) ∷ m) = if j === k then m else (j, w) ∷ delete k m

  -- `new Map(entries)`: a later entry replaces an earlier one of the same key.
  unfoldable pub set_all : JsMap K V → List (K × V) → JsMap K V
  unfolding set
  set_all m [] = m
  set_all m ((k, v) ∷ entries) = set_all (set k v m) entries
