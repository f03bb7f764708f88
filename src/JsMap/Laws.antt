-- ===== src/JsMap/Laws.antt =====
-- Lookup after the operations of a `Map`.
use facenox.Base.{◌≡◌, refl, [], ◌∷◌, List, Option, none, some, if◌then◌else◌, arith}
use facenox.Base.Keys.{Eq, ◌===◌}
use facenox.JsMap.{JsMap, get, set, set_all}

module _ {ℓ κ} {K : Type ℓ} {V : Type κ} ⦃e : Eq K⦄ where
  pub get-set :
      (k j : K) (v : V) (m : JsMap K V) → get j (set k v m) ≡ (if k === j then some v else get j m)
  unfolding get set
  get-set k j v [] = refl
  get-set k j v ((i, w) ∷ m) =
      ground (arith, get-set k j v m, e.same_iff k j, e.same_iff i k, e.same_iff i j)

  pub get-set_self : (k : K) (v : V) (m : JsMap K V) → get k (set k v m) ≡ some v
  get-set_self k v m = ground (arith, get-set k k v m, e.same_iff k k)

  -- The value that `new Map(entries)` has for a key: that of the last entry with it.
  abbrev pub last_value : K → List (K × V) → Option V
  last_value k [] = none
  last_value k ((j, v) ∷ entries) = elim (last_value k entries) [
    | some w ↦ some w
    | none ↦ if j === k then some v else none
  ]

  pub get-set_all :
      (k : K) (m : JsMap K V) (entries : List (K × V))
      → get k (set_all m entries) ≡ elim (last_value k entries) [ some w ↦ some w | none ↦ get k m ]
  unfolding set_all
  get-set_all k m [] = refl
  get-set_all k m ((j, v) ∷ entries) =
      ground (arith, get-set_all k (set j v m) entries, get-set j k v m)
