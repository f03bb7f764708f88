-- ===== src/MemberCache/RecognitionMaps/Entries.antt =====
-- Maps as lists of entries: how many there are, and which keys they have.
use facenox.Base.{
  ℕ, suc, ◌≤◌, ◌≡◌, ◌≢◌, ◌∙◌, refl, sym, ap, inl, inr, arith, true, false, [], ◌∷◌, none, some,
  length, ◌==◌, ==_iff, Bool-cases, if◌then◌else◌,
}
use mathlib.Core.Path.{subst}
use facenox.Base.Keys.{nat_eq, ===_refl}
use facenox.JsMap.{JsMap, get, delete}

-- No key stands twice in the list of a map's entries.
abbrev pub IsMap : {V : Type 0} → JsMap ℕ V → Type 0
IsMap [] = Unit
IsMap ((key, v) ∷ m) = (get key m ≡ none) × IsMap m

-- Looking up in a map of one entry more, and in one of an entry less.
module _ {V : Type 0} where
  pub get-cons_self : (m : JsMap ℕ V) (j : ℕ) (w : V) → get j ((j, w) ∷ m) ≡ some w
  unfolding get
  get-cons_self m j w = rw (===_refl j)

  pub get-cons_other :
      (m : JsMap ℕ V) (j k : ℕ) (w : V) → (j == k) ≡ false → get k ((j, w) ∷ m) ≡ get k m
  unfolding get
  get-cons_other m j k w h = rw h

  pub get-cons_same :
      (m : JsMap ℕ V) (j k : ℕ) (w : V) → (j == k) ≡ true → get k ((j, w) ∷ m) ≡ some w
  unfolding get
  get-cons_same m j k w h = rw h

  -- A key that is there is another than one that is not.
  pub apart : (m : JsMap ℕ V) (j k : ℕ) → get j m ≡ none → get k m ≢ none → (j == k) ≡ false
  apart m j k fresh found = elim (Bool-cases (j == k)) [
    | inl e ↦ absurd (found (subst (λ x. get x m ≡ none) ((==_iff j k).0 e) fresh))
    | inr e ↦ e
  ]

  get-delete_other : (m : JsMap ℕ V) (j k : ℕ) → (j == k) ≡ false → get k (delete j m) ≡ get k m
  unfolding get delete
  get-delete_other [] j k h = refl
  get-delete_other ((i, v) ∷ m) j k h = elim (Bool-cases (i == j)) [
    | inl e ↦ rw e (sym (get-cons_other m i k v (rw ((==_iff i j).0 e) h)))
    | inr e ↦ rw e (ap (λ rest. if i == k then some v else rest) (get-delete_other m j k h))
  ]

  length-delete : (m : JsMap ℕ V) (j : ℕ) → get j m ≢ none → length m ≡ suc (length (delete j m))
  unfolding get delete
  length-delete [] j h = absurd (h refl)
  length-delete ((i, v) ∷ m) j h = elim (Bool-cases (i == j)) [
    | inl e ↦ rw e refl
    | inr e ↦ rw e (ap suc (length-delete m j (λ gone. h (get-cons_other m i j v e ∙ gone))))
  ]

  pub some-ne-none : {v : V} → some v ≢ none
  some-ne-none e = cc

  lost-other : (m : JsMap ℕ V) (j k : ℕ) (w : V) → get k ((j, w) ∷ m) ≡ none → (j == k) ≡ false
  lost-other m j k w lost = elim (Bool-cases (j == k)) [
    | inl e ↦ absurd (some-ne-none (sym (get-cons_same m j k w e) ∙ lost))
    | inr e ↦ e
  ]

  -- If each key of `next` is a key of `prev`, then `next` has no more entries, and all keys of `prev`
  -- where it has as many.
  pub covered :
      (prev next : JsMap ℕ V)
      → IsMap next
      → ((k : ℕ) → get k next ≢ none → get k prev ≢ none)
      → (length next ≤ length prev)
        × (length prev ≡ length next → (k : ℕ) → get k next ≡ none → get k prev ≡ none)
  unfolding get
  covered [] [] m sub = (omega arith, λ e k h. refl)
  covered (entry ∷ prev) [] m sub = (omega arith, λ e k h. absurd (omega (arith, e)))
  covered prev ((j, w) ∷ next) (fresh, m) sub =
      let there = sub j (λ gone. some-ne-none (sym (get-cons_self next j w) ∙ gone)) in
      let (le, same) = covered (delete j prev) next m (λ k found gone.
        let other = apart next j k fresh found in
        sub k (λ lost. found (sym (get-cons_other next j k w other) ∙ lost))
          (sym (get-delete_other prev j k other) ∙ gone)) in
      (
        omega (arith, length-delete prev j there, le),
        λ e k lost.
            let other = lost-other next j k w lost in
            sym (get-delete_other prev j k other)
            ∙ same (omega (arith, length-delete prev j there, e)) k
                (sym (get-cons_other next j k w other) ∙ lost),
      )
