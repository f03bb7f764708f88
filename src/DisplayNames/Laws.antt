-- ===== src/DisplayNames/Laws.antt =====
-- The display names by a description without counters: the place of a person among those of the same
-- name, in lower case.
use facenox.Base.{
  ℕ, ◌+◌, ◌≡◌, refl, sym, ap, ◌∙◌, true, false, List, [], ◌∷◌, ◌++◌, Option, none, some, String,
  arith, ◌==◌, if◌then◌else◌, append_assoc, if_elim,
}
use facenox.Base.Keys.{◌===◌, string_eq}
use facenox.JsMap.{JsMap, get, set}
use facenox.JsMap.Laws.{get-set}
use facenox.DisplayNames.{
  Person, Shown, count_or, name_occurrences, display_names, generate_display_names,
}

module _ (lower : String → String) (numbered : String → ℕ → String) where
  -- How many persons have this name, in lower case.
  abbrev pub named : String → List Person → ℕ
  named name [] = 0
  named name (p ∷ persons) = (if lower p.name === name then 1 else 0) + named name persons

  -- The name of a person behind `before` in a list with `total` of that name.
  abbrev pub shown_as : ℕ → ℕ → String → String
  shown_as total before name =
      if total == 1 then name else (if before == 0 then name else numbered name (before + 1))

  abbrev pub by_place : List Person → List Person → List Person → List Shown
  by_place all before [] = []
  by_place all before (p ∷ persons) =
      record {
        person = p;
        display_name = shown_as (named (lower p.name) all) (named (lower p.name) before) p.name;
      }
      ∷ by_place all (before ++ p ∷ []) persons

  named-append :
      (name : String) (before : List Person) (p : Person)
      → named name (before ++ p ∷ []) ≡ named name before + (if lower p.name === name then 1 else 0)
  named-append name [] p = omega arith
  named-append name (q ∷ before) p = omega (arith, named-append name before p)

  name_occurrences-named :
      (persons : List Person) (counts : JsMap String ℕ) (name : String)
      → count_or 0 (get name (name_occurrences lower numbered persons counts))
        ≡ count_or 0 (get name counts) + named name persons
  unfolding name_occurrences
  name_occurrences-named [] counts name = omega arith
  name_occurrences-named (p ∷ persons) counts name =
      let key = lower p.name in
      ground (
        arith,
        name_occurrences-named persons (set key (count_or 0 (get key counts) + 1) counts) name,
        get-set key name (count_or 0 (get key counts) + 1) counts,
        string_eq.same_iff key name,
      )

  named-both :
      (name : String) (before persons : List Person)
      → named name (before ++ persons) ≡ named name before + named name persons
  named-both name [] persons = omega arith
  named-both name (q ∷ before) persons = omega (arith, named-both name before persons)

  total_of : (o : Option ℕ) (total : ℕ) → count_or 0 o ≡ total + 1 → count_or 1 o ≡ total + 1
  total_of none total h = absurd (omega arith)
  total_of (some n) total h = ground arith

  -- The counters agree with the places for every name that is counted.
  abbrev Counted : List Person → List Person → JsMap String ℕ → Type 0
  Counted all before counters =
      (name : String)
      → (named name all == 1) ≡ false
      → count_or 0 (get name counters) ≡ named name before

  single-Counted :
      (all before : List Person) (p : Person) (counters : JsMap String ℕ)
      → (named (lower p.name) all == 1) ≡ true
      → Counted all before counters
      → Counted all (before ++ p ∷ []) counters
  single-Counted all before p counters one h name several =
      ground
        (arith, h name several, named-append name before p, string_eq.same_iff (lower p.name) name)

  several-Counted :
      (all before : List Person) (p : Person) (counters : JsMap String ℕ)
      → (named (lower p.name) all == 1) ≡ false
      → Counted all before counters
      → Counted all
          (before ++ p ∷ [])
          (set (lower p.name) (count_or 0 (get (lower p.name) counters) + 1) counters)
  several-Counted all before p counters many h name several = ground (
    arith,
    h name several,
    h (lower p.name) many,
    named-append name before p,
    get-set (lower p.name) name (count_or 0 (get (lower p.name) counters) + 1) counters,
    string_eq.same_iff (lower p.name) name,
  )

  shown_cong :
      (p : Person) {a b : String} {xs ys : List Shown}
      → a ≡ b
      → xs ≡ ys
      → (record { person = p; display_name = a } ∷ xs)
        ≡ record { person = p; display_name = b } ∷ ys
  shown_cong p e f = cc

  single_name :
      (total before : ℕ) (name : String) → (total == 1) ≡ true → shown_as total before name ≡ name
  single_name total before name one = rw one

  shared_name :
      (total : ℕ) {current before : ℕ} (name : String)
      → (total == 1) ≡ false
      → current ≡ before
      → (if current == 0 then name else numbered name (current + 1)) ≡ shown_as total before name
  shared_name total name many same = rw (many, same)

  display_names-by_place :
      (all before persons : List Person) (occurrences counters : JsMap String ℕ)
      → all ≡ before ++ persons
      → ((name : String) → count_or 0 (get name occurrences) ≡ named name all)
      → Counted all before counters
      → display_names lower numbered occurrences persons counters ≡ by_place all before persons
  unfolding display_names
  display_names-by_place all before [] occurrences counters split total h = refl
  display_names-by_place all before (p ∷ persons) occurrences counters split total h =
      let key = lower p.name in
      let later : all ≡ (before ++ p ∷ []) ++ persons =
        split ∙ sym (append_assoc before (p ∷ []) persons) in
      let single =
        display_names-by_place all (before ++ p ∷ []) persons occurrences counters later total in
      let several =
        display_names-by_place all (before ++ p ∷ []) persons occurrences
          (set key (count_or 0 (get key counters) + 1) counters) later total in
      let rest = named key before + named key persons in
      let positive : named key all ≡ rest + 1 = ground (
        arith,
        ap (named key) split,
        named-both key before (p ∷ persons),
        string_eq.same_iff key key,
      ) in
      let seen : count_or 1 (get key occurrences) ≡ named key all =
        total_of (get key occurrences) rest (total key ∙ positive) ∙ sym positive in
      if_elim (λ (shown : List Shown). shown ≡ by_place all before (p ∷ persons))
        (count_or 1 (get key occurrences) == 1)
        (λ one.
          let alone : (named key all == 1) ≡ true = ap (λ (n : ℕ). n == 1) (sym seen) ∙ one in
          shown_cong p (sym (single_name (named key all) (named key before) p.name alone))
            (single (single-Counted all before p counters alone h)))
        (λ many.
          let shared : (named key all == 1) ≡ false = ap (λ (n : ℕ). n == 1) (sym seen) ∙ many in
          shown_cong p (shared_name (named key all) p.name shared (h key shared))
            (several (several-Counted all before p counters shared h)))

  -- Each person is shown under the own name if no other one has it, and under its place among the
  -- persons of that name otherwise: the first by the name, and the n-th by the name with the number
  -- n. Names are compared in lower case, and the order of the persons is kept.
  pub generate_display_names-by_place :
      (persons : List Person)
      → generate_display_names lower numbered persons ≡ by_place persons [] persons
  unfolding generate_display_names
  generate_display_names-by_place persons =
      display_names-by_place persons [] persons (name_occurrences lower numbered persons []) [] refl
        (λ name. omega (arith, name_occurrences-named persons [] name)) (λ name several. refl)
