-- ===== src/Versions/Laws.antt =====
-- app/src/electron/updaterUtils.ts: the comparison of versions is that of a total order on them.
use Prim.Native.Nat.{Ordering, lt, eq, gt}
use facenox.Base.{ℕ, ◌≡◌, refl, sym, [], ◌∷◌, none, some, arith}
use facenox.Base.Text.{Text}
use facenox.Versions.{
  cmp_nat, then_by, compare_numbers, compare_lists, number, word, compare_segments, compare_pre,
  segments, compare_parts, get_version_parts, compare_versions,
}

abbrev pub flip : Ordering → Ordering
flip lt = gt
flip eq = eq
flip gt = lt

-- Two comparisons in one direction, or one of equals, give the third.
abbrev pub Chained : Ordering → Ordering → Ordering → Type 0
Chained eq o third = third ≡ o
Chained lt eq third = third ≡ lt
Chained lt lt third = third ≡ lt
Chained gt eq third = third ≡ gt
Chained gt gt third = third ≡ gt
Chained _ _ third = Unit

-- What a total order needs of a comparison.
abbrev pub Flips : {A : Type 0} → (A → A → Ordering) → Type 0
Flips {A} cmp = (a b : A) → cmp b a ≡ flip (cmp a b)

abbrev pub Chains : {A : Type 0} → (A → A → Ordering) → Type 0
Chains {A} cmp = (a b c : A) → Chained (cmp a b) (cmp b c) (cmp a c)

flip-then_by : (o p : Ordering) → flip (then_by o p) ≡ then_by (flip o) (flip p)
flip-then_by lt p = refl
flip-then_by eq p = refl
flip-then_by gt p = refl

Chained-lt : (p : Ordering) → Chained p lt lt
Chained-lt lt = refl
Chained-lt eq = refl
Chained-lt gt = tt

Chained-gt : (p : Ordering) → Chained p gt gt
Chained-gt lt = tt
Chained-gt eq = refl
Chained-gt gt = refl

lt-Chained : (p : Ordering) → Chained lt p lt
lt-Chained lt = refl
lt-Chained eq = refl
lt-Chained gt = tt

gt-Chained : (p : Ordering) → Chained gt p gt
gt-Chained lt = tt
gt-Chained eq = refl
gt-Chained gt = refl

then_by-Chained :
    (o o' o'' p p' p'' : Ordering)
    → Chained o o' o''
    → Chained p p' p''
    → Chained (then_by o p) (then_by o' p') (then_by o'' p'')
then_by-Chained eq eq o'' p p' p'' h k = rw h k
then_by-Chained eq lt o'' p p' p'' h k = rw h (Chained-lt p)
then_by-Chained eq gt o'' p p' p'' h k = rw h (Chained-gt p)
then_by-Chained lt eq o'' p p' p'' h k = rw h (lt-Chained p')
then_by-Chained lt lt o'' p p' p'' h k = rw h refl
then_by-Chained lt gt o'' p p' p'' h k = tt
then_by-Chained gt eq o'' p p' p'' h k = rw h (gt-Chained p')
then_by-Chained gt lt o'' p p' p'' h k = tt
then_by-Chained gt gt o'' p p' p'' h k = rw h refl

cmp_nat-Flips : Flips cmp_nat
cmp_nat-Flips a b = ground arith

cmp_nat-Chains : Chains cmp_nat
cmp_nat-Chains a b c = ground arith

then_by-flip :
    (o o' p p' : Ordering) → o' ≡ flip o → p' ≡ flip p → (then_by o' p') ≡ flip (then_by o p)
then_by-flip o o' p p' h k = rw (h, k) (sym (flip-then_by o p))

next_flip :
    (a b : ℕ) (p p' : Ordering)
    → p' ≡ flip p
    → (then_by (cmp_nat b a) p') ≡ flip (then_by (cmp_nat a b) p)
next_flip a b p p' h = then_by-flip (cmp_nat a b) (cmp_nat b a) p p' (cmp_nat-Flips a b) h

next-Chained :
    (a b c : ℕ) (p p' p'' : Ordering)
    → Chained p p' p''
    → Chained (then_by (cmp_nat a b) p) (then_by (cmp_nat b c) p') (then_by (cmp_nat a c) p'')
next-Chained a b c p p' p'' h =
    then_by-Chained (cmp_nat a b) (cmp_nat b c) (cmp_nat a c) p p' p'' (cmp_nat-Chains a b c) h

compare_numbers-Flips : Flips compare_numbers
compare_numbers-Flips [] [] = refl
compare_numbers-Flips [] (b ∷ t) = next_flip 0 b _ _ (compare_numbers-Flips [] t)
compare_numbers-Flips (a ∷ s) [] = next_flip a 0 _ _ (compare_numbers-Flips s [])
compare_numbers-Flips (a ∷ s) (b ∷ t) = next_flip a b _ _ (compare_numbers-Flips s t)

compare_numbers-Chains : Chains compare_numbers
compare_numbers-Chains [] [] r = refl
compare_numbers-Chains [] (b ∷ t) [] = next-Chained 0 b 0 _ _ _ (compare_numbers-Chains [] t [])
compare_numbers-Chains [] (b ∷ t) (c ∷ r) = next-Chained 0 b c _ _ _ (compare_numbers-Chains [] t r)
compare_numbers-Chains (a ∷ s) [] [] = next-Chained a 0 0 _ _ _ (compare_numbers-Chains s [] [])
compare_numbers-Chains (a ∷ s) [] (c ∷ r) = next-Chained a 0 c _ _ _ (compare_numbers-Chains s [] r)
compare_numbers-Chains (a ∷ s) (b ∷ t) [] = next-Chained a b 0 _ _ _ (compare_numbers-Chains s t [])
compare_numbers-Chains (a ∷ s) (b ∷ t) (c ∷ r) =
    next-Chained a b c _ _ _ (compare_numbers-Chains s t r)

module _ {A : Type 0} (cmp : A → A → Ordering) where
  compare_lists-Flips : Flips cmp → Flips (compare_lists cmp)
  compare_lists-Flips flips [] [] = refl
  compare_lists-Flips flips [] (b ∷ t) = refl
  compare_lists-Flips flips (a ∷ s) [] = refl
  compare_lists-Flips flips (a ∷ s) (b ∷ t) =
      then_by-flip (cmp a b) (cmp b a) _ _ (flips a b) (compare_lists-Flips flips s t)

  compare_lists-Chains : Chains cmp → Chains (compare_lists cmp)
  compare_lists-Chains chains [] [] r = refl
  compare_lists-Chains chains [] (b ∷ t) [] = tt
  compare_lists-Chains chains [] (b ∷ t) (c ∷ r) =
      lt-Chained (then_by (cmp b c) (compare_lists cmp t r))
  compare_lists-Chains chains (a ∷ s) [] [] = refl
  compare_lists-Chains chains (a ∷ s) [] (c ∷ r) = tt
  compare_lists-Chains chains (a ∷ s) (b ∷ t) [] =
      Chained-gt (then_by (cmp a b) (compare_lists cmp s t))
  compare_lists-Chains chains (a ∷ s) (b ∷ t) (c ∷ r) =
      then_by-Chained (cmp a b) (cmp b c) (cmp a c) _ _ _ (chains a b c)
        (compare_lists-Chains chains s t r)

compare_segments-Flips : Flips compare_segments
compare_segments-Flips (number a) (number b) = cmp_nat-Flips a b
compare_segments-Flips (number a) (word t) = refl
compare_segments-Flips (word s) (number b) = refl
compare_segments-Flips (word s) (word t) = compare_lists-Flips cmp_nat cmp_nat-Flips s t

compare_segments-Chains : Chains compare_segments
compare_segments-Chains (number a) (number b) (number c) = cmp_nat-Chains a b c
compare_segments-Chains (number a) (number b) (word r) = Chained-lt (cmp_nat a b)
compare_segments-Chains (number a) (word t) (number c) = tt
compare_segments-Chains (number a) (word t) (word r) = lt-Chained (compare_lists cmp_nat t r)
compare_segments-Chains (word s) (number b) (number c) = gt-Chained (cmp_nat b c)
compare_segments-Chains (word s) (number b) (word r) = tt
compare_segments-Chains (word s) (word t) (number c) = Chained-gt (compare_lists cmp_nat s t)
compare_segments-Chains (word s) (word t) (word r) =
    compare_lists-Chains cmp_nat cmp_nat-Chains s t r

compare_pre-Flips : Flips compare_pre
compare_pre-Flips none none = refl
compare_pre-Flips none (some b) = refl
compare_pre-Flips (some a) none = refl
compare_pre-Flips (some a) (some b) =
    compare_lists-Flips compare_segments compare_segments-Flips (segments a) (segments b)

compare_pre-Chains : Chains compare_pre
compare_pre-Chains none none c = refl
compare_pre-Chains none (some b) none = tt
compare_pre-Chains none (some b) (some c) = gt-Chained _
compare_pre-Chains (some a) none none = refl
compare_pre-Chains (some a) none (some c) = tt
compare_pre-Chains (some a) (some b) none = Chained-lt _
compare_pre-Chains (some a) (some b) (some c) =
    compare_lists-Chains compare_segments compare_segments-Chains (segments a) (segments b)
      (segments c)

compare_parts-Flips : Flips compare_parts
compare_parts-Flips a b =
    then_by-flip (compare_numbers a.numeric b.numeric) (compare_numbers b.numeric a.numeric) _ _
      (compare_numbers-Flips a.numeric b.numeric) (compare_pre-Flips a.pre b.pre)

compare_parts-Chains : Chains compare_parts
compare_parts-Chains a b c =
    then_by-Chained _ _ _ _ _ _ (compare_numbers-Chains a.numeric b.numeric c.numeric)
      (compare_pre-Chains a.pre b.pre c.pre)

-- The comparison of two versions the other way round gives the opposite, and two comparisons in one
-- direction, or one of equals, give the comparison of the first with the last.
pub compare_versions-Chained :
    (a b c : Text)
    → (compare_versions b a ≡ flip (compare_versions a b))
      × Chained (compare_versions a b) (compare_versions b c) (compare_versions a c)
unfolding compare_versions
compare_versions-Chained a b c = (
  compare_parts-Flips (get_version_parts a) (get_version_parts b),
  compare_parts-Chains (get_version_parts a) (get_version_parts b) (get_version_parts c),
)
