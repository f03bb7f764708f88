-- ===== src/BackendProcess/Output/Lines.antt =====
-- How a text that goes on is split into lines.
use facenox.Base.{
  ℕ, ◌≡◌, ◌≢◌, ◌∙◌, refl, ap, sym, inl, inr, arith, true, List, [], ◌∷◌, ◌++◌, ◌==◌, Bool-cases,
}
use facenox.Base.Text.{Text}
use facenox.BackendProcess.Output.{
  newline, carriage_return, is_newline_next, onto_first_line, split_lines, last_line, without_last,
}

pub split_lines-ne-nil : (text : Text) → split_lines text ≢ []
unfolding split_lines
split_lines-ne-nil [] h = cc
split_lines-ne-nil (c ∷ text) h = ground (arith, split_lines-ne-nil text)

split_lines-newline :
    (text : Text)
    → is_newline_next text ≡ true
    → (lines : List Text) × (split_lines text ≡ [] ∷ lines) × (lines ≢ [])
unfolding split_lines
split_lines-newline [] h = absurd cc
split_lines-newline (c ∷ text) h = (split_lines text, rw h refl, split_lines-ne-nil text)

-- How a text of one character more is split, and every text that starts alike.
data Step (c : ℕ) (text : Text) : Type 0 where
  ends : ((more : Text) → split_lines (c ∷ more) ≡ [] ∷ split_lines more) → Step c text
  skips :
      is_newline_next text ≡ true
      → ((more : Text) → is_newline_next more ≡ true → split_lines (c ∷ more) ≡ split_lines more)
      → Step c text
  adds :
      ((more : Text)
        → is_newline_next more ≡ is_newline_next text
        → split_lines (c ∷ more) ≡ onto_first_line c (split_lines more))
      → Step c text

step : (c : ℕ) (text : Text) → Step c text
unfolding split_lines
step c text = elim (Bool-cases (c == newline)) [
  | inl end ↦ ends (λ more. rw end refl)
  | inr no_end ↦ elim (Bool-cases (c == carriage_return)) [
    | inl cr ↦ elim (Bool-cases (is_newline_next text)) [
      | inl next ↦ skips next (λ more e. rw (no_end, cr, e) refl)
      | inr other ↦ adds (λ more e. rw (no_end, cr, e, other) refl)
    ]
    | inr no_cr ↦ adds (λ more e. rw (no_end, no_cr) refl)
  ]
]

onto_first_line-single :
    (c : ℕ) (lines : List Text) {line : Text}
    → lines ≢ []
    → onto_first_line c lines ≡ line ∷ []
    → (first : Text) × (lines ≡ first ∷ []) × (line ≡ c ∷ first)
onto_first_line-single c [] h e = absurd (h refl)
onto_first_line-single c (first ∷ []) h e = (first, refl, cc)
onto_first_line-single c (first ∷ next ∷ lines) h e = absurd cc

-- A text that is one line is this line.
split_lines-single : (text line : Text) → split_lines text ≡ line ∷ [] → text ≡ line
unfolding split_lines
split_lines-single [] line h = cc
split_lines-single (c ∷ text) line h = elim (step c text) [
  | ends e ↦ absurd (split_lines-ne-nil text (cc (e text)))
  | skips next e ↦
      let (lines, e', more) = split_lines-newline text next in absurd (more (cc (e text next)))
  | adds e ↦
      let (first, one, e') =
        onto_first_line-single c (split_lines text) (split_lines-ne-nil text)
          (sym (e text refl) ∙ h) in
      cc (split_lines-single text first one)
]

two_lines-ne-nil : {line next : Text} {lines : List Text} → split_lines [] ≢ line ∷ next ∷ lines
unfolding split_lines
two_lines-ne-nil e = cc

module _ (t : Text) where
  -- The lines of `text`, of which `lines` are known, and then of `t`.
  abbrev pub joined : List Text → List Text
  joined lines = without_last lines ++ split_lines (last_line lines ++ t)

  joined-cons :
      (line : Text) (lines : List Text) → lines ≢ [] → joined (line ∷ lines) ≡ line ∷ joined lines
  joined-cons line [] h = absurd (h refl)
  joined-cons line (next ∷ lines) h = refl

  is_newline_next-append :
      (text : Text) → text ≢ [] → is_newline_next (text ++ t) ≡ is_newline_next text
  is_newline_next-append [] h = absurd (h refl)
  is_newline_next-append (c ∷ text) h = refl

  is_newline_next-start :
      (text : Text) → is_newline_next text ≡ true → is_newline_next (text ++ t) ≡ true
  is_newline_next-start [] h = absurd cc
  is_newline_next-start (c ∷ text) h = h

  adds_lem :
      (c : ℕ) (text : Text) (lines : List Text)
      → split_lines text ≡ lines
      → split_lines (text ++ t) ≡ joined lines
      → ((more : Text)
          → is_newline_next more ≡ is_newline_next text
          → split_lines (c ∷ more) ≡ onto_first_line c (split_lines more))
      → split_lines (c ∷ text ++ t) ≡ joined (onto_first_line c lines)
  adds_lem c text [] e ih grows = absurd (split_lines-ne-nil text e)
  adds_lem c text (first ∷ []) e ih grows =
      ap (λ (x : Text). split_lines (c ∷ x ++ t)) (split_lines-single text first e)
  adds_lem c text (first ∷ next ∷ lines) e ih grows =
      grows (text ++ t)
        (is_newline_next-append text (λ nil. two_lines-ne-nil (ap split_lines (sym nil) ∙ e)))
      ∙ ap (onto_first_line c) ih

  -- The lines of a longer text: those of the first part, the last of which goes on.
  pub split_lines-append : (text : Text) → split_lines (text ++ t) ≡ joined (split_lines text)
  unfolding split_lines
  split_lines-append [] = refl
  split_lines-append (c ∷ text) = elim (step c text) [
    | ends e ↦
        e (text ++ t)
        ∙ ap (λ (x : List Text). [] ∷ x) (split_lines-append text)
        ∙ sym (ap joined (e text) ∙ joined-cons [] (split_lines text) (split_lines-ne-nil text))
    | skips next e ↦
        e (text ++ t) (is_newline_next-start text next)
        ∙ split_lines-append text
        ∙ sym (ap joined (e text next))
    | adds e ↦
        adds_lem c text (split_lines text) refl (split_lines-append text) e
        ∙ sym (ap joined (e text refl))
  ]
