-- ===== src/BackendProcess/Output/Laws.antt =====
-- The lines of the output do not depend on the chunks in which it arrives.
use mathlib.Core.Path.{◌≡⟨◌⟩◌, ◌∎}
use mathlib.Core.List.{flatten}
use facenox.Base.{
  ℕ, map, Bool, length, drop, if◌then◌else◌, ◌≡◌, ◌≢◌, ◌∙◌, refl, ap, sym, true, false, List, [],
  ◌∷◌, ◌++◌, Option, none, some, append_assoc, append-nil,
}
use facenox.Base.Text.{Text, codes, starts_with}
use facenox.BackendProcess.Output.{
  newline, progress_prefix, emit_if_some, split_lines, last_line, without_last, Output, take_line,
  take_lines, handle_stdout_line, handle_stdout_chunk, handle_chunks,
}
use facenox.BackendProcess.Output.Lines.{split_lines-append, split_lines-ne-nil}

last_line-append : (xs ys : List Text) → ys ≢ [] → last_line (xs ++ ys) ≡ last_line ys
last_line-append [] ys h = refl
last_line-append (x ∷ []) [] h = absurd (h refl)
last_line-append (x ∷ []) (y ∷ ys) h = refl
last_line-append (x ∷ x' ∷ xs) ys h = last_line-append (x' ∷ xs) ys h

without_last-append :
    (xs ys : List Text) → ys ≢ [] → without_last (xs ++ ys) ≡ xs ++ without_last ys
without_last-append [] ys h = refl
without_last-append (x ∷ []) [] h = absurd (h refl)
without_last-append (x ∷ []) (y ∷ ys) h = refl
without_last-append (x ∷ x' ∷ xs) ys h =
    ap (λ (lines : List Text). x ∷ lines) (without_last-append (x' ∷ xs) ys h)

module _ {ℓ} {A : Type ℓ} (trim : Text → Text) (parse : Text → Option A) where
  abbrev with_buffer : Text → Output A → Output A
  with_buffer text o = record o { stdout_buffer = text }

  emit_if-with_buffer :
      (text : Text) (has_prefix : Bool) (update : Option A) (o : Output A)
      → (if has_prefix
          then emit_if_some trim parse update (with_buffer text o)
          else with_buffer text o)
        ≡ with_buffer text (if has_prefix then emit_if_some trim parse update o else o)
  emit_if-with_buffer text true none o = refl
  emit_if-with_buffer text true (some update) o = refl
  emit_if-with_buffer text false update o = refl

  take_line-with_buffer :
      (text line : Text) (o : Output A)
      → take_line trim parse line (with_buffer text o)
        ≡ with_buffer text (take_line trim parse line o)
  unfolding take_line handle_stdout_line
  take_line-with_buffer text line o =
      emit_if-with_buffer text (starts_with progress_prefix (trim line))
        (parse (drop (length progress_prefix) (trim line)))
        (record o { logged = o.logged ++ (codes "[STDOUT] " ++ line ++ newline ∷ []) ∷ [] })

  take_lines-with_buffer :
      (text : Text) (lines : List Text) (o : Output A)
      → take_lines trim parse lines (with_buffer text o)
        ≡ with_buffer text (take_lines trim parse lines o)
  unfolding take_lines
  take_lines-with_buffer text [] o = refl
  take_lines-with_buffer text (line ∷ lines) o =
      ap (take_lines trim parse lines) (take_line-with_buffer text line o)
      ∙ take_lines-with_buffer text lines (take_line trim parse line o)

  take_lines-append :
      (xs ys : List Text) (o : Output A)
      → take_lines trim parse (xs ++ ys) o ≡ take_lines trim parse ys (take_lines trim parse xs o)
  unfolding take_lines
  take_lines-append [] ys o = refl
  take_lines-append (x ∷ xs) ys o = take_lines-append xs ys (take_line trim parse x o)

  -- The output with its whole text so far in hand.
  take_text : Text → Output A → Output A
  take_text text o =
      with_buffer (last_line (split_lines text))
        (take_lines trim parse (without_last (split_lines text)) o)

  chunk-take_text :
      (chunk : Text) (o : Output A)
      → handle_stdout_chunk trim parse chunk o ≡ take_text (o.stdout_buffer ++ chunk) o
  unfolding handle_stdout_chunk take_text
  chunk-take_text chunk o =
      take_lines-with_buffer (last_line (split_lines (o.stdout_buffer ++ chunk)))
        (without_last (split_lines (o.stdout_buffer ++ chunk))) o

  handle_stdout_chunk-take_text :
      (before chunk : Text) (o : Output A)
      → take_text (before ++ chunk) o ≡ handle_stdout_chunk trim parse chunk (take_text before o)
  unfolding take_text
  handle_stdout_chunk-take_text before chunk o =
      let xs = without_last (split_lines before) in
      let ys = split_lines (last_line (split_lines before) ++ chunk) in
      let some_line = split_lines-ne-nil (last_line (split_lines before) ++ chunk) in
      take_text (before ++ chunk) o
      ≡⟨ ap
          (λ (lines : List Text).
            with_buffer (last_line lines) (take_lines trim parse (without_last lines) o))
          (split_lines-append chunk before) ⟩
        with_buffer (last_line (xs ++ ys)) (take_lines trim parse (without_last (xs ++ ys)) o)
      ≡⟨ rw (last_line-append xs ys some_line, without_last-append xs ys some_line) refl ⟩
        with_buffer (last_line ys) (take_lines trim parse (xs ++ without_last ys) o)
      ≡⟨ ap (with_buffer (last_line ys)) (take_lines-append xs (without_last ys) o) ⟩
        with_buffer (last_line ys)
          (take_lines trim parse (without_last ys) (take_lines trim parse xs o))
      ≡⟨ ap (with_buffer (last_line ys)) (
          sym (
            take_lines-with_buffer (last_line (split_lines before)) (without_last ys)
              (take_lines trim parse xs o))) ⟩
        with_buffer (last_line ys) (take_lines trim parse (without_last ys) (take_text before o))
      ≡⟨ sym (chunk-take_text chunk (take_text before o)) ⟩
        handle_stdout_chunk trim parse chunk (take_text before o) ∎

  -- Two chunks in a row are like one.
  handle_stdout_chunk-append :
      (chunk next : Text) (o : Output A)
      → handle_stdout_chunk trim parse (chunk ++ next) o
        ≡ handle_stdout_chunk trim parse next (handle_stdout_chunk trim parse chunk o)
  handle_stdout_chunk-append chunk next o =
      chunk-take_text (chunk ++ next) o
      ∙ ap (λ (text : Text). take_text text o) (sym (append_assoc o.stdout_buffer chunk next))
      ∙ handle_stdout_chunk-take_text (o.stdout_buffer ++ chunk) next o
      ∙ ap (handle_stdout_chunk trim parse next) (sym (chunk-take_text chunk o))

  -- Texts that arrive one after another are like one.
  handle_chunks-texts :
      (to_string : List ℕ → Text) (chunk : List ℕ) (chunks : List (List ℕ)) (o : Output A)
      → handle_chunks trim parse to_string (chunk ∷ chunks) o
        ≡ handle_stdout_chunk trim parse (flatten (map to_string (chunk ∷ chunks))) o
  unfolding handle_chunks flatten
  handle_chunks-texts to_string chunk [] o =
      ap (λ (text : Text). handle_stdout_chunk trim parse text o)
        (sym (append-nil (to_string chunk)))
  handle_chunks-texts to_string chunk (next ∷ chunks) o =
      handle_chunks-texts to_string next chunks (handle_stdout_chunk trim parse (to_string chunk) o)
      ∙ sym
          (handle_stdout_chunk-append (to_string chunk) (flatten (map to_string (next ∷ chunks))) o)

  -- An output that arrives in one or more chunks of bytes has the effect of one chunk with all its
  -- bytes: the same lines logged, the same progress emitted and the same text kept, if no cut goes
  -- through a character: the texts of the chunks, one after another, are the text of all the bytes.
  pub handle_chunks-flatten :
      (to_string : List ℕ → Text) (chunk : List ℕ) (chunks : List (List ℕ)) (o : Output A)
      → flatten (map to_string (chunk ∷ chunks)) ≡ to_string (flatten (chunk ∷ chunks))
      → handle_chunks trim parse to_string (chunk ∷ chunks) o
        ≡ handle_chunks trim parse to_string (flatten (chunk ∷ chunks) ∷ []) o
  unfolding handle_chunks
  handle_chunks-flatten to_string chunk chunks o whole =
      handle_chunks-texts to_string chunk chunks o
      ∙ ap (λ (text : Text). handle_stdout_chunk trim parse text o) whole
