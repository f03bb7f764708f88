-- ===== src/BackendProcess/Log/Laws.antt =====
-- What is written to the log until a rotation is done.
use facenox.Base.{
  ℕ, ◌+◌, ◌≡◌, refl, sym, ap, ◌∙◌, ◌≤◌, true, false, List, [], ◌∷◌, ◌++◌, ltb, if_elim, ◌⊎◌, inl,
  inr, arith, append_assoc, append-nil,
}
use facenox.Base.Text.{Text}
use facenox.BackendProcess.Log.{
  Log, max_log_size, rotate_backend_log, write_to_backend_log, write_all,
}

-- The log is written to, or is rotating.
abbrev pub Usable : Log → Type 0
Usable l =
    ((l.has_stream ≡ true) × (l.is_rotating ≡ false) × (l.queue ≡ []))
    ⊎ ((l.has_stream ≡ false) × (l.is_rotating ≡ true))

-- The texts since the last rotation: those in the file and those that wait.
abbrev pub texts_since : Log → List Text
texts_since l = l.file ++ l.queue

-- What a step from one log to another by some texts keeps.
abbrev Keeps : Log → List Text → Log → Type 0
Keeps l texts l' =
    Usable l'
    × (texts_since l' ≡ texts_since l ++ texts)
    × (l'.old_file ≡ l.old_file)
    × (l'.size ≤ max_log_size)

append-swap :
    (file queue : List Text) (text : Text)
    → queue ≡ []
    → (file ++ text ∷ []) ++ queue ≡ (file ++ queue) ++ text ∷ []
append-swap file queue text h =
    ap (λ (q : List Text). (file ++ text ∷ []) ++ q) h
    ∙ (append-nil (file ++ text ∷ [])
        ∙ sym (
            ap (λ (q : List Text). (file ++ q) ++ text ∷ []) h
            ∙ ap (λ (f : List Text). f ++ text ∷ []) (append-nil file)))

module _ (byte_length : Text → ℕ) (notice : Text) where
  write_to_backend_log-Keeps :
      (text : Text) (l : Log)
      → Usable l
      → l.size ≤ max_log_size
      → Keeps l (text ∷ []) (write_to_backend_log byte_length notice text l)
  unfolding write_to_backend_log rotate_backend_log
  write_to_backend_log-Keeps text l (inl (stream, rotating, queue)) small =
      rw (rotating, stream)
        (if_elim (Keeps l (text ∷ [])) (ltb max_log_size (l.size + byte_length text))
          (λ _. (inr (refl, refl), sym (append_assoc l.file l.queue (text ∷ [])), refl, small))
          (λ fits.
            (inl (refl, refl, queue), append-swap l.file l.queue text queue, refl, ground arith)))
  write_to_backend_log-Keeps text l (inr (stream, rotating)) small =
      rw (rotating) (inr (stream, refl), sym (append_assoc l.file l.queue (text ∷ [])), refl, small)

  -- What is written to a usable log stands behind what was there, in the file or in the queue, in
  -- order and each text once; the older file is left as it is, and the size stays within the limit.
  pub write_all-Keeps :
      (texts : List Text) (l : Log)
      → Usable l
      → l.size ≤ max_log_size
      → Keeps l texts (write_all byte_length notice texts l)
  unfolding write_all
  write_all-Keeps [] l usable small = (usable, sym (append-nil (texts_since l)), refl, small)
  write_all-Keeps (text ∷ texts) l usable small =
      let (usable', kept, old, small') = write_to_backend_log-Keeps text l usable small in
      let (usable'', kept', old', small'') =
        write_all-Keeps texts (write_to_backend_log byte_length notice text l) usable' small' in
      (
        usable'',
        kept'
            ∙ (ap (λ (t : List Text). t ++ texts) kept
                ∙ append_assoc (texts_since l) (text ∷ []) texts),
        old' ∙ old,
        small'',
      )
