-- ===== src/BackendProcess/Restarts.antt =====
-- How often a crashing local service is restarted.
use facenox.Base.{
  ℕ, suc, ◌+◌, ◌-◌, ◌≡◌, refl, ap, ◌∙◌, ◌≤◌, ◌<◌, false, not, ◌&&◌, List, [], ◌∷◌, ◌++◌, Option,
  ltb, leb, leb→le, ltb→lt, and_split, length, keep, if◌then◌else◌, if_elim, Bool-cases, inl, inr,
  arith, append_assoc,
}
use facenox.BackendProcess.{
  Process, crash_window, max_crashes_per_window, add_crash, on_exit, is_zero, ProcessEvent, exited,
  started, ready, stopped, process_event, restart_of, restarts, time_if_some,
}

-- The times within the window that begins at a time, and those since.
abbrev pub within : ℕ → List ℕ → ℕ
within first [] = 0
within first (t ∷ times) =
    if leb first t && ltb t (first + crash_window)
    then suc (within first times)
    else within first times

abbrev since : ℕ → List ℕ → ℕ
since first [] = 0
since first (t ∷ times) = if leb first t then suc (since first times) else since first times

within-since : (first : ℕ) (times : List ℕ) → within first times ≤ since first times
within-since first [] = omega arith
within-since first (t ∷ times) = ground (arith, within-since first times)

since-length : (first : ℕ) (times : List ℕ) → since first times ≤ length times
since-length first [] = omega arith
since-length first (t ∷ times) = ground (arith, since-length first times)

since-append : (first : ℕ) (s t : List ℕ) → since first (s ++ t) ≡ since first s + since first t
since-append first [] t = omega arith
since-append first (x ∷ s) t = ground (arith, since-append first s t)

within-append : (first : ℕ) (s t : List ℕ) → within first (s ++ t) ≡ within first s + within first t
within-append first [] t = omega arith
within-append first (x ∷ s) t = ground (arith, within-append first s t)

-- The crashes since a time that is less than a window ago are all kept.
since-keep :
    (first now : ℕ) (crashes : List ℕ)
    → now < first + crash_window
    → since first (keep (λ t. ltb (now - t) crash_window) crashes) ≡ since first crashes
since-keep first now [] h = refl
since-keep first now (t ∷ crashes) h = ground (arith, since-keep first now crashes)

since-add_crash :
    (first now : ℕ) (crashes : List ℕ)
    → now < first + crash_window
    → since first (add_crash now crashes) ≡ since first crashes + since first (now ∷ [])
unfolding add_crash
since-add_crash first now crashes h =
    since-append first (keep (λ t. ltb (now - t) crash_window) crashes) (now ∷ [])
    ∙ ap (λ (n : ℕ). n + since first (now ∷ [])) (since-keep first now crashes h)

-- The clock does not go back between the exits.
abbrev pub Ordered : ℕ → List ProcessEvent → Type 0
Ordered last [] = Unit {0}
Ordered last (exited now code ∷ events) = (last ≤ now) × Ordered now events
Ordered last (started ∷ events) = Ordered last events
Ordered last (ready ∷ events) = Ordered last events
Ordered last (stopped ∷ events) = Ordered last events

within-outside :
    (first now : ℕ)
    → (leb first now && ltb now (first + crash_window)) ≡ false
    → within first (now ∷ []) ≡ 0
within-outside first now h = rw h refl

-- No window holds more than five restarts, and those of the last window are among the crashes.
abbrev Limited : ℕ → List ℕ → List ℕ → Type 0
Limited last past crashes =
    ((first : ℕ) → within first past ≤ max_crashes_per_window)
    × ((first : ℕ) → last < first + crash_window → since first past ≤ since first crashes)

none-Limited :
    (last now : ℕ) (past crashes : List ℕ)
    → last ≤ now
    → Limited last past crashes
    → Limited now (past ++ []) crashes
none-Limited last now past crashes later (few, among) = (
  λ first. omega (arith, within-append first past [], few first),
  λ first near. omega (arith, since-append first past [], among first (omega (arith, near, later))),
)

restart-Limited :
    (last now : ℕ) (past crashes : List ℕ)
    → last ≤ now
    → Limited last past crashes
    → length (add_crash now crashes) ≤ max_crashes_per_window
    → Limited now (past ++ now ∷ []) (add_crash now crashes)
restart-Limited last now past crashes later (few, among) room = (
  λ first. elim (Bool-cases (leb first now && ltb now (first + crash_window))) [
    | inl inside ↦
        let near =
          ltb→lt now (first + crash_window)
            (and_split (leb first now) (ltb now (first + crash_window)) inside).1 in
        omega (
          arith,
          within-append first past (now ∷ []),
          within-since first past,
          within-since first (now ∷ []),
          among first (omega (arith, near, later)),
          since-add_crash first now crashes near,
          since-length first (add_crash now crashes),
          room,
        )
    | inr outside ↦
        omega
          (arith, within-append first past (now ∷ []), few first, within-outside first now outside)
  ],
  λ first near. omega (
    arith,
    since-append first past (now ∷ []),
    among first (omega (arith, near, later)),
    since-add_crash first now crashes near,
  ),
)

halt-Limited :
    (last now : ℕ) (past crashes : List ℕ)
    → last ≤ now
    → Limited last past crashes
    → Limited now (past ++ []) (add_crash now crashes)
halt-Limited last now past crashes later (few, among) = (
  λ first. omega (arith, within-append first past [], few first),
  λ first near. omega (
    arith,
    since-append first past [],
    among first (omega (arith, near, later)),
    since-add_crash first now crashes near,
  ),
)

on_exit-Limited :
    (last now : ℕ) (code : Option ℕ) (p : Process) (past : List ℕ)
    → last ≤ now
    → Limited last past p.crash_timestamps
    → Limited now
        (past ++ time_if_some now (on_exit now code p).1)
        (on_exit now code p).0.crash_timestamps
unfolding on_exit
on_exit-Limited last now code p past later limited =
    let crashes = add_crash now p.crash_timestamps in
    if_elim
      (λ (r : Process × Option ℕ). Limited now (past ++ time_if_some now r.1) r.0.crash_timestamps)
      (not p.is_stopping_manually && not (is_zero code))
      (λ _.
        if_elim (λ (d : Option ℕ). Limited now (past ++ time_if_some now d) crashes)
          (leb (length crashes) max_crashes_per_window)
          (λ room.
            restart-Limited last now past p.crash_timestamps later limited
              (leb→le (length crashes) max_crashes_per_window room))
          (λ _. halt-Limited last now past p.crash_timestamps later limited))
      (λ _. none-Limited last now past p.crash_timestamps later limited)

restarts-Limited :
    (events : List ProcessEvent) (last : ℕ) (p : Process) (past : List ℕ)
    → Ordered last events
    → Limited last past p.crash_timestamps
    → (first : ℕ) → within first (past ++ restarts events p) ≤ max_crashes_per_window
unfolding restarts process_event restart_of
restarts-Limited [] last p past ordered limited first =
    omega (arith, within-append first past [], limited.0 first)
restarts-Limited (exited now code ∷ events) last p past (later, ordered) limited first =
    rw⁻¹
      (append_assoc past (time_if_some now (on_exit now code p).1)
        (restarts events (on_exit now code p).0))
      (restarts-Limited events now (on_exit now code p).0
        (past ++ time_if_some now (on_exit now code p).1) ordered
        (on_exit-Limited last now code p past later limited) first)
restarts-Limited (started ∷ events) last p past ordered limited first =
    restarts-Limited events last (process_event started p) past ordered limited first
restarts-Limited (ready ∷ events) last p past ordered limited first =
    restarts-Limited events last (process_event ready p) past ordered limited first
restarts-Limited (stopped ∷ events) last p past ordered limited first =
    restarts-Limited events last (process_event stopped p) past ordered limited first

-- However the process exits and is started and stopped, at most five restarts are set up within any
-- minute, if no crash is known at first and the clock does not go back between the exits.
pub within-restarts :
    (events : List ProcessEvent) (p : Process) (first : ℕ)
    → p.crash_timestamps ≡ []
    → Ordered 0 events
    → within first (restarts events p) ≤ max_crashes_per_window
within-restarts events p first clean ordered =
    restarts-Limited events 0 p [] ordered (λ _. omega arith, λ _ _. omega arith) first
