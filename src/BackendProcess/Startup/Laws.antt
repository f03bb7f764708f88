-- ===== src/BackendProcess/Startup/Laws.antt =====
-- The wait for the service comes to an end.
use facenox.Base.{
  ℕ, zero, suc, ◌+◌, ◌*◌, ◌≤◌, ◌<◌, ◌≡◌, refl, inl, inr, arith, true, Option, none, some,
  Bool-cases, Option-cases,
}
use facenox.BackendProcess.Startup.{
  Round, Outcome, is_ready, has_exited, has_timed_out, unless_exited, is_overdue, round_outcome,
  max_hard_ceiling, round_delay, wait_for_backend_ready,
}

module _ (timeout start_time : ℕ) where
  unless_exited-overdue :
      (exit_code : Option ℕ) (r : Round)
      → is_overdue timeout start_time r ≡ true
      → (outcome : Outcome) × (unless_exited timeout start_time exit_code r ≡ some outcome)
  unless_exited-overdue (some code) r h = (has_exited code, refl)
  unless_exited-overdue none r h = elim (Bool-cases r.is_healthy) [
    | inl healthy ↦ (is_ready, rw healthy refl)
    | inr other ↦ (has_timed_out, simp (other, h))
  ]

  -- A round at the hard ceiling is the last.
  round_outcome-overdue :
      (r : Round)
      → start_time + max_hard_ceiling timeout ≤ r.now
      → (outcome : Outcome) × (round_outcome timeout start_time r ≡ some outcome)
  unfolding round_outcome is_overdue
  round_outcome-overdue r h = unless_exited-overdue r.exit_code r (ground arith)

  -- Where a round has an outcome, the wait ends with that of the first round that has one.
  abbrev EndsWithin : ℕ → (ℕ → Round) → Type 0
  EndsWithin n rounds =
      (k : ℕ) × (outcome : Outcome) × (k ≤ n)
      × (wait_for_backend_ready timeout start_time (suc n) rounds ≡ some outcome)
      × (round_outcome timeout start_time (rounds k) ≡ some outcome)
      × ((j : ℕ) → j < k → round_outcome timeout start_time (rounds j) ≡ none)

  none-below :
      (rounds : ℕ → Round) (k : ℕ)
      → round_outcome timeout start_time (rounds 0) ≡ none
      → ((j : ℕ) → j < k → round_outcome timeout start_time (rounds (suc j)) ≡ none)
      → (j : ℕ) → j < suc k
      → round_outcome timeout start_time (rounds j) ≡ none
  none-below rounds k first later zero lt = first
  none-below rounds k first later (suc j) lt = later j (omega arith)

  next-EndsWithin :
      (n : ℕ) (rounds : ℕ → Round)
      → round_outcome timeout start_time (rounds 0) ≡ none
      → EndsWithin n (λ i. rounds (suc i))
      → EndsWithin (suc n) rounds
  unfolding wait_for_backend_ready
  next-EndsWithin n rounds h (k, outcome, le, ends, at, before) = (
    suc k,
    outcome,
    omega arith,
    rw (h, wait_for_backend_ready) ends,
    at,
    none-below rounds k h before,
  )

  now-EndsWithin :
      (n : ℕ) (rounds : ℕ → Round) {outcome : Outcome}
      → round_outcome timeout start_time (rounds 0) ≡ some outcome
      → EndsWithin n rounds
  unfolding wait_for_backend_ready
  now-EndsWithin n rounds {outcome} h =
      (0, outcome, omega arith, rw (h, wait_for_backend_ready) refl, h, λ j lt. elim lt [ ])

  wait-EndsWithin :
      (n : ℕ) (rounds : ℕ → Round) {outcome : Outcome}
      → round_outcome timeout start_time (rounds n) ≡ some outcome
      → EndsWithin n rounds
  wait-EndsWithin zero rounds h = now-EndsWithin 0 rounds h
  wait-EndsWithin (suc n) rounds h =
      elim (Option-cases (round_outcome timeout start_time (rounds 0))) [
        | inl first ↦ next-EndsWithin n rounds first (wait-EndsWithin n (λ i. rounds (suc i)) h)
        | inr (outcome, first) ↦ now-EndsWithin (suc n) rounds first
      ]

  spaced-le :
      (rounds : ℕ → Round)
      → ((i : ℕ) → (rounds i).now + round_delay ≤ (rounds (suc i)).now)
      → (n : ℕ) → (rounds 0).now + round_delay * n ≤ (rounds n).now
  spaced-le rounds spaced zero = omega arith
  spaced-le rounds spaced (suc n) = omega (arith, spaced-le rounds spaced n, spaced n)

  -- If the first round is not before the start, the clock advances by at least the delay from each
  -- round to the next, and `n` delays reach the hard ceiling, the wait ends within the rounds up to
  -- the `n`-th, with the outcome of the first round that has one.
  pub wait_for_backend_ready_ends :
      (n : ℕ) (rounds : ℕ → Round)
      → start_time ≤ (rounds 0).now
      → ((i : ℕ) → (rounds i).now + round_delay ≤ (rounds (suc i)).now)
      → max_hard_ceiling timeout ≤ round_delay * n
      → (k : ℕ) × (outcome : Outcome) × (k ≤ n)
        × (wait_for_backend_ready timeout start_time (suc n) rounds ≡ some outcome)
        × (round_outcome timeout start_time (rounds k) ≡ some outcome)
        × ((j : ℕ) → j < k → round_outcome timeout start_time (rounds j) ≡ none)
  wait_for_backend_ready_ends n rounds started spaced reached =
      let (outcome, e) =
        round_outcome-overdue (rounds n) (omega (arith, spaced-le rounds spaced n)) in
      wait-EndsWithin n rounds e
