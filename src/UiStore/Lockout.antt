-- ===== src/UiStore/Lockout.antt =====
-- app/src/components/main/stores/uiStore.ts: the time that the lockouts of wrong PINs take together.
use facenox.Base.{ℕ, zero, suc, ◌+◌, ◌*◌, ◌-◌, ◌≤◌, ◌≡◌, refl, ltb, if◌then◌else◌, arith}
use facenox.UiStore.{lockout_seconds}

-- The lockouts that the first wrong PINs bring, in milliseconds.
abbrev pub waited : ℕ → ℕ
waited zero = 0
waited (suc n) = waited n + lockout_seconds (suc n) * 1000

add_one : (n : ℕ) → n + 1 ≡ suc n
add_one n = omega arith

pub waited_next : (n : ℕ) → waited (n + 1) ≡ waited n + lockout_seconds (n + 1) * 1000
waited_next n = rw (add_one n) refl

pub first_two : (n : ℕ) → lockout_seconds (n + 1) ≡ 0 → waited n ≡ 0
first_two zero h = refl
first_two (suc zero) h = refl
first_two (suc (suc n)) h = absurd (ground arith)

pub paced :
    (start limit now n until w seconds : ℕ)
    → start ≤ now
    → now ≤ limit
    → until ≤ now
    → w ≤ until - start
    → (seconds ≡ 0 → w ≡ 0)
    → (w + seconds * 1000 ≤ (if ltb 0 seconds then now + seconds * 1000 else 0) - start)
      × ((if ltb 0 seconds then now + seconds * 1000 else 0) ≤ limit + seconds * 1000)
paced start limit now n until w seconds s a b c d = ground (arith, d)

lockout_bound :
    (n w : ℕ)
    → (n ≡ 9 → w ≡ 660000)
    → (n - 9) * 900000 + lockout_seconds n * 1000 ≤ w + 240000
    → (suc n - 9) * 900000 + lockout_seconds (suc n) * 1000
      ≤ w + lockout_seconds (suc n) * 1000 + 240000
lockout_bound n w h k = ground (arith, h)

waited_nine : (n : ℕ) → n ≡ 9 → waited n ≡ 660000
waited_nine n h = rw h refl

pub waited_bound : (n : ℕ) → (n - 9) * 900000 + lockout_seconds n * 1000 ≤ waited n + 240000
waited_bound zero = omega arith
waited_bound (suc n) = lockout_bound n (waited n) (waited_nine n) (waited_bound n)
