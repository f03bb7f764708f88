-- ===== src/Sync/Chunks/Progress.antt =====
-- The packing ends with chunks when each row fits into a request of its own.
use facenox.Base.{
  ℕ, zero, suc, ◌+◌, ◌≤◌, ◌<◌, ◌≡◌, refl, ap, List, [], ◌∷◌, ◌++◌, arith, length, length-append,
  All, All-append_right, inl, inr, ltb, true, false, Bool-cases, ltb→lt, le→not_ltb,
  All-append_left,
}
use facenox.Sync.Chunks.{
  Row, Kind, Table, limit, Counters, Filled, Packed, returned, fill, pack, total, json_array,
  pack_all, row_cost, count_row, next_kind, prepend, emptied,
}
use facenox.Sync.Chunks.Fill.{Fills, fill-Fills, fill_progress}
use facenox.Sync.Chunks.Pack.{pack-Packs, pack_cases, tag, tagged}
use facenox.Sync.Chunks.Build.{fresh}

-- Each row fits into a request of its own.
abbrev pub FitsAlone : ℕ → ℕ → Kind × Row → Type 0
FitsAlone max_bytes base (kind, row) = base + length row.json ≤ max_bytes

abbrev pub AllFit : ℕ → ℕ → List Table → Type 0
AllFit max_bytes base tables = All (FitsAlone max_bytes base) (tagged tables)

fill_total :
    (max_bytes base : ℕ) (kind : Kind) (rows target : List Row) (c : Counters)
    → All (FitsAlone max_bytes base) (tag kind rows)
    → (c.added ≡ 0 → (c.bytes ≡ base) × (length target ≡ 0))
    → (f : Filled) × (fill max_bytes kind rows target c ≡ returned f)
unfolding fill
fill_total max_bytes base kind [] target c fits start =
    (record { target = target; left = []; counters = c }, refl)
fill_total max_bytes base kind (row ∷ rows) target c (fit, fits) start =
    elim (Bool-cases (ltb (length target) (limit kind))) [
      | inr full ↦ (record { target = target; left = row ∷ rows; counters = c }, ground arith)
      | inl room ↦ elim (Bool-cases (ltb max_bytes (c.bytes + row_cost target row))) [
        | inl big ↦
            (record { target = target; left = row ∷ rows; counters = c }, ground (arith, start))
        | inr small ↦
            let (f, e) =
              fill_total max_bytes base kind rows (target ++ row ∷ [])
                (count_row (row_cost target row) c) fits (λ z. absurd (omega arith)) in
            (f, rw (room, small) e)
      ]
    ]

nil_of_length : (rows : List Row) → length rows ≡ 0 → rows ≡ []
nil_of_length [] h = refl
nil_of_length (row ∷ rows) h = absurd (omega arith)

next_kind_total :
    (kind : Kind) (tables : List Table) (f : Filled) (left : List Row) (p : Packed)
    → (q : Packed) × (next_kind kind tables f left (returned p) ≡ returned q)
unfolding next_kind
next_kind_total kind tables f [] p = (prepend (kind, f.target) (kind, []) p, refl)
next_kind_total kind tables f (row ∷ left) p = (
  record {
    chunk = (kind, f.target) ∷ emptied tables;
    left = (kind, row ∷ left) ∷ tables;
    counters = f.counters;
  },
  refl,
)

pack_step :
    (max_bytes : ℕ) (kind : Kind) (rows : List Row) (tables : List Table) (c : Counters)
    (f : Filled) (p q : Packed)
    → fill max_bytes kind rows [] c ≡ returned f
    → pack max_bytes tables f.counters ≡ returned p
    → next_kind kind tables f f.left (returned p) ≡ returned q
    → pack max_bytes ((kind, rows) ∷ tables) c ≡ returned q
unfolding pack
pack_step max_bytes kind rows tables c f p q filled packed e = rw (filled, packed) e

-- A loop that took nothing has not counted a byte.
fill-fresh :
    {max_bytes base : ℕ} {kind : Kind} {rows : List Row} {c : Counters} {f : Filled}
    → Fills max_bytes kind rows [] c f
    → (c.added ≡ 0 → c.bytes ≡ base)
    → f.counters.added ≡ 0
    → f.counters.bytes ≡ base
fill-fresh {f} h start none_added =
    let empty : f.target ≡ [] = nil_of_length f.target (omega (arith, h.counted)) in
    omega (
      arith,
      ap (λ (target : List Row). length (json_array target)) empty,
      h.sized,
      start (omega (arith, h.counted)),
    )

pack-total :
    (max_bytes base : ℕ) (tables : List Table) (c : Counters)
    → AllFit max_bytes base tables
    → c.bytes ≤ max_bytes
    → total tables ≤ c.remaining
    → (c.added ≡ 0 → c.bytes ≡ base)
    → (p : Packed) × (pack max_bytes tables c ≡ returned p)
pack-total max_bytes base [] c fits b r start =
    (record { chunk = []; left = []; counters = c }, unfold pack in refl)
pack-total max_bytes base ((kind, rows) ∷ tables) c all_fit b r start =
    let fit = All-append_left (FitsAlone max_bytes base) (tag kind rows) (tagged tables) all_fit in
    let fits =
      All-append_right (FitsAlone max_bytes base) (tag kind rows) (tagged tables) all_fit in
    let (f, filled) = fill_total max_bytes base kind rows [] c fit (λ z. (start z, refl)) in
    let h = fill-Fills max_bytes kind rows [] c f b (omega arith) (omega arith) filled in
    let (p, packed) =
      pack-total max_bytes base tables f.counters fits h.bounded
        (omega (arith, h.remained, ap length h.split, length-append f.target f.left))
        (fill-fresh h start) in
    let (q, e) = next_kind_total kind tables f f.left p in
    (q, pack_step max_bytes kind rows tables c f p q filled packed e)

no_target :
    {max_bytes : ℕ} {kind : Kind} {c : Counters} {f : Filled}
    → Fills max_bytes kind [] [] c f
    → length f.target + length f.left ≡ 0
no_target {f} h = omega (arith, ap length h.split, length-append f.target f.left)

pack_progress :
    (max_bytes : ℕ) (tables : List Table) (c : Counters) (p : Packed)
    → c.added ≡ 0
    → c.bytes ≤ max_bytes
    → total tables ≤ c.remaining
    → pack max_bytes tables c ≡ returned p
    → 0 < total tables
    → 0 < total p.chunk
pack_progress max_bytes [] c p z b r e some = absurd (omega arith)
pack_progress max_bytes ((kind, row ∷ rows) ∷ tables) c p z b r e some =
    let (f, filled, next) = pack_cases max_bytes kind (row ∷ rows) tables c p e in
    let took = fill_progress max_bytes kind row rows c f z b (omega arith) filled in
    elim next [
      | inl (_, (q, _, same)) ↦ rw same (omega (arith, took))
      | inr (_, same) ↦ rw same (omega (arith, took))
    ]
pack_progress max_bytes ((kind, []) ∷ tables) c p z b r e some =
    let (f, filled, next) = pack_cases max_bytes kind [] tables c p e in
    let h = fill-Fills max_bytes kind [] [] c f b (omega arith) (omega arith) filled in
    elim next [
      | inl (_, (q, packed, same)) ↦
          let more =
            pack_progress max_bytes tables f.counters q (omega (arith, h.counted, no_target h))
              h.bounded (omega (arith, h.remained, no_target h)) packed (omega arith) in
          rw same (omega (arith, more))
      | inr (waiting, _) ↦ absurd (omega (arith, waiting, no_target h))
    ]

module _ (fuel max_bytes base : ℕ) (tables : List Table) (p : Packed) where
  pack_all_last :
      base ≤ max_bytes
      → pack max_bytes tables (fresh base (total tables)) ≡ returned p
      → ltb 0 p.counters.remaining ≡ false
      → pack_all (suc fuel) max_bytes base tables (total tables) ≡ returned (p.chunk ∷ [])
  unfolding pack_all
  pack_all_last b packed done = rw (le→not_ltb max_bytes base b, packed, done)

  pack_all_more :
      (rest : List (List Table))
      → base ≤ max_bytes
      → pack max_bytes tables (fresh base (total tables)) ≡ returned p
      → ltb 0 p.counters.remaining ≡ true
      → p.counters.remaining ≡ total p.left
      → pack_all fuel max_bytes base p.left (total p.left) ≡ returned rest
      → pack_all (suc fuel) max_bytes base tables (total tables) ≡ returned (p.chunk ∷ rest)
  unfolding pack_all
  pack_all_more rest b packed again left r =
      rw (le→not_ltb max_bytes base b, packed, again, left, r)

-- With fuel for a chunk per row the loop delivers, and never stops for want of fuel.
pub pack_all-total :
    (fuel max_bytes base : ℕ) (tables : List Table)
    → base ≤ max_bytes
    → AllFit max_bytes base tables
    → total tables < fuel
    → (chunks : List (List Table)) × (pack_all fuel max_bytes base tables (total tables)
        ≡ returned chunks)
pack_all-total zero max_bytes base tables b fits enough = absurd (omega arith)
pack_all-total (suc fuel) max_bytes base tables b fits enough =
    let (p, packed) =
      pack-total max_bytes base tables (fresh base (total tables)) fits b (omega arith)
        (λ z. refl) in
    let h = pack-Packs max_bytes tables (fresh base (total tables)) p b (omega arith) packed in
    let left : p.counters.remaining ≡ total p.left = omega (arith, h.remained, h.split) in
    elim (Bool-cases (ltb 0 p.counters.remaining)) [
      | inr done ↦ (p.chunk ∷ [], pack_all_last fuel max_bytes base tables p b packed done)
      | inl again ↦
          let some : 0 < total tables =
            omega (arith, ltb→lt 0 p.counters.remaining again, h.split, left) in
          let progress =
            pack_progress max_bytes tables (fresh base (total tables)) p refl b (omega arith) packed
              some in
          let (rest, r) =
            pack_all-total fuel max_bytes base p.left b
              (All-append_right (FitsAlone max_bytes base) (tagged p.chunk) (tagged p.left)
                (rw h.order fits))
              (omega (arith, h.split, progress)) in
          (p.chunk ∷ rest, pack_all_more fuel max_bytes base tables p rest b packed again left r)
    ]
