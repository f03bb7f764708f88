-- ===== src/Sync/Chunks/Build.antt =====
-- The sequence of chunks: order, row limits and size.
use facenox.Base.{
  ℕ, zero, suc, ◌+◌, ◌≤◌, ◌<◌, ◌≡◌, refl, sym, ◌∙◌, ap, List, [], ◌∷◌, ◌++◌, arith, length,
  length-append, All, ◌⊎◌, inl, inr, ltb, Bool-cases,
}
use facenox.Sync.Chunks.{
  Row, Kind, Table, Envelope, Bytes, Counters, Packed, returned, pack, emptied, total, encode,
  encode_tables, pack_all, bind_returned, ◌>>=◌, next_chunk,
}
use facenox.Sync.Chunks.Pack.{Packs, pack-Packs, tagged, WithinLimit}

abbrev pub fresh : ℕ → ℕ → Counters
fresh base remaining = record { bytes = base; added = 0; remaining = remaining }

-- The rows of a sequence of requests, in the order in which they are sent.
abbrev pub sent : List (List Table) → List (Kind × Row)
sent [] = []
sent (tables ∷ chunks) = tagged tables ++ sent chunks

pub length-encode :
    (env : Envelope) (id : Bytes) (tables : List Table)
    → length (encode env id tables)
      ≡ length env.head
        + length id
        + length env.middle
        + length (encode_tables env tables)
        + length env.tail
unfolding encode
length-encode env id tables = omega (
  arith,
  length-append env.head (id ++ (env.middle ++ (encode_tables env tables ++ env.tail))),
  length-append id (env.middle ++ (encode_tables env tables ++ env.tail)),
  length-append env.middle (encode_tables env tables ++ env.tail),
  length-append (encode_tables env tables) env.tail,
)

abbrev pub Last : ℕ → Packed → List (List Table) → Type 0
Last fuel p chunks = (p.counters.remaining ≡ 0) × (chunks ≡ p.chunk ∷ [])

abbrev pub More : ℕ → ℕ → ℕ → Packed → List (List Table) → Type 0
More fuel max_bytes base p chunks =
    (rest : List (List Table)) × (0 < p.counters.remaining)
    × (pack_all fuel max_bytes base p.left p.counters.remaining ≡ returned rest)
    × (chunks ≡ p.chunk ∷ rest)

next_chunk_cases :
    (fuel max_bytes base : ℕ) (p : Packed) (chunks : List (List Table))
    → next_chunk p.chunk p.counters.remaining
        (pack_all fuel max_bytes base p.left p.counters.remaining)
      ≡ returned chunks
    → Last fuel p chunks ⊎ More fuel max_bytes base p chunks
next_chunk_cases fuel max_bytes base p chunks e = elim (Bool-cases (ltb 0 p.counters.remaining)) [
  | inl more ↦
      let (rest, r, same) =
        bind_returned (pack_all fuel max_bytes base p.left p.counters.remaining)
          (λ rest. returned (p.chunk ∷ rest)) (rw more at e) in
      inr (rest, ground arith, r, cc)
  | inr last ↦ inl (ground arith, ground arith)
]

packs_first :
    (fuel max_bytes base : ℕ) (tables : List Table) (remaining : ℕ) (chunks : List (List Table))
    → pack_all (suc fuel) max_bytes base tables remaining ≡ returned chunks
    → (base ≤ max_bytes)
      × ((pack max_bytes tables (fresh base remaining) >>= λ p.
            next_chunk p.chunk p.counters.remaining
              (pack_all fuel max_bytes base p.left p.counters.remaining))
          ≡ returned chunks)
unfolding pack_all
packs_first fuel max_bytes base tables remaining chunks e = ground arith

-- A round of the outer loop packs a chunk, and is the last exactly when no row remains.
pub pack_all_cases :
    (fuel max_bytes base : ℕ) (tables : List Table) (remaining : ℕ) (chunks : List (List Table))
    → pack_all (suc fuel) max_bytes base tables remaining ≡ returned chunks
    → (base ≤ max_bytes)
      × ((p : Packed) × (pack max_bytes tables (fresh base remaining) ≡ returned p)
          × (Last fuel p chunks ⊎ More fuel max_bytes base p chunks))
pack_all_cases fuel max_bytes base tables remaining chunks e =
    let (fits, bound) = packs_first fuel max_bytes base tables remaining chunks e in
    let (p, packed, next) =
      bind_returned (pack max_bytes tables (fresh base remaining))
        (λ p.
          next_chunk p.chunk p.counters.remaining
            (pack_all fuel max_bytes base p.left p.counters.remaining))
        bound in
    (fits, (p, packed, next_chunk_cases fuel max_bytes base p chunks next))

pub record Delivers (max_bytes base : ℕ) (tables : List Table) (chunks : List (List Table))
    : Type 0 where
  pub order : sent chunks ≡ tagged tables
  pub limited : All (All WithinLimit) chunks
  pub sized :
      (env : Envelope) (id : Bytes)
      → length (encode env id (emptied tables)) ≡ base
      → All (λ chunk. length (encode env id chunk) ≤ max_bytes) chunks

chunk-fits :
    (max_bytes base remaining : ℕ) (tables : List Table) (p : Packed)
    → Packs max_bytes tables (fresh base remaining) p
    → (env : Envelope) (id : Bytes) → length (encode env id (emptied tables)) ≡ base
    → length (encode env id p.chunk) ≤ max_bytes
chunk-fits max_bytes base remaining tables p h env id same = omega (
  arith,
  h.bounded,
  h.sized env,
  length-encode env id p.chunk,
  length-encode env id (emptied tables),
)

nothing-left : (tables : List Table) → total tables ≡ 0 → tagged tables ≡ []
nothing-left [] h = refl
nothing-left ((kind, []) ∷ tables) h = nothing-left tables (omega arith)
nothing-left ((kind, row ∷ rows) ∷ tables) h = absurd (omega arith)

pub pack_all-Delivers :
    (fuel max_bytes base : ℕ) (tables : List Table) (chunks : List (List Table))
    → pack_all fuel max_bytes base tables (total tables) ≡ returned chunks
    → Delivers max_bytes base tables chunks
pack_all-Delivers zero max_bytes base tables chunks e = absurd (unfold pack_all in cc)
pack_all-Delivers (suc fuel) max_bytes base tables chunks e =
    let (fits, (p, packed, next)) =
      pack_all_cases fuel max_bytes base tables (total tables) chunks e in
    let h = pack-Packs max_bytes tables (fresh base (total tables)) p fits (omega arith) packed in
    let left : p.counters.remaining ≡ total p.left = omega (arith, h.remained, h.split) in
    elim next [
      | inl (none_left, same) ↦ rw same (record {
        order =
            ap (◌++◌ (tagged p.chunk)) (sym (nothing-left p.left (omega (arith, left)))) ∙ h.order;
        limited = (h.limited, tt);
        sized = λ env id b. (chunk-fits max_bytes base (total tables) tables p h env id b, tt);
      })
      | inr (rest, some_left, r, same) ↦
          let k = pack_all-Delivers fuel max_bytes base p.left rest (rw left at r) in
          rw same (record {
            order = ap (◌++◌ (tagged p.chunk)) k.order ∙ h.order;
            limited = (h.limited, k.limited);
            sized = λ env id b. (
              chunk-fits max_bytes base (total tables) tables p h env id b,
              k.sized env id (rw h.same_kinds b),
            );
          })
    ]

pub pack_all-length :
    (fuel max_bytes base : ℕ) (tables : List Table) (remaining : ℕ) (chunks : List (List Table))
    → pack_all fuel max_bytes base tables remaining ≡ returned chunks
    → length chunks ≤ fuel
pack_all-length zero max_bytes base tables remaining chunks e = absurd (unfold pack_all in cc)
pack_all-length (suc fuel) max_bytes base tables remaining chunks e =
    let (_, (p, _, next)) = pack_all_cases fuel max_bytes base tables remaining chunks e in
    elim next [
      | inl (_, same) ↦ rw same (omega arith)
      | inr (rest, _, r, same) ↦
          rw same (omega (arith, pack_all-length fuel max_bytes base p.left _ rest r))
    ]
