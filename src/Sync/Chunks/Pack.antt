-- ===== src/Sync/Chunks/Pack.antt =====
-- One chunk: the loop over the kinds.
use facenox.Base.{
  ℕ, ◌+◌, ◌≤◌, ◌<◌, ◌≡◌, refl, ◌∙◌, ap, List, [], ◌∷◌, ◌++◌, arith, map, append-nil, append_assoc,
  length, length-append, All, ◌⊎◌, inl, inr,
}
use mathlib.Core.List.{map-append}
use facenox.Sync.Chunks.{
  Row, Kind, Table, Envelope, limit, Counters, Filled, Packed, Packing, returned, fill, pack,
  emptied, prepend, total, encode_tables, json_array, next_kind, bind_returned,
}
use facenox.Sync.Chunks.Fill.{Fills, fill-Fills}

abbrev pub tag : Kind → List Row → List (Kind × Row)
tag kind = map (λ row. (kind, row))

-- The rows of a request, kind by kind, each with its kind.
abbrev pub tagged : List Table → List (Kind × Row)
tagged [] = []
tagged ((kind, rows) ∷ tables) = tag kind rows ++ tagged tables

abbrev pub WithinLimit : Table → Type 0
WithinLimit (kind, rows) = length rows ≤ limit kind

pub record Packs (max_bytes : ℕ) (tables : List Table) (c : Counters) (p : Packed) : Type 0 where
  pub order : tagged p.chunk ++ tagged p.left ≡ tagged tables
  pub same_kinds : emptied p.left ≡ emptied tables
  pub counted : p.counters.added ≡ c.added + total p.chunk
  pub remained : p.counters.remaining + total p.chunk ≡ c.remaining
  pub split : total p.chunk + total p.left ≡ total tables
  pub sized :
      (env : Envelope)
      → p.counters.bytes + length (encode_tables env (emptied tables))
        ≡ c.bytes + length (encode_tables env p.chunk)
  pub bounded : p.counters.bytes ≤ max_bytes
  pub limited : All WithinLimit p.chunk

tagged-emptied : (tables : List Table) → tagged (emptied tables) ≡ []
tagged-emptied [] = refl
tagged-emptied ((kind, rows) ∷ tables) = tagged-emptied tables

total-emptied : (tables : List Table) → total (emptied tables) ≡ 0
total-emptied [] = refl
total-emptied ((kind, rows) ∷ tables) = omega (arith, total-emptied tables)

emptied-WithinLimit : (tables : List Table) → All WithinLimit (emptied tables)
emptied-WithinLimit [] = tt
emptied-WithinLimit ((kind, rows) ∷ tables) = (omega arith, emptied-WithinLimit tables)

pub encode_tables-cons :
    (env : Envelope) (kind : Kind) (rows : List Row) (tables : List Table)
    → length (encode_tables env ((kind, rows) ∷ tables))
      ≡ length (env.label kind) + length (json_array rows) + length (encode_tables env tables)
unfolding encode_tables
encode_tables-cons env kind rows tables = omega (
  arith,
  length-append (env.label kind) (json_array rows ++ encode_tables env tables),
  length-append (json_array rows) (encode_tables env tables),
)

abbrev pub ends_chunk : Kind → List Table → Filled → Packed
ends_chunk kind tables f = record {
  chunk = (kind, f.target) ∷ emptied tables;
  left = (kind, f.left) ∷ tables;
  counters = f.counters;
}

next_kind_cases :
    (kind : Kind) (tables : List Table) (f : Filled) (left : List Row) (rest : Packing Packed)
    (p : Packed)
    → f.left ≡ left
    → next_kind kind tables f left rest ≡ returned p
    → ((f.left ≡ [])
        × ((q : Packed) × (rest ≡ returned q) × (p ≡ prepend (kind, f.target) (kind, []) q)))
      ⊎ ((0 < length f.left) × (p ≡ ends_chunk kind tables f))
unfolding next_kind
next_kind_cases kind tables f [] rest p l e =
    let (q, r, same) =
      bind_returned rest (λ q. returned (prepend (kind, f.target) (kind, []) q)) e in
    inl (l, (q, r, cc))
next_kind_cases kind tables f (row ∷ left) rest p l e = inr (omega (arith, ap length l), rw l (cc))

-- Either the rows of the first kind are finished and the other kinds follow, or they end the chunk.
pub pack_cases :
    (max_bytes : ℕ) (kind : Kind) (rows : List Row) (tables : List Table) (c : Counters)
    (p : Packed)
    → pack max_bytes ((kind, rows) ∷ tables) c ≡ returned p
    → (f : Filled) × (fill max_bytes kind rows [] c ≡ returned f)
      × (((f.left ≡ [])
            × ((q : Packed) × (pack max_bytes tables f.counters ≡ returned q)
                × (p ≡ prepend (kind, f.target) (kind, []) q)))
          ⊎ ((0 < length f.left) × (p ≡ ends_chunk kind tables f)))
unfolding pack
pack_cases max_bytes kind rows tables c p e =
    let (f, filled, next) =
      bind_returned (fill max_bytes kind rows [] c)
        (λ f. next_kind kind tables f f.left (pack max_bytes tables f.counters)) e in
    (f, filled, next_kind_cases kind tables f f.left _ p refl next)

ended-Packs :
    (max_bytes : ℕ) (kind : Kind) (rows : List Row) (tables : List Table) (c : Counters)
    (f : Filled)
    → Fills max_bytes kind rows [] c f
    → Packs max_bytes ((kind, rows) ∷ tables) c (ends_chunk kind tables f)
ended-Packs max_bytes kind rows tables c f h = record {
  order = rw (← h.split) (simp (tagged-emptied, map-append, append_assoc, append-nil));
  same_kinds = refl;
  counted = omega (arith, h.counted, total-emptied tables);
  remained = omega (arith, h.remained, total-emptied tables);
  split = omega (arith, total-emptied tables, ap length h.split, length-append f.target f.left);
  sized = λ env. omega (
    arith,
    h.sized,
    encode_tables-cons env kind [] (emptied tables),
    encode_tables-cons env kind f.target (emptied tables),
  );
  bounded = h.bounded;
  limited = (h.limited, emptied-WithinLimit tables);
}

went_on-Packs :
    (max_bytes : ℕ) (kind : Kind) (rows : List Row) (tables : List Table) (c : Counters)
    (f : Filled) (q : Packed)
    → Fills max_bytes kind rows [] c f
    → f.left ≡ []
    → Packs max_bytes tables f.counters q
    → Packs max_bytes ((kind, rows) ∷ tables) c (prepend (kind, f.target) (kind, []) q)
went_on-Packs max_bytes kind rows tables c f q h done k =
    let all : f.target ≡ rows = cc (h.split, append-nil f.target) in
    record {
      order =
          append_assoc (tag kind f.target) (tagged q.chunk) (tagged q.left)
          ∙ cc (k.order, ap (tag kind) all);
      same_kinds = ap (λ (ts : List Table). (kind, []) ∷ ts) k.same_kinds;
      counted = omega (arith, h.counted, k.counted);
      remained = omega (arith, h.remained, k.remained);
      split = omega (arith, ap length all, k.split);
      sized = λ env. omega (
        arith,
        h.sized,
        k.sized env,
        encode_tables-cons env kind [] (emptied tables),
        encode_tables-cons env kind f.target q.chunk,
      );
      bounded = k.bounded;
      limited = (h.limited, k.limited);
    }

pub pack-Packs :
    (max_bytes : ℕ) (tables : List Table) (c : Counters) (p : Packed)
    → c.bytes ≤ max_bytes
    → total tables ≤ c.remaining
    → pack max_bytes tables c ≡ returned p
    → Packs max_bytes tables c p
pack-Packs max_bytes [] c p b r e =
    let same : p ≡ record { chunk = []; left = []; counters = c } = unfold pack in cc in
    rw same (record {
      order = refl;
      same_kinds = refl;
      counted = omega arith;
      remained = omega arith;
      split = refl;
      sized = λ env. refl;
      bounded = b;
      limited = tt;
    })
pack-Packs max_bytes ((kind, rows) ∷ tables) c p b r e =
    let (f, filled, next) = pack_cases max_bytes kind rows tables c p e in
    let h = fill-Fills max_bytes kind rows [] c f b (omega arith) (omega arith) filled in
    elim next [
      | inl (done, (q, packed, same)) ↦ rw same (
          went_on-Packs max_bytes kind rows tables c f q h done (
            pack-Packs max_bytes tables f.counters q h.bounded
              (omega (arith, h.remained, ap length h.split, length-append f.target f.left)) packed))
      | inr (_, same) ↦ rw same (ended-Packs max_bytes kind rows tables c f h)
    ]
