-- ===== src/Sync/Chunks/Parts.antt =====
-- The part numbers of the snapshot ids, and the digits that are reserved for them.
use facenox.Base.{
  ℕ, zero, suc, ◌+◌, ◌/◌, ◌%◌, ◌^◌, ◌≤◌, ◌<◌, ◌≡◌, List, [], ◌∷◌, ◌++◌, arith, length,
  length-append, All, refl, ap,
}
use native.Mathlib.Nat.{pow-suc}
use facenox.Sync.Chunks.{
  Table, Bytes, Chunk, Envelope, encode, decimal_from, decimal, part_id, part_text, of_text,
  number_parts, max_safe_integer,
}
use facenox.Sync.Chunks.Build.{length-encode}

decimal_from-length :
    (k fuel n : ℕ) (acc : Bytes)
    → n < 10 ^ suc k
    → length (decimal_from fuel n acc) ≤ suc k + length acc
unfolding decimal_from
decimal_from-length k zero n acc h = omega arith
decimal_from-length zero (suc fuel) n acc h = ground arith
decimal_from-length (suc k) (suc fuel) n acc h =
    let below : n / 10 < 10 ^ suc k = omega (arith, pow-suc 10 (suc k)) in
    ground (arith, decimal_from-length k fuel (n / 10) ((b'0' + n % 10) ∷ acc) below)

-- A part number has at most the sixteen digits that are reserved for it.
decimal-length : (n : ℕ) → n ≤ max_safe_integer → length (decimal n) ≤ 16
unfolding decimal
decimal-length n h = omega (arith, decimal_from-length 15 (suc n) n [] (omega arith))

reserved_digits : length (decimal max_safe_integer) ≡ 16
unfolding decimal decimal_from
reserved_digits = refl

length-part_id :
    (prefix : Bytes) (index count : ℕ)
    → length (part_id prefix index count)
      ≡ length prefix + length (decimal index) + length (decimal count) + 10
unfolding part_id
length-part_id prefix index count = omega (
  arith,
  length-append prefix (part_text ++ (decimal index ++ (of_text ++ decimal count))),
  length-append part_text (decimal index ++ (of_text ++ decimal count)),
  length-append (decimal index) (of_text ++ decimal count),
  length-append of_text (decimal count),
)

-- The final snapshot id is no longer than the one that the packer reserved bytes for.
pub part_id-le-reserved :
    (prefix : Bytes) (index count : ℕ)
    → index ≤ max_safe_integer
    → count ≤ max_safe_integer
    → length (part_id prefix index count)
      ≤ length (part_id prefix max_safe_integer max_safe_integer)
part_id-le-reserved prefix index count i n = omega (
  arith,
  length-part_id prefix index count,
  length-part_id prefix max_safe_integer max_safe_integer,
  decimal-length index i,
  decimal-length count n,
  reserved_digits,
)

abbrev pub tables_of : List Chunk → List (List Table)
tables_of [] = []
tables_of (chunk ∷ chunks) = chunk.tables ∷ tables_of chunks

pub tables_of-number_parts :
    (prefix : Bytes) (count index : ℕ) (packed : List (List Table))
    → tables_of (number_parts prefix count index packed) ≡ packed
unfolding number_parts
tables_of-number_parts prefix count index [] = refl
tables_of-number_parts prefix count index (tables ∷ packed) =
    ap (◌∷◌ tables) (tables_of-number_parts prefix count (index + 1) packed)

pub number_parts-length :
    (prefix : Bytes) (count index : ℕ) (packed : List (List Table))
    → length (number_parts prefix count index packed) ≡ length packed
unfolding number_parts
number_parts-length prefix count index [] = refl
number_parts-length prefix count index (tables ∷ packed) =
    ap suc (number_parts-length prefix count (index + 1) packed)

-- A request that fits under the reserved id fits under its own.
pub number_parts-fit :
    (env : Envelope) (prefix : Bytes) (max_bytes count index : ℕ) (packed : List (List Table))
    → count ≤ max_safe_integer
    → index + length packed ≤ count
    → All
        (λ tables.
          length (encode env (part_id prefix max_safe_integer max_safe_integer) tables) ≤ max_bytes)
        packed
    → All
        (λ chunk. length (encode env chunk.snapshot_id chunk.tables) ≤ max_bytes)
        (number_parts prefix count index packed)
unfolding number_parts
number_parts-fit env prefix max_bytes count index [] c b h = tt
number_parts-fit env prefix max_bytes count index (tables ∷ packed) c b (h, hs) = (
  omega (
    arith,
    length-encode env (part_id prefix (index + 1) count) tables,
    length-encode env (part_id prefix max_safe_integer max_safe_integer) tables,
    part_id-le-reserved prefix (index + 1) count (omega arith) c,
  ),
  number_parts-fit env prefix max_bytes count (index + 1) packed c (omega arith) hs,
)
