-- ===== src/Sync/Chunks/Tests.antt =====
-- The packer on a small export, and the theorems at that input.
use facenox.Base.{
  ℕ, ◌+◌, ◌≤◌, ◌≡◌, refl, List, [], ◌∷◌, arith, length, All, ◌↔◌, ◌≢◌, some, Elem, String,
}
use facenox.Sync.Chunks.{
  Row, groups, members, Table, Bytes, Chunk, Envelope, returned, threw, encode, emptied, part_id,
  build_sync_chunks, entry_too_large, metadata_too_large, remaining_rows,
}
use facenox.Sync.Chunks.Pack.{tagged}
use facenox.Sync.Chunks.Build.{sent}
use facenox.Sync.Chunks.Parts.{tables_of}
use facenox.Sync.Chunks.Main.{reserved_id, build-order, build-bytes, build_total}
use facenox.Sync.Chunks.Resume.{last_mark, remaining_rows_iff}

abbrev row : String → ℕ → Row
row key size = record { key = key; json = b'{' ∷ size ∷ b'}' ∷ []; fingerprint = key; version = 1 }

abbrev pub envelope : Envelope
envelope = record {
  head = b'{' ∷ [];
  middle = b',' ∷ [];
  label = λ kind. b'k' ∷ b':' ∷ [];
  tail = b'}' ∷ [];
}

abbrev pub prefix : Bytes
prefix = b'd' ∷ []

abbrev export : List Table
export = (groups, row "g" 1 ∷ []) ∷ (members, row "a" 2 ∷ row "b" 3 ∷ []) ∷ []

-- `:part-index-of-2`
abbrev part : ℕ → List Table → Chunk
part index tables = record {
  snapshot_id =
      b'd'
      ∷ b':'
      ∷ b'p'
      ∷ b'a'
      ∷ b'r'
      ∷ b't'
      ∷ b'-'
      ∷ (b'0' + index)
      ∷ b'-'
      ∷ b'o'
      ∷ b'f'
      ∷ b'-'
      ∷ b'2'
      ∷ [];
  tables = tables;
}

-- The fixed text and the reserved id take 54 bytes, so that 60 leave room for two rows.
abbrev parts : List Chunk
parts =
    part 1 ((groups, row "g" 1 ∷ []) ∷ (members, row "a" 2 ∷ []) ∷ [])
    ∷ part 2 ((groups, []) ∷ (members, row "b" 3 ∷ []) ∷ [])
    ∷ []

packed_export : build_sync_chunks envelope prefix 60 export ≡ returned parts
unfolding build_sync_chunks
packed_export = refl

too_small : build_sync_chunks envelope prefix 53 export ≡ threw metadata_too_large
unfolding build_sync_chunks
too_small = refl

too_large : build_sync_chunks envelope prefix 56 export ≡ threw (entry_too_large groups)
unfolding build_sync_chunks
too_large = refl

resent : remaining_rows (row "a" 1 ∷ row "b" 2 ∷ []) (row "a" 7 ∷ []) ≡ row "b" 2 ∷ []
unfolding remaining_rows
resent = refl

build-order_example : sent (tables_of parts) ≡ tagged export
build-order_example = build-order envelope prefix 60 export parts packed_export

build-bytes_example :
    All (λ chunk. length (encode envelope chunk.snapshot_id chunk.tables) ≤ 60) parts
build-bytes_example = build-bytes envelope prefix 60 export parts (omega arith) packed_export

base : length (encode envelope (reserved_id prefix) (emptied export)) ≡ 54
unfolding encode part_id
base = refl

build_total_example :
    (chunks : List Chunk) × (build_sync_chunks envelope prefix 60 export ≡ returned chunks)
build_total_example =
    build_total envelope prefix 60 export (omega (arith, base)) (omega (arith, base))

remaining_rows_iff_example :
    Elem (row "b" 2) (remaining_rows (row "a" 1 ∷ row "b" 2 ∷ []) (row "a" 7 ∷ []))
    ↔ (Elem (row "b" 2) (row "a" 1 ∷ row "b" 2 ∷ []) × (last_mark "b" (row "a" 7 ∷ []) ≢ some "b"))
remaining_rows_iff_example =
    remaining_rows_iff (row "b" 2) (row "a" 1 ∷ row "b" 2 ∷ []) (row "a" 7 ∷ [])
