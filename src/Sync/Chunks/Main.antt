-- ===== src/Sync/Chunks/Main.antt =====
-- The theorems about `buildSyncChunks`.
use facenox.Base.{ℕ, suc, ◌≤◌, ◌<◌, ◌≡◌, refl, List, arith, length, All}
use facenox.Sync.Chunks.{
  Table, Bytes, Chunk, Envelope, Packing, returned, encode, emptied, total, pack_all, part_id,
  number_parts, max_safe_integer, build_sync_chunks, bind_returned,
}
use facenox.Sync.Chunks.Pack.{tagged, WithinLimit}
use facenox.Sync.Chunks.Build.{sent, pack_all-Delivers, pack_all-length}
use facenox.Sync.Chunks.Progress.{AllFit, pack_all-total}
use facenox.Sync.Chunks.Parts.{tables_of, tables_of-number_parts, number_parts-fit}

abbrev pub reserved_id : Bytes → Bytes
reserved_id prefix = part_id prefix max_safe_integer max_safe_integer

-- The size of a request with no row in it.
abbrev pub base_bytes : Envelope → Bytes → List Table → ℕ
base_bytes env prefix source = length (encode env (reserved_id prefix) (emptied source))

module _ (env : Envelope) (prefix : Bytes) (max_bytes : ℕ) (source : List Table) where
  abbrev pub packing : Packing (List (List Table))
  packing =
      pack_all (suc (total source)) max_bytes (base_bytes env prefix source) source (total source)

  build_parts :
      (chunks : List Chunk)
      → build_sync_chunks env prefix max_bytes source ≡ returned chunks
      → (packed : List (List Table)) × (packing ≡ returned packed)
        × (chunks ≡ number_parts prefix (length packed) 0 packed)
  unfolding build_sync_chunks
  build_parts chunks e =
      let (packed, p, same) =
        bind_returned packing (λ packed. returned (number_parts prefix (length packed) 0 packed))
          e in
      (packed, p, cc)

  -- The requests, one after another, carry exactly the rows of the export, each once, in the order
  -- of the kinds and within a kind in the order of the export: every group is sent before a member,
  -- and every member before a face template.
  pub build-order :
      (chunks : List Chunk)
      → build_sync_chunks env prefix max_bytes source ≡ returned chunks
      → sent (tables_of chunks) ≡ tagged source
  build-order chunks e =
      let (packed, p, same) = build_parts chunks e in
      let numbered = tables_of-number_parts prefix (length packed) 0 packed in
      rw (same, numbered) (pack_all-Delivers _ max_bytes _ source packed p).order

  -- No request holds more rows of a kind than the limit of that kind.
  pub build-limits :
      (chunks : List Chunk)
      → build_sync_chunks env prefix max_bytes source ≡ returned chunks
      → All (All WithinLimit) (tables_of chunks)
  build-limits chunks e =
      let (packed, p, same) = build_parts chunks e in
      let numbered = tables_of-number_parts prefix (length packed) 0 packed in
      rw (same, numbered) (pack_all-Delivers _ max_bytes _ source packed p).limited

  -- With fewer rows than the largest safe integer, the JSON text of every request, its final
  -- snapshot id included, is at most `max_bytes` long.
  pub build-bytes :
      (chunks : List Chunk)
      → total source < max_safe_integer
      → build_sync_chunks env prefix max_bytes source ≡ returned chunks
      → All (λ chunk. length (encode env chunk.snapshot_id chunk.tables) ≤ max_bytes) chunks
  build-bytes chunks few e =
      let (packed, p, same) = build_parts chunks e in
      let count = pack_all-length (suc (total source)) max_bytes _ source (total source) packed p in
      rw same (
        number_parts-fit env prefix max_bytes (length packed) 0 packed (omega (arith, count))
          (omega arith)
          ((pack_all-Delivers _ max_bytes _ source packed p).sized env (reserved_id prefix) refl))

  -- If the request without rows is within the limit, and so is it with any one row, the packing
  -- ends with requests and not with an error.
  pub build_total :
      base_bytes env prefix source ≤ max_bytes
      → AllFit max_bytes (base_bytes env prefix source) source
      → (chunks : List Chunk) × (build_sync_chunks env prefix max_bytes source ≡ returned chunks)
  unfolding build_sync_chunks
  build_total b fits =
      let (packed, p) =
        pack_all-total (suc (total source)) max_bytes _ source b fits (omega arith) in
      (number_parts prefix (length packed) 0 packed, rw p)
