-- ===== src/Sync/Chunks.antt =====
-- app/src/electron/managers/syncChunks.ts: the packing of an attendance export into upload requests
-- that are bounded in bytes and in rows.
--
-- A row is known to the packer by its key, its JSON text and, for a face template, the JSON text
-- without the ciphertext. The table of a kind is a pair of the kind and its rows, in the order of
-- the constant `kinds`; the offset into an array is modelled by the rows that are left of it.
pub mod Fill
pub mod Pack
pub mod Build
pub mod Progress
pub mod Parts
pub mod Main
pub mod Resume
pub mod Tests
use facenox.Base.{
  ◌≡◌, refl, ℕ, zero, suc, ◌+◌, ◌-◌, ◌*◌, ◌/◌, ◌%◌, Bool, true, false, not, List, [], ◌∷◌, ◌++◌,
  map, Option, none, some, String, length, ltb, ◌==◌, if◌then◌else◌, keep,
}
use facenox.Base.Keys.{◌===◌, string_eq}
use facenox.JsMap.{get, set_all}

abbrev pub Bytes : Type 0
Bytes = List ℕ

pub data Kind : Type 0 where
  groups members records sessions deleted_sessions face_embeddings : Kind

abbrev pub limit : Kind → ℕ
limit groups = 250
limit members = 500
limit records = 250
limit sessions = 250
limit deleted_sessions = 250
limit face_embeddings = 100

abbrev pub max_sync_bytes : ℕ
max_sync_bytes = 3 * 1024 * 1024

abbrev pub max_safe_integer : ℕ
max_safe_integer = 9007199254740991

-- `json` is the UTF-8 text of `JSON.stringify(row)`; `fingerprint` is that text, or for a face
-- template the text of the row without its ciphertext. `version` is that of a group, a member or a
-- face template, which the upload acknowledges.
pub record Row : Type 0 where
  pub key : String
  pub json : Bytes
  pub fingerprint : String
  pub version : ℕ

abbrev pub Table : Type 0
Table = Kind × List Row

-- `JSON.stringify` of an array whose elements have these texts.
json_rest : List Row → Bytes
json_rest [] = []
json_rest (row ∷ rows) = b',' ∷ (row.json ++ json_rest rows)

json_items : List Row → Bytes
unfolding json_rest
json_items [] = []
json_items (row ∷ rows) = row.json ++ json_rest rows

pub json_array : List Row → Bytes
unfolding json_items
json_array rows = b'[' ∷ (json_items rows ++ b']' ∷ [])

-- What `JSON.stringify` writes around the arrays and the snapshot id of a request: the other fields
-- of the payload, which are the same in every chunk.
pub record Envelope : Type 0 where
  pub head : Bytes
  pub middle : Bytes
  pub label : Kind → Bytes
  pub tail : Bytes

pub encode_tables : Envelope → List Table → Bytes
unfolding json_array
encode_tables env [] = []
encode_tables env ((kind, rows) ∷ tables) =
    env.label kind ++ (json_array rows ++ encode_tables env tables)

-- `JSON.stringify(chunk)`
pub encode : Envelope → Bytes → List Table → Bytes
unfolding encode_tables
encode env snapshot_id tables =
    env.head ++ (snapshot_id ++ (env.middle ++ (encode_tables env tables ++ env.tail)))

-- `String(n)` for a natural number, with fuel for the digits.
decimal_from : ℕ → ℕ → Bytes → Bytes
decimal_from zero n acc = acc
decimal_from (suc fuel) n acc =
    let digit = b'0' + n % 10 in
    let rest = decimal_from fuel (n / 10) (digit ∷ acc) in if ltb n 10 then digit ∷ acc else rest

pub decimal : ℕ → Bytes
unfolding decimal_from
decimal n = decimal_from (suc n) n []

abbrev part_text : Bytes
part_text = b':' ∷ b'p' ∷ b'a' ∷ b'r' ∷ b't' ∷ b'-' ∷ []

abbrev of_text : Bytes
of_text = b'-' ∷ b'o' ∷ b'f' ∷ b'-' ∷ []

-- `${snapshotPrefix}:part-${index}-of-${count}`
pub part_id : Bytes → ℕ → ℕ → Bytes
unfolding decimal
part_id prefix index count = prefix ++ (part_text ++ (decimal index ++ (of_text ++ decimal count)))

-- `previous.get(key(row)) === fingerprint(row)`
abbrev is_fingerprint : Option String → String → Bool
is_fingerprint none mark = false
is_fingerprint (some old) mark = old === mark

abbrev pub row_entry : Row → String × String
row_entry row = (row.key, row.fingerprint)

pub remaining_rows : List Row → List Row → List Row
unfolding get set_all
remaining_rows rows accepted =
    let previous = set_all [] (map row_entry accepted) in
    keep (λ row. not (is_fingerprint (get row.key previous) row.fingerprint)) rows

pub data Failure : Type 0 where
  metadata_too_large : Failure
  entry_too_large : Kind → Failure
  out_of_fuel : Failure

-- What a packing step ends in: a value, or an error that is thrown.
pub data Packing {ℓ} (A : Type ℓ) : Type ℓ where
  threw : Failure → Packing A
  returned : A → Packing A

infixl 5 ◌>>=◌
abbrev pub ◌>>=◌ {ℓ} : {A B : Type ℓ} → Packing A → (A → Packing B) → Packing B
threw failure >>= step = threw failure
returned value >>= step = step value

-- A sequence that returns has a first step that returned.
pub bind_returned {ℓ} :
    {A B : Type ℓ} (first : Packing A) (step : A → Packing B) {result : B}
    → (first >>= step) ≡ returned result
    → (value : A) × (first ≡ returned value) × (step value ≡ returned result)
bind_returned (threw failure) step e = cc
bind_returned (returned value) step e = (value, refl, e)

-- The variables of the packing loops: `bytes`, `added` and `remaining`.
pub record Counters : Type 0 where
  pub bytes : ℕ
  pub added : ℕ
  pub remaining : ℕ

abbrev pub row_cost : List Row → Row → ℕ
row_cost target row = length row.json + (if length target == 0 then 0 else 1)

abbrev pub count_row : ℕ → Counters → Counters
count_row cost c = record {
  bytes = c.bytes + cost;
  added = c.added + 1;
  remaining = c.remaining - 1;
}

-- The `while` loop over the rows of one kind: the chunk's array, the rows left and the counters.
pub record Filled : Type 0 where
  pub target : List Row
  pub left : List Row
  pub counters : Counters

pub fill : ℕ → Kind → List Row → List Row → Counters → Packing Filled
fill max_bytes kind [] target c = returned (record { target = target; left = []; counters = c })
fill max_bytes kind (row ∷ rows) target c =
    let stop = returned (record { target = target; left = row ∷ rows; counters = c }) in
    let cost = row_cost target row in
    let go = fill max_bytes kind rows (target ++ row ∷ []) (count_row cost c) in
    if ltb (length target) (limit kind)
    then (if ltb max_bytes (c.bytes + cost)
        then (if c.added == 0 then threw (entry_too_large kind) else stop)
        else go)
    else stop

-- The chunk's tables, the tables left and the counters.
pub record Packed : Type 0 where
  pub chunk : List Table
  pub left : List Table
  pub counters : Counters

abbrev pub emptied : List Table → List Table
emptied [] = []
emptied ((kind, rows) ∷ tables) = (kind, []) ∷ emptied tables

abbrev pub prepend : Table → Table → Packed → Packed
prepend packed left p = record p { chunk = packed ∷ p.chunk; left = left ∷ p.left }

-- Rows that are left of a kind end the chunk: the kinds behind it wait for the next one.
next_kind : Kind → List Table → Filled → List Row → Packing Packed → Packing Packed
next_kind kind tables f [] rest = do p ← rest; returned (prepend (kind, f.target) (kind, []) p)
next_kind kind tables f (row ∷ left) rest = returned (record {
  chunk = (kind, f.target) ∷ emptied tables;
  left = (kind, row ∷ left) ∷ tables;
  counters = f.counters;
})

-- The `for` loop over the kinds.
pub pack : ℕ → List Table → Counters → Packing Packed
unfolding fill next_kind
pack max_bytes [] c = returned (record { chunk = []; left = []; counters = c })
pack max_bytes ((kind, rows) ∷ tables) c = do
  f ← fill max_bytes kind rows [] c
  next_kind kind tables f f.left (pack max_bytes tables f.counters)

-- The test of the `do … while` loop after a chunk.
abbrev pub next_chunk : List Table → ℕ → Packing (List (List Table)) → Packing (List (List Table))
next_chunk chunk remaining rest =
    if ltb 0 remaining then (do chunks ← rest; returned (chunk ∷ chunks)) else returned (chunk ∷ [])

-- The `do … while (remaining > 0)` loop. `base` is the size of the chunk with no row in it.
pub pack_all : ℕ → ℕ → ℕ → List Table → ℕ → Packing (List (List Table))
unfolding pack
pack_all zero max_bytes base tables remaining = threw out_of_fuel
pack_all (suc fuel) max_bytes base tables remaining =
    if ltb max_bytes base then threw metadata_too_large else (do
      p ← pack max_bytes tables (record { bytes = base; added = 0; remaining = remaining })
      let rest = pack_all fuel max_bytes base p.left p.counters.remaining
      next_chunk p.chunk p.counters.remaining rest)

abbrev pub total : List Table → ℕ
total [] = 0
total ((kind, rows) ∷ tables) = length rows + total tables

pub record Chunk : Type 0 where
  pub snapshot_id : Bytes
  pub tables : List Table

-- The final `map`, which numbers the parts.
pub number_parts : Bytes → ℕ → ℕ → List (List Table) → List Chunk
unfolding part_id
number_parts prefix count index [] = []
number_parts prefix count index (tables ∷ chunks) =
    record { snapshot_id = part_id prefix (index + 1) count; tables = tables }
    ∷ number_parts prefix count (index + 1) chunks

pub build_sync_chunks : Envelope → Bytes → ℕ → List Table → Packing (List Chunk)
unfolding pack_all number_parts encode
build_sync_chunks env prefix max_bytes source =
    let reserved = part_id prefix max_safe_integer max_safe_integer in
    let base = length (encode env reserved (emptied source)) in
    (do
      chunks ← pack_all (suc (total source)) max_bytes base source (total source)
      returned (number_parts prefix (length chunks) 0 chunks))

abbrev pub same_kind : Kind → Kind → Bool
same_kind groups groups = true
same_kind members members = true
same_kind records records = true
same_kind sessions sessions = true
same_kind deleted_sessions deleted_sessions = true
same_kind face_embeddings face_embeddings = true
same_kind _ _ = false

-- `attendance_export[kind]`
unfoldable pub rows_of : Kind → List Table → List Row
rows_of kind [] = []
rows_of kind ((k, rows) ∷ tables) =
    let rest = rows_of kind tables in if same_kind k kind then rows else rest

-- `acceptedChunks.flatMap((c) => c.attendance_export[kind])`
pub accepted_rows : Kind → List Chunk → List Row
unfolding rows_of
accepted_rows kind [] = []
accepted_rows kind (chunk ∷ chunks) = rows_of kind chunk.tables ++ accepted_rows kind chunks

-- `source`: of each array the rows that the accepted chunks do not hold unchanged.
pub remaining_tables : List Chunk → List Table → List Table
unfolding accepted_rows remaining_rows
remaining_tables accepted [] = []
remaining_tables accepted ((kind, rows) ∷ tables) =
    (kind, remaining_rows rows (accepted_rows kind accepted)) ∷ remaining_tables accepted tables

-- `buildSyncChunks(input, maxBytes, acceptedChunks)`
unfoldable pub rebuild_sync_chunks :
    Envelope → Bytes → ℕ → List Table → List Chunk → Packing (List Chunk)
unfolding remaining_tables build_sync_chunks
rebuild_sync_chunks env prefix max_bytes original accepted =
    build_sync_chunks env prefix max_bytes (remaining_tables accepted original)
