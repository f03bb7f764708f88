-- ===== src/Sync/Chunks/Fill.antt =====
-- The loop over the rows of one kind: what it appends, what it leaves and how it counts.
use facenox.Base.{
  ℕ, suc, ◌+◌, ◌≤◌, ◌<◌, ◌≡◌, refl, ◌∙◌, List, [], ◌∷◌, ◌++◌, arith, append_assoc, length, ◌⊎◌,
  length-append, inl, inr,
}
use facenox.Sync.Chunks.{
  Row, Kind, groups, members, records, sessions, deleted_sessions, face_embeddings, limit, Counters,
  Filled, returned, fill, row_cost, count_row, json_rest, json_items, json_array,
}

json_rest-append :
    (xs ys : List Row)
    → length (json_rest (xs ++ ys)) ≡ length (json_rest xs) + length (json_rest ys)
unfolding json_rest
json_rest-append [] ys = omega arith
json_rest-append (x ∷ xs) ys = omega (
  arith,
  json_rest-append xs ys,
  length-append x.json (json_rest (xs ++ ys)),
  length-append x.json (json_rest xs),
)

length-json_array :
    (x : Row) (xs : List Row)
    → length (json_array (x ∷ xs)) ≡ 2 + length x.json + length (json_rest xs)
unfolding json_array json_items
length-json_array x xs =
    omega (
      arith,
      length-append (x.json ++ json_rest xs) (b']' ∷ []),
      length-append x.json (json_rest xs),
    )

-- Appending a row makes the text of an array longer by exactly what the packer counts for it.
pub json_array-append :
    (target : List Row) (row : Row)
    → length (json_array (target ++ row ∷ [])) ≡ length (json_array target) + row_cost target row
json_array-append [] row =
    let one : length (json_array (row ∷ [])) ≡ 2 + length row.json =
      unfold json_rest in omega (arith, length-json_array row []) in
    unfold json_array json_items in omega (arith, one)
json_array-append (x ∷ xs) row =
    let last : length (json_rest (row ∷ [])) ≡ length row.json + 1 =
      unfold json_rest in omega (arith, length-append row.json []) in
    ground (
      arith,
      last,
      length-json_array x (xs ++ row ∷ []),
      length-json_array x xs,
      json_rest-append xs (row ∷ []),
    )

-- What the loop over the rows of a kind has done when it ends.
pub record Fills (max_bytes : ℕ) (kind : Kind) (rows target : List Row) (c : Counters) (f : Filled)
    : Type 0 where
  pub split : f.target ++ f.left ≡ target ++ rows
  pub counted : f.counters.added + length target ≡ c.added + length f.target
  pub remained : f.counters.remaining + length f.target ≡ c.remaining + length target
  pub sized : f.counters.bytes + length (json_array target) ≡ c.bytes + length (json_array f.target)
  pub bounded : f.counters.bytes ≤ max_bytes
  pub limited : length f.target ≤ limit kind
  pub grown : length target ≤ length f.target

-- The loop ends before a row, or it takes the row and goes on.
fill_cases :
    (max_bytes : ℕ) (kind : Kind) (row : Row) (rows target : List Row) (c : Counters) (f : Filled)
    → fill max_bytes kind (row ∷ rows) target c ≡ returned f
    → (f ≡ record { target = target; left = row ∷ rows; counters = c })
      ⊎ ((length target < limit kind)
          × (c.bytes + row_cost target row ≤ max_bytes)
          × (fill max_bytes kind rows (target ++ row ∷ []) (count_row (row_cost target row) c)
              ≡ returned f))
unfolding fill
fill_cases max_bytes kind row rows target c f e = ground arith

stopped-Fills :
    (max_bytes : ℕ) (kind : Kind) (rows target : List Row) (c : Counters)
    → c.bytes ≤ max_bytes
    → length target ≤ limit kind
    → Fills max_bytes kind rows target c (record { target = target; left = rows; counters = c })
stopped-Fills max_bytes kind rows target c b l = record {
  split = refl;
  counted = refl;
  remained = refl;
  sized = refl;
  bounded = b;
  limited = l;
  grown = omega arith;
}

took-Fills :
    (max_bytes : ℕ) (kind : Kind) (row : Row) (rows target : List Row) (c : Counters) (f : Filled)
    → suc (length rows) ≤ c.remaining
    → Fills max_bytes kind rows (target ++ row ∷ []) (count_row (row_cost target row) c) f
    → Fills max_bytes kind (row ∷ rows) target c f
took-Fills max_bytes kind row rows target c f r h =
    let longer = length-append target (row ∷ []) in
    record {
      split = h.split ∙ append_assoc target (row ∷ []) rows;
      counted = omega (arith, longer);
      remained = omega (arith, longer);
      sized = omega (arith, json_array-append target row);
      bounded = h.bounded;
      limited = h.limited;
      grown = omega (arith, longer);
    }

pub fill-Fills :
    (max_bytes : ℕ) (kind : Kind) (rows target : List Row) (c : Counters) (f : Filled)
    → c.bytes ≤ max_bytes
    → length target ≤ limit kind
    → length rows ≤ c.remaining
    → fill max_bytes kind rows target c ≡ returned f
    → Fills max_bytes kind rows target c f
fill-Fills max_bytes kind [] target c f b l r e =
    let same : f ≡ record { target = target; left = []; counters = c } = unfold fill in cc in
    rw same (stopped-Fills max_bytes kind [] target c b l)
fill-Fills max_bytes kind (row ∷ rows) target c f b l r e =
    elim (fill_cases max_bytes kind row rows target c f e) [
      | inl same ↦ rw same (stopped-Fills max_bytes kind (row ∷ rows) target c b l)
      | inr (room, fits, next) ↦ took-Fills max_bytes kind row rows target c f r (
          fill-Fills max_bytes kind rows (target ++ row ∷ []) (count_row (row_cost target row) c) f
            fits (omega (arith, length-append target (row ∷ []))) (omega arith) next)
    ]

one-le-limit : (kind : Kind) → 1 ≤ limit kind
one-le-limit groups = omega arith
one-le-limit members = omega arith
one-le-limit records = omega arith
one-le-limit sessions = omega arith
one-le-limit deleted_sessions = omega arith
one-le-limit face_embeddings = omega arith

fill_started :
    (max_bytes : ℕ) (kind : Kind) (row : Row) (rows : List Row) (c : Counters) (f : Filled)
    → c.added ≡ 0
    → fill max_bytes kind (row ∷ rows) [] c ≡ returned f
    → (c.bytes + row_cost [] row ≤ max_bytes)
      × (fill max_bytes kind rows (row ∷ []) (count_row (row_cost [] row) c) ≡ returned f)
unfolding fill
fill_started max_bytes kind row rows c f fresh e = ground (arith, one-le-limit kind)

-- A chunk that is still empty takes the first row that is offered, or the packing fails.
pub fill_progress :
    (max_bytes : ℕ) (kind : Kind) (row : Row) (rows : List Row) (c : Counters) (f : Filled)
    → c.added ≡ 0
    → c.bytes ≤ max_bytes
    → suc (length rows) ≤ c.remaining
    → fill max_bytes kind (row ∷ rows) [] c ≡ returned f
    → 0 < length f.target
fill_progress max_bytes kind row rows c f fresh b r e =
    let (fits, next) = fill_started max_bytes kind row rows c f fresh e in
    let h =
      fill-Fills max_bytes kind rows (row ∷ []) (count_row (row_cost [] row) c) f fits
        (one-le-limit kind) (omega arith) next in
    h.grown
