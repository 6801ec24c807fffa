-- ===== src/Object/Stripes.antt =====
-- stripedSplit and stripedJoin of internal/object/slab.go: data laid out over shards in leaves of 64
-- bytes, row by row.
pub mod Leaves
pub mod Joined
pub mod Placed
pub mod RoundTrip
use sia_satellite.Prelude.{
  ℕ, zero, suc, ◌+◌, ◌-◌, true, false, Option, none, some, List, [], ◌∷◌, ◌++◌, ltb, leb,
  if◌then◌else◌, length, take, drop, ◌>>=◌,
}

-- rhpv2.LeafSize
abbrev pub leaf_size : ℕ
leaf_size = 64

-- What `copy` makes of its destination.
abbrev pub overlay : List ℕ → List ℕ → List ℕ
overlay xs [] = xs
overlay [] (y ∷ ys) = []
overlay (x ∷ xs) (y ∷ ys) = y ∷ overlay xs ys

-- What `copy(shard[off:], src)` makes of the shard.
abbrev pub over : ℕ → List ℕ → List ℕ → List ℕ
over zero s src = overlay s src
over (suc n) [] src = []
over (suc n) (x ∷ s) src = x ∷ over n s src

-- One round of the loop of `stripedSplit`: a leaf for each shard. `none` is the panic of a slice.
unfoldable pub split_round : ℕ → List (List ℕ) → List ℕ → Option (List (List ℕ) × List ℕ)
split_round off [] bytes = some ([], bytes)
split_round off (s ∷ shards) bytes =
    if leb off (length s)
    then (do
      r ← split_round off shards (drop leaf_size bytes)
      some (over off s (take leaf_size bytes) ∷ r.0, r.1))
    else none

-- The loop runs while there are bytes; without a shard it would not end.
unfoldable pub striped_split : ℕ → ℕ → List (List ℕ) → List ℕ → Option (List (List ℕ))
unfolding split_round
striped_split fuel off shards [] = some shards
striped_split zero off shards (b ∷ bytes) = none
striped_split (suc fuel) off shards (b ∷ bytes) = do
  r ← split_round off shards (b ∷ bytes)
  striped_split fuel (off + leaf_size) r.0 r.1

-- A pass of `stripedJoin` over the shards, with what is still to be skipped and to be written. `none`
-- is ErrShortData.
unfoldable pub join_round : ℕ → List (List ℕ) → ℕ → ℕ → Option (List ℕ × (ℕ × ℕ))
join_round off [] skip write_len = some ([], (skip, write_len))
join_round off (s ∷ shards) skip write_len =
    if ltb (length (drop off s)) leaf_size then none else elim (leb leaf_size skip) [
      | true ↦ join_round off shards (skip - leaf_size) write_len
      | false ↦
          let piece = take write_len (drop skip (take leaf_size (drop off s))) in
          (do r ← join_round off shards 0 (write_len - length piece); some (piece ++ r.0, r.1))
    ]

unfoldable pub striped_join : ℕ → ℕ → List (List ℕ) → ℕ → ℕ → Option (List ℕ)
unfolding join_round
striped_join fuel off shards skip zero = some []
striped_join zero off shards skip (suc n) = none
striped_join (suc fuel) off shards skip (suc n) = do
  r ← join_round off shards skip (suc n)
  more ← striped_join fuel (off + leaf_size) shards r.1.0 r.1.1
  some (r.0 ++ more)

-- The bytes of the shards in the order of the data.
abbrev pub leaf_at : ℕ → List ℕ → List ℕ
leaf_at off s = take leaf_size (drop off s)

abbrev pub row : ℕ → List (List ℕ) → List ℕ
row off [] = []
row off (s ∷ shards) = leaf_at off s ++ row off shards

abbrev pub rows : ℕ → ℕ → List (List ℕ) → List ℕ
rows zero off shards = []
rows (suc n) off shards = row off shards ++ rows n (off + leaf_size) shards
