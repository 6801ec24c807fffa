-- ===== src/Object/Download.antt =====
-- `SectorRegion` and `Recover`: a download asks for the region of each shard, and recovers the slice.
use sia_satellite.Prelude.{
  ℕ, suc, ◌+◌, ◌-◌, ◌*◌, ◌/◌, ◌%◌, ◌^◌, ◌≤◌, ◌<◌, ◌≡◌, refl, sym, ap, ◌∙◌, subst, Bool, true, false,
  Option, some, List, ◌++◌, map, arith, ◌==◌, if◌then◌else◌, length, take, drop, take-length_append,
  Succeeds-some,
}
use sia_satellite.Object.Stripes.{leaf_size, striped_split, striped_join, rows}
use sia_satellite.Object.Regions.{
  region, first_leaf, last_leaf, Bounds, leaves-Bounds, length-map-region, striped_join-regions,
}
use sia_satellite.Object.{SlabSlice, sector_region, ReedSolomon, all_empty, recover}
use sia_satellite.Object.Stripes.Joined.{Reaching, Reaching-less, length-rows}
use sia_satellite.Object.Stripes.Placed.{Placed, striped_split-Placed}
use sia_satellite.Object.Stripes.Leaves.{overlay_front, part_of_front}
use native.Mathlib.Nat.{mod-eq_of_lt, lt_of_mul-lt-mul_left}

-- The first leaf of a slice, and the one behind its last.
abbrev pub chunk_of : SlabSlice → ℕ
chunk_of ss = leaf_size * ss.slab.min_shards

abbrev pub first_of : SlabSlice → ℕ
first_of ss = first_leaf (chunk_of ss) ss.offset

abbrev pub last_of : SlabSlice → ℕ
last_of ss = last_leaf (chunk_of ss) (ss.offset + ss.length_of)

stop_leaf :
    (b : Bool) (e : ℕ)
    → e * leaf_size + (if b then 0 else leaf_size) ≡ leaf_size * (e + (if b then 0 else 1))
stop_leaf true e = omega arith
stop_leaf false e = omega arith

some_pair : (a b c d : ℕ) → a ≡ b → c ≡ d → ◌≡◌ {A = Option (ℕ × ℕ)} (some (a, c)) (some (b, d))
some_pair a b c d p q = cc

-- The region of a slice of a slab with shards, which ends below 2 ^ 32, starts at a leaf and has whole
-- leaves: they hold the slice, and the leaves of all the shards exceed its ends by less than a row.
sector_region-Bounds :
    (ss : SlabSlice)
    → 0 < ss.slab.min_shards
    → ss.offset + ss.length_of < 2 ^ 32
    → (sector_region ss ≡ some (leaf_size * first_of ss, leaf_size * (last_of ss - first_of ss)))
      × Bounds (chunk_of ss) ss.offset ss.length_of (first_of ss) (last_of ss)
unfolding sector_region
sector_region-Bounds ss pos small =
    let chunk = chunk_of ss in
    let end = ss.offset + ss.length_of in
    let some_chunk : chunk == 0 ≡ false = ground (arith, pos) in
    let no_wrap : end % 2 ^ 32 ≡ end = mod-eq_of_lt small in
    let stop = stop_leaf (end % chunk == 0) (end / chunk) in
    (
      rw (some_chunk, no_wrap) (some_pair _ _ _ _ (omega arith) (omega (arith, stop))),
      leaves-Bounds chunk ss.offset ss.length_of (omega (arith, pos)),
    )

parts_of_some :
    (a b c d : ℕ) → ◌≡◌ {A = Option (ℕ × ℕ)} (some (a, c)) (some (b, d)) → (a ≡ b) × (c ≡ d)
parts_of_some a b c d h = (cc, cc)

leaves_of : (k : ℕ) → leaf_size * k / leaf_size ≡ k
leaves_of k = omega arith

take_counted : (n : ℕ) (xs ys : List (List ℕ)) → length xs ≡ n → take n (xs ++ ys) ≡ xs
take_counted n xs ys h = subst (λ k. take k (xs ++ ys) ≡ xs) h (take-length_append xs ys)

fewer_leaves :
    (chunk last n m end : ℕ)
    → chunk ≡ leaf_size * n
    → 0 < chunk
    → chunk * last < end + chunk
    → end ≤ leaf_size * n * m
    → last ≤ m
fewer_leaves chunk last n m end e pos tight fits =
    let below : chunk * last < chunk * suc m =
      subst (λ k. k * last < k * suc m) (sym e)
        (omega (arith, subst (λ k. k * last < end + k) e tight, fits)) in
    omega (arith, lt_of_mul-lt-mul_left chunk below)

-- A slice of data that has been striped over the one or more data shards of its slab, which have room
-- for it, is recovered from the regions that `SectorRegion` gives, if it ends below 2^32, something was
-- downloaded, and the Reed-Solomon code reconstructs the regions of the data shards from it: for every
-- offset and length inside the data, and whatever the shards held before.
pub recover-sector_region :
    (rs : ReedSolomon) (ss : SlabSlice) (shards striped downloaded parity : List (List ℕ))
    (bytes : List ℕ) (leaves o l : ℕ)
    → length shards ≡ ss.slab.min_shards
    → 0 < ss.slab.min_shards
    → Reaching (leaf_size * leaves) shards
    → length bytes ≤ leaf_size * length shards * leaves
    → striped_split leaves 0 shards bytes ≡ some striped
    → ss.offset + ss.length_of ≤ length bytes
    → ss.offset + ss.length_of < 2 ^ 32
    → sector_region ss ≡ some (o, l)
    → all_empty downloaded ≡ false
    → rs.reconstruct_data ss.slab.min_shards downloaded ≡ some (map (region o l) striped ++ parity)
    → recover rs (l / leaf_size) ss downloaded ≡ some (take ss.length_of (drop ss.offset bytes))
unfolding recover
recover-sector_region rs ss shards striped downloaded parity bytes leaves o l count pos reach fits
      split part small asked some_data rebuilt =
    let n = ss.slab.min_shards in
    let chunk = chunk_of ss in
    let first = first_of ss in
    let b = last_of ss - first in
    let (region_is, bounds) = sector_region-Bounds ss pos small in
    let (start_is, size_is) =
      parts_of_some o (leaf_size * first) l (leaf_size * b) (sym asked ∙ region_is) in
    let reach' =
      Reaching-less (0 + leaf_size * leaves) (leaf_size * leaves) shards (omega arith) reach in
    let placed =
      Succeeds-some (Placed leaves 0 bytes shards) _
        (striped_split-Placed leaves 0 shards bytes reach' fits) split in
    let last_ok : last_of ss ≤ leaves =
      fewer_leaves chunk (last_of ss) n leaves (ss.offset + ss.length_of) refl (omega (arith, pos))
        bounds.tight
        (subst (λ k. ss.offset + ss.length_of ≤ leaf_size * k * leaves) count
          (omega (arith, part, fits))) in
    let together : last_of ss ≡ first + b = omega (arith, bounds.ordered) in
    let bounds' = subst (Bounds chunk ss.offset ss.length_of first) together bounds in
    let all_leaves : leaves ≡ first + (b + (leaves - last_of ss)) =
      omega (arith, last_ok, bounds.ordered) in
    let front =
      placed.placed
      ∙ overlay_front (rows leaves 0 shards) bytes
          (subst (λ k. length bytes ≤ k) (sym (length-rows leaves 0 shards reach')) fits) in
    let tail = drop (length bytes) (rows leaves 0 shards) in
    let regions = map (region o l) striped in
    let skip = ss.offset % chunk in
    let counted = placed.count ∙ count in
    let joined =
      ap (λ k. striped_join (l / leaf_size) 0 (map (region k l) striped) skip ss.length_of) start_is
      ∙ ap (λ k. striped_join k 0 (map (region (leaf_size * first) l) striped) skip ss.length_of)
          (ap (λ k. k / leaf_size) size_is ∙ leaves_of b)
      ∙ striped_join-regions n leaves first b (leaves - last_of ss) ss.offset ss.length_of l striped
          counted all_leaves (placed.reach (leaf_size * leaves) reach) bounds'
          (omega (arith, size_is))
      ∙ ap (λ xs. some (take ss.length_of (drop ss.offset xs))) front
      ∙ ap some (part_of_front ss.offset ss.length_of bytes tail part) in
    rw (some_data, rebuilt, take_counted n regions parity (length-map-region o l striped ∙ counted))
      joined
