-- ===== src/Object.antt =====
-- internal/object: slabs, slices of slabs, objects and their keys. The cipher, the Reed-Solomon code and
-- random keys are parameters; a uint32 wraps at 2 ^ 32. The health of a slab, a float, is left out.
pub mod Stripes
pub mod Regions
pub mod Download
pub mod Splits
pub mod Keys
pub mod Streams
pub mod Examples
use sia_satellite.Prelude.{
  ℕ, suc, ◌+◌, ◌-◌, ◌*◌, ◌/◌, ◌%◌, ◌^◌, Bool, Option, none, some, List, [], ◌∷◌, ◌==◌,
  if◌then◌else◌, length, take, all, ◌>>=◌,
}
use sia_satellite.Prelude.Maps.{Map}
use sia_satellite.Object.Stripes.{leaf_size, striped_join}

-- rhpv2.SectorSize
abbrev pub sector_size : ℕ
sector_size = 2 ^ 22

pub record Sector : Type 0 where
  pub contracts : Map (List ℕ)
  pub latest_host : ℕ
  pub root : ℕ

pub record Slab : Type 0 where
  pub key : ℕ
  pub min_shards : ℕ
  pub shards : List Sector

-- `IsPartial`
abbrev pub is_partial : Slab → Bool
is_partial s = length s.shards == 0

-- NewSlab, with the random key, and NewPartialSlab
abbrev pub new_slab : ℕ → ℕ → Slab
new_slab key min_shards = record { key = key; min_shards = min_shards; shards = [] }

-- `Slab.Length`
abbrev pub slab_length : Slab → ℕ
slab_length s = sector_size * s.min_shards

pub record SlabSlice : Type 0 where
  pub slab : Slab
  pub offset : ℕ
  pub length_of : ℕ

-- `SectorRegion`; `none` is a division by zero. A slice lies in its slab, which has less than 2 ^ 30
-- bytes: beyond that the products and the difference of the source would wrap, which is left out.
unfoldable pub sector_region : SlabSlice → Option (ℕ × ℕ)
sector_region ss =
    let chunk = leaf_size * ss.slab.min_shards in
    let end = (ss.offset + ss.length_of) % 2 ^ 32 in
    let start = ss.offset / chunk * leaf_size in
    let stop = end / chunk * leaf_size + (if end % chunk == 0 then 0 else leaf_size) in
    if chunk == 0 then none else some (start, stop - start)

-- reedsolomon.New(...).ReconstructData, for a number of data shards; `none` is its error.
pub record ReedSolomon : Type 0 where
  pub reconstruct_data : ℕ → List (List ℕ) → Option (List (List ℕ))

abbrev pub all_empty : List (List ℕ) → Bool
all_empty shards = all (λ s. length s == 0) shards

-- `Recover`, in as many rounds as the shards have leaves; `none` is an error.
unfoldable pub recover : ReedSolomon → ℕ → SlabSlice → List (List ℕ) → Option (List ℕ)
unfolding striped_join
recover rs leaves ss shards = if all_empty shards then some [] else (do
  whole ← rs.reconstruct_data ss.slab.min_shards shards
  striped_join leaves 0 (take ss.slab.min_shards whole)
      (ss.offset % (leaf_size * ss.slab.min_shards)) ss.length_of)

-- The keystream of chacha20, by key, nonce (24 bytes as a number) and position, and the exclusive or
-- of two bytes.
pub record Cipher : Type 0 where
  pub keystream : ℕ → ℕ → ℕ → ℕ
  pub xor : ℕ → ℕ → ℕ

-- XORKeyStream from a position on.
abbrev pub xor_from : Cipher → (ℕ → ℕ) → ℕ → List ℕ → List ℕ
xor_from c stream pos [] = []
xor_from c stream pos (b ∷ bytes) = c.xor b (stream pos) ∷ xor_from c stream (suc pos) bytes

-- The nonce of a shard has the low byte of its number as its second byte.
abbrev pub shard_nonce : ℕ → ℕ
shard_nonce i = i % 256 * 256

abbrev pub xor_all : Cipher → ℕ → ℕ → ℕ → List (List ℕ) → List (List ℕ)
xor_all c key pos i [] = []
xor_all c key pos i (s ∷ shards) =
    xor_from c (c.keystream key (shard_nonce i)) pos s ∷ xor_all c key pos (suc i) shards

-- `Slab.Encrypt`, and `SlabSlice.Decrypt`, which sets the counter of blocks of 64 bytes.
abbrev pub encrypt_shards : Cipher → Slab → List (List ℕ) → List (List ℕ)
encrypt_shards c s shards = xor_all c s.key 0 0 shards

abbrev pub decrypt_shards : Cipher → SlabSlice → List (List ℕ) → List (List ℕ)
decrypt_shards c ss shards =
    xor_all c ss.slab.key (ss.offset / (leaf_size * ss.slab.min_shards) * 64) 0 shards

-- An object's slices and their size.
pub record Object : Type 0 where
  pub key : ℕ
  pub slabs : List SlabSlice

abbrev pub sum_lengths : List SlabSlice → ℕ
sum_lengths [] = 0
sum_lengths (ss ∷ slices) = ss.length_of + sum_lengths slices

-- `TotalSize`, on 64 bits that it does not reach.
abbrev pub total_size : Object → ℕ
total_size o = sum_lengths o.slabs
