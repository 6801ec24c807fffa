-- ===== src/Object/Examples.antt =====
-- The theorems on slabs, objects and their keys at concrete ones.
use sia_satellite.Prelude.{
  ℕ, zero, suc, ◌+◌, ◌-◌, ◌%◌, ◌<◌, ◌≡◌, refl, some, List, [], ◌∷◌, arith, leb, ◌==◌, if◌then◌else◌,
  All,
}
use sia_satellite.Messages.Metadata.{zeros}
use sia_satellite.Object.{Slab, SlabSlice, sector_region, ReedSolomon, recover, Cipher, xor_from}
use sia_satellite.Object.Stripes.{striped_split}
use sia_satellite.Object.Download.{recover-sector_region}
use sia_satellite.Object.Splits.{single_slabs, Singles, single_slabs-Singles}
use sia_satellite.Object.Keys.{marshal_text, unmarshal_text, KeyText, unmarshal_text-marshal_text}
use sia_satellite.Object.Streams.Written.{object_stream}
use sia_satellite.Object.Streams.RoundTrip.{XorLaws, encrypted, decrypted, decrypted-encrypted}

abbrev two_shards : List (List ℕ)
two_shards = zeros 64 ∷ zeros 64 ∷ []

abbrev some_data : List ℕ
some_data = 7 ∷ 8 ∷ 9 ∷ []

abbrev striped_shards : List (List ℕ)
striped_shards = (7 ∷ 8 ∷ 9 ∷ zeros 61) ∷ zeros 64 ∷ []

abbrev a_slab : Slab
a_slab = record { key = 5; min_shards = 2; shards = [] }

abbrev a_slice : SlabSlice
a_slice = record { slab = a_slab; offset = 1; length_of = 2 }

abbrev complete : ReedSolomon
complete = record { reconstruct_data = λ n shards. some shards }

split_data : striped_split 1 0 two_shards some_data ≡ some striped_shards
unfolding striped_split
split_data = refl

asked_region : sector_region a_slice ≡ some (0, 64)
unfolding sector_region
asked_region = refl

recover-sector_region_example : recover complete 1 a_slice striped_shards ≡ some (8 ∷ 9 ∷ [])
recover-sector_region_example =
    recover-sector_region complete a_slice two_shards striped_shards striped_shards [] some_data 1 0
      64 (omega arith) (omega arith) (omega arith, (omega arith, tt)) (omega arith) split_data
      (omega arith) (omega arith) asked_region refl refl

single_slabs-Singles_example :
    Singles a_slab (a_slab ∷ []) 9000000 (single_slabs (a_slab ∷ a_slab ∷ []) 9000000)
single_slabs-Singles_example =
    single_slabs-Singles 9000000 a_slab (a_slab ∷ []) (omega arith) (omega arith, tt)

zeros-All : (n : ℕ) → All (λ b. b < 256) (zeros n)
zeros-All zero = tt
zeros-All (suc n) = (omega arith, zeros-All n)

unmarshal_text-marshal_text_example : KeyText (zeros 33) (unmarshal_text (marshal_text (zeros 33)))
unmarshal_text-marshal_text_example = unmarshal_text-marshal_text (zeros 33) (zeros-All 33)

-- A cipher that turns the byte around where its keystream is odd.
turned : ℕ → ℕ → ℕ
turned b k = if k % 2 == 0 then b else if leb b 255 then 255 - b else b

abbrev a_cipher : Cipher
unfolding turned
a_cipher = record { keystream = λ key nonce pos. key + nonce + pos; xor = turned }

a_cipher-XorLaws : XorLaws a_cipher
unfolding turned
a_cipher-XorLaws = record { undo = λ b k. ground arith }

decrypted-encrypted_example :
    (encrypted a_cipher 2 0 ((7 ∷ 8 ∷ []) ∷ (9 ∷ []) ∷ [])
      ≡ some (xor_from a_cipher (object_stream a_cipher 2) 0 (7 ∷ 8 ∷ 9 ∷ [])))
    × (decrypted a_cipher 2 1 ((247 ∷ 9 ∷ []) ∷ []) ≡ some (8 ∷ 9 ∷ []))
unfolding turned
decrypted-encrypted_example =
    decrypted-encrypted a_cipher 2 1 ((7 ∷ 8 ∷ []) ∷ (9 ∷ []) ∷ []) ((247 ∷ 9 ∷ []) ∷ [])
      a_cipher-XorLaws (omega arith, (omega arith, tt)) (omega arith, tt) (omega arith)
      (omega arith) refl
