-- ===== src/Object/Stripes/RoundTrip.antt =====
-- Data that is striped over shards can be joined again, in any part.
use sia_satellite.Prelude.{
  ℕ, ◌+◌, ◌*◌, ◌≤◌, ◌≡◌, ap, ◌∙◌, some, List, ◌++◌, arith, length, length-append, take, drop,
  Succeeds, Succeeds-weaken,
}
use sia_satellite.Object.Stripes.Leaves.{overlay_front, part_of_front}
use sia_satellite.Object.Stripes.Joined.{Reaching, Reaching-less, length-rows, striped_join-rows}
use sia_satellite.Object.Stripes.Placed.{Placed, striped_split-Placed}
use sia_satellite.Object.Stripes.{leaf_size, overlay, striped_split, striped_join, rows}

-- Data that the shards have room for is split without a panic, in as many rounds as a shard has leaves,
-- and any part of it is then joined from the shards as it was, whatever the shards held before.
striped_join-striped_split :
    (leaves : ℕ) (shards : List (List ℕ)) (bytes : List ℕ) (skip n : ℕ)
    → Reaching (leaf_size * leaves) shards
    → length bytes ≤ leaf_size * length shards * leaves
    → skip + n ≤ length bytes
    → Succeeds
        (λ striped. striped_join leaves 0 striped skip n ≡ some (take n (drop skip bytes)))
        (striped_split leaves 0 shards bytes)
striped_join-striped_split leaves shards bytes skip n reach fits part =
    let reach' =
      Reaching-less (0 + leaf_size * leaves) (leaf_size * leaves) shards (omega arith) reach in
    let room = length-rows leaves 0 shards reach' in
    let front : overlay (rows leaves 0 shards) bytes
        ≡ bytes ++ drop (length bytes) (rows leaves 0 shards) =
      overlay_front (rows leaves 0 shards) bytes (omega (arith, fits, room)) in
    Succeeds-weaken (Placed leaves 0 bytes shards)
      (λ striped. striped_join leaves 0 striped skip n ≡ some (take n (drop skip bytes)))
      (striped_split leaves 0 shards bytes) (striped_split-Placed leaves 0 shards bytes reach' fits)
      (λ striped p.
        let whole = p.placed ∙ front in
        let enough : skip + n ≤ length (rows leaves 0 striped) = omega (
          arith,
          part,
          ap length whole,
          length-append bytes (drop (length bytes) (rows leaves 0 shards)),
        ) in
        striped_join-rows leaves 0 striped skip n (p.reach (0 + leaf_size * leaves) reach') enough
        ∙ ap (λ xs. some (take n (drop skip xs))) whole
        ∙ ap some (part_of_front skip n bytes (drop (length bytes) (rows leaves 0 shards)) part))
