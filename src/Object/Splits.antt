-- ===== src/Object/Splits.antt =====
-- SplitSlabs and SingleSlabs of internal/object/object.go.
use sia_satellite.Prelude.{
  ℕ, ◌+◌, ◌-◌, ◌%◌, ◌^◌, ◌≤◌, ◌<◌, ◌≡◌, refl, sym, subst, inl, inr, true, false, Option, none, some,
  List, [], ◌∷◌, arith, dec_lt, ltb, leb, if◌then◌else◌, Bool-cases, All, ◌>>=◌, Option-cases,
  Succeeds, Succeeds-witness, Succeeds-map,
}
use sia_satellite.Object.{Slab, slab_length, SlabSlice, sum_lengths}

-- uint32 of the difference of two numbers, which may be below zero.
abbrev pub difference : ℕ → ℕ → ℕ
difference a b = if leb b a then (a - b) % 2 ^ 32 else (2 ^ 32 - (b - a) % 2 ^ 32) % 2 ^ 32

-- What is left of `l` behind the rest of a slab, which may be below zero too.
abbrev pub left_over : ℕ → ℕ → ℕ → ℕ
left_over l size offset = if leb offset size then l - (size - offset) else l + (offset - size)

abbrev pub slice_of : Slab → ℕ → ℕ → SlabSlice
slice_of s offset size = record { slab = s; offset = offset % 2 ^ 32; length_of = size % 2 ^ 32 }

-- The slices of one object, from an offset in a slab on, with the offset, the slab and the slabs that are
-- left. `none` is the panic of an index.
unfoldable pub split_one :
    ℕ → ℕ → Slab → List Slab → Option (List SlabSlice × (ℕ × (Slab × List Slab)))
split_one l offset s [] =
    if ltb (slab_length s) l then none else some (slice_of s offset l ∷ [], (offset + l, (s, [])))
split_one l offset s (next ∷ slabs) = elim (ltb (slab_length s) l) [
  | true ↦ (do
    r ← split_one (left_over l (slab_length s) offset) 0 next slabs
    some (
      record { slab = s; offset = offset % 2 ^ 32; length_of = difference (slab_length s) offset }
          ∷ r.0,
      r.1,
    ))
  | false ↦ some (slice_of s offset l ∷ [], (offset + l, (s, next ∷ slabs)))
]

unfoldable pub split_all : List ℕ → ℕ → Slab → List Slab → Option (List (List SlabSlice))
unfolding split_one
split_all [] offset s slabs = some []
split_all (l ∷ lengths) offset s slabs = do
  r ← split_one l offset s slabs
  more ← split_all lengths r.1.0 r.1.1.0 r.1.1.1
  some (r.0 ∷ more)

unfoldable pub split_slabs : List Slab → List ℕ → Option (List (List SlabSlice))
unfolding split_all
split_slabs [] lengths = none
split_slabs (s ∷ slabs) lengths = split_all lengths 0 s slabs

abbrev pub first_object : List (List SlabSlice) → Option (List SlabSlice)
first_object [] = none
first_object (slices ∷ objects) = some slices

unfoldable pub single_slabs : List Slab → ℕ → Option (List SlabSlice)
unfolding split_slabs
single_slabs slabs l = do objects ← split_slabs slabs (l ∷ []); first_object objects

-- What slabs have room for.
abbrev pub capacity : List Slab → ℕ
capacity [] = 0
capacity (s ∷ slabs) = slab_length s + capacity slabs

abbrev pub IsSlab : Slab → Type 0
IsSlab s = s.min_shards < 256

-- Slices that take slabs from their start, one after the other.
abbrev pub Fills : List SlabSlice → List Slab → Type 0
Fills [] slabs = Unit
Fills (ss ∷ slices) [] = ⊥
Fills (ss ∷ slices) (s ∷ slabs) =
    (ss.slab ≡ s) × (ss.offset ≡ 0) × (ss.length_of ≤ slab_length s) × Fills slices slabs

from_zero : (n : ℕ) → n < 2 ^ 32 → difference n 0 ≡ n
from_zero n h = ground (arith, h)

split_one-Fills :
    (l : ℕ) (s : Slab) (slabs : List Slab)
    → IsSlab s
    → All IsSlab slabs
    → l ≤ capacity (s ∷ slabs)
    → Succeeds (λ r. Fills r.0 (s ∷ slabs) × (sum_lengths r.0 ≡ l)) (split_one l 0 s slabs)
unfolding split_one
split_one-Fills l s [] ok oks fits =
    let enough : ltb (slab_length s) l ≡ false = ground (arith, fits) in
    rw enough ((refl, refl, omega (arith, fits, ok), tt), omega (arith, fits, ok))
split_one-Fills l s (next ∷ slabs) ok (ok', oks) fits = elim (Bool-cases (ltb (slab_length s) l)) [
  | inr b ↦
      let enough : l ≤ slab_length s = ground (arith, b) in
      rw (b, split_one) ((refl, refl, omega (arith, enough, ok), tt), omega (arith, enough, ok))
  | inl b ↦
      let more : slab_length s < l = ground (arith, b) in
      let whole : difference (slab_length s) 0 ≡ slab_length s =
        from_zero (slab_length s) (omega (arith, ok)) in
      let rest : left_over l (slab_length s) 0 ≤ capacity (next ∷ slabs) = ground (arith, fits) in
      rw (b, split_one)
        (Succeeds-map
          (λ r. Fills r.0 (next ∷ slabs) × (sum_lengths r.0 ≡ left_over l (slab_length s) 0))
          (λ r. Fills r.0 (s ∷ next ∷ slabs) × (sum_lengths r.0 ≡ l)) _ _
          (split_one-Fills (left_over l (slab_length s) 0) next slabs ok' oks rest)
          (λ r h. ((refl, refl, omega (arith, whole), h.0), ground (arith, whole, h.1, more))))
]

split_one-short :
    (l : ℕ) (s : Slab) (slabs : List Slab) → capacity (s ∷ slabs) < l → split_one l 0 s slabs ≡ none
unfolding split_one
split_one-short l s [] short =
    let more : ltb (slab_length s) l ≡ true = ground (arith, short) in rw more refl
split_one-short l s (next ∷ slabs) short =
    let more : ltb (slab_length s) l ≡ true = ground (arith, short) in
    let rest : capacity (next ∷ slabs) < left_over l (slab_length s) 0 = ground (arith, short) in
    rw (more, split_one, split_one-short (left_over l (slab_length s) 0) next slabs rest) refl

-- What the slices of a single object are, by whether the slabs have room for it.
abbrev pub Singles : Slab → List Slab → ℕ → Option (List SlabSlice) → Type 0
Singles s slabs l (some slices) =
    (l ≤ capacity (s ∷ slabs)) × Fills slices (s ∷ slabs) × (sum_lengths slices ≡ l)
Singles s slabs l none = capacity (s ∷ slabs) < l

some_first : Option (List SlabSlice × (ℕ × (Slab × List Slab))) → Option (List SlabSlice)
some_first none = none
some_first (some r) = some r.0

single_slabs_lem :
    (l : ℕ) (s : Slab) (slabs : List Slab)
    → single_slabs (s ∷ slabs) l ≡ some_first (split_one l 0 s slabs)
unfolding single_slabs split_slabs split_all some_first
single_slabs_lem l s slabs = elim (Option-cases (split_one l 0 s slabs)) [
  | inl e ↦ rw e refl
  | inr (r, e) ↦ rw e refl
]

-- A single object is split over slabs of less than 256 data shards exactly if they have room for it: then
-- its slices take the slabs in order, each from its start and within its length, and are together as
-- long as the object. Without the room it panics.
pub single_slabs-Singles :
    (l : ℕ) (s : Slab) (slabs : List Slab)
    → IsSlab s
    → All IsSlab slabs
    → Singles s slabs l (single_slabs (s ∷ slabs) l)
unfolding some_first
single_slabs-Singles l s slabs ok oks =
    subst (Singles s slabs l) (sym (single_slabs_lem l s slabs))
      (elim (dec_lt (capacity (s ∷ slabs)) l) [
        | yes short ↦ rw (split_one-short l s slabs short) short
        | no room ↦
            let fits : l ≤ capacity (s ∷ slabs) = omega (arith, room) in
            let (r, e, h) =
              Succeeds-witness (λ r. Fills r.0 (s ∷ slabs) × (sum_lengths r.0 ≡ l))
                (split_one l 0 s slabs) (split_one-Fills l s slabs ok oks fits) in
            rw e (fits, h.0, h.1)
      ])

-- Two objects that each fit into the first slab, but do not together: both are given slices of that
-- slab, and the second slice runs behind its end.
split_slabs_overruns :
    (a b : ℕ) (s : Slab) (slabs : List Slab)
    → IsSlab s
    → a ≤ slab_length s
    → b ≤ slab_length s
    → slab_length s < a + b
    → (split_slabs (s ∷ slabs) (a ∷ b ∷ [])
        ≡ some (
            (record { slab = s; offset = 0; length_of = a } ∷ [])
            ∷ (record { slab = s; offset = a; length_of = b } ∷ [])
            ∷ []))
      × (slab_length s < a + b)
unfolding split_slabs split_all split_one
split_slabs_overruns a b s [] ok fits_a fits_b over =
    let enough_a : ltb (slab_length s) a ≡ false = ground (arith, fits_a) in
    let enough_b : ltb (slab_length s) b ≡ false = ground (arith, fits_b) in
    let small_a : a % 2 ^ 32 ≡ a = omega (arith, fits_a, ok) in
    let next_a : (0 + a) % 2 ^ 32 ≡ a = omega (arith, fits_a, ok) in
    let small_b : b % 2 ^ 32 ≡ b = omega (arith, fits_b, ok) in
    (rw (enough_a, enough_b, next_a, small_a, small_b) refl, over)
split_slabs_overruns a b s (next ∷ slabs) ok fits_a fits_b over =
    let enough_a : ltb (slab_length s) a ≡ false = ground (arith, fits_a) in
    let enough_b : ltb (slab_length s) b ≡ false = ground (arith, fits_b) in
    let small_a : a % 2 ^ 32 ≡ a = omega (arith, fits_a, ok) in
    let next_a : (0 + a) % 2 ^ 32 ≡ a = omega (arith, fits_a, ok) in
    let small_b : b % 2 ^ 32 ≡ b = omega (arith, fits_b, ok) in
    (rw (enough_a, split_one, enough_b, next_a, small_a, small_b) refl, over)
