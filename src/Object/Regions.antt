-- ===== src/Object/Regions.antt =====
-- What a download asks for and what it recovers.
use sia_satellite.Prelude.{
  ℕ, zero, suc, ◌+◌, ◌-◌, ◌*◌, ◌/◌, ◌%◌, ◌≤◌, ◌<◌, ◌≡◌, refl, sym, ap, ◌∙◌, inl, inr, some, List,
  [], ◌∷◌, ◌++◌, map, append_assoc, arith, ◌==◌, if◌then◌else◌, ==_iff, Bool-cases, length, take,
  drop,
}
use sia_satellite.Object.Stripes.Leaves.{
  drop-append_at, length-take, length-drop, drop_all, part_of_front, drop-drop,
}
use sia_satellite.Object.Stripes.{leaf_size, striped_join, leaf_at, row, rows}
use sia_satellite.Object.Stripes.Joined.{Reaching, Reaching-less, length-rows, striped_join-rows}
use native.Mathlib.Nat.{div-add-mod, mod-lt, le_of_mul-le-mul_left}

-- The part of a shard that a download asks for.
abbrev pub region : ℕ → ℕ → List ℕ → List ℕ
region o l s = take l (drop o s)

take-drop-take :
    (n k l : ℕ) (xs : List ℕ) → k + n ≤ l → take n (drop k (take l xs)) ≡ take n (drop k xs)
take-drop-take zero k l xs h = refl
take-drop-take (suc n) k zero xs h = absurd (omega (arith, h))
take-drop-take (suc n) zero (suc l) [] h = refl
take-drop-take (suc n) zero (suc l) (x ∷ xs) h =
    ap (λ ys. x ∷ ys) (take-drop-take n zero l xs (omega (arith, h)))
take-drop-take (suc n) (suc k) (suc l) [] h = refl
take-drop-take (suc n) (suc k) (suc l) (x ∷ xs) h = take-drop-take (suc n) k l xs (omega (arith, h))

row-region :
    (o l k : ℕ) (shards : List (List ℕ))
    → k + leaf_size ≤ l
    → row k (map (region o l) shards) ≡ row (o + k) shards
row-region o l k [] h = refl
row-region o l k (s ∷ shards) h =
    ap (λ xs. xs ++ row k (map (region o l) shards))
      (take-drop-take leaf_size k l (drop o s) h ∙ ap (take leaf_size) (drop-drop o k s))
    ∙ ap (λ xs. leaf_at (o + k) s ++ xs) (row-region o l k shards h)

next_row : (o k : ℕ) → o + (k + leaf_size) ≡ o + k + leaf_size
next_row o k = omega arith

rows-region :
    (n o l k : ℕ) (shards : List (List ℕ))
    → k + leaf_size * n ≤ l
    → rows n k (map (region o l) shards) ≡ rows n (o + k) shards
rows-region zero o l k shards h = refl
rows-region (suc n) o l k shards h =
    ap (λ xs. xs ++ rows n (k + leaf_size) (map (region o l) shards))
      (row-region o l k shards (omega (arith, h)))
    ∙ ap (λ xs. row (o + k) shards ++ xs)
        (rows-region n o l (k + leaf_size) shards (omega (arith, h))
          ∙ ap (λ j. rows n j shards) (next_row o k))

add_zero_of : (n : ℕ) → n + 0 ≡ 0 + n
add_zero_of n = omega arith

zero_add_of : (n : ℕ) → 0 + n ≡ n
zero_add_of n = omega arith

suc_add_of : (m n : ℕ) → suc m + n ≡ suc (m + n)
suc_add_of m n = omega arith

first_row : (off : ℕ) → off ≡ off + leaf_size * 0
first_row off = omega arith

later_row : (off a : ℕ) → off + leaf_size + leaf_size * a ≡ off + leaf_size * suc a
later_row off a = omega arith

rows-append :
    (a b off : ℕ) (shards : List (List ℕ))
    → rows (a + b) off shards ≡ rows a off shards ++ rows b (off + leaf_size * a) shards
rows-append zero b off shards =
    ap (λ k. rows k off shards) (zero_add_of b) ∙ ap (λ k. rows b k shards) (first_row off)
rows-append (suc a) b off shards =
    ap (λ k. rows k off shards) (suc_add_of a b)
    ∙ ap (λ xs. row off shards ++ xs)
        (rows-append a b (off + leaf_size) shards
          ∙ ap (λ k. rows a (off + leaf_size) shards ++ rows b k shards) (later_row off a))
    ∙ sym (
        append_assoc (row off shards) (rows a (off + leaf_size) shards)
          (rows b (off + leaf_size * suc a) shards))

-- The leaves of a slice: the first and the one behind the last.
abbrev pub first_leaf : ℕ → ℕ → ℕ
first_leaf chunk offset = offset / chunk

abbrev pub last_leaf : ℕ → ℕ → ℕ
last_leaf chunk end = end / chunk + (if end % chunk == 0 then 0 else 1)

-- The leaves from `first` to `last` of a slice hold it, and no more than they must.
pub record Bounds (chunk offset size first last : ℕ) : Type 0 where
  pub starts : chunk * first + offset % chunk ≡ offset
  pub within : offset % chunk < chunk
  pub holds : offset + size ≤ chunk * last
  pub tight : chunk * last < offset + size + chunk
  pub ordered : first ≤ last

last_leaf_holds :
    (chunk end : ℕ)
    → 0 < chunk
    → (end ≤ chunk * last_leaf chunk end) × (chunk * last_leaf chunk end < end + chunk)
last_leaf_holds chunk end pos =
    let whole = div-add-mod end chunk in
    let small = mod-lt end pos in
    elim (Bool-cases (end % chunk == 0)) [
      | inl b ↦ rw b (
          let e = (==_iff (end % chunk) 0).0 b in
          (omega (arith, whole, e), omega (arith, whole, e, pos)))
      | inr b ↦ rw b (
          let p : 0 < end % chunk = ground (arith, b) in
          (omega (arith, whole, small), omega (arith, whole, p)))
    ]

pub leaves-Bounds :
    (chunk offset size : ℕ)
    → 0 < chunk
    → Bounds chunk offset size (first_leaf chunk offset) (last_leaf chunk (offset + size))
leaves-Bounds chunk offset size pos =
    let whole = div-add-mod offset chunk in
    let (holds, tight) = last_leaf_holds chunk (offset + size) pos in
    record {
      starts = whole;
      within = mod-lt offset pos;
      holds = holds;
      tight = tight;
      ordered = le_of_mul-le-mul_left (omega (arith, whole, holds)) pos;
    }

pub length-map-region :
    (o l : ℕ) (shards : List (List ℕ)) → length (map (region o l) shards) ≡ length shards
length-map-region o l [] = refl
length-map-region o l (s ∷ shards) = ap suc (length-map-region o l shards)

Reaching-regions :
    (o l k n : ℕ) (shards : List (List ℕ))
    → o + k ≤ n
    → k ≤ l
    → Reaching n shards
    → Reaching k (map (region o l) shards)
Reaching-regions o l k n [] h g r = tt
Reaching-regions o l k n (s ∷ shards) h g (first, rest) = (
  omega (arith, h, g, first, length-take l (drop o s), length-drop o s),
  Reaching-regions o l k n shards h g rest,
)

-- A part of rows that stand between others.
part_of_rows :
    (chunk first b offset size : ℕ) (front here behind : List ℕ)
    → Bounds chunk offset size first (first + b)
    → length front ≡ chunk * first
    → length here ≡ chunk * b
    → take size (drop offset (front ++ (here ++ behind))) ≡ take size (drop (offset % chunk) here)
part_of_rows chunk first b offset size front here behind bounds wide_front wide_here =
    let skip = offset % chunk in
    let past : length front ≤ offset = omega (arith, wide_front, bounds.starts) in
    let left : offset - length front ≡ skip = omega (arith, wide_front, bounds.starts) in
    let inside : skip + size ≤ length here =
      omega (arith, wide_here, bounds.starts, bounds.holds) in
    ap (take size) (
      drop-append_at offset front (here ++ behind)
      ∙ ap (λ xs. xs ++ drop (offset - length front) (here ++ behind)) (drop_all offset front past)
      ∙ ap (λ k. drop k (here ++ behind)) left)
    ∙ part_of_front skip size here behind inside

pub striped_join-regions :
    (n m first b c offset size l : ℕ) (shards : List (List ℕ))
    → length shards ≡ n
    → m ≡ first + (b + c)
    → Reaching (leaf_size * m) shards
    → Bounds (leaf_size * n) offset size first (first + b)
    → leaf_size * b ≤ l
    → striped_join b 0 (map (region (leaf_size * first) l) shards) (offset % (leaf_size * n)) size
      ≡ some (take size (drop offset (rows m 0 shards)))
striped_join-regions n m first b c offset size l shards count split reach bounds long =
    let o = leaf_size * first in
    let chunk = leaf_size * n in
    let regions = map (region o l) shards in
    let skip = offset % chunk in
    let reach_b : Reaching (0 + leaf_size * b) regions =
      Reaching-regions o l (0 + leaf_size * b) (leaf_size * m) shards (omega (arith, split))
        (omega (arith, long)) reach in
    let less = λ (k : ℕ) (h : k ≤ leaf_size * m). Reaching-less k (leaf_size * m) shards h reach in
    let wide_b : length (rows b 0 regions) ≡ chunk * b =
      length-rows b 0 regions reach_b
      ∙ ap (λ k. leaf_size * k * b) (length-map-region o l shards ∙ count) in
    let here = rows b (0 + o) shards in
    let moved : rows b 0 regions ≡ here =
      rows-region b o l 0 shards (omega (arith, long))
      ∙ ap (λ k. rows b k shards) (add_zero_of o) in
    let wide_front : length (rows first 0 shards) ≡ chunk * first =
      length-rows first 0 shards (less (0 + leaf_size * first) (omega (arith, split)))
      ∙ ap (λ k. leaf_size * k * first) count in
    let behind = rows c (0 + o + leaf_size * b) shards in
    let whole : rows m 0 shards ≡ rows first 0 shards ++ (here ++ behind) =
      ap (λ k. rows k 0 shards) split
      ∙ rows-append first (b + c) 0 shards
      ∙ ap (λ xs. rows first 0 shards ++ xs) (rows-append b c (0 + o) shards) in
    striped_join-rows b 0 regions skip size reach_b
      (omega (arith, wide_b, bounds.starts, bounds.holds))
    ∙ ap (λ xs. some (take size (drop skip xs))) moved
    ∙ ap some (
        sym (
          ap (λ xs. take size (drop offset xs)) whole
          ∙ part_of_rows chunk first b offset size (rows first 0 shards) here behind bounds
              wide_front (ap length (sym moved) ∙ wide_b)))
