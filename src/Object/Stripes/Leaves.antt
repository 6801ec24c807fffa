-- ===== src/Object/Stripes/Leaves.antt =====
-- Parts of lists under a copy.
use sia_satellite.Prelude.{
  ℕ, zero, suc, ◌+◌, ◌-◌, ◌*◌, ◌≤◌, min, ◌≡◌, refl, sym, ap, ◌∙◌, List, [], ◌∷◌, ◌++◌, append-nil,
  arith, length, take, drop,
}
use sia_satellite.Object.Stripes.{leaf_size, overlay, over, leaf_at}

no_less : (n : ℕ) → n ≡ n - 0
no_less n = omega arith

both_less : (n k : ℕ) → n - k ≡ suc n - suc k
both_less n k = omega arith

zero_less : (k : ℕ) → 0 ≡ 0 - k
zero_less k = omega arith

pub take-append_at :
    (n : ℕ) (xs ys : List ℕ) → take n (xs ++ ys) ≡ take n xs ++ take (n - length xs) ys
take-append_at zero [] ys = refl
take-append_at zero (x ∷ xs) ys = ap (λ k. take k ys) (zero_less (length (x ∷ xs)))
take-append_at (suc n) [] ys = ap (λ k. take k ys) (no_less (suc n))
take-append_at (suc n) (x ∷ xs) ys =
    ap (λ zs. x ∷ zs) (take-append_at n xs ys)
    ∙ ap (λ k. x ∷ (take n xs ++ take k ys)) (both_less n (length xs))

pub drop-append_at :
    (n : ℕ) (xs ys : List ℕ) → drop n (xs ++ ys) ≡ drop n xs ++ drop (n - length xs) ys
drop-append_at zero [] ys = refl
drop-append_at zero (x ∷ xs) ys = ap (λ k. x ∷ (xs ++ drop k ys)) (zero_less (length (x ∷ xs)))
drop-append_at (suc n) [] ys = ap (λ k. drop k ys) (no_less (suc n))
drop-append_at (suc n) (x ∷ xs) ys =
    drop-append_at n xs ys ∙ ap (λ k. drop n xs ++ drop k ys) (both_less n (length xs))

pub length-take : (n : ℕ) (xs : List ℕ) → length (take n xs) ≡ min n (length xs)
length-take zero xs = omega arith
length-take (suc n) [] = omega arith
length-take (suc n) (x ∷ xs) = omega (arith, length-take n xs)

pub length-drop : (n : ℕ) (xs : List ℕ) → length (drop n xs) ≡ length xs - n
length-drop zero xs = omega arith
length-drop (suc n) [] = omega arith
length-drop (suc n) (x ∷ xs) = omega (arith, length-drop n xs)

pub length-overlay : (xs ys : List ℕ) → length (overlay xs ys) ≡ length xs
length-overlay xs [] = refl
length-overlay [] (y ∷ ys) = refl
length-overlay (x ∷ xs) (y ∷ ys) = ap suc (length-overlay xs ys)

pub length-over : (off : ℕ) (s src : List ℕ) → length (over off s src) ≡ length s
length-over zero s src = length-overlay s src
length-over (suc off) [] src = refl
length-over (suc off) (x ∷ s) src = ap suc (length-over off s src)

take-overlay : (n : ℕ) (xs ys : List ℕ) → take n (overlay xs ys) ≡ overlay (take n xs) (take n ys)
take-overlay zero xs ys = refl
take-overlay (suc n) xs [] = refl
take-overlay (suc n) [] (y ∷ ys) = refl
take-overlay (suc n) (x ∷ xs) (y ∷ ys) = ap (λ zs. y ∷ zs) (take-overlay n xs ys)

take-take : (n : ℕ) (xs : List ℕ) → take n (take n xs) ≡ take n xs
take-take zero xs = refl
take-take (suc n) [] = refl
take-take (suc n) (x ∷ xs) = ap (λ zs. x ∷ zs) (take-take n xs)

drop-over : (off : ℕ) (s src : List ℕ) → drop off (over off s src) ≡ overlay (drop off s) src
drop-over zero s src = refl
drop-over (suc off) [] [] = refl
drop-over (suc off) [] (y ∷ ys) = refl
drop-over (suc off) (x ∷ s) src = drop-over off s src

take-over : (k off : ℕ) (s src : List ℕ) → k ≤ off → take k (over off s src) ≡ take k s
take-over zero off s src h = refl
take-over (suc k) zero s src h = absurd (omega (arith, h))
take-over (suc k) (suc off) [] src h = refl
take-over (suc k) (suc off) (x ∷ s) src h =
    ap (λ zs. x ∷ zs) (take-over k off s src (omega (arith, h)))

drop-overlay : (k : ℕ) (xs ys : List ℕ) → length ys ≤ k → drop k (overlay xs ys) ≡ drop k xs
drop-overlay k xs [] h = refl
drop-overlay zero xs (y ∷ ys) h = absurd (omega (arith, h))
drop-overlay (suc k) [] (y ∷ ys) h = refl
drop-overlay (suc k) (x ∷ xs) (y ∷ ys) h = drop-overlay k xs ys (omega (arith, h))

drop_past-over :
    (k off : ℕ) (s src : List ℕ) → off + length src ≤ k → drop k (over off s src) ≡ drop k s
drop_past-over k zero s src h = drop-overlay k s src (omega (arith, h))
drop_past-over k (suc off) [] src h = refl
drop_past-over zero (suc off) (x ∷ s) src h = absurd (omega (arith, h))
drop_past-over (suc k) (suc off) (x ∷ s) src h = drop_past-over k off s src (omega (arith, h))

-- A leaf of a shard that a leaf has been copied to, at its place, before it and behind it.
pub leaf_at-over :
    (off : ℕ) (s bytes : List ℕ)
    → leaf_at off (over off s (take leaf_size bytes))
      ≡ overlay (leaf_at off s) (take leaf_size bytes)
leaf_at-over off s bytes =
    ap (take leaf_size) (drop-over off s (take leaf_size bytes))
    ∙ take-overlay leaf_size (drop off s) (take leaf_size bytes)
    ∙ ap (overlay (leaf_at off s)) (take-take leaf_size bytes)

pub leaf_at-over_before :
    (k off : ℕ) (s src : List ℕ) → k + leaf_size ≤ off → leaf_at k (over off s src) ≡ leaf_at k s
leaf_at-over_before zero off s src h = take-over leaf_size off s src (omega (arith, h))
leaf_at-over_before (suc k) zero s src h = absurd (omega (arith, h))
leaf_at-over_before (suc k) (suc off) [] src h = refl
leaf_at-over_before (suc k) (suc off) (x ∷ s) src h =
    leaf_at-over_before k off s src (omega (arith, h))

pub leaf_at-over_behind :
    (k off : ℕ) (s bytes : List ℕ)
    → off + leaf_size ≤ k
    → leaf_at k (over off s (take leaf_size bytes)) ≡ leaf_at k s
leaf_at-over_behind k off s bytes h =
    ap (take leaf_size) (
      drop_past-over k off s (take leaf_size bytes) (omega (arith, h, length-take leaf_size bytes)))

pub overlay-append :
    (xs ys bytes : List ℕ)
    → overlay (xs ++ ys) bytes
      ≡ overlay xs (take (length xs) bytes) ++ overlay ys (drop (length xs) bytes)
overlay-append [] ys bytes = refl
overlay-append (x ∷ xs) ys [] = refl
overlay-append (x ∷ xs) ys (b ∷ bytes) = ap (λ zs. b ∷ zs) (overlay-append xs ys bytes)

pub take-overlay_all :
    (xs bytes : List ℕ) → length bytes ≤ length xs → take (length bytes) (overlay xs bytes) ≡ bytes
take-overlay_all xs [] h = refl
take-overlay_all [] (b ∷ bytes) h = absurd (omega (arith, h))
take-overlay_all (x ∷ xs) (b ∷ bytes) h =
    ap (λ zs. b ∷ zs) (take-overlay_all xs bytes (omega (arith, h)))

pub take-nil : (n : ℕ) → take {A = ℕ} n [] ≡ []
take-nil zero = refl
take-nil (suc n) = refl

pub drop-nil : (n : ℕ) → drop {A = ℕ} n [] ≡ []
drop-nil zero = refl
drop-nil (suc n) = refl

pub drop_all : (n : ℕ) (xs : List ℕ) → length xs ≤ n → drop n xs ≡ []
drop_all n [] h = drop-nil n
drop_all zero (x ∷ xs) h = absurd (omega (arith, h))
drop_all (suc n) (x ∷ xs) h = drop_all n xs (omega (arith, h))

pub overlay-take : (xs ys : List ℕ) → overlay xs (take (length xs) ys) ≡ overlay xs ys
overlay-take [] [] = refl
overlay-take [] (y ∷ ys) = refl
overlay-take (x ∷ xs) [] = refl
overlay-take (x ∷ xs) (y ∷ ys) = ap (λ zs. y ∷ zs) (overlay-take xs ys)

pub overlay_front :
    (xs ys : List ℕ) → length ys ≤ length xs → overlay xs ys ≡ ys ++ drop (length ys) xs
overlay_front xs [] h = refl
overlay_front [] (y ∷ ys) h = absurd (omega (arith, h))
overlay_front (x ∷ xs) (y ∷ ys) h = ap (λ zs. y ∷ zs) (overlay_front xs ys (omega (arith, h)))

-- A part of the front is a part of the whole.
pub part_of_front :
    (skip n : ℕ) (xs ys : List ℕ)
    → skip + n ≤ length xs
    → take n (drop skip (xs ++ ys)) ≡ take n (drop skip xs)
part_of_front skip n xs ys h =
    let behind = drop (skip - length xs) ys in
    let none_left : n - length (drop skip xs) ≡ 0 = omega (arith, h, length-drop skip xs) in
    ap (take n) (drop-append_at skip xs ys)
    ∙ take-append_at n (drop skip xs) behind
    ∙ ap (λ k. take n (drop skip xs) ++ take k behind) none_left
    ∙ append-nil (take n (drop skip xs))

pub overlay-nil : (ys : List ℕ) → overlay [] ys ≡ []
overlay-nil [] = refl
overlay-nil (y ∷ ys) = refl

step_zero : (m n : ℕ) → n ≡ 0 + n
step_zero m n = omega arith

step_suc : (m n : ℕ) → suc (m + n) ≡ suc m + n
step_suc m n = omega arith

pub step_size : (n : ℕ) → leaf_size + leaf_size * n ≡ leaf_size * suc n
step_size n = omega arith

pub drop-drop : (m n : ℕ) (xs : List ℕ) → drop n (drop m xs) ≡ drop (m + n) xs
drop-drop zero n xs = ap (λ k. drop k xs) (step_zero 0 n)
drop-drop (suc m) n [] = drop-nil n ∙ sym (drop-nil (suc m + n))
drop-drop (suc m) n (x ∷ xs) = drop-drop m n xs ∙ ap (λ k. drop k (x ∷ xs)) (step_suc m n)
