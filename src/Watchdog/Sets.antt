-- ===== src/Watchdog/Sets.antt =====
-- Sets of identifiers, which the watchdog keeps as maps with empty values.
use sia_satellite.Prelude.{
  ℕ, ◌≡◌, ap, Bool, true, false, List, [], ◌∷◌, arith, ℕ_discrete, ◌==◌, if◌then◌else◌, length,
}

unfoldable pub has : ℕ → List ℕ → Bool
has x [] = false
has x (y ∷ ys) = if y == x then true else has x ys

-- `m[x] = struct{}{}`
unfoldable pub with_id : ℕ → List ℕ → List ℕ
unfolding has
with_id x ys = if has x ys then ys else x ∷ ys

-- `delete(m, x)`
unfoldable pub without : ℕ → List ℕ → List ℕ
without x [] = []
without x (y ∷ ys) = if y == x then without x ys else y ∷ without x ys

-- The members of the second that are not in the first.
unfoldable pub not_in : List ℕ → List ℕ → List ℕ
unfolding has
not_in zs [] = []
not_in zs (x ∷ xs) = if has x zs then not_in zs xs else x ∷ not_in zs xs

pub has-with_id :
    (z x : ℕ) (ys : List ℕ) → has z (with_id x ys) ≡ (if x == z then true else has z ys)
unfolding has with_id
has-with_id z x ys = ground arith

pub has-without :
    (z x : ℕ) (ys : List ℕ) → has z (without x ys) ≡ (if x == z then false else has z ys)
unfolding has without
has-without z x [] = ground arith
has-without z x (y ∷ ys) = ground (arith, has-without z x ys)

pub has-not_in :
    (z : ℕ) (zs xs : List ℕ) → has z (not_in zs xs) ≡ (if has z zs then false else has z xs)
unfolding has not_in
has-not_in z zs [] = ground arith
has-not_in z zs (x ∷ xs) = elim (ℕ_discrete x z) [
  | yes p ↦ let same = ap (λ k. has k zs) p in ground (arith, has-not_in z zs xs, same, p)
  | no n ↦ ground (arith, has-not_in z zs xs, n)
]

-- A set of one member.
pub has-single : (x z : ℕ) (ys : List ℕ) → has x ys ≡ true → length ys ≡ 1 → has z ys ≡ (x == z)
unfolding has
has-single x z [] h e = absurd (omega (arith, e))
has-single x z (y ∷ []) h e = ground (arith, h)
has-single x z (y ∷ y' ∷ ys) h e = absurd (omega (arith, e))
