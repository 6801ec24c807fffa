-- ===== src/Object/Stripes/Joined.antt =====
-- What stripedJoin writes is a part of the rows.
use sia_satellite.Prelude.{
  ℕ, zero, suc, ◌+◌, ◌-◌, ◌*◌, ◌≤◌, ◌<◌, ◌≡◌, refl, sym, ap, ◌∙◌, inl, inr, false, Option, some,
  List, [], ◌∷◌, ◌++◌, arith, ltb, leb, Bool-cases, length, length-append, take, drop, All,
  All-weaken,
}
use sia_satellite.Object.Stripes.Leaves.{
  take-append_at, drop-append_at, length-take, length-drop, take-nil, drop-nil, drop_all,
}
use sia_satellite.Object.Stripes.{leaf_size, join_round, striped_join, leaf_at, row, rows}

abbrev pub Reaching : ℕ → List (List ℕ) → Type 0
Reaching n shards = All (λ s. n ≤ length s) shards

pub Reaching-less :
    (m n : ℕ) (shards : List (List ℕ)) → m ≤ n → Reaching n shards → Reaching m shards
Reaching-less m n shards h r =
    All-weaken (λ s. n ≤ length s) (λ s. m ≤ length s) shards r (λ s g. omega (arith, h, g))

pub length-leaf_at :
    (off : ℕ) (s : List ℕ) → off + leaf_size ≤ length s → length (leaf_at off s) ≡ leaf_size
length-leaf_at off s h = omega (arith, h, length-take leaf_size (drop off s), length-drop off s)

pub length-row :
    (off : ℕ) (shards : List (List ℕ))
    → Reaching (off + leaf_size) shards
    → length (row off shards) ≡ leaf_size * length shards
length-row off [] r = refl
length-row off (s ∷ shards) (first, rest) = omega (
  arith,
  length-append (leaf_at off s) (row off shards),
  length-leaf_at off s first,
  length-row off shards rest,
)

some_parts :
    (xs ys : List ℕ) (a b c d : ℕ)
    → xs ≡ ys
    → a ≡ b
    → c ≡ d
    → ◌≡◌ {A = Option (List ℕ × (ℕ × ℕ))} (some (xs, (a, c))) (some (ys, (b, d)))
some_parts xs ys a b c d p q r = cc

pub join_round_lem :
    (off : ℕ) (shards : List (List ℕ)) (skip n : ℕ)
    → Reaching (off + leaf_size) shards
    → join_round off shards skip n
      ≡ some (
        take n (drop skip (row off shards)),
        (skip - length (row off shards), n - length (drop skip (row off shards))),
      )
unfolding join_round
join_round_lem off [] skip n r =
    some_parts [] (take n (drop skip [])) skip (skip - 0) n (n - length (drop {A = ℕ} skip []))
      (sym (take-nil n) ∙ ap (take n) (sym (drop-nil skip))) (omega arith)
      (omega (arith, ap length (drop-nil skip)))
join_round_lem off (s ∷ shards) skip n (first, rest) =
    let leaf = leaf_at off s in
    let others = row off shards in
    let size = length-leaf_at off s first in
    let long : ltb (length (drop off s)) leaf_size ≡ false =
      ground (arith, first, length-drop off s) in
    elim (Bool-cases (leb leaf_size skip)) [
      | inl b ↦
          let past : leaf_size ≤ skip = ground (arith, b) in
          let same : drop skip (leaf ++ others) ≡ drop (skip - leaf_size) others =
            drop-append_at skip leaf others
            ∙ ap (λ xs. xs ++ drop (skip - length leaf) others)
                (drop_all skip leaf (omega (arith, size, past)))
            ∙ ap (λ k. drop (skip - k) others) size in
          rw (long, join_round, b)
            (join_round_lem off shards (skip - leaf_size) n rest
              ∙ some_parts _ _ _ _ _ _ (ap (take n) (sym same))
                  (omega (arith, length-append leaf others, size))
                  (ap (λ xs. n - length xs) (sym same)))
      | inr b ↦
          let inside : skip < leaf_size = ground (arith, b) in
          let part = drop skip leaf in
          let piece = take n part in
          let none_skipped : skip - length leaf ≡ 0 = omega (arith, size, inside) in
          let left : n - length piece ≡ n - length part = omega (arith, length-take n part) in
          let same : drop skip (leaf ++ others) ≡ part ++ others =
            drop-append_at skip leaf others ∙ ap (λ k. part ++ drop k others) none_skipped in
          let joined : take n (drop skip (leaf ++ others))
              ≡ piece ++ take (n - length piece) others =
            ap (take n) same
            ∙ take-append_at n part others
            ∙ ap (λ k. piece ++ take k others) (sym left) in
          rw (long, join_round, b, join_round_lem off shards 0 (n - length piece) rest)
            (some_parts _ _ _ _ _ _ (sym joined)
              (omega (arith, length-append leaf others, size, inside))
              (omega (arith, left, ap length same, length-append part others)))
    ]

pub length-rows :
    (n off : ℕ) (shards : List (List ℕ))
    → Reaching (off + leaf_size * n) shards
    → length (rows n off shards) ≡ leaf_size * length shards * n
length-rows zero off shards r = omega arith
length-rows (suc n) off shards r = omega (
  arith,
  length-append (row off shards) (rows n (off + leaf_size) shards),
  length-row off shards
      (Reaching-less (off + leaf_size) (off + leaf_size * suc n) shards (omega arith) r),
  length-rows n (off + leaf_size) shards (
      Reaching-less (off + leaf_size + leaf_size * n) (off + leaf_size * suc n) shards (omega arith)
        r),
)

-- Joining writes the part of the rows that it is asked for.
pub striped_join-rows :
    (fuel off : ℕ) (shards : List (List ℕ)) (skip n : ℕ)
    → Reaching (off + leaf_size * fuel) shards
    → skip + n ≤ length (rows fuel off shards)
    → striped_join fuel off shards skip n ≡ some (take n (drop skip (rows fuel off shards)))
unfolding striped_join
striped_join-rows zero off shards skip zero r h = refl
striped_join-rows (suc fuel) off shards skip zero r h = refl
striped_join-rows zero off shards skip (suc n) r h = absurd (omega (arith, h))
striped_join-rows (suc fuel) off shards skip (suc n) r h =
    let first = row off shards in
    let others = rows fuel (off + leaf_size) shards in
    let part = drop skip first in
    let reach =
      Reaching-less (off + leaf_size) (off + leaf_size * suc fuel) shards (omega arith) r in
    let reach' =
      Reaching-less (off + leaf_size + leaf_size * fuel) (off + leaf_size * suc fuel) shards
        (omega arith) r in
    let left : skip - length first + (suc n - length part) ≤ length others =
      omega (arith, h, length-append first others, length-drop skip first) in
    let ih =
      striped_join-rows fuel (off + leaf_size) shards (skip - length first) (suc n - length part)
        reach' left in
    rw (join_round_lem off shards skip (suc n) reach, ih)
      (ap some (
        sym (
          ap (take (suc n)) (drop-append_at skip first others)
          ∙ take-append_at (suc n) part (drop (skip - length first) others))))
