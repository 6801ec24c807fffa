-- ===== src/Object/Stripes/Placed.antt =====
-- stripedSplit copies the data over the rows.
use sia_satellite.Prelude.{
  ℕ, zero, suc, ◌+◌, ◌-◌, ◌*◌, ◌≤◌, ◌≡◌, refl, sym, ap, ◌∙◌, subst, true, List, [], ◌∷◌, ◌++◌,
  arith, leb, length, take, drop, Succeeds, Succeeds-weaken, Succeeds-map, Succeeds-bind,
}
use sia_satellite.Object.Stripes.Leaves.{
  length-drop, length-over, leaf_at-over, leaf_at-over_before, leaf_at-over_behind, overlay-append,
  overlay-take, overlay-nil, step_size, drop-drop,
}
use sia_satellite.Object.Stripes.Joined.{Reaching, Reaching-less, length-leaf_at, length-row}
use sia_satellite.Object.Stripes.{
  leaf_size, overlay, over, split_round, striped_split, leaf_at, row, rows,
}

-- Shards that a round at one offset has written to.
pub record Laid (off : ℕ) (bytes : List ℕ) (shards : List (List ℕ)) (r : List (List ℕ) × List ℕ)
    : Type 0 where
  pub left : r.1 ≡ drop (leaf_size * length shards) bytes
  pub count : length r.0 ≡ length shards
  pub placed : row off r.0 ≡ overlay (row off shards) bytes
  pub reach : (n : ℕ) → Reaching n shards → Reaching n r.0
  pub before : (k : ℕ) → k + leaf_size ≤ off → row k r.0 ≡ row k shards
  pub behind : (k : ℕ) → off + leaf_size ≤ k → row k r.0 ≡ row k shards

pub split_round-Laid :
    (off : ℕ) (shards : List (List ℕ)) (bytes : List ℕ)
    → Reaching (off + leaf_size) shards
    → Succeeds (Laid off bytes shards) (split_round off shards bytes)
unfolding split_round
split_round-Laid off [] bytes r = record {
  left = refl;
  count = refl;
  placed = sym (overlay-nil bytes);
  reach = λ n g. tt;
  before = λ k h. refl;
  behind = λ k h. refl;
}
split_round-Laid off (s ∷ shards) bytes (first, rest) =
    let long : leb off (length s) ≡ true = ground (arith, first) in
    let chunk = take leaf_size bytes in
    let size = length-leaf_at off s first in
    rw (long, split_round)
      (Succeeds-map (Laid off (drop leaf_size bytes) shards) (Laid off bytes (s ∷ shards))
        (split_round off shards (drop leaf_size bytes)) (λ r. (over off s chunk ∷ r.0, r.1))
        (split_round-Laid off shards (drop leaf_size bytes) rest)
        (λ r laid. record {
          left =
              laid.left
              ∙ drop-drop leaf_size (leaf_size * length shards) bytes
              ∙ ap (λ k. drop k bytes) (step_size (length shards));
          count = ap suc laid.count;
          placed =
              ap (λ xs. xs ++ row off r.0) (leaf_at-over off s bytes)
              ∙ ap (λ xs. overlay (leaf_at off s) chunk ++ xs) laid.placed
              ∙ ap
                  (λ k.
                    overlay (leaf_at off s) (take k bytes)
                    ++ overlay (row off shards) (drop k bytes))
                  (sym size)
              ∙ sym (overlay-append (leaf_at off s) (row off shards) bytes);
          reach = λ n g. (subst (λ k. n ≤ k) (sym (length-over off s chunk)) g.0, laid.reach n g.1);
          before = λ k h.
              ap (λ xs. xs ++ row k r.0) (leaf_at-over_before k off s chunk h)
              ∙ ap (λ xs. leaf_at k s ++ xs) (laid.before k h);
          behind = λ k h.
              ap (λ xs. xs ++ row k r.0) (leaf_at-over_behind k off s bytes h)
              ∙ ap (λ xs. leaf_at k s ++ xs) (laid.behind k h);
        }))

rows_behind :
    (n off k : ℕ) (bytes : List ℕ) (shards : List (List ℕ)) (r : List (List ℕ) × List ℕ)
    → Laid off bytes shards r
    → off + leaf_size ≤ k
    → rows n k r.0 ≡ rows n k shards
rows_behind zero off k bytes shards r laid h = refl
rows_behind (suc n) off k bytes shards r laid h =
    ap (λ xs. xs ++ rows n (k + leaf_size) r.0) (laid.behind k h)
    ∙ ap (λ xs. row k shards ++ xs)
        (rows_behind n off (k + leaf_size) bytes shards r laid (omega (arith, h)))

-- Shards that the data has been written to from one offset on.
pub record Placed (fuel off : ℕ) (bytes : List ℕ) (shards : List (List ℕ)) (r : List (List ℕ))
    : Type 0 where
  pub count : length r ≡ length shards
  pub placed : rows fuel off r ≡ overlay (rows fuel off shards) bytes
  pub reach : (n : ℕ) → Reaching n shards → Reaching n r
  pub before : (k : ℕ) → k + leaf_size ≤ off → row k r ≡ row k shards

left_fits :
    (size n fuel : ℕ)
    → size ≤ leaf_size * n * suc fuel
    → size - leaf_size * n ≤ leaf_size * n * fuel
left_fits size n fuel h = omega (arith, h)

pub striped_split-Placed :
    (fuel off : ℕ) (shards : List (List ℕ)) (bytes : List ℕ)
    → Reaching (off + leaf_size * fuel) shards
    → length bytes ≤ leaf_size * length shards * fuel
    → Succeeds (Placed fuel off bytes shards) (striped_split fuel off shards bytes)
unfolding striped_split
striped_split-Placed zero off shards [] r h = record {
  count = refl;
  placed = refl;
  reach = λ n g. g;
  before = λ k h. refl;
}
striped_split-Placed (suc fuel) off shards [] r h = record {
  count = refl;
  placed = refl;
  reach = λ n g. g;
  before = λ k h. refl;
}
striped_split-Placed zero off shards (b ∷ bytes) r h = absurd (omega (arith, h))
striped_split-Placed (suc fuel) off shards (b ∷ bytes) r h =
    let input = b ∷ bytes in
    let here =
      Reaching-less (off + leaf_size) (off + leaf_size * suc fuel) shards (omega arith) r in
    let next =
      Reaching-less (off + leaf_size + leaf_size * fuel) (off + leaf_size * suc fuel) shards
        (omega arith) r in
    Succeeds-bind (Laid off input shards) (Placed (suc fuel) off input shards) _ _
      (split_round-Laid off shards input here)
      (λ s laid.
        let behind = rows_behind fuel off (off + leaf_size) input shards s laid (omega arith) in
        let width = length-row off shards here in
        let few : length s.1 ≤ leaf_size * length s.0 * fuel =
          subst (λ k. length s.1 ≤ leaf_size * k * fuel) (sym laid.count)
            (subst (λ xs. length xs ≤ leaf_size * length shards * fuel) (sym laid.left)
              (subst (λ k. k ≤ leaf_size * length shards * fuel)
                (sym (length-drop (leaf_size * length shards) input))
                (left_fits (length input) (length shards) fuel h))) in
        Succeeds-weaken (Placed fuel (off + leaf_size) s.1 s.0) (Placed (suc fuel) off input shards)
          _
          (striped_split-Placed fuel (off + leaf_size) s.0 s.1
            (laid.reach (off + leaf_size + leaf_size * fuel) next) few)
          (λ t p. record {
            count = p.count ∙ laid.count;
            placed =
                ap (λ xs. xs ++ rows fuel (off + leaf_size) t)
                  (p.before off (omega arith)
                    ∙ laid.placed
                    ∙ sym (overlay-take (row off shards) input))
                ∙ ap (λ xs. overlay (row off shards) (take (length (row off shards)) input) ++ xs)
                    (p.placed
                      ∙ ap (λ xs. overlay xs s.1) behind
                      ∙ ap (overlay (rows fuel (off + leaf_size) shards))
                          (laid.left ∙ ap (λ k. drop k input) (sym width)))
                ∙ sym (overlay-append (row off shards) (rows fuel (off + leaf_size) shards) input);
            reach = λ n g. p.reach n (laid.reach n g);
            before = λ k g. p.before k (omega (arith, g)) ∙ laid.before k g;
          }))
