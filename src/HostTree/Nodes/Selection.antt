-- ===== src/HostTree/Nodes/Selection.antt =====
-- `nodeAtScore` of hosttree.go against a plain scan: the hosts laid side by side, each as wide as
-- its score, in the order left side, right side, node.
use sia_satellite.Prelude.{
  ℕ, ◌+◌, ◌-◌, ◌≤◌, ◌<◌, ◌≡◌, refl, sym, ap, ◌∙◌, true, Option, none, some, List, [], ◌∷◌, ◌++◌,
  arith, dec_lt, ltb, if◌then◌else◌, lt→ltb, ◌>>=◌,
}
use sia_satellite.Currency.{Currency, CurrencyLaws}
use sia_satellite.HostTree.Nodes.Paths.{Dir, left, right, NodePath}
use sia_satellite.HostTree.Nodes.{NodeFields, Node, nil, node, score_of, node_at_score}
use sia_satellite.HostTree.Nodes.Scores.{score_or_zero, own_score, IsScored}

abbrev pub Weights : Type 0
Weights = List (NodePath × ℕ)

abbrev pub below : Dir → Weights → Weights
below d [] = []
below d ((p, w) ∷ ws) = (d ∷ p, w) ∷ below d ws

abbrev pub total : Weights → ℕ
total [] = 0
total ((p, w) ∷ ws) = w + total ws

abbrev pub here : NodeFields → Weights
here f = if f.taken then ([], score_or_zero f.entry) ∷ [] else []

-- The hosts of the tree with their scores, in the order of the search.
abbrev pub post_order : Node → Weights
post_order nil = []
post_order (node f l r) = below left (post_order l) ++ (below right (post_order r) ++ here f)

-- The host on which the point `s` falls.
abbrev pub pick : ℕ → Weights → Option NodePath
pick s [] = none
pick s ((p, w) ∷ ws) = if ltb s w then some p else pick (s - w) ws

total-append : (xs ys : Weights) → total (xs ++ ys) ≡ total xs + total ys
total-append [] ys = omega arith
total-append ((p, w) ∷ xs) ys = omega (arith, total-append xs ys)

total-below : (d : Dir) (xs : Weights) → total (below d xs) ≡ total xs
total-below d [] = refl
total-below d ((p, w) ∷ xs) = omega (arith, total-below d xs)

total-here : (f : NodeFields) → total (here f) ≡ own_score f
total-here f = ground arith

pub total-post_order : (t : Node) → IsScored t → total (post_order t) ≡ score_of t
total-post_order nil v = refl
total-post_order (node f l r) v = omega (
  arith,
  total-append (below left (post_order l)) (below right (post_order r) ++ here f),
  total-append (below right (post_order r)) (here f),
  total-below left (post_order l),
  total-below right (post_order r),
  total-here f,
  total-post_order l v.2,
  total-post_order r v.3,
)

pick-append-lt : (s : ℕ) (xs ys : Weights) → s < total xs → pick s (xs ++ ys) ≡ pick s xs
pick-append-lt s [] ys h = absurd (omega arith)
pick-append-lt s ((p, w) ∷ xs) ys h = ground (arith, pick-append-lt (s - w) xs ys)

pick-append-ge :
    (s : ℕ) (xs ys : Weights) → total xs ≤ s → pick s (xs ++ ys) ≡ pick (s - total xs) ys
pick-append-ge s [] ys h = ap (λ n. pick n ys) (omega arith)
pick-append-ge s ((p, w) ∷ xs) ys h =
    let e : s - w - total xs ≡ s - (w + total xs) = omega arith in
    ground (arith, pick-append-ge (s - w) xs ys, ap (λ n. pick n ys) e)

pick-below :
    (d : Dir) (s : ℕ) (xs : Weights) → pick s (below d xs) ≡ (do p ← pick s xs; some (d ∷ p))
pick-below d s [] = refl
pick-below d s ((p, w) ∷ xs) = ground (arith, pick-below d (s - w) xs)

pick-here : (s : ℕ) (f : NodeFields) → s < own_score f → pick s (here f) ≡ some []
pick-here s f h = ground arith

-- The three cases of the search: the left side, the right side, the node itself.
module _ (s : ℕ) (f : NodeFields) (l r : Node) (v : IsScored (node f l r)) where
  pick-left :
      s < score_of l
      → pick s (post_order (node f l r)) ≡ (do p ← pick s (post_order l); some (left ∷ p))
  pick-left h =
      pick-append-lt s (below left (post_order l)) _
        (omega (arith, total-below left (post_order l), total-post_order l v.2))
      ∙ pick-below left s (post_order l)

  past_left :
      score_of l ≤ s
      → pick s (post_order (node f l r))
        ≡ pick (s - score_of l) (below right (post_order r) ++ here f)
  past_left h =
      pick-append-ge s (below left (post_order l)) _
        (omega (arith, total-below left (post_order l), total-post_order l v.2))
      ∙ ap (λ n. pick (s - n) (below right (post_order r) ++ here f))
          (total-below left (post_order l) ∙ total-post_order l v.2)

  pick-right :
      score_of l ≤ s
      → s - score_of l < score_of r
      → pick s (post_order (node f l r))
        ≡ (do p ← pick (s - score_of l) (post_order r); some (right ∷ p))
  pick-right h k =
      past_left h
      ∙ pick-append-lt _ (below right (post_order r)) (here f)
          (omega (arith, total-below right (post_order r), total-post_order r v.3))
      ∙ pick-below right _ (post_order r)

  pick_self : score_of l + score_of r ≤ s → s < f.score → pick s (post_order (node f l r)) ≡ some []
  pick_self h k =
      past_left (omega arith)
      ∙ pick-append-ge _ (below right (post_order r)) (here f)
          (omega (arith, total-below right (post_order r), total-post_order r v.3))
      ∙ pick-here _ f (omega (arith, total-below right (post_order r), total-post_order r v.3))

module _ (c : Currency) (laws : CurrencyLaws c) where
  pub search-left :
      (s : ℕ) (f : NodeFields) (l r : Node)
      → s < score_of l
      → s < f.score
      → node_at_score c s (node f l r) ≡ (do p ← node_at_score c s l; some (left ∷ p))
  unfolding node_at_score
  search-left s f nil r h k = absurd (omega arith)
  search-left s f (node g a b) r h k = ground arith

  pub search-right :
      (s : ℕ) (f : NodeFields) (l r : Node)
      → score_of l ≤ s
      → s - score_of l < score_of r
      → s < f.score
      → node_at_score c s (node f l r)
        ≡ (do p ← node_at_score c (s - score_of l) r; some (right ∷ p))
  unfolding node_at_score
  search-right s f l nil h k m = absurd (omega arith)
  search-right s f nil (node g a b) h k m =
      let e : s - 0 ≡ s = omega arith in rw e (ground (arith, e))
  search-right s f (node x a b) (node y a' b') h k m = ground (arith, laws.sub_law s x.score)

  pub search_self :
      (s : ℕ) (f : NodeFields) (l r : Node)
      → score_of l + score_of r ≤ s
      → s < f.score
      → f.taken ≡ true
      → node_at_score c s (node f l r) ≡ some []
  unfolding node_at_score
  search_self s f nil nil h k t = ground arith
  search_self s f nil (node y a' b') h k t = ground arith
  search_self s f (node x a b) nil h k t = ground (arith, laws.sub_law s x.score)
  search_self s f (node x a b) (node y a' b') h k t = ground (arith, laws.sub_law s x.score)

  -- Below the total score, the search finds the host that the scan finds.
  pub node_at_score-eq-pick :
      (s : ℕ) (t : Node) → IsScored t → s < score_of t → node_at_score c s t ≡ pick s (post_order t)
  node_at_score-eq-pick s nil v h = absurd (omega arith)
  node_at_score-eq-pick s (node f l r) v h = elim (dec_lt s (score_of l)) [
    | yes p ↦
        search-left s f l r p h
        ∙ ap (λ o. do q ← o; some (left ∷ q)) (node_at_score-eq-pick s l v.2 p)
        ∙ sym (pick-left s f l r v p)
    | no p ↦ elim (dec_lt (s - score_of l) (score_of r)) [
      | yes q ↦
          search-right s f l r (omega arith) q h
          ∙ ap (λ o. do q ← o; some (right ∷ q)) (node_at_score-eq-pick (s - score_of l) r v.3 q)
          ∙ sym (pick-right s f l r v (omega arith) q)
      | no q ↦
          search_self s f l r (omega arith) h (ground arith)
          ∙ sym (pick_self s f l r v (omega arith) h)
    ]
  ]

  -- The draws that select a host are as many as its score: they are the points from the total of
  -- the hosts before it up to that total plus its score.
  pub node_at_score-interval :
      (s : ℕ) (t : Node) (before after : Weights) (p : NodePath) (w : ℕ)
      → IsScored t
      → post_order t ≡ before ++ ((p, w) ∷ after)
      → total before ≤ s
      → s < total before + w
      → node_at_score c s t ≡ some p
  node_at_score-interval s t before after p w v e lo hi =
      let whole : total before + (w + total after) ≡ score_of t =
        sym (total-append before ((p, w) ∷ after)) ∙ ap total (sym e) ∙ total-post_order t v in
      node_at_score-eq-pick s t v (omega arith)
      ∙ ap (pick s) e
      ∙ pick-append-ge s before ((p, w) ∷ after) lo
      ∙ rw (lt→ltb (s - total before) w (omega arith))
