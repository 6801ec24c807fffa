-- ===== src/HostTree/Nodes/Scores.antt =====
-- Scores of the nodes of hosttree.go: each node carries the sum of the hosts at and below it.
use sia_satellite.Prelude.{
  ℕ, ◌+◌, ◌<◌, ◌≡◌, refl, ◌≢◌, Bool, true, false, not, ◌&&◌, Option, none, some, [], arith,
  if◌then◌else◌, is_some, Ensures, Ensures-some, Ensures-if,
}
use sia_satellite.Currency.{currency_limit, Currency, CurrencyLaws, Ensures-add}
use sia_satellite.HostTree.Nodes.{
  HostEntry, NodeFields, Node, nil, node, is_nil, score_of, create_node, Inserted, fill,
  insert_below, recursive_insert,
}

-- What a node counts for itself: the score of its host, if it is taken.
abbrev pub score_or_zero : Option HostEntry → ℕ
score_or_zero none = 0
score_or_zero (some e) = e.score

abbrev pub own_score : NodeFields → ℕ
own_score f = if f.taken then score_or_zero f.entry else 0

-- The score of one node against those of its children, and what holds of the children.
abbrev ScoredOver : (Node → Type 0) → Node → Type 0
ScoredOver P nil = Unit
ScoredOver P (node f l r) =
    (f.score ≡ own_score f + score_of l + score_of r)
    × (f.taken ≡ true → is_some f.entry ≡ true)
    × P l
    × P r

abbrev pub IsScored : Node → Type 0
IsScored nil = Unit
IsScored (node f l r) =
    (f.score ≡ own_score f + score_of l + score_of r)
    × (f.taken ≡ true → is_some f.entry ≡ true)
    × IsScored l
    × IsScored r

abbrev pub paid : NodeFields → HostEntry → NodeFields
paid f e = record f { score = f.score + e.score }

module _ (P : Node → Type 0) (at_nil : P nil) (e : HostEntry) (at_leaf : P (create_node e)) where
  abbrev Adds : (Node → Type 0) → ℕ → Inserted → Type 0
  Adds Q s i = Q i.tree × (score_of i.tree ≡ s + e.score)

  insert_below-Adds :
      (f : NodeFields) (l r : Node) (bl br : Option Inserted)
      → ScoredOver P (node f l r)
      → Ensures (Adds P (score_of l)) bl
      → Ensures (Adds P (score_of r)) br
      → Ensures (Adds (ScoredOver P) f.score) (insert_below e (paid f e) l r bl br)
  unfolding insert_below
  insert_below-Adds f nil r bl br v hl hr = ground (arith, at_leaf)
  insert_below-Adds f (node g a b) nil bl br v hl hr = ground (arith, at_leaf)
  insert_below-Adds f (node g a b) (node k a' b') bl br v hl hr = ground arith

-- An insertion leaves a scored tree whose score has grown by that of the entry.
abbrev AddsScore : Node → HostEntry → Inserted → Type 0
AddsScore t e i = IsScored i.tree × (score_of i.tree ≡ score_of t + e.score)

ScoredOver-IsScored : (t : Node) → ScoredOver IsScored t → IsScored t
ScoredOver-IsScored nil v = tt
ScoredOver-IsScored (node f l r) v = v

create_node-IsScored : (e : HostEntry) → IsScored (create_node e)
unfolding create_node
create_node-IsScored e = ground arith

Adds-AddsScore :
    (e : HostEntry) (f : NodeFields) (l r : Node) (o : Option Inserted)
    → Ensures (Adds IsScored tt e (create_node-IsScored e) (ScoredOver IsScored) f.score) o
    → Ensures (AddsScore (node f l r) e) o
Adds-AddsScore e f l r none h = tt
Adds-AddsScore e f l r (some i) h = (ScoredOver-IsScored i.tree h.0, h.1)

free_root-AddsScore :
    (b : Bool) (e : HostEntry) (f : NodeFields) (l r : Node)
    → IsScored (node f l r)
    → (b && is_nil l && is_nil r && not f.taken) ≡ true
    → AddsScore (node f l r) e (record {
      nodes_added = 0;
      new_node = [];
      tree = node (record (fill e f) { score = e.score }) l r;
    })
free_root-AddsScore b e f nil nil v h = ground arith
free_root-AddsScore b e f nil (node g x y) v h = ground arith
free_root-AddsScore b e f (node g x y) r v h = ground arith

module _ (c : Currency) (laws : CurrencyLaws c) where
  insert-AddsScore :
      (b : Bool) (e : HostEntry) (t : Node)
      → IsScored t
      → Ensures (AddsScore t e) (recursive_insert c b e t)
  unfolding recursive_insert
  insert-AddsScore b e nil v = tt
  insert-AddsScore b e (node f l r) v =
      Ensures-if (AddsScore (node f l r) e) _ _ _ (free_root-AddsScore b e f l r v) (λ _.
        Ensures-add c laws (AddsScore (node f l r) e) f.score e.score _ (
          Adds-AddsScore e f l r _ (
            insert_below-Adds IsScored tt e (create_node-IsScored e) f l r _ _ v
              (insert-AddsScore false e l v.2) (insert-AddsScore false e r v.3))))

  -- An insertion keeps every node's score the sum of the hosts at and below it, and adds the
  -- entry's score to the total.
  pub insert-IsScored :
      (b : Bool) (e : HostEntry) (t : Node) {i : Inserted}
      → IsScored t
      → recursive_insert c b e t ≡ some i
      → IsScored i.tree × (score_of i.tree ≡ score_of t + e.score)
  insert-IsScored b e t v h = Ensures-some (AddsScore t e) _ (insert-AddsScore b e t v) h

insert_below-is_some :
    (e : HostEntry) (g : NodeFields) (l r : Node) (bl br : Option Inserted)
    → (l ≢ nil → is_some bl ≡ true)
    → (r ≢ nil → is_some br ≡ true)
    → is_some (insert_below e g l r bl br) ≡ true
unfolding insert_below
insert_below-is_some e g nil r bl br hl hr = ground arith
insert_below-is_some e g (node x a b) nil bl br hl hr = ground arith
insert_below-is_some e g (node x a b) (node y a' b') bl br hl hr =
    ground (arith, hl (λ q. cc), hr (λ q. cc))

module _ (c : Currency) (laws : CurrencyLaws c) where
  -- With room for the new total no addition panics.
  pub insert-is_some :
      (b : Bool) (e : HostEntry) (t : Node)
      → t ≢ nil
      → IsScored t
      → score_of t + e.score < currency_limit
      → is_some (recursive_insert c b e t) ≡ true
  unfolding recursive_insert
  insert-is_some b e nil n v h = absurd (n refl)
  insert-is_some b e (node f l r) n v h =
      let below =
        insert_below-is_some e (paid f e) l r (recursive_insert c false e l)
          (recursive_insert c false e r) (λ m. insert-is_some false e l m v.2 (omega arith))
          (λ m. insert-is_some false e r m v.3 (omega arith)) in
      ground (arith, laws.add_law f.score e.score, below)
