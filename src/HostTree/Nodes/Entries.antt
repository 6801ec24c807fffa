-- ===== src/HostTree/Nodes/Entries.antt =====
-- Which host stands at which node of hosttree.go, before and after the operations.
use sia_satellite.Prelude.{
  ℕ, ◌+◌, ◌≡◌, Bool, true, false, not, ◌&&◌, Option, none, some, [], ◌∷◌, arith, if◌then◌else◌,
  Ensures, Succeeds, Ensures-some, Ensures-if,
}
use sia_satellite.HostTree.Nodes.Scores.{IsScored, paid}
use sia_satellite.Currency.{Currency, CurrencyLaws, Ensures-add}
use sia_satellite.HostTree.Nodes.Paths.{left, right, NodePath, same}
use sia_satellite.HostTree.Nodes.{
  HostEntry, NodeFields, Node, nil, node, is_nil, score_of, create_node, Inserted, fill,
  leaf_inserted, insert_below, recursive_insert, subtract, entry_at,
}

-- The host at a node that is taken.
abbrev pub taken_entry : NodePath → Node → Option HostEntry
taken_entry p nil = none
taken_entry [] (node f l r) = if f.taken then f.entry else none
taken_entry (left ∷ p) (node f l r) = taken_entry p l
taken_entry (right ∷ p) (node f l r) = taken_entry p r

-- An insertion into `t` has put `e` at a place that was free, and moved nothing.
abbrev PutsAt : Node → HostEntry → NodePath → Inserted → Type 0
PutsAt t e q i =
    (taken_entry q i.tree ≡ (if same q i.new_node then some e else taken_entry q t))
    × (same q i.new_node ≡ true → taken_entry q t ≡ none)

create_node-PutsAt : (e : HostEntry) (q : NodePath) → PutsAt nil e q (leaf_inserted e)
unfolding create_node
create_node-PutsAt e [] = ground arith
create_node-PutsAt e (left ∷ q) = ground arith
create_node-PutsAt e (right ∷ q) = ground arith

module _ (e : HostEntry) (f : NodeFields) where
  insert_below-PutsAt-self :
      (l r : Node) (bl br : Option Inserted)
      → Ensures (PutsAt (node f l r) e []) (insert_below e (paid f e) l r bl br)
  unfolding insert_below
  insert_below-PutsAt-self nil r bl br = ground arith
  insert_below-PutsAt-self (node g a b) nil bl br = ground arith
  insert_below-PutsAt-self (node g a b) (node k x y) bl br = ground arith

  insert_below-PutsAt-left :
      (l r : Node) (bl br : Option Inserted) (q : NodePath)
      → Ensures (PutsAt l e q) bl
      → Ensures (PutsAt (node f l r) e (left ∷ q)) (insert_below e (paid f e) l r bl br)
  unfolding insert_below
  insert_below-PutsAt-left nil r bl br q h = ground (arith, create_node-PutsAt e q)
  insert_below-PutsAt-left (node g a b) nil bl br q h = ground arith
  insert_below-PutsAt-left (node g a b) (node k x y) bl br q h = ground arith

  insert_below-PutsAt-right :
      (l r : Node) (bl br : Option Inserted) (q : NodePath)
      → Ensures (PutsAt r e q) br
      → Ensures (PutsAt (node f l r) e (right ∷ q)) (insert_below e (paid f e) l r bl br)
  unfolding insert_below
  insert_below-PutsAt-right nil r bl br q h = ground arith
  insert_below-PutsAt-right (node g a b) nil bl br q h = ground (arith, create_node-PutsAt e q)
  insert_below-PutsAt-right (node g a b) (node k x y) bl br q h = ground arith

free_root-PutsAt :
    (b : Bool) (e : HostEntry) (f : NodeFields) (l r : Node) (q : NodePath)
    → (b && is_nil l && is_nil r && not f.taken) ≡ true
    → PutsAt (node f l r) e q (record {
      nodes_added = 0;
      new_node = [];
      tree = node (record (fill e f) { score = e.score }) l r;
    })
free_root-PutsAt b e f l r [] h = ground arith
free_root-PutsAt b e f l r (left ∷ q) h = ground arith
free_root-PutsAt b e f l r (right ∷ q) h = ground arith

pub taken_entry-entry_at :
    (p : NodePath) (t : Node) {e : HostEntry} → taken_entry p t ≡ some e → entry_at p t ≡ some e
unfolding entry_at
taken_entry-entry_at p nil h = cc
taken_entry-entry_at [] (node f l r) h = ground arith
taken_entry-entry_at (left ∷ p) (node f l r) h = taken_entry-entry_at p l h
taken_entry-entry_at (right ∷ p) (node f l r) h = taken_entry-entry_at p r h

abbrev Frees : NodePath → Node → NodePath → Node → Type 0
Frees p t q t' = taken_entry q t' ≡ (if same q p then none else taken_entry q t)

abbrev pub LosesScore : Node → ℕ → Node → Type 0
LosesScore t s t' = IsScored t' × (score_of t ≡ score_of t' + s)

module _ (c : Currency) (laws : CurrencyLaws c) where
  insert-PutsAt :
      (b : Bool) (e : HostEntry) (t : Node) (q : NodePath)
      → Ensures (PutsAt t e q) (recursive_insert c b e t)
  unfolding recursive_insert
  insert-PutsAt b e nil q = tt
  insert-PutsAt b e (node f l r) [] =
      Ensures-if (PutsAt (node f l r) e []) _ _ _ (free_root-PutsAt b e f l r []) (λ _.
        Ensures-add c laws (PutsAt (node f l r) e []) f.score e.score _
          (insert_below-PutsAt-self e f l r _ _))
  insert-PutsAt b e (node f l r) (left ∷ q) =
      Ensures-if (PutsAt (node f l r) e (left ∷ q)) _ _ _ (free_root-PutsAt b e f l r (left ∷ q))
        (λ _.
          Ensures-add c laws (PutsAt (node f l r) e (left ∷ q)) f.score e.score _
            (insert_below-PutsAt-left e f l r _ _ q (insert-PutsAt false e l q)))
  insert-PutsAt b e (node f l r) (right ∷ q) =
      Ensures-if (PutsAt (node f l r) e (right ∷ q)) _ _ _ (free_root-PutsAt b e f l r (right ∷ q))
        (λ _.
          Ensures-add c laws (PutsAt (node f l r) e (right ∷ q)) f.score e.score _
            (insert_below-PutsAt-right e f l r _ _ q (insert-PutsAt false e r q)))

  -- An insertion puts the entry at a place that no host held, and every other host stays where it
  -- was.
  pub taken_entry-insert :
      (b : Bool) (e : HostEntry) (t : Node) {i : Inserted} (q : NodePath)
      → recursive_insert c b e t ≡ some i
      → (taken_entry q i.tree ≡ (if same q i.new_node then some e else taken_entry q t))
        × (same q i.new_node ≡ true → taken_entry q t ≡ none)
  taken_entry-insert b e t q h = Ensures-some (PutsAt t e q) _ (insert-PutsAt b e t q) h

  subtract-Frees :
      (s : ℕ) (p : NodePath) (t : Node) (q : NodePath) → Ensures (Frees p t q) (subtract c s p t)
  unfolding subtract
  subtract-Frees s p nil q = tt
  subtract-Frees s [] (node f l r) [] = ground (arith, laws.sub_law f.score s)
  subtract-Frees s [] (node f l r) (left ∷ q) = ground (arith, laws.sub_law f.score s)
  subtract-Frees s [] (node f l r) (right ∷ q) = ground (arith, laws.sub_law f.score s)
  subtract-Frees s (left ∷ p) (node f l r) [] =
      ground (arith, laws.sub_law f.score s, subtract-Frees s p l [])
  subtract-Frees s (left ∷ p) (node f l r) (left ∷ q) =
      ground (arith, laws.sub_law f.score s, subtract-Frees s p l q)
  subtract-Frees s (left ∷ p) (node f l r) (right ∷ q) =
      ground (arith, laws.sub_law f.score s, subtract-Frees s p l q)
  subtract-Frees s (right ∷ p) (node f l r) [] =
      ground (arith, laws.sub_law f.score s, subtract-Frees s p r [])
  subtract-Frees s (right ∷ p) (node f l r) (left ∷ q) =
      ground (arith, laws.sub_law f.score s, subtract-Frees s p r q)
  subtract-Frees s (right ∷ p) (node f l r) (right ∷ q) =
      ground (arith, laws.sub_law f.score s, subtract-Frees s p r q)

  -- `remove` frees one node, and every other host stays where it was.
  pub taken_entry-subtract :
      (s : ℕ) (p : NodePath) (t : Node) {t' : Node} (q : NodePath)
      → subtract c s p t ≡ some t'
      → taken_entry q t' ≡ (if same q p then none else taken_entry q t)
  taken_entry-subtract s p t q h = Ensures-some (Frees p t q) _ (subtract-Frees s p t q) h

  -- The scores of a tree still add up when a host has been removed with its score.
  pub subtract-LosesScore :
      (p : NodePath) (t : Node) (e : HostEntry)
      → IsScored t
      → taken_entry p t ≡ some e
      → Succeeds (LosesScore t e.score) (subtract c e.score p t)
  unfolding subtract
  subtract-LosesScore p nil e v h = cc
  subtract-LosesScore [] (node f l r) e v h = ground (arith, laws.sub_law f.score e.score)
  subtract-LosesScore (left ∷ p) (node f l r) e v h =
      ground (arith, laws.sub_law f.score e.score, subtract-LosesScore p l e v.2 h)
  subtract-LosesScore (right ∷ p) (node f l r) e v h =
      ground (arith, laws.sub_law f.score e.score, subtract-LosesScore p r e v.3 h)
