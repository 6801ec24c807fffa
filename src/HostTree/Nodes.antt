-- ===== src/HostTree/Nodes.antt =====
-- The `node` of hosttree.go and its methods. Nodes are never deleted or moved, so a `*node` is the
-- path that leads to it from the root. `none` is a panic: of the currency, or a nil dereference.
pub mod Paths
pub mod Scores
pub mod Selection
pub mod Taken
pub mod Entries
pub mod Balance
use sia_satellite.Prelude.{
  ℕ, ◌+◌, Bool, true, false, not, ◌&&◌, Option, none, some, List, [], ◌∷◌, ltb, leb, if◌then◌else◌,
  ◌>>=◌,
}
use sia_satellite.Currency.{Currency}
use sia_satellite.HostTree.Nodes.Paths.{left, right, NodePath}

-- modules.HostDBEntry: the fields that the tree reads. A scan is whether it succeeded.
pub record HostDbEntry : Type 0 where
  pub public_key : ℕ
  pub net_address : ℕ
  pub accepting_contracts : Bool
  pub scan_history : List Bool
  pub filtered : Bool

pub record HostEntry : Type 0 where
  pub host : HostDbEntry
  pub score : ℕ

pub record NodeFields : Type 0 where
  pub count : ℕ
  pub taken : Bool
  pub score : ℕ
  pub entry : Option HostEntry

pub data Node : Type 0 where
  nil : Node
  node : NodeFields → Node → Node → Node

abbrev pub is_nil : Node → Bool
is_nil nil = true
is_nil (node _ _ _) = false

abbrev pub count_of : Node → ℕ
count_of nil = 0
count_of (node f _ _) = f.count

abbrev pub score_of : Node → ℕ
score_of nil = 0
score_of (node f _ _) = f.score

-- `createNode`
pub create_node : HostEntry → Node
create_node e = node (record { count = 1; taken = true; score = e.score; entry = some e }) nil nil

-- `New`: the root that a new tree starts from.
unfoldable pub new_root : Node
new_root = node (record { count = 1; taken = false; score = 0; entry = none }) nil nil

-- What an insertion returns: nodesAdded, newnode and the tree that it leaves.
pub record Inserted : Type 0 where
  pub nodes_added : ℕ
  pub new_node : NodePath
  pub tree : Node

abbrev pub fill : HostEntry → NodeFields → NodeFields
fill e f = record f { taken = true; entry = some e }

-- `n.count += nodesAdded` behind an insertion below on the left, and on the right.
abbrev pub in_left : NodeFields → Node → Inserted → Inserted
in_left f r i = record {
  nodes_added = i.nodes_added;
  new_node = left ∷ i.new_node;
  tree = node (record f { count = f.count + i.nodes_added }) i.tree r;
}

abbrev pub in_right : NodeFields → Node → Inserted → Inserted
in_right f l i = record {
  nodes_added = i.nodes_added;
  new_node = right ∷ i.new_node;
  tree = node (record f { count = f.count + i.nodes_added }) l i.tree;
}

abbrev pub leaf_inserted : HostEntry → Inserted
unfolding create_node
leaf_inserted e = record { nodes_added = 1; new_node = []; tree = create_node e }

-- The part of `recursiveInsert` below `n.score = n.score.Add(entry.score)`: the entry goes into the
-- node if that is free, and else into the less populated side.
unfoldable pub insert_below :
    HostEntry → NodeFields → Node → Node → Option Inserted → Option Inserted → Option Inserted
unfolding create_node
insert_below e g l r below_left below_right =
    if not g.taken
    then some (record { nodes_added = 0; new_node = []; tree = node (fill e g) l r })
    else if is_nil l
    then some (in_left g r (leaf_inserted e))
    else if is_nil r
    then some (in_right g l (leaf_inserted e))
    else if leb (count_of l) (count_of r)
    then (do i ← below_left; some (in_left g r i))
    else (do i ← below_right; some (in_right g l i))

module _ (c : Currency) where
  -- `recursiveInsert`. The flag says that the node has no parent.
  unfoldable pub recursive_insert : Bool → HostEntry → Node → Option Inserted
  recursive_insert is_root e nil = none
  recursive_insert is_root e (node f l r) =
      let below_left = recursive_insert false e l in
      let below_right = recursive_insert false e r in
      if is_root && is_nil l && is_nil r && not f.taken
      then some (record {
        nodes_added = 0;
        new_node = [];
        tree = node (record (fill e f) { score = e.score }) l r;
      })
      else (do
        total ← c.add f.score e.score
        let g = record f { score = total }
        insert_below e g l r below_left below_right)

  -- `nodeAtScore`. The nil that it returns after an error is dereferenced by its caller.
  unfoldable pub node_at_score : ℕ → Node → Option NodePath
  node_at_score s nil = none
  node_at_score s (node f l r) =
      let at_right = λ (t : ℕ). node_at_score t r in
      let at_left = node_at_score s l in
      let rest = λ (t : ℕ).
        if not (is_nil r) && ltb t (score_of r)
        then (do p ← at_right t; some (right ∷ p))
        else if f.taken
        then some []
        else none in
      if ltb f.score s
      then none
      else if is_nil l
      then rest s
      else if ltb s (score_of l)
      then (do p ← at_left; some (left ∷ p))
      else (do t ← c.sub s (score_of l); rest t)

  -- `remove` climbs from the node through its parents; here the path is followed down.
  unfoldable pub subtract : ℕ → NodePath → Node → Option Node
  subtract s p nil = none
  subtract s [] (node f l r) = do
    rest ← c.sub f.score s
    some (node (record f { score = rest; taken = false }) l r)
  subtract s (left ∷ p) (node f l r) = do
    rest ← c.sub f.score s
    l' ← subtract s p l
    some (node (record f { score = rest }) l' r)
  subtract s (right ∷ p) (node f l r) = do
    rest ← c.sub f.score s
    r' ← subtract s p r
    some (node (record f { score = rest }) l r')

-- `node.entry`, for the node at a path.
unfoldable pub entry_at : NodePath → Node → Option HostEntry
entry_at p nil = none
entry_at [] (node f l r) = f.entry
entry_at (left ∷ p) (node f l r) = entry_at p l
entry_at (right ∷ p) (node f l r) = entry_at p r

module _ (c : Currency) where
  -- `node.remove()`: the entry's score leaves the node and every node above it.
  unfoldable pub remove : NodePath → Node → Option Node
  remove p t = do e ← entry_at p t; subtract c e.score p t
