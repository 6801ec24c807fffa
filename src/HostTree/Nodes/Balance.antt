-- ===== src/HostTree/Nodes/Balance.antt =====
-- The shape of the tree of hosttree.go: `count` is the number of nodes, the two sides of a node
-- differ by one at most, and so insertion works on a path of logarithmic length.
use sia_satellite.Prelude.{
  ℕ, zero, suc, ◌+◌, ◌*◌, ◌^◌, ◌≤◌, ◌<◌, max, ◌≡◌, refl, ap, ◌≢◌, Bool, true, false, not, ◌&&◌,
  Option, none, some, [], ◌∷◌, arith, dec_lt, length, Ensures, Ensures-some, Ensures-if,
  Ensures-any, Ensures-map,
}
use sia_satellite.Currency.{Currency, CurrencyLaws, Ensures-add}
use sia_satellite.HostTree.Nodes.Paths.{left, right, NodePath}
use sia_satellite.HostTree.Nodes.{
  HostEntry, NodeFields, Node, nil, node, is_nil, count_of, create_node, Inserted, fill,
  insert_below, recursive_insert, subtract,
}
use sia_satellite.HostTree.Nodes.Scores.{paid}
use native.Mathlib.Nat.{pow-suc}

abbrev BalancedOver : (Node → Type 0) → Node → Type 0
BalancedOver P nil = Unit
BalancedOver P (node f l r) =
    (f.count ≡ suc (count_of l + count_of r))
    × (count_of r ≤ count_of l)
    × (count_of l ≤ suc (count_of r))
    × P l
    × P r

abbrev pub IsBalanced : Node → Type 0
IsBalanced nil = Unit
IsBalanced (node f l r) =
    (f.count ≡ suc (count_of l + count_of r))
    × (count_of r ≤ count_of l)
    × (count_of l ≤ suc (count_of r))
    × IsBalanced l
    × IsBalanced r

module _ (P : Node → Type 0) (at_nil : P nil) (e : HostEntry) (at_leaf : P (create_node e))
    (some_node : (t : Node) → P t → t ≢ nil → 0 < count_of t) where
  abbrev Grows : (Node → Type 0) → ℕ → Inserted → Type 0
  Grows Q n i = Q i.tree × (count_of i.tree ≡ n + i.nodes_added) × (i.nodes_added ≤ 1)

  insert_below-Grows :
      (f : NodeFields) (l r : Node) (bl br : Option Inserted)
      → BalancedOver P (node f l r)
      → Ensures (Grows P (count_of l)) bl
      → Ensures (Grows P (count_of r)) br
      → Ensures (Grows (BalancedOver P) f.count) (insert_below e (paid f e) l r bl br)
  unfolding insert_below
  insert_below-Grows f nil r bl br v hl hr = ground (arith, at_leaf)
  insert_below-Grows f (node g a b) nil bl br v hl hr =
      ground (arith, at_leaf, some_node (node g a b) v.3 (λ q. cc))
  insert_below-Grows f (node g a b) (node k x y) bl br v hl hr = ground arith

abbrev GrowsBalanced : Node → Inserted → Type 0
GrowsBalanced t i =
    IsBalanced i.tree × (count_of i.tree ≡ count_of t + i.nodes_added) × (i.nodes_added ≤ 1)

BalancedOver-IsBalanced : (t : Node) → BalancedOver IsBalanced t → IsBalanced t
BalancedOver-IsBalanced nil v = tt
BalancedOver-IsBalanced (node f l r) v = v

create_node-IsBalanced : (e : HostEntry) → IsBalanced (create_node e)
unfolding create_node
create_node-IsBalanced e = ground arith

pub IsBalanced-pos : (t : Node) → IsBalanced t → t ≢ nil → 0 < count_of t
IsBalanced-pos nil v n = absurd (n refl)
IsBalanced-pos (node f l r) v n = omega arith

Grows-GrowsBalanced :
    (e : HostEntry) (f : NodeFields) (l r : Node) (o : Option Inserted)
    → Ensures
        (Grows IsBalanced tt e
          (create_node-IsBalanced e)
          IsBalanced-pos
          (BalancedOver IsBalanced)
          f.count)
        o
    → Ensures (GrowsBalanced (node f l r)) o
Grows-GrowsBalanced e f l r none h = tt
Grows-GrowsBalanced e f l r (some i) h = (BalancedOver-IsBalanced i.tree h.0, h.1, h.2)

free_root-Grows :
    (b : Bool) (e : HostEntry) (f : NodeFields) (l r : Node)
    → IsBalanced (node f l r)
    → (b && is_nil l && is_nil r && not f.taken) ≡ true
    → GrowsBalanced (node f l r) (record {
      nodes_added = 0;
      new_node = [];
      tree = node (record (fill e f) { score = e.score }) l r;
    })
free_root-Grows b e f l r v h = (v, omega arith, omega arith)

module _ (c : Currency) (laws : CurrencyLaws c) where
  insert-Grows :
      (b : Bool) (e : HostEntry) (t : Node)
      → IsBalanced t
      → Ensures (GrowsBalanced t) (recursive_insert c b e t)
  unfolding recursive_insert
  insert-Grows b e nil v = tt
  insert-Grows b e (node f l r) v =
      Ensures-if (GrowsBalanced (node f l r)) _ _ _ (free_root-Grows b e f l r v) (λ _.
        Ensures-add c laws (GrowsBalanced (node f l r)) f.score e.score _ (
          Grows-GrowsBalanced e f l r _ (
            insert_below-Grows IsBalanced tt e (create_node-IsBalanced e) IsBalanced-pos f l r _ _ v
              (insert-Grows false e l v.3) (insert-Grows false e r v.4))))

  -- An insertion keeps the counts right and the sides of every node within one of each other.
  pub insert-IsBalanced :
      (b : Bool) (e : HostEntry) (t : Node) {i : Inserted}
      → IsBalanced t
      → recursive_insert c b e t ≡ some i
      → IsBalanced i.tree × (count_of i.tree ≡ count_of t + i.nodes_added) × (i.nodes_added ≤ 1)
  insert-IsBalanced b e t v h = Ensures-some (GrowsBalanced t) _ (insert-Grows b e t v) h

pub pos-not_nil : (t : Node) → 0 < count_of t → t ≢ nil
pos-not_nil t h e = omega (arith, ap count_of e)

abbrev pub KeepsCount : Node → Node → Type 0
KeepsCount t t' = IsBalanced t' × (count_of t' ≡ count_of t)

module _ (c : Currency) where
  pub subtract-IsBalanced :
      (s : ℕ) (p : NodePath) (t : Node) → IsBalanced t → Ensures (KeepsCount t) (subtract c s p t)
  unfolding subtract
  subtract-IsBalanced s p nil v = tt
  subtract-IsBalanced s [] (node f l r) v =
      Ensures-any (KeepsCount (node f l r)) (c.sub f.score s) _ (λ rest. (v, refl))
  subtract-IsBalanced s (left ∷ p) (node f l r) v =
      Ensures-any (KeepsCount (node f l r)) (c.sub f.score s) _ λ rest.
        Ensures-map (KeepsCount l) (KeepsCount (node f l r)) (subtract c s p l)
          (λ l'. node (record f { score = rest }) l' r) (subtract-IsBalanced s p l v.3)
          (λ l' h. ground arith)
  subtract-IsBalanced s (right ∷ p) (node f l r) v =
      Ensures-any (KeepsCount (node f l r)) (c.sub f.score s) _ λ rest.
        Ensures-map (KeepsCount r) (KeepsCount (node f l r)) (subtract c s p r)
          (λ r'. node (record f { score = rest }) l r') (subtract-IsBalanced s p r v.4)
          (λ r' h. ground arith)

depth : Node → ℕ
depth nil = 0
depth (node f l r) = suc (max (depth l) (depth r))

-- The double of the count, and 1 for no node.
abbrev room : Node → ℕ
room nil = 1
room (node f l r) = 2 * f.count

pow-max-le : (a b n : ℕ) → 2 ^ a ≤ n → 2 ^ b ≤ n → 2 ^ suc (max a b) ≤ 2 * n
pow-max-le a b n h k = elim (dec_lt a b) [
  | yes p ↦ rw pow-suc (let e : max a b ≡ b = omega arith in rw e (omega arith))
  | no p ↦ rw pow-suc (let e : max a b ≡ a = omega arith in rw e (omega arith))
]

depth-le-room : (t : Node) → IsBalanced t → 2 ^ depth t ≤ room t
unfolding depth
depth-le-room nil v = omega arith
depth-le-room (node f nil nil) v = omega arith
depth-le-room (node f nil (node g a b)) v = absurd (omega arith)
depth-le-room (node f (node g a b) nil) v =
    let side = depth-le-room (node g a b) v.3 in
    omega (arith, pow-max-le (depth (node g a b)) 0 (2 * g.count) side (omega arith))
depth-le-room (node f (node g a b) (node k x y)) v =
    let one = depth-le-room (node g a b) v.3 in
    let other = depth-le-room (node k x y) v.4 in
    omega
      (arith, pow-max-le (depth (node g a b)) (depth (node k x y)) (2 * g.count) one (omega arith))

abbrev InTree : Inserted → Type 0
InTree i = length i.new_node < depth i.tree

insert_below-InTree :
    (e : HostEntry) (g : NodeFields) (l r : Node) (bl br : Option Inserted)
    → Ensures InTree bl
    → Ensures InTree br
    → Ensures InTree (insert_below e g l r bl br)
unfolding insert_below depth
insert_below-InTree e g nil r bl br hl hr = ground arith
insert_below-InTree e g (node f a b) nil bl br hl hr = ground arith
insert_below-InTree e g (node f a b) (node k x y) bl br hl hr = ground arith

free_root-InTree :
    (e : HostEntry) (f : NodeFields) (l r : Node)
    → InTree (record {
      nodes_added = 0;
      new_node = [];
      tree = node (record (fill e f) { score = e.score }) l r;
    })
unfolding depth
free_root-InTree e f l r = omega arith

module _ (c : Currency) where
  insert-InTree : (b : Bool) (e : HostEntry) (t : Node) → Ensures InTree (recursive_insert c b e t)
  unfolding recursive_insert
  insert-InTree b e nil = tt
  insert-InTree b e (node f l r) =
      Ensures-if InTree (b && is_nil l && is_nil r && not f.taken) _ _
        (λ _. free_root-InTree e f l r)
        (λ _. Ensures-any InTree (c.add f.score e.score) _ (λ total.
          insert_below-InTree e (record f { score = total }) l r _ _ (insert-InTree false e l)
            (insert-InTree false e r)))

  insert_deep :
      (b : Bool) (e : HostEntry) (t : Node) {i : Inserted}
      → recursive_insert c b e t ≡ some i
      → length i.new_node < depth i.tree
  insert_deep b e t h = Ensures-some InTree _ (insert-InTree b e t) h

pub insert-not_nil :
    (c : Currency) (b : Bool) (e : HostEntry) (t : Node) {i : Inserted}
    → recursive_insert c b e t ≡ some i
    → i.tree ≢ nil
unfolding depth
insert-not_nil c b e t h z = omega (arith, insert_deep c b e t h, ap depth z)

pow_mono : (a b : ℕ) → a ≤ b → 2 ^ a ≤ 2 ^ b
pow_mono a zero h = let e : a ≡ zero = omega arith in rw e (omega arith)
pow_mono zero (suc b) h = rw pow-suc (omega (arith, pow_mono zero b (omega arith)))
pow_mono (suc a) (suc b) h = omega (arith, pow-suc 2 a, pow-suc 2 b, pow_mono a b (omega arith))

room-deep : (n : ℕ) (t : Node) → n < depth t → room t ≡ 2 * count_of t
unfolding depth
room-deep n nil h = elim h [ ]
room-deep n (node f l r) h = refl

-- Insertion works on a path of logarithmic length: the steps from the root down to the new node are
-- at most the binary logarithm of the number of nodes.
pub insert_logarithmic :
    (c : Currency) (laws : CurrencyLaws c) (b : Bool) (e : HostEntry) (t : Node) {i : Inserted}
    → IsBalanced t
    → recursive_insert c b e t ≡ some i
    → 2 ^ length i.new_node ≤ count_of i.tree
insert_logarithmic c laws b e t {i} v h =
    let deep = insert_deep c b e t h in
    let balanced = (insert-IsBalanced c laws b e t v h).0 in
    let above = pow_mono (suc (length i.new_node)) (depth i.tree) deep in
    let bound = depth-le-room i.tree balanced in
    let double : 2 ^ suc (length i.new_node) ≡ 2 * 2 ^ length i.new_node =
      rw pow-suc (omega arith) in
    omega (arith, room-deep (length i.new_node) i.tree deep)
