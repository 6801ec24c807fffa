-- ===== src/HostTree/Nodes/Paths.antt =====
-- The pointers of hosttree.go: the way from the root to a node.
use sia_satellite.Prelude.{◌≡◌, refl, ap, Bool, true, false, List, [], ◌∷◌}

pub data Dir : Type 0 where
  left right : Dir

abbrev pub NodePath : Type 0
NodePath = List Dir

abbrev pub same : NodePath → NodePath → Bool
same [] [] = true
same [] (d ∷ q) = false
same (d ∷ p) [] = false
same (left ∷ p) (left ∷ q) = same p q
same (left ∷ p) (right ∷ q) = false
same (right ∷ p) (left ∷ q) = false
same (right ∷ p) (right ∷ q) = same p q

pub same_self : (p : NodePath) → same p p ≡ true
same_self [] = refl
same_self (left ∷ p) = same_self p
same_self (right ∷ p) = same_self p

pub same→eq : (p q : NodePath) → same p q ≡ true → p ≡ q
same→eq [] [] h = refl
same→eq [] (d ∷ q) h = cc
same→eq (d ∷ p) [] h = cc
same→eq (left ∷ p) (left ∷ q) h = ap (◌∷◌ left) (same→eq p q h)
same→eq (left ∷ p) (right ∷ q) h = cc
same→eq (right ∷ p) (left ∷ q) h = cc
same→eq (right ∷ p) (right ∷ q) h = ap (◌∷◌ right) (same→eq p q h)
