-- ===== src/HostTree/Nodes/Taken.antt =====
-- `nodeAtScore` of hosttree.go finds a node that is taken.
use sia_satellite.Prelude.{
  ℕ, ◌-◌, ◌<◌, ◌≡◌, sym, subst, true, ◌∷◌, arith, dec_lt, is_some, Succeeds, Succeeds-map,
}
use sia_satellite.Currency.{Currency, CurrencyLaws}
use sia_satellite.HostTree.Nodes.Paths.{left, right, NodePath}
use sia_satellite.HostTree.Nodes.{Node, nil, node, score_of, node_at_score}
use sia_satellite.HostTree.Nodes.Scores.{IsScored}
use sia_satellite.HostTree.Nodes.Selection.{search-left, search-right, search_self}
use sia_satellite.HostTree.Nodes.Entries.{taken_entry}

abbrev pub IsTakenIn : Node → NodePath → Type 0
IsTakenIn t p = is_some (taken_entry p t) ≡ true

module _ (c : Currency) (laws : CurrencyLaws c) where
  pub node_at_score-IsTakenIn :
      (s : ℕ) (t : Node)
      → IsScored t
      → s < score_of t
      → Succeeds (IsTakenIn t) (node_at_score c s t)
  node_at_score-IsTakenIn s nil v h = absurd (omega arith)
  node_at_score-IsTakenIn s (node f l r) v h = elim (dec_lt s (score_of l)) [
    | yes p ↦ subst (Succeeds (IsTakenIn (node f l r))) (sym (search-left c laws s f l r p h)) (
        Succeeds-map (IsTakenIn l) (IsTakenIn (node f l r)) _ (λ q. left ∷ q)
          (node_at_score-IsTakenIn s l v.2 p) (λ q k. k))
    | no p ↦ elim (dec_lt (s - score_of l) (score_of r)) [
      | yes q ↦
          subst (Succeeds (IsTakenIn (node f l r)))
            (sym (search-right c laws s f l r (omega arith) q h))
            (Succeeds-map (IsTakenIn r) (IsTakenIn (node f l r)) _ (λ x. right ∷ x)
              (node_at_score-IsTakenIn (s - score_of l) r v.3 q) (λ x k. k))
      | no q ↦
          let taken : f.taken ≡ true = ground arith in
          subst (Succeeds (IsTakenIn (node f l r)))
            (sym (search_self c laws s f l r (omega arith) h taken)) (rw taken (v.1 taken))
    ]
  ]
