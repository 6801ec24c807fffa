-- ===== src/HostTree/Modify.antt =====
-- `Modify` of hosttree.go: the node of the old entry is freed, and the new entry goes to a node of
-- its own; the map entry is overwritten.
use sia_satellite.Prelude.{
  ℕ, ◌+◌, ◌<◌, ◌≡◌, refl, ap, inl, inr, true, Option, none, some, arith, ◌>>=◌, Option-cases,
  Succeeds, some-of-is_some, Succeeds-map,
}
use sia_satellite.Prelude.Maps.{Map, lookup, lookup-delete, lookup-insert}
use sia_satellite.Currency.{currency_limit, Currency, CurrencyLaws}
use sia_satellite.HostTree.Nodes.Paths.{NodePath}
use sia_satellite.HostTree.Nodes.{HostDbEntry, HostEntry, Node, recursive_insert}
use sia_satellite.HostTree.Nodes.Scores.{insert-IsScored, insert-is_some}
use sia_satellite.HostTree.Nodes.Balance.{
  IsBalanced-pos, insert-IsBalanced, pos-not_nil, KeepsCount, insert-not_nil,
}
use sia_satellite.HostTree.Nodes.Entries.{taken_entry, LosesScore, taken_entry-insert}
use sia_satellite.HostTree.Agreement.{
  key, Freed, Agrees-insert, find_in-insert, Agrees-delete, find_in-delete, Agrees-ext,
}
use sia_satellite.HostTree.Refinement.{IsValid, find, total_score, remove_found}
use sia_satellite.HostTree.Methods.{Replaces, Modifies}
use sia_satellite.HostTree.{HostTree, scored, put_in, modify}
use sia_satellite.Prelude.Maps

-- Writing over a key is deleting it and writing it.
lookup-insert-delete :
    (pk : ℕ) (n : NodePath) (m : Map NodePath) (k : ℕ)
    → lookup k (Maps.insert pk n (Maps.delete pk m)) ≡ lookup k (Maps.insert pk n m)
lookup-insert-delete pk n m k =
    ground
      (arith, lookup-insert pk k n (Maps.delete pk m), lookup-insert pk k n m, lookup-delete pk k m)

module _ (c : Currency) (laws : CurrencyLaws c) where
  put_over-Replaces :
      (ht : HostTree) (p : NodePath) (old fresh : HostEntry) (t' : Node)
      → IsValid ht
      → lookup (key fresh) ht.hosts ≡ some p
      → LosesScore ht.root old.score t'
      → KeepsCount ht.root t'
      → Freed p ht.root t'
      → total_score ht + fresh.score < currency_limit
      → Succeeds (Replaces ht old fresh) (put_in c (record ht { root = t' }) fresh)
  unfolding put_in
  put_over-Replaces ht p old fresh t' v here loses counted freed room =
      let not_nil =
        pos-not_nil t' (omega (arith, counted.1, IsBalanced-pos ht.root v.balanced v.has_root)) in
      let (i, done) =
        some-of-is_some (recursive_insert c true fresh t')
          (insert-is_some c laws true fresh t' not_nil loses.0 (omega (arith, loses.1))) in
      let sums = insert-IsScored c laws true fresh t' loses.0 done in
      let placed = λ (q : NodePath). taken_entry-insert c laws true fresh t' q done in
      let pk = key fresh in
      let rest = Maps.delete pk ht.hosts in
      let cleared = Agrees-delete pk p ht.root t' ht.hosts v.agrees freed here in
      let absent : lookup pk rest ≡ none = ground (arith, lookup-delete pk pk ht.hosts) in
      let stored = Agrees-insert fresh i.new_node t' i.tree rest cleared placed absent in
      rw done (record {
        valid = record {
          scored_sums = sums.0;
          balanced = (insert-IsBalanced c laws true fresh t' counted.0 done).0;
          has_root = insert-not_nil c true fresh t' done;
          agrees = Agrees-ext _ _ i.tree (lookup-insert-delete pk i.new_node ht.hosts) stored;
        };
        found = λ k. ground (
          arith,
          ap (λ (o : Option NodePath). do q ← o; taken_entry q i.tree)
              (lookup-insert-delete pk i.new_node ht.hosts k),
          find_in-insert fresh i.new_node t' i.tree rest cleared placed k,
          find_in-delete pk p ht.root t' ht.hosts v.agrees freed here k,
        );
        score = omega (arith, sums.1, loses.1);
        same_fn = refl;
      })

  -- On a valid tree with room for both scores, `Modify` does not panic. The entry of a known host is
  -- exchanged for the new one under its new score, and nothing else changes; for an unknown key it
  -- returns the error and leaves the tree alone.
  pub modify-Modifies :
      (ht : HostTree) (host : HostDbEntry)
      → IsValid ht
      → total_score ht + ht.score_fn host < currency_limit
      → Succeeds (Modifies ht host (find ht host.public_key)) (modify c ht host)
  unfolding modify
  modify-Modifies ht host v room = elim (Option-cases (lookup host.public_key ht.hosts)) [
    | inl e ↦ rw (e, modify) (refl, refl)
    | inr (p, e) ↦
        let (x, t', at_p, done, loses, counted, freed) =
          remove_found c laws ht host.public_key p v e in
        rw (e, modify)
          (rw (at_p, done)
            (Succeeds-map (Replaces ht x (scored ht host)) (Modifies ht host (some x))
              (put_in c (record ht { root = t' }) (scored ht host)) (λ ht'. (ht', none))
              (put_over-Replaces ht p x (scored ht host) t' v e loses counted freed room)
              (λ ht' s. (s, refl))))
  ]
