-- ===== src/HostTree/Refinement.antt =====
-- The host tree of hosttree.go as a map from public keys to entries: each method on a valid tree
-- returns, keeps the tree valid and does to the map what its name says.
use sia_satellite.Prelude.{
  ℕ, ◌+◌, ◌<◌, ◌≡◌, refl, ap, ◌∙◌, ◌≢◌, true, Option, none, some, arith, ◌==◌, if◌then◌else◌,
  Succeeds, Ensures-some, some-of-is_some, Succeeds-some, Succeeds-is_some,
}
use sia_satellite.Prelude.Maps.{lookup}
use sia_satellite.Currency.{currency_limit, Currency, CurrencyLaws}
use sia_satellite.HostTree.Nodes.Paths.{NodePath}
use sia_satellite.HostTree.Nodes.{
  HostEntry, Node, nil, score_of, recursive_insert, subtract, remove,
}
use sia_satellite.HostTree.Nodes.Scores.{IsScored, insert-IsScored, insert-is_some}
use sia_satellite.HostTree.Nodes.Balance.{
  IsBalanced, IsBalanced-pos, insert-IsBalanced, pos-not_nil, KeepsCount, subtract-IsBalanced,
  insert-not_nil,
}
use sia_satellite.HostTree.Nodes.Entries.{
  taken_entry, taken_entry-entry_at, LosesScore, taken_entry-insert, taken_entry-subtract,
  subtract-LosesScore,
}
use sia_satellite.HostTree.Agreement.{
  key, Agrees, find_in, Freed, Agrees-insert, find_in-insert, Agrees-delete, find_in-delete,
}
use sia_satellite.HostTree.{HostTree, take_out, put_in}

pub record IsValid (ht : HostTree) : Type 0 where
  pub scored_sums : IsScored ht.root
  pub balanced : IsBalanced ht.root
  pub has_root : ht.root ≢ nil
  pub agrees : Agrees ht.hosts ht.root

-- The abstract view.
abbrev pub find : HostTree → ℕ → Option HostEntry
find ht pk = find_in ht.hosts ht.root pk

abbrev pub total_score : HostTree → ℕ
total_score ht = score_of ht.root

-- `ht'` is `ht` with one entry more.
pub record Stores (ht : HostTree) (e : HostEntry) (ht' : HostTree) : Type 0 where
  pub valid : IsValid ht'
  pub found : (k : ℕ) → find ht' k ≡ (if key e == k then some e else find ht k)
  pub score : total_score ht' ≡ total_score ht + e.score
  pub same_fn : ht'.score_fn ≡ ht.score_fn

-- `ht'` is `ht` without the host of one key.
pub record Drops (ht : HostTree) (pk : ℕ) (e : HostEntry) (ht' : HostTree) : Type 0 where
  pub valid : IsValid ht'
  pub found : (k : ℕ) → find ht' k ≡ (if pk == k then none else find ht k)
  pub score : total_score ht ≡ total_score ht' + e.score
  pub same_fn : ht'.score_fn ≡ ht.score_fn

module _ (c : Currency) (laws : CurrencyLaws c) where
  pub put_in-Stores :
      (ht : HostTree) (e : HostEntry)
      → IsValid ht
      → lookup (key e) ht.hosts ≡ none
      → total_score ht + e.score < currency_limit
      → Succeeds (Stores ht e) (put_in c ht e)
  unfolding put_in
  put_in-Stores ht e v absent room =
      let (i, done) =
        some-of-is_some (recursive_insert c true e ht.root)
          (insert-is_some c laws true e ht.root v.has_root v.scored_sums room) in
      let sums = insert-IsScored c laws true e ht.root v.scored_sums done in
      let placed = λ (q : NodePath). taken_entry-insert c laws true e ht.root q done in
      rw done (record {
        valid = record {
          scored_sums = sums.0;
          balanced = (insert-IsBalanced c laws true e ht.root v.balanced done).0;
          has_root = insert-not_nil c true e ht.root done;
          agrees = Agrees-insert e i.new_node ht.root i.tree ht.hosts v.agrees placed absent;
        };
        found = find_in-insert e i.new_node ht.root i.tree ht.hosts v.agrees placed;
        score = sums.1;
        same_fn = refl;
      })

  -- Removing the node of a key that the map holds.
  pub remove_found :
      (ht : HostTree) (pk : ℕ) (p : NodePath)
      → IsValid ht
      → lookup pk ht.hosts ≡ some p
      → (e : HostEntry) × (t' : Node) × (taken_entry p ht.root ≡ some e)
        × (remove c p ht.root ≡ some t')
        × LosesScore ht.root e.score t'
        × KeepsCount ht.root t'
        × Freed p ht.root t'
  unfolding remove
  remove_found ht pk p v here =
      let (e, at_p, k) = v.agrees.mapped pk p here in
      let loses = subtract-LosesScore c laws p ht.root e v.scored_sums at_p in
      let (t', done) =
        some-of-is_some (subtract c e.score p ht.root)
          (Succeeds-is_some (LosesScore ht.root e.score) _ loses) in
      (
        e,
        t',
        at_p,
        rw (taken_entry-entry_at p ht.root at_p) done,
        Succeeds-some (LosesScore ht.root e.score) _ loses done,
        Ensures-some (KeepsCount ht.root) _ (subtract-IsBalanced c e.score p ht.root v.balanced)
            done,
        λ q. taken_entry-subtract c laws e.score p ht.root q done,
      )

  pub take_out-Drops :
      (ht : HostTree) (pk : ℕ) (p : NodePath) (e : HostEntry)
      → IsValid ht
      → lookup pk ht.hosts ≡ some p
      → taken_entry p ht.root ≡ some e
      → Succeeds (Drops ht pk e) (take_out c ht pk p)
  unfolding take_out
  take_out-Drops ht pk p e v here at_p =
      let (x, t', at_x, done, loses, counted, freed) = remove_found ht pk p v here in
      let is_x : x ≡ e = ground (arith, at_x, at_p) in
      rw done (record {
        valid = record {
          scored_sums = loses.0;
          balanced = counted.0;
          has_root =
              pos-not_nil t'
                (omega (arith, counted.1, IsBalanced-pos ht.root v.balanced v.has_root));
          agrees = Agrees-delete pk p ht.root t' ht.hosts v.agrees freed here;
        };
        found = find_in-delete pk p ht.root t' ht.hosts v.agrees freed here;
        score = loses.1 ∙ ap (λ (y : HostEntry). score_of t' + y.score) is_x;
        same_fn = refl;
      })
