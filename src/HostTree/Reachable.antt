-- ===== src/HostTree/Reachable.antt =====
-- The host trees that the methods of hosttree.go can make, from `New` on.
use sia_satellite.Prelude.{
  ℕ, ◌+◌, ◌≤◌, ◌<◌, ◌≡◌, refl, sym, ap, ◌∙◌, inl, inr, Bool, Option, none, some, List, [], ◌∷◌,
  arith, all, Option-cases, Succeeds, Succeeds-weaken, Succeeds-some, Succeeds-map, Succeeds-bind,
  Succeeds-known,
}
use sia_satellite.Currency.{currency_limit, Currency, CurrencyLaws}
use sia_satellite.HostTree.Nodes.Paths.{left, right, NodePath, same}
use sia_satellite.HostTree.Nodes.{HostDbEntry, HostEntry, new_root}
use sia_satellite.HostTree.Nodes.Entries.{taken_entry}
use sia_satellite.HostTree.Refinement.{IsValid, find, total_score}
use sia_satellite.HostTree.Selections.{Selects, select_random-Selects}
use sia_satellite.HostTree.Draws.{Positive}
use sia_satellite.HostTree.Random.{Resolver, select_random}
use sia_satellite.HostTree.Methods.{
  Inserts, Removes, Modifies, insert-Inserts, remove_host-Removes, select-eq-find,
}
use sia_satellite.HostTree.{
  Error, HostTree, new, all_hosts, select, insert, remove_host, modify, set_filtered, insert_all,
  set_score_function,
}
use sia_satellite.Prelude.Maps.{lookup}
use sia_satellite.HostTree.Modify.{modify-Modifies}

abbrev pub sum_scores : (HostDbEntry → ℕ) → List HostDbEntry → ℕ
sum_scores sf [] = 0
sum_scores sf (h ∷ hs) = sf h + sum_scores sf hs

-- A step is a call of a method, with room for the score that it adds, and its result.
pub data Reachable (c : Currency) : HostTree → Type 0 where
  started : (sf : HostDbEntry → ℕ) → Reachable c (new sf)
  inserted :
      (ht : HostTree) (host : HostDbEntry) (ht' : HostTree) (e : Option Error)
      → Reachable c ht
      → total_score ht + ht.score_fn host < currency_limit
      → insert c ht host ≡ some (ht', e)
      → Reachable c ht'
  removed :
      (ht : HostTree) (pk : ℕ) (ht' : HostTree) (e : Option Error)
      → Reachable c ht
      → remove_host c ht pk ≡ some (ht', e)
      → Reachable c ht'
  modified :
      (ht : HostTree) (host : HostDbEntry) (ht' : HostTree) (e : Option Error)
      → Reachable c ht
      → total_score ht + ht.score_fn host < currency_limit
      → modify c ht host ≡ some (ht', e)
      → Reachable c ht'
  refiltered :
      (ht : HostTree) (pk : ℕ) (value : Bool) (ht' : HostTree) (e : Option Error)
      → Reachable c ht
      → ((x : HostEntry)
          → find ht pk ≡ some x
          → total_score ht + ht.score_fn (record (x.host) { filtered = value }) < currency_limit)
      → set_filtered c ht pk value ≡ some (ht', e)
      → Reachable c ht'
  rescored :
      (ht : HostTree) (sf : HostDbEntry → ℕ) (hs : List HostDbEntry) (ht' : HostTree)
      (es : List Error)
      → Reachable c ht
      → all_hosts ht ≡ some hs
      → sum_scores sf hs < currency_limit
      → set_score_function c ht sf ≡ some (ht', es)
      → Reachable c ht'
  selected :
      (res : Resolver) (draw : ℕ → ℕ → ℕ) (wanted : ℕ) (blacklist addresses : List ℕ)
      (ht : HostTree) (chosen : List HostDbEntry) (ht' : HostTree)
      → Reachable c ht
      → ((i b : ℕ) → 0 < b → draw i b < b)
      → Positive ht
      → total_score ht < currency_limit
      → select_random c res draw wanted blacklist addresses ht ≡ some (chosen, ht')
      → Reachable c ht'

no_entry : (p : NodePath) → taken_entry p new_root ≡ none
unfolding new_root
no_entry [] = refl
no_entry (left ∷ p) = refl
no_entry (right ∷ p) = refl

new-IsValid : (sf : HostDbEntry → ℕ) → IsValid (new sf)
unfolding new new_root lookup
new-IsValid sf = record {
  scored_sums = ground arith;
  balanced = ground arith;
  has_root = λ h. cc;
  agrees = record {
    mapped = λ pk p h. cc;
    complete = λ p e h. (let z = sym (no_entry p) ∙ h in cc);
  };
}

module _ (ht : HostTree) (v : IsValid ht) where
  Inserts-IsValid :
      (host : HostDbEntry) (o : Option HostEntry) (r : HostTree × Option Error)
      → Inserts ht host o r
      → IsValid r.0
  Inserts-IsValid host none r h = h.0.valid
  Inserts-IsValid host (some x) r h = rw (h.0) v

  Removes-IsValid :
      (pk : ℕ) (o : Option HostEntry) (r : HostTree × Option Error)
      → Removes ht pk o r
      → IsValid r.0
  Removes-IsValid pk none r h = rw (h.0) v
  Removes-IsValid pk (some x) r h = h.0.valid

  Modifies-IsValid :
      (host : HostDbEntry) (o : Option HostEntry) (r : HostTree × Option Error)
      → Modifies ht host o r
      → IsValid r.0
  Modifies-IsValid host none r h = rw (h.0) v
  Modifies-IsValid host (some x) r h = h.0.valid

module _ (c : Currency) (laws : CurrencyLaws c) where
  set_filtered-IsValid :
      (ht : HostTree) (pk : ℕ) (value : Bool)
      → IsValid ht
      → ((x : HostEntry)
          → find ht pk ≡ some x
          → total_score ht + ht.score_fn (record (x.host) { filtered = value }) < currency_limit)
      → Succeeds (λ r. IsValid r.0) (set_filtered c ht pk value)
  unfolding set_filtered
  set_filtered-IsValid ht pk value v room =
      Succeeds-known (λ r. IsValid r.0) (select ht pk) _ (select-eq-find c laws ht pk v)
        (elim (Option-cases (find ht pk)) [
          | inl e ↦ rw e v
          | inr (x, e) ↦ rw e (
              let host = record (x.host) { filtered = value } in
              Succeeds-weaken (Modifies ht host (find ht host.public_key)) (λ r. IsValid r.0) _
                (modify-Modifies c laws ht host v (room x e))
                (λ r. Modifies-IsValid ht v host (find ht host.public_key) r))
        ])

  Inserts-grows :
      (ht : HostTree) (host : HostDbEntry) (o : Option HostEntry) (r : HostTree × Option Error)
      → Inserts ht host o r
      → (total_score r.0 ≤ total_score ht + ht.score_fn host) × (r.0.score_fn ≡ ht.score_fn)
  Inserts-grows ht host none r h = (omega (arith, h.0.score), h.0.same_fn)
  Inserts-grows ht host (some x) r h =
      (omega (arith, ap total_score (h.0)), ap (λ t. t.score_fn) (h.0))

  insert_all-IsValid :
      (hs : List HostDbEntry) (ht : HostTree)
      → IsValid ht
      → total_score ht + sum_scores ht.score_fn hs < currency_limit
      → Succeeds (λ r. IsValid r.0) (insert_all c ht hs)
  unfolding insert_all
  insert_all-IsValid [] ht v room = v
  insert_all-IsValid (h ∷ hs) ht v room =
      Succeeds-bind (Inserts ht h (find ht h.public_key)) (λ r. IsValid r.0) _ _
        (insert-Inserts c laws ht h v (omega (arith, room)))
        (λ r i.
          let (grows, same) = Inserts-grows ht h (find ht h.public_key) r i in
          let sums = ap (λ sf. sum_scores sf hs) same in
          Succeeds-map (λ q. IsValid q.0) (λ q. IsValid q.0) _ _
            (insert_all-IsValid hs r.0 (Inserts-IsValid ht v h (find ht h.public_key) r i)
              (omega (arith, grows, sums, room)))
            (λ q w. w))

  new_empty : (sf : HostDbEntry → ℕ) → total_score (new sf) ≡ 0
  unfolding new new_root
  new_empty sf = omega arith

  set_score_function-IsValid :
      (ht : HostTree) (sf : HostDbEntry → ℕ) (hs : List HostDbEntry)
      → all_hosts ht ≡ some hs
      → sum_scores sf hs < currency_limit
      → Succeeds (λ r. IsValid r.0) (set_score_function c ht sf)
  unfolding set_score_function new
  set_score_function-IsValid ht sf hs e room =
      Succeeds-known (λ r. IsValid r.0) (all_hosts ht) _ e
        (insert_all-IsValid hs (new sf) (new-IsValid sf) (omega (arith, new_empty sf, room)))

-- Every tree is valid that `New` and any calls of the methods make, where there is room in 128 bits for
-- the score that `Insert`, `Modify` or `SetFiltered` adds, and for the sum of the new scores in
-- `SetScoreFunction`, and where the scores are positive and their sum fits in `SelectRandom`: its sums and
-- counts are right, it is balanced, and the map of hosts and the entries of the nodes agree.
pub Reachable-IsValid :
    (c : Currency) (laws : CurrencyLaws c) (ht : HostTree) → Reachable c ht → IsValid ht
Reachable-IsValid c laws _ (started sf) = new-IsValid sf
Reachable-IsValid c laws _ (inserted ht host ht' e r room h) =
    let v = Reachable-IsValid c laws ht r in
    Inserts-IsValid ht v host _ (ht', e)
      (Succeeds-some (Inserts ht host _) _ (insert-Inserts c laws ht host v room) h)
Reachable-IsValid c laws _ (removed ht pk ht' e r h) =
    let v = Reachable-IsValid c laws ht r in
    Removes-IsValid ht v pk _ (ht', e)
      (Succeeds-some (Removes ht pk _) _ (remove_host-Removes c laws ht pk v) h)
Reachable-IsValid c laws _ (modified ht host ht' e r room h) =
    let v = Reachable-IsValid c laws ht r in
    Modifies-IsValid ht v host _ (ht', e)
      (Succeeds-some (Modifies ht host _) _ (modify-Modifies c laws ht host v room) h)
Reachable-IsValid c laws _ (refiltered ht pk value ht' e r room h) =
    Succeeds-some (λ q. IsValid q.0) _
      (set_filtered-IsValid c laws ht pk value (Reachable-IsValid c laws ht r) room) h
Reachable-IsValid c laws _ (rescored ht sf hs ht' es r all room h) =
    Succeeds-some (λ q. IsValid q.0) _ (set_score_function-IsValid c laws ht sf hs all room) h
Reachable-IsValid c laws _
      (selected res draw wanted blacklist addresses ht chosen ht' r law pos room h) =
    Selects.valid (
      Succeeds-some (Selects res ht wanted blacklist addresses) _
        (select_random-Selects c laws res draw wanted blacklist addresses ht law
          (Reachable-IsValid c laws ht r) pos room)
        h)
