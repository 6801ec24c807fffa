-- ===== src/HostTree/Examples.antt =====
-- The theorems on hosttree.go at concrete trees.
use sia_satellite.Prelude.{
  ℕ, ◌*◌, ◌^◌, ◌≤◌, ◌<◌, ◌≡◌, refl, subst, Bool, true, false, Option, none, some, [], ◌∷◌, arith,
  ◌==◌, if◌then◌else◌, length, ◌>>=◌, Succeeds,
}
use sia_satellite.Prelude.Maps.{lookup}
use sia_satellite.Currency.{currency128, currency128-CurrencyLaws}
use sia_satellite.HostTree.Nodes.Paths.{left}
use sia_satellite.HostTree.Nodes.{
  HostDbEntry, HostEntry, Node, nil, node, count_of, Inserted, insert_below, recursive_insert,
  node_at_score,
}
use sia_satellite.HostTree.Nodes.Selection.{node_at_score-interval}
use sia_satellite.HostTree.Nodes.Balance.{insert_logarithmic}
use sia_satellite.HostTree.Nodes.Entries.{taken_entry}
use sia_satellite.HostTree.Refinement.{IsValid, find}
use sia_satellite.HostTree.Methods.{Inserts, Removes, Modifies, insert-Inserts, remove_host-Removes}
use sia_satellite.HostTree.Modify.{modify-Modifies}
use sia_satellite.HostTree.Reachable.{Reachable, started, inserted, Reachable-IsValid}
use sia_satellite.HostTree.Random.{Resolver, select_random}
use sia_satellite.HostTree.Draws.{Positive}
use sia_satellite.HostTree.Selections.{Selects, select_random-Selects}
use sia_satellite.HostTree.{HostTree, new, insert, remove_host, modify}
use sia_satellite.Prelude.Maps

abbrev host_of : ℕ → HostDbEntry
host_of pk = record {
  public_key = pk;
  net_address = pk;
  accepting_contracts = true;
  scan_history = true ∷ [];
  filtered = false;
}

abbrev tenfold : HostDbEntry → ℕ
tenfold h = h.public_key * 10

abbrev entry_of : ℕ → HostEntry
entry_of pk = record { host = host_of pk; score = pk * 10 }

abbrev leaf_of : ℕ → Node
leaf_of pk =
    node (record { count = 1; taken = true; score = pk * 10; entry = some (entry_of pk) }) nil nil

abbrev one_host : HostTree
one_host = record { root = leaf_of 3; hosts = (3, []) ∷ []; score_fn = tenfold }

abbrev two_root : Node
two_root =
    node (record { count = 2; taken = true; score = 80; entry = some (entry_of 3) }) (leaf_of 5) nil

abbrev two_hosts : HostTree
two_hosts = record { root = two_root; hosts = (5, left ∷ []) ∷ (3, []) ∷ []; score_fn = tenfold }

abbrev two_inserted : Inserted
two_inserted = record { nodes_added = 1; new_node = left ∷ []; tree = two_root }

one_host-Reachable : Reachable currency128 one_host
unfolding new insert recursive_insert Maps.insert lookup Maps.delete
one_host-Reachable =
    inserted (new tenfold) (host_of 3) one_host none (started tenfold) (omega arith) refl

two_hosts-Reachable : Reachable currency128 two_hosts
unfolding insert recursive_insert insert_below Maps.insert lookup Maps.delete
two_hosts-Reachable =
    inserted one_host (host_of 5) two_hosts none one_host-Reachable (omega arith) refl

one_host-IsValid : IsValid one_host
one_host-IsValid =
    Reachable-IsValid currency128 currency128-CurrencyLaws one_host one_host-Reachable

two_hosts-IsValid : IsValid two_hosts
two_hosts-IsValid =
    Reachable-IsValid currency128 currency128-CurrencyLaws two_hosts two_hosts-Reachable

Reachable-IsValid_example : IsValid two_hosts
Reachable-IsValid_example =
    Reachable-IsValid currency128 currency128-CurrencyLaws two_hosts two_hosts-Reachable

insert-Inserts_example :
    Succeeds
      (Inserts one_host (host_of 5) (find one_host 5))
      (insert currency128 one_host (host_of 5))
insert-Inserts_example =
    insert-Inserts currency128 currency128-CurrencyLaws one_host (host_of 5) one_host-IsValid
      (omega arith)

remove_host-Removes_example :
    Succeeds (Removes two_hosts 3 (find two_hosts 3)) (remove_host currency128 two_hosts 3)
remove_host-Removes_example =
    remove_host-Removes currency128 currency128-CurrencyLaws two_hosts 3 two_hosts-IsValid

modify-Modifies_example :
    Succeeds
      (Modifies two_hosts (host_of 5) (find two_hosts 5))
      (modify currency128 two_hosts (host_of 5))
modify-Modifies_example =
    modify-Modifies currency128 currency128-CurrencyLaws two_hosts (host_of 5) two_hosts-IsValid
      (omega arith)

recursive_insert-two :
    recursive_insert currency128 true (entry_of 5) (leaf_of 3) ≡ some two_inserted
unfolding recursive_insert insert_below
recursive_insert-two = refl

insert_logarithmic_example : 2 ^ length (left ∷ []) ≤ count_of two_root
insert_logarithmic_example =
    insert_logarithmic currency128 currency128-CurrencyLaws true (entry_of 5) (leaf_of 3)
      one_host-IsValid.balanced recursive_insert-two

node_at_score-interval_example : node_at_score currency128 60 two_root ≡ some []
node_at_score-interval_example =
    node_at_score-interval currency128 currency128-CurrencyLaws 60 two_root ((left ∷ [], 50) ∷ [])
      [] [] 30 two_hosts-IsValid.scored_sums refl (omega arith) (omega arith)

abbrev one_address : Resolver
one_address = record {
  lookup_ip = λ host. some (record { is_v4 = true; byte_count = 4; address = host } ∷ []);
  subnet = λ ip bits. some ip.address;
}

abbrev IsPositive : Option HostEntry → Type 0
IsPositive none = Unit
IsPositive (some e) = 0 < e.score

two_found :
    (b d : Bool)
    → IsPositive (do
      p ← (if b then some (left ∷ []) else if d then some [] else none)
      taken_entry p two_root)
two_found true d = omega arith
two_found false true = omega arith
two_found false false = tt

two_hosts-Positive : Positive two_hosts
unfolding lookup
two_hosts-Positive k e h = subst IsPositive h (two_found (5 == k) (3 == k))

select_random-Selects_example :
    Succeeds
      (Selects one_address two_hosts 2 (3 ∷ []) (3 ∷ []))
      (select_random currency128 one_address (λ i b. 0) 2 (3 ∷ []) (3 ∷ []) two_hosts)
select_random-Selects_example =
    select_random-Selects currency128 currency128-CurrencyLaws one_address (λ i b. 0) 2 (3 ∷ [])
      (3 ∷ []) two_hosts (λ i b h. h) two_hosts-IsValid two_hosts-Positive (omega arith)
