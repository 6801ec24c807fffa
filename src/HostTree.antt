-- ===== src/HostTree.antt =====
-- modules/manager/hostdb/hosttree/hosttree.go: the host tree, a tree of nodes with a map from public
-- keys to nodes. The mutex serialises the methods, so each is a step from state to state. An outer
-- `none` is a panic; an error is returned beside the state.
mod Examples
pub mod Reachable
pub mod Nodes
pub mod Agreement
pub mod Refinement
pub mod Methods
pub mod Modify
pub mod Random
pub mod Filters
pub mod Addresses
pub mod Draws
pub mod Selected
pub mod Selections
pub mod Removed
use sia_satellite.Prelude.{
  ℕ, Bool, true, Option, none, some, List, [], ◌∷◌, map, leb, if◌then◌else◌, ◌>>=◌,
}
use sia_satellite.Prelude.Maps.{Map, lookup}
use sia_satellite.Currency.{Currency}
use sia_satellite.HostTree.Nodes.Paths.{NodePath}
use sia_satellite.HostTree.Nodes.{
  HostDbEntry, HostEntry, Node, new_root, recursive_insert, entry_at, remove,
}
use sia_satellite.Prelude.Maps

pub data Error : Type 0 where
  host_exists no_such_host : Error

-- `scoreFn` stands for the composition `scoreFn(entry).Score()`.
pub record HostTree : Type 0 where
  pub root : Node
  pub hosts : Map NodePath
  pub score_fn : HostDbEntry → ℕ

-- `New`
unfoldable pub new : (HostDbEntry → ℕ) → HostTree
unfolding new_root
new sf = record { root = new_root; hosts = []; score_fn = sf }

abbrev pub scored : HostTree → HostDbEntry → HostEntry
scored ht host = record { host = host; score = ht.score_fn host }

-- The host of a node that must have one: the dereference `*node.entry`.
abbrev pub entries_of : List (ℕ × NodePath) → Node → Option (List HostEntry)
entries_of [] t = some []
entries_of ((pk, p) ∷ hosts) t = do e ← entry_at p t; es ← entries_of hosts t; some (e ∷ es)

-- sort.Sort(byScore(he)): ascending by score. The order of equal scores is Go's own; no theorem
-- speaks of it.
unfoldable pub insert_sorted : HostEntry → List HostEntry → List HostEntry
insert_sorted e [] = e ∷ []
insert_sorted e (x ∷ xs) = if leb e.score x.score then e ∷ x ∷ xs else x ∷ insert_sorted e xs

unfoldable pub sort_by_score : List HostEntry → List HostEntry
unfolding insert_sorted
sort_by_score [] = []
sort_by_score (x ∷ xs) = insert_sorted x (sort_by_score xs)

-- `all`
unfoldable pub all_hosts : HostTree → Option (List HostDbEntry)
unfolding sort_by_score
all_hosts ht = do es ← entries_of ht.hosts ht.root; some (map (λ e. e.host) (sort_by_score es))

-- `Select`
unfoldable pub select : HostTree → ℕ → Option (Option HostDbEntry)
select ht pk = elim (lookup pk ht.hosts) [
  | none ↦ some none
  | some p ↦ (do e ← entry_at p ht.root; some (some e.host))
]

module _ (c : Currency) where
  -- `node.remove()` and the map entry of the key in one step, as `Remove` and `SelectRandom` do it.
  unfoldable pub take_out : HostTree → ℕ → NodePath → Option HostTree
  unfolding remove
  take_out ht pk p = do
    root ← remove c p ht.root
    some (record ht { root = root; hosts = Maps.delete pk ht.hosts })

  -- `recursiveInsert` at the root, and the map entry.
  unfoldable pub put_in : HostTree → HostEntry → Option HostTree
  put_in ht e = do
    i ← recursive_insert c true e ht.root
    some (record ht { root = i.tree; hosts = Maps.insert e.host.public_key i.new_node ht.hosts })

  -- `Insert` and `insert`
  unfoldable pub insert : HostTree → HostDbEntry → Option (HostTree × Option Error)
  unfolding put_in
  insert ht host = elim (lookup host.public_key ht.hosts) [
    | some p ↦ some (ht, some host_exists)
    | none ↦ (do ht' ← put_in ht (scored ht host); some (ht', none))
  ]

  -- `Remove`
  unfoldable pub remove_host : HostTree → ℕ → Option (HostTree × Option Error)
  unfolding take_out
  remove_host ht pk = elim (lookup pk ht.hosts) [
    | none ↦ some (ht, some no_such_host)
    | some p ↦ (do ht' ← take_out ht pk p; some (ht', none))
  ]

  -- `Modify`: the map entry is overwritten, not deleted first.
  unfoldable pub modify : HostTree → HostDbEntry → Option (HostTree × Option Error)
  unfolding put_in remove
  modify ht host = elim (lookup host.public_key ht.hosts) [
    | none ↦ some (ht, some no_such_host)
    | some p ↦ (do
      root ← remove c p ht.root
      ht' ← put_in (record ht { root = root }) (scored ht host)
      some (ht', none))
  ]

  -- `SetFiltered`
  unfoldable pub set_filtered : HostTree → ℕ → Bool → Option (HostTree × Option Error)
  unfolding select modify
  set_filtered ht pk filtered = do
    found ← select ht pk
    elim found [
      | none ↦ some (ht, some no_such_host)
      | some host ↦ modify ht (record host { filtered = filtered })
    ]

  -- The loop of `SetScoreFunction`, with the errors that it tallies up.
  unfoldable pub insert_all : HostTree → List HostDbEntry → Option (HostTree × List Error)
  unfolding insert
  insert_all ht [] = some (ht, [])
  insert_all ht (h ∷ hs) = do
    r ← insert ht h
    rest ← insert_all r.0 hs
    some (rest.0, elim r.1 [ none ↦ rest.1 | some e ↦ e ∷ rest.1 ])

  -- `SetScoreFunction`
  unfoldable pub set_score_function : HostTree → (HostDbEntry → ℕ) → Option (HostTree × List Error)
  unfolding all_hosts new insert_all
  set_score_function ht sf = do hs ← all_hosts ht; insert_all (new sf) hs
