-- ===== src/Watchdog/Spends.antt =====
-- `findDependencySpends`: a transaction of a new block that spends what contracts depend on.
pub mod Loops
pub mod Pruned
use sia_satellite.Prelude.{ℕ, Option, none, some, List, [], ◌∷◌, ◌==◌, if◌then◌else◌, ◌>>=◌}
use sia_satellite.Prelude.Maps.{lookup}
use sia_satellite.Watchdog.Sets.{has, with_id, not_in}
use sia_satellite.Watchdog.Dependencies.{known}
use sia_satellite.Watchdog.{
  Transaction, Event, double_spend, Watchdog, or_empty, parents_of, put_status, add_dependency,
  remove_dependencies, archive_contract, parent_output_ids,
}
use sia_satellite.Prelude.Maps

-- `removeTxnFromSet`; `none` is its error.
unfoldable pub remove_txn : ℕ → List Transaction → Option (List Transaction)
remove_txn id [] = none
remove_txn id (t ∷ txns) =
    if t.id == id then some txns else (do rest ← remove_txn id txns; some (t ∷ rest))

unfoldable pub add_known : List ℕ → Watchdog → List ℕ → List ℕ
unfolding lookup with_id
add_known [] w fcs = fcs
add_known (fc ∷ ids) w fcs =
    let rest = add_known ids w fcs in if known w fc then with_id fc rest else rest

-- The contracts that are monitored and depend on an input.
unfoldable pub inputs_spent : List ℕ → Watchdog → List ℕ
unfolding lookup add_known
inputs_spent [] w = []
inputs_spent (oid ∷ inputs) w =
    add_known (or_empty (lookup oid w.dependencies)) w (inputs_spent inputs w)

unfoldable pub add_missing : List ℕ → ℕ → Watchdog → Option Watchdog
unfolding has lookup add_dependency
add_missing [] fc w = some w
add_missing (oid ∷ ids) fc w = do
  w' ← if has oid (parents_of (lookup fc w.contracts)) then some w else add_dependency oid fc w
  add_missing ids fc w'

abbrev pub with_event : Event → Watchdog → Watchdog
with_event e w = record w { events = e ∷ w.events }

-- The loop's body: the transaction leaves the formation set, or has spent its inputs twice.
unfoldable pub prune_contract : Transaction → ℕ → Watchdog → Option Watchdog
unfolding lookup remove_txn archive_contract add_missing remove_dependencies not_in Maps.insert
prune_contract t fc w = do
  status ← lookup fc w.contracts
  elim (remove_txn t.id status.formation_txns) [
    | none ↦ some (with_event (double_spend fc w.height) (archive_contract fc w))
    | some pruned ↦ add_missing (parent_output_ids pruned) fc (
        remove_dependencies (not_in (parent_output_ids pruned) status.parents) fc
          (put_status fc (record status { formation_txns = pruned }) w))
  ]

unfoldable pub prune_contracts : Transaction → List ℕ → Watchdog → Option Watchdog
unfolding prune_contract
prune_contracts t [] w = some w
prune_contracts t (fc ∷ fcs) w = do w' ← prune_contract t fc w; prune_contracts t fcs w'

unfoldable pub find_dependency_spends : Transaction → Watchdog → Option Watchdog
unfolding prune_contracts inputs_spent
find_dependency_spends t w = prune_contracts t (inputs_spent t.inputs w) w
