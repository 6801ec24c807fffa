-- ===== src/Watchdog.antt =====
-- modules/manager/contractor/watchdog.go: the contracts that are monitored, and what their formation
-- depends on. Identifiers of transactions, outputs and contracts, which core computes, are fields; a
-- call of the contractor is an event. A set of identifiers is a list.
pub mod Sets
pub mod Dependencies
pub mod Spends
pub mod Blocks
pub mod Reverted
pub mod Examples
use sia_satellite.Prelude.{
  ℕ, Bool, Option, none, some, List, [], ◌∷◌, ◌++◌, ◌==◌, if◌then◌else◌, length, ◌>>=◌,
}
use sia_satellite.Prelude.Maps.{Map, lookup}
use sia_satellite.Watchdog.Sets.{has, with_id, without, not_in}
use sia_satellite.Prelude.Maps

abbrev pub wait_time : ℕ
wait_time = 288

pub record Revision : Type 0 where
  pub parent : ℕ
  pub number : ℕ

pub record Signature : Type 0 where
  pub key_index : ℕ
  pub covered : List ℕ
  pub value : ℕ

-- Of a transaction, what the watchdog reads.
pub record Transaction : Type 0 where
  pub id : ℕ
  pub inputs : List ℕ
  pub outputs : List ℕ
  pub contracts : List ℕ
  pub revisions : List Revision
  pub signatures : List Signature
  pub proofs : List ℕ

-- fileContractStatus
pub record ContractStatus : Type 0 where
  pub sweep_height : ℕ
  pub contract_found : Bool
  pub revision_found : ℕ
  pub proof_found : ℕ
  pub formation_txns : List Transaction
  pub parents : List ℕ
  pub sweep_txn : Transaction
  pub sweep_parents : List Transaction
  pub window_start : ℕ
  pub window_end : ℕ

-- `UpdateContract`, and `callNotifyDoubleSpend`
pub data Event : Type 0 where
  update_contract : Revision → Option ℕ × Option ℕ → Event
  double_spend : ℕ → ℕ → Event

pub record Watchdog : Type 0 where
  pub contracts : Map ContractStatus
  pub dependencies : Map (List ℕ)
  pub renew_windows : Map ℕ
  pub height : ℕ
  pub events : List Event

-- `newWatchdog`, at the height of the tip
abbrev pub new_watchdog : ℕ → Watchdog
new_watchdog tip = record {
  contracts = [];
  dependencies = [];
  renew_windows = [];
  height = tip;
  events = [];
}

-- The sets behind the two maps, where a missing key is an empty set.
abbrev pub or_empty : Option (List ℕ) → List ℕ
or_empty none = []
or_empty (some ids) = ids

abbrev pub parents_of : Option ContractStatus → List ℕ
parents_of none = []
parents_of (some status) = status.parents

abbrev pub put_status : ℕ → ContractStatus → Watchdog → Watchdog
put_status fc status w = record w { contracts = Maps.insert fc status w.contracts }

-- `addOutputDependency`; `none` is the panic of a missing contract.
unfoldable pub add_dependency : ℕ → ℕ → Watchdog → Option Watchdog
unfolding lookup Maps.insert with_id
add_dependency oid fc w = do
  status ← lookup fc w.contracts
  some (record w {
    contracts = Maps.insert fc (record status { parents = with_id oid status.parents }) w.contracts;
    dependencies =
        Maps.insert oid (with_id fc (or_empty (lookup oid w.dependencies))) w.dependencies;
  })

abbrev pub forget_parent : ℕ → ContractStatus → ContractStatus
forget_parent oid status = record status { parents = without oid status.parents }

-- Changes the data of a contract, if it is there.
unfoldable pub change : ℕ → (ContractStatus → ContractStatus) → Watchdog → Watchdog
unfolding lookup Maps.insert
change fc f w = elim (lookup fc w.contracts) [ some status ↦ put_status fc (f status) w | none ↦ w ]

-- `removeOutputDependency`
unfoldable pub remove_dependency : ℕ → ℕ → Watchdog → Watchdog
unfolding change has
remove_dependency oid fc w = elim (lookup oid w.dependencies) [
  | none ↦ w
  | some fcs ↦
      if has fc fcs
      then change fc (forget_parent oid) (record w {
        dependencies =
            if length fcs == 1
            then Maps.delete oid w.dependencies
            else Maps.insert oid (without fc fcs) w.dependencies;
      })
      else w
]

unfoldable pub remove_dependencies : List ℕ → ℕ → Watchdog → Watchdog
unfolding remove_dependency
remove_dependencies [] fc w = w
remove_dependencies (oid ∷ ids) fc w = remove_dependencies ids fc (remove_dependency oid fc w)

-- `archiveContract`
unfoldable pub archive_contract : ℕ → Watchdog → Watchdog
unfolding remove_dependencies
archive_contract fc w = elim (lookup fc w.contracts) [
  | none ↦ w
  | some status ↦
      let w' = remove_dependencies status.parents fc w in
      record w' { contracts = Maps.delete fc w'.contracts }
]

unfoldable pub add_dependencies : List ℕ → ℕ → Watchdog → Option Watchdog
unfolding add_dependency
add_dependencies [] fc w = some w
add_dependencies (oid ∷ ids) fc w = do w' ← add_dependency oid fc w; add_dependencies ids fc w'

-- `getParentOutputIDs`: what a set of transactions spends and does not create.
abbrev pub spent : List Transaction → List ℕ
spent [] = []
spent (t ∷ txns) = t.inputs ++ spent txns

abbrev pub created : List Transaction → List ℕ
created [] = []
created (t ∷ txns) = t.outputs ++ created txns

abbrev pub parent_output_ids : List Transaction → List ℕ
parent_output_ids txns = not_in (created txns) (spent txns)

-- `callAllowanceUpdated`
abbrev pub allowance_updated : ℕ → ℕ → Watchdog → Watchdog
allowance_updated renter window w = record w {
  renew_windows = Maps.insert renter window w.renew_windows;
}
