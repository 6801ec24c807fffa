-- ===== src/Watchdog/Examples.antt =====
-- The theorems on the watchdog at a concrete contract.
use sia_satellite.Prelude.{◌≡◌, refl, false, some, [], ◌∷◌, arith, Succeeds}
use sia_satellite.Prelude.Maps.{lookup}
use sia_satellite.Watchdog.Sets.{has}
use sia_satellite.Watchdog.Dependencies.{Agrees}
use sia_satellite.Watchdog.Spends.Pruned.{Pruned, prune_contract-Pruned}
use sia_satellite.Watchdog.Spends.{prune_contract}
use sia_satellite.Watchdog.Blocks.{
  MonitorArgs, watching, monitor_contract, Block, scan_apply_update,
}
use sia_satellite.Watchdog.Blocks.Monitored.{Monitors, monitor_contract-Monitors}
use sia_satellite.Watchdog.Reverted.{scan_revert_update}
use sia_satellite.Watchdog.Blocks.Applied.{Reachable, started, monitored, Reachable-applies}
use sia_satellite.Watchdog.{Transaction, ContractStatus, Watchdog, new_watchdog}
use sia_satellite.Prelude.Maps

-- A parent that creates output 21, and the formation transaction that spends it.
abbrev parent : Transaction
parent = record {
  id = 1;
  inputs = 20 ∷ [];
  outputs = 21 ∷ [];
  contracts = [];
  revisions = [];
  signatures = [];
  proofs = [];
}

abbrev formation : Transaction
formation = record {
  id = 2;
  inputs = 21 ∷ [];
  outputs = [];
  contracts = 5 ∷ [];
  revisions = [];
  signatures = record { key_index = 1; covered = 0 ∷ []; value = 9 } ∷ [];
  proofs = [];
}

abbrev args : MonitorArgs
args = record {
  fc = 5;
  windows = (100, 200) ∷ [];
  formation_txns = parent ∷ formation ∷ [];
  sweep_txn = parent;
  sweep_parents = [];
  height = 40;
}

abbrev status : ContractStatus
status = record {
  sweep_height = 328;
  contract_found = false;
  revision_found = 0;
  proof_found = 0;
  formation_txns = parent ∷ formation ∷ [];
  parents = 20 ∷ [];
  sweep_txn = parent;
  sweep_parents = [];
  window_start = 100;
  window_end = 200;
}

abbrev watching_one : Watchdog
watching_one = record {
  contracts = (5, status) ∷ [];
  dependencies = (20, 5 ∷ []) ∷ [];
  renew_windows = [];
  height = 40;
  events = [];
}

watched : monitor_contract args (new_watchdog 40) ≡ watching (some watching_one)
unfolding monitor_contract Maps.delete
watched = refl

watching_one-Reachable : Reachable watching_one
watching_one-Reachable = monitored args (started 40) watched

monitor_contract-Monitors_example :
    Monitors args (new_watchdog 40) (monitor_contract args (new_watchdog 40))
unfolding lookup has
monitor_contract-Monitors_example = monitor_contract-Monitors args (new_watchdog 40) (λ o z. refl)

-- A block that confirms both.
abbrev block : Block
block = record { is_genesis = false; transactions = parent ∷ formation ∷ [] }

Reachable-applies_example :
    Agrees watching_one
    × Succeeds Agrees (scan_apply_update block watching_one)
    × Succeeds Agrees (scan_revert_update 9 block watching_one)
Reachable-applies_example =
    Reachable-applies 9 block watching_one watching_one-Reachable (tt, ((omega arith, tt), tt))

watching_one-Agrees : Agrees watching_one
watching_one-Agrees =
    (Reachable-applies 9 block watching_one watching_one-Reachable (tt, ((omega arith, tt), tt))).0

prune_contract-Pruned_example :
    Succeeds (Pruned parent 5 status watching_one) (prune_contract parent 5 watching_one)
unfolding lookup
prune_contract-Pruned_example =
    prune_contract-Pruned parent 5 status watching_one watching_one-Agrees refl
