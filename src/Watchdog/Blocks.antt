-- ===== src/Watchdog/Blocks.antt =====
-- `callMonitorContract`, and `callScanApplyUpdate` with `scanAppliedBlock`.
pub mod Monitored
pub mod Changes
pub mod Applied
use sia_satellite.Prelude.{
  ℕ, suc, ◌+◌, ◌%◌, ◌^◌, Bool, true, false, not, ◌&&◌, Option, none, some, List, [], ◌∷◌, ◌==◌,
  if◌then◌else◌, length, ◌>>=◌,
}
use sia_satellite.Prelude.Maps.{lookup}
use sia_satellite.Watchdog.Sets.{has, not_in}
use sia_satellite.Watchdog.Dependencies.{known}
use sia_satellite.Watchdog.Spends.{with_event, find_dependency_spends}
use sia_satellite.Watchdog.{
  wait_time, Revision, Signature, Transaction, ContractStatus, update_contract, Watchdog,
  put_status, change, add_dependencies, parent_output_ids,
}
use sia_satellite.Prelude.Maps

pub record MonitorArgs : Type 0 where
  pub fc : ℕ
  pub windows : List (ℕ × ℕ)
  pub formation_txns : List Transaction
  pub sweep_txn : Transaction
  pub sweep_parents : List Transaction
  pub height : ℕ

pub data MonitorError : Type 0 where
  already_watching no_revision bad_args : MonitorError

-- A result of `none` is a panic.
pub data MonitorResult : Type 0 where
  refused : MonitorError → MonitorResult
  watching : Option Watchdog → MonitorResult

abbrev pub new_status : MonitorArgs → ℕ × ℕ → ContractStatus
new_status args window = record {
  sweep_height = (args.height + wait_time) % 2 ^ 64;
  contract_found = false;
  revision_found = 0;
  proof_found = 0;
  formation_txns = args.formation_txns;
  parents = [];
  sweep_txn = args.sweep_txn;
  sweep_parents = args.sweep_parents;
  window_start = window.0;
  window_end = window.1;
}

abbrev pub is_sane : MonitorArgs → Bool
is_sane args =
    not (length args.formation_txns == 0)
    && not (length args.sweep_txn.inputs == 0)
    && not (args.height == 0)

unfoldable pub watch_window : MonitorArgs → Watchdog → List (ℕ × ℕ) → MonitorResult
unfolding add_dependencies Maps.insert not_in
watch_window args w [] = refused no_revision
watch_window args w (window ∷ windows) =
    if is_sane args
    then watching (
        add_dependencies (parent_output_ids args.formation_txns) args.fc
          (put_status args.fc (new_status args window) w))
    else refused bad_args

-- `callMonitorContract`, with the windows of the revisions of its transaction.
unfoldable pub monitor_contract : MonitorArgs → Watchdog → MonitorResult
unfolding watch_window lookup
monitor_contract args w =
    if known w args.fc then refused already_watching else watch_window args w args.windows

-- The two signatures of a revision; `none` is the panic of the index.
unfoldable pub revision_signatures :
    ℕ → List Signature → Option ℕ × Option ℕ → Option (Option ℕ × Option ℕ)
unfolding has
revision_signatures num [] sigs = some sigs
revision_signatures num (s ∷ signatures) sigs =
    if has num s.covered
    then (if s.key_index == 0
        then revision_signatures num signatures (some s.value, sigs.1)
        else if s.key_index == 1
        then revision_signatures num signatures (sigs.0, some s.value)
        else none)
    else revision_signatures num signatures sigs

unfoldable pub scan_contracts : List ℕ → Watchdog → Watchdog
unfolding change
scan_contracts [] w = w
scan_contracts (fc ∷ fcs) w =
    scan_contracts fcs (change fc (λ status. record status { contract_found = true }) w)

unfoldable pub scan_revisions : ℕ → List Revision → List Signature → Watchdog → Option Watchdog
unfolding change revision_signatures lookup
scan_revisions num [] signatures w = some w
scan_revisions num (rev ∷ revisions) signatures w = do
  w' ←
      if known w rev.parent
      then (do
        sigs ← revision_signatures num signatures (none, none)
        some (
            with_event (update_contract rev sigs)
              (change rev.parent (λ status. record status { revision_found = rev.number }) w)))
      else some w
  scan_revisions (suc num) revisions signatures w'

unfoldable pub scan_proofs : List ℕ → Watchdog → Watchdog
unfolding change
scan_proofs [] w = w
scan_proofs (fc ∷ fcs) w =
    scan_proofs fcs (change fc (λ status. record status { proof_found = w.height }) w)

unfoldable pub scan_applied_block : List Transaction → Watchdog → Option Watchdog
unfolding scan_contracts scan_revisions scan_proofs find_dependency_spends
scan_applied_block [] w = some w
scan_applied_block (t ∷ txns) w = do
  w' ← scan_revisions 0 t.revisions t.signatures (scan_contracts t.contracts w)
  w'' ← find_dependency_spends t (scan_proofs t.proofs w')
  scan_applied_block txns w''

pub record Block : Type 0 where
  pub is_genesis : Bool
  pub transactions : List Transaction

-- `callScanApplyUpdate`
unfoldable pub scan_apply_update : Block → Watchdog → Option Watchdog
unfolding scan_applied_block
scan_apply_update b w =
    scan_applied_block b.transactions
      (record w { height = if b.is_genesis then w.height else (w.height + 1) % 2 ^ 64 })
