-- ===== src/Watchdog/Reverted.antt =====
-- `callScanRevertUpdate`: `scanRevertedBlock` and `updateDependenciesFromRevertedBlock`. The rounds of the
-- queue are counted by fuel: the state that is left when it is used up is that after so many rounds.
pub mod Kept
use sia_satellite.Prelude.{
  ℕ, zero, suc, ◌+◌, ◌-◌, ◌%◌, ◌^◌, false, not, ◌&&◌, Option, none, some, List, [], ◌∷◌, ◌++◌, ltb,
  ◌==◌, if◌then◌else◌, any, ◌>>=◌, is_some,
}
use sia_satellite.Prelude.Maps.{Map, lookup}
use sia_satellite.Watchdog.Sets.{has, without, not_in}
use sia_satellite.Watchdog.Blocks.{Block}
use sia_satellite.Watchdog.{
  Revision, Transaction, ContractStatus, Watchdog, put_status, change, add_dependencies, created,
  parent_output_ids,
}
use sia_satellite.Prelude.Maps

abbrev pub reorg_leeway : ℕ
reorg_leeway = 24

abbrev pub reverted_status : ℕ → Transaction → ContractStatus → ContractStatus
reverted_status height t status =
    let by = (height + reorg_leeway) % 2 ^ 64 in
    record status {
      contract_found = false;
      sweep_height = if ltb status.sweep_height by then by else status.sweep_height;
      formation_txns = t ∷ [];
    }

unfoldable pub revert_contracts : List ℕ → Transaction → Watchdog → Option Watchdog
unfolding lookup add_dependencies Maps.insert not_in
revert_contracts [] t w = some w
revert_contracts (fc ∷ fcs) t w = do
  w' ← elim (lookup fc w.contracts) [
    | none ↦ some w
    | some status ↦
        add_dependencies (parent_output_ids (t ∷ [])) fc
          (put_status fc (reverted_status w.height t status) w)
  ]
  revert_contracts fcs t w'

unfoldable pub revert_revisions : List Revision → Watchdog → Watchdog
unfolding change
revert_revisions [] w = w
revert_revisions (rev ∷ revisions) w =
    revert_revisions revisions
      (change rev.parent (λ status. record status { revision_found = 0 }) w)

unfoldable pub revert_proofs : List ℕ → Watchdog → Watchdog
unfolding change
revert_proofs [] w = w
revert_proofs (fc ∷ fcs) w =
    revert_proofs fcs (change fc (λ status. record status { proof_found = 0 }) w)

unfoldable pub revert_txns : List Transaction → Watchdog → Option Watchdog
unfolding revert_contracts revert_revisions revert_proofs
revert_txns [] w = some w
revert_txns (t ∷ txns) w = do
  w' ← revert_contracts t.contracts t w
  revert_txns txns (revert_proofs t.proofs (revert_revisions t.revisions w'))

-- `outputsCreatedInBlock`
unfoldable pub add_outputs : List ℕ → Transaction → Map Transaction → Map Transaction
unfolding Maps.insert
add_outputs [] t m = m
add_outputs (oid ∷ ids) t m = add_outputs ids t (Maps.insert oid t m)

unfoldable pub created_in : List Transaction → Map Transaction → Map Transaction
unfolding add_outputs
created_in [] m = m
created_in (t ∷ txns) m = created_in txns (add_outputs t.outputs t m)

-- `addDependencyToContractFormationSet`; `none` is the panic of a missing contract.
unfoldable pub add_to_formation_set : ℕ → Transaction → Watchdog → Option Watchdog
unfolding lookup add_dependencies Maps.insert
add_to_formation_set fc t w = do
  status ← lookup fc w.contracts
  (if any (λ x. x.id == t.id) status.formation_txns
      then some w
      else add_dependencies t.inputs fc
          (put_status fc (record status { formation_txns = t ∷ status.formation_txns }) w))

unfoldable pub add_to_formation_sets : List ℕ → Transaction → Watchdog → Option Watchdog
unfolding add_to_formation_set
add_to_formation_sets [] t w = some w
add_to_formation_sets (fc ∷ fcs) t w = do
  w' ← add_to_formation_set fc t w
  add_to_formation_sets fcs t w'

-- `outputQueue` and `outputsInQueue`
pub record Queue : Type 0 where
  pub outputs : List ℕ
  pub members : List ℕ

unfoldable pub add_parents : List ℕ → Map Transaction → Queue → Queue
unfolding has lookup
add_parents [] created q = q
add_parents (oid ∷ inputs) created q = add_parents inputs created (
    if not (has oid q.members) && is_some (lookup oid created)
    then record { outputs = q.outputs ++ (oid ∷ []); members = oid ∷ q.members }
    else q)

-- The first round, over all outputs of the block.
unfoldable pub populate :
    Map Transaction → Map Transaction → Queue → Watchdog → Option (Queue × Watchdog)
unfolding lookup add_to_formation_sets add_parents
populate [] created q w = some (q, w)
populate ((oid, t) ∷ outputs) created q w = elim (lookup oid w.dependencies) [
  | none ↦ populate outputs created q w
  | some fcs ↦ (do
    w' ← add_to_formation_sets fcs t w
    populate outputs created (add_parents t.inputs created q) w')
]

-- The rounds of the queue. Only outputs of the block are in it.
unfoldable pub drain : ℕ → Map Transaction → Queue → Watchdog → Option Watchdog
unfolding lookup without add_to_formation_sets add_parents
drain zero created q w = some w
drain (suc fuel) created q w = elim q.outputs [
  | [] ↦ some w
  | oid ∷ rest ↦ elim (lookup oid created) [
    | none ↦ drain fuel created (record q { outputs = rest }) w
    | some t ↦ elim (lookup oid w.dependencies) [
      | none ↦ drain fuel created (record q { outputs = rest }) w
      | some fcs ↦ (do
        w' ← add_to_formation_sets fcs t w
        let q' = add_parents t.inputs created (record q { outputs = rest })
        drain fuel created (record q' { members = without oid q'.members }) w')
    ]
  ]
]

-- `callScanRevertUpdate`, after so many rounds
unfoldable pub scan_revert_update : ℕ → Block → Watchdog → Option Watchdog
unfolding revert_txns created_in populate drain
scan_revert_update fuel b w = do
  let height = if b.is_genesis then w.height else (w.height + 2 ^ 64 - 1) % 2 ^ 64
  let created = created_in b.transactions []
  w' ← revert_txns b.transactions (record w { height = height })
  r ← populate created created (record { outputs = []; members = [] }) w'
  drain fuel created r.0 r.1
