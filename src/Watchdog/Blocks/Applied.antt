-- ===== src/Watchdog/Blocks/Applied.antt =====
-- A new block leaves the maps of the watchdog in agreement, and so does every other method.
use sia_satellite.Prelude.{
  ℕ, suc, ◌<◌, ◌≡◌, refl, subst, inl, inr, true, Option, none, some, List, [], ◌∷◌, arith, ◌==◌,
  Bool-cases, All, Succeeds, Succeeds-some, Succeeds-bind,
}
use sia_satellite.Prelude.Maps.{lookup}
use sia_satellite.Watchdog.Sets.{has}
use sia_satellite.Watchdog.{
  Revision, Signature, Transaction, Watchdog, new_watchdog, archive_contract, allowance_updated,
}
use sia_satellite.Watchdog.Dependencies.{Agrees, known}
use sia_satellite.Watchdog.Spends.Loops.{Archived, archive_contract-Archived}
use sia_satellite.Watchdog.Spends.Pruned.{find_dependency_spends-Agrees}
use sia_satellite.Watchdog.Blocks.Monitored.{Monitors, monitor_contract-Monitors}
use sia_satellite.Watchdog.Reverted.{scan_revert_update}
use sia_satellite.Watchdog.Reverted.Kept.{scan_revert_update-Agrees}
use sia_satellite.Watchdog.Blocks.Changes.{change-Agrees}
use sia_satellite.Watchdog.Blocks.{
  MonitorArgs, watching, monitor_contract, revision_signatures, scan_contracts, scan_revisions,
  scan_proofs, scan_applied_block, Block, scan_apply_update,
}

scan_contracts-Agrees : (fcs : List ℕ) (w : Watchdog) → Agrees w → Agrees (scan_contracts fcs w)
unfolding scan_contracts
scan_contracts-Agrees [] w a = a
scan_contracts-Agrees (fc ∷ fcs) w a =
    scan_contracts-Agrees fcs _ (change-Agrees fc _ w (λ status. refl) a)

scan_proofs-Agrees : (fcs : List ℕ) (w : Watchdog) → Agrees w → Agrees (scan_proofs fcs w)
unfolding scan_proofs
scan_proofs-Agrees [] w a = a
scan_proofs-Agrees (fc ∷ fcs) w a =
    scan_proofs-Agrees fcs _ (change-Agrees fc _ w (λ status. refl) a)

-- The keys of the signatures are one of two.
abbrev pub OfTwoKeys : Signature → Type 0
OfTwoKeys s = s.key_index < 2

revision_signatures-Succeeds :
    (num : ℕ) (signatures : List Signature) (sigs : Option ℕ × Option ℕ)
    → All OfTwoKeys signatures
    → Succeeds (λ sigs. Unit) (revision_signatures num signatures sigs)
unfolding revision_signatures
revision_signatures-Succeeds num [] sigs two = tt
revision_signatures-Succeeds num (s ∷ signatures) sigs (two, twos) =
    elim (Bool-cases (has num s.covered)) [
      | inr h ↦ rw h (revision_signatures-Succeeds num signatures sigs twos)
      | inl h ↦ elim (Bool-cases (s.key_index == 0)) [
        | inl z ↦ rw (h, z) (revision_signatures-Succeeds num signatures _ twos)
        | inr n ↦
            let one : s.key_index == 1 ≡ true = ground (arith, two, n) in
            rw (h, n, one) (revision_signatures-Succeeds num signatures _ twos)
      ]
    ]

scan_revisions-Agrees :
    (num : ℕ) (revisions : List Revision) (signatures : List Signature) (w : Watchdog)
    → All OfTwoKeys signatures
    → Agrees w
    → Succeeds Agrees (scan_revisions num revisions signatures w)
unfolding scan_revisions
scan_revisions-Agrees num [] signatures w twos a = a
scan_revisions-Agrees num (rev ∷ revisions) signatures w twos a =
    Succeeds-bind Agrees Agrees _ _
      (elim (Bool-cases (known w rev.parent)) [
        | inr k ↦ rw k a
        | inl k ↦ rw k (
            Succeeds-bind (λ sigs. Unit) Agrees _ _
              (revision_signatures-Succeeds num signatures (none, none) twos)
              (λ sigs u. change-Agrees rev.parent _ w (λ status. refl) a))
      ])
      (λ w' a'. scan_revisions-Agrees (suc num) revisions signatures w' twos a')

abbrev pub Signed : Transaction → Type 0
Signed t = All OfTwoKeys t.signatures

scan_applied_block-Agrees :
    (txns : List Transaction) (w : Watchdog)
    → All Signed txns
    → Agrees w
    → Succeeds Agrees (scan_applied_block txns w)
unfolding scan_applied_block
scan_applied_block-Agrees [] w s a = a
scan_applied_block-Agrees (t ∷ txns) w (s, ss) a =
    Succeeds-bind Agrees Agrees _ _
      (scan_revisions-Agrees 0 t.revisions t.signatures _ s (scan_contracts-Agrees t.contracts w a))
      (λ w1 a1.
        Succeeds-bind Agrees Agrees _ _
          (find_dependency_spends-Agrees t _ (scan_proofs-Agrees t.proofs w1 a1))
          (λ w2 a2. scan_applied_block-Agrees txns w2 ss a2))

-- The states that allowances, monitored contracts, new and reverted blocks, and archiving lead to.
pub data Reachable : Watchdog → Type 0 where
  started : (tip : ℕ) → Reachable (new_watchdog tip)
  allowed :
      (renter window : ℕ) {w : Watchdog}
      → Reachable w
      → Reachable (allowance_updated renter window w)
  monitored :
      (args : MonitorArgs) {w w' : Watchdog}
      → Reachable w
      → monitor_contract args w ≡ watching (some w')
      → Reachable w'
  applied :
      (b : Block) {w w' : Watchdog}
      → Reachable w
      → All Signed b.transactions
      → scan_apply_update b w ≡ some w'
      → Reachable w'
  reverted :
      (fuel : ℕ) (b : Block) {w w' : Watchdog}
      → Reachable w
      → scan_revert_update fuel b w ≡ some w'
      → Reachable w'
  archived : (fc : ℕ) {w : Watchdog} → Reachable w → Reachable (archive_contract fc w)

monitored-Agrees :
    (args : MonitorArgs) (w w' : Watchdog)
    → monitor_contract args w ≡ watching (some w')
    → Agrees w
    → Agrees w'
monitored-Agrees args w w' e a =
    let (new, sane, agrees, there, more) =
      subst (Monitors args w) e (monitor_contract-Monitors args w a) in
    agrees

Reachable-Agrees : {w : Watchdog} → Reachable w → Agrees w
unfolding lookup has scan_apply_update
Reachable-Agrees (started tip) = λ o z. refl
Reachable-Agrees (allowed renter window r) = Reachable-Agrees r
Reachable-Agrees (monitored args r e) = monitored-Agrees args _ _ e (Reachable-Agrees r)
Reachable-Agrees (applied b r s e) =
    Succeeds-some Agrees _ (scan_applied_block-Agrees b.transactions _ s (Reachable-Agrees r)) e
Reachable-Agrees (reverted fuel b r e) =
    Succeeds-some Agrees _ (scan_revert_update-Agrees fuel b _ (Reachable-Agrees r)) e
Reachable-Agrees (archived fc r) =
    Archived.agrees (archive_contract-Archived fc _ (Reachable-Agrees r))

-- In every state that allowances, monitored contracts, new and reverted blocks, and archiving lead to, a
-- contract is among the dependents of an output exactly as the output is among its parents. A new block
-- whose signatures are of two keys is scanned without a panic, and leaves such a state. A reverted block
-- is scanned without a panic too, and leaves such a state after any number of rounds of its queue.
pub Reachable-applies :
    (fuel : ℕ) (b : Block) (w : Watchdog)
    → Reachable w
    → All Signed b.transactions
    → Agrees w
      × Succeeds Agrees (scan_apply_update b w)
      × Succeeds Agrees (scan_revert_update fuel b w)
unfolding scan_apply_update
Reachable-applies fuel b w r s = (
  Reachable-Agrees r,
  scan_applied_block-Agrees b.transactions _ s (Reachable-Agrees r),
  scan_revert_update-Agrees fuel b w (Reachable-Agrees r),
)
