-- ===== src/Watchdog/Reverted/Kept.antt =====
-- A reverted block leaves the maps of the watchdog in agreement.
use sia_satellite.Prelude.{
  ℕ, zero, suc, ◌≡◌, refl, sym, ap, ◌∙◌, inl, inr, true, some, List, [], ◌∷◌, arith, ◌==◌,
  Bool-cases, any, is_some, Option-cases, Succeeds, Succeeds-weaken, Succeeds-bind, Succeeds-known,
}
use sia_satellite.Prelude.Maps.{Map, lookup}
use sia_satellite.Watchdog.Sets.{has}
use sia_satellite.Watchdog.{
  Revision, Transaction, ContractStatus, Watchdog, or_empty, parents_of, put_status,
  add_dependencies, created, parent_output_ids,
}
use sia_satellite.Watchdog.Dependencies.{Agrees, known, none-known}
use sia_satellite.Watchdog.Spends.Loops.{PutsAll}
use sia_satellite.Watchdog.Spends.Pruned.{put_status-Keeps}
use sia_satellite.Watchdog.Blocks.Monitored.{add_dependencies-PutsAll}
use sia_satellite.Watchdog.Blocks.Changes.{change-Agrees}
use sia_satellite.Watchdog.Blocks.{Block}
use sia_satellite.Watchdog.Reverted.{
  reverted_status, revert_contracts, revert_revisions, revert_proofs, revert_txns, created_in,
  add_to_formation_set, add_to_formation_sets, Queue, populate, drain, scan_revert_update,
}

-- The maps agree, and the same contracts are known.
abbrev Holds : Watchdog → Watchdog → Type 0
Holds w w' = Agrees w' × ((z : ℕ) → known w' z ≡ known w z)

-- New data of a contract, with its old parents, and more dependencies.
more-Holds :
    (ids : List ℕ) (fc : ℕ) (status status' : ContractStatus) (w : Watchdog)
    → lookup fc w.contracts ≡ some status
    → status'.parents ≡ status.parents
    → Agrees w
    → Succeeds (Holds w) (add_dependencies ids fc (put_status fc status' w))
more-Holds ids fc status status' w e same a =
    let k = put_status-Keeps fc status status' w e same a in
    let w1 = put_status fc status' w in
    Succeeds-weaken (PutsAll true ids fc w1) (Holds w) _
      (add_dependencies-PutsAll ids fc w1 k.agrees (k.same_known fc ∙ ap is_some e))
      (λ w2 m. (m.agrees, λ z. m.same_known z ∙ k.same_known z))

revert_contracts-Agrees :
    (fcs : List ℕ) (t : Transaction) (w : Watchdog)
    → Agrees w
    → Succeeds Agrees (revert_contracts fcs t w)
unfolding revert_contracts
revert_contracts-Agrees [] t w a = a
revert_contracts-Agrees (fc ∷ fcs) t w a =
    Succeeds-bind (Holds w) Agrees _ _
      (elim (Option-cases (lookup fc w.contracts)) [
        | inl e ↦ rw e (a, λ z. refl)
        | inr (status, e) ↦ rw e (
            more-Holds (parent_output_ids (t ∷ [])) fc status (reverted_status w.height t status) w
              e refl a)
      ])
      (λ w' h. revert_contracts-Agrees fcs t w' h.0)

revert_revisions-Agrees :
    (revisions : List Revision) (w : Watchdog) → Agrees w → Agrees (revert_revisions revisions w)
unfolding revert_revisions
revert_revisions-Agrees [] w a = a
revert_revisions-Agrees (rev ∷ revisions) w a =
    revert_revisions-Agrees revisions _ (change-Agrees rev.parent _ w (λ status. refl) a)

revert_proofs-Agrees : (fcs : List ℕ) (w : Watchdog) → Agrees w → Agrees (revert_proofs fcs w)
unfolding revert_proofs
revert_proofs-Agrees [] w a = a
revert_proofs-Agrees (fc ∷ fcs) w a =
    revert_proofs-Agrees fcs _ (change-Agrees fc _ w (λ status. refl) a)

revert_txns-Agrees :
    (txns : List Transaction) (w : Watchdog) → Agrees w → Succeeds Agrees (revert_txns txns w)
unfolding revert_txns
revert_txns-Agrees [] w a = a
revert_txns-Agrees (t ∷ txns) w a =
    Succeeds-bind Agrees Agrees _ _ (revert_contracts-Agrees t.contracts t w a) (λ w' a'.
      revert_txns-Agrees txns _
        (revert_proofs-Agrees t.proofs _ (revert_revisions-Agrees t.revisions w' a')))

add_to_formation_set-Holds :
    (fc : ℕ) (t : Transaction) (w : Watchdog)
    → known w fc ≡ true
    → Agrees w
    → Succeeds (Holds w) (add_to_formation_set fc t w)
unfolding add_to_formation_set
add_to_formation_set-Holds fc t w k a = elim (Option-cases (lookup fc w.contracts)) [
  | inl e ↦ absurd (none-known fc w e k)
  | inr (status, e) ↦
      Succeeds-known (Holds w) _ _ e
        (elim (Bool-cases (any (λ x. x.id == t.id) status.formation_txns)) [
          | inl b ↦ rw b (a, λ z. refl)
          | inr b ↦ rw b (
              more-Holds t.inputs fc status
                (record status { formation_txns = t ∷ status.formation_txns }) w e refl a)
        ])
]

add_to_formation_sets-Agrees :
    (fcs : List ℕ) (t : Transaction) (w : Watchdog)
    → ((z : ℕ) → has z fcs ≡ true → known w z ≡ true)
    → Agrees w
    → Succeeds Agrees (add_to_formation_sets fcs t w)
unfolding add_to_formation_sets has
add_to_formation_sets-Agrees [] t w ks a = a
add_to_formation_sets-Agrees (fc ∷ fcs) t w ks a =
    Succeeds-bind (Holds w) Agrees _ _ (add_to_formation_set-Holds fc t w (ks fc (ground arith)) a)
      (λ w' h.
        add_to_formation_sets-Agrees fcs t w' (λ z there. h.1 z ∙ ks z (ground (arith, there))) h.0)

-- The dependents of an output are known.
dependents-known :
    (oid : ℕ) (fcs : List ℕ) (w : Watchdog)
    → lookup oid w.dependencies ≡ some fcs
    → Agrees w
    → (z : ℕ) → has z fcs ≡ true
    → known w z ≡ true
unfolding has
dependents-known oid fcs w e a z there = elim (Option-cases (lookup z w.contracts)) [
  | inr (status, e') ↦ ap is_some e'
  | inl e' ↦
      let listed = ap (λ k. has z (or_empty k)) e in
      let empty = ap (λ k. has oid (parents_of k)) e' in
      absurd (ground (arith, sym there ∙ sym listed ∙ a oid z ∙ empty))
]

populate-Agrees :
    (outputs created : Map Transaction) (q : Queue) (w : Watchdog)
    → Agrees w
    → Succeeds (λ r. Agrees r.1) (populate outputs created q w)
unfolding populate
populate-Agrees [] created q w a = a
populate-Agrees ((oid, t) ∷ outputs) created q w a =
    elim (Option-cases (lookup oid w.dependencies)) [
      | inl e ↦ rw (populate, e) (populate-Agrees outputs created q w a)
      | inr (fcs, e) ↦
          rw (populate, e)
            (Succeeds-bind Agrees (λ r. Agrees r.1) _ _
              (add_to_formation_sets-Agrees fcs t w (dependents-known oid fcs w e a) a)
              (λ w' a'. populate-Agrees outputs created _ w' a'))
    ]

drain-Agrees :
    (fuel : ℕ) (created : Map Transaction) (outputs members : List ℕ) (w : Watchdog)
    → Agrees w
    → Succeeds Agrees (drain fuel created (record { outputs = outputs; members = members }) w)
unfolding drain
drain-Agrees zero created outputs members w a = a
drain-Agrees (suc fuel) created [] members w a = a
drain-Agrees (suc fuel) created (oid ∷ rest) members w a =
    elim (Option-cases (lookup oid created)) [
      | inl none_there ↦ rw (drain, none_there) (drain-Agrees fuel created rest members w a)
      | inr (t, there) ↦ elim (Option-cases (lookup oid w.dependencies)) [
        | inl e ↦ rw (drain, there, e) (drain-Agrees fuel created rest members w a)
        | inr (fcs, e) ↦
            rw (drain, there, e)
              (Succeeds-bind Agrees Agrees _ _
                (add_to_formation_sets-Agrees fcs t w (dependents-known oid fcs w e a) a)
                (λ w' a'. drain-Agrees fuel created _ _ w' a'))
      ]
    ]

pub scan_revert_update-Agrees :
    (fuel : ℕ) (b : Block) (w : Watchdog) → Agrees w → Succeeds Agrees (scan_revert_update fuel b w)
unfolding scan_revert_update
scan_revert_update-Agrees fuel b w a =
    let created = created_in b.transactions [] in
    Succeeds-bind Agrees Agrees _ _ (revert_txns-Agrees b.transactions _ a) (λ w' a'.
      Succeeds-bind (λ r. Agrees r.1) Agrees _ _ (populate-Agrees created created _ w' a')
        (λ r a''. drain-Agrees fuel created _ _ r.1 a''))
