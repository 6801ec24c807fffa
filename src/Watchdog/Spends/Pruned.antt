-- ===== src/Watchdog/Spends/Pruned.antt =====
-- What `findDependencySpends` makes of the contracts that depend on an input.
use sia_satellite.Prelude.{
  ℕ, ◌≡◌, refl, sym, ap, ◌∙◌, inl, inr, true, false, Option, none, some, List, [], ◌∷◌, arith, ◌==◌,
  Bool-cases, All, is_some, Option-cases, Succeeds, Succeeds-weaken, Succeeds-bind, Succeeds-known,
}
use sia_satellite.Prelude.Maps.{lookup, lookup-insert}
use sia_satellite.Watchdog.Sets.{has, with_id, not_in, has-not_in}
use sia_satellite.Watchdog.{
  Transaction, ContractStatus, Watchdog, or_empty, parents_of, put_status, remove_dependencies,
  parent_output_ids,
}
use sia_satellite.Watchdog.Dependencies.{
  needs, Agrees, known, txns_of, same_parents, known_put, none-known,
}
use sia_satellite.Watchdog.Spends.Loops.{
  PutsAll, remove_dependencies-PutsAll, add_missing-PutsAll, archive_contract-Archived,
}
use sia_satellite.Watchdog.Spends.{
  remove_txn, add_known, inputs_spent, prune_contract, prune_contracts, find_dependency_spends,
}

pub record Keeps (w w' : Watchdog) : Type 0 where
  pub agrees : Agrees w'
  pub parents : (o z : ℕ) → needs w' o z ≡ needs w o z
  pub same_known : (z : ℕ) → known w' z ≡ known w z

-- A change of a contract's data that leaves its parents.
pub put_status-Keeps :
    (fc : ℕ) (status status' : ContractStatus) (w : Watchdog)
    → lookup fc w.contracts ≡ some status
    → status'.parents ≡ status.parents
    → Agrees w
    → Keeps w (put_status fc status' w)
put_status-Keeps fc status status' w e same a =
    let parents : (o z : ℕ) → needs (put_status fc status' w) o z ≡ needs w o z =
      λ o z. same_parents fc o z status status' w.contracts e same in
    record {
      agrees = λ o z. a o z ∙ sym (parents o z);
      parents = parents;
      same_known = λ z. known_put fc z status status' w.contracts e;
    }

stored_txns :
    (fc : ℕ) (status : ContractStatus) (w : Watchdog)
    → txns_of (put_status fc status w) fc ≡ status.formation_txns
stored_txns fc status w =
    rw (lookup-insert fc fc status w.contracts)
      (let here : fc == fc ≡ true = ground arith in rw here refl)

-- What becomes of a contract: it is given up if its inputs are spent twice, and else depends on what
-- its smaller formation set spends and does not create.
abbrev pub Outcome : Option (List Transaction) → ℕ → Watchdog → Type 0
Outcome none fc w' = known w' fc ≡ false
Outcome (some pruned) fc w' =
    (known w' fc ≡ true)
    × (txns_of w' fc ≡ pruned)
    × ((o : ℕ) → needs w' o fc ≡ has o (parent_output_ids pruned))

pub record Pruned (t : Transaction) (fc : ℕ) (status : ContractStatus) (w w' : Watchdog)
    : Type 0 where
  pub agrees : Agrees w'
  pub outcome : Outcome (remove_txn t.id status.formation_txns) fc w'
  pub others : (o z : ℕ) → fc == z ≡ false → needs w' o z ≡ needs w o z
  pub known_others : (z : ℕ) → fc == z ≡ false → known w' z ≡ known w z

-- Where both maps agree, a transaction that spends a parent of a watched contract is taken in without
-- a panic: either it is one of the formation set, which loses it, and the contract then depends on
-- exactly what the rest spends and does not create, or the contract is given up. Both maps stay in
-- agreement, and the dependencies of the others are as before.
pub prune_contract-Pruned :
    (t : Transaction) (fc : ℕ) (status : ContractStatus) (w : Watchdog)
    → Agrees w
    → lookup fc w.contracts ≡ some status
    → Succeeds (Pruned t fc status w) (prune_contract t fc w)
unfolding prune_contract
prune_contract-Pruned t fc status w a e =
    Succeeds-known (Pruned t fc status w) _ _ e
      (elim (Option-cases (remove_txn t.id status.formation_txns)) [
        | inl twice ↦
            let r = archive_contract-Archived fc w a in
            rw twice (record {
              agrees = r.agrees;
              outcome = rw twice (ground (arith, r.known_others fc));
              others = λ o z n. ground (arith, r.parents o z, n);
              known_others = λ z n. ground (arith, r.known_others z, n);
            })
        | inr (pruned, once) ↦
            let needed = parent_output_ids pruned in
            let status' = record status { formation_txns = pruned } in
            let k = put_status-Keeps fc status status' w e refl a in
            let w1 = put_status fc status' w in
            let r = remove_dependencies-PutsAll (not_in needed status.parents) fc w1 k.agrees in
            let w2 = remove_dependencies (not_in needed status.parents) fc w1 in
            let there : known w fc ≡ true = ap is_some e in
            rw once (
              Succeeds-weaken (PutsAll true needed fc w2) (Pruned t fc status w) _
                (add_missing-PutsAll needed fc w2 r.agrees
                  (r.same_known fc ∙ k.same_known fc ∙ there))
                (λ w3 m. record {
                  agrees = m.agrees;
                  outcome = rw once (
                    m.same_known fc ∙ r.same_known fc ∙ k.same_known fc ∙ there,
                    m.same_txns fc ∙ r.same_txns fc ∙ stored_txns fc status' w,
                    λ o. ground (
                      arith,
                      m.parents o fc,
                      r.parents o fc,
                      k.parents o fc,
                      ap (λ x. has o (parents_of x)) e,
                      has-not_in o needed status.parents,
                    ),
                  );
                  others = λ o z n. ground (arith, m.parents o z, r.parents o z, k.parents o z, n);
                  known_others = λ z n. m.same_known z ∙ r.same_known z ∙ k.same_known z;
                }))
      ])

abbrev AllKnown : Watchdog → List ℕ → Type 0
AllKnown w fcs = All (λ fc. known w fc ≡ true) fcs

abbrev Distinct : List ℕ → Type 0
Distinct [] = Unit
Distinct (fc ∷ fcs) = (has fc fcs ≡ false) × Distinct fcs

with_id-Distinct : (fc : ℕ) (fcs : List ℕ) → Distinct fcs → Distinct (with_id fc fcs)
unfolding with_id
with_id-Distinct fc fcs d = elim (Bool-cases (has fc fcs)) [ inl h ↦ rw h d | inr h ↦ rw h (h, d) ]

with_id-AllKnown :
    (fc : ℕ) (fcs : List ℕ) (w : Watchdog)
    → known w fc ≡ true
    → AllKnown w fcs
    → AllKnown w (with_id fc fcs)
unfolding with_id
with_id-AllKnown fc fcs w k ks = elim (Bool-cases (has fc fcs)) [
  | inl h ↦ rw h ks
  | inr h ↦ rw h (k, ks)
]

abbrev Affected : Watchdog → List ℕ → Type 0
Affected w fcs = Distinct fcs × AllKnown w fcs

add_known-Affected :
    (ids fcs : List ℕ) (w : Watchdog) → Affected w fcs → Affected w (add_known ids w fcs)
unfolding add_known
add_known-Affected [] fcs w a = a
add_known-Affected (fc ∷ ids) fcs w a =
    let (d, ks) = add_known-Affected ids fcs w a in
    elim (Bool-cases (known w fc)) [
      | inl k ↦ rw k (
        with_id-Distinct fc (add_known ids w fcs) d,
        with_id-AllKnown fc (add_known ids w fcs) w k ks,
      )
      | inr k ↦ rw k (d, ks)
    ]

inputs_spent-Affected : (inputs : List ℕ) (w : Watchdog) → Affected w (inputs_spent inputs w)
unfolding inputs_spent
inputs_spent-Affected [] w = (tt, tt)
inputs_spent-Affected (oid ∷ inputs) w =
    add_known-Affected (or_empty (lookup oid w.dependencies)) (inputs_spent inputs w) w
      (inputs_spent-Affected inputs w)

still_known :
    (fc : ℕ) (fcs : List ℕ) (w w' : Watchdog)
    → has fc fcs ≡ false
    → ((z : ℕ) → fc == z ≡ false → known w' z ≡ known w z)
    → AllKnown w fcs
    → AllKnown w' fcs
unfolding has
still_known fc [] w w' h same ks = tt
still_known fc (f ∷ fcs) w w' h same (k, ks) =
    let other : fc == f ≡ false = ground (arith, h) in
    (same f other ∙ k, still_known fc fcs w w' (ground (arith, h)) same ks)

prune_contracts-Agrees :
    (t : Transaction) (fcs : List ℕ) (w : Watchdog)
    → Agrees w
    → Affected w fcs
    → Succeeds Agrees (prune_contracts t fcs w)
unfolding prune_contracts
prune_contracts-Agrees t [] w a h = a
prune_contracts-Agrees t (fc ∷ fcs) w a ((new, d), (k, ks)) =
    elim (Option-cases (lookup fc w.contracts)) [
      | inl e ↦ absurd (none-known fc w e k)
      | inr (status, e) ↦
          Succeeds-bind (Pruned t fc status w) Agrees _ _ (prune_contract-Pruned t fc status w a e)
            (λ w' p.
              prune_contracts-Agrees t fcs w' p.agrees
                (d, still_known fc fcs w w' new p.known_others ks))
    ]

pub find_dependency_spends-Agrees :
    (t : Transaction) (w : Watchdog) → Agrees w → Succeeds Agrees (find_dependency_spends t w)
unfolding find_dependency_spends
find_dependency_spends-Agrees t w a =
    prune_contracts-Agrees t (inputs_spent t.inputs w) w a (inputs_spent-Affected t.inputs w)
