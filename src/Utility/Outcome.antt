-- ===== src/Utility/Outcome.antt =====
-- modules/manager/contractor/utility.go: `managedMarkContractUtility` as a step of the contractor.
use sia_satellite.Prelude.{
  ℕ, ◌≡◌, refl, ◌⊎◌, inl, inr, true, false, none, some, ◌==◌, if◌then◌else◌, ==_self, Bool-cases,
  Option-cases, Ensures, Succeeds, Ensures-some,
}
use sia_satellite.Prelude.Maps.{lookup, lookup-insert}
use sia_satellite.Currency.{Currency, CurrencyLaws}
use sia_satellite.Gouging.{Allowance, Constants}
use sia_satellite.Utility.{ContractUtility, RenterContract, FileContract, Contractor, find_renter}
use sia_satellite.Utility.Marking.{with_utility, update_utility, new_utility, mark_contract_utility}
use sia_satellite.Utility.Marked.{
  Recommended, Recommends, new_utility-Recommends, new_utility_complete,
}

-- The contract has got a new utility, no other contract has changed, and the new utility is good for
-- uploads only if every check passed.
pub record Marked (k : Constants) (ctr : Contractor) (contract : RenterContract) (fc : FileContract)
    (gfr gfu : ℕ) (ctr' : Contractor) : Type 0 where
  pub utility : ContractUtility
  pub unlocked : fc.metadata.utility.locked ≡ false
  pub stored :
      (j : ℕ)
      → lookup j ctr'.contracts
        ≡ (if fc.metadata.id == j then some (with_utility fc utility) else lookup j ctr.contracts)
  pub recommended : utility.good_for_upload ≡ true → Recommended k ctr contract fc gfr gfu

update_utility-lookup :
    (ctr : Contractor) (fc : FileContract) (u : ContractUtility) (j : ℕ)
    → lookup j (update_utility ctr fc u).0.contracts
      ≡ (if fc.metadata.id == j then some (with_utility fc u) else lookup j ctr.contracts)
unfolding update_utility
update_utility-lookup ctr fc u j = lookup-insert fc.metadata.id j (with_utility fc u) ctr.contracts

module _ (c : Currency) (laws : CurrencyLaws c) (k : Constants) (ctr : Contractor) where
  -- Marking an acquired contract either leaves the contractor alone, or replaces the utility of that
  -- contract, which is then not locked, and of no other. The new utility is good for uploads only if
  -- the host is in the database, not filtered, scores above one and up to both thresholds, and the
  -- contract passes the critical checks, unless its renter is not found.
  pub mark_contract_utility-Marked :
      (contract : RenterContract) (fc : FileContract) (gfr gfu : ℕ)
      → lookup contract.id ctr.contracts ≡ some fc
      → Ensures
          (λ r. (r.0 ≡ ctr) ⊎ Marked k ctr contract fc gfr gfu r.0)
          (mark_contract_utility c k ctr contract gfr gfu)
  unfolding mark_contract_utility
  mark_contract_utility-Marked contract fc gfr gfu e =
      elim (Bool-cases fc.metadata.utility.locked) [
        | inl l ↦ rw (e, mark_contract_utility, l) (inl refl)
        | inr l ↦
            rw (e, mark_contract_utility)
              (elim (Option-cases (new_utility c k ctr contract fc gfr gfu)) [
                | inl n ↦ rw n tt
                | inr (none, n) ↦ rw n (inl refl)
                | inr (some u, n) ↦ rw n (
                    inr record {
                      utility = u;
                      unlocked = l;
                      stored = update_utility-lookup ctr fc u;
                      recommended =
                          Ensures-some (Recommends c laws k ctr contract fc gfr gfu) _
                            (new_utility-Recommends c laws k ctr contract fc gfr gfu) n;
                    })
              ])
      ]

  -- When all checks pass, marking an unlocked contract does not panic and makes it good for both
  -- uploads and renewal.
  pub mark_contract_utility_complete :
      (contract : RenterContract) (fc : FileContract) (gfr gfu : ℕ) (a : Allowance)
      → lookup contract.id ctr.contracts ≡ some fc
      → fc.metadata.utility.locked ≡ false
      → find_renter ctr fc.metadata.id ≡ some a
      → Recommended k ctr contract fc gfr gfu
      → Succeeds
          (λ r.
            lookup fc.metadata.id r.0.contracts
            ≡ some (
                with_utility fc
                  (record (contract.utility) { good_for_upload = true; good_for_renew = true })))
          (mark_contract_utility c k ctr contract gfr gfu)
  unfolding mark_contract_utility
  mark_contract_utility_complete contract fc gfr gfu a e l known r =
      rw (e, mark_contract_utility)
        (rw (new_utility_complete c laws k ctr contract fc gfr gfu a l known r)
          (rw (update_utility-lookup ctr fc _ fc.metadata.id) (rw (==_self fc.metadata.id) refl)))
