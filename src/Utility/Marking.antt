-- ===== src/Utility/Marking.antt =====
-- modules/manager/contractor/utility.go, and `managedCheckHostScore`, `managedHostInHostDBCheck` and
-- `managedUpdateContractUtility`: a contract is marked with the outcome of all checks.
use sia_satellite.Prelude.{
  ℕ, Bool, true, not, ◌&&◌, ◌||◌, Option, none, some, ltb, leb, ◌==◌, if◌then◌else◌, ◌>>=◌,
}
use sia_satellite.Prelude.Maps.{lookup}
use sia_satellite.Currency.{Currency}
use sia_satellite.Gouging.{Constants}
use sia_satellite.Utility.{
  ContractUtility, RenterContract, FileContract, ScannedHost, Contractor, useless, renew_only,
  critical_utility_checks,
}
use sia_satellite.Prelude.Maps

-- utilityUpdateStatus
pub data UpdateStatus : Type 0 where
  no_update suggested_update necessary_update : UpdateStatus

pub data MarkError : Type 0 where
  not_acquired renter_not_found host_db_failure no_hosts update_failed : MarkError

-- A threshold of zero sets no limit.
abbrev pub misses : ℕ → ℕ → Bool
misses score min_score = not (min_score == 0) && ltb score min_score

-- `managedCheckHostScore`
unfoldable pub check_host_score : ContractUtility → ℕ → ℕ → ℕ → ContractUtility × UpdateStatus
check_host_score u score min_score_gfr min_score_gfu =
    if leb score 1 || misses score min_score_gfr
    then (useless u, if leb score 1 then necessary_update else suggested_update)
    else if misses score min_score_gfu
    then (renew_only u, necessary_update)
    else (u, no_update)

-- `managedHostInHostDBCheck`: the host, if it is there and not filtered.
unfoldable pub host_in_host_db_check : Contractor → RenterContract → Option ScannedHost
host_in_host_db_check ctr contract = elim (ctr.db_host contract.host_public_key) [
  | none ↦ none
  | some host ↦ if host.filtered then none else some host
]

abbrev pub with_utility : FileContract → ContractUtility → FileContract
with_utility fc u = record fc { metadata = record (fc.metadata) { utility = u } }

-- `managedUpdateContractUtility` and `FileContract.UpdateUtility`: the header changes even when the
-- database cannot be written.
unfoldable pub update_utility :
    Contractor → FileContract → ContractUtility → Contractor × Option MarkError
update_utility ctr fc u = (
  record ctr { contracts = Maps.insert fc.metadata.id (with_utility fc u) ctr.contracts },
  if ctr.save_fails fc.metadata.id then some update_failed else none,
)

-- What `managedMarkContractUtility` updates the acquired contract with: `some none` is to leave it.
abbrev pub by_score : ContractUtility × UpdateStatus → ContractUtility
by_score (v, no_update) = record v { good_for_upload = true; good_for_renew = true }
by_score (v, suggested_update) = v
by_score (v, necessary_update) = v

module _ (c : Currency) (k : Constants) (ctr : Contractor) where
  unfoldable pub new_utility :
      RenterContract → FileContract → ℕ → ℕ → Option (Option ContractUtility)
  unfolding host_in_host_db_check critical_utility_checks check_host_score
  new_utility contract fc min_score_gfr min_score_gfu =
      if fc.metadata.utility.locked then some none else elim (host_in_host_db_check ctr contract) [
        | none ↦ some (some (useless contract.utility))
        | some host ↦ (do
          verdict ← critical_utility_checks c k ctr fc host
          if verdict.1
              then some (some verdict.0)
              else some (elim (ctr.score_breakdown host) [
                | none ↦ none
                | some score ↦
                    some (
                      by_score
                        (check_host_score contract.utility score min_score_gfr min_score_gfu))
              ]))
      ]

  -- `managedMarkContractUtility`
  unfoldable pub mark_contract_utility :
      RenterContract → ℕ → ℕ → Option (Contractor × Option MarkError)
  unfolding new_utility update_utility
  mark_contract_utility contract min_score_gfr min_score_gfu =
      elim (lookup contract.id ctr.contracts) [
        | none ↦ some (ctr, some not_acquired)
        | some fc ↦ (do
          u ← new_utility contract fc min_score_gfr min_score_gfu
          some (elim u [ none ↦ (ctr, none) | some v ↦ update_utility ctr fc v ]))
      ]
