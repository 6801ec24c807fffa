-- ===== src/Utility.antt =====
-- modules/manager/contractor/maintenancechecks.go and uptime.go: the checks that decide whether a
-- contract is used for uploads and renewed. Identifiers and keys are numbers. The host database, the
-- price table that is fetched from the host, and the SQL row of a contract's renter are fields of
-- `Contractor`: what these calls answer while the checks run.
mod Examples
pub mod Marking
pub mod Usable
pub mod Critical
pub mod Marked
pub mod Outcome
pub mod MinScores
use sia_satellite.Prelude.{
  ℕ, ◌+◌, ◌-◌, ◌*◌, ◌%◌, ◌^◌, Bool, true, false, not, ◌||◌, Option, none, some, List, [], ◌∷◌, ltb,
  leb, ◌==◌, if◌then◌else◌, ◌>>=◌, is_some,
}
use sia_satellite.Prelude.Maps.{Map, lookup}
use sia_satellite.Currency.{Currency}
use sia_satellite.Gouging.{
  Check, ok, err, panicked, Allowance, HostSettings, PriceTable, Constants, u64_limit,
}
use sia_satellite.Gouging.PriceTables.{check_gouging}

-- modules.ContractUtility
pub record ContractUtility : Type 0 where
  pub good_for_upload : Bool
  pub good_for_renew : Bool
  pub bad_contract : Bool
  pub last_oos_err : ℕ
  pub locked : Bool

-- modules.RenterContract: the fields that the checks read.
pub record RenterContract : Type 0 where
  pub id : ℕ
  pub host_public_key : ℕ
  pub end_height : ℕ
  pub renter_funds : ℕ
  pub total_cost : ℕ
  pub utility : ContractUtility

-- contractset.FileContract: its header, and the number of its last revision.
pub record FileContract : Type 0 where
  pub metadata : RenterContract
  pub revision_number : ℕ

-- modules.HostDBEntry: the fields that the checks read. A scan is told by its success.
pub record ScannedHost : Type 0 where
  pub filtered : Bool
  pub scan_history : List Bool
  pub settings : HostSettings

pub record Contractor : Type 0 where
  pub height : ℕ
  pub renewed_to : Map ℕ
  pub renters : Map Allowance
  pub contracts : Map FileContract
  pub db_renter : ℕ → Option ℕ
  pub renter_by_contract_id : ℕ → Option ℕ
  pub db_host : ℕ → Option ScannedHost
  pub score_breakdown : ScannedHost → Option ℕ
  pub random_hosts : ℕ → Allowance → Option (List ScannedHost)
  pub fetch_price_table : ScannedHost → Option PriceTable
  pub recommended_fee : ℕ
  pub save_fails : ℕ → Bool

-- A check gives the utility, and whether the contract must be updated with it.
abbrev pub Verdict : Type 0
Verdict = ContractUtility × Bool

-- `u.GoodForUpload = false; u.GoodForRenew = false`
abbrev pub useless : ContractUtility → ContractUtility
useless u = record u { good_for_upload = false; good_for_renew = false }

-- `u.GoodForUpload = false; u.GoodForRenew = true`
abbrev pub renew_only : ContractUtility → ContractUtility
renew_only u = record u { good_for_upload = false; good_for_renew = true }

-- `badContractCheck`
unfoldable pub bad_contract_check : ContractUtility → Verdict
bad_contract_check u = if u.bad_contract then (useless u, true) else (u, false)

abbrev pub max_revision : ℕ
max_revision = 2 ^ 64 - 1

-- `maxRevisionCheck`
unfoldable pub max_revision_check : ContractUtility → ℕ → Verdict
max_revision_check u revision_number =
    if revision_number == max_revision
    then (record u { good_for_upload = false; good_for_renew = false; locked = true }, true)
    else (u, false)

-- `renewedCheck`
unfoldable pub renewed_check : ContractUtility → Bool → Verdict
renewed_check u renewed = if renewed then (useless u, true) else (u, false)

-- `isOffline`: the last two scans, which are the end of the history.
unfoldable pub is_offline : List Bool → Bool
is_offline [] = true
is_offline (a ∷ []) = not a
is_offline (a ∷ b ∷ []) = not (b || a)
is_offline (a ∷ b ∷ c ∷ scans) = is_offline (b ∷ c ∷ scans)

-- `offlineCheck`
unfoldable pub offline_check : RenterContract → ScannedHost → Verdict
offline_check contract host =
    if is_offline host.scan_history
    then (useless contract.utility, true)
    else (contract.utility, false)

-- `upForRenewalCheck`: the sum of two uint64 wraps.
unfoldable pub up_for_renewal_check : RenterContract → ℕ → ℕ → Verdict
up_for_renewal_check contract renew_window block_height =
    if leb contract.end_height ((block_height + renew_window) % u64_limit)
    then (renew_only contract.utility, true)
    else (contract.utility, false)

-- The 53-bit float64 nearest to a fraction is below the float64 of 0.05 when the fraction is below
-- the midpoint of that float64 and its predecessor, which is this number of 1 / 2^58.
abbrev pub upload_threshold : ℕ
upload_threshold = 14411518807585587

-- `percentRemaining < minContractFundUploadThreshold`
abbrev pub below_threshold : ℕ → ℕ → Bool
below_threshold renter_funds total_cost =
    ltb (2 ^ 58 * renter_funds) (upload_threshold * total_cost)

-- The price of storing one sector for a period, and of its upload and download. The factor of
-- `Mul` is a uint64, so this is `Mul64`.
unfoldable pub sector_price : Currency → ℕ → HostSettings → ℕ → Option ℕ
sector_price c sector_size hs period = do
  storage ← c.mul64 hs.storage_price ((sector_size * period) % u64_limit)
  upload ← c.mul64 hs.upload_bandwidth_price sector_size
  download ← c.mul64 hs.download_bandwidth_price sector_size
  bandwidth ← c.add upload download
  c.add storage bandwidth

-- `sufficientFundsCheck`; `none` is the panic of a currency operation, or of `SetFrac` on a zero
-- denominator.
unfoldable pub sufficient_funds_check :
    Currency → ℕ → RenterContract → ScannedHost → ℕ → Option Verdict
sufficient_funds_check c sector_size contract host period = do
  price ← sector_price c sector_size host.settings period
  if contract.total_cost == 0 then none else (do
    needed ← c.mul64 price 3
    some (
        if ltb contract.renter_funds needed
          || below_threshold contract.renter_funds contract.total_cost
        then (renew_only contract.utility, true)
        else (contract.utility, false)))

-- modules.BlocksPerWeek
abbrev pub oos_retry_interval : ℕ
oos_retry_interval = 7 * (24 * 6)

-- `outOfStorageCheck`: the difference of two uint64 wraps.
unfoldable pub out_of_storage_check : RenterContract → ℕ → Verdict
out_of_storage_check contract block_height =
    if contract.utility.last_oos_err == 0
    then (contract.utility, false)
    else if leb ((block_height + u64_limit - contract.utility.last_oos_err) % u64_limit)
        oos_retry_interval
    then (renew_only contract.utility, true)
    else (contract.utility, false)

-- `gougingCheck`, with the answers of the calls that it makes.
abbrev pub gouging_verdict : ContractUtility → Check → Option Verdict
gouging_verdict u ok = some (u, false)
gouging_verdict u (err e) = some (useless u, true)
gouging_verdict u panicked = none

unfoldable pub gouging_check :
    Currency → Constants → Contractor → RenterContract → ScannedHost → ℕ → Option Verdict
gouging_check c k ctr contract host block_height =
    elim (ctr.renter_by_contract_id contract.id >>= λ rpk. lookup rpk ctr.renters) [
      | none ↦ some (contract.utility, false)
      | some allowance ↦ elim (ctr.fetch_price_table host) [
        | none ↦ some (contract.utility, false)
        | some pt ↦ gouging_verdict contract.utility (
            check_gouging c k allowance block_height (some host.settings) (some pt)
              ctr.recommended_fee)
      ]
    ]

-- `managedFindRenter` of database.go
unfoldable pub find_renter : Contractor → ℕ → Option Allowance
find_renter ctr id = ctr.db_renter id >>= λ rpk. lookup rpk ctr.renters

-- `if needsUpdate { return u, needsUpdate }`, and the next checks.
unfoldable pub or_next : Option Verdict → Option Verdict → Option Verdict
or_next none rest = none
or_next (some (u, true)) rest = some (u, true)
or_next (some (u, false)) rest = rest

abbrev pub no_utility : ContractUtility
no_utility = record {
  good_for_upload = false;
  good_for_renew = false;
  bad_contract = false;
  last_oos_err = 0;
  locked = false;
}

-- `managedCriticalUtilityChecks`
unfoldable pub critical_utility_checks :
    Currency → Constants → Contractor → FileContract → ScannedHost → Option Verdict
unfolding find_renter
critical_utility_checks c k ctr fc host =
    let contract = fc.metadata in
    let u = contract.utility in
    elim (find_renter ctr contract.id) [
      | none ↦ some (no_utility, false)
      | some allowance ↦
          or_next (some (renewed_check u (is_some (lookup contract.id ctr.renewed_to)))) (
            or_next (some (max_revision_check u fc.revision_number)) (
              or_next (some (bad_contract_check u)) (
                or_next (some (offline_check contract host)) (
                  or_next (some (up_for_renewal_check contract allowance.renew_window ctr.height)) (
                    or_next (sufficient_funds_check c k.sector_size contract host allowance.period)
                      (or_next (some (out_of_storage_check contract ctr.height)) (
                        or_next (gouging_check c k ctr contract host ctr.height)
                          (some (u, false)))))))))
    ]
