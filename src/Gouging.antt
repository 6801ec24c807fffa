-- ===== src/Gouging.antt =====
-- modules/gouging.go: the checks that a host's prices pass before a contract is formed. A check ends
-- well, with an error, or in the panic of a currency operation. The messages of the errors are left
-- out, and `SwapSectorCost().Base`, which core computes, is a field of the price table.
pub mod Examples
pub mod PriceTables
pub mod Fair
pub mod FairTables
pub mod Verdict
pub mod Costs
use sia_satellite.Prelude.{
  ℕ, ◌^◌, Bool, true, false, not, ◌&&◌, Option, none, some, ltb, ◌==◌, if◌then◌else◌,
}
use sia_satellite.Currency.{Currency}

pub data Error : Type 0 where
  nothing_to_check rpc_over_max rpc_too_high sector_access_too_high storage_over_max : Error
  contract_over_max zero_collateral collateral_below_min : Error
  read_length write_length account_balance fund_account update_price_table has_sector : Error
  memory_time drop_sectors_base drop_sectors_unit swap_sector : Error
  subscription_memory subscription_notification latest_revision renew_contract : Error
  revision_base height_behind height_out_of_range fee_max_over fee_min_over : Error
  duration_too_short window_too_large download_overflow download_over_max : Error
  upload_overflow upload_over_max : Error

pub data Check : Type 0 where
  ok : Check
  err : Error → Check
  panicked : Check

-- `if bad { return err }`, and the rest of the function.
unfoldable pub refuse : Bool → Error → Check → Check
refuse true e rest = err e
refuse false e rest = rest

-- `if err = f(); err != nil { return }`, and the rest of the function.
unfoldable pub after : Check → Check → Check
after ok rest = rest
after (err e) rest = err e
after panicked rest = panicked

unfoldable pub with_value : Option ℕ → (ℕ → Check) → Check
with_value none rest = panicked
with_value (some v) rest = rest v

-- modules.Allowance: the fields that the checks read. The prices are hastings, the rest is uint64.
pub record Allowance : Type 0 where
  pub hosts : ℕ
  pub period : ℕ
  pub renew_window : ℕ
  pub max_rpc_price : ℕ
  pub max_contract_price : ℕ
  pub max_download_bandwidth_price : ℕ
  pub max_sector_access_price : ℕ
  pub max_storage_price : ℕ
  pub max_upload_bandwidth_price : ℕ
  pub min_max_collateral : ℕ
  pub block_height_leeway : ℕ

-- rhpv2.HostSettings
pub record HostSettings : Type 0 where
  pub base_rpc_price : ℕ
  pub download_bandwidth_price : ℕ
  pub upload_bandwidth_price : ℕ
  pub sector_access_price : ℕ
  pub storage_price : ℕ
  pub contract_price : ℕ
  pub max_collateral : ℕ
  pub max_duration : ℕ
  pub window_size : ℕ

-- rhpv3.HostPriceTable
pub record PriceTable : Type 0 where
  pub init_base_cost : ℕ
  pub contract_price : ℕ
  pub write_store_cost : ℕ
  pub max_collateral : ℕ
  pub read_length_cost : ℕ
  pub write_length_cost : ℕ
  pub account_balance_cost : ℕ
  pub fund_account_cost : ℕ
  pub update_price_table_cost : ℕ
  pub has_sector_base_cost : ℕ
  pub memory_time_cost : ℕ
  pub drop_sectors_base_cost : ℕ
  pub drop_sectors_unit_cost : ℕ
  pub swap_sector_base_cost : ℕ
  pub subscription_memory_cost : ℕ
  pub subscription_notification_cost : ℕ
  pub latest_revision_cost : ℕ
  pub renew_contract_cost : ℕ
  pub revision_base_cost : ℕ
  pub host_block_height : ℕ
  pub txn_fee_max_recommended : ℕ
  pub txn_fee_min_recommended : ℕ
  pub read_base_cost : ℕ
  pub write_base_cost : ℕ
  pub upload_bandwidth_cost : ℕ
  pub download_bandwidth_cost : ℕ
  pub max_duration : ℕ
  pub window_size : ℕ

-- Constants of core: `rhpv2.SectorSize`, and the value of `types.Siacoins(1).Mul64(100).Div64(1e9)`.
pub record Constants : Type 0 where
  pub sector_size : ℕ
  pub hundred_nanosiacoins : ℕ

abbrev pub u64_limit : ℕ
u64_limit = 2 ^ 64

-- `checkContractGouging`
unfoldable pub check_contract_gouging : ℕ → ℕ → ℕ → ℕ → Check
check_contract_gouging period renew_window max_duration window_size =
    refuse (not (period == 0) && ltb max_duration period) duration_too_short
      (refuse (not (renew_window == 0) && ltb renew_window window_size) window_too_large ok)

-- `checkContractGougingRHPv2`
unfoldable pub check_contract_gouging_rhpv2 : Allowance → HostSettings → Check
check_contract_gouging_rhpv2 a hs =
    check_contract_gouging a.period a.renew_window hs.max_duration hs.window_size

-- `checkContractGougingRHPv3`
unfoldable pub check_contract_gouging_rhpv3 : Allowance → PriceTable → Check
check_contract_gouging_rhpv3 a pt =
    check_contract_gouging a.period a.renew_window pt.max_duration pt.window_size

-- A maximum of zero sets no limit.
abbrev pub over : ℕ → ℕ → Bool
over price limit = not (limit == 0) && ltb limit price

-- `checkPriceGougingHS`
unfoldable pub check_price_gouging_hs : Currency → Allowance → HostSettings → Check
check_price_gouging_hs c a hs = refuse (over hs.base_rpc_price a.max_rpc_price) rpc_over_max (
    with_value (c.mul64 hs.download_bandwidth_price 40000) λ max_base_rpc_price.
      refuse (ltb max_base_rpc_price hs.base_rpc_price) rpc_too_high (
        with_value
          (c.mul64 (if hs.download_bandwidth_price == 0 then 1 else hs.download_bandwidth_price)
            400000)
          λ max_sector_access_price.
            refuse (ltb max_sector_access_price hs.sector_access_price) sector_access_too_high (
              refuse (over hs.storage_price a.max_storage_price) storage_over_max (
                refuse (over hs.contract_price a.max_contract_price) contract_over_max (
                  refuse (hs.max_collateral == 0) zero_collateral (
                    refuse (ltb hs.max_collateral a.min_max_collateral) collateral_below_min
                      ok))))))
