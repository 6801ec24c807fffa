-- ===== src/Gouging/Examples.antt =====
-- The theorems on gouging.go at a concrete allowance, host and price table.
use sia_satellite.Prelude.{◌^◌, ◌≡◌, refl, ◌↔◌, true, ◌||◌, some, arith, is_some}
use sia_satellite.Currency.{currency128, currency128-CurrencyLaws}
use sia_satellite.Gouging.{
  height_out_of_range, ok, err, Allowance, HostSettings, PriceTable, Constants,
}
use sia_satellite.Gouging.PriceTables.{check_block_height, check_gouging}
use sia_satellite.Gouging.Verdict.{
  SettingsFair, TableFair, check_gouging_exact, check_block_height_wraps,
}

abbrev pub constants : Constants
constants = record { sector_size = 2 ^ 22; hundred_nanosiacoins = 10 ^ 17 }

abbrev pub allowance : Allowance
allowance = record {
  hosts = 50;
  period = 4032;
  renew_window = 2016;
  max_rpc_price = 10 ^ 18;
  max_contract_price = 10 ^ 24;
  max_download_bandwidth_price = 10 ^ 27;
  max_sector_access_price = 10 ^ 20;
  max_storage_price = 10 ^ 15;
  max_upload_bandwidth_price = 10 ^ 27;
  min_max_collateral = 10 ^ 24;
  block_height_leeway = 3;
}

abbrev pub settings : HostSettings
settings = record {
  base_rpc_price = 1;
  download_bandwidth_price = 100;
  upload_bandwidth_price = 10;
  sector_access_price = 1;
  storage_price = 5;
  contract_price = 1000;
  max_collateral = 10 ^ 26;
  max_duration = 25920;
  window_size = 144;
}

abbrev pub price_table : PriceTable
price_table = record {
  init_base_cost = 1;
  contract_price = 1000;
  write_store_cost = 5;
  max_collateral = 10 ^ 26;
  read_length_cost = 1;
  write_length_cost = 1;
  account_balance_cost = 1;
  fund_account_cost = 1;
  update_price_table_cost = 1;
  has_sector_base_cost = 1;
  memory_time_cost = 1;
  drop_sectors_base_cost = 1;
  drop_sectors_unit_cost = 1;
  swap_sector_base_cost = 1;
  subscription_memory_cost = 1;
  subscription_notification_cost = 1;
  latest_revision_cost = 1000;
  renew_contract_cost = 1;
  revision_base_cost = 0;
  host_block_height = 100;
  txn_fee_max_recommended = 4;
  txn_fee_min_recommended = 2;
  read_base_cost = 7;
  write_base_cost = 9;
  upload_bandwidth_cost = 10;
  download_bandwidth_cost = 100;
  max_duration = 25920;
  window_size = 144;
}

check_gouging_exact_example :
    (check_gouging currency128 constants allowance 100 (some settings) (some price_table) 3 ≡ ok)
    ↔ (((is_some (some settings) || is_some (some price_table)) ≡ true)
        × SettingsFair allowance (some settings)
        × TableFair constants allowance 100 3 (some price_table))
check_gouging_exact_example =
    check_gouging_exact currency128 currency128-CurrencyLaws constants allowance 100 (some settings)
      (some price_table) 3

check_block_height_wraps_example :
    check_block_height allowance 2 (record price_table { host_block_height = 2 }) ok
    ≡ err height_out_of_range
check_block_height_wraps_example =
    check_block_height_wraps allowance 2 (record price_table { host_block_height = 2 }) ok
      (omega arith) (omega arith) refl
