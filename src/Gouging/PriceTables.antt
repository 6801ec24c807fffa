-- ===== src/Gouging/PriceTables.antt =====
-- modules/gouging.go: the checks of a price table.
use sia_satellite.Prelude.{
  ℕ, ◌+◌, ◌-◌, ◌/◌, ◌%◌, ◌^◌, Bool, not, ◌&&◌, Option, none, some, ltb, leb, ◌==◌, if◌then◌else◌,
  ◌>>=◌, is_some,
}
use sia_satellite.Currency.{Currency}
use sia_satellite.Gouging.{
  Error, nothing_to_check, rpc_over_max, storage_over_max, contract_over_max, zero_collateral,
  collateral_below_min, read_length, write_length, account_balance, fund_account,
  update_price_table, has_sector, memory_time, drop_sectors_base, drop_sectors_unit, swap_sector,
  subscription_memory, subscription_notification, latest_revision, renew_contract, revision_base,
  height_behind, height_out_of_range, fee_max_over, fee_min_over, download_overflow,
  download_over_max, upload_overflow, upload_over_max, Check, ok, err, refuse, after, with_value,
  Allowance, HostSettings, PriceTable, Constants, u64_limit, check_contract_gouging_rhpv2,
  check_contract_gouging_rhpv3, over, check_price_gouging_hs,
}

-- The costs that hosts do not use, expected to be one hasting at most.
unfoldable pub check_unit_costs : PriceTable → Check → Check
check_unit_costs pt rest = refuse (ltb 1 pt.read_length_cost) read_length (
    refuse (ltb 1 pt.write_length_cost) write_length (
      refuse (ltb 1 pt.account_balance_cost) account_balance (
        refuse (ltb 1 pt.fund_account_cost) fund_account (
          refuse (ltb 1 pt.update_price_table_cost) update_price_table (
            refuse (ltb 1 pt.has_sector_base_cost) has_sector (
              refuse (ltb 1 pt.memory_time_cost) memory_time (
                refuse (ltb 1 pt.drop_sectors_base_cost) drop_sectors_base (
                  refuse (ltb 1 pt.drop_sectors_unit_cost) drop_sectors_unit (
                    refuse (ltb 1 pt.swap_sector_base_cost) swap_sector (
                      refuse (ltb 1 pt.subscription_memory_cost) subscription_memory (
                        refuse (ltb 1 pt.subscription_notification_cost) subscription_notification
                          rest)))))))))))

-- The block height of the host, in uint64 arithmetic.
unfoldable pub check_block_height : Allowance → ℕ → PriceTable → Check → Check
check_block_height a height pt rest =
    let lowest = (height + u64_limit - a.block_height_leeway) % u64_limit in
    let highest = (height + a.block_height_leeway) % u64_limit in
    refuse (ltb pt.host_block_height height) height_behind (
      refuse (not (leb lowest pt.host_block_height && leb pt.host_block_height highest))
        height_out_of_range rest)

-- The fees that the host recommends, against five times the fee that the wallet recommends.
unfoldable pub check_txn_fees : Currency → ℕ → PriceTable → Check
check_txn_fees c txn_fee pt =
    let ordered =
      refuse (ltb pt.txn_fee_max_recommended pt.txn_fee_min_recommended) fee_min_over ok in
    if txn_fee == 0
    then ordered
    else with_value (c.mul64 txn_fee 5)
        λ max_fee. refuse (ltb max_fee pt.txn_fee_max_recommended) fee_max_over ordered

-- `checkPriceGougingPT`
unfoldable pub check_price_gouging_pt :
    Currency → Constants → Allowance → ℕ → ℕ → PriceTable → Check
check_price_gouging_pt c k a height txn_fee pt =
    refuse (over pt.init_base_cost a.max_rpc_price) rpc_over_max (
      refuse (over pt.contract_price a.max_contract_price) contract_over_max (
        refuse (over pt.write_store_cost a.max_storage_price) storage_over_max (
          refuse (pt.max_collateral == 0) zero_collateral (
            refuse (ltb pt.max_collateral a.min_max_collateral) collateral_below_min (
              check_unit_costs pt (
                with_value (c.mul64 a.max_download_bandwidth_price 4096) λ max_revision_cost.
                  refuse (ltb max_revision_cost pt.latest_revision_cost) latest_revision (
                    refuse (ltb k.hundred_nanosiacoins pt.renew_contract_cost) renew_contract (
                      refuse (ltb 0 pt.revision_base_cost) revision_base
                        (check_block_height a height pt (check_txn_fees c txn_fee pt))))))))))

-- A sum or a product that stops at the first overflow, as `x, overflow = ...; if overflow` does.
abbrev pub checked : ℕ × Bool → Option ℕ
checked (v, overflow) = if overflow then none else some v

-- `sectorReadCostRHPv3`; `none` is the flag of an overflow.
unfoldable pub sector_read_cost_rhpv3 : Currency → Constants → PriceTable → Option ℕ
sector_read_cost_rhpv3 c k pt = do
  read ← checked (c.mul64_with_overflow pt.read_length_cost k.sector_size)
  with_base ← checked (c.add_with_overflow read pt.read_base_cost)
  base ← checked (c.add_with_overflow with_base pt.init_base_cost)
  ingress ← checked (c.mul64_with_overflow pt.upload_bandwidth_cost 32)
  egress ← checked (c.mul64_with_overflow pt.download_bandwidth_cost k.sector_size)
  total ← checked (c.add_with_overflow base ingress)
  checked (c.add_with_overflow total egress)

-- `sectorUploadCostRHPv3`
unfoldable pub sector_upload_cost_rhpv3 : Currency → Constants → PriceTable → Option ℕ
sector_upload_cost_rhpv3 c k pt = do
  write ← checked (c.mul64_with_overflow pt.write_length_cost k.sector_size)
  with_base ← checked (c.add_with_overflow write pt.write_base_cost)
  cost ← checked (c.add_with_overflow with_base pt.init_base_cost)
  ingress ← checked (c.mul64_with_overflow pt.upload_bandwidth_cost k.sector_size)
  checked (c.add_with_overflow cost ingress)

-- The price of one TiB in sectors, against its maximum.
unfoldable pub check_per_tib : Currency → Constants → Option ℕ → ℕ → Error → Error → Check
check_per_tib c k sector_price limit overflow too_high = elim sector_price [
  | none ↦ err overflow
  | some price ↦ elim (checked (c.mul64_with_overflow price (2 ^ 40 / k.sector_size))) [
    | none ↦ err overflow
    | some per_tib ↦ refuse (over per_tib limit) too_high ok
  ]
]

-- `checkDownloadGougingRHPv3`
unfoldable pub check_download_gouging_rhpv3 : Currency → Constants → Allowance → PriceTable → Check
check_download_gouging_rhpv3 c k a pt =
    check_per_tib c k (sector_read_cost_rhpv3 c k pt) a.max_download_bandwidth_price
      download_overflow download_over_max

-- `checkUploadGougingRHPv3`
unfoldable pub check_upload_gouging_rhpv3 : Currency → Constants → Allowance → PriceTable → Check
check_upload_gouging_rhpv3 c k a pt =
    check_per_tib c k (sector_upload_cost_rhpv3 c k pt) a.max_upload_bandwidth_price upload_overflow
      upload_over_max

abbrev pub check_settings : Currency → Allowance → Option HostSettings → Check
check_settings c a none = ok
check_settings c a (some hs) =
    after (check_contract_gouging_rhpv2 a hs) (check_price_gouging_hs c a hs)

abbrev pub check_price_table : Currency → Constants → Allowance → ℕ → ℕ → Option PriceTable → Check
check_price_table c k a height txn_fee none = ok
check_price_table c k a height txn_fee (some pt) = after (check_download_gouging_rhpv3 c k a pt) (
    after (check_price_gouging_pt c k a height txn_fee pt)
      (after (check_upload_gouging_rhpv3 c k a pt) (check_contract_gouging_rhpv3 a pt)))

-- `CheckGouging`; a nil pointer is `none`.
unfoldable pub check_gouging :
    Currency → Constants → Allowance → ℕ → Option HostSettings → Option PriceTable → ℕ → Check
check_gouging c k a height hs pt txn_fee =
    if not (is_some hs) && not (is_some pt)
    then err nothing_to_check
    else after (check_settings c a hs) (check_price_table c k a height txn_fee pt)
