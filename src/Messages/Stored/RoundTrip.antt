-- ===== src/Messages/Stored/RoundTrip.antt =====
-- What is kept as bytes is read as it was written.
use sia_satellite.Wire.{good, Wire, WireLaws}
use sia_satellite.Prelude.{ℕ, ◌≡◌, refl, List}
use sia_satellite.Messages.Stored.{
  FullAllowance, put_full_allowance, get_full_allowance, FullAllowanceFits, HostAverages,
  put_host_averages, get_host_averages, HostAveragesFits, StoredContract, put_stored_contract,
  get_stored_contract, StoredContractFits,
}

module _ (w : Wire) (laws : WireLaws w) where
  pub full_allowance-Undoes :
      (r : FullAllowance) (rest : List ℕ)
      → FullAllowanceFits r
      → get_full_allowance w (good (put_full_allowance w r rest)) ≡ (r, good rest)
  unfolding put_full_allowance get_full_allowance
  full_allowance-Undoes r rest fits =
      simp
        (
          laws.currency, laws.word, laws.flag, fits.funds, fits.hosts, fits.period,
          fits.renew_window, fits.expected_storage, fits.expected_upload, fits.expected_download,
          fits.min_shards, fits.total_shards, fits.max_rpc_price, fits.max_contract_price,
          fits.max_download_bandwidth_price, fits.max_sector_access_price, fits.max_storage_price,
          fits.max_upload_bandwidth_price, fits.min_max_collateral, fits.block_height_leeway,
        )
        refl

  pub host_averages-Undoes :
      (r : HostAverages) (rest : List ℕ)
      → HostAveragesFits r
      → get_host_averages w (good (put_host_averages w r rest)) ≡ (r, good rest)
  unfolding put_host_averages get_host_averages
  host_averages-Undoes r rest fits =
      simp
        (
          laws.word, laws.currency, fits.num_hosts, fits.duration, fits.storage_price,
          fits.collateral, fits.download_bandwidth_price, fits.upload_bandwidth_price,
          fits.contract_price, fits.base_rpc_price, fits.sector_access_price,
        )
        refl

  pub stored_contract-Undoes :
      (r : StoredContract) (rest : List ℕ)
      → StoredContractFits r
      → get_stored_contract w (good (put_stored_contract w r rest)) ≡ (r, good rest)
  unfolding put_stored_contract get_stored_contract
  stored_contract-Undoes r rest fits =
      simp
        (
          laws.transaction, laws.word, laws.currency, laws.flag, fits.start_height,
          fits.download_spending, fits.fund_account_spending, fits.account_balance_cost,
          fits.fund_account_cost, fits.update_price_table_cost, fits.storage_spending,
          fits.upload_spending, fits.total_cost, fits.contract_fee, fits.txn_fee, fits.siafund_fee,
          fits.last_oos_err,
        )
        refl
