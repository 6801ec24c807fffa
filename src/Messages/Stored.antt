-- ===== src/Messages/Stored.antt =====
-- modules/manager.go and contractset/contract.go: what the manager keeps in its database as bytes.
pub mod RoundTrip
use sia_satellite.Wire.{put, Wire, State, ◌>>=◌, pure, IsWord, IsCurrency}
use sia_satellite.Prelude.{ℕ, Bool, List}

pub record FullAllowance : Type 0 where
  pub funds : ℕ
  pub hosts : ℕ
  pub period : ℕ
  pub renew_window : ℕ
  pub expected_storage : ℕ
  pub expected_upload : ℕ
  pub expected_download : ℕ
  pub min_shards : ℕ
  pub total_shards : ℕ
  pub max_rpc_price : ℕ
  pub max_contract_price : ℕ
  pub max_download_bandwidth_price : ℕ
  pub max_sector_access_price : ℕ
  pub max_storage_price : ℕ
  pub max_upload_bandwidth_price : ℕ
  pub min_max_collateral : ℕ
  pub block_height_leeway : ℕ
  pub upload_packing : Bool

unfoldable pub put_full_allowance : Wire → FullAllowance → List ℕ → List ℕ
put_full_allowance w r rest = put w.currency r.funds (
    put w.word r.hosts (
      put w.word r.period (
        put w.word r.renew_window (
          put w.word r.expected_storage (
            put w.word r.expected_upload (
              put w.word r.expected_download (
                put w.word r.min_shards (
                  put w.word r.total_shards (
                    put w.currency r.max_rpc_price (
                      put w.currency r.max_contract_price (
                        put w.currency r.max_download_bandwidth_price (
                          put w.currency r.max_sector_access_price (
                            put w.currency r.max_storage_price (
                              put w.currency r.max_upload_bandwidth_price (
                                put w.currency r.min_max_collateral (
                                  put w.word r.block_height_leeway
                                    (put w.flag r.upload_packing rest)))))))))))))))))

unfoldable pub get_full_allowance : Wire → State FullAllowance
get_full_allowance w = do
  funds ← w.currency.get
  hosts ← w.word.get
  period ← w.word.get
  renew_window ← w.word.get
  expected_storage ← w.word.get
  expected_upload ← w.word.get
  expected_download ← w.word.get
  min_shards ← w.word.get
  total_shards ← w.word.get
  max_rpc_price ← w.currency.get
  max_contract_price ← w.currency.get
  max_download_bandwidth_price ← w.currency.get
  max_sector_access_price ← w.currency.get
  max_storage_price ← w.currency.get
  max_upload_bandwidth_price ← w.currency.get
  min_max_collateral ← w.currency.get
  block_height_leeway ← w.word.get
  upload_packing ← w.flag.get
  pure (record {
    funds = funds;
    hosts = hosts;
    period = period;
    renew_window = renew_window;
    expected_storage = expected_storage;
    expected_upload = expected_upload;
    expected_download = expected_download;
    min_shards = min_shards;
    total_shards = total_shards;
    max_rpc_price = max_rpc_price;
    max_contract_price = max_contract_price;
    max_download_bandwidth_price = max_download_bandwidth_price;
    max_sector_access_price = max_sector_access_price;
    max_storage_price = max_storage_price;
    max_upload_bandwidth_price = max_upload_bandwidth_price;
    min_max_collateral = min_max_collateral;
    block_height_leeway = block_height_leeway;
    upload_packing = upload_packing;
  })

pub record FullAllowanceFits (r : FullAllowance) : Type 0 where
  pub funds : IsCurrency r.funds
  pub hosts : IsWord r.hosts
  pub period : IsWord r.period
  pub renew_window : IsWord r.renew_window
  pub expected_storage : IsWord r.expected_storage
  pub expected_upload : IsWord r.expected_upload
  pub expected_download : IsWord r.expected_download
  pub min_shards : IsWord r.min_shards
  pub total_shards : IsWord r.total_shards
  pub max_rpc_price : IsCurrency r.max_rpc_price
  pub max_contract_price : IsCurrency r.max_contract_price
  pub max_download_bandwidth_price : IsCurrency r.max_download_bandwidth_price
  pub max_sector_access_price : IsCurrency r.max_sector_access_price
  pub max_storage_price : IsCurrency r.max_storage_price
  pub max_upload_bandwidth_price : IsCurrency r.max_upload_bandwidth_price
  pub min_max_collateral : IsCurrency r.min_max_collateral
  pub block_height_leeway : IsWord r.block_height_leeway

pub record HostAverages : Type 0 where
  pub num_hosts : ℕ
  pub duration : ℕ
  pub storage_price : ℕ
  pub collateral : ℕ
  pub download_bandwidth_price : ℕ
  pub upload_bandwidth_price : ℕ
  pub contract_price : ℕ
  pub base_rpc_price : ℕ
  pub sector_access_price : ℕ

unfoldable pub put_host_averages : Wire → HostAverages → List ℕ → List ℕ
put_host_averages w r rest = put w.word r.num_hosts (
    put w.word r.duration (
      put w.currency r.storage_price (
        put w.currency r.collateral (
          put w.currency r.download_bandwidth_price (
            put w.currency r.upload_bandwidth_price (
              put w.currency r.contract_price
                (put w.currency r.base_rpc_price (put w.currency r.sector_access_price rest))))))))

unfoldable pub get_host_averages : Wire → State HostAverages
get_host_averages w = do
  num_hosts ← w.word.get
  duration ← w.word.get
  storage_price ← w.currency.get
  collateral ← w.currency.get
  download_bandwidth_price ← w.currency.get
  upload_bandwidth_price ← w.currency.get
  contract_price ← w.currency.get
  base_rpc_price ← w.currency.get
  sector_access_price ← w.currency.get
  pure (record {
    num_hosts = num_hosts;
    duration = duration;
    storage_price = storage_price;
    collateral = collateral;
    download_bandwidth_price = download_bandwidth_price;
    upload_bandwidth_price = upload_bandwidth_price;
    contract_price = contract_price;
    base_rpc_price = base_rpc_price;
    sector_access_price = sector_access_price;
  })

pub record HostAveragesFits (r : HostAverages) : Type 0 where
  pub num_hosts : IsWord r.num_hosts
  pub duration : IsWord r.duration
  pub storage_price : IsCurrency r.storage_price
  pub collateral : IsCurrency r.collateral
  pub download_bandwidth_price : IsCurrency r.download_bandwidth_price
  pub upload_bandwidth_price : IsCurrency r.upload_bandwidth_price
  pub contract_price : IsCurrency r.contract_price
  pub base_rpc_price : IsCurrency r.base_rpc_price
  pub sector_access_price : IsCurrency r.sector_access_price

pub record StoredContract : Type 0 where
  pub transaction : ℕ
  pub start_height : ℕ
  pub download_spending : ℕ
  pub fund_account_spending : ℕ
  pub account_balance_cost : ℕ
  pub fund_account_cost : ℕ
  pub update_price_table_cost : ℕ
  pub storage_spending : ℕ
  pub upload_spending : ℕ
  pub total_cost : ℕ
  pub contract_fee : ℕ
  pub txn_fee : ℕ
  pub siafund_fee : ℕ
  pub good_for_upload : Bool
  pub good_for_renew : Bool
  pub bad_contract : Bool
  pub last_oos_err : ℕ
  pub locked : Bool

unfoldable pub put_stored_contract : Wire → StoredContract → List ℕ → List ℕ
put_stored_contract w r rest = put w.transaction r.transaction (
    put w.word r.start_height (
      put w.currency r.download_spending (
        put w.currency r.fund_account_spending (
          put w.currency r.account_balance_cost (
            put w.currency r.fund_account_cost (
              put w.currency r.update_price_table_cost (
                put w.currency r.storage_spending (
                  put w.currency r.upload_spending (
                    put w.currency r.total_cost (
                      put w.currency r.contract_fee (
                        put w.currency r.txn_fee (
                          put w.currency r.siafund_fee (
                            put w.flag r.good_for_upload (
                              put w.flag r.good_for_renew (
                                put w.flag r.bad_contract (
                                  put w.word r.last_oos_err
                                    (put w.flag r.locked rest)))))))))))))))))

unfoldable pub get_stored_contract : Wire → State StoredContract
get_stored_contract w = do
  transaction ← w.transaction.get
  start_height ← w.word.get
  download_spending ← w.currency.get
  fund_account_spending ← w.currency.get
  account_balance_cost ← w.currency.get
  fund_account_cost ← w.currency.get
  update_price_table_cost ← w.currency.get
  storage_spending ← w.currency.get
  upload_spending ← w.currency.get
  total_cost ← w.currency.get
  contract_fee ← w.currency.get
  txn_fee ← w.currency.get
  siafund_fee ← w.currency.get
  good_for_upload ← w.flag.get
  good_for_renew ← w.flag.get
  bad_contract ← w.flag.get
  last_oos_err ← w.word.get
  locked ← w.flag.get
  pure (record {
    transaction = transaction;
    start_height = start_height;
    download_spending = download_spending;
    fund_account_spending = fund_account_spending;
    account_balance_cost = account_balance_cost;
    fund_account_cost = fund_account_cost;
    update_price_table_cost = update_price_table_cost;
    storage_spending = storage_spending;
    upload_spending = upload_spending;
    total_cost = total_cost;
    contract_fee = contract_fee;
    txn_fee = txn_fee;
    siafund_fee = siafund_fee;
    good_for_upload = good_for_upload;
    good_for_renew = good_for_renew;
    bad_contract = bad_contract;
    last_oos_err = last_oos_err;
    locked = locked;
  })

pub record StoredContractFits (r : StoredContract) : Type 0 where
  pub start_height : IsWord r.start_height
  pub download_spending : IsCurrency r.download_spending
  pub fund_account_spending : IsCurrency r.fund_account_spending
  pub account_balance_cost : IsCurrency r.account_balance_cost
  pub fund_account_cost : IsCurrency r.fund_account_cost
  pub update_price_table_cost : IsCurrency r.update_price_table_cost
  pub storage_spending : IsCurrency r.storage_spending
  pub upload_spending : IsCurrency r.upload_spending
  pub total_cost : IsCurrency r.total_cost
  pub contract_fee : IsCurrency r.contract_fee
  pub txn_fee : IsCurrency r.txn_fee
  pub siafund_fee : IsCurrency r.siafund_fee
  pub last_oos_err : IsWord r.last_oos_err
