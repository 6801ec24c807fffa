-- ===== src/Messages/Terms.antt =====
-- modules/provider.go, and the prices and sizes that the requests of provider/encoding.go share. A `put`
-- is an EncodeTo and a `get` a DecodeFrom; the prices and sizes, which the program writes out in each
-- request in the same order, are one record.
pub mod RoundTrip
use sia_satellite.Wire.{put, Wire, State, ◌>>=◌, pure, put_list, IsKey, IsWord, IsCurrency}
use sia_satellite.Prelude.{ℕ, Bool, List}

pub record Terms : Type 0 where
  pub hosts : ℕ
  pub period : ℕ
  pub renew_window : ℕ
  pub storage : ℕ
  pub upload : ℕ
  pub download : ℕ
  pub min_shards : ℕ
  pub total_shards : ℕ
  pub max_rpc_price : ℕ
  pub max_contract_price : ℕ
  pub max_download_price : ℕ
  pub max_upload_price : ℕ
  pub max_storage_price : ℕ
  pub max_sector_access_price : ℕ
  pub min_max_collateral : ℕ
  pub block_height_leeway : ℕ
  pub upload_packing : Bool

unfoldable pub put_terms : Wire → Terms → List ℕ → List ℕ
put_terms w r rest = put w.word r.hosts (
    put w.word r.period (
      put w.word r.renew_window (
        put w.word r.storage (
          put w.word r.upload (
            put w.word r.download (
              put w.word r.min_shards (
                put w.word r.total_shards (
                  put w.currency r.max_rpc_price (
                    put w.currency r.max_contract_price (
                      put w.currency r.max_download_price (
                        put w.currency r.max_upload_price (
                          put w.currency r.max_storage_price (
                            put w.currency r.max_sector_access_price (
                              put w.currency r.min_max_collateral (
                                put w.word r.block_height_leeway
                                  (put w.flag r.upload_packing rest))))))))))))))))

unfoldable pub get_terms : Wire → State Terms
get_terms w = do
  hosts ← w.word.get
  period ← w.word.get
  renew_window ← w.word.get
  storage ← w.word.get
  upload ← w.word.get
  download ← w.word.get
  min_shards ← w.word.get
  total_shards ← w.word.get
  max_rpc_price ← w.currency.get
  max_contract_price ← w.currency.get
  max_download_price ← w.currency.get
  max_upload_price ← w.currency.get
  max_storage_price ← w.currency.get
  max_sector_access_price ← w.currency.get
  min_max_collateral ← w.currency.get
  block_height_leeway ← w.word.get
  upload_packing ← w.flag.get
  pure (record {
    hosts = hosts;
    period = period;
    renew_window = renew_window;
    storage = storage;
    upload = upload;
    download = download;
    min_shards = min_shards;
    total_shards = total_shards;
    max_rpc_price = max_rpc_price;
    max_contract_price = max_contract_price;
    max_download_price = max_download_price;
    max_upload_price = max_upload_price;
    max_storage_price = max_storage_price;
    max_sector_access_price = max_sector_access_price;
    min_max_collateral = min_max_collateral;
    block_height_leeway = block_height_leeway;
    upload_packing = upload_packing;
  })

pub record TermsFits (r : Terms) : Type 0 where
  pub hosts : IsWord r.hosts
  pub period : IsWord r.period
  pub renew_window : IsWord r.renew_window
  pub storage : IsWord r.storage
  pub upload : IsWord r.upload
  pub download : IsWord r.download
  pub min_shards : IsWord r.min_shards
  pub total_shards : IsWord r.total_shards
  pub max_rpc_price : IsCurrency r.max_rpc_price
  pub max_contract_price : IsCurrency r.max_contract_price
  pub max_download_price : IsCurrency r.max_download_price
  pub max_upload_price : IsCurrency r.max_upload_price
  pub max_storage_price : IsCurrency r.max_storage_price
  pub max_sector_access_price : IsCurrency r.max_sector_access_price
  pub min_max_collateral : IsCurrency r.min_max_collateral
  pub block_height_leeway : IsWord r.block_height_leeway

pub record ContractMetadata : Type 0 where
  pub id : ℕ
  pub host_key : ℕ
  pub start_height : ℕ
  pub renewed_from : ℕ
  pub upload_spending : ℕ
  pub download_spending : ℕ
  pub fund_account_spending : ℕ
  pub contract_price : ℕ
  pub total_cost : ℕ
  pub revision : ℕ

unfoldable pub put_contract_metadata : Wire → ContractMetadata → List ℕ → List ℕ
put_contract_metadata w r rest = put w.key r.id (
    put w.key r.host_key (
      put w.word r.start_height (
        put w.key r.renewed_from (
          put w.currency r.upload_spending (
            put w.currency r.download_spending (
              put w.currency r.fund_account_spending (
                put w.currency r.contract_price
                  (put w.currency r.total_cost (put w.revision r.revision rest)))))))))

unfoldable pub get_contract_metadata : Wire → State ContractMetadata
get_contract_metadata w = do
  id ← w.key.get
  host_key ← w.key.get
  start_height ← w.word.get
  renewed_from ← w.key.get
  upload_spending ← w.currency.get
  download_spending ← w.currency.get
  fund_account_spending ← w.currency.get
  contract_price ← w.currency.get
  total_cost ← w.currency.get
  revision ← w.revision.get
  pure (record {
    id = id;
    host_key = host_key;
    start_height = start_height;
    renewed_from = renewed_from;
    upload_spending = upload_spending;
    download_spending = download_spending;
    fund_account_spending = fund_account_spending;
    contract_price = contract_price;
    total_cost = total_cost;
    revision = revision;
  })

pub record ContractMetadataFits (r : ContractMetadata) : Type 0 where
  pub id : IsKey r.id
  pub host_key : IsKey r.host_key
  pub start_height : IsWord r.start_height
  pub renewed_from : IsKey r.renewed_from
  pub upload_spending : IsCurrency r.upload_spending
  pub download_spending : IsCurrency r.download_spending
  pub fund_account_spending : IsCurrency r.fund_account_spending
  pub contract_price : IsCurrency r.contract_price
  pub total_cost : IsCurrency r.total_cost

pub record ExtendedContract : Type 0 where
  pub revision : ℕ
  pub renter_signature : ℕ
  pub host_signature : ℕ
  pub start_height : ℕ
  pub contract_price : ℕ
  pub total_cost : ℕ
  pub upload_spending : ℕ
  pub download_spending : ℕ
  pub fund_account_spending : ℕ
  pub renewed_from : ℕ

unfoldable pub put_extended_contract : Wire → ExtendedContract → List ℕ → List ℕ
put_extended_contract w r rest = put w.revision r.revision (
    put w.signature r.renter_signature (
      put w.signature r.host_signature (
        put w.word r.start_height (
          put w.currency r.contract_price (
            put w.currency r.total_cost (
              put w.currency r.upload_spending (
                put w.currency r.download_spending
                  (put w.currency r.fund_account_spending (put w.key r.renewed_from rest)))))))))

-- ExtendedContractSet
unfoldable pub put_extended_contract_set : Wire → List ExtendedContract → List ℕ → List ℕ
put_extended_contract_set w ecs rest = put_list w (put_extended_contract w) ecs rest
