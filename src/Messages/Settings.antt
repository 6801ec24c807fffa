-- ===== src/Messages/Settings.antt =====
-- provider/encoding.go: the settings of a renter, with keys and terms that are there only if the
-- settings need them.
pub mod RoundTrip
use sia_satellite.Wire.{put, Wire, State, ◌>>=◌, pure, IsKey, IsSignature, IsShort}
use sia_satellite.Prelude.{ℕ, Bool, false, ◌||◌, List, [], if◌then◌else◌}
use sia_satellite.Messages.Terms.{Terms, put_terms, get_terms, TermsFits}

abbrev pub put_if : Bool → (List ℕ → List ℕ) → List ℕ → List ℕ
put_if b f rest = if b then f rest else rest

abbrev pub get_if : {A : Type 0} → Bool → State A → A → State A
get_if b p zero_value = if b then p else pure zero_value

-- The zero value of the shared fields.
abbrev pub no_terms : Terms
no_terms = record {
  hosts = 0;
  period = 0;
  renew_window = 0;
  storage = 0;
  upload = 0;
  download = 0;
  min_shards = 0;
  total_shards = 0;
  max_rpc_price = 0;
  max_contract_price = 0;
  max_download_price = 0;
  max_upload_price = 0;
  max_storage_price = 0;
  max_sector_access_price = 0;
  min_max_collateral = 0;
  block_height_leeway = 0;
  upload_packing = false;
}

pub record GetSettingsResponse : Type 0 where
  pub auto_renew_contracts : Bool
  pub backup_file_metadata : Bool
  pub auto_repair_files : Bool
  pub proxy_uploads : Bool

unfoldable pub put_get_settings_response : Wire → GetSettingsResponse → List ℕ → List ℕ
put_get_settings_response w r rest = put w.flag r.auto_renew_contracts (
    put w.flag r.backup_file_metadata
      (put w.flag r.auto_repair_files (put w.flag r.proxy_uploads rest)))

pub record UpdateSettingsRequest : Type 0 where
  pub pub_key : ℕ
  pub settings : GetSettingsResponse
  pub private_key : List ℕ
  pub account_key : List ℕ
  pub terms : Terms
  pub signature : ℕ

-- The keys that the settings need.
abbrev pub wants_account : GetSettingsResponse → Bool
wants_account s = s.backup_file_metadata || (s.auto_repair_files || s.proxy_uploads)

abbrev pub wants_key : GetSettingsResponse → Bool
wants_key s = s.auto_renew_contracts || wants_account s

unfoldable pub put_update_settings_request : Wire → UpdateSettingsRequest → List ℕ → List ℕ
unfolding put_get_settings_response
put_update_settings_request w r rest = put w.key r.pub_key (
    put_get_settings_response w r.settings (
      put_if (wants_key r.settings) (put w.bytes r.private_key) (
        put_if (wants_account r.settings) (put w.bytes r.account_key)
          (put_if r.settings.auto_renew_contracts (put_terms w r.terms) rest))))

unfoldable pub get_update_settings_request : Wire → State UpdateSettingsRequest
get_update_settings_request w = do
  pub_key ← w.key.get
  auto_renew_contracts ← w.flag.get
  backup_file_metadata ← w.flag.get
  auto_repair_files ← w.flag.get
  proxy_uploads ← w.flag.get
  let settings : GetSettingsResponse = record {
    auto_renew_contracts = auto_renew_contracts;
    backup_file_metadata = backup_file_metadata;
    auto_repair_files = auto_repair_files;
    proxy_uploads = proxy_uploads;
  }
  private_key ← get_if (wants_key settings) w.bytes.get []
  account_key ← get_if (wants_account settings) w.bytes.get []
  terms ← get_if auto_renew_contracts (get_terms w) no_terms
  signature ← w.signature.get
  pure (record {
    pub_key = pub_key;
    settings = settings;
    private_key = private_key;
    account_key = account_key;
    terms = terms;
    signature = signature;
  })

pub record UpdateSettingsRequestFits (r : UpdateSettingsRequest) : Type 0 where
  pub pub_key : IsKey r.pub_key
  pub private_key : IsShort r.private_key
  pub account_key : IsShort r.account_key
  pub terms : TermsFits r.terms
  pub signature : IsSignature r.signature

-- The request without the fields that its settings do not need.
abbrev pub canonical_settings : UpdateSettingsRequest → UpdateSettingsRequest
canonical_settings r = record r {
  private_key = if wants_key r.settings then r.private_key else [];
  account_key = if wants_account r.settings then r.account_key else [];
  terms = if r.settings.auto_renew_contracts then r.terms else no_terms;
}
