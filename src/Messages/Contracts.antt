-- ===== src/Messages/Contracts.antt =====
-- provider/encoding.go: the requests about contracts. A `put` leaves the signature out, as EncodeTo does,
-- since it is also what is hashed and signed.
pub mod RoundTrip
use sia_satellite.Wire.{
  put, Wire, State, ◌>>=◌, pure, put_list, get_list, IsKey, IsSignature, IsWord, IsCurrency,
  IsShort,
}
use sia_satellite.Prelude.{ℕ, ◌^◌, ◌<◌, List, length, All}
use sia_satellite.Messages.Terms.{
  Terms, put_terms, get_terms, TermsFits, ContractMetadata, put_contract_metadata,
  get_contract_metadata, ContractMetadataFits,
}

pub record RequestRequest : Type 0 where
  pub pub_key : ℕ
  pub signature : ℕ

unfoldable pub put_request_request : Wire → RequestRequest → List ℕ → List ℕ
put_request_request w r rest = put w.key r.pub_key rest

unfoldable pub get_request_request : Wire → State RequestRequest
get_request_request w = do
  pub_key ← w.key.get
  signature ← w.signature.get
  pure (record { pub_key = pub_key; signature = signature })

pub record RequestRequestFits (r : RequestRequest) : Type 0 where
  pub pub_key : IsKey r.pub_key
  pub signature : IsSignature r.signature

pub record FormRequest : Type 0 where
  pub pub_key : ℕ
  pub secret_key : List ℕ
  pub terms : Terms
  pub signature : ℕ

unfoldable pub put_form_request : Wire → FormRequest → List ℕ → List ℕ
put_form_request w r rest =
    put w.key r.pub_key (put w.bytes r.secret_key (put_terms w r.terms rest))

unfoldable pub get_form_request : Wire → State FormRequest
get_form_request w = do
  pub_key ← w.key.get
  secret_key ← w.bytes.get
  terms ← get_terms w
  signature ← w.signature.get
  pure (record { pub_key = pub_key; secret_key = secret_key; terms = terms; signature = signature })

pub record FormRequestFits (r : FormRequest) : Type 0 where
  pub pub_key : IsKey r.pub_key
  pub secret_key : IsShort r.secret_key
  pub terms : TermsFits r.terms
  pub signature : IsSignature r.signature

pub record UpdateRequest : Type 0 where
  pub pub_key : ℕ
  pub revision : ℕ
  pub renter_signature : ℕ
  pub host_signature : ℕ
  pub uploads : ℕ
  pub downloads : ℕ
  pub fund_account : ℕ
  pub signature : ℕ

unfoldable pub put_update_request : Wire → UpdateRequest → List ℕ → List ℕ
put_update_request w r rest = put w.key r.pub_key (
    put w.revision r.revision (
      put w.signature r.renter_signature (
        put w.signature r.host_signature (
          put w.currency r.uploads
            (put w.currency r.downloads (put w.currency r.fund_account rest))))))

unfoldable pub get_update_request : Wire → State UpdateRequest
get_update_request w = do
  pub_key ← w.key.get
  revision ← w.revision.get
  renter_signature ← w.signature.get
  host_signature ← w.signature.get
  uploads ← w.currency.get
  downloads ← w.currency.get
  fund_account ← w.currency.get
  signature ← w.signature.get
  pure (record {
    pub_key = pub_key;
    revision = revision;
    renter_signature = renter_signature;
    host_signature = host_signature;
    uploads = uploads;
    downloads = downloads;
    fund_account = fund_account;
    signature = signature;
  })

pub record UpdateRequestFits (r : UpdateRequest) : Type 0 where
  pub pub_key : IsKey r.pub_key
  pub renter_signature : IsSignature r.renter_signature
  pub host_signature : IsSignature r.host_signature
  pub uploads : IsCurrency r.uploads
  pub downloads : IsCurrency r.downloads
  pub fund_account : IsCurrency r.fund_account
  pub signature : IsSignature r.signature

pub record FormContractRequest : Type 0 where
  pub pub_key : ℕ
  pub renter_public_key : ℕ
  pub host_public_key : ℕ
  pub end_height : ℕ
  pub storage : ℕ
  pub upload : ℕ
  pub download : ℕ
  pub min_shards : ℕ
  pub total_shards : ℕ
  pub signature : ℕ

unfoldable pub put_form_contract_request : Wire → FormContractRequest → List ℕ → List ℕ
put_form_contract_request w r rest = put w.key r.pub_key (
    put w.key r.renter_public_key (
      put w.key r.host_public_key (
        put w.word r.end_height (
          put w.word r.storage (
            put w.word r.upload (
              put w.word r.download (put w.word r.min_shards (put w.word r.total_shards rest))))))))

unfoldable pub get_form_contract_request : Wire → State FormContractRequest
get_form_contract_request w = do
  pub_key ← w.key.get
  renter_public_key ← w.key.get
  host_public_key ← w.key.get
  end_height ← w.word.get
  storage ← w.word.get
  upload ← w.word.get
  download ← w.word.get
  min_shards ← w.word.get
  total_shards ← w.word.get
  signature ← w.signature.get
  pure (record {
    pub_key = pub_key;
    renter_public_key = renter_public_key;
    host_public_key = host_public_key;
    end_height = end_height;
    storage = storage;
    upload = upload;
    download = download;
    min_shards = min_shards;
    total_shards = total_shards;
    signature = signature;
  })

pub record FormContractRequestFits (r : FormContractRequest) : Type 0 where
  pub pub_key : IsKey r.pub_key
  pub renter_public_key : IsKey r.renter_public_key
  pub host_public_key : IsKey r.host_public_key
  pub end_height : IsWord r.end_height
  pub storage : IsWord r.storage
  pub upload : IsWord r.upload
  pub download : IsWord r.download
  pub min_shards : IsWord r.min_shards
  pub total_shards : IsWord r.total_shards
  pub signature : IsSignature r.signature

pub record RenewContractRequest : Type 0 where
  pub pub_key : ℕ
  pub contract : ℕ
  pub end_height : ℕ
  pub storage : ℕ
  pub upload : ℕ
  pub download : ℕ
  pub min_shards : ℕ
  pub total_shards : ℕ
  pub signature : ℕ

unfoldable pub put_renew_contract_request : Wire → RenewContractRequest → List ℕ → List ℕ
put_renew_contract_request w r rest = put w.key r.pub_key (
    put w.key r.contract (
      put w.word r.end_height (
        put w.word r.storage (
          put w.word r.upload
            (put w.word r.download (put w.word r.min_shards (put w.word r.total_shards rest)))))))

unfoldable pub get_renew_contract_request : Wire → State RenewContractRequest
get_renew_contract_request w = do
  pub_key ← w.key.get
  contract ← w.key.get
  end_height ← w.word.get
  storage ← w.word.get
  upload ← w.word.get
  download ← w.word.get
  min_shards ← w.word.get
  total_shards ← w.word.get
  signature ← w.signature.get
  pure (record {
    pub_key = pub_key;
    contract = contract;
    end_height = end_height;
    storage = storage;
    upload = upload;
    download = download;
    min_shards = min_shards;
    total_shards = total_shards;
    signature = signature;
  })

pub record RenewContractRequestFits (r : RenewContractRequest) : Type 0 where
  pub pub_key : IsKey r.pub_key
  pub contract : IsKey r.contract
  pub end_height : IsWord r.end_height
  pub storage : IsWord r.storage
  pub upload : IsWord r.upload
  pub download : IsWord r.download
  pub min_shards : IsWord r.min_shards
  pub total_shards : IsWord r.total_shards
  pub signature : IsSignature r.signature

pub record ShareRequest : Type 0 where
  pub pub_key : ℕ
  pub contracts : List ContractMetadata
  pub signature : ℕ

unfoldable pub put_share_request : Wire → ShareRequest → List ℕ → List ℕ
put_share_request w r rest =
    put w.key r.pub_key (put_list w (put_contract_metadata w) r.contracts rest)

unfoldable pub get_share_request : Wire → State ShareRequest
get_share_request w = do
  pub_key ← w.key.get
  contracts ← get_list w (get_contract_metadata w)
  signature ← w.signature.get
  pure (record { pub_key = pub_key; contracts = contracts; signature = signature })

pub record ShareRequestFits (r : ShareRequest) : Type 0 where
  pub pub_key : IsKey r.pub_key
  pub contracts : All ContractMetadataFits r.contracts
  pub few_contracts : length r.contracts < 2 ^ 63
  pub signature : IsSignature r.signature
