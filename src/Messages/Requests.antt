-- ===== src/Messages/Requests.antt =====
-- provider/network.go and provider/encoding.go: the signed requests, by the specifier that a renter sends
-- first.
pub mod RoundTrip
use sia_satellite.Wire.{Decoder, put, Wire}
use sia_satellite.Prelude.{ℕ, Option, none, some, List}
use sia_satellite.Messages.Contracts.{
  RequestRequest, put_request_request, get_request_request, RequestRequestFits, FormRequest,
  put_form_request, get_form_request, FormRequestFits, UpdateRequest, put_update_request,
  get_update_request, UpdateRequestFits, FormContractRequest, put_form_contract_request,
  get_form_contract_request, FormContractRequestFits, RenewContractRequest,
  put_renew_contract_request, get_renew_contract_request, RenewContractRequestFits, ShareRequest,
  put_share_request, get_share_request, ShareRequestFits,
}
use sia_satellite.Messages.Settings.{
  UpdateSettingsRequest, put_update_settings_request, get_update_settings_request,
  UpdateSettingsRequestFits, canonical_settings,
}
use sia_satellite.Messages.Files.{
  RequestMetadataRequest, put_request_metadata_request, get_request_metadata_request,
  RequestMetadataRequestFits, UpdateSlabRequest, put_update_slab_request, get_update_slab_request,
  UpdateSlabRequestFits, RequestSlabsRequest, put_request_slabs_request, get_request_slabs_request,
  RequestSlabsRequestFits, GetSettingsRequest, put_get_settings_request, get_get_settings_request,
  GetSettingsRequestFits,
}
use sia_satellite.Messages.Metadata.{
  RenewRequest, put_renew_request, get_renew_request, SaveMetadataRequest,
  put_save_metadata_request, get_save_metadata_request, RenewRequestFits, SaveMetadataRequestFits,
  canonical_save,
}
use sia_satellite.Messages.Uploads.{
  UploadRequest, put_upload_request, get_upload_request, UploadRequestFits,
  RegisterMultipartRequest, put_register_multipart_request, get_register_multipart_request,
  RegisterMultipartRequestFits, DeleteMultipartRequest, put_delete_multipart_request,
  get_delete_multipart_request, DeleteMultipartRequestFits, UploadPartRequest,
  put_upload_part_request, get_upload_part_request, UploadPartRequestFits, CompleteMultipartRequest,
  put_complete_multipart_request, get_complete_multipart_request, CompleteMultipartRequestFits,
}

pub data Rpc : Type 0 where
  request_contracts form_contracts renew_contracts update_revision form_contract renew_contract
        get_settings update_settings save_metadata request_metadata update_slab request_slabs
        share_contracts upload_file register_multipart delete_multipart upload_part
        complete_multipart :
      Rpc

-- A request of each kind.
pub data Request : Type 0 where
  request_contracts_request : RequestRequest → Request
  form_contracts_request : FormRequest → Request
  renew_contracts_request : RenewRequest → Request
  update_revision_request : UpdateRequest → Request
  form_contract_request : FormContractRequest → Request
  renew_contract_request : RenewContractRequest → Request
  get_settings_request : GetSettingsRequest → Request
  update_settings_request : UpdateSettingsRequest → Request
  save_metadata_request : SaveMetadataRequest → Request
  request_metadata_request : RequestMetadataRequest → Request
  update_slab_request : UpdateSlabRequest → Request
  request_slabs_request : RequestSlabsRequest → Request
  share_contracts_request : ShareRequest → Request
  upload_file_request : UploadRequest → Request
  register_multipart_request : RegisterMultipartRequest → Request
  delete_multipart_request : DeleteMultipartRequest → Request
  upload_part_request : UploadPartRequest → Request
  complete_multipart_request : CompleteMultipartRequest → Request

abbrev pub rpc_of : Request → Rpc
rpc_of (request_contracts_request r) = request_contracts
rpc_of (form_contracts_request r) = form_contracts
rpc_of (renew_contracts_request r) = renew_contracts
rpc_of (update_revision_request r) = update_revision
rpc_of (form_contract_request r) = form_contract
rpc_of (renew_contract_request r) = renew_contract
rpc_of (get_settings_request r) = get_settings
rpc_of (update_settings_request r) = update_settings
rpc_of (save_metadata_request r) = save_metadata
rpc_of (request_metadata_request r) = request_metadata
rpc_of (update_slab_request r) = update_slab
rpc_of (request_slabs_request r) = request_slabs
rpc_of (share_contracts_request r) = share_contracts
rpc_of (upload_file_request r) = upload_file
rpc_of (register_multipart_request r) = register_multipart
rpc_of (delete_multipart_request r) = delete_multipart
rpc_of (upload_part_request r) = upload_part
rpc_of (complete_multipart_request r) = complete_multipart

abbrev pub signature_of : Request → ℕ
signature_of (request_contracts_request r) = r.signature
signature_of (form_contracts_request r) = r.signature
signature_of (renew_contracts_request r) = r.signature
signature_of (update_revision_request r) = r.signature
signature_of (form_contract_request r) = r.signature
signature_of (renew_contract_request r) = r.signature
signature_of (get_settings_request r) = r.signature
signature_of (update_settings_request r) = r.signature
signature_of (save_metadata_request r) = r.signature
signature_of (request_metadata_request r) = r.signature
signature_of (update_slab_request r) = r.signature
signature_of (request_slabs_request r) = r.signature
signature_of (share_contracts_request r) = r.signature
signature_of (upload_file_request r) = r.signature
signature_of (register_multipart_request r) = r.signature
signature_of (delete_multipart_request r) = r.signature
signature_of (upload_part_request r) = r.signature
signature_of (complete_multipart_request r) = r.signature

-- What is hashed and signed.
abbrev pub put_request : Wire → Request → List ℕ → List ℕ
put_request w (request_contracts_request r) rest = put_request_request w r rest
put_request w (form_contracts_request r) rest = put_form_request w r rest
put_request w (renew_contracts_request r) rest = put_renew_request w r rest
put_request w (update_revision_request r) rest = put_update_request w r rest
put_request w (form_contract_request r) rest = put_form_contract_request w r rest
put_request w (renew_contract_request r) rest = put_renew_contract_request w r rest
put_request w (get_settings_request r) rest = put_get_settings_request w r rest
put_request w (update_settings_request r) rest = put_update_settings_request w r rest
put_request w (save_metadata_request r) rest = put_save_metadata_request w r rest
put_request w (request_metadata_request r) rest = put_request_metadata_request w r rest
put_request w (update_slab_request r) rest = put_update_slab_request w r rest
put_request w (request_slabs_request r) rest = put_request_slabs_request w r rest
put_request w (share_contracts_request r) rest = put_share_request w r rest
put_request w (upload_file_request r) rest = put_upload_request w r rest
put_request w (register_multipart_request r) rest = put_register_multipart_request w r rest
put_request w (delete_multipart_request r) rest = put_delete_multipart_request w r rest
put_request w (upload_part_request r) rest = put_upload_part_request w r rest
put_request w (complete_multipart_request r) rest = put_complete_multipart_request w r rest

-- What is sent.
abbrev pub put_signed : Wire → Request → List ℕ → List ℕ
put_signed w q rest = put_request w q (put w.signature (signature_of q) rest)

abbrev pub ok : {A : Type 0} → (A → Request) → A × Decoder → Option (Request × Decoder)
ok f (r, d) = some (f r, d)

abbrev pub or_panic :
    {A : Type 0} → (A → Request) → Option (A × Decoder) → Option (Request × Decoder)
or_panic f none = none
or_panic f (some (r, d)) = some (f r, d)

-- How the handler of an RPC reads its request; `none` is a panic.
abbrev pub get_request : Wire → Rpc → Decoder → Option (Request × Decoder)
get_request w request_contracts d = ok request_contracts_request (get_request_request w d)
get_request w form_contracts d = ok form_contracts_request (get_form_request w d)
get_request w renew_contracts d = or_panic renew_contracts_request (get_renew_request w d)
get_request w update_revision d = ok update_revision_request (get_update_request w d)
get_request w form_contract d = ok form_contract_request (get_form_contract_request w d)
get_request w renew_contract d = ok renew_contract_request (get_renew_contract_request w d)
get_request w get_settings d = ok get_settings_request (get_get_settings_request w d)
get_request w update_settings d = ok update_settings_request (get_update_settings_request w d)
get_request w save_metadata d = or_panic save_metadata_request (get_save_metadata_request w d)
get_request w request_metadata d = ok request_metadata_request (get_request_metadata_request w d)
get_request w update_slab d = ok update_slab_request (get_update_slab_request w d)
get_request w request_slabs d = ok request_slabs_request (get_request_slabs_request w d)
get_request w share_contracts d = ok share_contracts_request (get_share_request w d)
get_request w upload_file d = ok upload_file_request (get_upload_request w d)
get_request w register_multipart d =
    ok register_multipart_request (get_register_multipart_request w d)
get_request w delete_multipart d = ok delete_multipart_request (get_delete_multipart_request w d)
get_request w upload_part d = ok upload_part_request (get_upload_part_request w d)
get_request w complete_multipart d =
    ok complete_multipart_request (get_complete_multipart_request w d)

abbrev pub RequestFits : Request → Type 0
RequestFits (request_contracts_request r) = RequestRequestFits r
RequestFits (form_contracts_request r) = FormRequestFits r
RequestFits (renew_contracts_request r) = RenewRequestFits r
RequestFits (update_revision_request r) = UpdateRequestFits r
RequestFits (form_contract_request r) = FormContractRequestFits r
RequestFits (renew_contract_request r) = RenewContractRequestFits r
RequestFits (get_settings_request r) = GetSettingsRequestFits r
RequestFits (update_settings_request r) = UpdateSettingsRequestFits r
RequestFits (save_metadata_request r) = SaveMetadataRequestFits r
RequestFits (request_metadata_request r) = RequestMetadataRequestFits r
RequestFits (update_slab_request r) = UpdateSlabRequestFits r
RequestFits (request_slabs_request r) = RequestSlabsRequestFits r
RequestFits (share_contracts_request r) = ShareRequestFits r
RequestFits (upload_file_request r) = UploadRequestFits r
RequestFits (register_multipart_request r) = RegisterMultipartRequestFits r
RequestFits (delete_multipart_request r) = DeleteMultipartRequestFits r
RequestFits (upload_part_request r) = UploadPartRequestFits r
RequestFits (complete_multipart_request r) = CompleteMultipartRequestFits r

-- The request without what is not sent.
abbrev pub canonical : Request → Request
canonical (request_contracts_request r) = request_contracts_request r
canonical (form_contracts_request r) = form_contracts_request r
canonical (renew_contracts_request r) = renew_contracts_request r
canonical (update_revision_request r) = update_revision_request r
canonical (form_contract_request r) = form_contract_request r
canonical (renew_contract_request r) = renew_contract_request r
canonical (get_settings_request r) = get_settings_request r
canonical (update_settings_request r) = update_settings_request (canonical_settings r)
canonical (save_metadata_request r) = save_metadata_request (canonical_save r)
canonical (request_metadata_request r) = request_metadata_request r
canonical (update_slab_request r) = update_slab_request r
canonical (request_slabs_request r) = request_slabs_request r
canonical (share_contracts_request r) = share_contracts_request r
canonical (upload_file_request r) = upload_file_request r
canonical (register_multipart_request r) = register_multipart_request r
canonical (delete_multipart_request r) = delete_multipart_request r
canonical (upload_part_request r) = upload_part_request r
canonical (complete_multipart_request r) = complete_multipart_request r

abbrev pub request_of : Option (Request × Decoder) → Request
request_of none = request_contracts_request (record { pub_key = 0; signature = 0 })
request_of (some (q, d)) = q
