-- ===== src/Messages/Appends.antt =====
-- What is written after a message comes behind it.
use sia_satellite.Wire.{put, Wire}
use sia_satellite.Prelude.{
  ℕ, ◌≡◌, refl, sym, ap, ◌∙◌, Bool, true, false, List, [], ◌++◌, append_assoc,
}
use sia_satellite.Wire.Lists.{append_front, put_all-append, put_list-append}
use sia_satellite.Messages.Terms.{Terms, put_terms, ContractMetadata, put_contract_metadata}
use sia_satellite.Messages.Contracts.{
  RequestRequest, put_request_request, FormRequest, put_form_request, UpdateRequest,
  put_update_request, FormContractRequest, put_form_contract_request, RenewContractRequest,
  put_renew_contract_request, ShareRequest, put_share_request,
}
use sia_satellite.Messages.Settings.{
  put_if, GetSettingsResponse, put_get_settings_response, UpdateSettingsRequest, wants_account,
  wants_key, put_update_settings_request,
}
use sia_satellite.Messages.Files.{
  Shard, put_shard, Slab, put_slab, BucketFiles, put_bucket_files, RequestMetadataRequest,
  put_request_metadata_request, UpdateSlabRequest, put_update_slab_request, RequestSlabsRequest,
  put_request_slabs_request, GetSettingsRequest, put_get_settings_request,
}
use sia_satellite.Messages.Metadata.{
  RenewRequest, put_renew_request, FileMetadata, put_file_metadata, SaveMetadataRequest,
  put_save_metadata_request,
}
use sia_satellite.Messages.Uploads.{
  UploadRequest, put_upload_request, RegisterMultipartRequest, put_register_multipart_request,
  DeleteMultipartRequest, put_delete_multipart_request, UploadPartRequest, put_upload_part_request,
  CompleteMultipartRequest, put_complete_multipart_request,
}
use sia_satellite.Messages.Requests.{
  Request, request_contracts_request, form_contracts_request, renew_contracts_request,
  update_revision_request, form_contract_request, renew_contract_request, get_settings_request,
  update_settings_request, save_metadata_request, request_metadata_request, update_slab_request,
  request_slabs_request, share_contracts_request, upload_file_request, register_multipart_request,
  delete_multipart_request, upload_part_request, complete_multipart_request, put_request,
}

Appends-then :
    (f g : List ℕ → List ℕ)
    → ((rest : List ℕ) → f rest ≡ f [] ++ rest)
    → ((rest : List ℕ) → g rest ≡ g [] ++ rest)
    → (rest : List ℕ) → f (g rest) ≡ f (g []) ++ rest
Appends-then f g front behind rest =
    front (g rest)
    ∙ ap (λ s. f [] ++ s) (behind rest)
    ∙ sym (append_assoc (f []) (g []) rest)
    ∙ ap (λ s. s ++ rest) (sym (front (g [])))

module _ (w : Wire) where
  pub put_terms-append : (r : Terms) (rest : List ℕ) → put_terms w r rest ≡ put_terms w r [] ++ rest
  unfolding put_terms
  put_terms-append r rest = simp (append_assoc) refl

  pub put_contract_metadata-append :
      (r : ContractMetadata) (rest : List ℕ)
      → put_contract_metadata w r rest ≡ put_contract_metadata w r [] ++ rest
  unfolding put_contract_metadata
  put_contract_metadata-append r rest = simp (append_assoc) refl

  pub put_shard-append : (r : Shard) (rest : List ℕ) → put_shard w r rest ≡ put_shard w r [] ++ rest
  unfolding put_shard
  put_shard-append r rest = simp (append_assoc) refl

  pub put_slab-append : (r : Slab) (rest : List ℕ) → put_slab w r rest ≡ put_slab w r [] ++ rest
  unfolding put_slab
  put_slab-append r rest =
      simp (append_assoc, put_list-append w (put_shard w) put_shard-append r.shards rest) refl

  pub put_bucket_files-append :
      (r : BucketFiles) (rest : List ℕ)
      → put_bucket_files w r rest ≡ put_bucket_files w r [] ++ rest
  unfolding put_bucket_files
  put_bucket_files-append r rest =
      simp
        (
          append_assoc,
          put_list-append w (put w.bytes) (λ a s. append_front (w.bytes.layout a) s) r.paths rest,
        )
        refl

  pub put_request_request-append :
      (r : RequestRequest) (rest : List ℕ)
      → put_request_request w r rest ≡ put_request_request w r [] ++ rest
  unfolding put_request_request
  put_request_request-append r rest = simp (append_assoc) refl

  pub put_form_request-append :
      (r : FormRequest) (rest : List ℕ)
      → put_form_request w r rest ≡ put_form_request w r [] ++ rest
  unfolding put_form_request
  put_form_request-append r rest = simp (append_assoc, put_terms-append r.terms rest) refl

  pub put_update_request-append :
      (r : UpdateRequest) (rest : List ℕ)
      → put_update_request w r rest ≡ put_update_request w r [] ++ rest
  unfolding put_update_request
  put_update_request-append r rest = simp (append_assoc) refl

  pub put_form_contract_request-append :
      (r : FormContractRequest) (rest : List ℕ)
      → put_form_contract_request w r rest ≡ put_form_contract_request w r [] ++ rest
  unfolding put_form_contract_request
  put_form_contract_request-append r rest = simp (append_assoc) refl

  pub put_renew_contract_request-append :
      (r : RenewContractRequest) (rest : List ℕ)
      → put_renew_contract_request w r rest ≡ put_renew_contract_request w r [] ++ rest
  unfolding put_renew_contract_request
  put_renew_contract_request-append r rest = simp (append_assoc) refl

  pub put_share_request-append :
      (r : ShareRequest) (rest : List ℕ)
      → put_share_request w r rest ≡ put_share_request w r [] ++ rest
  unfolding put_share_request
  put_share_request-append r rest =
      simp
        (
          append_assoc,
          put_list-append w (put_contract_metadata w) put_contract_metadata-append r.contracts rest,
        )
        refl

  pub put_request_metadata_request-append :
      (r : RequestMetadataRequest) (rest : List ℕ)
      → put_request_metadata_request w r rest ≡ put_request_metadata_request w r [] ++ rest
  unfolding put_request_metadata_request
  put_request_metadata_request-append r rest =
      simp
        (
          append_assoc,
          put_list-append w (put_bucket_files w) put_bucket_files-append r.present_objects rest,
        )
        refl

  pub put_update_slab_request-append :
      (r : UpdateSlabRequest) (rest : List ℕ)
      → put_update_slab_request w r rest ≡ put_update_slab_request w r [] ++ rest
  unfolding put_update_slab_request
  put_update_slab_request-append r rest =
      simp
        (
          append_assoc,
          put_slab-append r.slab (put w.flag r.packed rest),
          put_slab-append r.slab (put w.flag r.packed []),
        )
        refl

  pub put_request_slabs_request-append :
      (r : RequestSlabsRequest) (rest : List ℕ)
      → put_request_slabs_request w r rest ≡ put_request_slabs_request w r [] ++ rest
  unfolding put_request_slabs_request
  put_request_slabs_request-append r rest = simp (append_assoc) refl

  pub put_get_settings_request-append :
      (r : GetSettingsRequest) (rest : List ℕ)
      → put_get_settings_request w r rest ≡ put_get_settings_request w r [] ++ rest
  unfolding put_get_settings_request
  put_get_settings_request-append r rest = simp (append_assoc) refl

  pub put_upload_request-append :
      (r : UploadRequest) (rest : List ℕ)
      → put_upload_request w r rest ≡ put_upload_request w r [] ++ rest
  unfolding put_upload_request
  put_upload_request-append r rest = simp (append_assoc) refl

  pub put_register_multipart_request-append :
      (r : RegisterMultipartRequest) (rest : List ℕ)
      → put_register_multipart_request w r rest ≡ put_register_multipart_request w r [] ++ rest
  unfolding put_register_multipart_request
  put_register_multipart_request-append r rest = simp (append_assoc) refl

  pub put_delete_multipart_request-append :
      (r : DeleteMultipartRequest) (rest : List ℕ)
      → put_delete_multipart_request w r rest ≡ put_delete_multipart_request w r [] ++ rest
  unfolding put_delete_multipart_request
  put_delete_multipart_request-append r rest = simp (append_assoc) refl

  pub put_upload_part_request-append :
      (r : UploadPartRequest) (rest : List ℕ)
      → put_upload_part_request w r rest ≡ put_upload_part_request w r [] ++ rest
  unfolding put_upload_part_request
  put_upload_part_request-append r rest = simp (append_assoc) refl

  pub put_complete_multipart_request-append :
      (r : CompleteMultipartRequest) (rest : List ℕ)
      → put_complete_multipart_request w r rest ≡ put_complete_multipart_request w r [] ++ rest
  unfolding put_complete_multipart_request
  put_complete_multipart_request-append r rest = simp (append_assoc) refl

  put_if-append :
      (b : Bool) (f : List ℕ → List ℕ) (rest : List ℕ)
      → f rest ≡ f [] ++ rest
      → put_if b f rest ≡ put_if b f [] ++ rest
  put_if-append true f rest h = h
  put_if-append false f rest h = refl

  put_settings-append :
      (s : GetSettingsResponse) (rest : List ℕ)
      → put_get_settings_response w s rest ≡ put_get_settings_response w s [] ++ rest
  unfolding put_get_settings_response
  put_settings-append s rest = simp append_assoc refl

  pub put_update_settings_request-append :
      (r : UpdateSettingsRequest) (rest : List ℕ)
      → put_update_settings_request w r rest ≡ put_update_settings_request w r [] ++ rest
  unfolding put_update_settings_request
  put_update_settings_request-append r rest =
      let termed = put_if-append r.settings.auto_renew_contracts (put_terms w r.terms) in
      let account = put_if-append (wants_account r.settings) (put w.bytes r.account_key) in
      let key = put_if-append (wants_key r.settings) (put w.bytes r.private_key) in
      let terms = λ (s : List ℕ). termed s (put_terms-append r.terms s) in
      let accounted = λ (s : List ℕ). account s (append_front (w.bytes.layout r.account_key) s) in
      let keyed = λ (s : List ℕ). key s (append_front (w.bytes.layout r.private_key) s) in
      let one = Appends-then _ _ accounted terms in
      let two = Appends-then _ _ keyed one in
      let three = Appends-then _ _ (put_settings-append r.settings) two in
      Appends-then _ _ (append_front (w.key.layout r.pub_key)) three rest

  pub put_renew_request-append :
      (r : RenewRequest) (rest : List ℕ)
      → put_renew_request w r rest ≡ put_renew_request w r [] ++ rest
  unfolding put_renew_request
  put_renew_request-append r rest =
      simp
        (
          append_assoc,
          put_terms-append r.terms rest,
          put_all-append (put w.key) (λ a s. append_front (w.key.layout a) s) r.contracts
              (put_terms w r.terms [] ++ rest),
          put_all-append (put w.key) (λ a s. append_front (w.key.layout a) s) r.contracts
              (put_terms w r.terms []),
        )
        refl

  pub put_file_metadata-append :
      (r : FileMetadata) (rest : List ℕ)
      → put_file_metadata w r rest ≡ put_file_metadata w r [] ++ rest
  unfolding put_file_metadata
  put_file_metadata-append r rest =
      simp (append_assoc, put_list-append w (put_slab w) put_slab-append r.slabs rest) refl

  pub put_save_metadata_request-append :
      (r : SaveMetadataRequest) (rest : List ℕ)
      → put_save_metadata_request w r rest ≡ put_save_metadata_request w r [] ++ rest
  unfolding put_save_metadata_request
  put_save_metadata_request-append r rest =
      simp
        (
          append_assoc,
          put_file_metadata-append r.metadata (put w.word r.data_size rest),
          put_file_metadata-append r.metadata (put w.word r.data_size []),
        )
        refl

  pub put_request-append :
      (q : Request) (rest : List ℕ) → put_request w q rest ≡ put_request w q [] ++ rest
  put_request-append (request_contracts_request r) rest = put_request_request-append r rest
  put_request-append (form_contracts_request r) rest = put_form_request-append r rest
  put_request-append (renew_contracts_request r) rest = put_renew_request-append r rest
  put_request-append (update_revision_request r) rest = put_update_request-append r rest
  put_request-append (form_contract_request r) rest = put_form_contract_request-append r rest
  put_request-append (renew_contract_request r) rest = put_renew_contract_request-append r rest
  put_request-append (get_settings_request r) rest = put_get_settings_request-append r rest
  put_request-append (update_settings_request r) rest = put_update_settings_request-append r rest
  put_request-append (save_metadata_request r) rest = put_save_metadata_request-append r rest
  put_request-append (request_metadata_request r) rest = put_request_metadata_request-append r rest
  put_request-append (update_slab_request r) rest = put_update_slab_request-append r rest
  put_request-append (request_slabs_request r) rest = put_request_slabs_request-append r rest
  put_request-append (share_contracts_request r) rest = put_share_request-append r rest
  put_request-append (upload_file_request r) rest = put_upload_request-append r rest
  put_request-append (register_multipart_request r) rest =
      put_register_multipart_request-append r rest
  put_request-append (delete_multipart_request r) rest = put_delete_multipart_request-append r rest
  put_request-append (upload_part_request r) rest = put_upload_part_request-append r rest
  put_request-append (complete_multipart_request r) rest =
      put_complete_multipart_request-append r rest
