-- ===== src/Messages/Requests/RoundTrip.antt =====
-- A signed request is read as it was written, and what is signed determines it.
use sia_satellite.Wire.{good, put, Wire, WireLaws}
use sia_satellite.Prelude.{ℕ, ◌≡◌, sym, ap, ◌∙◌, some, List, [], ◌++◌}
use sia_satellite.Messages.Contracts.RoundTrip.{
  request_request-Undoes, form_request-Undoes, update_request-Undoes, form_contract_request-Undoes,
  renew_contract_request-Undoes, share_request-Undoes,
}
use sia_satellite.Messages.Settings.RoundTrip.{update_settings_request-Undoes}
use sia_satellite.Messages.Files.RoundTrip.{
  request_metadata_request-Undoes, update_slab_request-Undoes, request_slabs_request-Undoes,
  get_settings_request-Undoes,
}
use sia_satellite.Messages.Metadata.RoundTrip.{save_metadata_request-Undoes, renew_request-Undoes}
use sia_satellite.Messages.Uploads.RoundTrip.{
  upload_request-Undoes, register_multipart_request-Undoes, delete_multipart_request-Undoes,
  upload_part_request-Undoes, complete_multipart_request-Undoes,
}
use sia_satellite.Messages.Appends.{put_request-append}
use sia_satellite.Messages.Requests.{
  Request, request_contracts_request, form_contracts_request, renew_contracts_request,
  update_revision_request, form_contract_request, renew_contract_request, get_settings_request,
  update_settings_request, save_metadata_request, request_metadata_request, update_slab_request,
  request_slabs_request, share_contracts_request, upload_file_request, register_multipart_request,
  delete_multipart_request, upload_part_request, complete_multipart_request, rpc_of, signature_of,
  put_request, put_signed, ok, or_panic, get_request, RequestFits, canonical, request_of,
}

module _ (w : Wire) (laws : WireLaws w) where
  -- Each signed request that fits the wire is read by the handler of its RPC as it was written, and
  -- without a panic. What the settings of a renter do not need is left out of it, and so is the
  -- content that follows the metadata of a file.
  pub get_request-put_signed :
      (q : Request) (rest : List ℕ)
      → RequestFits q
      → get_request w (rpc_of q) (good (put_signed w q rest)) ≡ some (canonical q, good rest)
  get_request-put_signed (request_contracts_request r) rest fits =
      ap (ok request_contracts_request) (request_request-Undoes w laws r rest fits)
  get_request-put_signed (form_contracts_request r) rest fits =
      ap (ok form_contracts_request) (form_request-Undoes w laws r rest fits)
  get_request-put_signed (renew_contracts_request r) rest fits =
      ap (or_panic renew_contracts_request) (renew_request-Undoes w laws r rest fits)
  get_request-put_signed (update_revision_request r) rest fits =
      ap (ok update_revision_request) (update_request-Undoes w laws r rest fits)
  get_request-put_signed (form_contract_request r) rest fits =
      ap (ok form_contract_request) (form_contract_request-Undoes w laws r rest fits)
  get_request-put_signed (renew_contract_request r) rest fits =
      ap (ok renew_contract_request) (renew_contract_request-Undoes w laws r rest fits)
  get_request-put_signed (get_settings_request r) rest fits =
      ap (ok get_settings_request) (get_settings_request-Undoes w laws r rest fits)
  get_request-put_signed (update_settings_request r) rest fits =
      ap (ok update_settings_request) (update_settings_request-Undoes w laws r rest fits)
  get_request-put_signed (save_metadata_request r) rest fits =
      ap (or_panic save_metadata_request) (save_metadata_request-Undoes w laws r rest fits)
  get_request-put_signed (request_metadata_request r) rest fits =
      ap (ok request_metadata_request) (request_metadata_request-Undoes w laws r rest fits)
  get_request-put_signed (update_slab_request r) rest fits =
      ap (ok update_slab_request) (update_slab_request-Undoes w laws r rest fits)
  get_request-put_signed (request_slabs_request r) rest fits =
      ap (ok request_slabs_request) (request_slabs_request-Undoes w laws r rest fits)
  get_request-put_signed (share_contracts_request r) rest fits =
      ap (ok share_contracts_request) (share_request-Undoes w laws r rest fits)
  get_request-put_signed (upload_file_request r) rest fits =
      ap (ok upload_file_request) (upload_request-Undoes w laws r rest fits)
  get_request-put_signed (register_multipart_request r) rest fits =
      ap (ok register_multipart_request) (register_multipart_request-Undoes w laws r rest fits)
  get_request-put_signed (delete_multipart_request r) rest fits =
      ap (ok delete_multipart_request) (delete_multipart_request-Undoes w laws r rest fits)
  get_request-put_signed (upload_part_request r) rest fits =
      ap (ok upload_part_request) (upload_part_request-Undoes w laws r rest fits)
  get_request-put_signed (complete_multipart_request r) rest fits =
      ap (ok complete_multipart_request) (complete_multipart_request-Undoes w laws r rest fits)

  -- What is hashed and signed determines a request: two requests of one RPC that fit, and have the same
  -- signature and the same signed bytes, are the same but for what is not sent.
  pub put_request_determines :
      (q r : Request)
      → RequestFits q
      → RequestFits r
      → rpc_of q ≡ rpc_of r
      → signature_of q ≡ signature_of r
      → put_request w q [] ≡ put_request w r []
      → canonical q ≡ canonical r
  put_request_determines q r fits_q fits_r same_rpc same_signature same_bytes =
      let tail = put w.signature (signature_of q) [] in
      let sent : put_signed w q [] ≡ put_signed w r [] =
        put_request-append w q tail
        ∙ ap (λ s. s ++ tail) same_bytes
        ∙ sym (put_request-append w r tail)
        ∙ ap (λ s. put_request w r (put w.signature s [])) same_signature in
      let same : some (canonical q, good []) ≡ some (canonical r, good []) =
        sym (get_request-put_signed q [] fits_q)
        ∙ ap (λ s. get_request w (rpc_of q) (good s)) sent
        ∙ ap (λ k. get_request w k (good (put_signed w r []))) same_rpc
        ∙ get_request-put_signed r [] fits_r in
      ap request_of same
