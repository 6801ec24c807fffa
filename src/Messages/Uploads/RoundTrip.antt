-- ===== src/Messages/Uploads/RoundTrip.antt =====
-- The requests about uploads are read as they were written.
use sia_satellite.Wire.{good, put, Wire, WireLaws}
use sia_satellite.Prelude.{ℕ, ◌≡◌, refl, List}
use sia_satellite.Messages.Uploads.{
  UploadRequest, put_upload_request, get_upload_request, UploadRequestFits, UploadResponse,
  put_upload_response, get_upload_response, UploadResponseFits, UploadData, put_upload_data,
  get_upload_data, UploadDataFits, RegisterMultipartRequest, put_register_multipart_request,
  get_register_multipart_request, RegisterMultipartRequestFits, DeleteMultipartRequest,
  put_delete_multipart_request, get_delete_multipart_request, DeleteMultipartRequestFits,
  UploadPartRequest, put_upload_part_request, get_upload_part_request, UploadPartRequestFits,
  CompleteMultipartRequest, put_complete_multipart_request, get_complete_multipart_request,
  CompleteMultipartRequestFits,
}

module _ (w : Wire) (laws : WireLaws w) where
  pub upload_request-Undoes :
      (r : UploadRequest) (rest : List ℕ)
      → UploadRequestFits r
      → get_upload_request w (good (put_upload_request w r (put w.signature r.signature rest)))
        ≡ (r, good rest)
  unfolding put_upload_request get_upload_request
  upload_request-Undoes r rest fits =
      simp
        (
          laws.key, laws.bytes, laws.flag, laws.signature, fits.pub_key, fits.bucket, fits.path,
          fits.mime_type, fits.signature,
        )
        refl

  pub upload_response-Undoes :
      (r : UploadResponse) (rest : List ℕ)
      → UploadResponseFits r
      → get_upload_response w (good (put_upload_response w r rest)) ≡ (r, good rest)
  unfolding put_upload_response get_upload_response
  upload_response-Undoes r rest fits = simp (laws.word, fits.filesize) refl

  pub upload_data-Undoes :
      (r : UploadData) (rest : List ℕ)
      → UploadDataFits r
      → get_upload_data w (good (put_upload_data w r rest)) ≡ (r, good rest)
  unfolding put_upload_data get_upload_data
  upload_data-Undoes r rest fits = simp (laws.bytes, laws.flag, fits.chunk) refl

  pub register_multipart_request-Undoes :
      (r : RegisterMultipartRequest) (rest : List ℕ)
      → RegisterMultipartRequestFits r
      → get_register_multipart_request w
          (good (put_register_multipart_request w r (put w.signature r.signature rest)))
        ≡ (r, good rest)
  unfolding put_register_multipart_request get_register_multipart_request
  register_multipart_request-Undoes r rest fits =
      simp
        (
          laws.key, laws.bytes, laws.flag, laws.signature, fits.pub_key, fits.key, fits.bucket,
          fits.path, fits.mime_type, fits.signature,
        )
        refl

  pub delete_multipart_request-Undoes :
      (r : DeleteMultipartRequest) (rest : List ℕ)
      → DeleteMultipartRequestFits r
      → get_delete_multipart_request w
          (good (put_delete_multipart_request w r (put w.signature r.signature rest)))
        ≡ (r, good rest)
  unfolding put_delete_multipart_request get_delete_multipart_request
  delete_multipart_request-Undoes r rest fits =
      simp (laws.key, laws.signature, fits.pub_key, fits.upload_id, fits.signature) refl

  pub upload_part_request-Undoes :
      (r : UploadPartRequest) (rest : List ℕ)
      → UploadPartRequestFits r
      → get_upload_part_request w
          (good (put_upload_part_request w r (put w.signature r.signature rest)))
        ≡ (r, good rest)
  unfolding put_upload_part_request get_upload_part_request
  upload_part_request-Undoes r rest fits =
      simp
        (
          laws.key, laws.word, laws.signature, fits.pub_key, fits.upload_id, fits.part_no,
          fits.signature,
        )
        refl

  pub complete_multipart_request-Undoes :
      (r : CompleteMultipartRequest) (rest : List ℕ)
      → CompleteMultipartRequestFits r
      → get_complete_multipart_request w
          (good (put_complete_multipart_request w r (put w.signature r.signature rest)))
        ≡ (r, good rest)
  unfolding put_complete_multipart_request get_complete_multipart_request
  complete_multipart_request-Undoes r rest fits =
      simp (laws.key, laws.signature, fits.pub_key, fits.upload_id, fits.signature) refl
