-- ===== src/Messages/Metadata/RoundTrip.antt =====
-- Renewals and metadata are read as they were written, unless a length makes the reader panic.
use sia_satellite.Wire.{good, put, Wire, IsKey, IsWord, WireLaws}
use sia_satellite.Prelude.{ℕ, ◌*◌, ◌^◌, ◌≤◌, ◌≡◌, refl, true, some, List, [], arith, length}
use sia_satellite.Wire.Lists.{get_all-put_all, get_list-put_list}
use sia_satellite.Messages.Terms.{put_terms}
use sia_satellite.Messages.Terms.RoundTrip.{terms-Undoes}
use sia_satellite.Messages.Files.{put_slab, get_slab, SlabFits}
use sia_satellite.Messages.Files.RoundTrip.{slab-Undoes, slab-Advances}
use sia_satellite.Messages.Metadata.{
  can_make, RenewRequest, put_renew_request, get_renew_tail, get_renew_request, FileMetadata,
  put_file_metadata, get_file_metadata, SaveMetadataRequest, put_save_metadata_request,
  get_save_metadata_request, RenewRequestFits, FileMetadataFits, SaveMetadataRequestFits,
  canonical_save,
}

can_make_lem : (count size : ℕ) → count * size ≤ 2 ^ 48 → can_make count size ≡ true
can_make_lem count size h = ground arith

module _ (w : Wire) (laws : WireLaws w) where
  pub file_metadata-Undoes :
      (r : FileMetadata) (rest : List ℕ)
      → FileMetadataFits r
      → get_file_metadata w (good (put_file_metadata w r rest))
        ≡ (record r { content = [] }, good rest)
  unfolding put_file_metadata get_file_metadata
  file_metadata-Undoes r rest fits =
      simp
        (
          laws.key,
          laws.bytes,
          laws.text,
          get_list-put_list w laws SlabFits (put_slab w) (get_slab w) (slab-Undoes w laws)
              (slab-Advances w laws),
          fits.key,
          fits.bucket,
          fits.path,
          fits.etag,
          fits.mime_type,
          fits.encrypted,
          fits.slabs,
          fits.few_slabs,
        )
        refl

  pub save_metadata_request-Undoes :
      (r : SaveMetadataRequest) (rest : List ℕ)
      → SaveMetadataRequestFits r
      → get_save_metadata_request w
          (good (put_save_metadata_request w r (put w.signature r.signature rest)))
        ≡ some (canonical_save r, good rest)
  unfolding put_save_metadata_request get_save_metadata_request
  save_metadata_request-Undoes r rest fits =
      let small : IsWord r.data_size = omega (arith, fits.data_size) in
      simp
        (
          laws.key,
          file_metadata-Undoes,
          laws.word,
          laws.signature,
          fits.pub_key,
          fits.metadata,
          small,
          fits.signature,
          can_make_lem r.data_size 1 (omega (arith, fits.data_size)),
        )
        refl

  pub renew_request-Undoes :
      (r : RenewRequest) (rest : List ℕ)
      → RenewRequestFits r
      → get_renew_request w (good (put_renew_request w r (put w.signature r.signature rest)))
        ≡ some (r, good rest)
  unfolding put_renew_request get_renew_request get_renew_tail
  renew_request-Undoes r rest fits =
      let small : IsWord (length r.contracts) = omega (arith, fits.few_contracts) in
      let end = put_terms w r.terms (put w.signature r.signature rest) in
      simp
        (
          laws.key,
          laws.bytes,
          laws.word,
          fits.pub_key,
          fits.secret_key,
          small,
          can_make_lem (length r.contracts) 32 fits.few_contracts,
          get_all-put_all IsKey (put w.key) w.key.get laws.key r.contracts end fits.contracts,
          terms-Undoes w laws,
          fits.terms,
          laws.signature,
          fits.signature,
        )
        refl
