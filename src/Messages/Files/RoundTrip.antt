-- ===== src/Messages/Files/RoundTrip.antt =====
-- The requests about slabs and metadata are read as they were written.
use sia_satellite.Wire.{good, put, Wire, put_list, IsShort, WireLaws}
use sia_satellite.Prelude.{ℕ, ◌<◌, ◌≡◌, refl, List, arith, length, length-append}
use sia_satellite.Wire.Lists.{
  put-Advances, get_list-put_list, length-put_list, mod-of_byte, byte-IsWord,
}
use sia_satellite.Messages.Files.{
  Shard, put_shard, get_shard, ShardFits, Slab, put_slab, get_slab, SlabFits, BucketFiles,
  put_bucket_files, get_bucket_files, BucketFilesFits, RequestMetadataRequest,
  put_request_metadata_request, get_request_metadata_request, RequestMetadataRequestFits,
  UpdateSlabRequest, put_update_slab_request, get_update_slab_request, UpdateSlabRequestFits,
  RequestSlabsRequest, put_request_slabs_request, get_request_slabs_request,
  RequestSlabsRequestFits, GetSettingsRequest, put_get_settings_request, get_get_settings_request,
  GetSettingsRequestFits,
}

module _ (w : Wire) (laws : WireLaws w) where
  pub shard-Undoes :
      (r : Shard) (rest : List ℕ)
      → ShardFits r
      → get_shard w (good (put_shard w r rest)) ≡ (r, good rest)
  unfolding put_shard get_shard
  shard-Undoes r rest fits = simp (laws.key, fits.host, fits.root) refl

  pub shard-Advances : (r : Shard) (rest : List ℕ) → length rest < length (put_shard w r rest)
  unfolding put_shard
  shard-Advances r rest = omega (
    arith,
    length-append (w.key.layout r.root) (rest),
    length-append (w.key.layout r.host) (put w.key r.root (rest)),
    laws.key_size r.host,
  )

  pub slab-Undoes :
      (r : Slab) (rest : List ℕ)
      → SlabFits r
      → get_slab w (good (put_slab w r rest)) ≡ (r, good rest)
  unfolding put_slab get_slab
  slab-Undoes r rest fits =
      simp
        (
          laws.key,
          laws.word,
          laws.flag,
          get_list-put_list w laws ShardFits (put_shard w) (get_shard w) shard-Undoes
              shard-Advances,
          fits.key,
          mod-of_byte r.min_shards fits.min_shards,
          byte-IsWord r.min_shards fits.min_shards,
          fits.offset,
          fits.length_of,
          fits.shards,
          fits.few_shards,
        )
        refl

  pub slab-Advances : (r : Slab) (rest : List ℕ) → length rest < length (put_slab w r rest)
  unfolding put_slab
  slab-Advances r rest = omega (
    arith,
    length-put_list w (put_shard w) shard-Advances r.shards (rest),
    length-append (w.flag.layout r.partial) (put_list w (put_shard w) r.shards (rest)),
    length-append (w.word.layout r.length_of)
        (put w.flag r.partial (put_list w (put_shard w) r.shards (rest))),
    length-append (w.word.layout r.offset)
        (put w.word r.length_of (put w.flag r.partial (put_list w (put_shard w) r.shards (rest)))),
    length-append (w.word.layout r.min_shards) (
        put w.word r.offset (
          put w.word r.length_of
            (put w.flag r.partial (put_list w (put_shard w) r.shards (rest))))),
    length-append (w.key.layout r.key) (
        put w.word r.min_shards (
          put w.word r.offset (
            put w.word r.length_of
              (put w.flag r.partial (put_list w (put_shard w) r.shards (rest)))))),
    laws.key_size r.key,
  )

  pub bucket_files-Undoes :
      (r : BucketFiles) (rest : List ℕ)
      → BucketFilesFits r
      → get_bucket_files w (good (put_bucket_files w r rest)) ≡ (r, good rest)
  unfolding put_bucket_files get_bucket_files
  bucket_files-Undoes r rest fits =
      simp
        (
          laws.bytes,
          get_list-put_list w laws IsShort (put w.bytes) (w.bytes.get) (laws.bytes)
              (λ b rest. put-Advances (w.bytes.layout b) rest (omega (arith, laws.bytes_size b))),
          fits.name,
          fits.paths,
          fits.few_paths,
        )
        refl

  pub bucket_files-Advances :
      (r : BucketFiles) (rest : List ℕ) → length rest < length (put_bucket_files w r rest)
  unfolding put_bucket_files
  bucket_files-Advances r rest = omega (
    arith,
    length-put_list w (put w.bytes)
        (λ b rest. put-Advances (w.bytes.layout b) rest (omega (arith, laws.bytes_size b))) r.paths
        (rest),
    length-append (w.bytes.layout r.name) (put_list w (put w.bytes) r.paths (rest)),
    laws.bytes_size r.name,
  )

  pub request_metadata_request-Undoes :
      (r : RequestMetadataRequest) (rest : List ℕ)
      → RequestMetadataRequestFits r
      → get_request_metadata_request w
          (good (put_request_metadata_request w r (put w.signature r.signature rest)))
        ≡ (r, good rest)
  unfolding put_request_metadata_request get_request_metadata_request
  request_metadata_request-Undoes r rest fits =
      simp
        (
          laws.key,
          get_list-put_list w laws BucketFilesFits (put_bucket_files w) (get_bucket_files w)
              bucket_files-Undoes bucket_files-Advances,
          laws.signature,
          fits.pub_key,
          fits.present_objects,
          fits.few_present_objects,
          fits.signature,
        )
        refl

  pub update_slab_request-Undoes :
      (r : UpdateSlabRequest) (rest : List ℕ)
      → UpdateSlabRequestFits r
      → get_update_slab_request w
          (good (put_update_slab_request w r (put w.signature r.signature rest)))
        ≡ (r, good rest)
  unfolding put_update_slab_request get_update_slab_request
  update_slab_request-Undoes r rest fits =
      simp
        (laws.key, slab-Undoes, laws.flag, laws.signature, fits.pub_key, fits.slab, fits.signature)
        refl

  pub request_slabs_request-Undoes :
      (r : RequestSlabsRequest) (rest : List ℕ)
      → RequestSlabsRequestFits r
      → get_request_slabs_request w
          (good (put_request_slabs_request w r (put w.signature r.signature rest)))
        ≡ (r, good rest)
  unfolding put_request_slabs_request get_request_slabs_request
  request_slabs_request-Undoes r rest fits =
      simp (laws.key, laws.signature, fits.pub_key, fits.signature) refl

  pub get_settings_request-Undoes :
      (r : GetSettingsRequest) (rest : List ℕ)
      → GetSettingsRequestFits r
      → get_get_settings_request w
          (good (put_get_settings_request w r (put w.signature r.signature rest)))
        ≡ (r, good rest)
  unfolding put_get_settings_request get_get_settings_request
  get_settings_request-Undoes r rest fits =
      simp (laws.key, laws.signature, fits.pub_key, fits.signature) refl
