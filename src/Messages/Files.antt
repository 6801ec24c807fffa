-- ===== src/Messages/Files.antt =====
-- provider/encoding.go and modules/manager.go: the requests about slabs and the metadata of files. An
-- integer on the wire is its 64-bit word.
pub mod RoundTrip
use sia_satellite.Wire.{
  put, Wire, State, ◌>>=◌, pure, put_list, get_list, IsKey, IsSignature, IsWord, IsShort,
}
use sia_satellite.Prelude.{ℕ, ◌%◌, ◌^◌, ◌<◌, Bool, List, length, All}

pub record Shard : Type 0 where
  pub host : ℕ
  pub root : ℕ

unfoldable pub put_shard : Wire → Shard → List ℕ → List ℕ
put_shard w r rest = put w.key r.host (put w.key r.root rest)

unfoldable pub get_shard : Wire → State Shard
get_shard w = do host ← w.key.get; root ← w.key.get; pure (record { host = host; root = root })

pub record ShardFits (r : Shard) : Type 0 where
  pub host : IsKey r.host
  pub root : IsKey r.root

pub record Slab : Type 0 where
  pub key : ℕ
  pub min_shards : ℕ
  pub offset : ℕ
  pub length_of : ℕ
  pub partial : Bool
  pub shards : List Shard

unfoldable pub put_slab : Wire → Slab → List ℕ → List ℕ
put_slab w r rest = put w.key r.key (
    put w.word r.min_shards (
      put w.word r.offset
        (put w.word r.length_of (put w.flag r.partial (put_list w (put_shard w) r.shards rest)))))

unfoldable pub get_slab : Wire → State Slab
get_slab w = do
  key ← w.key.get
  min_shards ← w.word.get
  offset ← w.word.get
  length_of ← w.word.get
  partial ← w.flag.get
  shards ← get_list w (get_shard w)
  pure (record {
    key = key;
    min_shards = min_shards % 256;
    offset = offset;
    length_of = length_of;
    partial = partial;
    shards = shards;
  })

pub record SlabFits (r : Slab) : Type 0 where
  pub key : IsKey r.key
  pub min_shards : r.min_shards < 256
  pub offset : IsWord r.offset
  pub length_of : IsWord r.length_of
  pub shards : All ShardFits r.shards
  pub few_shards : length r.shards < 2 ^ 63

pub record BucketFiles : Type 0 where
  pub name : List ℕ
  pub paths : List (List ℕ)

unfoldable pub put_bucket_files : Wire → BucketFiles → List ℕ → List ℕ
put_bucket_files w r rest = put w.bytes r.name (put_list w (put w.bytes) r.paths rest)

unfoldable pub get_bucket_files : Wire → State BucketFiles
get_bucket_files w = do
  name ← w.bytes.get
  paths ← get_list w w.bytes.get
  pure (record { name = name; paths = paths })

pub record BucketFilesFits (r : BucketFiles) : Type 0 where
  pub name : IsShort r.name
  pub paths : All IsShort r.paths
  pub few_paths : length r.paths < 2 ^ 63

pub record RequestMetadataRequest : Type 0 where
  pub pub_key : ℕ
  pub present_objects : List BucketFiles
  pub signature : ℕ

unfoldable pub put_request_metadata_request : Wire → RequestMetadataRequest → List ℕ → List ℕ
put_request_metadata_request w r rest =
    put w.key r.pub_key (put_list w (put_bucket_files w) r.present_objects rest)

unfoldable pub get_request_metadata_request : Wire → State RequestMetadataRequest
get_request_metadata_request w = do
  pub_key ← w.key.get
  present_objects ← get_list w (get_bucket_files w)
  signature ← w.signature.get
  pure (record { pub_key = pub_key; present_objects = present_objects; signature = signature })

pub record RequestMetadataRequestFits (r : RequestMetadataRequest) : Type 0 where
  pub pub_key : IsKey r.pub_key
  pub present_objects : All BucketFilesFits r.present_objects
  pub few_present_objects : length r.present_objects < 2 ^ 63
  pub signature : IsSignature r.signature

pub record UpdateSlabRequest : Type 0 where
  pub pub_key : ℕ
  pub slab : Slab
  pub packed : Bool
  pub signature : ℕ

unfoldable pub put_update_slab_request : Wire → UpdateSlabRequest → List ℕ → List ℕ
put_update_slab_request w r rest =
    put w.key r.pub_key (put_slab w r.slab (put w.flag r.packed rest))

unfoldable pub get_update_slab_request : Wire → State UpdateSlabRequest
get_update_slab_request w = do
  pub_key ← w.key.get
  slab ← get_slab w
  packed ← w.flag.get
  signature ← w.signature.get
  pure (record { pub_key = pub_key; slab = slab; packed = packed; signature = signature })

pub record UpdateSlabRequestFits (r : UpdateSlabRequest) : Type 0 where
  pub pub_key : IsKey r.pub_key
  pub slab : SlabFits r.slab
  pub signature : IsSignature r.signature

pub record RequestSlabsRequest : Type 0 where
  pub pub_key : ℕ
  pub signature : ℕ

unfoldable pub put_request_slabs_request : Wire → RequestSlabsRequest → List ℕ → List ℕ
put_request_slabs_request w r rest = put w.key r.pub_key rest

unfoldable pub get_request_slabs_request : Wire → State RequestSlabsRequest
get_request_slabs_request w = do
  pub_key ← w.key.get
  signature ← w.signature.get
  pure (record { pub_key = pub_key; signature = signature })

pub record RequestSlabsRequestFits (r : RequestSlabsRequest) : Type 0 where
  pub pub_key : IsKey r.pub_key
  pub signature : IsSignature r.signature

pub record GetSettingsRequest : Type 0 where
  pub pub_key : ℕ
  pub signature : ℕ

unfoldable pub put_get_settings_request : Wire → GetSettingsRequest → List ℕ → List ℕ
put_get_settings_request w r rest = put w.key r.pub_key rest

unfoldable pub get_get_settings_request : Wire → State GetSettingsRequest
get_get_settings_request w = do
  pub_key ← w.key.get
  signature ← w.signature.get
  pure (record { pub_key = pub_key; signature = signature })

pub record GetSettingsRequestFits (r : GetSettingsRequest) : Type 0 where
  pub pub_key : IsKey r.pub_key
  pub signature : IsSignature r.signature
