-- ===== src/Messages/Metadata.antt =====
-- provider/encoding.go and modules/manager.go: renewals and the metadata of files. Both make a slice of
-- a length that the message gives and no count of bytes bounds; `none` is the panic of `make`.
pub mod RoundTrip
use sia_satellite.Wire.{
  Decoder, put, Wire, State, ◌>>=◌, pure, put_all, get_all, put_list, get_list, IsKey, IsSignature,
  IsShort,
}
use sia_satellite.Prelude.{
  ℕ, zero, suc, ◌*◌, ◌^◌, ◌≤◌, ◌<◌, Bool, not, Option, none, some, List, [], ◌∷◌, ltb,
  if◌then◌else◌, length, All,
}
use sia_satellite.Messages.Terms.{Terms, put_terms, get_terms, TermsFits}
use sia_satellite.Messages.Files.{Slab, put_slab, get_slab, SlabFits}

-- `make` panics for a slice of more bytes than the address space of the run time, 2 ^ 48, which no
-- negative length passes either.
abbrev pub can_make : ℕ → ℕ → Bool
can_make count size = not (ltb (2 ^ 48) (count * size))

abbrev pub zeros : ℕ → List ℕ
zeros zero = []
zeros (suc n) = 0 ∷ zeros n

pub record RenewRequest : Type 0 where
  pub pub_key : ℕ
  pub secret_key : List ℕ
  pub contracts : List ℕ
  pub terms : Terms
  pub signature : ℕ

unfoldable pub put_renew_request : Wire → RenewRequest → List ℕ → List ℕ
put_renew_request w r rest = put w.key r.pub_key (
    put w.bytes r.secret_key (
      put w.word (length r.contracts) (put_all (put w.key) r.contracts (put_terms w r.terms rest))))

-- What follows the count of contracts.
unfoldable pub get_renew_tail : Wire → ℕ → List ℕ → ℕ → State RenewRequest
get_renew_tail w pub_key secret_key count = do
  contracts ← get_all w.key.get count
  terms ← get_terms w
  signature ← w.signature.get
  pure (record {
    pub_key = pub_key;
    secret_key = secret_key;
    contracts = contracts;
    terms = terms;
    signature = signature;
  })

unfoldable pub get_renew_request : Wire → Decoder → Option (RenewRequest × Decoder)
unfolding get_renew_tail
get_renew_request w d =
    let k = w.key.get d in
    let s = w.bytes.get k.1 in
    let n = w.word.get s.1 in
    if can_make n.0 32 then some (get_renew_tail w k.0 s.0 n.0 n.1) else none

-- modules.FileMetadata
pub record FileMetadata : Type 0 where
  pub key : ℕ
  pub bucket : List ℕ
  pub path : List ℕ
  pub etag : List ℕ
  pub mime_type : List ℕ
  pub encrypted : List ℕ
  pub slabs : List Slab
  pub content : List ℕ

unfoldable pub put_file_metadata : Wire → FileMetadata → List ℕ → List ℕ
put_file_metadata w r rest = put w.key r.key (
    put w.bytes r.bucket (
      put w.bytes r.path (
        put w.text r.etag (
          put w.bytes r.mime_type
            (put w.text r.encrypted (put_list w (put_slab w) r.slabs rest))))))

-- DecodeFrom leaves the content alone, which is empty in a new value.
unfoldable pub get_file_metadata : Wire → State FileMetadata
get_file_metadata w = do
  key ← w.key.get
  bucket ← w.bytes.get
  path ← w.bytes.get
  etag ← w.text.get
  mime_type ← w.bytes.get
  encrypted ← w.text.get
  slabs ← get_list w (get_slab w)
  pure (record {
    key = key;
    bucket = bucket;
    path = path;
    etag = etag;
    mime_type = mime_type;
    encrypted = encrypted;
    slabs = slabs;
    content = [];
  })

pub record SaveMetadataRequest : Type 0 where
  pub pub_key : ℕ
  pub metadata : FileMetadata
  pub data_size : ℕ
  pub signature : ℕ

unfoldable pub put_save_metadata_request : Wire → SaveMetadataRequest → List ℕ → List ℕ
put_save_metadata_request w r rest =
    put w.key r.pub_key (put_file_metadata w r.metadata (put w.word r.data_size rest))

-- The content is not in the message: it is made of zeros, to be filled from the stream.
unfoldable pub get_save_metadata_request : Wire → Decoder → Option (SaveMetadataRequest × Decoder)
get_save_metadata_request w d =
    let k = w.key.get d in
    let m = get_file_metadata w k.1 in
    let n = w.word.get m.1 in
    let s = w.signature.get n.1 in
    if can_make n.0 1
    then some (
      record {
        pub_key = k.0;
        metadata = record m.0 { content = zeros n.0 };
        data_size = n.0;
        signature = s.0;
      },
      s.1,
    )
    else none

-- requestMetadataResponse and requestSlabsResponse
unfoldable pub put_request_metadata_response : Wire → List FileMetadata → Bool → List ℕ → List ℕ
put_request_metadata_response w metadata more rest =
    put_list w (λ fm out. put_file_metadata w fm (put w.word (length fm.content) out)) metadata
      (put w.flag more rest)

unfoldable pub put_request_slabs_response : Wire → List Slab → List ℕ → List ℕ
put_request_slabs_response w slabs rest = put_list w (put_slab w) slabs rest

pub record RenewRequestFits (r : RenewRequest) : Type 0 where
  pub pub_key : IsKey r.pub_key
  pub secret_key : IsShort r.secret_key
  pub contracts : All IsKey r.contracts
  pub few_contracts : length r.contracts * 32 ≤ 2 ^ 48
  pub terms : TermsFits r.terms
  pub signature : IsSignature r.signature

pub record FileMetadataFits (r : FileMetadata) : Type 0 where
  pub key : IsKey r.key
  pub bucket : IsShort r.bucket
  pub path : IsShort r.path
  pub etag : IsShort r.etag
  pub mime_type : IsShort r.mime_type
  pub encrypted : IsShort r.encrypted
  pub slabs : All SlabFits r.slabs
  pub few_slabs : length r.slabs < 2 ^ 63

pub record SaveMetadataRequestFits (r : SaveMetadataRequest) : Type 0 where
  pub pub_key : IsKey r.pub_key
  pub metadata : FileMetadataFits r.metadata
  pub data_size : r.data_size ≤ 2 ^ 48
  pub signature : IsSignature r.signature

-- The request as it is read: the content is not sent.
abbrev pub canonical_save : SaveMetadataRequest → SaveMetadataRequest
canonical_save r = record r { metadata = record r.metadata { content = zeros r.data_size } }
