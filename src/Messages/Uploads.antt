-- ===== src/Messages/Uploads.antt =====
-- provider/encoding.go: the requests about uploads.
pub mod RoundTrip
use sia_satellite.Wire.{put, Wire, State, ◌>>=◌, pure, IsKey, IsSignature, IsWord, IsShort}
use sia_satellite.Prelude.{ℕ, Bool, List}

pub record UploadRequest : Type 0 where
  pub pub_key : ℕ
  pub bucket : List ℕ
  pub path : List ℕ
  pub mime_type : List ℕ
  pub encrypted : Bool
  pub signature : ℕ

unfoldable pub put_upload_request : Wire → UploadRequest → List ℕ → List ℕ
put_upload_request w r rest = put w.key r.pub_key (
    put w.bytes r.bucket
      (put w.bytes r.path (put w.bytes r.mime_type (put w.flag r.encrypted rest))))

unfoldable pub get_upload_request : Wire → State UploadRequest
get_upload_request w = do
  pub_key ← w.key.get
  bucket ← w.bytes.get
  path ← w.bytes.get
  mime_type ← w.bytes.get
  encrypted ← w.flag.get
  signature ← w.signature.get
  pure (record {
    pub_key = pub_key;
    bucket = bucket;
    path = path;
    mime_type = mime_type;
    encrypted = encrypted;
    signature = signature;
  })

pub record UploadRequestFits (r : UploadRequest) : Type 0 where
  pub pub_key : IsKey r.pub_key
  pub bucket : IsShort r.bucket
  pub path : IsShort r.path
  pub mime_type : IsShort r.mime_type
  pub signature : IsSignature r.signature

pub record UploadResponse : Type 0 where
  pub filesize : ℕ

unfoldable pub put_upload_response : Wire → UploadResponse → List ℕ → List ℕ
put_upload_response w r rest = put w.word r.filesize rest

unfoldable pub get_upload_response : Wire → State UploadResponse
get_upload_response w = do filesize ← w.word.get; pure (record { filesize = filesize })

pub record UploadResponseFits (r : UploadResponse) : Type 0 where
  pub filesize : IsWord r.filesize

pub record UploadData : Type 0 where
  pub chunk : List ℕ
  pub more : Bool

unfoldable pub put_upload_data : Wire → UploadData → List ℕ → List ℕ
put_upload_data w r rest = put w.bytes r.chunk (put w.flag r.more rest)

unfoldable pub get_upload_data : Wire → State UploadData
get_upload_data w = do
  chunk ← w.bytes.get
  more ← w.flag.get
  pure (record { chunk = chunk; more = more })

pub record UploadDataFits (r : UploadData) : Type 0 where
  pub chunk : IsShort r.chunk

pub record RegisterMultipartRequest : Type 0 where
  pub pub_key : ℕ
  pub key : ℕ
  pub bucket : List ℕ
  pub path : List ℕ
  pub mime_type : List ℕ
  pub encrypted : Bool
  pub signature : ℕ

unfoldable pub put_register_multipart_request : Wire → RegisterMultipartRequest → List ℕ → List ℕ
put_register_multipart_request w r rest = put w.key r.pub_key (
    put w.key r.key (
      put w.bytes r.bucket
        (put w.bytes r.path (put w.bytes r.mime_type (put w.flag r.encrypted rest)))))

unfoldable pub get_register_multipart_request : Wire → State RegisterMultipartRequest
get_register_multipart_request w = do
  pub_key ← w.key.get
  key ← w.key.get
  bucket ← w.bytes.get
  path ← w.bytes.get
  mime_type ← w.bytes.get
  encrypted ← w.flag.get
  signature ← w.signature.get
  pure (record {
    pub_key = pub_key;
    key = key;
    bucket = bucket;
    path = path;
    mime_type = mime_type;
    encrypted = encrypted;
    signature = signature;
  })

pub record RegisterMultipartRequestFits (r : RegisterMultipartRequest) : Type 0 where
  pub pub_key : IsKey r.pub_key
  pub key : IsKey r.key
  pub bucket : IsShort r.bucket
  pub path : IsShort r.path
  pub mime_type : IsShort r.mime_type
  pub signature : IsSignature r.signature

pub record DeleteMultipartRequest : Type 0 where
  pub pub_key : ℕ
  pub upload_id : ℕ
  pub signature : ℕ

unfoldable pub put_delete_multipart_request : Wire → DeleteMultipartRequest → List ℕ → List ℕ
put_delete_multipart_request w r rest = put w.key r.pub_key (put w.key r.upload_id rest)

unfoldable pub get_delete_multipart_request : Wire → State DeleteMultipartRequest
get_delete_multipart_request w = do
  pub_key ← w.key.get
  upload_id ← w.key.get
  signature ← w.signature.get
  pure (record { pub_key = pub_key; upload_id = upload_id; signature = signature })

pub record DeleteMultipartRequestFits (r : DeleteMultipartRequest) : Type 0 where
  pub pub_key : IsKey r.pub_key
  pub upload_id : IsKey r.upload_id
  pub signature : IsSignature r.signature

pub record UploadPartRequest : Type 0 where
  pub pub_key : ℕ
  pub upload_id : ℕ
  pub part_no : ℕ
  pub signature : ℕ

unfoldable pub put_upload_part_request : Wire → UploadPartRequest → List ℕ → List ℕ
put_upload_part_request w r rest =
    put w.key r.pub_key (put w.key r.upload_id (put w.word r.part_no rest))

unfoldable pub get_upload_part_request : Wire → State UploadPartRequest
get_upload_part_request w = do
  pub_key ← w.key.get
  upload_id ← w.key.get
  part_no ← w.word.get
  signature ← w.signature.get
  pure (record {
    pub_key = pub_key;
    upload_id = upload_id;
    part_no = part_no;
    signature = signature;
  })

pub record UploadPartRequestFits (r : UploadPartRequest) : Type 0 where
  pub pub_key : IsKey r.pub_key
  pub upload_id : IsKey r.upload_id
  pub part_no : IsWord r.part_no
  pub signature : IsSignature r.signature

pub record CompleteMultipartRequest : Type 0 where
  pub pub_key : ℕ
  pub upload_id : ℕ
  pub signature : ℕ

unfoldable pub put_complete_multipart_request : Wire → CompleteMultipartRequest → List ℕ → List ℕ
put_complete_multipart_request w r rest = put w.key r.pub_key (put w.key r.upload_id rest)

unfoldable pub get_complete_multipart_request : Wire → State CompleteMultipartRequest
get_complete_multipart_request w = do
  pub_key ← w.key.get
  upload_id ← w.key.get
  signature ← w.signature.get
  pure (record { pub_key = pub_key; upload_id = upload_id; signature = signature })

pub record CompleteMultipartRequestFits (r : CompleteMultipartRequest) : Type 0 where
  pub pub_key : IsKey r.pub_key
  pub upload_id : IsKey r.upload_id
  pub signature : IsSignature r.signature
