-- ===== src/Session/Requests.antt =====
-- A signed request through a frame: what the provider reads, and the hash that it checks the signature
-- with.
use sia_satellite.Wire.{Decoder, good, put, Wire, State, WireLaws}
use sia_satellite.Prelude.{
  ℕ, ◌+◌, ◌^◌, ◌≤◌, ◌<◌, ◌≡◌, refl, sym, ap, ◌∙◌, Bool, true, false, Option, none, some, List, [],
  ◌++◌, append_assoc, arith, if◌then◌else◌, length,
}
use sia_satellite.Messages.Terms.{put_terms}
use sia_satellite.Messages.Settings.{
  put_if, no_terms, UpdateSettingsRequest, wants_account, wants_key, put_update_settings_request,
  canonical_settings,
}
use sia_satellite.Messages.Metadata.{
  put_file_metadata, SaveMetadataRequest, put_save_metadata_request, canonical_save,
}
use sia_satellite.Messages.Requests.{
  Rpc, Request, request_contracts_request, form_contracts_request, renew_contracts_request,
  update_revision_request, form_contract_request, renew_contract_request, get_settings_request,
  update_settings_request, save_metadata_request, request_metadata_request, update_slab_request,
  request_slabs_request, share_contracts_request, upload_file_request, register_multipart_request,
  delete_multipart_request, upload_part_request, complete_multipart_request, rpc_of, signature_of,
  put_request, put_signed, get_request, RequestFits, canonical,
}
use sia_satellite.Messages.Requests.RoundTrip.{get_request-put_signed}
use sia_satellite.Messages.Appends.{put_request-append}
use sia_satellite.Session.Frames.{read_message-write_message}
use sia_satellite.Session.{Aead, AeadLaws, received, write_message, hashed, read_request}

abbrev pub read_value : Option (Request × Decoder) → Option Request
read_value none = none
read_value (some (q, d)) = some q

-- A request that made its reader panic is `none`.
abbrev pub request_reader : Wire → Rpc → State (Option Request)
request_reader w k d = (read_value (get_request w k d), d)

abbrev pub put_read : Wire → Option Request → List ℕ → List ℕ
put_read w none rest = rest
put_read w (some q) rest = put_request w q rest

put_if-canonical :
    {A : Type 0} (b : Bool) (f : A → List ℕ → List ℕ) (x y : A) (rest : List ℕ)
    → put_if b (f (if b then x else y)) rest ≡ put_if b (f x) rest
put_if-canonical true f x y rest = refl
put_if-canonical false f x y rest = refl

module _ (w : Wire) where
  settings-canonical :
      (r : UpdateSettingsRequest) (rest : List ℕ)
      → put_update_settings_request w (canonical_settings r) rest
        ≡ put_update_settings_request w r rest
  unfolding put_update_settings_request
  settings-canonical r rest =
      rw
        (
          put_if-canonical r.settings.auto_renew_contracts (put_terms w) r.terms no_terms rest,
          put_if-canonical (wants_account r.settings) (put w.bytes) r.account_key []
              (put_if r.settings.auto_renew_contracts (put_terms w r.terms) rest),
          put_if-canonical (wants_key r.settings) (put w.bytes) r.private_key [] (
              put_if (wants_account r.settings) (put w.bytes r.account_key)
                (put_if r.settings.auto_renew_contracts (put_terms w r.terms) rest)),
        )
        refl

  metadata-canonical :
      (r : SaveMetadataRequest) (rest : List ℕ)
      → put_save_metadata_request w (canonical_save r) rest ≡ put_save_metadata_request w r rest
  unfolding put_save_metadata_request put_file_metadata
  metadata-canonical r rest = refl

  put_request-canonical :
      (q : Request) (rest : List ℕ) → put_request w (canonical q) rest ≡ put_request w q rest
  put_request-canonical (request_contracts_request r) rest = refl
  put_request-canonical (form_contracts_request r) rest = refl
  put_request-canonical (renew_contracts_request r) rest = refl
  put_request-canonical (update_revision_request r) rest = refl
  put_request-canonical (form_contract_request r) rest = refl
  put_request-canonical (renew_contract_request r) rest = refl
  put_request-canonical (get_settings_request r) rest = refl
  put_request-canonical (update_settings_request r) rest = settings-canonical r rest
  put_request-canonical (save_metadata_request r) rest = metadata-canonical r rest
  put_request-canonical (request_metadata_request r) rest = refl
  put_request-canonical (update_slab_request r) rest = refl
  put_request-canonical (request_slabs_request r) rest = refl
  put_request-canonical (share_contracts_request r) rest = refl
  put_request-canonical (upload_file_request r) rest = refl
  put_request-canonical (register_multipart_request r) rest = refl
  put_request-canonical (delete_multipart_request r) rest = refl
  put_request-canonical (upload_part_request r) rest = refl
  put_request-canonical (complete_multipart_request r) rest = refl

  signed-append : (q : Request) (rest : List ℕ) → put_signed w q [] ++ rest ≡ put_signed w q rest
  signed-append q rest =
      let s = w.signature.layout (signature_of q) in
      ap (λ t. t ++ rest) (put_request-append w q (s ++ []))
      ∙ append_assoc (put_request w q []) (s ++ []) rest
      ∙ ap (λ t. put_request w q [] ++ t) (append_assoc s [] rest)
      ∙ sym (put_request-append w q (s ++ rest))

  request_read :
      WireLaws w
      → (q : Request) → RequestFits q
      → (rest : List ℕ)
      → (request_reader w (rpc_of q) (good (put_signed w q [] ++ rest))).0 ≡ some (canonical q)
  request_read laws q fits rest =
      ap (λ s. read_value (get_request w (rpc_of q) (good s))) (signed-append q rest)
      ∙ ap read_value (get_request-put_signed w laws q rest fits)

  module _ (laws : WireLaws w) (a : Aead) (aead : AeadLaws a) where
    -- A signed request that fits the wire and the limit of its RPC is received as it was sent, but for
    -- what is not sent, and without a panic; and the hash that the provider computes from what it has
    -- read is the hash of the bytes that the renter has signed. The nonce has its size, and the limit
    -- does not exceed 63 bits.
    pub read_request-write_message :
        (hash : List ℕ → ℕ) (q : Request) (padding : ℕ → List ℕ) (nonce more : List ℕ) (max_len : ℕ)
        → RequestFits q
        → length nonce ≡ a.nonce_size
        → ((n : ℕ) → length (padding n) ≡ n)
        → a.nonce_size + length (put_signed w q []) + a.overhead ≤ max_len
        → max_len < 2 ^ 63
        → read_request w a hash
            (request_reader w (rpc_of q))
            (put_read w)
            max_len
            (write_message w a padding nonce (put_signed w q []) ++ more)
          ≡ received (some (canonical q), hash (put_request w q []))
    unfolding read_request
    read_request-write_message hash q padding nonce more max_len fits sized pads small bounded =
        ap (hashed hash (put_read w)) (
          read_message-write_message w laws a aead (request_reader w (rpc_of q)) padding nonce
            (put_signed w q []) more (some (canonical q)) max_len sized pads
            (request_read laws q fits) (omega (arith, small)) bounded)
        ∙ ap (λ s. received (some (canonical q), hash s)) (put_request-canonical q [])
