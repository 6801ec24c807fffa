-- ===== src/Session/Examples.antt =====
-- The theorems on messages and sessions at concrete ones.
use sia_satellite.Wire.{good, put_list}
use sia_satellite.Prelude.{
  ℕ, zero, suc, ◌+◌, ◌*◌, ◌≤◌, ◌≡◌, refl, ap, true, false, Option, none, some, List, [], ◌∷◌, ◌++◌,
  arith, length,
}
use sia_satellite.Wire.Concrete.{concrete, concrete-WireLaws}
use sia_satellite.Messages.Terms.{put_terms, get_terms}
use sia_satellite.Messages.Settings.{
  no_terms, put_get_settings_response, UpdateSettingsRequest, put_update_settings_request,
}
use sia_satellite.Messages.Uploads.{UploadResponse, put_upload_response, get_upload_response}
use sia_satellite.Messages.Uploads.RoundTrip.{upload_response-Undoes}
use sia_satellite.Messages.Metadata.{zeros}
use sia_satellite.Messages.Requests.{
  update_settings, Request, update_settings_request, put_request, put_signed, get_request,
  RequestFits, canonical,
}
use sia_satellite.Messages.Requests.RoundTrip.{get_request-put_signed, put_request_determines}
use sia_satellite.Session.{Aead, AeadLaws, received, write_message, read_message, read_request}
use sia_satellite.Session.Handshake.{
  Specifiers, Keys, LoopKeyExchangeRequest, put_loop_key_exchange_request, handshake, Answers,
  handshake-Answers,
}
use sia_satellite.Session.Requests.{request_reader, put_read, read_request-write_message}
use sia_satellite.Session.Frames.{refusal, read_message-refusal}

abbrev some_settings : UpdateSettingsRequest
some_settings = record {
  pub_key = 3;
  settings = record {
    auto_renew_contracts = true;
    backup_file_metadata = false;
    auto_repair_files = false;
    proxy_uploads = false;
  };
  private_key = 8 ∷ 9 ∷ [];
  account_key = 4 ∷ [];
  terms = record no_terms { hosts = 50; max_rpc_price = 7; upload_packing = true };
  signature = 12;
}

abbrev request : Request
request = update_settings_request some_settings

request-RequestFits : RequestFits request
request-RequestFits = record {
  pub_key = omega arith;
  private_key = omega arith;
  account_key = omega arith;
  terms = record {
    hosts = omega arith;
    period = omega arith;
    renew_window = omega arith;
    storage = omega arith;
    upload = omega arith;
    download = omega arith;
    min_shards = omega arith;
    total_shards = omega arith;
    max_rpc_price = omega arith;
    max_contract_price = omega arith;
    max_download_price = omega arith;
    max_upload_price = omega arith;
    max_storage_price = omega arith;
    max_sector_access_price = omega arith;
    min_max_collateral = omega arith;
    block_height_leeway = omega arith;
  };
  signature = omega arith;
}

get_request-put_signed_example :
    get_request concrete update_settings (good (put_signed concrete request []))
    ≡ some (canonical request, good [])
get_request-put_signed_example =
    get_request-put_signed concrete concrete-WireLaws request [] request-RequestFits

-- The settings of an account that is not wanted, so that its key is not sent.
abbrev other_request : Request
other_request = update_settings_request (record some_settings { account_key = [] })

other_request-RequestFits : RequestFits other_request
other_request-RequestFits = record {
  pub_key = omega arith;
  private_key = omega arith;
  account_key = omega arith;
  terms = request-RequestFits.terms;
  signature = omega arith;
}

put_request_determines_example : canonical request ≡ canonical other_request
unfolding put_update_settings_request
put_request_determines_example =
    put_request_determines concrete concrete-WireLaws request other_request request-RequestFits
      other_request-RequestFits refl refl refl

abbrev untag : List ℕ → Option (List ℕ)
untag [] = none
untag (b ∷ plain) = some plain

abbrev tagged : Aead
tagged = record {
  nonce_size = 1;
  overhead = 1;
  seal = λ nonce plain. 7 ∷ plain;
  unseal = λ nonce cipher. untag cipher;
}

tagged-AeadLaws : AeadLaws tagged
tagged-AeadLaws = record {
  length-seal = λ nonce plain. omega arith;
  unseal-seal = λ nonce plain. refl;
  small = omega arith;
}

length-zeros : (n : ℕ) → length (zeros n) ≡ n
length-zeros zero = refl
length-zeros (suc n) = omega (arith, length-zeros n)

signed_small : length (put_signed concrete request []) ≤ 1000
unfolding put_update_settings_request put_get_settings_response put_terms
signed_small = omega arith

read_request-write_message_example :
    read_request concrete tagged length
      (request_reader concrete update_settings)
      (put_read concrete)
      5000
      (write_message concrete tagged zeros (5 ∷ []) (put_signed concrete request []) ++ [])
    ≡ received (some (canonical request), length (put_request concrete request []))
read_request-write_message_example =
    read_request-write_message concrete concrete-WireLaws tagged tagged-AeadLaws length request
      zeros (5 ∷ []) [] 5000 request-RequestFits refl length-zeros (omega (arith, signed_small))
      (omega arith)

abbrev offer : LoopKeyExchangeRequest
offer = record { specifier = 1; public_key = 9; ciphers = 4 ∷ 2 ∷ [] }

abbrev specifiers : Specifiers
specifiers = record { loop_enter = 1; cha_cha = 2; no_overlap = 3 }

abbrev keys : Keys
keys = record { public_key = 6; sign = λ k. k + 1; shared_secret = λ k. k * 2 }

offer_small : length (put_loop_key_exchange_request concrete offer []) ≤ 1024
unfolding put_loop_key_exchange_request put_list
offer_small = omega arith

handshake-Answers_example :
    Answers concrete specifiers keys offer
      (handshake concrete specifiers keys (put_loop_key_exchange_request concrete offer []))
handshake-Answers_example =
    handshake-Answers concrete concrete-WireLaws specifiers keys offer
      (record {
        specifier = omega arith;
        public_key = omega arith;
        ciphers = omega arith;
        few_ciphers = omega arith;
      })
      offer_small

abbrev answer_of : UploadResponse
answer_of = record { filesize = 77 }

answer_read :
    (rest : List ℕ)
    → (get_upload_response concrete (good (put_upload_response concrete answer_of [] ++ rest))).0
      ≡ answer_of
unfolding put_upload_response
answer_read rest =
    ap (λ r. r.0)
      (upload_response-Undoes concrete concrete-WireLaws answer_of rest
        (record { filesize = omega arith }))

read_message-refusal_example :
    refusal (read_message concrete tagged (get_upload_response concrete) 10 (1 ∷ []))
    ≡ refusal (read_message concrete tagged (get_terms concrete) 10 (1 ∷ []))
read_message-refusal_example =
    read_message-refusal concrete tagged (get_upload_response concrete) (get_terms concrete) 10
      (1 ∷ [])
