-- ===== src/Object/Streams.antt =====
-- EncryptionKey.Encrypt and Decrypt of internal/object/object.go, and the stream that takes a new nonce
-- when the counter of chacha20 is used up.
pub mod Written
pub mod RoundTrip
use sia_satellite.Prelude.{
  ℕ, suc, ◌+◌, ◌-◌, ◌*◌, ◌/◌, ◌%◌, ◌^◌, Option, none, some, List, [], ◌∷◌, ◌++◌, ltb, ◌==◌,
  if◌then◌else◌, length, take, drop, ◌>>=◌,
}
use sia_satellite.Object.{Cipher, xor_from}

-- 64 * math.MaxUint32, and what chacha20 has under one nonce.
abbrev pub rekey_at : ℕ
rekey_at = 64 * (2 ^ 32 - 1)

abbrev pub one_nonce : ℕ
one_nonce = 64 * 2 ^ 32

-- The last 8 bytes of a nonce of 24.
abbrev pub object_nonce : ℕ → ℕ
object_nonce n = n % 2 ^ 64 * 2 ^ 128

-- rekeyStream: the counter, the nonce, and the cipher's own nonce and position.
pub record RekeyStream : Type 0 where
  pub counter : ℕ
  pub nonce : ℕ
  pub cipher_nonce : ℕ
  pub cipher_pos : ℕ

-- chacha20's XORKeyStream; `none` is its panic when the counter would overflow.
abbrev pub cipher_from : Cipher → ℕ → ℕ → ℕ → List ℕ → Option (List ℕ)
cipher_from c key nonce pos bytes =
    if ltb one_nonce (pos + length bytes)
    then none
    else some (xor_from c (c.keystream key (object_nonce nonce)) pos bytes)

-- `rekeyStream.XORKeyStream`
unfoldable pub xor_key_stream : Cipher → ℕ → RekeyStream → List ℕ → Option (RekeyStream × List ℕ)
xor_key_stream c key rs src =
    let counter = (rs.counter + length src) % 2 ^ 64 in
    if ltb counter rekey_at
    then (do
      out ← cipher_from c key rs.cipher_nonce rs.cipher_pos src
      some (record rs { counter = counter; cipher_pos = rs.cipher_pos + length src }, out))
    else (let rem = rekey_at - (counter - length src) in
        let nonce = suc rs.nonce % 2 ^ 64 in
        if ltb (length src) rem then none else (do
          out ← cipher_from c key rs.cipher_nonce rs.cipher_pos (take rem src)
          more ← cipher_from c key nonce 0 (drop rem src)
          some (
            record {
              counter = counter - rekey_at;
              nonce = nonce;
              cipher_nonce = nonce;
              cipher_pos = length src - rem;
            },
            out ++ more,
          )))

-- NoOpKey, all of whose bytes are zero: its streams copy.
abbrev pub noop_key : ℕ
noop_key = 0

-- `Encrypt` with another key, at an offset; `none` is its error.
abbrev pub encrypt_stream : ℕ → Option RekeyStream
encrypt_stream offset =
    if offset % 64 == 0
    then some (record {
      counter = 0;
      nonce = 0;
      cipher_nonce = offset / rekey_at;
      cipher_pos = offset % rekey_at / 64 * 64;
    })
    else none

-- `Decrypt` with another key, at an offset: the block of the offset, less the bytes of it in front.
abbrev pub decrypt_stream : ℕ → RekeyStream
decrypt_stream offset = record {
  counter = offset % rekey_at;
  nonce = offset / rekey_at;
  cipher_nonce = offset / rekey_at;
  cipher_pos = offset % rekey_at / 64 * 64 + offset % rekey_at % 64;
}

-- The writes to a stream, one after the other.
unfoldable pub stream_all : Cipher → ℕ → RekeyStream → List (List ℕ) → Option (List ℕ)
unfolding xor_key_stream
stream_all c key rs [] = some []
stream_all c key rs (src ∷ writes) = do
  r ← xor_key_stream c key rs src
  out ← stream_all c key r.0 writes
  some (r.1 ++ out)
