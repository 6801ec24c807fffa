-- ===== src/Object/Streams/RoundTrip.antt =====
-- What one stream encrypts is decrypted by another, from any offset and in writes of other sizes.
use sia_satellite.Prelude.{
  ℕ, zero, suc, ◌+◌, ◌-◌, ◌*◌, ◌/◌, ◌%◌, ◌^◌, ◌≤◌, ◌<◌, ◌≡◌, refl, sym, ap, ◌∙◌, inl, inr, true,
  false, Option, none, some, List, [], ◌∷◌, ◌++◌, append-nil, arith, ltb, ◌==◌, if◌then◌else◌,
  Bool-cases, length, length-append, drop, All, ◌>>=◌, Succeeds-witness,
}
use sia_satellite.Object.{Cipher, xor_from}
use sia_satellite.Object.Streams.{
  rekey_at, one_nonce, RekeyStream, xor_key_stream, noop_key, encrypt_stream, decrypt_stream,
  stream_all,
}
use sia_satellite.Object.Streams.Written.{
  object_stream, At, decrypt_stream-At, xor_from-append, Written, xor_key_stream-Written,
}
use sia_satellite.Object.Stripes.Leaves.{length-drop}

-- The exclusive or with a byte undoes itself.
pub record XorLaws (c : Cipher) : Type 0 where
  pub undo : (b k : ℕ) → c.xor (c.xor b k) k ≡ b

abbrev pub together : List (List ℕ) → List ℕ
together [] = []
together (w ∷ writes) = w ++ together writes

abbrev pub IsShort : List ℕ → Type 0
IsShort w = length w ≤ rekey_at

-- What a stream reader of `Encrypt` gives in reads of the sizes of its parts.
unfoldable pub encrypted : Cipher → ℕ → ℕ → List (List ℕ) → Option (List ℕ)
unfolding stream_all
encrypted c key offset reads = do
  rs ← encrypt_stream offset
  if key == noop_key then some (together reads) else stream_all c key rs reads

-- What a stream writer of `Decrypt` passes on.
unfoldable pub decrypted : Cipher → ℕ → ℕ → List (List ℕ) → Option (List ℕ)
unfolding stream_all
decrypted c key offset writes =
    if key == noop_key
    then some (together writes)
    else stream_all c key (decrypt_stream offset) writes

-- What an object's bytes from a position on are encrypted to.
abbrev pub object_text : Cipher → ℕ → ℕ → List ℕ → List ℕ
object_text c key pos bytes =
    if key == noop_key then bytes else xor_from c (object_stream c key) pos bytes

stream_all-object_stream :
    (c : Cipher) (key pos : ℕ) (rs : RekeyStream) (writes : List (List ℕ))
    → At pos rs
    → All IsShort writes
    → pos + length (together writes) < 2 ^ 64
    → stream_all c key rs writes ≡ some (xor_from c (object_stream c key) pos (together writes))
unfolding stream_all
stream_all-object_stream c key pos rs [] at short small = refl
stream_all-object_stream c key pos rs (w ∷ writes) at (short, shorts) small =
    let count = length-append w (together writes) in
    let (r, e, h) =
      Succeeds-witness (Written c key pos w) (xor_key_stream c key rs w)
        (xor_key_stream-Written c key pos rs w at short (omega (arith, small, count))) in
    let rest =
      stream_all-object_stream c key (pos + length w) r.0 writes h.0 shorts
        (omega (arith, small, count)) in
    rw (e, rest, h.1)
      (ap some (sym (xor_from-append c (object_stream c key) pos w (together writes))))

drop-xor_from :
    (c : Cipher) (s : ℕ → ℕ) (n p : ℕ) (xs : List ℕ)
    → drop n (xor_from c s p xs) ≡ xor_from c s (n + p) (drop n xs)
drop-xor_from c s zero p xs = ap (λ k. xor_from c s k xs) (omega arith)
drop-xor_from c s (suc n) p [] = refl
drop-xor_from c s (suc n) p (x ∷ xs) =
    drop-xor_from c s n (suc p) xs ∙ ap (λ k. xor_from c s k (drop n xs)) (omega arith)

xor_from_undo :
    (c : Cipher) (s : ℕ → ℕ) (p : ℕ) (xs : List ℕ)
    → XorLaws c
    → xor_from c s p (xor_from c s p xs) ≡ xs
xor_from_undo c s p [] laws = refl
xor_from_undo c s p (x ∷ xs) laws =
    let first = laws.undo x (s p) in let rest = xor_from_undo c s (suc p) xs laws in cc

length-xor_from :
    (c : Cipher) (s : ℕ → ℕ) (p : ℕ) (xs : List ℕ) → length (xor_from c s p xs) ≡ length xs
length-xor_from c s p [] = refl
length-xor_from c s p (x ∷ xs) = omega (arith, length-xor_from c s (suc p) xs)

rekeyed-encrypted :
    (c : Cipher) (key offset : ℕ) (reads writes : List (List ℕ))
    → key == noop_key ≡ false
    → XorLaws c
    → All IsShort reads
    → All IsShort writes
    → length (together reads) < 2 ^ 64
    → offset ≤ length (together reads)
    → together writes ≡ drop offset (xor_from c (object_stream c key) 0 (together reads))
    → (encrypted c key 0 reads ≡ some (xor_from c (object_stream c key) 0 (together reads)))
      × (decrypted c key offset writes ≡ some (drop offset (together reads)))
unfolding encrypted decrypted
rekeyed-encrypted c key offset reads writes other laws shorts shorts' small inside tail =
    let stream = object_stream c key in
    let plain = together reads in
    let at : At 0 (record { counter = 0; nonce = 0; cipher_nonce = 0; cipher_pos = 0 }) = record {
      counter = omega arith;
      nonce = omega arith;
      cipher_nonce = omega arith;
      cipher_pos = omega arith;
    } in
    let shifted : together writes ≡ xor_from c stream offset (drop offset plain) =
      tail
      ∙ drop-xor_from c stream offset 0 plain
      ∙ ap (λ k. xor_from c stream k (drop offset plain)) (omega arith) in
    let count : length (together writes) ≡ length plain - offset =
      ap length shifted
      ∙ length-xor_from c stream offset (drop offset plain)
      ∙ length-drop offset plain in
    let read = stream_all-object_stream c key 0 _ reads at shorts (omega (arith, small)) in
    let written =
      stream_all-object_stream c key offset (decrypt_stream offset) writes
        (decrypt_stream-At offset) shorts' (omega (arith, count, inside, small)) in
    rw other (
      read,
      written
          ∙ ap (λ xs. some (xor_from c stream offset xs)) shifted
          ∙ ap some (xor_from_undo c stream offset (drop offset plain) laws),
    )

-- Data below 2^64 bytes that is read from `Encrypt` at offset zero, in parts below 256 GiB, is the
-- exclusive or with the keystream of the object, or for the no-op key the data itself. What follows any
-- offset of it, written to `Decrypt` at that offset in parts below 256 GiB, is the data from the offset
-- on. Neither panics, and neither depends on the parts, however many nonces are used.
pub decrypted-encrypted :
    (c : Cipher) (key offset : ℕ) (reads writes : List (List ℕ))
    → XorLaws c
    → All IsShort reads
    → All IsShort writes
    → length (together reads) < 2 ^ 64
    → offset ≤ length (together reads)
    → together writes ≡ drop offset (object_text c key 0 (together reads))
    → (encrypted c key 0 reads ≡ some (object_text c key 0 (together reads)))
      × (decrypted c key offset writes ≡ some (drop offset (together reads)))
unfolding encrypted decrypted
decrypted-encrypted c key offset reads writes laws shorts shorts' small inside tail =
    elim (Bool-cases (key == noop_key)) [
      | inl noop ↦
          let same : object_text c key 0 (together reads) ≡ together reads = rw noop refl in
          rw noop (refl, ap some (tail ∙ ap (drop offset) same))
      | inr other ↦
          let same : object_text c key 0 (together reads)
              ≡ xor_from c (object_stream c key) 0 (together reads) =
            rw other refl in
          let both =
            rekeyed-encrypted c key offset reads writes other laws shorts shorts' small inside
              (tail ∙ ap (drop offset) same) in
          (both.0 ∙ ap some (sym same), both.1)
    ]

-- At an offset that is not the start, `Encrypt` with a key other than the no-op key leaves the counter
-- of its stream at zero. A read that goes past the last block of the nonce then panics in the cipher,
-- where `Decrypt` at the same offset takes the next nonce.
encrypted_panics :
    (c : Cipher) (key offset : ℕ) (src : List ℕ)
    → key == noop_key ≡ false
    → offset % 64 ≡ 0
    → offset < rekey_at
    → length src < rekey_at
    → one_nonce < offset + length src
    → (encrypted c key offset (src ∷ []) ≡ none)
      × (decrypted c key offset (src ∷ []) ≡ some (xor_from c (object_stream c key) offset src))
unfolding encrypted decrypted stream_all xor_key_stream
encrypted_panics c key offset src other aligned first short over =
    let whole : offset % 64 == 0 ≡ true = ground (arith, aligned) in
    let counter : (0 + length src) % 2 ^ 64 ≡ length src = omega (arith, short) in
    let same_nonce : ltb (length src) rekey_at ≡ true = ground (arith, short) in
    let full : ltb one_nonce (offset % rekey_at / 64 * 64 + length src) ≡ true =
      ground (arith, aligned, first, over) in
    let count : length (src ++ []) ≡ length src = ap length (append-nil src) in
    let written =
      stream_all-object_stream c key offset (decrypt_stream offset) (src ∷ [])
        (decrypt_stream-At offset) (omega (arith, short), tt)
        (omega (arith, count, first, short)) in
    (
      rw (whole, other, counter, same_nonce, full) refl,
      rw other
          (written ∙ ap (λ xs. some (xor_from c (object_stream c key) offset xs)) (append-nil src)),
    )
