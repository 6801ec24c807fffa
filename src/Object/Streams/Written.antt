-- ===== src/Object/Streams/Written.antt =====
-- What `XORKeyStream` of a rekeyed stream writes, and where it is then.
use sia_satellite.Prelude.{
  ℕ, zero, suc, ◌+◌, ◌-◌, ◌/◌, ◌%◌, ◌^◌, ◌≤◌, ◌<◌, ◌≡◌, refl, sym, ap, ◌∙◌, inl, inr, false, some,
  List, [], ◌∷◌, ◌++◌, arith, ltb, Bool-cases, length, take, drop, Succeeds,
}
use sia_satellite.Object.{Cipher, xor_from}
use sia_satellite.Object.Streams.{
  rekey_at, one_nonce, object_nonce, RekeyStream, cipher_from, xor_key_stream, decrypt_stream,
}
use sia_satellite.Object.Stripes.Leaves.{length-take, length-drop}

-- The keystream of a whole object: a nonce for every `rekey_at` bytes.
abbrev pub object_stream : Cipher → ℕ → ℕ → ℕ
object_stream c key pos = c.keystream key (object_nonce (pos / rekey_at)) (pos % rekey_at)

-- A stream that is at a position of its object.
pub record At (pos : ℕ) (rs : RekeyStream) : Type 0 where
  pub counter : rs.counter ≡ pos % rekey_at
  pub nonce : rs.nonce ≡ pos / rekey_at
  pub cipher_nonce : rs.cipher_nonce ≡ pos / rekey_at
  pub cipher_pos : rs.cipher_pos ≡ pos % rekey_at

pub decrypt_stream-At : (offset : ℕ) → At offset (decrypt_stream offset)
decrypt_stream-At offset = record {
  counter = refl;
  nonce = refl;
  cipher_nonce = refl;
  cipher_pos = omega arith;
}

same_cons :
    (f : ℕ → ℕ) {x y : ℕ} {xs ys : List ℕ}
    → x ≡ y
    → xs ≡ ys
    → ◌≡◌ {A = List ℕ} (f x ∷ xs) (f y ∷ ys)
same_cons f e h = cc

-- The exclusive or with two streams that agree where the bytes are.
xor_from-agree :
    (c : Cipher) (s t : ℕ → ℕ) (p q : ℕ) (bytes : List ℕ)
    → ((i : ℕ) → i < length bytes → s (p + i) ≡ t (q + i))
    → xor_from c s p bytes ≡ xor_from c t q bytes
xor_from-agree c s t p q [] same = refl
xor_from-agree c s t p q (b ∷ bytes) same =
    same_cons (c.xor b) (ap s (omega arith) ∙ same 0 (omega arith) ∙ ap t (omega arith)) (
      xor_from-agree c s t (suc p) (suc q) bytes
        (λ i h. ap s (omega arith) ∙ same (suc i) (omega (arith, h)) ∙ ap t (omega arith)))

pub xor_from-append :
    (c : Cipher) (s : ℕ → ℕ) (p : ℕ) (xs ys : List ℕ)
    → xor_from c s p (xs ++ ys) ≡ xor_from c s p xs ++ xor_from c s (p + length xs) ys
xor_from-append c s p [] ys = ap (λ k. xor_from c s k ys) (omega arith)
xor_from-append c s p (x ∷ xs) ys =
    ap (λ zs. c.xor x (s p) ∷ zs)
      (xor_from-append c s (suc p) xs ys
        ∙ ap (λ k. xor_from c s (suc p) xs ++ xor_from c s k ys) (omega arith))

-- Bytes that stay under one nonce.
cipher_from-object_stream :
    (c : Cipher) (key pos nonce p : ℕ) (bytes : List ℕ)
    → nonce ≡ pos / rekey_at
    → p ≡ pos % rekey_at
    → pos % rekey_at + length bytes ≤ rekey_at
    → cipher_from c key nonce p bytes ≡ some (xor_from c (object_stream c key) pos bytes)
cipher_from-object_stream c key pos nonce p bytes e f fits =
    let fits' : ltb one_nonce (p + length bytes) ≡ false = ground (arith, f, fits) in
    let same =
      xor_from-agree c (c.keystream key (object_nonce nonce)) (object_stream c key) p pos bytes
        (λ i h.
          let same_nonce : nonce ≡ (pos + i) / rekey_at = omega (arith, e, f, fits, h) in
          let same_pos : p + i ≡ (pos + i) % rekey_at = omega (arith, e, f, fits, h) in cc) in
    rw (fits', same) refl

-- One write.
abbrev pub Written : Cipher → ℕ → ℕ → List ℕ → RekeyStream × List ℕ → Type 0
Written c key pos src r =
    At (pos + length src) r.0 × (r.1 ≡ xor_from c (object_stream c key) pos src)

append-take-drop : (n : ℕ) (xs : List ℕ) → take n xs ++ drop n xs ≡ xs
append-take-drop zero xs = refl
append-take-drop (suc n) [] = refl
append-take-drop (suc n) (x ∷ xs) = ap (λ ys. x ∷ ys) (append-take-drop n xs)

-- The bytes on either side of a new nonce.
parts_of :
    (c : Cipher) (key pos rem : ℕ) (src : List ℕ)
    → rem ≤ length src
    → xor_from c (object_stream c key) pos (take rem src)
        ++ xor_from c (object_stream c key) (pos + rem) (drop rem src)
      ≡ xor_from c (object_stream c key) pos src
parts_of c key pos rem src h =
    let taken : length (take rem src) ≡ rem = omega (arith, length-take rem src, h) in
    ap
      (λ k.
        xor_from c (object_stream c key) pos (take rem src)
        ++ xor_from c (object_stream c key) (pos + k) (drop rem src))
      (sym taken)
    ∙ sym (xor_from-append c (object_stream c key) pos (take rem src) (drop rem src))
    ∙ ap (xor_from c (object_stream c key) pos) (append-take-drop rem src)

same_nonce :
    (pos n : ℕ) (rs : RekeyStream)
    → At pos rs
    → pos % rekey_at + n < rekey_at
    → At (pos + n) (record rs { counter = pos % rekey_at + n; cipher_pos = rs.cipher_pos + n })
same_nonce pos n rs at h = record {
  counter = omega (arith, h);
  nonce = omega (arith, at.nonce, h);
  cipher_nonce = omega (arith, at.cipher_nonce, h);
  cipher_pos = omega (arith, at.cipher_pos, h);
}

next_nonce :
    (pos n : ℕ) (rs : RekeyStream)
    → At pos rs
    → n ≤ rekey_at
    → pos + n < 2 ^ 64
    → rekey_at ≤ pos % rekey_at + n
    → At (pos + n) (record {
      counter = pos % rekey_at + n - rekey_at;
      nonce = suc rs.nonce % 2 ^ 64;
      cipher_nonce = suc rs.nonce % 2 ^ 64;
      cipher_pos = n - (rekey_at - pos % rekey_at);
    })
next_nonce pos n rs at short small over =
    let next : suc rs.nonce % 2 ^ 64 ≡ (pos + n) / rekey_at =
      omega (arith, at.nonce, short, small, over) in
    record {
      counter = omega (arith, short, over);
      nonce = next;
      cipher_nonce = next;
      cipher_pos = omega (arith, short, over);
    }

pub xor_key_stream-Written :
    (c : Cipher) (key pos : ℕ) (rs : RekeyStream) (src : List ℕ)
    → At pos rs
    → length src ≤ rekey_at
    → pos + length src < 2 ^ 64
    → Succeeds (Written c key pos src) (xor_key_stream c key rs src)
unfolding xor_key_stream
xor_key_stream-Written c key pos rs src at short small =
    let counter : (rs.counter + length src) % 2 ^ 64 ≡ pos % rekey_at + length src =
      omega (arith, at.counter, short) in
    let rem = rekey_at - pos % rekey_at in
    let rem_is : rekey_at - (pos % rekey_at + length src - length src) ≡ rem = omega arith in
    elim (Bool-cases (ltb (pos % rekey_at + length src) rekey_at)) [
      | inl e ↦
          let one =
            cipher_from-object_stream c key pos rs.cipher_nonce rs.cipher_pos src at.cipher_nonce
              at.cipher_pos (ground (arith, e)) in
          rw (counter, e, one) (same_nonce pos (length src) rs at (ground (arith, e)), refl)
      | inr e ↦
          let over : rekey_at ≤ pos % rekey_at + length src = ground (arith, e) in
          let enough : ltb (length src) rem ≡ false = ground (arith, over) in
          let one =
            cipher_from-object_stream c key pos rs.cipher_nonce rs.cipher_pos (take rem src)
              at.cipher_nonce at.cipher_pos (omega (arith, length-take rem src)) in
          let two =
            cipher_from-object_stream c key (pos + rem) (suc rs.nonce % 2 ^ 64) 0 (drop rem src)
              (omega (arith, at.nonce, small)) (omega arith)
              (omega (arith, length-drop rem src, short)) in
          rw (counter, e, rem_is, enough, one, two)
            (
              next_nonce pos (length src) rs at short small over,
              parts_of c key pos rem src (omega (arith, over)),
            )
    ]
