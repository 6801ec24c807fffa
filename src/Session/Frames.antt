-- ===== src/Session/Frames.antt =====
-- Frames are read as they were written.
use sia_satellite.Wire.{Decoder, good, failed, put, Wire, State, WireLaws}
use sia_satellite.Prelude.{
  ℕ, zero, suc, ◌+◌, ◌-◌, ◌^◌, ◌≤◌, ◌<◌, max, ◌≡◌, refl, sym, ap, ◌∙◌, subst, inl, inr, Bool, true,
  false, Option, none, some, List, [], ◌∷◌, ◌++◌, append_assoc, arith, ltb, if◌then◌else◌, length,
  length-append, take, drop, take-length_append, drop-length_append, Option-cases,
}
use sia_satellite.Session.{
  Aead, AeadLaws, min_message_size, MessageError, too_large, too_small, Received, received, refused,
  frame_size, padding_size, write_message, open_message, opened, read_sized, measured, read_message,
}

take_more :
    (n : ℕ) (xs ys : List ℕ) → length xs ≤ n → (zs : List ℕ) × (take n (xs ++ ys) ≡ xs ++ zs)
take_more n [] ys h = (take n ys, refl)
take_more zero (x ∷ xs) ys h = absurd (omega (arith, h))
take_more (suc n) (x ∷ xs) ys h =
    let (zs, e) = take_more n xs ys (omega (arith, h)) in (zs, ap (λ ws. x ∷ ws) e)

take_front : (n : ℕ) (xs ys : List ℕ) → length xs ≡ n → take n (xs ++ ys) ≡ xs
take_front n xs ys h = subst (λ k. take k (xs ++ ys) ≡ xs) h (take-length_append xs ys)

drop_front : (n : ℕ) (xs ys : List ℕ) → length xs ≡ n → drop n (xs ++ ys) ≡ ys
drop_front n xs ys h = subst (λ k. drop k (xs ++ ys) ≡ ys) h (drop-length_append xs ys)

-- Whether a message is refused, and why.
abbrev pub refusal : {A : Type 0} → Received A → Option MessageError
refusal (received a) = none
refusal (refused e) = some e

open_message-refusal :
    {A B : Type 0} (a : Aead) (p : State A) (q : State B) (ciphertext : List ℕ)
    → refusal (open_message a p ciphertext) ≡ refusal (open_message a q ciphertext)
unfolding open_message
open_message-refusal a p q ciphertext =
    elim (Option-cases (a.unseal (take a.nonce_size ciphertext) (drop a.nonce_size ciphertext))) [
      | inl e ↦ rw (e, open_message) refl
      | inr (plain, e) ↦ rw (e, open_message) refl
    ]

opened-refusal :
    {A B : Type 0} (a : Aead) (p : State A) (q : State B) (c : List ℕ × Decoder)
    → refusal (opened a p c) ≡ refusal (opened a q c)
opened-refusal a p q (ciphertext, failed) = refl
opened-refusal a p q (ciphertext, good _) = open_message-refusal a p q ciphertext

refusal-if :
    {A B : Type 0} (b : Bool) (e : MessageError) (x : Received A) (y : Received B)
    → refusal x ≡ refusal y
    → refusal (if b then refused e else x) ≡ refusal (if b then refused e else y)
refusal-if true e x y h = refl
refusal-if false e x y h = h

measured-refusal :
    {A B : Type 0} (w : Wire) (a : Aead) (p : State A) (q : State B) (max_len : ℕ) (c : ℕ × Decoder)
    → refusal (measured w a p max_len c) ≡ refusal (measured w a q max_len c)
unfolding read_sized
measured-refusal w a p q max_len (size, failed) = refl
measured-refusal w a p q max_len (size, good left) = refusal-if (ltb max_len size) too_large _ _ (
    refusal-if (ltb size (a.nonce_size + a.overhead)) too_small _ _
      (opened-refusal a p q (w.raw size (good left))))

-- Whether and why a message is refused is decided by its frame alone: it is the same whatever the
-- message is decoded as, so that a body that cannot be decoded is not refused.
pub read_message-refusal :
    {A B : Type 0} (w : Wire) (a : Aead) (p : State A) (q : State B) (max_len : ℕ)
    (incoming : List ℕ)
    → refusal (read_message w a p max_len incoming) ≡ refusal (read_message w a q max_len incoming)
unfolding read_message
read_message-refusal w a p q max_len incoming =
    measured-refusal w a p q (max min_message_size max_len)
      (w.word.get (good (take (8 + max min_message_size max_len) incoming)))

module _ (w : Wire) (laws : WireLaws w) (a : Aead) (aead : AeadLaws a) where
  open_message-sealed :
      {A : Type 0} (p : State A) (nonce plain : List ℕ) (v : A)
      → length nonce ≡ a.nonce_size
      → (p (good plain)).0 ≡ v
      → open_message a p (nonce ++ a.seal nonce plain) ≡ received v
  unfolding open_message
  open_message-sealed p nonce plain v sized reads =
      rw
        (
          take_front a.nonce_size nonce (a.seal nonce plain) sized,
          open_message,
          drop_front a.nonce_size nonce (a.seal nonce plain) sized,
          aead.unseal-seal nonce plain,
          reads,
        )
        refl

  read_sized-sealed :
      {A : Type 0} (p : State A) (nonce plain more : List ℕ) (v : A) (max_len size : ℕ)
      → length nonce ≡ a.nonce_size
      → (p (good plain)).0 ≡ v
      → length (nonce ++ a.seal nonce plain) ≡ size
      → size ≤ max_len
      → read_sized w a p max_len size ((nonce ++ a.seal nonce plain) ++ more) ≡ received v
  unfolding read_sized
  read_sized-sealed p nonce plain more v max_len size sized reads whole fits =
      let ciphertext = nonce ++ a.seal nonce plain in
      let not_large : ltb max_len size ≡ false = ground (arith, fits) in
      let not_small : ltb size (a.nonce_size + a.overhead) ≡ false = ground (
        arith,
        sym whole ∙ length-append nonce (a.seal nonce plain),
        sized,
        aead.length-seal nonce plain,
      ) in
      let taken : w.raw size (good (ciphertext ++ more)) ≡ (ciphertext, good more) =
        subst (λ k. w.raw k (good (ciphertext ++ more)) ≡ (ciphertext, good more)) whole
          (laws.raw ciphertext more) in
      rw (not_large, read_sized, not_small, taken) (open_message-sealed p nonce plain v sized reads)

  read_message-sealed :
      {A : Type 0} (p : State A) (nonce plain more : List ℕ) (v : A) (max_len size : ℕ)
      → length nonce ≡ a.nonce_size
      → (p (good plain)).0 ≡ v
      → length (nonce ++ a.seal nonce plain) ≡ size
      → size ≤ max min_message_size max_len
      → size < 2 ^ 64
      → read_message w a p max_len (put w.word size (nonce ++ a.seal nonce plain) ++ more)
        ≡ received v
  unfolding read_message
  read_message-sealed p nonce plain more v max_len size fitting reads whole in_limit is_word =
      let limit = max min_message_size max_len in
      let ciphertext = nonce ++ a.seal nonce plain in
      let frame = put w.word size ciphertext in
      let short : length frame ≤ 8 + limit = omega (
        arith,
        length-append (w.word.layout size) ciphertext,
        laws.word_size size,
        whole,
        in_limit,
      ) in
      let (left, cut) = take_more (8 + limit) frame more short in
      let read : w.word.get (good (frame ++ left)) ≡ (size, good (ciphertext ++ left)) =
        ap (λ s. w.word.get (good s)) (append_assoc (w.word.layout size) ciphertext left)
        ∙ laws.word size (ciphertext ++ left) is_word in
      ap (λ s. measured w a p limit (w.word.get (good s))) cut
      ∙ ap (measured w a p limit) read
      ∙ read_sized-sealed p nonce plain left v limit size fitting reads whole in_limit

  -- A frame is read as it was written, whatever follows it on the connection, if the message's reader
  -- gives the value whatever padding follows the body. The nonce has its size, the sealed body does not
  -- exceed the limit, and the limit does not exceed 63 bits.
  pub read_message-write_message :
      {A : Type 0} (p : State A) (padding : ℕ → List ℕ) (nonce body more : List ℕ) (v : A)
      (max_len : ℕ)
      → length nonce ≡ a.nonce_size
      → ((n : ℕ) → length (padding n) ≡ n)
      → ((rest : List ℕ) → (p (good (body ++ rest))).0 ≡ v)
      → a.nonce_size + length body + a.overhead ≤ max_len
      → max_len < 2 ^ 63
      → read_message w a p max_len (write_message w a padding nonce body ++ more) ≡ received v
  unfolding write_message
  read_message-write_message p padding nonce body more v max_len fitting pads reads small bounded =
      let pad = padding (padding_size a (length body)) in
      let size = frame_size a (length body) - 8 in
      let whole : length (nonce ++ a.seal nonce (body ++ pad)) ≡ size = omega (
        arith,
        length-append nonce (a.seal nonce (body ++ pad)),
        aead.length-seal nonce (body ++ pad),
        length-append body pad,
        pads (padding_size a (length body)),
        fitting,
        aead.small,
      ) in
      read_message-sealed p nonce (body ++ pad) more v max_len size fitting (reads pad) whole
        (omega (arith, small)) (omega (arith, small, bounded))
