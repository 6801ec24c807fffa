-- ===== src/Object/Keys.antt =====
-- EncryptionKey of internal/object/object.go as bytes and as text. The hexadecimal digits are those of
-- encoding/hex; text is a list of bytes.
use sia_satellite.Prelude.{
  ℕ, zero, suc, ◌+◌, ◌-◌, ◌*◌, ◌/◌, ◌%◌, ◌<◌, ◌≡◌, refl, ap, inl, inr, true, false, ◌&&◌, Option,
  none, some, List, [], ◌∷◌, ◌++◌, arith, ltb, leb, ◌==◌, if◌then◌else◌, Bool-cases, length, All,
  ◌>>=◌,
}

abbrev pub key_size : ℕ
key_size = 32

-- A key, one of the errors, or the panic of an index.
pub data KeyResult : Type 0 where
  parsed : List ℕ → KeyResult
  invalid : KeyResult
  wrong_length : KeyResult
  panicked : KeyResult

-- `MarshalBinary` and `UnmarshalBinary`
abbrev pub marshal_binary : List ℕ → List ℕ
marshal_binary key = key

abbrev pub unmarshal_binary : List ℕ → KeyResult
unmarshal_binary b = if length b == key_size then parsed b else wrong_length

-- A digit, and its value.
unfoldable hex_digit : ℕ → ℕ
hex_digit n = if ltb n 10 then 48 + n else 87 + n

unfoldable nibble : ℕ → Option ℕ
nibble c =
    if leb 48 c && leb c 57
    then some (c - 48)
    else if leb 97 c && leb c 102
    then some (c - 87)
    else if leb 65 c && leb c 70
    then some (c - 55)
    else none

-- hex.EncodeToString
unfoldable pub hex : List ℕ → List ℕ
unfolding hex_digit
hex [] = []
hex (b ∷ bytes) = hex_digit (b / 16) ∷ hex_digit (b % 16) ∷ hex bytes

abbrev pub key_prefix : List ℕ
key_prefix = 107 ∷ 101 ∷ 121 ∷ 58 ∷ []

-- `String`, `MarshalText`
abbrev pub marshal_text : List ℕ → List ℕ
marshal_text key = key_prefix ++ hex key

-- bytes.TrimPrefix: what follows the prefix, if it is there.
unfoldable strip : List ℕ → List ℕ → Option (List ℕ)
strip [] text = some text
strip (p ∷ prefix) [] = none
strip (p ∷ prefix) (c ∷ text) = if p == c then strip prefix text else none

unfoldable pub trim_prefix : List ℕ → List ℕ → List ℕ
unfolding strip
trim_prefix prefix text = elim (strip prefix text) [ some rest ↦ rest | none ↦ text ]

-- The byte of two digits.
unfoldable digits : ℕ → ℕ → Option ℕ
unfolding nibble
digits p q = do a ← nibble p; b ← nibble q; some (16 * a + b)

abbrev with_byte : ℕ → KeyResult → KeyResult
with_byte b (parsed key) = parsed (b ∷ key)
with_byte b invalid = invalid
with_byte b wrong_length = wrong_length
with_byte b panicked = panicked

-- hex.Decode into an array with room for some bytes.
unfoldable pub decode : ℕ → List ℕ → KeyResult
unfolding digits
decode room [] = parsed []
decode room (p ∷ []) = invalid
decode zero (p ∷ q ∷ text) = elim (digits p q) [ some b ↦ panicked | none ↦ invalid ]
decode (suc room) (p ∷ q ∷ text) = elim (digits p q) [
  | some b ↦ with_byte b (decode room text)
  | none ↦ invalid
]

abbrev whole_key : KeyResult → KeyResult
whole_key (parsed key) = if length key == key_size then parsed key else wrong_length
whole_key invalid = invalid
whole_key wrong_length = wrong_length
whole_key panicked = panicked

-- `UnmarshalText`
unfoldable pub unmarshal_text : List ℕ → KeyResult
unfolding decode trim_prefix
unmarshal_text text = whole_key (decode key_size (trim_prefix key_prefix text))

nibble-hex_digit : (n : ℕ) → n < 16 → nibble (hex_digit n) ≡ some n
unfolding nibble hex_digit
nibble-hex_digit n small = ground (arith, small)

digits-hex : (b : ℕ) → b < 256 → digits (hex_digit (b / 16)) (hex_digit (b % 16)) ≡ some b
unfolding digits
digits-hex b small =
    let high = nibble-hex_digit (b / 16) (omega (arith, small)) in
    let low = nibble-hex_digit (b % 16) (omega arith) in rw (high, low) (ap some (omega arith))

-- What an array with some room makes of the digits of bytes.
abbrev taken : ℕ → List ℕ → KeyResult
taken room bytes = if ltb room (length bytes) then panicked else parsed bytes

with_byte-taken :
    (room b : ℕ) (bytes : List ℕ) → with_byte b (taken room bytes) ≡ taken (suc room) (b ∷ bytes)
with_byte-taken room b bytes = elim (Bool-cases (ltb room (length bytes))) [
  | inl e ↦
      let more : ltb (suc room) (suc (length bytes)) ≡ true = ground (arith, e) in rw (e, more) refl
  | inr e ↦
      let fits : ltb (suc room) (suc (length bytes)) ≡ false = ground (arith, e) in
      rw (e, fits) refl
]

decode-hex :
    (room : ℕ) (bytes : List ℕ)
    → All (λ b. b < 256) bytes
    → decode room (hex bytes) ≡ taken room bytes
unfolding decode hex
decode-hex zero [] ok = refl
decode-hex (suc room) [] ok = let fits : ltb (suc room) 0 ≡ false = ground arith in rw fits refl
decode-hex zero (b ∷ bytes) (small, ok) =
    let full : ltb 0 (suc (length bytes)) ≡ true = ground arith in
    rw (decode, digits-hex b small, full) refl
decode-hex (suc room) (b ∷ bytes) (small, ok) =
    rw (decode, digits-hex b small, decode-hex room bytes ok) (with_byte-taken room b bytes)

-- What the digits of any bytes are as the text of a key.
abbrev pub KeyText : List ℕ → KeyResult → Type 0
KeyText bytes (parsed key) = (length bytes ≡ key_size) × (key ≡ bytes)
KeyText bytes invalid = ⊥
KeyText bytes wrong_length = length bytes < key_size
KeyText bytes panicked = key_size < length bytes

-- The text of a key is read back as that key. Of any bytes as digits behind the prefix, 32 are that key
-- and fewer are refused; more than 32 are not refused, but run over the end of the array, and panic.
pub unmarshal_text-marshal_text :
    (bytes : List ℕ)
    → All (λ b. b < 256) bytes
    → KeyText bytes (unmarshal_text (marshal_text bytes))
unfolding unmarshal_text trim_prefix strip
unmarshal_text-marshal_text bytes ok =
    rw (decode-hex key_size bytes ok) (elim (Bool-cases (ltb key_size (length bytes))) [
      | inl e ↦ rw e (ground (arith, e))
      | inr e ↦ elim (Bool-cases (length bytes == key_size)) [
        | inl whole ↦ rw (e, whole) (ground (arith, whole), refl)
        | inr short ↦ rw (e, short) (ground (arith, e, short))
      ]
    ])
