-- ===== src/Wire.antt =====
-- types.Encoder and types.Decoder of go.sia.tech/core, which are not part of the repository: the
-- layout of a value is a parameter, and so is what is read once a decoder has failed.
pub mod Lists
pub mod Concrete
use sia_satellite.Prelude.{ℕ, zero, suc, ◌^◌, ◌≤◌, ◌<◌, ◌≡◌, Bool, List, [], ◌∷◌, ◌++◌, length}

-- What a decoder has left to read, or the state after an error, which no read leaves.
pub data Decoder : Type 0 where
  good : List ℕ → Decoder
  failed : Decoder

pub record Codec (A : Type 0) : Type 0 where
  pub layout : A → List ℕ
  pub get : Decoder → A × Decoder

-- `put c a rest` is what an encoder has written once `a` and then `rest` are.
abbrev pub put : {A : Type 0} → Codec A → A → List ℕ → List ℕ
put c a rest = c.layout a ++ rest

-- Keys, hashes and identifiers are arrays of 32 bytes, signatures of 64, specifiers of 16.
pub record Wire : Type 0 where
  pub key : Codec ℕ
  pub signature : Codec ℕ
  pub specifier : Codec ℕ
  pub word : Codec ℕ
  pub prefix : Codec ℕ
  pub flag : Codec Bool
  pub bytes : Codec (List ℕ)
  pub text : Codec (List ℕ)
  pub currency : Codec ℕ
  pub revision : Codec ℕ
  pub transaction : Codec ℕ
  pub raw : ℕ → Decoder → List ℕ × Decoder

abbrev pub State : Type 0 → Type 0
State A = Decoder → A × Decoder

infixl 1 ◌>>=◌
abbrev pub ◌>>=◌ : {A B : Type 0} → State A → (A → State B) → State B
p >>= f = λ d. f (p d).0 (p d).1

abbrev pub pure : {A : Type 0} → A → State A
pure a d = (a, d)

-- The elements of a slice, one after the other.
abbrev pub put_all : {A : Type 0} → (A → List ℕ → List ℕ) → List A → List ℕ → List ℕ
put_all f [] rest = rest
put_all f (a ∷ xs) rest = f a (put_all f xs rest)

abbrev pub get_all : {A : Type 0} → State A → ℕ → State (List A)
get_all p zero = pure []
get_all p (suc n) = do a ← p; xs ← get_all p n; pure (a ∷ xs)

-- `WritePrefix` of the length, and the elements.
unfoldable pub put_list : {A : Type 0} → Wire → (A → List ℕ → List ℕ) → List A → List ℕ → List ℕ
put_list w f xs rest = put w.prefix (length xs) (put_all f xs rest)

unfoldable pub get_list : {A : Type 0} → Wire → State A → State (List A)
get_list w p = do n ← w.prefix.get; get_all p n

-- What the programs rely on: a value that fits is read as it was written, a count that is not above
-- what is left is read as it was written, and an error persists, with a count of zero.
abbrev pub Reads : {A : Type 0} → Codec A → (A → Type 0) → Type 0
Reads c Fits = (a : _) (rest : List ℕ) → Fits a → c.get (good (put c a rest)) ≡ (a, good rest)

abbrev pub IsKey : ℕ → Type 0
IsKey k = k < 2 ^ 256

abbrev pub IsSignature : ℕ → Type 0
IsSignature k = k < 2 ^ 512

abbrev pub IsSpecifier : ℕ → Type 0
IsSpecifier k = k < 2 ^ 128

abbrev pub IsWord : ℕ → Type 0
IsWord k = k < 2 ^ 64

abbrev pub IsCurrency : ℕ → Type 0
IsCurrency k = k < 2 ^ 128

abbrev pub IsShort : List ℕ → Type 0
IsShort b = length b < 2 ^ 63

pub record WireLaws (w : Wire) : Type 0 where
  pub key : Reads w.key IsKey
  pub signature : Reads w.signature IsSignature
  pub specifier : Reads w.specifier IsSpecifier
  pub word : Reads w.word IsWord
  pub flag : (a : Bool) (rest : List ℕ) → w.flag.get (good (put w.flag a rest)) ≡ (a, good rest)
  pub bytes : Reads w.bytes IsShort
  pub text : Reads w.text IsShort
  pub currency : Reads w.currency IsCurrency
  pub revision :
      (a : ℕ) (rest : List ℕ) → w.revision.get (good (put w.revision a rest)) ≡ (a, good rest)
  pub transaction :
      (a : ℕ) (rest : List ℕ) → w.transaction.get (good (put w.transaction a rest)) ≡ (a, good rest)
  pub prefix :
      (n : ℕ) (rest : List ℕ)
      → n < 2 ^ 63
      → n ≤ length rest
      → w.prefix.get (good (put w.prefix n rest)) ≡ (n, good rest)
  pub raw : (b rest : List ℕ) → w.raw (length b) (good (b ++ rest)) ≡ (b, good rest)
  pub key_size : (k : ℕ) → length (w.key.layout k) ≡ 32
  pub specifier_size : (k : ℕ) → length (w.specifier.layout k) ≡ 16
  pub word_size : (k : ℕ) → length (w.word.layout k) ≡ 8
  pub bytes_size : (b : List ℕ) → 8 ≤ length (w.bytes.layout b)
  pub transaction_size : (t : ℕ) → 0 < length (w.transaction.layout t)
  pub count_failed : w.prefix.get failed ≡ (0, failed)
