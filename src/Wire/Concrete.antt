-- ===== src/Wire/Concrete.antt =====
-- A wire that keeps the laws: numbers in little-endian bytes, and a count before a string of bytes.
use sia_satellite.Wire.{Decoder, good, failed, Codec, Wire, WireLaws}
use sia_satellite.Prelude.{
  ℕ, zero, suc, ◌+◌, ◌*◌, ◌/◌, ◌%◌, ◌^◌, ◌≤◌, ◌<◌, ◌≡◌, refl, ap, ◌∙◌, subst, Bool, true, false,
  List, [], ◌∷◌, ◌++◌, append_assoc, arith, leb, ◌==◌, if◌then◌else◌, length, length-append, take,
  drop, take-length_append, drop-length_append,
}

abbrev pub le : ℕ → ℕ → List ℕ
le zero n = []
le (suc k) n = (n % 256) ∷ le k (n / 256)

abbrev pub value : List ℕ → ℕ
value [] = 0
value (b ∷ bs) = b + 256 * value bs

pub length-le : (k n : ℕ) → length (le k n) ≡ k
length-le zero n = refl
length-le (suc k) n = omega (arith, length-le k (n / 256))

pub value-le : (k n : ℕ) → n < 256 ^ k → value (le k n) ≡ n
value-le zero n h = omega (arith, h)
value-le (suc k) n h =
    let less : n / 256 < 256 ^ k = omega (arith, h) in omega (arith, value-le k (n / 256) less)

-- Read the first bytes, if there are as many.
unfoldable pub raw_get : ℕ → Decoder → List ℕ × Decoder
raw_get n failed = ([], failed)
raw_get n (good s) = if leb n (length s) then (take n s, good (drop n s)) else ([], failed)

raw_get_lem : (b rest : List ℕ) → raw_get (length b) (good (b ++ rest)) ≡ (b, good rest)
unfolding raw_get
raw_get_lem b rest =
    let enough : leb (length b) (length (b ++ rest)) ≡ true =
      ground (arith, length-append b rest) in
    rw (enough, take-length_append b rest, drop-length_append b rest) refl

unfoldable pub fixed_get : ℕ → Decoder → ℕ × Decoder
unfolding raw_get
fixed_get k d = (value (raw_get k d).0, (raw_get k d).1)

abbrev pub fixed : ℕ → Codec ℕ
fixed k = record { layout = le k; get = fixed_get k }

fixed_get_lem :
    (k n : ℕ) (rest : List ℕ) → n < 256 ^ k → fixed_get k (good (le k n ++ rest)) ≡ (n, good rest)
unfolding fixed_get
fixed_get_lem k n rest h =
    let whole : raw_get k (good (le k n ++ rest)) ≡ (le k n, good rest) =
      subst (λ j. raw_get j (good (le k n ++ rest)) ≡ (le k n, good rest)) (length-le k n)
        (raw_get_lem (le k n) rest) in
    rw (whole, value-le k n h) refl

-- A count is not above what is left.
abbrev counted : ℕ × Decoder → ℕ × Decoder
counted (n, failed) = (0, failed)
counted (n, good s) = if leb n (length s) then (n, good s) else (0, failed)

unfoldable pub count_get : Decoder → ℕ × Decoder
unfolding fixed_get
count_get d = counted (fixed_get 8 d)

count_get_lem :
    (n : ℕ) (rest : List ℕ)
    → n < 2 ^ 63
    → n ≤ length rest
    → count_get (good (le 8 n ++ rest)) ≡ (n, good rest)
unfolding count_get
count_get_lem n rest small few =
    let enough : leb n (length rest) ≡ true = ground (arith, few) in
    ap counted (fixed_get_lem 8 n rest (omega (arith, small))) ∙ rw enough refl

abbrev read_counted : ℕ × Decoder → List ℕ × Decoder
read_counted (n, d) = raw_get n d

unfoldable pub string_get : Decoder → List ℕ × Decoder
unfolding count_get raw_get
string_get d = read_counted (count_get d)

abbrev pub string : Codec (List ℕ)
string = record { layout = λ b. le 8 (length b) ++ b; get = string_get }

unfoldable pub flag_get : Decoder → Bool × Decoder
flag_get failed = (false, failed)
flag_get (good []) = (false, failed)
flag_get (good (b ∷ s)) = (b == 1, good s)

unfoldable pub whole_get : Decoder → ℕ × Decoder
whole_get failed = (0, failed)
whole_get (good []) = (0, failed)
whole_get (good (a ∷ s)) = (a, good s)

abbrev pub whole : Codec ℕ
whole = record { layout = λ a. a ∷ []; get = whole_get }

abbrev pub concrete : Wire
concrete = record {
  key = fixed 32;
  signature = fixed 64;
  specifier = fixed 16;
  word = fixed 8;
  prefix = record { layout = le 8; get = count_get };
  flag = record { layout = λ b. (if b then 1 else 0) ∷ []; get = flag_get };
  bytes = string;
  text = string;
  currency = fixed 16;
  revision = whole;
  transaction = whole;
  raw = raw_get;
}

string_get_lem :
    (b rest : List ℕ)
    → length b < 2 ^ 63
    → string_get (good ((le 8 (length b) ++ b) ++ rest)) ≡ (b, good rest)
unfolding string_get
string_get_lem b rest small =
    ap string_get (ap good (append_assoc (le 8 (length b)) b rest))
    ∙ ap read_counted
        (count_get_lem (length b) (b ++ rest) small (omega (arith, length-append b rest)))
    ∙ raw_get_lem b rest

flag_get_lem :
    (b : Bool) (rest : List ℕ) → flag_get (good ((if b then 1 else 0) ∷ rest)) ≡ (b, good rest)
unfolding flag_get
flag_get_lem true rest = refl
flag_get_lem false rest = refl

string_size : (b : List ℕ) → 8 ≤ length (le 8 (length b) ++ b)
string_size b = omega (arith, length-append (le 8 (length b)) b)

pub concrete-WireLaws : WireLaws concrete
unfolding whole_get count_get
concrete-WireLaws = record {
  key = λ a rest h. fixed_get_lem 32 a rest (omega (arith, h));
  signature = λ a rest h. fixed_get_lem 64 a rest (omega (arith, h));
  specifier = λ a rest h. fixed_get_lem 16 a rest (omega (arith, h));
  word = λ a rest h. fixed_get_lem 8 a rest (omega (arith, h));
  flag = flag_get_lem;
  bytes = string_get_lem;
  text = string_get_lem;
  currency = λ a rest h. fixed_get_lem 16 a rest (omega (arith, h));
  revision = λ a rest. refl;
  transaction = λ a rest. refl;
  prefix = count_get_lem;
  raw = raw_get_lem;
  key_size = length-le 32;
  specifier_size = length-le 16;
  word_size = length-le 8;
  bytes_size = string_size;
  transaction_size = λ t. omega arith;
  count_failed = refl;
}
