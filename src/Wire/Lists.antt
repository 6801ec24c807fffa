-- ===== src/Wire/Lists.antt =====
-- Slices on the wire: a count and the elements.
use sia_satellite.Wire.{good, Wire, State, put_all, get_all, put_list, get_list, WireLaws}
use sia_satellite.Prelude.{
  ℕ, ◌%◌, ◌^◌, ◌≤◌, ◌<◌, ◌≡◌, refl, sym, ap, ◌∙◌, List, [], ◌∷◌, ◌++◌, append_assoc, arith, length,
  length-append, All,
}

-- A reader that undoes a writer, on values that fit.
abbrev pub Undoes : {A : Type 0} → (A → Type 0) → (A → List ℕ → List ℕ) → State A → Type 0
Undoes Fits f p = (a : _) (rest : List ℕ) → Fits a → p (good (f a rest)) ≡ (a, good rest)

-- A writer that leaves something on the wire.
abbrev pub Advances : {A : Type 0} → (A → List ℕ → List ℕ) → Type 0
Advances f = (a : _) (rest : List ℕ) → length rest < length (f a rest)

pub get_all-put_all :
    {A : Type 0} (Fits : A → Type 0) (f : A → List ℕ → List ℕ) (p : State A)
    → Undoes Fits f p
    → (xs : List A) (rest : List ℕ) → All Fits xs
    → get_all p (length xs) (good (put_all f xs rest)) ≡ (xs, good rest)
get_all-put_all Fits f p undoes [] rest fits = refl
get_all-put_all Fits f p undoes (a ∷ xs) rest (first, others) =
    rw (undoes a (put_all f xs rest) first)
      (rw (get_all-put_all Fits f p undoes xs rest others) refl)

length-put_all :
    {A : Type 0} (f : A → List ℕ → List ℕ)
    → Advances f
    → (xs : List A) (rest : List ℕ) → length xs ≤ length (put_all f xs rest)
length-put_all f advances [] rest = omega arith
length-put_all f advances (a ∷ xs) rest =
    omega (arith, advances a (put_all f xs rest), length-put_all f advances xs rest)

pub put-Advances : (xs rest : List ℕ) → 0 < length xs → length rest < length (xs ++ rest)
put-Advances xs rest h = omega (arith, h, length-append xs rest)

module _ (w : Wire) (laws : WireLaws w) where
  pub get_list-put_list :
      {A : Type 0} (Fits : A → Type 0) (f : A → List ℕ → List ℕ) (p : State A)
      → Undoes Fits f p
      → Advances f
      → (xs : List A) (rest : List ℕ) → All Fits xs
      → length xs < 2 ^ 63
      → get_list w p (good (put_list w f xs rest)) ≡ (xs, good rest)
  unfolding get_list put_list
  get_list-put_list Fits f p undoes advances xs rest fits few =
      rw (laws.prefix (length xs) (put_all f xs rest) few (length-put_all f advances xs rest))
        (get_all-put_all Fits f p undoes xs rest fits)

length-put_all_le :
    {A : Type 0} (f : A → List ℕ → List ℕ)
    → Advances f
    → (xs : List A) (rest : List ℕ) → length rest ≤ length (put_all f xs rest)
length-put_all_le f advances [] rest = omega arith
length-put_all_le f advances (a ∷ xs) rest =
    omega (arith, advances a (put_all f xs rest), length-put_all_le f advances xs rest)

pub length-put_list :
    {A : Type 0} (w : Wire) (f : A → List ℕ → List ℕ)
    → Advances f
    → (xs : List A) (rest : List ℕ) → length rest ≤ length (put_list w f xs rest)
unfolding put_list
length-put_list w f advances xs rest = omega (
  arith,
  length-append (w.prefix.layout (length xs)) (put_all f xs rest),
  length-put_all_le f advances xs rest,
)

pub mod-of_byte : (n : ℕ) → n < 256 → n % 256 ≡ n
mod-of_byte n h = omega arith

pub byte-IsWord : (n : ℕ) → n < 256 → n < 2 ^ 64
byte-IsWord n h = omega arith

-- A writer that puts its value in front.
abbrev pub Appends : {A : Type 0} → (A → List ℕ → List ℕ) → Type 0
Appends f = (a : _) (rest : List ℕ) → f a rest ≡ f a [] ++ rest

pub append_front : (xs rest : List ℕ) → xs ++ rest ≡ (xs ++ []) ++ rest
append_front xs rest = simp append_assoc refl

pub put_all-append :
    {A : Type 0} (f : A → List ℕ → List ℕ)
    → Appends f
    → (xs : List A) (rest : List ℕ) → put_all f xs rest ≡ put_all f xs [] ++ rest
put_all-append f appends [] rest = refl
put_all-append f appends (a ∷ xs) rest =
    appends a (put_all f xs rest)
    ∙ ap (λ s. f a [] ++ s) (put_all-append f appends xs rest)
    ∙ sym (append_assoc (f a []) (put_all f xs []) rest)
    ∙ ap (λ s. s ++ rest) (sym (appends a (put_all f xs [])))

pub put_list-append :
    {A : Type 0} (w : Wire) (f : A → List ℕ → List ℕ)
    → Appends f
    → (xs : List A) (rest : List ℕ) → put_list w f xs rest ≡ put_list w f xs [] ++ rest
unfolding put_list
put_list-append w f appends xs rest =
    ap (λ s. w.prefix.layout (length xs) ++ s) (put_all-append f appends xs rest)
    ∙ sym (append_assoc (w.prefix.layout (length xs)) (put_all f xs []) rest)
