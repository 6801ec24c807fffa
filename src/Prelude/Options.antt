-- ===== src/Prelude/Options.antt =====
-- Chains of steps that may fail: `none` is a run-time panic or a missing key, as each user says.
use sia_satellite.Prelude.Tests.{if◌then◌else◌}
use mathlib.Core.Path.{◌≡◌, refl, subst}
use mathlib.Core.Logic.{◌⊎◌, inl, inr}
use mathlib.Core.Bool.{Bool, true, false}
use mathlib.Core.Option.{Option, none, some}

infixl 5 ◌>>=◌ ◌>>◌
abbrev pub ◌>>=◌ {ℓ κ} : {A : Type ℓ} {B : Type κ} → Option A → (A → Option B) → Option B
none >>= f = none
some a >>= f = f a

abbrev pub ◌>>◌ {ℓ κ} : {A : Type ℓ} {B : Type κ} → Option A → Option B → Option B
m >> k = m >>= λ _. k

abbrev pub is_some {ℓ} : {A : Type ℓ} → Option A → Bool
is_some none = false
is_some (some _) = true

pub Option-cases {ℓ} : {A : Type ℓ} (o : Option A) → (o ≡ none) ⊎ ((a : A) × (o ≡ some a))
Option-cases none = inl refl
Option-cases (some a) = inr (a, refl)

-- What holds of the result, if there is one.
abbrev pub Ensures {ℓ κ} : {A : Type ℓ} → (A → Type κ) → Option A → Type κ
Ensures P none = Unit
Ensures P (some a) = P a

-- Total correctness: there is a result, and `P` holds of it.
abbrev pub Succeeds {ℓ} : {A : Type ℓ} → (A → Type 0) → Option A → Type 0
Succeeds P none = ⊥
Succeeds P (some a) = P a

pub Ensures-some {ℓ κ} :
    {A : Type ℓ} (P : A → Type κ) (o : Option A) {a : A} → Ensures P o → o ≡ some a → P a
Ensures-some P o h e = subst (Ensures P) e h

pub Succeeds-witness {ℓ} :
    {A : Type ℓ} (P : A → Type 0) (o : Option A) → Succeeds P o → (a : A) × (o ≡ some a) × P a
Succeeds-witness P none h = absurd h
Succeeds-witness P (some a) h = (a, refl, h)

pub Succeeds-weaken {ℓ} :
    {A : Type ℓ} (P Q : A → Type 0) (o : Option A)
    → Succeeds P o
    → ((a : A) → P a → Q a)
    → Succeeds Q o
Succeeds-weaken P Q none p f = absurd p
Succeeds-weaken P Q (some a) p f = f a p

pub Ensures-of {ℓ κ} :
    {A : Type ℓ} (P : A → Type κ) (o : Option A) → ((a : A) → o ≡ some a → P a) → Ensures P o
Ensures-of P none h = tt
Ensures-of P (some a) h = h a refl

pub Ensures-weaken {ℓ κ ν} :
    {A : Type ℓ} (P : A → Type κ) (Q : A → Type ν) (o : Option A)
    → Ensures P o
    → ((a : A) → P a → Q a)
    → Ensures Q o
Ensures-weaken P Q none p f = tt
Ensures-weaken P Q (some a) p f = f a p

pub Ensures-if {ℓ κ} :
    {A : Type ℓ} (P : A → Type κ) (b : Bool) (x y : Option A)
    → (b ≡ true → Ensures P x)
    → (b ≡ false → Ensures P y)
    → Ensures P (if b then x else y)
Ensures-if P true x y hx hy = hx refl
Ensures-if P false x y hx hy = hy refl

pub some-of-is_some {ℓ} : {A : Type ℓ} (o : Option A) → is_some o ≡ true → (a : A) × (o ≡ some a)
some-of-is_some none h = cc
some-of-is_some (some a) h = (a, refl)

pub Succeeds-some {ℓ} :
    {A : Type ℓ} (P : A → Type 0) (o : Option A) {a : A} → Succeeds P o → o ≡ some a → P a
Succeeds-some P o h e = subst (Succeeds P) e h

pub Succeeds-is_some {ℓ} :
    {A : Type ℓ} (P : A → Type 0) (o : Option A) → Succeeds P o → is_some o ≡ true
Succeeds-is_some P none h = absurd h
Succeeds-is_some P (some a) h = refl

module _ {ℓ κ} {A : Type ℓ} {B : Type κ} where
  pub Ensures-any {ν} :
      (Q : B → Type ν) (m : Option A) (f : A → Option B)
      → ((a : A) → Ensures Q (f a))
      → Ensures Q (m >>= f)
  Ensures-any Q none f h = tt
  Ensures-any Q (some a) f h = h a

  pub Ensures-bind {μ ν} :
      (P : A → Type μ) (Q : B → Type ν) (m : Option A) (f : A → Option B)
      → Ensures P m
      → ((a : A) → P a → Ensures Q (f a))
      → Ensures Q (m >>= f)
  Ensures-bind P Q none f h k = tt
  Ensures-bind P Q (some a) f h k = k a h

  pub Ensures-map {μ ν} :
      (P : A → Type μ) (Q : B → Type ν) (m : Option A) (g : A → B)
      → Ensures P m
      → ((a : A) → P a → Q (g a))
      → Ensures Q (m >>= λ a. some (g a))
  Ensures-map P Q none g h k = tt
  Ensures-map P Q (some a) g h k = k a h

  pub Succeeds-map :
      (P : A → Type 0) (Q : B → Type 0) (m : Option A) (g : A → B)
      → Succeeds P m
      → ((a : A) → P a → Q (g a))
      → Succeeds Q (m >>= λ a. some (g a))
  Succeeds-map P Q none g h k = absurd h
  Succeeds-map P Q (some a) g h k = k a h

  pub Succeeds-bind :
      (P : A → Type 0) (Q : B → Type 0) (m : Option A) (f : A → Option B)
      → Succeeds P m
      → ((a : A) → P a → Succeeds Q (f a))
      → Succeeds Q (m >>= f)
  Succeeds-bind P Q none f h k = absurd h
  Succeeds-bind P Q (some a) f h k = k a h

  pub Succeeds-known :
      (Q : B → Type 0) (m : Option A) (f : A → Option B) {a : A}
      → m ≡ some a
      → Succeeds Q (f a)
      → Succeeds Q (m >>= f)
  Succeeds-known Q m f e h = rw e h
