-- ===== src/Currency.antt =====
-- types.Currency of go.sia.tech/core, which the program only calls. A currency value stands for the
-- number of hastings it holds, and `Cmp`, `Equals` and `IsZero` compare those numbers. The
-- operations that can panic or overflow are parameters of every definition that calls them; what
-- their documentation promises is `CurrencyLaws`, a hypothesis of the theorems that need it.
use sia_satellite.Prelude.{
  ℕ, ◌+◌, ◌-◌, ◌*◌, ◌/◌, ◌%◌, ◌^◌, ◌≤◌, ◌<◌, ◌≡◌, refl, inl, inr, Bool, true, Option, none, some,
  arith, ltb, leb, ◌==◌, if◌then◌else◌, lt→ltb, Bool-cases, ◌>>=◌, is_some, Ensures, Succeeds,
}

abbrev pub currency_limit : ℕ
currency_limit = 2 ^ 128

-- `none` is a panic.
pub record Currency : Type 0 where
  pub add : ℕ → ℕ → Option ℕ
  pub sub : ℕ → ℕ → Option ℕ
  pub mul64 : ℕ → ℕ → Option ℕ
  pub div : ℕ → ℕ → Option ℕ
  pub add_with_overflow : ℕ → ℕ → ℕ × Bool
  pub mul64_with_overflow : ℕ → ℕ → ℕ × Bool

-- A result that does not fit 128 bits.
abbrev pub fits : ℕ → Option ℕ
fits n = if ltb n currency_limit then some n else none

pub record CurrencyLaws (c : Currency) : Type 0 where
  pub add_law : (a b : ℕ) → c.add a b ≡ fits (a + b)
  pub sub_law : (a b : ℕ) → c.sub a b ≡ (if leb b a then some (a - b) else none)
  pub mul64_law : (a b : ℕ) → c.mul64 a b ≡ fits (a * b)
  pub div_law : (a b : ℕ) → c.div a b ≡ (if b == 0 then none else some (a / b))
  pub add_with_overflow_law :
      (a b : ℕ) → c.add_with_overflow a b ≡ ((a + b) % currency_limit, leb currency_limit (a + b))
  pub mul64_with_overflow_law :
      (a b : ℕ) → c.mul64_with_overflow a b ≡ ((a * b) % currency_limit, leb currency_limit (a * b))

module _ (c : Currency) (laws : CurrencyLaws c) where
  pub add_fits : (a b : ℕ) → a + b < currency_limit → c.add a b ≡ some (a + b)
  add_fits a b h = ground (arith, laws.add_law a b)

  pub add_value : (a b : ℕ) {s : ℕ} → c.add a b ≡ some s → s ≡ a + b
  add_value a b h = ground (arith, laws.add_law a b)

  pub sub_value : (a b : ℕ) {s : ℕ} → c.sub a b ≡ some s → (b ≤ a) × (s ≡ a - b)
  sub_value a b h = ground (arith, laws.sub_law a b)

  pub sub_covered : (a b : ℕ) → b ≤ a → c.sub a b ≡ some (a - b)
  sub_covered a b h = ground (arith, laws.sub_law a b)

module _ {ℓ} {A : Type ℓ} (c : Currency) (laws : CurrencyLaws c) where
  -- What holds of the rest of a computation after an addition or a subtraction.
  pub Ensures-add {κ} :
      (P : A → Type κ) (a b : ℕ) (f : ℕ → Option A)
      → Ensures P (f (a + b))
      → Ensures P (c.add a b >>= f)
  Ensures-add P a b f h =
      rw (laws.add_law a b)
        (elim (Bool-cases (ltb (a + b) currency_limit)) [ inl e ↦ rw e h | inr e ↦ rw e tt ])

  pub Ensures-sub {κ} :
      (P : A → Type κ) (a b : ℕ) (f : ℕ → Option A)
      → (b ≤ a → Ensures P (f (a - b)))
      → Ensures P (c.sub a b >>= f)
  Ensures-sub P a b f h =
      rw (laws.sub_law a b)
        (elim (Bool-cases (leb b a)) [ inl e ↦ rw e (h (ground arith)) | inr e ↦ rw e tt ])

  pub is_some-add :
      (a b : ℕ) (f : ℕ → Option A)
      → a + b < currency_limit
      → is_some (f (a + b)) ≡ true
      → is_some (c.add a b >>= f) ≡ true
  is_some-add a b f fit h = rw (laws.add_law a b) (rw (lt→ltb (a + b) currency_limit fit) h)

pub Succeeds-add :
    {A : Type 0} (c : Currency) (laws : CurrencyLaws c) (P : A → Type 0) (a b : ℕ)
    (f : ℕ → Option A)
    → a + b < currency_limit
    → Succeeds P (f (a + b))
    → Succeeds P (c.add a b >>= f)
Succeeds-add c laws P a b f fit h = rw (add_fits c laws a b fit) h

pub Succeeds-sub :
    {A : Type 0} (c : Currency) (laws : CurrencyLaws c) (P : A → Type 0) (a b : ℕ)
    (f : ℕ → Option A)
    → b ≤ a
    → Succeeds P (f (a - b))
    → Succeeds P (c.sub a b >>= f)
Succeeds-sub c laws P a b f le h = rw (sub_covered c laws a b le) h

-- The 128-bit arithmetic itself shows that the laws can hold.
abbrev pub currency128 : Currency
currency128 = record {
  add = λ a b. fits (a + b);
  sub = λ a b. if leb b a then some (a - b) else none;
  mul64 = λ a b. fits (a * b);
  div = λ a b. if b == 0 then none else some (a / b);
  add_with_overflow = λ a b. ((a + b) % currency_limit, leb currency_limit (a + b));
  mul64_with_overflow = λ a b. ((a * b) % currency_limit, leb currency_limit (a * b));
}

pub currency128-CurrencyLaws : CurrencyLaws currency128
currency128-CurrencyLaws = record {
  add_law = λ a b. refl;
  sub_law = λ a b. refl;
  mul64_law = λ a b. refl;
  div_law = λ a b. refl;
  add_with_overflow_law = λ a b. refl;
  mul64_with_overflow_law = λ a b. refl;
}
