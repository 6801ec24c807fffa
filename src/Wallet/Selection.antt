-- ===== src/Wallet/Selection.antt =====
-- modules/wallet/money.go: the outputs that `Fund` gathers.
use sia_satellite.Prelude.{
  ℕ, ◌+◌, ◌≤◌, ◌<◌, ◌≡◌, refl, subst, ◌⊎◌, inl, inr, Bool, true, false, List, [], ◌∷◌, arith, leb,
  if◌then◌else◌, Bool-cases, All, Succeeds, Succeeds-weaken, Succeeds-map,
}
use sia_satellite.Currency.{currency_limit, Currency, CurrencyLaws, Succeeds-add}
use sia_satellite.Wallet.{SiacoinElement, select_elements}

abbrev pub sum_of : List SiacoinElement → ℕ
sum_of [] = 0
sum_of (sce ∷ sces) = sce.value + sum_of sces

-- What the outputs that are not reserved are worth.
abbrev pub spendable : (SiacoinElement → Bool) → List SiacoinElement → ℕ
spendable reserved [] = 0
spendable reserved (sce ∷ sces) = (if reserved sce then 0 else sce.value) + spendable reserved sces

-- `xs` is made of elements of `ys`, in the same order.
abbrev pub SublistOf : List SiacoinElement → List SiacoinElement → Type 0
SublistOf [] ys = Unit
SublistOf (x ∷ xs) [] = ⊥
SublistOf (x ∷ xs) (y ∷ ys) = ((x ≡ y) × SublistOf xs ys) ⊎ SublistOf (x ∷ xs) ys

-- The value without the last element, for a list that stops as soon as it is enough.
abbrev pub NoneSpare : ℕ → ℕ → List SiacoinElement → Type 0
NoneSpare start amount [] = Unit
NoneSpare start amount (x ∷ xs) = (start < amount) × NoneSpare (start + x.value) amount xs

-- The gathered outputs: free ones, in order, whose values add up; enough if the free ones are
-- enough at all, and none gathered once there is enough.
pub record Gathered (reserved : SiacoinElement → Bool) (amount : ℕ) (utxos : List SiacoinElement)
    (start : ℕ) (r : List SiacoinElement × ℕ) : Type 0 where
  pub sums : r.1 ≡ start + sum_of r.0
  pub within : r.1 ≤ start + spendable reserved utxos
  pub free : All (λ x. reserved x ≡ false) r.0
  pub from_wallet : SublistOf r.0 utxos
  pub enough : (amount ≤ r.1) ⊎ (r.1 ≡ start + spendable reserved utxos)
  pub none_spare : NoneSpare start amount r.0

SublistOf-skip :
    (xs : List SiacoinElement) (y : SiacoinElement) (ys : List SiacoinElement)
    → SublistOf xs ys
    → SublistOf xs (y ∷ ys)
SublistOf-skip [] y ys s = tt
SublistOf-skip (x ∷ xs) y ys s = inr s

module _ (reserved : SiacoinElement → Bool) (amount : ℕ) (sce : SiacoinElement)
    (utxos : List SiacoinElement) (start : ℕ) where
  skip_reserved :
      (r : List SiacoinElement × ℕ)
      → reserved sce ≡ true
      → Gathered reserved amount utxos start r
      → Gathered reserved amount (sce ∷ utxos) start r
  skip_reserved r b g = record {
    sums = g.sums;
    within = rw b (omega (arith, g.within));
    free = g.free;
    from_wallet = SublistOf-skip r.0 sce utxos g.from_wallet;
    enough = rw b (elim g.enough [ inl e ↦ inl e | inr e ↦ inr (omega (arith, e)) ]);
    none_spare = g.none_spare;
  }

  take_last :
      reserved sce ≡ false
      → start < amount
      → amount ≤ start + sce.value
      → Gathered reserved amount (sce ∷ utxos) start (sce ∷ [], start + sce.value)
  take_last b low e = record {
    sums = omega arith;
    within = rw b (omega arith);
    free = (b, tt);
    from_wallet = inl (refl, tt);
    enough = inl e;
    none_spare = (low, tt);
  }

  take_more :
      (r : List SiacoinElement × ℕ)
      → reserved sce ≡ false
      → start < amount
      → Gathered reserved amount utxos (start + sce.value) r
      → Gathered reserved amount (sce ∷ utxos) start (sce ∷ r.0, r.1)
  take_more r b low g = record {
    sums = omega (arith, g.sums);
    within = rw b (omega (arith, g.within));
    free = (b, g.free);
    from_wallet = inl (refl, g.from_wallet);
    enough = rw b (elim g.enough [ inl e ↦ inl e | inr e ↦ inr (omega (arith, e)) ]);
    none_spare = (low, g.none_spare);
  }

module _ (c : Currency) (laws : CurrencyLaws c) (reserved : SiacoinElement → Bool)
    (amount : ℕ) where
  -- Below the amount, and with room for all free outputs, the loop of `Fund` does not panic: it gathers
  -- free outputs in the order given, whose values add up to its sum; it stops as soon as the amount is
  -- reached, and gathers all the free ones when they are not enough.
  pub select_elements-Gathered :
      (utxos : List SiacoinElement) (start : ℕ)
      → start < amount
      → start + spendable reserved utxos < currency_limit
      → Succeeds
          (Gathered reserved amount utxos start)
          (select_elements c reserved amount utxos start)
  unfolding select_elements
  select_elements-Gathered [] start low room = record {
    sums = omega arith;
    within = omega arith;
    free = tt;
    from_wallet = tt;
    enough = inr (omega arith);
    none_spare = tt;
  }
  select_elements-Gathered (sce ∷ utxos) start low room = elim (Bool-cases (reserved sce)) [
    | inl b ↦
        rw (b, select_elements)
          (Succeeds-weaken (Gathered reserved amount utxos start) _ _
            (select_elements-Gathered utxos start low (omega (arith, room)))
            (λ r. skip_reserved reserved amount sce utxos start r b))
    | inr b ↦
        let room' : start + (sce.value + spendable reserved utxos) < currency_limit =
          subst
            (λ x.
              start + ((if x then 0 else sce.value) + spendable reserved utxos) < currency_limit)
            b room in
        rw (b, select_elements)
          (Succeeds-add c laws _ start sce.value _ (omega arith)
            (elim (Bool-cases (leb amount (start + sce.value))) [
              | inl e ↦ rw e (take_last reserved amount sce utxos start b low (ground arith))
              | inr e ↦ rw e (
                  Succeeds-map (Gathered reserved amount utxos (start + sce.value)) _ _ _
                    (select_elements-Gathered utxos (start + sce.value) (ground arith)
                      (omega arith))
                    (λ r. take_more reserved amount sce utxos start r b low))
            ]))
  ]
