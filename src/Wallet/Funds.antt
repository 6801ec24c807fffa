-- ===== src/Wallet/Funds.antt =====
-- modules/wallet/money.go: `Fund` on every branch.
use sia_satellite.Prelude.{
  ℕ, ◌+◌, ◌-◌, ◌<◌, ◌≡◌, refl, ap, ◌∙◌, ◌⊎◌, inl, inr, Bool, false, ◌||◌, none, List, [], ◌∷◌, ◌++◌,
  arith, ltb, leb, ◌==◌, ltb→lt, ==_iff, Bool-cases, All, Option-cases, Succeeds, Succeeds-bind,
}
use sia_satellite.Prelude.Maps.{Map, lookup-insert}
use sia_satellite.Wallet.{
  SiacoinElement, Transaction, Env, Wallet, contains, elements, insert_by_value, sort_by_value,
  is_reserved, new_address, next_address, FundResult, nothing_to_fund, insufficient_balance,
  no_address, funded, add_inputs, add_change, signed, fund_selected, fund,
}
use sia_satellite.Wallet.Selection.{
  sum_of, spendable, SublistOf, NoneSpare, Gathered, select_elements-Gathered,
}
use sia_satellite.Wallet.Inputs.{ids_of, parents_of, is_in, Owned, add_inputs-Spends}
use sia_satellite.Currency.{currency_limit, Currency, CurrencyLaws, Succeeds-sub}
use sia_satellite.Prelude.Maps

-- Sorting keeps the sum of what is not reserved, and ownership.
spendable-insert :
    (reserved : SiacoinElement → Bool) (e : SiacoinElement) (xs : List SiacoinElement)
    → spendable reserved (insert_by_value e xs) ≡ spendable reserved (e ∷ xs)
unfolding insert_by_value
spendable-insert reserved e [] = refl
spendable-insert reserved e (x ∷ xs) = elim (Bool-cases (leb x.value e.value)) [
  | inl b ↦ rw (b, insert_by_value) refl
  | inr b ↦ rw (b, insert_by_value) (omega (arith, spendable-insert reserved e xs))
]

spendable-sort :
    (reserved : SiacoinElement → Bool) (xs : List SiacoinElement)
    → spendable reserved (sort_by_value xs) ≡ spendable reserved xs
unfolding sort_by_value
spendable-sort reserved [] = refl
spendable-sort reserved (x ∷ xs) =
    spendable-insert reserved x (sort_by_value xs) ∙ omega (arith, spendable-sort reserved xs)

Owned-insert :
    (keys : Map ℕ) (e : SiacoinElement) (xs : List SiacoinElement)
    → Owned keys (e ∷ xs)
    → Owned keys (insert_by_value e xs)
unfolding insert_by_value
Owned-insert keys e [] o = o
Owned-insert keys e (x ∷ xs) (oe, (ox, o)) = elim (Bool-cases (leb x.value e.value)) [
  | inl b ↦ rw (b, insert_by_value) (oe, (ox, o))
  | inr b ↦ rw (b, insert_by_value) (ox, Owned-insert keys e xs (oe, o))
]

Owned-sort :
    (keys : Map ℕ) (xs : List SiacoinElement) → Owned keys xs → Owned keys (sort_by_value xs)
unfolding sort_by_value
Owned-sort keys [] o = tt
Owned-sort keys (x ∷ xs) (ox, o) = Owned-insert keys x (sort_by_value xs) (ox, Owned-sort keys xs o)

Owned-sublist :
    (keys : Map ℕ) (xs ys : List SiacoinElement) → SublistOf xs ys → Owned keys ys → Owned keys xs
Owned-sublist keys [] ys s o = tt
Owned-sublist keys (x ∷ xs) [] s o = absurd s
Owned-sublist keys (x ∷ xs) (y ∷ ys) (inl (e, s)) (oy, o) = (rw e oy, Owned-sublist keys xs ys s o)
Owned-sublist keys (x ∷ xs) (y ∷ ys) (inr s) (oy, o) = Owned-sublist keys (x ∷ xs) ys s o

-- A new address takes no output and no key away.
pub record Extends (w w' : Wallet) : Type 0 where
  pub same_used : w'.used ≡ w.used
  pub same_sces : w'.sces ≡ w.sces
  pub more_keys : (xs : List SiacoinElement) → Owned w.keys xs → Owned w'.keys xs

Owned-add :
    (addr key : ℕ) (keys : Map ℕ) (xs : List SiacoinElement)
    → Owned keys xs
    → Owned (Maps.insert addr key keys) xs
Owned-add addr key keys [] o = tt
Owned-add addr key keys (x ∷ xs) (ox, o) =
    (rw (lookup-insert addr x.address key keys) (ground arith), Owned-add addr key keys xs o)

Extends-self : (w : Wallet) → Extends w w
Extends-self w = record { same_used = refl; same_sces = refl; more_keys = λ xs o. o }

new_address-Extends : (env : Env) (w : Wallet) → Extends w (new_address env w).0
unfolding new_address
new_address-Extends env w = elim (Option-cases w.seed_progress) [
  | inl e ↦ rw (e, new_address) record { same_used = refl; same_sces = refl; more_keys = λ xs o. o }
  | inr (p, e) ↦ elim (Bool-cases env.put_fails) [
    | inl f ↦
        rw (e, f, new_address) record { same_used = refl; same_sces = refl; more_keys = λ xs o. o }
    | inr f ↦ elim (Bool-cases env.insert_fails) [
      | inl g ↦
          rw (e, f, g, new_address)
            record {
              same_used = refl;
              same_sces = refl;
              more_keys = λ xs o. Owned-add _ _ w.keys xs o;
            }
      | inr g ↦
          rw (e, f, g, new_address)
            record {
              same_used = refl;
              same_sces = refl;
              more_keys = λ xs o. Owned-add _ _ w.keys xs o;
            }
    ]
  ]
]

list-cases : (l : List ℕ) → (l ≡ []) ⊎ ((a : ℕ) × (rest : List ℕ) × (l ≡ a ∷ rest))
list-cases [] = inl refl
list-cases (a ∷ rest) = inr (a, rest, refl)

pub next_address-Extends : (env : Env) (w : Wallet) → Extends w (next_address env w).0
unfolding next_address
next_address-Extends env w = elim (list-cases w.unused_keys) [
  | inl e ↦ simp (e, next_address) (new_address-Extends env w)
  | inr (a, rest, e) ↦
      rw (e, next_address) record { same_used = refl; same_sces = refl; more_keys = λ xs o. o }
]

-- The outputs of the funded transaction: the refund of what is above the amount, if anything is.
abbrev pub Refunds : ℕ → Transaction → Transaction → Type 0
Refunds change txn txn' =
    ((change ≡ 0) × (txn'.siacoin_outputs ≡ txn.siacoin_outputs))
    ⊎ ((addr : ℕ) × (0 < change)
        × (txn'.siacoin_outputs ≡ (add_change change addr txn).siacoin_outputs))

-- A transaction funded with free outputs of the wallet, which are its new inputs and become used.
pub record Funded (w : Wallet) (env : Env) (txn : Transaction) (amount : ℕ) (w' : Wallet)
    (txn' : Transaction) (to_sign : List ℕ) : Type 0 where
  pub selected : List SiacoinElement
  pub change : ℕ
  pub balanced : sum_of selected ≡ amount + change
  pub free : All (λ sce. is_reserved w env sce ≡ false) selected
  pub from_wallet : SublistOf selected (sort_by_value (elements w.sces))
  pub none_spare : NoneSpare 0 amount selected
  pub refunds : Refunds change txn txn'
  pub inputs : parents_of txn'.siacoin_inputs ≡ parents_of txn.siacoin_inputs ++ ids_of selected
  pub signs : to_sign ≡ ids_of selected
  pub marked : (id : ℕ) → contains w'.used id ≡ (contains w.used id || is_in id (ids_of selected))

abbrev pub Funds : Wallet → Env → Transaction → ℕ → Wallet × (Transaction × FundResult) → Type 0
Funds w env txn amount (w', (txn', nothing_to_fund)) = (amount ≡ 0) × (w' ≡ w) × (txn' ≡ txn)
Funds w env txn amount (w', (txn', insufficient_balance)) =
    (spendable (is_reserved w env) (elements w.sces) < amount) × (w' ≡ w) × (txn' ≡ txn)
Funds w env txn amount (w', (txn', no_address)) =
    ((next_address env w).1 ≡ none) × (w'.used ≡ w.used) × (txn' ≡ txn)
Funds w env txn amount (w', (txn', funded to_sign)) = Funded w env txn amount w' txn' to_sign

module _ (c : Currency) (laws : CurrencyLaws c) (env : Env) (w : Wallet) (txn : Transaction)
    (amount : ℕ) (owned : Owned w.keys (elements w.sces)) where
  abbrev Found : List SiacoinElement × ℕ → Type 0
  Found = Gathered (is_reserved w env) amount (sort_by_value (elements w.sces)) 0

  fund_with :
      (r : List SiacoinElement × ℕ) (w' : Wallet) (txn' : Transaction) (change : ℕ)
      → Found r
      → Extends w w'
      → r.1 ≡ amount + change
      → txn'.siacoin_inputs ≡ txn.siacoin_inputs
      → Refunds change txn txn'
      → Funds w env txn amount (signed (add_inputs r.0 w' txn'))
  fund_with r w' txn' change g x total same_inputs refunds =
      let s =
        add_inputs-Spends r.0 w' txn' (
          x.more_keys r.0 (Owned-sublist w.keys r.0 _ g.from_wallet (Owned-sort w.keys _ owned))) in
      record {
        selected = r.0;
        change = change;
        balanced = omega (arith, g.sums, total);
        free = g.free;
        from_wallet = g.from_wallet;
        none_spare = g.none_spare;
        refunds = elim refunds [
          | inl (z, o) ↦ inl (z, s.outputs ∙ o)
          | inr (addr, p, o) ↦ inr (addr, p, s.outputs ∙ o)
        ];
        inputs = s.inputs ∙ ap (λ is. parents_of is ++ ids_of r.0) same_inputs;
        signs = s.to_sign;
        marked = λ id. s.marked id ∙ ap (λ m. contains m id || is_in id (ids_of r.0)) x.same_used;
      }

  fund_selected-Funds :
      (r : List SiacoinElement × ℕ)
      → Found r
      → Succeeds (Funds w env txn amount) (fund_selected c env w txn amount r)
  unfolding fund_selected
  fund_selected-Funds r g = elim (Bool-cases (ltb r.1 amount)) [
    | inl b ↦
        rw (b, fund_selected)
          (let less = ltb→lt r.1 amount b in
            let total = spendable-sort (is_reserved w env) (elements w.sces) in
            elim g.enough [
              | inl q ↦ absurd (omega (arith, q, less))
              | inr q ↦ (omega (arith, q, less, total), refl, refl)
            ])
    | inr b ↦ elim (Bool-cases (ltb amount r.1)) [
      | inl b' ↦ elim (Option-cases (next_address env w).1) [
        | inl e ↦ rw (b, b', e, fund_selected) (e, (next_address-Extends env w).same_used, refl)
        | inr (addr, e) ↦
            rw (b, b', e, fund_selected)
              (Succeeds-sub c laws (Funds w env txn amount) r.1 amount _ (ground arith) (
                fund_with r _ (add_change (r.1 - amount) addr txn) (r.1 - amount) g
                  (next_address-Extends env w) (ground arith) refl
                  (inr (addr, ground arith, refl))))
      ]
      | inr b' ↦
          rw (b, b', fund_selected)
            (fund_with r w txn 0 g (Extends-self w) (ground arith) refl (inl (refl, refl)))
    ]
  ]

  -- `Fund` on every branch. For outputs that the wallet has the keys of, and that together fit 128
  -- bits, it does not panic, and it fails for lack of money exactly as the free outputs are worth less
  -- than the amount, with nothing changed. Else the selected outputs are free, are not more than
  -- needed, and are worth the amount and the refund together; they are the new inputs, in order, and
  -- the only outputs that become used.
  pub fund-Funds :
      spendable (is_reserved w env) (elements w.sces) < currency_limit
      → Succeeds (Funds w env txn amount) (fund c env w txn amount)
  unfolding fund
  fund-Funds room = elim (Bool-cases (amount == 0)) [
    | inl b ↦ rw (b, fund) ((==_iff amount 0).0 b, refl, refl)
    | inr b ↦
        rw (b, fund)
          (Succeeds-bind Found (Funds w env txn amount) _ _
            (select_elements-Gathered c laws (is_reserved w env) amount
              (sort_by_value (elements w.sces)) 0 (ground arith)
              (omega (arith, room, spendable-sort (is_reserved w env) (elements w.sces))))
            fund_selected-Funds)
  ]
