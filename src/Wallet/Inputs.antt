-- ===== src/Wallet/Inputs.antt =====
-- modules/wallet/money.go: the inputs that `Fund` adds, and the outputs that it marks as used.
use sia_satellite.Prelude.{
  ℕ, ◌≡◌, refl, ap, ◌∙◌, Bool, true, false, ◌||◌, List, [], ◌∷◌, ◌++◌, arith, ◌==◌, if◌then◌else◌,
  All, is_some, some-of-is_some,
}
use sia_satellite.Prelude.Maps.{Map, lookup, lookup-insert}
use sia_satellite.Wallet.{SiacoinElement, SiacoinInput, Transaction, Wallet, contains, add_inputs}
use sia_satellite.Prelude.Maps

abbrev pub ids_of : List SiacoinElement → List ℕ
ids_of [] = []
ids_of (sce ∷ sces) = sce.id ∷ ids_of sces

abbrev pub parents_of : List SiacoinInput → List ℕ
parents_of [] = []
parents_of (i ∷ is) = i.parent_id ∷ parents_of is

abbrev pub is_in : ℕ → List ℕ → Bool
is_in id [] = false
is_in id (x ∷ xs) = (x == id) || is_in id xs

-- The wallet has the key of each of the outputs.
abbrev pub Owned : Map ℕ → List SiacoinElement → Type 0
Owned keys sces = All (λ sce. is_some (lookup sce.address keys) ≡ true) sces

-- One input for each output, which is then used; the outputs of the transaction stay.
pub record Spends (w : Wallet) (txn : Transaction) (selected : List SiacoinElement)
    (r : Wallet × (Transaction × List ℕ)) : Type 0 where
  pub inputs : parents_of r.1.0.siacoin_inputs ≡ parents_of txn.siacoin_inputs ++ ids_of selected
  pub outputs : r.1.0.siacoin_outputs ≡ txn.siacoin_outputs
  pub to_sign : r.1.1 ≡ ids_of selected
  pub marked : (id : ℕ) → contains r.0.used id ≡ (contains w.used id || is_in id (ids_of selected))

parents_of-snoc :
    (is : List SiacoinInput) (i : SiacoinInput) (rest : List ℕ)
    → parents_of (is ++ (i ∷ [])) ++ rest ≡ parents_of is ++ (i.parent_id ∷ rest)
parents_of-snoc [] i rest = refl
parents_of-snoc (x ∷ is) i rest = ap (λ ys. x.parent_id ∷ ys) (parents_of-snoc is i rest)

append_none : (xs : List ℕ) → xs ≡ xs ++ []
append_none [] = refl
append_none (x ∷ xs) = ap (λ ys. x ∷ ys) (append_none xs)

pub or_false : (b : Bool) → b ≡ (b || false)
or_false true = refl
or_false false = refl

pub contains-insert :
    (m : Map Bool) (k id : ℕ)
    → contains (Maps.insert k true m) id ≡ (if k == id then true else contains m id)
contains-insert m k id = rw (lookup-insert k id true m, contains) (ground arith)

pub marked_once :
    (b first rest : Bool) → ((if first then true else b) || rest) ≡ (b || (first || rest))
marked_once true true rest = refl
marked_once true false rest = refl
marked_once false true rest = refl
marked_once false false rest = refl

pub add_inputs-Spends :
    (selected : List SiacoinElement) (w : Wallet) (txn : Transaction)
    → Owned w.keys selected
    → Spends w txn selected (add_inputs selected w txn)
unfolding add_inputs
add_inputs-Spends [] w txn owned = record {
  inputs = append_none (parents_of txn.siacoin_inputs);
  outputs = refl;
  to_sign = refl;
  marked = λ id. or_false (contains w.used id);
}
add_inputs-Spends (sce ∷ sces) w txn (own, owned) =
    let (key, e) = some-of-is_some (lookup sce.address w.keys) own in
    let input : SiacoinInput = record { parent_id = sce.id; public_key = key } in
    let w' : Wallet = record w { used = Maps.insert sce.id true w.used } in
    let txn' : Transaction = record txn { siacoin_inputs = txn.siacoin_inputs ++ (input ∷ []) } in
    let r = add_inputs-Spends sces w' txn' owned in
    rw (e, add_inputs)
      record {
        inputs = r.inputs ∙ parents_of-snoc txn.siacoin_inputs input (ids_of sces);
        outputs = r.outputs;
        to_sign = ap (λ xs. sce.id ∷ xs) r.to_sign;
        marked = λ id.
            r.marked id
            ∙ ap (λ b. b || is_in id (ids_of sces)) (contains-insert w.used sce.id id)
            ∙ marked_once (contains w.used id) (sce.id == id) (is_in id (ids_of sces));
      }
