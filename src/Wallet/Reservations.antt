-- ===== src/Wallet/Reservations.antt =====
-- modules/wallet/money.go: which outputs are marked as used, after `Release`, `Reserve` and the timer
-- of `Reserve`.
use sia_satellite.Prelude.{
  ℕ, ◌≡◌, refl, sym, ap, ◌∙◌, inl, inr, Bool, true, false, not, ◌&&◌, ◌||◌, Option, none, some,
  List, [], ◌∷◌, ◌++◌, arith, ◌==◌, ==_iff, Bool-cases, any,
}
use sia_satellite.Prelude.Maps.{Map, lookup-delete}
use sia_satellite.Wallet.{
  Transaction, Env, Wallet, contains, output_ids, delete_all, insert_all, release, reserve,
  unreserve,
}
use sia_satellite.Wallet.Inputs.{is_in, or_false, contains-insert, marked_once}
use sia_satellite.Prelude.Maps

contains-delete :
    (m : Map Bool) (k id : ℕ) → contains (Maps.delete k m) id ≡ (contains m id && not (k == id))
contains-delete m k id = rw (lookup-delete k id m, contains) (ground arith)

and_true : (b : Bool) → b ≡ (b && true)
and_true true = refl
and_true false = refl

or_assoc : (a b c : Bool) → (a || (b || c)) ≡ ((a || b) || c)
or_assoc true b c = refl
or_assoc false b c = refl

given_back : (b r : Bool) → (r ≡ true → b ≡ false) → ((b || r) && not r) ≡ b
given_back b true h = rw (h refl) refl
given_back true false h = refl
given_back false false h = refl

without : (b first rest : Bool) → ((b && not first) && not rest) ≡ (b && not (first || rest))
without true true rest = refl
without true false rest = refl
without false first rest = refl

contains-delete_all :
    (ids : List ℕ) (m : Map Bool) (id : ℕ)
    → contains (delete_all ids m) id ≡ (contains m id && not (is_in id ids))
contains-delete_all [] m id = and_true (contains m id)
contains-delete_all (k ∷ ids) m id =
    contains-delete_all ids (Maps.delete k m) id
    ∙ ap (λ b. b && not (is_in id ids)) (contains-delete m k id)
    ∙ without (contains m id) (k == id) (is_in id ids)

contains-insert_all :
    (ids : List ℕ) (m : Map Bool) (id : ℕ)
    → contains (insert_all ids m) id ≡ (contains m id || is_in id ids)
contains-insert_all [] m id = or_false (contains m id)
contains-insert_all (k ∷ ids) m id =
    contains-insert_all ids (Maps.insert k true m) id
    ∙ ap (λ b. b || is_in id ids) (contains-insert m k id)
    ∙ marked_once (contains m id) (k == id) (is_in id ids)

-- The outputs that a set of transactions creates.
abbrev pub created : Env → List Transaction → List ℕ
created env [] = []
created env (txn ∷ txns) = output_ids env txn 0 txn.siacoin_outputs ++ created env txns

is_in-append : (id : ℕ) (xs ys : List ℕ) → is_in id (xs ++ ys) ≡ (is_in id xs || is_in id ys)
is_in-append id [] ys = refl
is_in-append id (x ∷ xs) ys =
    rw (is_in-append id xs ys) (or_assoc (x == id) (is_in id xs) (is_in id ys))

-- `Release` takes the mark off exactly the outputs that the transactions create: any other output,
-- whether they spend it or not, is marked after it exactly if it was marked before.
pub release-used :
    (env : Env) (txns : List Transaction) (w : Wallet) (id : ℕ)
    → contains (release env txns w).used id
      ≡ (contains w.used id && not (is_in id (created env txns)))
unfolding release
release-used env [] w id = and_true (contains w.used id)
release-used env (txn ∷ txns) w id =
    let mine = output_ids env txn 0 txn.siacoin_outputs in
    release-used env txns (record w { used = delete_all mine w.used }) id
    ∙ ap (λ b. b && not (is_in id (created env txns))) (contains-delete_all mine w.used id)
    ∙ without (contains w.used id) (is_in id mine) (is_in id (created env txns))
    ∙ ap (λ b. contains w.used id && not b) (sym (is_in-append id mine (created env txns)))

-- What `Reserve` does to the marks.
abbrev pub Reserves : List ℕ → Wallet → Option Wallet → Type 0
Reserves ids w none = any (contains w.used) ids ≡ true
Reserves ids w (some w') =
    (any (contains w.used) ids ≡ false)
    × ((id : ℕ) → contains w'.used id ≡ (contains w.used id || is_in id ids))
    × ((id : ℕ) → contains (unreserve ids w').used id ≡ contains w.used id)

both_false : (a b : Bool) → (a || b) ≡ false → (a ≡ false) × (b ≡ false)
both_false true b h = cc
both_false false b h = (refl, h)

free_of :
    (m : Map Bool) (ids : List ℕ) (id : ℕ)
    → any (contains m) ids ≡ false
    → is_in id ids ≡ true
    → contains m id ≡ false
free_of m [] id h i = cc
free_of m (x ∷ ids) id h i =
    let (head, tail) = both_false (contains m x) (any (contains m) ids) h in
    elim (Bool-cases (x == id)) [
      | inl e ↦ ap (contains m) (sym ((==_iff x id).0 e)) ∙ head
      | inr e ↦ free_of m ids id tail (ap (λ b. b || is_in id ids) (sym e) ∙ i)
    ]

-- `Reserve` fails exactly when one of the identifiers is marked; else it marks them all, and its timer,
-- if nothing happens in between, gives back the marks there were before.
pub reserve-Reserves : (ids : List ℕ) (w : Wallet) → Reserves ids w (reserve ids w)
unfolding reserve unreserve
reserve-Reserves ids w = elim (Bool-cases (any (contains w.used) ids)) [
  | inl b ↦ rw (b, reserve) b
  | inr b ↦
      rw (b, reserve)
        (
          b,
          (λ id. contains-insert_all ids w.used id),
          (λ id.
              contains-delete_all ids (insert_all ids w.used) id
              ∙ ap (λ x. x && not (is_in id ids)) (contains-insert_all ids w.used id)
              ∙ given_back (contains w.used id) (is_in id ids) (free_of w.used ids id b)),
        )
]
