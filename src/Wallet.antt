-- ===== src/Wallet.antt =====
-- modules/wallet/money.go, and `nextAddress` of seed.go: balances, and the funding of transactions.
-- Addresses, identifiers and keys are numbers. The hash functions of core, the transaction pool and
-- the database stand in `Env`. The order of a map's entries is that of the list that models it.
mod Examples
pub mod Selection
pub mod Reservations
pub mod Funds
pub mod Inputs
use sia_satellite.Prelude.{
  ℕ, suc, ◌+◌, ◌%◌, ◌^◌, Bool, true, false, ◌||◌, Option, none, some, List, [], ◌∷◌, ◌++◌, map, ltb,
  leb, ◌==◌, if◌then◌else◌, any, ◌>>=◌,
}
use sia_satellite.Prelude.Maps.{Map, lookup}
use sia_satellite.Currency.{Currency}
use sia_satellite.Prelude.Maps

-- types.SiacoinElement
pub record SiacoinElement : Type 0 where
  pub id : ℕ
  pub value : ℕ
  pub address : ℕ
  pub maturity_height : ℕ

-- types.SiacoinInput, with the unlock conditions by their public key.
pub record SiacoinInput : Type 0 where
  pub parent_id : ℕ
  pub public_key : ℕ

-- types.SiacoinOutput
pub record SiacoinOutput : Type 0 where
  pub value : ℕ
  pub address : ℕ

-- types.Transaction: the fields that funding reads or writes.
pub record Transaction : Type 0 where
  pub siacoin_inputs : List SiacoinInput
  pub siacoin_outputs : List SiacoinOutput

pub record Env : Type 0 where
  pub height : ℕ
  pub recommended_fee : ℕ
  pub pool_transactions : List Transaction
  pub key_from_seed : ℕ → ℕ
  pub standard_unlock_hash : ℕ → ℕ
  pub empty_unlock_hash : ℕ
  pub siacoin_output_id : Transaction → ℕ → ℕ
  pub put_fails : Bool
  pub insert_fails : Bool
  pub save_fails : Bool

-- Wallet: the fields that these methods use. The seed progress is a row of the database, and is not
-- there when it cannot be read; `used` is a set, as a map to true.
pub record Wallet : Type 0 where
  pub sces : Map SiacoinElement
  pub sfes : Map ℕ
  pub keys : Map ℕ
  pub addrs : Map Bool
  pub unused_keys : List ℕ
  pub seed_progress : Option ℕ
  pub used : Map Bool

-- `m[id]` of a map to bool.
abbrev pub contains : Map Bool → ℕ → Bool
contains m id = elim (lookup id m) [ none ↦ false | some b ↦ b ]

abbrev pub elements : Map SiacoinElement → List SiacoinElement
elements m = map (λ e. e.1) m

-- sort.Slice by value, the highest first.
unfoldable pub insert_by_value : SiacoinElement → List SiacoinElement → List SiacoinElement
insert_by_value e [] = e ∷ []
insert_by_value e (x ∷ xs) = if leb x.value e.value then e ∷ x ∷ xs else x ∷ insert_by_value e xs

unfoldable pub sort_by_value : List SiacoinElement → List SiacoinElement
unfolding insert_by_value
sort_by_value [] = []
sort_by_value (x ∷ xs) = insert_by_value x (sort_by_value xs)

-- `inPool`
abbrev pub in_pool : List Transaction → ℕ → Bool
in_pool txns id = any (λ txn. any (λ i. i.parent_id == id) txn.siacoin_inputs) txns

-- `w.used[sce.ID] || inPool[sce.ID]`
abbrev pub is_reserved : Wallet → Env → SiacoinElement → Bool
is_reserved w env sce = contains w.used sce.id || in_pool env.pool_transactions sce.id

-- `nextAddress`: the first unused address, or that of a new key, which is none when the database
-- fails. The lookahead is left out.
unfoldable pub new_address : Env → Wallet → Wallet × Option ℕ
new_address env w = elim w.seed_progress [
  | none ↦ (w, none)
  | some progress ↦
      if env.put_fails
      then (w, none)
      else (let key = env.key_from_seed progress in
          let addr = env.standard_unlock_hash key in
          let w' = record w {
            seed_progress = some (progress + 1);
            keys = Maps.insert addr key w.keys;
          } in
          if env.insert_fails
          then (w', none)
          else (let w'' = record w' { addrs = Maps.insert addr true w.addrs } in
              (w'', if env.save_fails then none else some addr)))
]

unfoldable pub next_address : Env → Wallet → Wallet × Option ℕ
unfolding new_address
next_address env w = elim w.unused_keys [
  | [] ↦ new_address env w
  | addr ∷ rest ↦ (record w { unused_keys = rest }, some addr)
]

-- `markAddressUnused`
abbrev pub mark_address_unused : ℕ → Wallet → Wallet
mark_address_unused addr w = record w { unused_keys = addr ∷ w.unused_keys }

pub data FundResult : Type 0 where
  nothing_to_fund insufficient_balance no_address : FundResult
  funded : List ℕ → FundResult

-- The loop that gathers `fundingElements` and `outputSum`.
unfoldable pub select_elements :
    Currency
    → (SiacoinElement → Bool)
    → ℕ
    → List SiacoinElement
    → ℕ
    → Option (List SiacoinElement × ℕ)
select_elements c reserved amount [] sum = some ([], sum)
select_elements c reserved amount (sce ∷ utxos) sum = elim (reserved sce) [
  | true ↦ select_elements c reserved amount utxos sum
  | false ↦ (do
    sum' ← c.add sum sce.value
    elim (leb amount sum') [
      | true ↦ some (sce ∷ [], sum')
      | false ↦ (do r ← select_elements c reserved amount utxos sum'; some (sce ∷ r.0, r.1))
    ])
]

-- The loop that adds the inputs: the identifiers to sign, zero where the key is missing.
unfoldable pub add_inputs :
    List SiacoinElement → Wallet → Transaction → Wallet × (Transaction × List ℕ)
add_inputs [] w txn = (w, (txn, []))
add_inputs (sce ∷ sces) w txn = elim (lookup sce.address w.keys) [
  | none ↦ (let r = add_inputs sces w txn in (r.0, (r.1.0, 0 ∷ r.1.1)))
  | some key ↦
      (let input : SiacoinInput = record { parent_id = sce.id; public_key = key } in
        let r =
          add_inputs sces (record w { used = Maps.insert sce.id true w.used })
            (record txn { siacoin_inputs = txn.siacoin_inputs ++ (input ∷ []) }) in
        (r.0, (r.1.0, sce.id ∷ r.1.1)))
]

abbrev pub add_change : ℕ → ℕ → Transaction → Transaction
add_change value addr txn = record txn {
  siacoin_outputs = txn.siacoin_outputs ++ (record { value = value; address = addr } ∷ []);
}

abbrev pub signed : Wallet × (Transaction × List ℕ) → Wallet × (Transaction × FundResult)
signed r = (r.0, (r.1.0, funded r.1.1))

-- The refund of what is above the amount. When no address can be had, the deferred call marks the
-- address of the empty unlock conditions as unused.
unfoldable pub fund_selected :
    Currency
    → Env
    → Wallet
    → Transaction
    → ℕ
    → List SiacoinElement × ℕ
    → Option (Wallet × (Transaction × FundResult))
unfolding next_address add_inputs
fund_selected c env w txn amount (selected, sum) =
    if ltb sum amount
    then some (w, (txn, insufficient_balance))
    else if ltb amount sum
    then elim ((next_address env w).1) [
      | none ↦
          some (mark_address_unused env.empty_unlock_hash (next_address env w).0, (txn, no_address))
      | some addr ↦ (do
        change ← c.sub sum amount
        some (signed (add_inputs selected (next_address env w).0 (add_change change addr txn))))
    ]
    else some (signed (add_inputs selected w txn))

-- `Fund`; `none` is the panic of a currency operation. The parents that it returns as well are an
-- answer of the chain manager.
unfoldable pub fund :
    Currency → Env → Wallet → Transaction → ℕ → Option (Wallet × (Transaction × FundResult))
unfolding sort_by_value select_elements fund_selected
fund c env w txn amount = if amount == 0 then some (w, (txn, nothing_to_fund)) else (do
  r ← select_elements c (is_reserved w env) amount (sort_by_value (elements w.sces)) 0
  fund_selected c env w txn amount r)

-- The identifiers of the outputs that a transaction creates, from the `i`-th on.
abbrev pub output_ids : Env → Transaction → ℕ → List SiacoinOutput → List ℕ
output_ids env txn i [] = []
output_ids env txn i (o ∷ os) = env.siacoin_output_id txn i ∷ output_ids env txn (suc i) os

abbrev pub delete_all : List ℕ → Map Bool → Map Bool
delete_all [] m = m
delete_all (id ∷ ids) m = delete_all ids (Maps.delete id m)

abbrev pub insert_all : List ℕ → Map Bool → Map Bool
insert_all [] m = m
insert_all (id ∷ ids) m = insert_all ids (Maps.insert id true m)

-- `Release`
unfoldable pub release : Env → List Transaction → Wallet → Wallet
release env [] w = w
release env (txn ∷ txns) w =
    release env txns
      (record w { used = delete_all (output_ids env txn 0 txn.siacoin_outputs) w.used })

-- `Reserve`: `none` is the error for an identifier that is reserved.
unfoldable pub reserve : List ℕ → Wallet → Option Wallet
reserve ids w =
    if any (contains w.used) ids then none else some (record w { used = insert_all ids w.used })

-- What the timer of `Reserve` does in the end.
unfoldable pub unreserve : List ℕ → Wallet → Wallet
unreserve ids w = record w { used = delete_all ids w.used }

-- `DustThreshold`
unfoldable pub dust_threshold : Currency → Env → Option ℕ
dust_threshold c env = c.mul64 env.recommended_fee 3

-- One element's part in the two balances.
abbrev pub add_balance : Currency → ℕ → SiacoinElement → ℕ × ℕ → Option (ℕ × ℕ)
add_balance c height sce (siacoins, immature) =
    if leb sce.maturity_height height
    then (c.add siacoins sce.value >>= λ s. some (s, immature))
    else (c.add immature sce.value >>= λ s. some (siacoins, s))

-- The loop of `ConfirmedBalance` over the siacoin elements.
unfoldable pub add_balances : Currency → ℕ → ℕ → List SiacoinElement → ℕ × ℕ → Option (ℕ × ℕ)
add_balances c height dust [] sums = some sums
add_balances c height dust (sce ∷ sces) sums = do
  sums' ← (if ltb dust sce.value then add_balance c height sce sums else some sums)
  add_balances c height dust sces sums'

-- The sum of the siafunds, which is a uint64.
abbrev pub sum_siafunds : Map ℕ → ℕ → ℕ
sum_siafunds [] sum = sum
sum_siafunds (sfe ∷ sfes) sum = sum_siafunds sfes ((sum + sfe.1) % 2 ^ 64)

-- `ConfirmedBalance`
unfoldable pub confirmed_balance : Currency → Env → Wallet → Option (ℕ × (ℕ × ℕ))
unfolding dust_threshold add_balances
confirmed_balance c env w = do
  dust ← dust_threshold c env
  sums ← add_balances c env.height dust (elements w.sces) (0, 0)
  some (sums.0, (sums.1, sum_siafunds w.sfes 0))

-- `AddressBalance`
unfoldable pub address_balance : Wallet → ℕ → ℕ × ℕ
address_balance w addr = (
  elim (lookup addr w.sces) [ none ↦ 0 | some sce ↦ sce.value ],
  elim (lookup addr w.sfes) [ none ↦ 0 | some value ↦ value ],
)
