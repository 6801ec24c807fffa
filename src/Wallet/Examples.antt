-- ===== src/Wallet/Examples.antt =====
-- The theorems on money.go at a concrete wallet.
use sia_satellite.Prelude.{
  ℕ, ◌+◌, ◌*◌, ◌≡◌, refl, true, false, not, ◌&&◌, none, some, [], ◌∷◌, arith, Succeeds,
}
use sia_satellite.Prelude.Maps.{lookup}
use sia_satellite.Currency.{currency128, currency128-CurrencyLaws}
use sia_satellite.Wallet.{
  SiacoinElement, Transaction, Env, Wallet, contains, elements, fund, release, reserve,
}
use sia_satellite.Wallet.Inputs.{is_in, Owned}
use sia_satellite.Wallet.Funds.{Funds, fund-Funds}
use sia_satellite.Wallet.Reservations.{created, release-used, Reserves, reserve-Reserves}

abbrev coin : ℕ → ℕ → SiacoinElement
coin id value = record { id = id; value = value; address = id * 10; maturity_height = 0 }

abbrev empty_txn : Transaction
empty_txn = record { siacoin_inputs = []; siacoin_outputs = [] }

abbrev paid_txn : Transaction
paid_txn = record {
  siacoin_inputs = record { parent_id = 1; public_key = 4 } ∷ [];
  siacoin_outputs = record { value = 5; address = 77 } ∷ [];
}

abbrev chain : Env
chain = record {
  height = 100;
  recommended_fee = 1;
  pool_transactions = [];
  key_from_seed = λ i. i;
  standard_unlock_hash = λ key. key + 1000;
  empty_unlock_hash = 0;
  siacoin_output_id = λ txn i. 500 + i;
  put_fails = false;
  insert_fails = false;
  save_fails = false;
}

abbrev purse : Wallet
purse = record {
  sces = (10, coin 1 30) ∷ (20, coin 2 50) ∷ (30, coin 3 20) ∷ [];
  sfes = [];
  keys = (10, 4) ∷ (20, 5) ∷ (30, 6) ∷ [];
  addrs = [];
  unused_keys = [];
  seed_progress = some 3;
  used = (3, true) ∷ [];
}

-- A wallet whose database cannot be read.
abbrev broken_purse : Wallet
broken_purse = record purse { seed_progress = none }

purse-Owned : Owned purse.keys (elements purse.sces)
unfolding lookup
purse-Owned = (refl, (refl, (refl, tt)))

fund-Funds_example :
    Succeeds (Funds purse chain empty_txn 60) (fund currency128 chain purse empty_txn 60)
unfolding lookup
fund-Funds_example =
    fund-Funds currency128 currency128-CurrencyLaws chain purse empty_txn 60 purse-Owned
      (omega arith)

release-used_example :
    contains (release chain (paid_txn ∷ []) purse).used 3
    ≡ (contains purse.used 3 && not (is_in 3 (created chain (paid_txn ∷ []))))
release-used_example = release-used chain (paid_txn ∷ []) purse 3

reserve-Reserves_example : Reserves (1 ∷ 2 ∷ []) purse (reserve (1 ∷ 2 ∷ []) purse)
reserve-Reserves_example = reserve-Reserves (1 ∷ 2 ∷ []) purse
