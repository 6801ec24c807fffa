-- ===== src/ContractSet/Examples.antt =====
-- The theorems on the contract set at concrete contracts.
use sia_satellite.Prelude.{
  ℕ, ◌+◌, ◌*◌, ◌≡◌, refl, true, false, none, some, [], ◌∷◌, arith, ◌==◌, if◌then◌else◌, Succeeds,
}
use sia_satellite.Prelude.Maps.{lookup}
use sia_satellite.Currency.{currency128, currency128-CurrencyLaws}
use sia_satellite.Utility.{no_utility}
use sia_satellite.ContractSet.{
  Revision, Header, not_saved, validate, sync_revision, ContractSet, view, old_contract,
  insert_contract, retire_contract, delete_contract, delete_old_contracts,
}
use sia_satellite.ContractSet.Revisions.{Syncs, sync_revision-Syncs}
use sia_satellite.ContractSet.Lifecycle.{
  IsAllocated, Inserts, insert_contract-Inserts, retired_deleted,
}
use sia_satellite.ContractSet.Outdated.{is_dropped, delete_old_contracts-Kept}

abbrev revision_of : ℕ → ℕ → Revision
revision_of id number = record {
  parent_id = id;
  revision_number = number;
  file_merkle_root = number * 11;
  end_height = 5000;
  valid_proof_outputs = 40 ∷ 60 ∷ [];
  public_keys = 1 ∷ 2 ∷ [];
}

abbrev header_with : ℕ → ℕ → Header
header_with id number = record {
  revisions = revision_of id number ∷ [];
  signatures = 8 ∷ 9 ∷ [];
  start_height = 100;
  download_spending = 5;
  fund_account_spending = 0;
  storage_spending = 7;
  upload_spending = 3;
  total_cost = 100;
  utility = no_utility;
  unlocked = false;
}

abbrev two_contracts : ContractSet
two_contracts = record {
  contracts = (7, 0) ∷ [];
  old_contracts = (6, 1) ∷ [];
  pub_keys = (12, 7) ∷ [];
  store = (0, header_with 7 4) ∷ (1, header_with 6 9) ∷ [];
  next_ref = 2;
}

two_contracts-IsAllocated : IsAllocated two_contracts
unfolding lookup
two_contracts-IsAllocated = record {
  active = λ id ref e. ground arith;
  old = λ id ref e. ground arith;
}

sync_revision-Syncs_example :
    Succeeds
      (Syncs (revision_of 7 5) [] (revision_of 7 4 ∷ []) (8 ∷ 9 ∷ []))
      (sync_revision currency128 false (revision_of 7 5) [] 1 2 3 (header_with 7 4))
sync_revision-Syncs_example =
    sync_revision-Syncs currency128 currency128-CurrencyLaws false (revision_of 7 5) [] 1 2 3
      (header_with 7 4) (revision_of 7 4) (omega arith, omega arith, omega arith) refl

insert_contract-Inserts_example :
    Inserts
      (header_with 8 1)
      (revision_of 8 1)
      two_contracts
      (insert_contract (λ r h. r * 10 + h) true (header_with 8 1) two_contracts).0
    × ((insert_contract (λ r h. r * 10 + h) true (header_with 8 1) two_contracts).1
        ≡ some not_saved)
unfolding validate
insert_contract-Inserts_example =
    insert_contract-Inserts (λ r h. r * 10 + h) true (header_with 8 1) (revision_of 8 1)
      two_contracts two_contracts-IsAllocated refl refl

retired_deleted_example :
    (view
        (delete_contract (λ r h. r * 10 + h) (revision_of 7 4) (retire_contract 7 two_contracts))
        7
      ≡ (if 7 == 7 then none else view two_contracts 7))
    × (old_contract
          (delete_contract (λ r h. r * 10 + h) (revision_of 7 4) (retire_contract 7 two_contracts))
          7
        ≡ (if 7 == 7 then view two_contracts 7 else old_contract two_contracts 7))
unfolding lookup
retired_deleted_example =
    retired_deleted (λ r h. r * 10 + h) (revision_of 7 4) two_contracts 0 7 refl

delete_old_contracts-Kept_example :
    Succeeds
      (λ cs'.
        ((k : ℕ)
          → lookup k cs'.old_contracts ≡ (
              if is_dropped 9400 two_contracts.store k two_contracts.old_contracts
              then none
              else lookup k two_contracts.old_contracts))
        × (cs'.contracts ≡ two_contracts.contracts)
        × (cs'.store ≡ two_contracts.store))
      (delete_old_contracts 9400 two_contracts)
unfolding lookup
delete_old_contracts-Kept_example =
    delete_old_contracts-Kept 9400 two_contracts ((revision_of 6 9, refl, refl), tt)
