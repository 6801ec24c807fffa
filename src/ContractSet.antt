-- ===== src/ContractSet.antt =====
-- modules/manager/contractor/contractset/contract.go and contractset.go: the contracts that are
-- active, those that are old, and the revisions that they take over. A `*FileContract` is a number
-- that the store maps to its header, since both maps may hold the same one. Rows of the database are
-- left out but for whether they could be written.
mod Examples
pub mod Revisions
pub mod Outdated
pub mod Lifecycle
use sia_satellite.Prelude.{
  ℕ, ◌+◌, ◌*◌, ◌%◌, Bool, true, false, not, ◌&&◌, Option, none, some, List, [], ◌∷◌, ltb, ◌==◌,
  if◌then◌else◌, length, ◌>>=◌,
}
use sia_satellite.Prelude.Maps.{Map, lookup}
use sia_satellite.Currency.{Currency}
use sia_satellite.Utility.{ContractUtility}
use sia_satellite.Gouging.{u64_limit}
use sia_satellite.Prelude.Maps

-- types.FileContractRevision: the fields that are used.
pub record Revision : Type 0 where
  pub parent_id : ℕ
  pub revision_number : ℕ
  pub file_merkle_root : ℕ
  pub end_height : ℕ
  pub valid_proof_outputs : List ℕ
  pub public_keys : List ℕ

-- contractHeader, with its transaction's revisions and signatures.
pub record Header : Type 0 where
  pub revisions : List Revision
  pub signatures : List ℕ
  pub start_height : ℕ
  pub download_spending : ℕ
  pub fund_account_spending : ℕ
  pub storage_spending : ℕ
  pub upload_spending : ℕ
  pub total_cost : ℕ
  pub utility : ContractUtility
  pub unlocked : Bool

pub data SyncError : Type 0 where
  no_revisions wrong_outputs wrong_keys contract_not_found not_saved : SyncError
  revision_number_mismatch : ℕ → ℕ → SyncError

-- `validate`
abbrev pub has_outputs : Revision → Bool
has_outputs rev = not (length rev.valid_proof_outputs == 0)

unfoldable pub validate : Header → Option SyncError
validate h = elim h.revisions [
  | [] ↦ some no_revisions
  | rev ∷ revs ↦
      if not (has_outputs rev)
      then some wrong_outputs
      else if not (length rev.public_keys == 2)
      then some wrong_keys
      else none
]

-- `LastRevision`: the first of the list; `none` is its panic.
abbrev pub first_of : List Revision → Option Revision
first_of [] = none
first_of (rev ∷ revs) = some rev

abbrev pub last_revision : Header → Option Revision
last_revision h = first_of h.revisions

-- `FileContractRevisions[0] = rev`
abbrev pub set_first : Revision → List Revision → List Revision
set_first rev [] = []
set_first rev (old ∷ revs) = rev ∷ revs

-- `if len(sigs) != 0 { Signatures = sigs }`
abbrev pub newer_signatures : List ℕ → List ℕ → List ℕ
newer_signatures [] old = old
newer_signatures (s ∷ sigs) old = s ∷ sigs

abbrev pub overwritten : Revision → List ℕ → Header → Header
overwritten rev sigs h = record h {
  revisions = set_first rev h.revisions;
  signatures = newer_signatures sigs h.signatures;
}

-- The spending that `managedSyncRevision` adds first.
unfoldable pub add_spending : Currency → ℕ → ℕ → ℕ → Header → Option Header
add_spending c uploads downloads funding h = do
  up ← c.add h.upload_spending uploads
  down ← c.add h.download_spending downloads
  fund ← c.add h.fund_account_spending funding
  some (record h { upload_spending = up; download_spending = down; fund_account_spending = fund })

-- The part of `managedSyncRevision` behind the spending, with our revision.
unfoldable pub take_over : Bool → Revision → List ℕ → Header → Revision → Header × Option SyncError
take_over save_fails rev sigs h ours =
    if (rev.revision_number == ours.revision_number)
      && (rev.file_merkle_root == ours.file_merkle_root)
    then (overwritten rev sigs h, none)
    else if ltb rev.revision_number ours.revision_number
    then (h, some (revision_number_mismatch ours.revision_number rev.revision_number))
    else (overwritten rev sigs h, if save_fails then some not_saved else none)

-- `managedSyncRevision`; `none` is a panic.
unfoldable pub sync_revision :
    Currency → Bool → Revision → List ℕ → ℕ → ℕ → ℕ → Header → Option (Header × Option SyncError)
unfolding add_spending take_over
sync_revision c save_fails rev sigs uploads downloads funding h = do
  h' ← add_spending c uploads downloads funding h
  elim h'.signatures [
    | [] ↦ some (record h' { revisions = rev ∷ []; signatures = sigs }, none)
    | s ∷ ss ↦ (do ours ← last_revision h'; some (take_over save_fails rev sigs h' ours))
  ]

-- `managedCommitAppend` and `managedCommitDownload`
unfoldable pub commit_append : Currency → List Revision → List ℕ → ℕ → ℕ → Header → Option Header
commit_append c revs sigs storage_cost bandwidth_cost h = do
  storage ← c.add h.storage_spending storage_cost
  upload ← c.add h.upload_spending bandwidth_cost
  some (record h {
    revisions = revs;
    signatures = sigs;
    storage_spending = storage;
    upload_spending = upload;
  })

unfoldable pub commit_download : Currency → List Revision → List ℕ → ℕ → Header → Option Header
commit_download c revs sigs bandwidth_cost h = do
  download ← c.add h.download_spending bandwidth_cost
  some (record h { revisions = revs; signatures = sigs; download_spending = download })

-- `managedCommitClearContract`, and `Clear` at no cost.
unfoldable pub commit_clear_contract :
    Currency → List Revision → List ℕ → ℕ → Header → Option Header
commit_clear_contract c revs sigs bandwidth_cost h = do
  upload ← c.add h.upload_spending bandwidth_cost
  some (record h {
    revisions = revs;
    signatures = sigs;
    upload_spending = upload;
    utility = record (h.utility) { good_for_renew = false; good_for_upload = false; locked = true };
  })

-- ContractSet
pub record ContractSet : Type 0 where
  pub contracts : Map ℕ
  pub old_contracts : Map ℕ
  pub pub_keys : Map ℕ
  pub store : Map Header
  pub next_ref : ℕ

abbrev pub header_of : ContractSet → Option ℕ → Option Header
header_of cs ref = ref >>= λ r. lookup r cs.store

-- `View`, and `OldContract`
unfoldable pub view : ContractSet → ℕ → Option Header
view cs id = header_of cs (lookup id cs.contracts)

unfoldable pub old_contract : ContractSet → ℕ → Option Header
old_contract cs id = header_of cs (lookup id cs.old_contracts)

-- `RenterPublicKey().String() + HostPublicKey().String()`, with the joining of two strings given.
abbrev pub joined_keys : (ℕ → ℕ → ℕ) → List ℕ → ℕ
joined_keys join [] = 0
joined_keys join (renter ∷ []) = 0
joined_keys join (renter ∷ host ∷ keys) = join renter host

-- `managedInsertContract`: a header that is not valid is refused; else a new object takes the place of
-- any contract of that name, whether or not it can be saved.
unfoldable pub insert_contract :
    (ℕ → ℕ → ℕ) → Bool → Header → ContractSet → ContractSet × Option SyncError
unfolding validate
insert_contract join save_fails h cs = elim (validate h) [
  | some e ↦ (cs, some e)
  | none ↦ elim (last_revision h) [
    | none ↦ (cs, some no_revisions)
    | some rev ↦ (
      record cs {
        contracts = Maps.insert rev.parent_id cs.next_ref cs.contracts;
        pub_keys = Maps.insert (joined_keys join rev.public_keys) rev.parent_id cs.pub_keys;
        store = Maps.insert cs.next_ref h cs.store;
        next_ref = cs.next_ref + 1;
      },
      if save_fails then some not_saved else none,
    )
  ]
]

-- `RetireContract`
unfoldable pub retire_contract : ℕ → ContractSet → ContractSet
retire_contract id cs = elim (lookup id cs.contracts) [
  | none ↦ cs
  | some ref ↦ record cs { old_contracts = Maps.insert id ref cs.old_contracts }
]

-- `Delete`, by the last revision of the acquired contract.
unfoldable pub delete_contract : (ℕ → ℕ → ℕ) → Revision → ContractSet → ContractSet
delete_contract join rev cs = elim (lookup rev.parent_id cs.contracts) [
  | none ↦ cs
  | some ref ↦ record cs {
    contracts = Maps.delete rev.parent_id cs.contracts;
    pub_keys = Maps.delete (joined_keys join rev.public_keys) cs.pub_keys;
  }
]

-- contractAgeThreshold
abbrev pub contract_age_threshold : ℕ
contract_age_threshold = 30 * (24 * 6)

-- `height > endHeight+contractAgeThreshold`, where the sum wraps.
abbrev pub is_outdated : ℕ → Revision → Bool
is_outdated height rev = ltb ((rev.end_height + contract_age_threshold) % u64_limit) height

-- The last revision of the contract that a reference leads to.
abbrev pub revision_at : Map Header → ℕ → Option Revision
revision_at store ref = lookup ref store >>= last_revision

-- The loop of `DeleteOldContracts`: the identifier that is deleted is that of the header.
unfoldable pub delete_outdated : ℕ → Map Header → Map ℕ → Map ℕ → Option (Map ℕ)
delete_outdated height store [] old = some old
delete_outdated height store (entry ∷ entries) old = do
  rev ← revision_at store entry.1
  delete_outdated height store entries
      (if is_outdated height rev then Maps.delete rev.parent_id old else old)

-- `DeleteOldContracts`; `none` is the panic of a header without revisions.
unfoldable pub delete_old_contracts : ℕ → ContractSet → Option ContractSet
unfolding delete_outdated
delete_old_contracts height cs = do
  old ← delete_outdated height cs.store cs.old_contracts cs.old_contracts
  some (record cs { old_contracts = old })

-- `ReplaceOldContract`
unfoldable pub replace_old_contract : ℕ → ℕ → ContractSet → ContractSet
replace_old_contract id ref cs = record cs { old_contracts = Maps.insert id ref cs.old_contracts }

-- The object that `UpdateContract` and `UnlockPayout` work on: the active contract, or the old one.
abbrev pub find_contract : ContractSet → ℕ → Option ℕ
find_contract cs id = elim (lookup id cs.contracts) [
  | some ref ↦ some ref
  | none ↦ lookup id cs.old_contracts
]

abbrev pub put_header : ℕ → Header → ContractSet → ContractSet
put_header ref h cs = record cs { store = Maps.insert ref h cs.store }

-- `UpdateContract`
unfoldable pub update_contract :
    Currency
    → Bool
    → Revision
    → List ℕ
    → ℕ
    → ℕ
    → ℕ
    → ContractSet
    → Option (ContractSet × Option SyncError)
unfolding sync_revision
update_contract c save_fails rev sigs uploads downloads funding cs =
    elim (find_contract cs rev.parent_id) [
      | none ↦ some (cs, some contract_not_found)
      | some ref ↦ (do
        h ← lookup ref cs.store
        r ← sync_revision c save_fails rev sigs uploads downloads funding h
        some (put_header ref r.0 cs, r.1))
    ]

-- `UnlockPayout`
unfoldable pub unlock_payout : ℕ → ContractSet → ContractSet
unlock_payout id cs = elim (find_contract cs id) [
  | none ↦ cs
  | some ref ↦ elim (lookup ref cs.store) [
    | none ↦ cs
    | some h ↦ put_header ref (record h { unlocked = true }) cs
  ]
]
