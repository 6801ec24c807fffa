-- ===== src/ContractSet/Lifecycle.antt =====
-- modules/manager/contractor/contractset/contractset.go: a contract through insertion, update,
-- retirement and deletion.
use sia_satellite.Prelude.{
  ℕ, ◌+◌, ◌<◌, ◌≡◌, refl, sym, ap, ◌∙◌, inl, inr, Bool, true, false, Option, none, some, List,
  arith, ◌==◌, if◌then◌else◌, ==_self, Bool-cases, ◌>>=◌, Ensures, Ensures-some, Ensures-of,
  Ensures-weaken, Ensures-if,
}
use sia_satellite.Prelude.Maps.{Map, lookup, lookup-delete, lookup-insert}
use sia_satellite.ContractSet.{
  Revision, Header, SyncError, contract_not_found, not_saved, validate, last_revision, ContractSet,
  header_of, view, old_contract, joined_keys, insert_contract, retire_contract, delete_contract,
  put_header,
}
use sia_satellite.Currency.{Currency}
use sia_satellite.ContractSet.Revisions.{Syncs, HasRoom}
use sia_satellite.Prelude.Maps

-- References point below the next one, so a new object is no other's.
pub record IsAllocated (cs : ContractSet) : Type 0 where
  pub active : (id ref : ℕ) → lookup id cs.contracts ≡ some ref → ref < cs.next_ref
  pub old : (id ref : ℕ) → lookup id cs.old_contracts ≡ some ref → ref < cs.next_ref

header_of-insert :
    (o : Option ℕ) (ref : ℕ) (h : Header) (store : Map Header)
    → Ensures (λ r. r < ref) o
    → (o >>= λ r. lookup r (Maps.insert ref h store)) ≡ (o >>= λ r. lookup r store)
header_of-insert none ref h store below = refl
header_of-insert (some r) ref h store below = rw (lookup-insert ref r h store) (ground arith)

-- What an insertion does: one contract, under the identifier of its revision, has the new header, and
-- every other contract, active or old, is what it was.
pub record Inserts (h : Header) (rev : Revision) (cs cs' : ContractSet) : Type 0 where
  pub allocated : IsAllocated cs'
  pub viewed : (id : ℕ) → view cs' id ≡ (if rev.parent_id == id then some h else view cs id)
  pub old_kept : (id : ℕ) → old_contract cs' id ≡ old_contract cs id

insert_viewed :
    (h : Header) (rev : Revision) (cs : ContractSet) (id : ℕ)
    → IsAllocated cs
    → (lookup id (Maps.insert rev.parent_id cs.next_ref cs.contracts) >>= λ r.
        lookup r (Maps.insert cs.next_ref h cs.store))
      ≡ (if rev.parent_id == id then some h else header_of cs (lookup id cs.contracts))
insert_viewed h rev cs id a =
    rw (lookup-insert rev.parent_id id cs.next_ref cs.contracts)
      (elim (Bool-cases (rev.parent_id == id)) [
        | inl b ↦
            rw b (
              rw (lookup-insert cs.next_ref cs.next_ref h cs.store) (rw (==_self cs.next_ref) refl))
        | inr b ↦ rw b (
            header_of-insert (lookup id cs.contracts) cs.next_ref h cs.store
              (Ensures-of _ _ (a.active id)))
      ])

active-insert :
    (key ref id r : ℕ) (m : Map ℕ)
    → ((i q : ℕ) → lookup i m ≡ some q → q < ref)
    → lookup id (Maps.insert key ref m) ≡ some r
    → r < ref + 1
active-insert key ref id r m below e =
    Ensures-some (λ q. q < ref + 1) _
      (Ensures-if (λ q. q < ref + 1) (key == id) (some ref) (lookup id m) (λ b. omega arith)
        (λ b.
          Ensures-weaken (λ q. q < ref) _ _ (Ensures-of _ _ (below id)) (λ q h. omega (arith, h))))
      (sym (lookup-insert key id ref m) ∙ e)

-- A valid header is stored under the identifier of its revision, and read back; no other contract
-- changes, and an error is returned exactly if the database row could not be written.
pub insert_contract-Inserts :
    (join : ℕ → ℕ → ℕ) (b : Bool) (h : Header) (rev : Revision) (cs : ContractSet)
    → IsAllocated cs
    → validate h ≡ none
    → last_revision h ≡ some rev
    → Inserts h rev cs (insert_contract join b h cs).0
      × ((insert_contract join b h cs).1 ≡ (if b then some not_saved else none))
unfolding insert_contract view old_contract
insert_contract-Inserts join b h rev cs a v e =
    rw (v, e, insert_contract)
      (
        record {
          allocated = record {
            active = λ id r. active-insert rev.parent_id cs.next_ref id r cs.contracts a.active;
            old = λ id r o. omega (arith, a.old id r o);
          };
          viewed = λ id. insert_viewed h rev cs id a;
          old_kept = λ id.
              header_of-insert (lookup id cs.old_contracts) cs.next_ref h cs.store
                (Ensures-of _ _ (a.old id));
        },
        refl,
      )

abbrev retired : ℕ → ℕ → ContractSet → ContractSet
retired id ref cs = record cs { old_contracts = Maps.insert id ref cs.old_contracts }

abbrev moved : (ℕ → ℕ → ℕ) → Revision → ℕ → ContractSet → ContractSet
moved join rev ref cs = record cs {
  contracts = Maps.delete rev.parent_id cs.contracts;
  old_contracts = Maps.insert rev.parent_id ref cs.old_contracts;
  pub_keys = Maps.delete (joined_keys join rev.public_keys) cs.pub_keys;
}

retire_contract-retired :
    (id ref : ℕ) (cs : ContractSet)
    → lookup id cs.contracts ≡ some ref
    → retire_contract id cs ≡ retired id ref cs
unfolding retire_contract
retire_contract-retired id ref cs e = rw (e, retire_contract) refl

delete_contract-moved :
    (join : ℕ → ℕ → ℕ) (rev : Revision) (ref : ℕ) (cs : ContractSet)
    → lookup rev.parent_id cs.contracts ≡ some ref
    → delete_contract join rev (retired rev.parent_id ref cs) ≡ moved join rev ref cs
unfolding delete_contract
delete_contract-moved join rev ref cs e = rw (e, delete_contract) refl

if_ref :
    (b : Bool) (x y : Option ℕ) (store : Map Header)
    → ((if b then x else y) >>= λ r. lookup r store)
      ≡ (if b then (x >>= λ r. lookup r store) else (y >>= λ r. lookup r store))
if_ref true x y store = refl
if_ref false x y store = refl

-- A contract that is retired and then deleted is old, with the header that it had, and not active;
-- every other contract stays where it was.
pub retired_deleted :
    (join : ℕ → ℕ → ℕ) (rev : Revision) (cs : ContractSet) (ref k : ℕ)
    → lookup rev.parent_id cs.contracts ≡ some ref
    → (view (delete_contract join rev (retire_contract rev.parent_id cs)) k
        ≡ (if rev.parent_id == k then none else view cs k))
      × (old_contract (delete_contract join rev (retire_contract rev.parent_id cs)) k
          ≡ (if rev.parent_id == k then view cs rev.parent_id else old_contract cs k))
unfolding view old_contract
retired_deleted join rev cs ref k e =
    let whole =
      ap (delete_contract join rev) (retire_contract-retired rev.parent_id ref cs e)
      ∙ delete_contract-moved join rev ref cs e in
    (
      ap (λ cs'. view cs' k) whole
          ∙ ap (λ o. o >>= λ r. lookup r cs.store) (lookup-delete rev.parent_id k cs.contracts)
          ∙ if_ref (rev.parent_id == k) none (lookup k cs.contracts) cs.store,
      ap (λ cs'. old_contract cs' k) whole
          ∙ ap (λ o. o >>= λ r. lookup r cs.store)
              (lookup-insert rev.parent_id k ref cs.old_contracts)
          ∙ if_ref (rev.parent_id == k) (some ref) (lookup k cs.old_contracts) cs.store
          ∙ ap
              (λ o.
                if rev.parent_id == k
                then (o >>= λ r. lookup r cs.store)
                else (lookup k cs.old_contracts >>= λ r. lookup r cs.store))
              (sym e),
    )

-- What `UpdateContract` does, by the object that has the name.
abbrev pub Updates :
    Revision → List ℕ → ContractSet → Option ℕ → ContractSet × Option SyncError → Type 0
Updates rev sigs cs none (cs', err) = (cs' ≡ cs) × (err ≡ some contract_not_found)
Updates rev sigs cs (some ref) (cs', err) =
    (h h' : Header) × (lookup ref cs.store ≡ some h)
    × (cs' ≡ put_header ref h' cs)
    × Syncs rev sigs h.revisions h.signatures (h', err)

-- What every referred object has: a header with a revision, and room for the spending.
abbrev pub Ready : ℕ → ℕ → ℕ → ContractSet → Option ℕ → Type 0
Ready u d f cs none = Unit
Ready u d f cs (some ref) =
    (h : Header) × (ours : Revision) × (lookup ref cs.store ≡ some h)
    × (last_revision h ≡ some ours)
    × HasRoom u d f h
