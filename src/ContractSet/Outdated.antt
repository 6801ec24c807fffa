-- ===== src/ContractSet/Outdated.antt =====
-- modules/manager/contractor/contractset/contractset.go: which old contracts `DeleteOldContracts`
-- deletes.
use sia_satellite.Prelude.{
  ℕ, ◌≡◌, refl, sym, ap, ◌∙◌, Bool, true, false, ◌&&◌, ◌||◌, Option, none, some, [], ◌∷◌, ◌==◌,
  if◌then◌else◌, All, any, Succeeds, Succeeds-weaken, Succeeds-map, Succeeds-known,
}
use sia_satellite.Prelude.Maps.{Map, lookup, lookup-delete}
use sia_satellite.ContractSet.{
  Revision, Header, ContractSet, is_outdated, revision_at, delete_outdated, delete_old_contracts,
}
use sia_satellite.Prelude.Maps

-- Every entry leads to a revision of the contract that it names.
abbrev pub KeyedById : Map Header → Map ℕ → Type 0
KeyedById store entries =
    All
      (λ entry.
        (rev : Revision) × (revision_at store (entry.1) ≡ some rev) × (rev.parent_id ≡ entry.0))
      entries

abbrev pub outdated_ref : ℕ → Map Header → ℕ → Bool
outdated_ref height store ref = elim (revision_at store ref) [
  | none ↦ false
  | some rev ↦ is_outdated height rev
]

-- Some entry of the key is outdated.
abbrev pub is_dropped : ℕ → Map Header → ℕ → Map ℕ → Bool
is_dropped height store k entries =
    any (λ entry. (entry.0 == k) && outdated_ref height store (entry.1)) entries

dropped_once :
    (gone outdated rest : Bool) (o : Option ℕ)
    → (if rest then none else (if outdated then (if gone then none else o) else o))
      ≡ (if (gone && outdated) || rest then none else o)
dropped_once true true true o = refl
dropped_once true true false o = refl
dropped_once true false true o = refl
dropped_once true false false o = refl
dropped_once false true true o = refl
dropped_once false true false o = refl
dropped_once false false true o = refl
dropped_once false false false o = refl

delete-if :
    (b : Bool) (id k : ℕ) (old : Map ℕ)
    → lookup k (if b then Maps.delete id old else old)
      ≡ (if b then (if id == k then none else lookup k old) else lookup k old)
delete-if true id k old = lookup-delete id k old
delete-if false id k old = refl

module _ (height : ℕ) (store : Map Header) where
  abbrev Kept : Map ℕ → Map ℕ → Map ℕ → Type 0
  Kept entries old old' =
      (k : ℕ) → lookup k old' ≡ (if is_dropped height store k entries then none else lookup k old)

  delete_outdated-Kept :
      (entries old : Map ℕ)
      → KeyedById store entries
      → Succeeds (Kept entries old) (delete_outdated height store entries old)
  unfolding delete_outdated
  delete_outdated-Kept [] old keyed = λ k. refl
  delete_outdated-Kept (entry ∷ entries) old ((rev, at, id), keyed) =
      let b = is_outdated height rev in
      let rest = if b then Maps.delete rev.parent_id old else old in
      Succeeds-known (Kept (entry ∷ entries) old) (revision_at store entry.1) _ at (
        Succeeds-weaken (Kept entries rest) _ _ (delete_outdated-Kept entries rest keyed)
          (λ old' kept k.
            kept k
            ∙ ap (λ o. if is_dropped height store k entries then none else o)
                (delete-if b rev.parent_id k old)
            ∙ ap
                (λ i.
                  if is_dropped height store k entries
                  then none
                  else (if b then (if i == k then none else lookup k old) else lookup k old))
                id
            ∙ dropped_once (entry.0 == k) b (is_dropped height store k entries) (lookup k old)
            ∙ ap
                (λ (o : Option Revision).
                  if ((entry.0 == k) && elim o [ none ↦ false | some r ↦ is_outdated height r ])
                    || is_dropped height store k entries
                  then none
                  else lookup k old)
                (sym at)))

-- `DeleteOldContracts` deletes exactly the old contracts whose end height and the threshold of one
-- month, as a uint64 sum, lie below the height, in whatever order it visits them, and changes no active
-- contract.
pub delete_old_contracts-Kept :
    (height : ℕ) (cs : ContractSet)
    → KeyedById cs.store cs.old_contracts
    → Succeeds
        (λ cs'.
          ((k : ℕ)
            → lookup k cs'.old_contracts ≡ (
                if is_dropped height cs.store k cs.old_contracts
                then none
                else lookup k cs.old_contracts))
          × (cs'.contracts ≡ cs.contracts)
          × (cs'.store ≡ cs.store))
        (delete_old_contracts height cs)
unfolding delete_old_contracts
delete_old_contracts-Kept height cs keyed =
    Succeeds-map (Kept height cs.store cs.old_contracts cs.old_contracts) _ _ _
      (delete_outdated-Kept height cs.store cs.old_contracts cs.old_contracts keyed)
      (λ old' kept. (kept, refl, refl))
