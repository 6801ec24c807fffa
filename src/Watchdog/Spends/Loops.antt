-- ===== src/Watchdog/Spends/Loops.antt =====
-- The loops that add and remove the dependencies of one contract.
use sia_satellite.Prelude.{
  ℕ, ◌≡◌, refl, sym, ap, ◌∙◌, inl, inr, Bool, true, false, ◌&&◌, List, [], ◌∷◌, arith, ℕ_discrete,
  ◌==◌, if◌then◌else◌, Bool-cases, is_some, Option-cases, Succeeds, Succeeds-weaken, Succeeds-bind,
}
use sia_satellite.Prelude.Maps.{Map, lookup, lookup-delete}
use sia_satellite.Watchdog.Sets.{has}
use sia_satellite.Watchdog.{
  ContractStatus, Watchdog, parents_of, remove_dependency, remove_dependencies, archive_contract,
}
use sia_satellite.Watchdog.Dependencies.{
  depends, needs, Agrees, known, txns_of, Puts, Puts-Agrees, add_dependency-Puts, unchanged,
  remove_dependency-Puts,
}
use sia_satellite.Watchdog.Spends.{add_missing}
use sia_satellite.Prelude.Maps

-- What many outputs more or less change.
pub record PutsAll (value : Bool) (ids : List ℕ) (fc : ℕ) (w w' : Watchdog) : Type 0 where
  pub agrees : Agrees w'
  pub parents : (o z : ℕ) → needs w' o z ≡ (if has o ids && fc == z then value else needs w o z)
  pub same_known : (z : ℕ) → known w' z ≡ known w z
  pub same_txns : (z : ℕ) → txns_of w' z ≡ txns_of w z

pub none-PutsAll : (v : Bool) (fc : ℕ) (w : Watchdog) → Agrees w → PutsAll v [] fc w w
unfolding has
none-PutsAll v fc w a = record {
  agrees = a;
  parents = λ o z. refl;
  same_known = λ z. refl;
  same_txns = λ z. refl;
}

-- One output, and then the others.
pub next-PutsAll :
    (v : Bool) (oid fc : ℕ) (ids : List ℕ) (w w' w'' : Watchdog)
    → Puts v oid fc w w'
    → PutsAll v ids fc w' w''
    → PutsAll v (oid ∷ ids) fc w w''
unfolding has
next-PutsAll v oid fc ids w w' w'' one more = record {
  agrees = more.agrees;
  parents = λ o z. ground (arith, more.parents o z, one.parents o z);
  same_known = λ z. more.same_known z ∙ one.same_known z;
  same_txns = λ z. more.same_txns z ∙ one.same_txns z;
}

pub remove_dependencies-PutsAll :
    (ids : List ℕ) (fc : ℕ) (w : Watchdog)
    → Agrees w
    → PutsAll false ids fc w (remove_dependencies ids fc w)
unfolding remove_dependencies
remove_dependencies-PutsAll [] fc w a = none-PutsAll false fc w a
remove_dependencies-PutsAll (oid ∷ ids) fc w a =
    let one = remove_dependency-Puts oid fc w a in
    let a' = Puts-Agrees false oid fc w _ one a in
    next-PutsAll false oid fc ids w _ _ one
      (remove_dependencies-PutsAll ids fc (remove_dependency oid fc w) a')

-- An output that is a parent already.
present-Puts : (oid fc : ℕ) (w : Watchdog) → needs w oid fc ≡ true → Agrees w → Puts true oid fc w w
present-Puts oid fc w h a = record {
  dependents = λ o z. unchanged true (depends w) oid fc o z (a oid fc ∙ h);
  parents = λ o z. unchanged true (needs w) oid fc o z h;
  same_known = λ z. refl;
  same_txns = λ z. refl;
}

pub add_missing-PutsAll :
    (ids : List ℕ) (fc : ℕ) (w : Watchdog)
    → Agrees w
    → known w fc ≡ true
    → Succeeds (PutsAll true ids fc w) (add_missing ids fc w)
unfolding add_missing
add_missing-PutsAll [] fc w a k = none-PutsAll true fc w a
add_missing-PutsAll (oid ∷ ids) fc w a k =
    Succeeds-bind (Puts true oid fc w) (PutsAll true (oid ∷ ids) fc w) _ _
      (elim (Bool-cases (needs w oid fc)) [
        | inl h ↦ rw h (present-Puts oid fc w h a)
        | inr h ↦ rw h (add_dependency-Puts oid fc w k)
      ])
      (λ w' one.
        Succeeds-weaken (PutsAll true ids fc w') (PutsAll true (oid ∷ ids) fc w) _
          (add_missing-PutsAll ids fc w' (Puts-Agrees true oid fc w w' one a)
            (one.same_known fc ∙ k))
          (λ w'' more. next-PutsAll true oid fc ids w w' w'' one more))

pub outside : (f : ℕ → Bool) (fc z : ℕ) → f fc ≡ false → f z ≡ (if fc == z then false else f z)
outside f fc z h = elim (ℕ_discrete fc z) [
  | yes p ↦ let here : fc == z ≡ true = ground (arith, p) in rw here (sym (ap f p) ∙ h)
  | no n ↦ let other : fc == z ≡ false = ground (arith, n) in rw other refl
]

deleted_parents :
    (fc o z : ℕ) (m : Map ContractStatus)
    → has o (parents_of (lookup z (Maps.delete fc m)))
      ≡ (if fc == z then false else has o (parents_of (lookup z m)))
unfolding has
deleted_parents fc o z m =
    rw (lookup-delete fc z m)
      (elim (Bool-cases (fc == z)) [ inl e ↦ rw e refl | inr e ↦ rw e refl ])

deleted_known :
    (fc z : ℕ) (m : Map ContractStatus)
    → is_some (lookup z (Maps.delete fc m)) ≡ (if fc == z then false else is_some (lookup z m))
deleted_known fc z m =
    rw (lookup-delete fc z m)
      (elim (Bool-cases (fc == z)) [ inl e ↦ rw e refl | inr e ↦ rw e refl ])

-- `archiveContract` takes the contract out of both maps.
pub record Archived (fc : ℕ) (w w' : Watchdog) : Type 0 where
  pub agrees : Agrees w'
  pub parents : (o z : ℕ) → needs w' o z ≡ (if fc == z then false else needs w o z)
  pub known_others : (z : ℕ) → known w' z ≡ (if fc == z then false else known w z)

pub archive_contract-Archived :
    (fc : ℕ) (w : Watchdog) → Agrees w → Archived fc w (archive_contract fc w)
unfolding archive_contract has
archive_contract-Archived fc w a = elim (Option-cases (lookup fc w.contracts)) [
  | inl e ↦
      rw (archive_contract, e)
        (record {
          agrees = a;
          parents = λ o z. outside (needs w o) fc z (ap (λ k. has o (parents_of k)) e);
          known_others = λ z. outside (known w) fc z (ap is_some e);
        })
  | inr (status, e) ↦
      let w' = remove_dependencies status.parents fc w in
      let r = remove_dependencies-PutsAll status.parents fc w a in
      let gone : (o : ℕ) → needs w' o fc ≡ false =
        λ o. ground (arith, r.parents o fc, ap (λ k. has o (parents_of k)) e) in
      rw (archive_contract, e)
        (record {
          agrees = λ o z.
              r.agrees o z
              ∙ outside (needs w' o) fc z (gone o)
              ∙ sym (deleted_parents fc o z w'.contracts);
          parents = λ o z. deleted_parents fc o z w'.contracts ∙ ground (arith, r.parents o z);
          known_others = λ z. deleted_known fc z w'.contracts ∙ ground (arith, r.same_known z);
        })
]
