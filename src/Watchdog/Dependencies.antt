-- ===== src/Watchdog/Dependencies.antt =====
-- The two maps of the watchdog agree: a contract is among the dependents of an output exactly as the
-- output is among the contract's parents.
use sia_satellite.Prelude.{
  ℕ, ◌≡◌, refl, sym, ap, ◌∙◌, ◌≢◌, inl, inr, Bool, true, false, ◌&&◌, Option, none, some, List, [],
  arith, ℕ_discrete, ◌==◌, if◌then◌else◌, Bool-cases, length, is_some, Option-cases, Succeeds,
}
use sia_satellite.Prelude.Maps.{Map, lookup, lookup-delete, lookup-insert}
use sia_satellite.Watchdog.Sets.{has, without, has-with_id, has-without, has-single}
use sia_satellite.Watchdog.{
  Transaction, ContractStatus, Watchdog, or_empty, parents_of, add_dependency, change,
  remove_dependency,
}
use sia_satellite.Prelude.Maps

abbrev pub depends : Watchdog → ℕ → ℕ → Bool
depends w oid fc = has fc (or_empty (lookup oid w.dependencies))

abbrev pub needs : Watchdog → ℕ → ℕ → Bool
needs w oid fc = has oid (parents_of (lookup fc w.contracts))

abbrev pub Agrees : Watchdog → Type 0
Agrees w = (oid fc : ℕ) → depends w oid fc ≡ needs w oid fc

abbrev pub known : Watchdog → ℕ → Bool
known w fc = is_some (lookup fc w.contracts)

abbrev pub txns_in : Option ContractStatus → List Transaction
txns_in none = []
txns_in (some status) = status.formation_txns

-- The formation set of a contract.
abbrev pub txns_of : Watchdog → ℕ → List Transaction
txns_of w fc = txns_in (lookup fc w.contracts)

-- One set of the dependents, or of the parents, with one member put in or taken out.
put_dependents :
    (v : Bool) (oid fc : ℕ) (s : List ℕ) (m : Map (List ℕ))
    → ((z : ℕ) → has z s ≡ (if fc == z then v else has z (or_empty (lookup oid m))))
    → (o z : ℕ)
    → has z (or_empty (lookup o (Maps.insert oid s m)))
      ≡ (if oid == o && fc == z then v else has z (or_empty (lookup o m)))
put_dependents v oid fc s m h o z = rw (lookup-insert oid o s m) (elim (ℕ_discrete oid o) [
  | yes p ↦
      let same = ap (λ k. has z (or_empty (lookup k m))) p in
      let here : oid == o ≡ true = ground (arith, p) in rw here (ground (arith, h z, same))
  | no n ↦ let other : oid == o ≡ false = ground (arith, n) in rw other refl
])

put_parents :
    (v : Bool) (oid fc : ℕ) (s : ContractStatus) (m : Map ContractStatus)
    → ((o : ℕ) → has o s.parents ≡ (if oid == o then v else has o (parents_of (lookup fc m))))
    → (o z : ℕ)
    → has o (parents_of (lookup z (Maps.insert fc s m)))
      ≡ (if oid == o && fc == z then v else has o (parents_of (lookup z m)))
put_parents v oid fc s m h o z = rw (lookup-insert fc z s m) (elim (ℕ_discrete fc z) [
  | yes p ↦
      let same = ap (λ k. has o (parents_of (lookup k m))) p in
      let here : fc == z ≡ true = ground (arith, p) in rw here (ground (arith, h o, same))
  | no n ↦ let other : fc == z ≡ false = ground (arith, n) in rw other (ground arith)
])

pub same_parents :
    (fc o z : ℕ) (s s' : ContractStatus) (m : Map ContractStatus)
    → lookup fc m ≡ some s
    → s'.parents ≡ s.parents
    → has o (parents_of (lookup z (Maps.insert fc s' m))) ≡ has o (parents_of (lookup z m))
same_parents fc o z s s' m e same = rw (lookup-insert fc z s' m) (elim (ℕ_discrete fc z) [
  | yes p ↦
      let here : fc == z ≡ true = ground (arith, p) in
      let there = sym (ap (λ k. lookup k m) p) ∙ e in rw (here, there) (ap (has o) same)
  | no n ↦ let other : fc == z ≡ false = ground (arith, n) in rw other refl
])

txns_put :
    (fc z : ℕ) (s s' : ContractStatus) (m : Map ContractStatus)
    → lookup fc m ≡ some s
    → s'.formation_txns ≡ s.formation_txns
    → txns_in (lookup z (Maps.insert fc s' m)) ≡ txns_in (lookup z m)
txns_put fc z s s' m e same = rw (lookup-insert fc z s' m) (elim (ℕ_discrete fc z) [
  | yes p ↦
      let here : fc == z ≡ true = ground (arith, p) in
      let there = sym (ap (λ k. lookup k m) p) ∙ e in rw (here, there) same
  | no n ↦ let other : fc == z ≡ false = ground (arith, n) in rw other refl
])

pub known_put :
    (fc z : ℕ) (s s' : ContractStatus) (m : Map ContractStatus)
    → lookup fc m ≡ some s
    → is_some (lookup z (Maps.insert fc s' m)) ≡ is_some (lookup z m)
known_put fc z s s' m e = rw (lookup-insert fc z s' m) (elim (ℕ_discrete fc z) [
  | yes p ↦
      let here : fc == z ≡ true = ground (arith, p) in
      let there = sym (ap (λ k. is_some (lookup k m)) p) ∙ ap is_some e in rw (here, there) refl
  | no n ↦ let other : fc == z ≡ false = ground (arith, n) in rw other refl
])

-- What one output more or less changes.
pub record Puts (value : Bool) (oid fc : ℕ) (w w' : Watchdog) : Type 0 where
  pub dependents :
      (o z : ℕ) → depends w' o z ≡ (if oid == o && fc == z then value else depends w o z)
  pub parents : (o z : ℕ) → needs w' o z ≡ (if oid == o && fc == z then value else needs w o z)
  pub same_known : (z : ℕ) → known w' z ≡ known w z
  pub same_txns : (z : ℕ) → txns_of w' z ≡ txns_of w z

pub Puts-Agrees :
    (value : Bool) (oid fc : ℕ) (w w' : Watchdog) → Puts value oid fc w w' → Agrees w → Agrees w'
Puts-Agrees value oid fc w w' p a o z = ground (arith, p.dependents o z, p.parents o z, a o z)

pub none-known : (fc : ℕ) (w : Watchdog) → lookup fc w.contracts ≡ none → known w fc ≢ true
none-known fc w e k = ground (arith, ap is_some e, k)

pub add_dependency-Puts :
    (oid fc : ℕ) (w : Watchdog)
    → known w fc ≡ true
    → Succeeds (Puts true oid fc w) (add_dependency oid fc w)
unfolding add_dependency
add_dependency-Puts oid fc w k = elim (Option-cases (lookup fc w.contracts)) [
  | inl e ↦ absurd (none-known fc w e k)
  | inr (status, e) ↦ rw e (record {
    dependents =
        put_dependents true oid fc _ w.dependencies
          (λ z. has-with_id z fc (or_empty (lookup oid w.dependencies)));
    parents = put_parents true oid fc _ w.contracts (λ o.
        has-with_id o oid status.parents
        ∙ ap (λ k. if oid == o then true else has o (parents_of k)) (sym e));
    same_known = λ z. known_put fc z status _ w.contracts e;
    same_txns = λ z. txns_put fc z status _ w.contracts e refl;
  })
]

-- Taking out what is not there.
pub unchanged :
    (v : Bool) (f : ℕ → ℕ → Bool) (oid fc o z : ℕ)
    → f oid fc ≡ v
    → f o z ≡ (if oid == o && fc == z then v else f o z)
unchanged v f oid fc o z h = elim (ℕ_discrete oid o) [
  | no n ↦ let other : oid == o ≡ false = ground (arith, n) in rw other refl
  | yes p ↦ elim (ℕ_discrete fc z) [
    | no n ↦ let other : fc == z ≡ false = ground (arith, n) in rw other (ground arith)
    | yes q ↦
        let here : oid == o ≡ true = ground (arith, p) in
        let here' : fc == z ≡ true = ground (arith, q) in
        let same : f oid fc ≡ f o z = cc in rw (here, here') (sym same ∙ h)
  ]
]

absent-Puts :
    (oid fc : ℕ) (w : Watchdog) → depends w oid fc ≡ false → Agrees w → Puts false oid fc w w
absent-Puts oid fc w h a = record {
  dependents = λ o z. unchanged false (depends w) oid fc o z h;
  parents = λ o z. unchanged false (needs w) oid fc o z (sym (a oid fc) ∙ h);
  same_known = λ z. refl;
  same_txns = λ z. refl;
}

removed_dependents :
    (oid fc : ℕ) (fcs : List ℕ) (m : Map (List ℕ))
    → lookup oid m ≡ some fcs
    → has fc fcs ≡ true
    → (o z : ℕ)
    → has z (
        or_empty (
          lookup o
            (if length fcs == 1 then Maps.delete oid m else Maps.insert oid (without fc fcs) m)))
      ≡ (if oid == o && fc == z then false else has z (or_empty (lookup o m)))
unfolding has
removed_dependents oid fc fcs m e h o z = elim (Bool-cases (length fcs == 1)) [
  | inr b ↦ rw b (
      put_dependents false oid fc (without fc fcs) m
        (λ z.
          has-without z fc fcs ∙ ap (λ k. if fc == z then false else has z (or_empty k)) (sym e))
        o z)
  | inl b ↦
      rw (b, lookup-delete oid o m)
        (elim (ℕ_discrete oid o) [
          | yes p ↦
              let here : oid == o ≡ true = ground (arith, p) in
              let there = sym (ap (λ k. lookup k m) p) ∙ e in
              let single = has-single fc z fcs h (ground (arith, b)) in
              let goal : false ≡ (if fc == z then false else has z fcs) = ground (arith, single) in
              rw (here, there) goal
          | no n ↦ let other : oid == o ≡ false = ground (arith, n) in rw other refl
        ])
]

pub remove_dependency-Puts :
    (oid fc : ℕ) (w : Watchdog) → Agrees w → Puts false oid fc w (remove_dependency oid fc w)
unfolding remove_dependency change
remove_dependency-Puts oid fc w a = elim (Option-cases (lookup oid w.dependencies)) [
  | inl e ↦ rw (remove_dependency, e) (absent-Puts oid fc w (ap (λ k. has fc (or_empty k)) e) a)
  | inr (fcs, e) ↦
      let there = ap (λ k. has fc (or_empty k)) e in
      elim (Bool-cases (has fc fcs)) [
        | inr h ↦ rw (remove_dependency, e, h) (absent-Puts oid fc w (there ∙ h) a)
        | inl h ↦ elim (Option-cases (lookup fc w.contracts)) [
          | inl e' ↦
              let none_there = ap (λ k. has oid (parents_of k)) e' in
              absurd (ground (arith, sym h ∙ sym there ∙ a oid fc ∙ none_there))
          | inr (status, e') ↦
              rw (remove_dependency, e, h, change, e')
                (record {
                  dependents = removed_dependents oid fc fcs w.dependencies e h;
                  parents = put_parents false oid fc _ w.contracts (λ o.
                      has-without o oid status.parents
                      ∙ ap (λ k. if oid == o then false else has o (parents_of k)) (sym e'));
                  same_known = λ z. known_put fc z status _ w.contracts e';
                  same_txns = λ z. txns_put fc z status _ w.contracts e' refl;
                })
        ]
      ]
]
