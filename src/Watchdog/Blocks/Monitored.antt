-- ===== src/Watchdog/Blocks/Monitored.antt =====
-- What `callMonitorContract` answers.
use sia_satellite.Prelude.{
  ℕ, ◌≡◌, refl, sym, ap, ◌∙◌, inl, inr, true, false, none, some, List, [], ◌∷◌, arith, ℕ_discrete,
  ◌==◌, if◌then◌else◌, Bool-cases, is_some, Option-cases, Succeeds, Succeeds-witness,
  Succeeds-weaken, Succeeds-bind,
}
use sia_satellite.Prelude.Maps.{Map, lookup, lookup-insert}
use sia_satellite.Watchdog.Sets.{has}
use sia_satellite.Watchdog.{
  ContractStatus, Watchdog, parents_of, put_status, add_dependencies, parent_output_ids,
}
use sia_satellite.Watchdog.Dependencies.{
  needs, Agrees, known, Puts, Puts-Agrees, add_dependency-Puts,
}
use sia_satellite.Watchdog.Spends.Loops.{PutsAll, none-PutsAll, next-PutsAll, outside}
use sia_satellite.Watchdog.Blocks.{
  MonitorArgs, already_watching, no_revision, bad_args, MonitorResult, refused, watching,
  new_status, is_sane, watch_window, monitor_contract,
}
use sia_satellite.Prelude.Maps

pub add_dependencies-PutsAll :
    (ids : List ℕ) (fc : ℕ) (w : Watchdog)
    → Agrees w
    → known w fc ≡ true
    → Succeeds (PutsAll true ids fc w) (add_dependencies ids fc w)
unfolding add_dependencies
add_dependencies-PutsAll [] fc w a k = none-PutsAll true fc w a
add_dependencies-PutsAll (oid ∷ ids) fc w a k =
    Succeeds-bind (Puts true oid fc w) (PutsAll true (oid ∷ ids) fc w) _ _
      (add_dependency-Puts oid fc w k)
      (λ w' one.
        Succeeds-weaken (PutsAll true ids fc w') (PutsAll true (oid ∷ ids) fc w) _
          (add_dependencies-PutsAll ids fc w' (Puts-Agrees true oid fc w w' one a)
            (one.same_known fc ∙ k))
          (λ w'' more. next-PutsAll true oid fc ids w w' w'' one more))

-- A new contract, without parents.
unknown_none : (fc : ℕ) (w : Watchdog) → known w fc ≡ false → lookup fc w.contracts ≡ none
unknown_none fc w k = elim (Option-cases (lookup fc w.contracts)) [
  | inl e ↦ e
  | inr (status, e) ↦ absurd (ground (arith, ap is_some e, k))
]

fresh_parents :
    (fc o z : ℕ) (s : ContractStatus) (m : Map ContractStatus)
    → lookup fc m ≡ none
    → s.parents ≡ []
    → has o (parents_of (lookup z (Maps.insert fc s m))) ≡ has o (parents_of (lookup z m))
fresh_parents fc o z s m e fresh = rw (lookup-insert fc z s m) (elim (ℕ_discrete fc z) [
  | yes p ↦
      let here : fc == z ≡ true = ground (arith, p) in
      let there = sym (ap (λ k. lookup k m) p) ∙ e in rw (here, there) (ap (has o) fresh)
  | no n ↦ let other : fc == z ≡ false = ground (arith, n) in rw other refl
])

-- The answer, by its constructor.
abbrev pub Monitors : MonitorArgs → Watchdog → MonitorResult → Type 0
Monitors args w (refused already_watching) = known w args.fc ≡ true
Monitors args w (refused no_revision) = (known w args.fc ≡ false) × (args.windows ≡ [])
Monitors args w (refused bad_args) = (known w args.fc ≡ false) × (is_sane args ≡ false)
Monitors args w (watching none) = ⊥
Monitors args w (watching (some w')) =
    (known w args.fc ≡ false)
    × (is_sane args ≡ true)
    × Agrees w'
    × (known w' args.fc ≡ true)
    × ((o z : ℕ)
        → needs w' o z
          ≡ (if args.fc == z then has o (parent_output_ids args.formation_txns) else needs w o z))

watch_window-Monitors :
    (args : MonitorArgs) (w : Watchdog) (windows : List (ℕ × ℕ))
    → Agrees w
    → known w args.fc ≡ false
    → args.windows ≡ windows
    → Monitors args w (watch_window args w windows)
unfolding watch_window
watch_window-Monitors args w [] a k e = (k, e)
watch_window-Monitors args w (window ∷ windows) a k e = elim (Bool-cases (is_sane args)) [
  | inr b ↦ rw (watch_window, b) (k, b)
  | inl b ↦
      let fc = args.fc in
      let needed = parent_output_ids args.formation_txns in
      let w1 = put_status fc (new_status args window) w in
      let absent = unknown_none fc w k in
      let same : (o z : ℕ) → needs w1 o z ≡ needs w o z =
        λ o z. fresh_parents fc o z (new_status args window) w.contracts absent refl in
      let a1 : Agrees w1 = λ o z. a o z ∙ sym (same o z) in
      let k1 : known w1 fc ≡ true =
        rw (lookup-insert fc fc (new_status args window) w.contracts)
          (let here : fc == fc ≡ true = ground arith in rw here refl) in
      let (w2, e2, m) =
        Succeeds-witness (PutsAll true needed fc w1) (add_dependencies needed fc w1)
          (add_dependencies-PutsAll needed fc w1 a1 k1) in
      let before : (o : ℕ) → needs w o fc ≡ false = λ o. ap (λ x. has o (parents_of x)) absent in
      rw (watch_window, b, e2)
        (
          k,
          b,
          m.agrees,
          m.same_known fc ∙ k1,
          λ o z. ground (arith, m.parents o z, same o z, outside (needs w o) fc z (before o)),
        )
]

-- Where both maps agree, a contract that is watched already, one without a revision, and one without a
-- formation set, inputs to sweep or a height are refused. Any other is watched: it depends on what its
-- formation set spends and does not create, on nothing else, and the dependencies of the other
-- contracts are as before.
pub monitor_contract-Monitors :
    (args : MonitorArgs) (w : Watchdog) → Agrees w → Monitors args w (monitor_contract args w)
unfolding monitor_contract watch_window
monitor_contract-Monitors args w a = elim (Bool-cases (known w args.fc)) [
  | inl k ↦ rw (monitor_contract, k) k
  | inr k ↦ rw (monitor_contract, k) (watch_window-Monitors args w args.windows a k refl)
]
