-- ===== src/HostTree/Methods.antt =====
-- `Insert`, `Remove`, `Modify` and `Select` of hosttree.go, as operations on a map of hosts.
use sia_satellite.Prelude.{
  ℕ, ◌+◌, ◌<◌, ◌≡◌, refl, inl, inr, Option, none, some, ◌==◌, if◌then◌else◌, ◌>>=◌, Option-cases,
  Succeeds, Succeeds-map,
}
use sia_satellite.Prelude.Maps.{lookup}
use sia_satellite.Currency.{currency_limit, Currency, CurrencyLaws}
use sia_satellite.HostTree.Nodes.Paths.{NodePath}
use sia_satellite.HostTree.Nodes.{HostDbEntry, HostEntry}
use sia_satellite.HostTree.Nodes.Entries.{taken_entry, taken_entry-entry_at}
use sia_satellite.HostTree.Agreement.{key}
use sia_satellite.HostTree.Refinement.{
  IsValid, find, total_score, Stores, Drops, put_in-Stores, take_out-Drops,
}
use sia_satellite.HostTree.{
  Error, host_exists, no_such_host, HostTree, scored, select, take_out, put_in, insert, remove_host,
}

-- A key that the map holds has its entry in the tree.
pub find-of-lookup :
    (ht : HostTree) (pk : ℕ) (p : NodePath)
    → IsValid ht
    → lookup pk ht.hosts ≡ some p
    → (e : HostEntry) × (taken_entry p ht.root ≡ some e) × (find ht pk ≡ some e) × (key e ≡ pk)
find-of-lookup ht pk p v h = let (e, at_p, k) = v.agrees.mapped pk p h in (e, at_p, rw h at_p, k)

pub lookup-of-find-none :
    (ht : HostTree) (pk : ℕ) → IsValid ht → find ht pk ≡ none → lookup pk ht.hosts ≡ none
lookup-of-find-none ht pk v h = elim (Option-cases (lookup pk ht.hosts)) [
  | inl e ↦ e
  | inr (p, e) ↦ let (x, at_p, found, k) = find-of-lookup ht pk p v e in cc
]

-- What `Insert` does to the map, by what the map holds for the key.
abbrev pub Inserts : HostTree → HostDbEntry → Option HostEntry → HostTree × Option Error → Type 0
Inserts ht host (some _) (ht', err) = (ht' ≡ ht) × (err ≡ some host_exists)
Inserts ht host none (ht', err) = Stores ht (scored ht host) ht' × (err ≡ none)

-- What `Remove` does to the map.
abbrev pub Removes : HostTree → ℕ → Option HostEntry → HostTree × Option Error → Type 0
Removes ht pk (some e) (ht', err) = Drops ht pk e ht' × (err ≡ none)
Removes ht pk none (ht', err) = (ht' ≡ ht) × (err ≡ some no_such_host)

-- `ht'` is `ht` with the entry of a key exchanged.
pub record Replaces (ht : HostTree) (old fresh : HostEntry) (ht' : HostTree) : Type 0 where
  pub valid : IsValid ht'
  pub found : (k : ℕ) → find ht' k ≡ (if key fresh == k then some fresh else find ht k)
  pub score : total_score ht' + old.score ≡ total_score ht + fresh.score
  pub same_fn : ht'.score_fn ≡ ht.score_fn

-- What `Modify` does to the map.
abbrev pub Modifies : HostTree → HostDbEntry → Option HostEntry → HostTree × Option Error → Type 0
Modifies ht host (some old) (ht', err) = Replaces ht old (scored ht host) ht' × (err ≡ none)
Modifies ht host none (ht', err) = (ht' ≡ ht) × (err ≡ some no_such_host)

module _ (c : Currency) (laws : CurrencyLaws c) where
  -- On a valid tree with room for the score, `Insert` does not panic. A new host is stored, under
  -- its own score, and nothing else changes; for a host that is there it returns the error and
  -- leaves the tree alone.
  pub insert-Inserts :
      (ht : HostTree) (host : HostDbEntry)
      → IsValid ht
      → total_score ht + ht.score_fn host < currency_limit
      → Succeeds (Inserts ht host (find ht host.public_key)) (insert c ht host)
  unfolding insert
  insert-Inserts ht host v room = elim (Option-cases (lookup host.public_key ht.hosts)) [
    | inl e ↦
        rw (e, insert)
          (Succeeds-map (Stores ht (scored ht host)) (Inserts ht host none) (put_in c ht _)
            (λ ht'. (ht', none)) (put_in-Stores c laws ht (scored ht host) v e room)
            (λ ht' s. (s, refl)))
    | inr (p, e) ↦
        let (x, at_p, found, k) = find-of-lookup ht host.public_key p v e in
        rw (e, insert) (rw at_p (refl, refl))
  ]

  -- On a valid tree `Remove` does not panic. It takes the host of the key out, with its score, and
  -- changes nothing else; for an unknown key it returns the error and leaves the tree alone.
  pub remove_host-Removes :
      (ht : HostTree) (pk : ℕ)
      → IsValid ht
      → Succeeds (Removes ht pk (find ht pk)) (remove_host c ht pk)
  unfolding remove_host
  remove_host-Removes ht pk v = elim (Option-cases (lookup pk ht.hosts)) [
    | inl e ↦ rw (e, remove_host) (refl, refl)
    | inr (p, e) ↦
        let (x, at_p, found, k) = find-of-lookup ht pk p v e in
        rw (e, remove_host)
          (rw at_p (
            Succeeds-map (Drops ht pk x) (Removes ht pk (some x)) (take_out c ht pk p)
              (λ ht'. (ht', none)) (take_out-Drops c laws ht pk p x v e at_p) (λ ht' s. (s, refl))))
  ]

  -- `Select` returns the host that the map holds for the key.
  pub select-eq-find :
      (ht : HostTree) (pk : ℕ) → IsValid ht → select ht pk ≡ some (do e ← find ht pk; some e.host)
  unfolding select
  select-eq-find ht pk v = elim (Option-cases (lookup pk ht.hosts)) [
    | inl e ↦ rw (e, select)
    | inr (p, e) ↦
        let (x, at_p, found, k) = find-of-lookup ht pk p v e in
        rw (e, select) (rw (at_p, taken_entry-entry_at p ht.root at_p))
  ]
