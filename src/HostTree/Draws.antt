-- ===== src/HostTree/Draws.antt =====
-- `SelectRandom` of hosttree.go: one draw.
use sia_satellite.Prelude.{
  ℕ, ◌≤◌, ◌<◌, ◌≡◌, refl, sym, ap, ◌∙◌, subst, inl, inr, false, some, [], ◌∷◌, arith, ◌==◌,
  if◌then◌else◌, ==_self, Bool-cases, length, Ensures, Ensures-some, Succeeds-witness,
  some-of-is_some, Ensures-any,
}
use sia_satellite.Prelude.Maps.{Map, lookup}
use sia_satellite.Currency.{Currency, CurrencyLaws}
use sia_satellite.HostTree.Nodes.{HostEntry, node_at_score, entry_at, remove}
use sia_satellite.HostTree.Nodes.Paths.{NodePath}
use sia_satellite.HostTree.Nodes.Entries.{taken_entry, taken_entry-entry_at}
use sia_satellite.HostTree.Nodes.Taken.{IsTakenIn, node_at_score-IsTakenIn}
use sia_satellite.HostTree.Agreement.{key}
use sia_satellite.HostTree.Refinement.{IsValid, find, total_score, Drops, take_out-Drops}
use sia_satellite.HostTree.Methods.{find-of-lookup}
use sia_satellite.HostTree.{HostTree, take_out}
use sia_satellite.Prelude.Maps

-- No host of the tree has a score of zero.
abbrev pub Positive : HostTree → Type 0
Positive ht = (k : ℕ) (e : HostEntry) → find ht k ≡ some e → 0 < e.score

length-delete_le : (k : ℕ) (m : Map NodePath) → length (Maps.delete k m) ≤ length m
unfolding Maps.delete
length-delete_le k [] = omega arith
length-delete_le k ((j, p) ∷ m) = ground (arith, length-delete_le k m)

pub length-delete_lt :
    (k : ℕ) (m : Map NodePath) (p : NodePath)
    → lookup k m ≡ some p
    → length (Maps.delete k m) < length m
unfolding Maps.delete lookup
length-delete_lt k [] p h = cc
length-delete_lt k ((j, q) ∷ m) p h = elim (Bool-cases (j == k)) [
  | inl b ↦ rw (b, Maps.delete) (omega (arith, length-delete_le k m))
  | inr b ↦
      rw (b, Maps.delete)
        (omega
          (arith, length-delete_lt k m p (ap (λ x. if x then some q else lookup k m) (sym b) ∙ h)))
]

first_host :
    (m : Map NodePath) → length m == 0 ≡ false → (k : ℕ) × (p : NodePath) × (lookup k m ≡ some p)
unfolding lookup
first_host [] h = absurd (ground arith)
first_host ((k, p) ∷ m) h = (k, p, rw (==_self k) refl)

module _ (c : Currency) (laws : CurrencyLaws c) where
  take_out-hosts :
      (ht : HostTree) (pk : ℕ) (p : NodePath)
      → Ensures (λ ht'. ht'.hosts ≡ Maps.delete pk ht.hosts) (take_out c ht pk p)
  unfolding take_out
  take_out-hosts ht pk p =
      Ensures-any (λ (x : HostTree). x.hosts ≡ Maps.delete pk ht.hosts) (remove c p ht.root)
        (λ root. some (record ht { root = root; hosts = Maps.delete pk ht.hosts })) (λ root. refl)

  abbrev pub Taking : HostTree → NodePath → HostEntry → HostTree → Type 0
  Taking ht p e ht' =
      (entry_at p ht.root ≡ some e)
      × (take_out c ht (key e) p ≡ some ht')
      × (find ht (key e) ≡ some e)
      × Drops ht (key e) e ht'
      × (length ht'.hosts < length ht.hosts)

  take_at :
      (ht : HostTree) (p : NodePath) (e : HostEntry)
      → IsValid ht
      → taken_entry p ht.root ≡ some e
      → (ht' : HostTree) × Taking ht p e ht'
  take_at ht p e v at =
      let here = v.agrees.complete p e at in
      let (ht', done, drops) =
        Succeeds-witness (Drops ht (key e) e) _ (take_out-Drops c laws ht (key e) p e v here at) in
      let same_hosts = Ensures-some _ _ (take_out-hosts ht (key e) p) done in
      (
        ht',
        (
          taken_entry-entry_at p ht.root at,
          done,
          rw here at,
          drops,
          subst (λ (m : Map NodePath). length m < length ht.hosts) (sym same_hosts)
              (length-delete_lt (key e) ht.hosts p here),
        ),
      )

  pub some_total :
      (ht : HostTree) → IsValid ht → Positive ht → length ht.hosts == 0 ≡ false → 0 < total_score ht
  some_total ht v pos some_host =
      let (k, p, at_k) = first_host ht.hosts some_host in
      let (x, at_p, found, is_k) = find-of-lookup ht k p v at_k in
      let (ht', t) = take_at ht p x v at_p in omega (arith, pos k x found, t.3.score)

  -- The host that a point below the total score falls on can be taken out.
  pub draw_one :
      (ht : HostTree) (s : ℕ)
      → IsValid ht
      → s < total_score ht
      → (p : NodePath) × (e : HostEntry) × (ht' : HostTree) × (node_at_score c s ht.root ≡ some p)
        × Taking ht p e ht'
  draw_one ht s v below =
      let (p, found, taken) =
        Succeeds-witness (IsTakenIn ht.root) _
          (node_at_score-IsTakenIn c laws s ht.root v.scored_sums below) in
      let (e, at) = some-of-is_some _ taken in
      let (ht', t) = take_at ht p e v at in (p, e, ht', found, t)
