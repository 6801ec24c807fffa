-- ===== src/HostTree/Agreement.antt =====
-- The host map of hosttree.go against the nodes: the map leads to the node of each host, and every
-- host at a taken node is in the map.
use sia_satellite.Prelude.{
  ℕ, ◌≡◌, sym, ◌∙◌, subst, inl, inr, true, false, Option, none, some, arith, ◌==◌, if◌then◌else◌,
  ==_iff, ==_self, Bool-cases, ◌>>=◌, Option-cases,
}
use sia_satellite.Prelude.Maps.{Map, lookup, lookup-delete, lookup-insert}
use sia_satellite.HostTree.Nodes.Paths.{NodePath, same, same_self, same→eq}
use sia_satellite.HostTree.Nodes.{HostEntry, Node}
use sia_satellite.HostTree.Nodes.Entries.{taken_entry}
use sia_satellite.Prelude.Maps

abbrev pub key : HostEntry → ℕ
key e = e.host.public_key

pub record Agrees (hosts : Map NodePath) (t : Node) : Type 0 where
  pub mapped :
      (pk : ℕ) (p : NodePath)
      → lookup pk hosts ≡ some p
      → (e : HostEntry) × (taken_entry p t ≡ some e) × (key e ≡ pk)
  pub complete :
      (p : NodePath) (e : HostEntry) → taken_entry p t ≡ some e → lookup (key e) hosts ≡ some p

-- The entry of a key: the map gives the node, and the node the entry.
abbrev pub find_in : Map NodePath → Node → ℕ → Option HostEntry
find_in hosts t k = do p ← lookup k hosts; taken_entry p t

-- What an insertion of `e` at `p` does to the hosts at the nodes, and what a removal does.
abbrev pub Placed : HostEntry → NodePath → Node → Node → Type 0
Placed e p t t' =
    (q : NodePath)
    → (taken_entry q t' ≡ (if same q p then some e else taken_entry q t))
      × (same q p ≡ true → taken_entry q t ≡ none)

abbrev pub Freed : NodePath → Node → Node → Type 0
Freed p t t' = (q : NodePath) → taken_entry q t' ≡ (if same q p then none else taken_entry q t)

module _ (e : HostEntry) (p : NodePath) (t t' : Node) (hosts : Map NodePath)
    (a : Agrees hosts t) where
  -- A path of the map leads to a taken node, so it is not the place of the new host.
  not_new : Placed e p t t' → (pk : ℕ) (q : NodePath) → lookup pk hosts ≡ some q → same q p ≡ false
  not_new placed pk q h = let (x, at_q, k) = a.mapped pk q h in ground (arith, placed q, at_q)

  mapped-insert :
      Placed e p t t'
      → (pk : ℕ) (q : NodePath) → lookup pk (Maps.insert (key e) p hosts) ≡ some q
      → (x : HostEntry) × (taken_entry q t' ≡ some x) × (key x ≡ pk)
  mapped-insert placed pk q h = elim (Bool-cases (key e == pk)) [
    | inl hit ↦
        let at_p : p ≡ q = ground (arith, lookup-insert (key e) pk p hosts) in
        (
          e,
          subst (λ r. taken_entry r t' ≡ some e) at_p ((placed p).0 ∙ rw (same_self p)),
          (==_iff (key e) pk).0 hit,
        )
    | inr miss ↦
        let old : lookup pk hosts ≡ some q = ground (arith, lookup-insert (key e) pk p hosts) in
        let (x, at_q, k) = a.mapped pk q old in
        (x, (placed q).0 ∙ rw (not_new placed pk q old) at_q, k)
  ]

  complete-insert :
      Placed e p t t'
      → lookup (key e) hosts ≡ none
      → (q : NodePath) (x : HostEntry) → taken_entry q t' ≡ some x
      → lookup (key x) (Maps.insert (key e) p hosts) ≡ some q
  complete-insert placed absent q x h = elim (Bool-cases (same q p)) [
    | inl hit ↦
        let is_e : e ≡ x = ground (arith, placed q) in
        rw (← is_e)
          (lookup-insert (key e) (key e) p hosts ∙ rw (==_self (key e)) (rw (same→eq q p hit)))
    | inr miss ↦
        let old : taken_entry q t ≡ some x = ground (arith, placed q) in
        ground (arith, lookup-insert (key e) (key x) p hosts, a.complete q x old)
  ]

  pub Agrees-insert :
      Placed e p t t' → lookup (key e) hosts ≡ none → Agrees (Maps.insert (key e) p hosts) t'
  Agrees-insert placed absent = record {
    mapped = mapped-insert placed;
    complete = complete-insert placed absent;
  }

  pub find_in-insert :
      Placed e p t t'
      → (k : ℕ)
      → find_in (Maps.insert (key e) p hosts) t' k
        ≡ (if key e == k then some e else find_in hosts t k)
  find_in-insert placed k = elim (Bool-cases (key e == k)) [
    | inl hit ↦ rw (lookup-insert (key e) k p hosts) (rw hit ((placed p).0 ∙ rw (same_self p)))
    | inr miss ↦ rw (lookup-insert (key e) k p hosts) (rw miss (kept k))
  ]
    where
      kept : (k : ℕ) → find_in hosts t' k ≡ find_in hosts t k
      kept k = elim (Option-cases (lookup k hosts)) [
        | inl e₁ ↦ rw e₁
        | inr (q, e₁) ↦ rw e₁ ((placed q).0 ∙ rw (not_new placed k q e₁))
      ]

module _ (pk : ℕ) (p : NodePath) (t t' : Node) (hosts : Map NodePath) (a : Agrees hosts t) where
  mapped-delete :
      Freed p t t'
      → lookup pk hosts ≡ some p
      → (k : ℕ) (q : NodePath) → lookup k (Maps.delete pk hosts) ≡ some q
      → (x : HostEntry) × (taken_entry q t' ≡ some x) × (key x ≡ k)
  mapped-delete freed here k q h =
      let old : lookup k hosts ≡ some q = ground (arith, lookup-delete pk k hosts) in
      let (x, at_q, e) = a.mapped k q old in
      let (y, at_p, e') = a.mapped pk p here in
      (x, ground (arith, freed q, lookup-delete pk k hosts, same→eq q p, at_q, at_p), e)

  complete-delete :
      Freed p t t'
      → lookup pk hosts ≡ some p
      → (q : NodePath) (x : HostEntry) → taken_entry q t' ≡ some x
      → lookup (key x) (Maps.delete pk hosts) ≡ some q
  complete-delete freed here q x h =
      let old : taken_entry q t ≡ some x = ground (arith, freed q) in
      let found = a.complete q x old in
      ground (arith, freed q, lookup-delete pk (key x) hosts, found, same_self p)

  pub Agrees-delete : Freed p t t' → lookup pk hosts ≡ some p → Agrees (Maps.delete pk hosts) t'
  Agrees-delete freed here = record {
    mapped = mapped-delete freed here;
    complete = complete-delete freed here;
  }

  pub find_in-delete :
      Freed p t t'
      → lookup pk hosts ≡ some p
      → (k : ℕ)
      → find_in (Maps.delete pk hosts) t' k ≡ (if pk == k then none else find_in hosts t k)
  find_in-delete freed here k = elim (Bool-cases (pk == k)) [
    | inl hit ↦ rw (lookup-delete pk k hosts) (rw hit)
    | inr miss ↦ rw (lookup-delete pk k hosts) (
        rw miss (elim (Option-cases (lookup k hosts)) [
          | inl e ↦ rw e
          | inr (q, e) ↦
              let (x, at_q, ek) = a.mapped k q e in
              let (y, at_p, ep) = a.mapped pk p here in
              rw e (ground (arith, freed q, same→eq q p, at_q, at_p))
        ]))
  ]

-- Only the lookups of the map count.
pub Agrees-ext :
    (m m' : Map NodePath) (t : Node)
    → ((k : ℕ) → lookup k m ≡ lookup k m')
    → Agrees m t
    → Agrees m' t
Agrees-ext m m' t same_lookups a = record {
  mapped = λ pk p h. a.mapped pk p (same_lookups pk ∙ h);
  complete = λ p e h. sym (same_lookups (key e)) ∙ a.complete p e h;
}
