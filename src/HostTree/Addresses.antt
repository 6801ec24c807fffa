-- ===== src/HostTree/Addresses.antt =====
-- `SelectRandom` of hosttree.go: the filter of the address blacklist.
use sia_satellite.Prelude.{
  ℕ, ◌≡◌, refl, sym, ◌∙◌, subst, inl, inr, Option, none, some, List, [], ◌∷◌, All, Option-cases,
  Succeeds, Succeeds-weaken, Succeeds-known,
}
use sia_satellite.Prelude.Maps.{lookup}
use sia_satellite.HostTree.Nodes.{HostEntry}
use sia_satellite.HostTree.Refinement.{IsValid, find}
use sia_satellite.HostTree.Methods.{find-of-lookup}
use sia_satellite.HostTree.Nodes.Entries.{taken_entry-entry_at}
use sia_satellite.HostTree.Random.{Resolver, Filter, new_filter, add_address, filter_addresses}
use sia_satellite.HostTree.Filters.{
  Grows, add_address-Grows, add_address_monotone, nothing-Grows, subnets_of,
}
use sia_satellite.HostTree.{HostTree}

-- The filter has the subnets of the hosts of these keys.
abbrev pub Covers : Resolver → HostTree → List ℕ → Filter → Type 0
Covers res ht pks g =
    All (λ pk. (e : HostEntry) → find ht pk ≡ some e → Grows (subnets_of res e.host) g) pks

abbrev Covered : Resolver → Filter → Option HostEntry → Type 0
Covered res g none = Unit
Covered res g (some e) = Grows (subnets_of res e.host) g

-- The filter has the subnets of `f` and those of the hosts of these keys.
pub record Covering (res : Resolver) (ht : HostTree) (pks : List ℕ) (f g : Filter) : Type 0 where
  pub grows : Grows f g
  pub covers : Covers res ht pks g

pub filter_addresses-Covering :
    (res : Resolver) (pks : List ℕ) (ht : HostTree) (f : Filter)
    → IsValid ht
    → Succeeds (Covering res ht pks f) (filter_addresses res pks ht f)
unfolding filter_addresses
filter_addresses-Covering res [] ht f v = record { grows = λ n h. h; covers = tt }
filter_addresses-Covering res (pk ∷ pks) ht f v = elim (Option-cases (lookup pk ht.hosts)) [
  | inl e ↦
      let gone : find ht pk ≡ none = rw e refl in
      rw (e, filter_addresses)
        (Succeeds-weaken (Covering res ht pks f) (Covering res ht (pk ∷ pks) f) _
          (filter_addresses-Covering res pks ht f v)
          (λ g h. record {
            grows = h.grows;
            covers = (λ y found. (let z = sym gone ∙ found in cc), h.covers);
          }))
  | inr (p, e) ↦
      let (x, at_p, here, is_k) = find-of-lookup ht pk p v e in
      let f' = add_address res x.host.net_address f in
      rw (e, filter_addresses)
        (Succeeds-known (Covering res ht (pk ∷ pks) f) _ _ (taken_entry-entry_at p ht.root at_p) (
          Succeeds-weaken (Covering res ht pks f') (Covering res ht (pk ∷ pks) f) _
            (filter_addresses-Covering res pks ht f' v)
            (λ g h. record {
              grows = λ n b. h.grows n (add_address-Grows res x.host.net_address f n b);
              covers = (
                λ y found. subst (Covered res g) (sym here ∙ found) (λ n b. h.grows n (
                    add_address_monotone res x.host.net_address new_filter f (nothing-Grows f) n
                      b)),
                h.covers,
              );
            })))
]
