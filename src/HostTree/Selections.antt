-- ===== src/HostTree/Selections.antt =====
-- `SelectRandom` of hosttree.go: the whole operation.
use sia_satellite.Prelude.{
  ℕ, ◌≤◌, ◌<◌, ◌≡◌, refl, sym, ap, ◌∙◌, subst, ◌≢◌, inl, inr, false, none, some, List, [], ◌∷◌,
  arith, ◌==◌, if◌then◌else◌, ==_self, length, All, All-weaken, Option-cases, Succeeds,
  Succeeds-weaken, Succeeds-map, Succeeds-bind, Succeeds-known,
}
use sia_satellite.Prelude.Maps.{lookup}
use sia_satellite.Currency.{currency_limit, Currency, CurrencyLaws}
use sia_satellite.HostTree.Nodes.{HostDbEntry, HostEntry}
use sia_satellite.HostTree.Refinement.{IsValid, find, total_score, Drops, take_out-Drops}
use sia_satellite.HostTree.Methods.{find-of-lookup}
use sia_satellite.HostTree.Nodes.Entries.{taken_entry-entry_at}
use sia_satellite.HostTree.Random.{
  Resolver, Filter, new_filter, is_filtered, remove_listed, select_random,
}
use sia_satellite.HostTree.Filters.{subnets_of, OwnSubnets, passes-Spread, OwnSubnets-Spread}
use sia_satellite.HostTree.Removed.{Without, Without-Drops, Restores, reinsert-Restores}
use sia_satellite.HostTree.Addresses.{Covers, Covering, filter_addresses-Covering}
use sia_satellite.HostTree.Draws.{Positive}
use sia_satellite.HostTree.Selected.{
  IsUsableIn, Distinct, Drawn, absent_if, Positive-Drops, draw_hosts-Drawn,
}
use sia_satellite.HostTree.{HostTree}

-- The hosts of these keys are not in the tree.
abbrev pub Gone : HostTree → List ℕ → Type 0
Gone ht pks = All (λ pk. find ht pk ≡ none) pks

-- The tree after the blacklist.
pub record Listed (origin ht : HostTree) (pks : List ℕ) (r : HostTree × List HostEntry)
    : Type 0 where
  pub rest : Without origin r.0 r.1
  pub positive : Positive r.0
  pub within : (k : ℕ) (e : HostEntry) → find r.0 k ≡ some e → find ht k ≡ some e
  pub gone : Gone r.0 pks

-- The hosts pass the filter with the subnets of any host of these keys.
abbrev pub Blocks : Resolver → HostTree → List ℕ → List HostDbEntry → Type 0
Blocks res ht pks hs =
    All
      (λ pk.
        (e : HostEntry)
        → find ht pk ≡ some e
        → All (λ h. is_filtered res h.net_address (subnets_of res e.host) ≡ false) hs)
      pks

-- What `SelectRandom` promises: hosts of the tree that are fit, with keys and subnets of their own,
-- none of them on the blacklist and no more than wanted, and a tree that holds what it held.
pub record Selects (res : Resolver) (ht : HostTree) (wanted : ℕ) (blacklist addresses : List ℕ)
    (r : List HostDbEntry × HostTree) : Type 0 where
  pub chosen : All (IsUsableIn ht) r.0
  pub allowed : All (λ h. All (λ pk. h.public_key ≢ pk) blacklist) r.0
  pub distinct : Distinct r.0
  pub blocked : Blocks res ht addresses r.0
  pub spread : OwnSubnets res r.0
  pub bounded : length r.0 ≤ wanted
  pub valid : IsValid r.1
  pub kept : (k : ℕ) → find r.1 k ≡ find ht k
  pub score : total_score r.1 ≡ total_score ht
  pub same_fn : r.1.score_fn ≡ ht.score_fn

none-of-within :
    (ht ht' : HostTree) (k : ℕ)
    → ((e : HostEntry) → find ht' k ≡ some e → find ht k ≡ some e)
    → find ht k ≡ none
    → find ht' k ≡ none
none-of-within ht ht' k within gone = elim (Option-cases (find ht' k)) [
  | inl e ↦ e
  | inr (x, e) ↦ (let back = within x e in cc)
]

found-Gone :
    (ht : HostTree) (pks : List ℕ) (h : HostDbEntry) (e : HostEntry)
    → Gone ht pks
    → find ht h.public_key ≡ some e
    → All (λ pk. h.public_key ≢ pk) pks
found-Gone ht [] h e gone found = tt
found-Gone ht (pk ∷ pks) h e (first, rest) found = (
  λ same. (let z = sym found ∙ ap (find ht) same ∙ first in cc),
  found-Gone ht pks h e rest found,
)

nothing_removed : (origin : HostTree) → IsValid origin → Without origin origin []
nothing_removed origin v = record {
  valid = v;
  found = λ k. refl;
  apart = tt;
  score = omega arith;
  same_fn = refl;
}

Listed-Drops :
    (origin ht ht' : HostTree) (pk : ℕ) (x : HostEntry) (pks : List ℕ)
    (r : HostTree × List HostEntry)
    → Drops ht pk x ht'
    → Listed origin ht' pks r
    → Listed origin ht (pk ∷ pks) r
Listed-Drops origin ht ht' pk x pks r d l = record {
  rest = l.rest;
  positive = l.positive;
  within = λ k e h. (absent_if (pk == k) (find ht k) e (sym (d.found k) ∙ l.within k e h)).1;
  gone = (
    none-of-within ht' r.0 pk (l.within pk)
        (d.found pk ∙ ap (λ b. if b then none else find ht pk) (==_self pk)),
    l.gone,
  );
}

Selects-Drawn :
    (res : Resolver) (f : Filter) (ht ht₁ ht₂ : HostTree) (wanted : ℕ)
    (blacklist addresses : List ℕ) (removed : List HostEntry)
    (r : List HostDbEntry × (HostTree × List HostEntry))
    → Covers res ht addresses f
    → Listed ht ht blacklist (ht₁, removed)
    → Drawn res f ht ht₁ wanted r
    → Restores r.1.0 r.1.1 ht₂
    → Selects res ht wanted blacklist addresses (r.0, ht₂)
Selects-Drawn res f ht ht₁ ht₂ wanted blacklist addresses removed r covers l d back = record {
  chosen = All-weaken _ _ r.0 d.chosen (λ h u. (u.0, l.within h.public_key u.0 u.1, u.2, u.3));
  allowed = All-weaken _ _ r.0 d.chosen (λ h u. found-Gone ht₁ blacklist h u.0 l.gone u.1);
  distinct = d.distinct;
  blocked =
      All-weaken _ _ addresses covers
        (λ a h e found. passes-Spread res (subnets_of res e.host) f r.0 (h e found) d.spread);
  spread = OwnSubnets-Spread res f r.0 d.spread;
  bounded = elim d.full [ inl same ↦ omega (arith, same) | inr less ↦ omega (arith, less.0) ];
  valid = back.valid;
  kept = λ k. back.found k ∙ sym (d.rest.found k);
  score = back.score ∙ sym d.rest.score;
  same_fn = back.same_fn ∙ d.rest.same_fn;
}

module _ (c : Currency) (laws : CurrencyLaws c) where
  remove_listed-Listed :
      (origin : HostTree) (pks : List ℕ) (ht : HostTree) (removed : List HostEntry)
      → Without origin ht removed
      → Positive ht
      → Succeeds (Listed origin ht pks) (remove_listed c pks ht removed)
  unfolding remove_listed
  remove_listed-Listed origin [] ht removed w pos = record {
    rest = w;
    positive = pos;
    within = λ k e h. h;
    gone = tt;
  }
  remove_listed-Listed origin (pk ∷ pks) ht removed w pos =
      elim (Option-cases (lookup pk ht.hosts)) [
        | inl e ↦
            rw (e, remove_listed)
              (Succeeds-weaken (Listed origin ht pks) (Listed origin ht (pk ∷ pks)) _
                (remove_listed-Listed origin pks ht removed w pos)
                (λ r l. record {
                  rest = l.rest;
                  positive = l.positive;
                  within = l.within;
                  gone = (none-of-within ht r.0 pk (l.within pk) (rw e refl), l.gone);
                }))
        | inr (p, e) ↦
            let (x, at_p, here, is_k) = find-of-lookup ht pk p w.valid e in
            rw (e, remove_listed)
              (Succeeds-known (Listed origin ht (pk ∷ pks)) _ _
                (taken_entry-entry_at p ht.root at_p)
                (Succeeds-bind (Drops ht pk x) (Listed origin ht (pk ∷ pks)) _ _
                  (take_out-Drops c laws ht pk p x w.valid e at_p)
                  (λ ht' d.
                    let d' = subst (λ k. Drops ht k x ht') (sym is_k) d in
                    Succeeds-weaken (Listed origin ht' pks) (Listed origin ht (pk ∷ pks)) _
                      (remove_listed-Listed origin pks ht' (x ∷ removed)
                        (Without-Drops origin ht ht' x removed w (ap (find ht) is_k ∙ here) d')
                        (Positive-Drops ht ht' x d' pos))
                      (λ r. Listed-Drops origin ht ht' pk x pks r d))))
      ]

  -- On a valid tree with positive scores below the limit, random selection does not panic, however
  -- the draws fall. It returns hosts of the tree with keys of their own, which accept contracts, were
  -- online at their last scan and have a score above 1; none of them is on the blacklist, and they are
  -- no more than wanted. Each passes the address filter with the subnets of any host returned before
  -- it, and with those of any host of the address blacklist. The tree that is left is valid, finds for
  -- each key what the tree found before, and has the same score and score function.
  pub select_random-Selects :
      (res : Resolver) (draw : ℕ → ℕ → ℕ) (wanted : ℕ) (blacklist addresses : List ℕ)
      (ht : HostTree)
      → ((i b : ℕ) → 0 < b → draw i b < b)
      → IsValid ht
      → Positive ht
      → total_score ht < currency_limit
      → Succeeds
          (Selects res ht wanted blacklist addresses)
          (select_random c res draw wanted blacklist addresses ht)
  unfolding select_random
  select_random-Selects res draw wanted blacklist addresses ht law v pos room =
      Succeeds-bind (Covering res ht addresses new_filter)
        (Selects res ht wanted blacklist addresses) _ _
        (filter_addresses-Covering res addresses ht new_filter v)
        (λ f covers.
          Succeeds-bind (Listed ht ht blacklist) (Selects res ht wanted blacklist addresses) _ _
            (remove_listed-Listed ht blacklist ht [] (nothing_removed ht v) pos)
            (λ l is_listed.
              Succeeds-bind (Drawn res f ht l.0 wanted) (Selects res ht wanted blacklist addresses)
                _ _
                (draw_hosts-Drawn c laws res draw law ht (length l.0.hosts) 0 wanted f l.0 l.1
                  is_listed.rest is_listed.positive (omega arith))
                (λ r d.
                  Succeeds-map (Restores r.1.0 r.1.1) (Selects res ht wanted blacklist addresses) _
                    (λ ht'. (r.0, ht'))
                    (reinsert-Restores c laws r.1.1 r.1.0 d.rest.valid d.rest.apart
                      (omega (arith, d.rest.score, room)))
                    (λ ht'.
                      Selects-Drawn res f ht l.0 ht' wanted blacklist addresses l.1 r covers.covers
                        is_listed d))))
