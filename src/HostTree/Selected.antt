-- ===== src/HostTree/Selected.antt =====
-- `SelectRandom` of hosttree.go: the loop that draws hosts.
use sia_satellite.Prelude.{
  ℕ, zero, suc, ◌-◌, ◌≤◌, ◌<◌, ◌≡◌, refl, sym, ◌∙◌, ◌⊎◌, inl, inr, Bool, true, false, not, ◌&&◌,
  ◌||◌, Option, none, some, List, [], ◌∷◌, arith, ◌==◌, if◌then◌else◌, Bool-cases, length, All,
  All-weaken, Succeeds, Succeeds-weaken, Succeeds-map, Succeeds-known,
}
use sia_satellite.HostTree.Nodes.{HostDbEntry, HostEntry, score_of}
use sia_satellite.HostTree.Agreement.{key}
use sia_satellite.HostTree.Refinement.{find, Drops}
use sia_satellite.HostTree.Random.{
  Resolver, Filter, add_address, is_filtered, is_usable, is_eligible, draw_hosts,
}
use sia_satellite.HostTree.Filters.{Spread}
use sia_satellite.HostTree.Removed.{Without, Without-Drops}
use sia_satellite.HostTree.Draws.{Positive, some_total, draw_one}
use sia_satellite.HostTree.{HostTree}
use sia_satellite.Currency.{Currency, CurrencyLaws}

-- The tree holds this host, and it is fit to be drawn.
abbrev pub IsUsableIn : HostTree → HostDbEntry → Type 0
IsUsableIn ht h =
    (e : HostEntry) × (find ht h.public_key ≡ some e) × (e.host ≡ h) × (is_usable e ≡ true)

abbrev pub Distinct : List HostDbEntry → Type 0
Distinct [] = Unit
Distinct (h ∷ hs) = All (λ g. h.public_key == g.public_key ≡ false) hs × Distinct hs

-- What the loop gives for a number of hosts that are wanted.
pub record Drawn (res : Resolver) (f : Filter) (origin ht : HostTree) (wanted : ℕ)
    (r : List HostDbEntry × (HostTree × List HostEntry)) : Type 0 where
  pub spread : Spread res f r.0
  pub rest : Without origin r.1.0 r.1.1
  pub chosen : All (IsUsableIn ht) r.0
  pub distinct : Distinct r.0
  pub full : (length r.0 ≡ wanted) ⊎ ((length r.0 < wanted) × (length r.1.0.hosts ≡ 0))

and_left : (a b : Bool) → (a && b) ≡ true → a ≡ true
and_left true b h = refl
and_left false b h = h

and_not : (a b : Bool) → (a && not b) ≡ true → b ≡ false
and_not true true h = cc
and_not true false h = refl
and_not false b h = cc

pub absent_if :
    (b : Bool) (o : Option HostEntry) (e : HostEntry)
    → (if b then none else o) ≡ some e
    → (b ≡ false) × (o ≡ some e)
absent_if true o e h = cc
absent_if false o e h = (refl, h)

IsUsableIn-Drops :
    (ht ht' : HostTree) (e : HostEntry) (h : HostDbEntry)
    → Drops ht (key e) e ht'
    → IsUsableIn ht' h
    → IsUsableIn ht h × (key e == h.public_key ≡ false)
IsUsableIn-Drops ht ht' e h d (x, found, same_host, fit) =
    let (other, before) =
      absent_if (key e == h.public_key) (find ht h.public_key) x
        (sym (d.found h.public_key) ∙ found) in
    ((x, before, same_host, fit), other)

pub Positive-Drops :
    (ht ht' : HostTree) (e : HostEntry) → Drops ht (key e) e ht' → Positive ht → Positive ht'
Positive-Drops ht ht' e d pos k x found =
    pos k x (absent_if (key e == k) (find ht k) x (sym (d.found k) ∙ found)).1

Drawn-skip :
    (res : Resolver) (f : Filter) (origin ht ht' : HostTree) (e : HostEntry) (wanted : ℕ)
    (r : List HostDbEntry × (HostTree × List HostEntry))
    → Drops ht (key e) e ht'
    → Drawn res f origin ht' wanted r
    → Drawn res f origin ht wanted r
Drawn-skip res f origin ht ht' e wanted r d w = record {
  spread = w.spread;
  rest = w.rest;
  chosen = All-weaken _ _ r.0 w.chosen (λ h u. (IsUsableIn-Drops ht ht' e h d u).0);
  distinct = w.distinct;
  full = w.full;
}

Drawn-take :
    (res : Resolver) (f : Filter) (origin ht ht' : HostTree) (e : HostEntry) (wanted : ℕ)
    (r : List HostDbEntry × (HostTree × List HostEntry))
    → Drops ht (key e) e ht'
    → find ht (key e) ≡ some e
    → is_usable e ≡ true
    → is_filtered res e.host.net_address f ≡ false
    → wanted == 0 ≡ false
    → Drawn res (add_address res e.host.net_address f) origin ht' (wanted - 1) r
    → Drawn res f origin ht wanted (e.host ∷ r.0, r.1)
Drawn-take res f origin ht ht' e wanted r d here fit passes some_wanted w = record {
  spread = (passes, w.spread);
  rest = w.rest;
  chosen = (
    (e, here, refl, fit),
    All-weaken _ _ r.0 w.chosen (λ h u. (IsUsableIn-Drops ht ht' e h d u).0),
  );
  distinct = (All-weaken _ _ r.0 w.chosen (λ h u. (IsUsableIn-Drops ht ht' e h d u).1), w.distinct);
  full = elim w.full [
    | inl same ↦ inl (ground (arith, same, some_wanted))
    | inr less ↦ inr (ground (arith, less.0, some_wanted), less.1)
  ];
}

done_full :
    (wanted hosts : ℕ)
    → ((wanted == 0) || (hosts == 0)) ≡ true
    → (0 ≡ wanted) ⊎ ((0 < wanted) × (hosts ≡ 0))
done_full wanted hosts h = ground arith

done-Drawn :
    (res : Resolver) (f : Filter) (origin ht : HostTree) (wanted : ℕ) (removed : List HostEntry)
    → Without origin ht removed
    → ((wanted == 0) || (length ht.hosts == 0)) ≡ true
    → Drawn res f origin ht wanted ([], (ht, removed))
done-Drawn res f origin ht wanted removed w h = record {
  spread = tt;
  rest = w;
  chosen = tt;
  distinct = tt;
  full = done_full wanted (length ht.hosts) h;
}

module _ (c : Currency) (laws : CurrencyLaws c) where
  -- The loop ends within as many draws as the tree has hosts.
  pub draw_hosts-Drawn :
      (res : Resolver) (draw : ℕ → ℕ → ℕ)
      → ((i b : ℕ) → 0 < b → draw i b < b)
      → (origin : HostTree) (fuel i wanted : ℕ) (f : Filter) (ht : HostTree)
        (removed : List HostEntry)
      → Without origin ht removed
      → Positive ht
      → length ht.hosts ≤ fuel
      → Succeeds (Drawn res f origin ht wanted) (draw_hosts c res draw fuel i wanted f ht removed)
  unfolding draw_hosts
  draw_hosts-Drawn res draw law origin zero i wanted f ht removed w pos enough =
      let over : ((wanted == 0) || (length ht.hosts == 0)) ≡ true = ground (arith, enough) in
      rw over (done-Drawn res f origin ht wanted removed w over)
  draw_hosts-Drawn res draw law origin (suc fuel) i wanted f ht removed w pos enough =
      elim (Bool-cases ((wanted == 0) || (length ht.hosts == 0))) [
        | inl over ↦ rw (over, draw_hosts) (done-Drawn res f origin ht wanted removed w over)
        | inr more ↦
            let some_wanted : wanted == 0 ≡ false = ground (arith, more) in
            let some_host : length ht.hosts == 0 ≡ false = ground (arith, more) in
            let total = some_total c laws ht w.valid pos some_host in
            let some_score : score_of ht.root == 0 ≡ false = ground (arith, total) in
            let (p, e, ht', at, t) =
              draw_one c laws ht (draw i (score_of ht.root)) w.valid (law i _ total) in
            let (entry, out, here, d, less) = t in
            let w' = Without-Drops origin ht ht' e removed w here d in
            let pos' = Positive-Drops ht ht' e d pos in
            let enough' : length ht'.hosts ≤ fuel = omega (arith, less, enough) in
            rw (more, draw_hosts, some_score)
              (Succeeds-known (Drawn res f origin ht wanted) _ _ at (
                Succeeds-known (Drawn res f origin ht wanted) _ _ entry (
                  Succeeds-known (Drawn res f origin ht wanted) _ _ out
                    (elim (Bool-cases (is_eligible res f e)) [
                      | inl chosen_one ↦ rw chosen_one (
                          Succeeds-map
                            (Drawn res (add_address res e.host.net_address f) origin ht'
                              (wanted - 1))
                            (Drawn res f origin ht wanted)
                            (draw_hosts c res draw fuel (suc i) (wanted - 1)
                              (add_address res e.host.net_address f) ht' (e ∷ removed))
                            (λ r. (e.host ∷ r.0, r.1))
                            (draw_hosts-Drawn res draw law origin fuel (suc i) (wanted - 1)
                              (add_address res e.host.net_address f) ht' (e ∷ removed) w' pos'
                              enough')
                            (λ r.
                              Drawn-take res f origin ht ht' e wanted r d here
                                (and_left (is_usable e) _ chosen_one)
                                (and_not (is_usable e) (is_filtered res e.host.net_address f)
                                  chosen_one)
                                some_wanted))
                      | inr unfit ↦ rw unfit (
                          Succeeds-weaken (Drawn res f origin ht' wanted)
                            (Drawn res f origin ht wanted) _
                            (draw_hosts-Drawn res draw law origin fuel (suc i) wanted f ht'
                              (e ∷ removed) w' pos' enough')
                            (λ r. Drawn-skip res f origin ht ht' e wanted r d))
                    ]))))
      ]
