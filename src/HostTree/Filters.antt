-- ===== src/HostTree/Filters.antt =====
-- addressfilter.go: what `Add` puts into the filter, and what `Filtered` makes of it.
use sia_satellite.Prelude.{
  ℕ, ◌≡◌, refl, inl, inr, Bool, true, false, ◌||◌, Option, none, some, List, [], ◌∷◌, ltb, ◌==◌,
  if◌then◌else◌, Bool-cases, length, All, any, Option-cases,
}
use sia_satellite.HostTree.Random.{
  Ip, Resolver, Filter, new_filter, filter_range, add_subnets, add_address, is_used, same_kind,
  is_filtered,
}
use sia_satellite.HostTree.Nodes.{HostDbEntry}

abbrev pub holds : ℕ → Filter → Bool
holds n f = any (λ x. x == n) f

-- Every subnet of `f` is one of `g`.
abbrev pub Grows : Filter → Filter → Type 0
Grows f g = (n : ℕ) → holds n f ≡ true → holds n g ≡ true

or_weaken : (b x y : Bool) → (x ≡ true → y ≡ true) → (b || x) ≡ true → (b || y) ≡ true
or_weaken true x y h e = refl
or_weaken false x y h e = h e

or_both :
    (a b x y : Bool)
    → (a ≡ true → b ≡ true)
    → (x ≡ true → y ≡ true)
    → (a || x) ≡ true
    → (b || y) ≡ true
or_both true true x y g h e = refl
or_both true false x y g h e = (let z = g refl in cc)
or_both false true x y g h e = refl
or_both false false x y g h e = h e

or_right : (b x : Bool) → x ≡ true → (b || x) ≡ true
or_right true x h = refl
or_right false x h = h

add_subnets-Grows : (res : Resolver) (ips : List Ip) (f : Filter) → Grows f (add_subnets res ips f)
unfolding add_subnets
add_subnets-Grows res [] f n h = h
add_subnets-Grows res (ip ∷ ips) f n h = elim (Option-cases (res.subnet ip (filter_range ip))) [
  | inl e ↦ rw (e, add_subnets) (add_subnets-Grows res ips f n h)
  | inr (net, e) ↦
      rw (e, add_subnets)
        (add_subnets-Grows res ips (net ∷ f) n (or_right (net == n) (holds n f) h))
]

add_subnets_monotone :
    (res : Resolver) (ips : List Ip) (f g : Filter)
    → Grows f g
    → Grows (add_subnets res ips f) (add_subnets res ips g)
unfolding add_subnets
add_subnets_monotone res [] f g grows = grows
add_subnets_monotone res (ip ∷ ips) f g grows =
    elim (Option-cases (res.subnet ip (filter_range ip))) [
      | inl e ↦ rw (e, add_subnets) (add_subnets_monotone res ips f g grows)
      | inr (net, e) ↦
          rw (e, add_subnets)
            (add_subnets_monotone res ips (net ∷ f) (net ∷ g)
              (λ n. or_weaken (net == n) (holds n f) (holds n g) (grows n)))
    ]

pub add_address-Grows : (res : Resolver) (host : ℕ) (f : Filter) → Grows f (add_address res host f)
unfolding add_address
add_address-Grows res host f = elim (Option-cases (res.lookup_ip host)) [
  | inl e ↦ rw (e, add_address) (λ n h. h)
  | inr (ips, e) ↦ rw (e, add_address) (add_subnets-Grows res ips f)
]

pub add_address_monotone :
    (res : Resolver) (host : ℕ) (f g : Filter)
    → Grows f g
    → Grows (add_address res host f) (add_address res host g)
unfolding add_address
add_address_monotone res host f g grows = elim (Option-cases (res.lookup_ip host)) [
  | inl e ↦ rw (e, add_address) grows
  | inr (ips, e) ↦ rw (e, add_address) (add_subnets_monotone res ips f g grows)
]

abbrev net_used : Filter → Option ℕ → Bool
net_used f none = false
net_used f (some net) = holds net f

net_used_weaken :
    (f g : Filter) (o : Option ℕ) → Grows f g → net_used f o ≡ true → net_used g o ≡ true
net_used_weaken f g none grows h = h
net_used_weaken f g (some net) grows h = grows net h

is_used-Grows :
    (res : Resolver) (f g : Filter) (ip : Ip)
    → Grows f g
    → is_used res f ip ≡ true
    → is_used res g ip ≡ true
is_used-Grows res f g ip grows = net_used_weaken f g (res.subnet ip (filter_range ip)) grows

any-is_used :
    (res : Resolver) (f g : Filter) (ips : List Ip)
    → Grows f g
    → any (is_used res f) ips ≡ true
    → any (is_used res g) ips ≡ true
any-is_used res f g [] grows h = h
any-is_used res f g (ip ∷ ips) grows h =
    or_both (is_used res f ip) (is_used res g ip) (any (is_used res f) ips)
      (any (is_used res g) ips) (is_used-Grows res f g ip grows) (any-is_used res f g ips grows) h

if_weaken :
    (b x y : Bool)
    → (x ≡ true → y ≡ true)
    → (if b then true else x) ≡ true
    → (if b then true else y) ≡ true
if_weaken true x y h e = refl
if_weaken false x y h e = h e

pub is_filtered-Grows :
    (res : Resolver) (host : ℕ) (f g : Filter)
    → Grows f g
    → is_filtered res host f ≡ true
    → is_filtered res host g ≡ true
unfolding is_filtered
is_filtered-Grows res host f g grows = elim (Option-cases (res.lookup_ip host)) [
  | inl e ↦ rw (e, is_filtered) (λ h. h)
  | inr (ips, e) ↦
      rw (e, is_filtered)
        (if_weaken (ltb 2 (length ips)) _ _
          (if_weaken (same_kind ips) _ _ (any-is_used res f g ips grows)))
]

-- A host that the larger filter lets through is let through by the smaller one.
pub passes-Grows :
    (res : Resolver) (host : ℕ) (f g : Filter)
    → Grows f g
    → is_filtered res host g ≡ false
    → is_filtered res host f ≡ false
passes-Grows res host f g grows passes = elim (Bool-cases (is_filtered res host f)) [
  | inl h ↦ (let z = is_filtered-Grows res host f g grows h in cc)
  | inr h ↦ h
]

pub nothing-Grows : (f : Filter) → Grows new_filter f
nothing-Grows f n h = cc

-- Each host passes a filter that has the subnets of `f` and of the hosts before it.
abbrev pub Spread : Resolver → Filter → List HostDbEntry → Type 0
Spread res f [] = Unit
Spread res f (h ∷ hs) =
    (is_filtered res h.net_address f ≡ false) × Spread res (add_address res h.net_address f) hs

-- The subnets of the host alone.
abbrev pub subnets_of : Resolver → HostDbEntry → Filter
subnets_of res h = add_address res h.net_address new_filter

-- No host shares a subnet with one before it.
abbrev pub OwnSubnets : Resolver → List HostDbEntry → Type 0
OwnSubnets res [] = Unit
OwnSubnets res (h ∷ hs) =
    All (λ g. is_filtered res g.net_address (subnets_of res h) ≡ false) hs × OwnSubnets res hs

pub passes-Spread :
    (res : Resolver) (f g : Filter) (hs : List HostDbEntry)
    → Grows f g
    → Spread res g hs
    → All (λ h. is_filtered res h.net_address f ≡ false) hs
passes-Spread res f g [] grows s = tt
passes-Spread res f g (h ∷ hs) grows (first, rest) = (
  passes-Grows res h.net_address f g grows first,
  passes-Spread res f (add_address res h.net_address g) hs
      (λ n x. add_address-Grows res h.net_address g n (grows n x)) rest,
)

pub OwnSubnets-Spread :
    (res : Resolver) (f : Filter) (hs : List HostDbEntry) → Spread res f hs → OwnSubnets res hs
OwnSubnets-Spread res f [] s = tt
OwnSubnets-Spread res f (h ∷ hs) (first, rest) = (
  passes-Spread res (subnets_of res h) (add_address res h.net_address f) hs
      (add_address_monotone res h.net_address new_filter f (λ n x. (let z = x in cc))) rest,
  OwnSubnets-Spread res (add_address res h.net_address f) hs rest,
)
