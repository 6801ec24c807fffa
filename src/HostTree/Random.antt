-- ===== src/HostTree/Random.antt =====
-- `SelectRandom` of hosttree.go, and addressfilter.go. The resolver of host names, the parser of
-- subnets and the random numbers are parameters: the `i`-th draw below a bound is `draw i bound`.
use sia_satellite.Prelude.{
  ℕ, zero, suc, ◌-◌, Bool, true, false, not, ◌&&◌, ◌||◌, Option, none, some, List, [], ◌∷◌, ltb,
  ◌==◌, if◌then◌else◌, length, any, ◌>>=◌,
}
use sia_satellite.Prelude.Maps.{lookup}
use sia_satellite.Currency.{Currency}
use sia_satellite.HostTree.Nodes.{HostDbEntry, HostEntry, score_of, node_at_score, entry_at}
use sia_satellite.HostTree.Agreement.{key}
use sia_satellite.HostTree.{HostTree, take_out, put_in}

pub record Ip : Type 0 where
  pub is_v4 : Bool
  pub byte_count : ℕ
  pub address : ℕ

pub record Resolver : Type 0 where
  pub lookup_ip : ℕ → Option (List Ip)
  pub subnet : Ip → ℕ → Option ℕ

-- Filter: the subnets that are in use.
abbrev pub Filter : Type 0
Filter = List ℕ

-- NewFilter, and what `Reset` leaves.
abbrev pub new_filter : Filter
new_filter = []

-- IPv4FilterRange and IPv6FilterRange
abbrev pub filter_range : Ip → ℕ
filter_range ip = if ip.is_v4 then 24 else 54

-- The loop of `Add`.
unfoldable pub add_subnets : Resolver → List Ip → Filter → Filter
add_subnets res [] f = f
add_subnets res (ip ∷ ips) f = elim (res.subnet ip (filter_range ip)) [
  | none ↦ add_subnets res ips f
  | some net ↦ add_subnets res ips (net ∷ f)
]

-- `Add`
unfoldable pub add_address : Resolver → ℕ → Filter → Filter
unfolding add_subnets
add_address res host f = elim (res.lookup_ip host) [ none ↦ f | some ips ↦ add_subnets res ips f ]

-- The loop of `Filtered`.
abbrev pub is_used : Resolver → Filter → Ip → Bool
is_used res f ip = elim (res.subnet ip (filter_range ip)) [
  | none ↦ false
  | some net ↦ any (λ x. x == net) f
]

abbrev pub same_kind : List Ip → Bool
same_kind (a ∷ b ∷ []) = a.byte_count == b.byte_count
same_kind _ = false

-- `Filtered`
unfoldable pub is_filtered : Resolver → ℕ → Filter → Bool
is_filtered res host f = elim (res.lookup_ip host) [
  | none ↦ true
  | some ips ↦
      if ltb 2 (length ips) then true else if same_kind ips then true else any (is_used res f) ips
]

-- The last scan of the history, which must be there.
abbrev pub last_scan : List Bool → Bool
last_scan [] = false
last_scan (a ∷ []) = a
last_scan (a ∷ b ∷ scans) = last_scan (b ∷ scans)

-- The conditions on a host that do not depend on the filter.
abbrev pub is_usable : HostEntry → Bool
is_usable e = e.host.accepting_contracts && (last_scan e.host.scan_history && ltb 1 e.score)

abbrev pub is_eligible : Resolver → Filter → HostEntry → Bool
is_eligible res f e = is_usable e && not (is_filtered res e.host.net_address f)

-- The addresses of the address blacklist go into the filter.
unfoldable pub filter_addresses : Resolver → List ℕ → HostTree → Filter → Option Filter
unfolding add_address
filter_addresses res [] ht f = some f
filter_addresses res (pk ∷ pks) ht f = elim (lookup pk ht.hosts) [
  | none ↦ filter_addresses res pks ht f
  | some p ↦ (do
    e ← entry_at p ht.root
    filter_addresses res pks ht (add_address res e.host.net_address f))
]

module _ (c : Currency) where
  -- The hosts of the blacklist are taken out. The removed entries are kept with the last one first.
  unfoldable pub remove_listed :
      List ℕ → HostTree → List HostEntry → Option (HostTree × List HostEntry)
  unfolding take_out
  remove_listed [] ht removed = some (ht, removed)
  remove_listed (pk ∷ pks) ht removed = elim (lookup pk ht.hosts) [
    | none ↦ remove_listed pks ht removed
    | some p ↦ (do
      e ← entry_at p ht.root
      ht' ← take_out c ht pk p
      remove_listed pks ht' (e ∷ removed))
  ]

  -- The removed entries are inserted again, the first removed first.
  unfoldable pub reinsert : List HostEntry → HostTree → Option HostTree
  unfolding put_in
  reinsert [] ht = some ht
  reinsert (e ∷ removed) ht = do ht' ← reinsert removed ht; put_in c ht' e

  -- The loop that draws hosts, for the number of hosts that are still wanted, with the number of draws
  -- and a bound on it. `none` is a panic, as for a draw below zero, or the end of the bound.
  unfoldable pub draw_hosts :
      Resolver
      → (ℕ → ℕ → ℕ)
      → ℕ
      → ℕ
      → ℕ
      → Filter
      → HostTree
      → List HostEntry
      → Option (List HostDbEntry × (HostTree × List HostEntry))
  unfolding take_out
  draw_hosts res draw zero i wanted f ht removed =
      if (wanted == 0) || (length ht.hosts == 0) then some ([], (ht, removed)) else none
  draw_hosts res draw (suc fuel) i wanted f ht removed =
      elim ((wanted == 0) || (length ht.hosts == 0)) [
        | true ↦ some ([], (ht, removed))
        | false ↦ elim (score_of ht.root == 0) [
          | true ↦ none
          | false ↦ (do
            p ← node_at_score c (draw i (score_of ht.root)) ht.root
            e ← entry_at p ht.root
            ht' ← take_out c ht (key e) p
            elim (is_eligible res f e) [
              | true ↦ (do
                r ←
                    draw_hosts res draw fuel (suc i) (wanted - 1)
                      (add_address res e.host.net_address f) ht' (e ∷ removed)
                some (e.host ∷ r.0, r.1))
              | false ↦ draw_hosts res draw fuel (suc i) wanted f ht' (e ∷ removed)
            ])
        ]
      ]

  -- `SelectRandom`
  unfoldable pub select_random :
      Resolver → (ℕ → ℕ → ℕ) → ℕ → List ℕ → List ℕ → HostTree → Option (List HostDbEntry × HostTree)
  unfolding filter_addresses remove_listed draw_hosts reinsert
  select_random res draw n blacklist address_blacklist ht = do
    f ← filter_addresses res address_blacklist ht new_filter
    listed ← remove_listed blacklist ht []
    r ← draw_hosts res draw (length listed.0.hosts) 0 n f listed.0 listed.1
    ht' ← reinsert r.1.1 r.1.0
    some (r.0, ht')
