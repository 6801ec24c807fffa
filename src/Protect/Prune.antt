-- ===== src/Protect/Prune.antt =====
-- modules/portal/protect.go: one round of pruning, as a function of each entry.
use sia_satellite.Prelude.{
  ℕ, ◌+◌, ◌<◌, ◌≡◌, refl, sym, ap, ◌∙◌, subst, inl, inr, Bool, true, false, ◌||◌, Option, none,
  some, List, [], ◌∷◌, map, arith, ltb, ◌==◌, if◌then◌else◌, ==_iff, Bool-cases, any, ◌>>=◌,
  Option-cases, Ensures, Ensures-some, Ensures-of, Ensures-weaken, Ensures-if, Ensures-bind,
}
use sia_satellite.Prelude.Maps.{Map, lookup, lookup-delete, lookup-insert}
use sia_satellite.Protect.{
  AuthAttempts, AuthenticationStats, reset_if_idle, reset_counters, expired, prune_entry, visit,
  prune_keys, prune_auth_stats,
}
use sia_satellite.Protect.Limits.{KeyedByHost}

-- What becomes of an entry: gone if all three activities are a day old, else with the counters reset
-- that are an hour old.
abbrev pub pruned : ℕ → AuthenticationStats → Option AuthenticationStats
pruned now s = if expired now s then none else some (reset_counters now s s)

-- Pruning a second time at the same time changes nothing.
pruned-pruned : (now : ℕ) (s : AuthenticationStats) → (pruned now s >>= pruned now) ≡ pruned now s
pruned-pruned now s = ground arith

pruned-host :
    (now : ℕ) (s : AuthenticationStats)
    → Ensures (λ t. t.remote_host ≡ s.remote_host) (pruned now s)
pruned-host now s =
    Ensures-if (λ t. t.remote_host ≡ s.remote_host) (expired now s) _ _ (λ e. tt) (λ e. refl)

prune_entry-lookup :
    (now k : ℕ) (entry : AuthenticationStats) (m : Map AuthenticationStats)
    → lookup entry.remote_host m ≡ some entry
    → lookup k (prune_entry now entry.remote_host entry m)
      ≡ (if entry.remote_host == k then pruned now entry else lookup k m)
unfolding prune_entry
prune_entry-lookup now k entry m e = elim (Bool-cases (expired now entry)) [
  | inl x ↦ rw x (lookup-delete entry.remote_host k m)
  | inr x ↦ rw (x, e) (lookup-insert entry.remote_host k (reset_counters now entry entry) m)
]

same_key :
    (ip k : ℕ) (m : Map AuthenticationStats) (o : Option AuthenticationStats)
    (f : AuthenticationStats → Option AuthenticationStats)
    → lookup ip m ≡ o
    → (if ip == k then (o >>= f) else lookup k m)
      ≡ (if ip == k then (lookup k m >>= f) else lookup k m)
same_key ip k m o f e = elim (Bool-cases (ip == k)) [
  | inl b ↦
      rw b (let same = (==_iff ip k).0 b in ap (λ x. x >>= f) (sym e ∙ ap (λ j. lookup j m) same))
  | inr b ↦ rw b refl
]

visit-lookup :
    (now ip k : ℕ) (m : Map AuthenticationStats)
    → KeyedByHost m
    → lookup k (visit now ip m) ≡ (if ip == k then (lookup k m >>= pruned now) else lookup k m)
unfolding visit
visit-lookup now ip k m keyed = elim (Option-cases (lookup ip m)) [
  | inl e ↦
      rw (e, visit)
        (elim (Bool-cases (ip == k)) [
          | inl b ↦ rw b (
              let same = (==_iff ip k).0 b in
              let gone = ap (λ j. lookup j m) (sym same) ∙ e in rw gone refl)
          | inr b ↦ rw b refl
        ])
  | inr (entry, e) ↦
      rw (e, visit)
        (subst
            (λ i.
              lookup i m ≡ some entry
              → lookup k (prune_entry now i entry m)
                ≡ (if i == k then pruned now entry else lookup k m))
            (keyed ip entry e) (prune_entry-lookup now k entry m) e
          ∙ same_key ip k m (some entry) (pruned now) e)
]

visit-KeyedByHost :
    (now ip : ℕ) (m : Map AuthenticationStats) → KeyedByHost m → KeyedByHost (visit now ip m)
visit-KeyedByHost now ip m keyed k s e =
    let P : AuthenticationStats → Type 0 = λ t. t.remote_host ≡ k in
    let before : Ensures P (lookup k m) = Ensures-of P (lookup k m) (keyed k) in
    Ensures-some P _
      (Ensures-if P (ip == k) _ _
        (λ b.
          Ensures-bind P P (lookup k m) (pruned now) before
            λ t h. Ensures-weaken _ P _ (pruned-host now t) (λ u r. r ∙ h))
        (λ b. before))
      (sym (visit-lookup now ip k m keyed) ∙ e)

abbrev member : ℕ → List ℕ → Bool
member k ks = any (λ j. j == k) ks

pruned_twice :
    (now : ℕ) (o : Option AuthenticationStats)
    → ((o >>= pruned now) >>= pruned now) ≡ (o >>= pruned now)
pruned_twice now none = refl
pruned_twice now (some s) = pruned-pruned now s

join_visits :
    (now : ℕ) (first later : Bool) (o : Option AuthenticationStats)
    → (if later
        then ((if first then (o >>= pruned now) else o) >>= pruned now)
        else (if first then (o >>= pruned now) else o))
      ≡ (if first || later then (o >>= pruned now) else o)
join_visits now true true o = pruned_twice now o
join_visits now true false o = refl
join_visits now false true o = refl
join_visits now false false o = refl

prune_keys-lookup :
    (now k : ℕ) (ks : List ℕ) (m : Map AuthenticationStats)
    → KeyedByHost m
    → lookup k (prune_keys now ks m)
      ≡ (if member k ks then (lookup k m >>= pruned now) else lookup k m)
unfolding prune_keys
prune_keys-lookup now k [] m keyed = refl
prune_keys-lookup now k (ip ∷ ips) m keyed =
    prune_keys-lookup now k ips (visit now ip m) (visit-KeyedByHost now ip m keyed)
    ∙ rw (visit-lookup now ip k m keyed) (join_visits now (ip == k) (member k ips) (lookup k m))

not_member-lookup :
    (k : ℕ) (m : Map AuthenticationStats) → member k (map (λ e. e.0) m) ≡ false → lookup k m ≡ none
unfolding lookup
not_member-lookup k [] h = refl
not_member-lookup k ((j, s) ∷ m) h = ground (arith, not_member-lookup k m)

pub prune_auth_stats-lookup :
    (now k : ℕ) (m : Map AuthenticationStats)
    → KeyedByHost m
    → lookup k (prune_auth_stats now m) ≡ (lookup k m >>= pruned now)
unfolding prune_auth_stats
prune_auth_stats-lookup now k m keyed =
    prune_keys-lookup now k (map (λ e. e.0) m) m keyed
    ∙ elim (Bool-cases (member k (map (λ e. e.0) m))) [
      | inl b ↦ rw b refl
      | inr b ↦ rw b (rw (not_member-lookup k m b) refl)
    ]

prune_keys-KeyedByHost :
    (now : ℕ) (ks : List ℕ) (m : Map AuthenticationStats)
    → KeyedByHost m
    → KeyedByHost (prune_keys now ks m)
unfolding prune_keys
prune_keys-KeyedByHost now [] m keyed = keyed
prune_keys-KeyedByHost now (k ∷ ks) m keyed =
    prune_keys-KeyedByHost now ks (visit now k m) (visit-KeyedByHost now k m keyed)

-- A round of pruning keeps each entry under its own address.
pub prune_auth_stats-KeyedByHost :
    (now : ℕ) (m : Map AuthenticationStats) → KeyedByHost m → KeyedByHost (prune_auth_stats now m)
unfolding prune_auth_stats
prune_auth_stats-KeyedByHost now m = prune_keys-KeyedByHost now (map (λ e. e.0) m) m

-- A day, and an hour, in seconds.
abbrev day : ℕ
day = 86400

abbrev hour : ℕ
hour = 3600

-- All three activities are more than a day old.
abbrev pub Gone : ℕ → AuthenticationStats → Type 0
Gone now s =
    (s.failed_logins.last_attempt + day < now)
    × (s.verifications.last_attempt + day < now)
    × (s.password_resets.last_attempt + day < now)

-- One activity keeps its time, and its count unless it is more than an hour old.
abbrev pub Counted : ℕ → AuthAttempts → AuthAttempts → Type 0
Counted now a b =
    (b.last_attempt ≡ a.last_attempt)
    × (b.count ≡ (if ltb (a.last_attempt + hour) now then 0 else a.count))

abbrev pub Prunes : ℕ → Option AuthenticationStats → Option AuthenticationStats → Type 0
Prunes now none o = o ≡ none
Prunes now (some s) none = Gone now s
Prunes now (some s) (some t) =
    (Gone now s → ⊥)
    × (t.remote_host ≡ s.remote_host)
    × Counted now s.failed_logins t.failed_logins
    × Counted now s.verifications t.verifications
    × Counted now s.password_resets t.password_resets

counted : (now : ℕ) (a : AuthAttempts) → Counted now a (reset_if_idle now a a)
counted now a = elim (Bool-cases (ltb (a.last_attempt + hour) now)) [
  | inl b ↦ rw b (refl, refl)
  | inr b ↦ rw b (refl, refl)
]

pruned-Prunes : (now : ℕ) (o : Option AuthenticationStats) → Prunes now o (o >>= pruned now)
pruned-Prunes now none = refl
pruned-Prunes now (some s) = elim (Bool-cases (expired now s)) [
  | inl b ↦ rw b (ground (arith, b), ground (arith, b), ground (arith, b))
  | inr b ↦ rw b (
    (λ gone. ground (arith, b, gone.0, gone.1, gone.2)),
    refl,
    counted now s.failed_logins,
    counted now s.verifications,
    counted now s.password_resets,
  )
]

-- Where each entry is stored under its own address, a round of pruning acts on each address by itself,
-- whatever the order in which the entries are visited: the entry goes exactly if its three activities
-- are all more than a day old. Else each activity keeps its time, and its count goes to zero exactly if
-- that activity is more than an hour old.
pub prune_auth_stats-Prunes :
    (now k : ℕ) (m : Map AuthenticationStats)
    → KeyedByHost m
    → Prunes now (lookup k m) (lookup k (prune_auth_stats now m))
prune_auth_stats-Prunes now k m keyed =
    subst (Prunes now (lookup k m)) (sym (prune_auth_stats-lookup now k m keyed))
      (pruned-Prunes now (lookup k m))
