-- ===== src/Utility/MinScores.antt =====
-- modules/manager/contractor/utility.go: `managedFindMinAllowedHostScores` and the loop of
-- `managedMarkContractsUtility`.
use sia_satellite.Prelude.{
  ℕ, ◌+◌, ◌/◌, ◌≤◌, ◌≡◌, refl, sym, ap, ◌∙◌, ◌⊎◌, inl, inr, Option, none, some, List, [], ◌∷◌,
  arith, ltb, if◌then◌else◌, Bool-cases, All, ◌>>=◌, Option-cases, Ensures, Succeeds,
  Ensures-weaken,
}
use sia_satellite.Prelude.Maps.{lookup}
use sia_satellite.Currency.{Currency, CurrencyLaws}
use sia_satellite.Gouging.{Allowance, Constants}
use sia_satellite.Utility.{RenterContract, ScannedHost, Contractor}
use sia_satellite.Utility.Marking.{
  MarkError, renter_not_found, host_db_failure, no_hosts, mark_contract_utility,
}

-- An error of the host database.
abbrev pub or_error {ℓ} : {A : Type ℓ} → MarkError → Option A → MarkError ⊎ A
or_error e none = inl e
or_error e (some a) = inr a

-- The loop over the hosts after the first.
unfoldable pub lowest_score : Contractor → List ScannedHost → ℕ → Option ℕ
lowest_score ctr [] lowest = some lowest
lowest_score ctr (host ∷ hosts) lowest = do
  score ← ctr.score_breakdown host
  lowest_score ctr hosts (if ltb score lowest then score else lowest)

unfoldable pub lowest_of : Contractor → List ScannedHost → MarkError ⊎ ℕ
unfolding lowest_score
lowest_of ctr [] = inl no_hosts
lowest_of ctr (host ∷ hosts) =
    or_error host_db_failure (ctr.score_breakdown host >>= λ score. lowest_score ctr hosts score)

abbrev pub random_hosts_buffer_for_score : ℕ
random_hosts_buffer_for_score = 50

abbrev pub score_leeway_good_for_renew : ℕ
score_leeway_good_for_renew = 500

abbrev pub score_leeway_good_for_upload : ℕ
score_leeway_good_for_upload = 40

-- `lowestScore.Div(scoreLeewayGoodForRenew)`, and the same for uploads; `none` is a panic.
unfoldable pub thresholds : Currency → MarkError ⊎ ℕ → Option (MarkError ⊎ (ℕ × ℕ))
thresholds c (inl e) = some (inl e)
thresholds c (inr lowest) = do
  gfr ← c.div lowest score_leeway_good_for_renew
  gfu ← c.div lowest score_leeway_good_for_upload
  some (inr (gfr, gfu))

-- `managedFindMinAllowedHostScores`
unfoldable pub find_min_allowed_host_scores :
    Currency → Contractor → ℕ → Option (MarkError ⊎ (ℕ × ℕ))
unfolding thresholds lowest_of
find_min_allowed_host_scores c ctr rpk = elim (lookup rpk ctr.renters) [
  | none ↦ some (inl renter_not_found)
  | some renter ↦ elim (ctr.random_hosts (renter.hosts + random_hosts_buffer_for_score) renter) [
    | none ↦ some (inl host_db_failure)
    | some hosts ↦ thresholds c (lowest_of ctr hosts)
  ]
]

-- The loop of `managedMarkContractsUtility`, which stops at the first error.
unfoldable pub mark_all :
    Currency
    → Constants
    → List RenterContract
    → ℕ
    → ℕ
    → Contractor
    → Option (Contractor × Option MarkError)
mark_all c k [] gfr gfu ctr = some (ctr, none)
mark_all c k (contract ∷ contracts) gfr gfu ctr = do
  r ← mark_contract_utility c k ctr contract gfr gfu
  elim (r.1) [ some e ↦ some (r.0, some e) | none ↦ mark_all c k contracts gfr gfu r.0 ]

-- `managedMarkContractsUtility`, with the contracts of the renter as `ByRenter` lists them.
unfoldable pub mark_contracts_utility :
    Currency
    → Constants
    → Contractor
    → ℕ
    → List RenterContract
    → Option (Contractor × Option MarkError)
unfolding find_min_allowed_host_scores mark_all
mark_contracts_utility c k ctr rpk contracts = do
  scores ← find_min_allowed_host_scores c ctr rpk
  elim scores [ inl e ↦ some (ctr, some e) | inr (gfr, gfu) ↦ mark_all c k contracts gfr gfu ctr ]

-- Every host has a score, and none is below `low`.
abbrev pub AllAtLeast : Contractor → List ScannedHost → ℕ → Type 0
AllAtLeast ctr hosts low = All (λ h. (s : ℕ) × (ctr.score_breakdown h ≡ some s) × (low ≤ s)) hosts

AllAtLeast-down :
    (ctr : Contractor) (hosts : List ScannedHost) (low lower : ℕ)
    → lower ≤ low
    → AllAtLeast ctr hosts low
    → AllAtLeast ctr hosts lower
AllAtLeast-down ctr [] low lower h p = tt
AllAtLeast-down ctr (x ∷ xs) low lower h (y, ys) =
    ((y.0, y.1, omega (arith, h, y.2)), AllAtLeast-down ctr xs low lower h ys)

-- Some host has that score.
abbrev pub Attained : Contractor → List ScannedHost → ℕ → Type 0
Attained ctr [] low = ⊥
Attained ctr (h ∷ hs) low = (ctr.score_breakdown h ≡ some low) ⊎ Attained ctr hs low

abbrev Lowest : Contractor → List ScannedHost → ℕ → ℕ → Type 0
Lowest ctr hosts start low =
    (low ≤ start) × AllAtLeast ctr hosts low × ((low ≡ start) ⊎ Attained ctr hosts low)

lowest_score-Lowest :
    (ctr : Contractor) (hosts : List ScannedHost) (start : ℕ)
    → Ensures (Lowest ctr hosts start) (lowest_score ctr hosts start)
unfolding lowest_score
lowest_score-Lowest ctr [] start = (omega arith, tt, inl refl)
lowest_score-Lowest ctr (x ∷ xs) start = elim (Option-cases (ctr.score_breakdown x)) [
  | inl e ↦ rw (e, lowest_score) tt
  | inr (s, e) ↦
      rw (e, lowest_score)
        (Ensures-weaken (Lowest ctr xs (if ltb s start then s else start))
          (Lowest ctr (x ∷ xs) start) _
          (lowest_score-Lowest ctr xs (if ltb s start then s else start))
          (λ low (le, least, at). elim (Bool-cases (ltb s start)) [
            | inl b ↦ (
              ground arith,
              ((s, e, ground arith), least),
              elim at [ inl q ↦ inr (inl (e ∙ ap some (ground arith))) | inr q ↦ inr (inr q) ],
            )
            | inr b ↦ (
              ground arith,
              ((s, e, ground arith), least),
              elim at [ inl q ↦ inl (ground arith) | inr q ↦ inr (inr q) ],
            )
          ]))
]

-- The thresholds are the fractions of the lowest score among the hosts.
abbrev pub FromLowest : Contractor → List ScannedHost → MarkError ⊎ (ℕ × ℕ) → Type 0
FromLowest ctr hosts (inl e) = Unit
FromLowest ctr hosts (inr (gfr, gfu)) =
    (low : ℕ) × AllAtLeast ctr hosts low
    × Attained ctr hosts low
    × (gfr ≡ low / score_leeway_good_for_renew)
    × (gfu ≡ low / score_leeway_good_for_upload)

abbrev IsLowest : Contractor → List ScannedHost → ℕ → Type 0
IsLowest ctr hosts low = AllAtLeast ctr hosts low × Attained ctr hosts low

abbrev Right : (ℕ → Type 0) → MarkError ⊎ ℕ → Type 0
Right P (inl e) = Unit
Right P (inr low) = P low

or_error-Right :
    (P : ℕ → Type 0) (e : MarkError) (o : Option ℕ) → Ensures P o → Right P (or_error e o)
or_error-Right P e none h = tt
or_error-Right P e (some low) h = h

lowest_of-IsLowest :
    (ctr : Contractor) (hosts : List ScannedHost) → Right (IsLowest ctr hosts) (lowest_of ctr hosts)
unfolding lowest_of
lowest_of-IsLowest ctr [] = tt
lowest_of-IsLowest ctr (x ∷ xs) =
    or_error-Right (IsLowest ctr (x ∷ xs)) host_db_failure _
      (elim (Option-cases (ctr.score_breakdown x)) [
        | inl e ↦ rw e tt
        | inr (s, e) ↦ rw e (
            Ensures-weaken (Lowest ctr xs s) _ _ (lowest_score-Lowest ctr xs s)
              (λ low (le, least, at). (
                ((s, e, le), least),
                elim at [ inl q ↦ inl (e ∙ ap some (sym q)) | inr q ↦ inr q ],
              )))
      ])

thresholds-FromLowest :
    (c : Currency) (laws : CurrencyLaws c) (ctr : Contractor) (hosts : List ScannedHost)
    (r : MarkError ⊎ ℕ)
    → Right (IsLowest ctr hosts) r
    → Succeeds (FromLowest ctr hosts) (thresholds c r)
unfolding thresholds
thresholds-FromLowest c laws ctr hosts (inl e) p = tt
thresholds-FromLowest c laws ctr hosts (inr low) (least, at) =
    rw (laws.div_law low score_leeway_good_for_renew, laws.div_law low score_leeway_good_for_upload)
      (low, least, at, refl, refl)

-- The thresholds never panic. When they are found, every sampled host has a score, and they are a
-- 500th and a 40th of the lowest of these scores, which some host has.
pub find_min_allowed_host_scores-FromLowest :
    (c : Currency) (laws : CurrencyLaws c) (ctr : Contractor) (rpk : ℕ) (renter : Allowance)
    (hosts : List ScannedHost)
    → lookup rpk ctr.renters ≡ some renter
    → ctr.random_hosts (renter.hosts + random_hosts_buffer_for_score) renter ≡ some hosts
    → Succeeds (FromLowest ctr hosts) (find_min_allowed_host_scores c ctr rpk)
unfolding find_min_allowed_host_scores
find_min_allowed_host_scores-FromLowest c laws ctr rpk renter hosts e e' =
    rw (e, find_min_allowed_host_scores)
      (rw e' (thresholds-FromLowest c laws ctr hosts _ (lowest_of-IsLowest ctr hosts)))
