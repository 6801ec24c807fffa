-- ===== src/Utility/Marked.antt =====
-- modules/manager/contractor/utility.go: what `managedMarkContractUtility` makes of a contract.
use sia_satellite.Prelude.{
  ℕ, ◌≤◌, ◌<◌, ◌≡◌, refl, ap, ◌↔◌, ◌⊎◌, inl, inr, true, false, not, Option, none, some, arith,
  Option-cases, Ensures, Ensures-some, Ensures-if,
}
use sia_satellite.Currency.{Currency, CurrencyLaws}
use sia_satellite.Gouging.{Allowance, Constants}
use sia_satellite.Utility.{
  ContractUtility, RenterContract, FileContract, ScannedHost, Contractor, find_renter,
  critical_utility_checks,
}
use sia_satellite.Utility.Usable.{Usable}
use sia_satellite.Utility.Marking.{
  no_update, check_host_score, host_in_host_db_check, by_score, new_utility,
}
use sia_satellite.Utility.Critical.{
  Demoted, clear-Usable, Usable-clear, critical_utility_checks-Demoted,
}

-- A score that reaches a threshold, where a threshold of zero sets no limit.
abbrev pub Reaches : ℕ → ℕ → Type 0
Reaches score min_score = (min_score ≡ 0) ⊎ (min_score ≤ score)

-- Good for both: the host is in the database and not filtered, has a score above one that reaches
-- both thresholds, and the contract is usable, if its renter is known.
pub record Recommended (k : Constants) (ctr : Contractor) (contract : RenterContract)
    (fc : FileContract) (min_score_gfr min_score_gfu : ℕ) : Type 0 where
  pub host : ScannedHost
  pub in_db : ctr.db_host contract.host_public_key ≡ some host
  pub not_filtered : host.filtered ≡ false
  pub score : ℕ
  pub scored : ctr.score_breakdown host ≡ some score
  pub above_one : 1 < score
  pub renewable : Reaches score min_score_gfr
  pub uploadable : Reaches score min_score_gfu
  pub usable : (a : Allowance) → find_renter ctr fc.metadata.id ≡ some a → Usable k ctr fc host a

host_in_host_db_exact :
    (ctr : Contractor) (contract : RenterContract) (host : ScannedHost)
    → (host_in_host_db_check ctr contract ≡ some host)
      ↔ ((ctr.db_host contract.host_public_key ≡ some host) × (host.filtered ≡ false))
unfolding host_in_host_db_check
host_in_host_db_exact ctr contract host = ground arith

score_exact :
    (u : ContractUtility) (s gfr gfu : ℕ)
    → (by_score (check_host_score u s gfr gfu)).good_for_upload ≡ true
    → (1 < s) × Reaches s gfr × Reaches s gfu
unfolding check_host_score
score_exact u s gfr gfu h = ground arith

score_passed :
    (u : ContractUtility) (s gfr gfu : ℕ)
    → 1 < s
    → Reaches s gfr
    → Reaches s gfu
    → check_host_score u s gfr gfu ≡ (u, no_update)
unfolding check_host_score
score_passed u s gfr gfu a b d = ground arith

module _ (c : Currency) (laws : CurrencyLaws c) (k : Constants) (ctr : Contractor) where
  abbrev pub Recommends : RenterContract → FileContract → ℕ → ℕ → Option ContractUtility → Type 0
  Recommends contract fc gfr gfu none = Unit
  Recommends contract fc gfr gfu (some u) =
      u.good_for_upload ≡ true → Recommended k ctr contract fc gfr gfu

  pub new_utility-Recommends :
      (contract : RenterContract) (fc : FileContract) (gfr gfu : ℕ)
      → Ensures (Recommends contract fc gfr gfu) (new_utility c k ctr contract fc gfr gfu)
  unfolding new_utility
  new_utility-Recommends contract fc gfr gfu =
      let P = Recommends contract fc gfr gfu in
      Ensures-if P fc.metadata.utility.locked _ _ (λ e. tt)
        (λ e. elim (Option-cases (host_in_host_db_check ctr contract)) [
          | inl e ↦ rw (e, new_utility) (λ f. cc)
          | inr (host, e) ↦ elim (Option-cases (critical_utility_checks c k ctr fc host)) [
            | inl e' ↦ rw (e, e', new_utility) tt
            | inr (v, e') ↦
                rw (e, e', new_utility)
                  (Ensures-if P v.1 _ _
                    (λ b good.
                      let d =
                        Ensures-some Demoted _ (critical_utility_checks-Demoted c k ctr fc host) e'
                          b in
                      cc)
                    (λ b. elim (Option-cases (ctr.score_breakdown host)) [
                      | inl e'' ↦ rw e'' tt
                      | inr (s, e'') ↦ rw e'' (λ good.
                          let (above, r, u) = score_exact contract.utility s gfr gfu good in
                          let (found, free) = (host_in_host_db_exact ctr contract host).0 e in
                          record {
                            host = host;
                            in_db = found;
                            not_filtered = free;
                            score = s;
                            scored = e'';
                            above_one = above;
                            renewable = r;
                            uploadable = u;
                            usable = λ a known.
                                clear-Usable c laws k ctr fc host a known (rw e' (ap not b));
                          })
                    ]))
          ]
        ])

  -- The completed checks, when all pass.
  pub new_utility_complete :
      (contract : RenterContract) (fc : FileContract) (gfr gfu : ℕ) (a : Allowance)
      → fc.metadata.utility.locked ≡ false
      → find_renter ctr fc.metadata.id ≡ some a
      → Recommended k ctr contract fc gfr gfu
      → new_utility c k ctr contract fc gfr gfu
        ≡ some (some (record (contract.utility) { good_for_upload = true; good_for_renew = true }))
  unfolding new_utility check_host_score
  new_utility_complete contract fc gfr gfu a e known r =
      let passed = Usable-clear c laws k ctr fc r.host a known (r.usable a known) in
      let found = (host_in_host_db_exact ctr contract r.host).1 (r.in_db, r.not_filtered) in
      rw (e, new_utility)
        (rw (found, passed, r.scored)
          (rw (score_passed contract.utility r.score gfr gfu r.above_one r.renewable r.uploadable)
            refl))
