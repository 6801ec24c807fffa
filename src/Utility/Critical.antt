-- ===== src/Utility/Critical.antt =====
-- modules/manager/contractor/maintenancechecks.go: `managedCriticalUtilityChecks` as a whole.
use sia_satellite.Prelude.{
  ℕ, ◌≡◌, refl, ap, ◌∙◌, ◌↔◌, inl, inr, Bool, true, false, Option, none, some, arith, ◌==◌,
  if◌then◌else◌, ◌>>=◌, Option-cases, Ensures, Ensures-if, Ensures-any,
}
use sia_satellite.Currency.{Currency, CurrencyLaws}
use sia_satellite.Gouging.{Check, ok, err, panicked, Allowance, Constants}
use sia_satellite.Utility.{
  ContractUtility, RenterContract, FileContract, ScannedHost, Contractor, Verdict,
  bad_contract_check, max_revision_check, renewed_check, offline_check, up_for_renewal_check,
  sufficient_funds_check, out_of_storage_check, gouging_verdict, gouging_check, find_renter,
  or_next, critical_utility_checks,
}
use sia_satellite.Utility.Usable.{
  clear, or_next-clear, or_next-rest, Usable, renewed_exact, max_revision_exact, bad_contract_exact,
  offline_exact, up_for_renewal_exact, out_of_storage_exact, sufficient_funds_exact, gouging_exact,
}
use sia_satellite.Prelude.Maps.{lookup}

-- The utility of a contract that fails a check is not good for uploads.
abbrev pub Demoted : Verdict → Type 0
Demoted (u, needs_update) = needs_update ≡ true → u.good_for_upload ≡ false

Demoted-or_next :
    (r rest : Option Verdict)
    → Ensures Demoted r
    → Ensures Demoted rest
    → Ensures Demoted (or_next r rest)
unfolding or_next
Demoted-or_next none rest p q = tt
Demoted-or_next (some (u, true)) rest p q = p
Demoted-or_next (some (u, false)) rest p q = q

Demoted-if :
    (b : Bool) (u v : ContractUtility)
    → u.good_for_upload ≡ false
    → Demoted (if b then (u, true) else (v, false))
Demoted-if true u v h = λ _. h
Demoted-if false u v h = λ e. cc

module _ (c : Currency) (laws : CurrencyLaws c) (k : Constants) (ctr : Contractor)
    (fc : FileContract) (host : ScannedHost) where
  pub clear-Usable :
      (a : Allowance)
      → find_renter ctr fc.metadata.id ≡ some a
      → clear (critical_utility_checks c k ctr fc host) ≡ true
      → Usable k ctr fc host a
  unfolding critical_utility_checks
  clear-Usable a e =
      rw (e, critical_utility_checks)
        λ h.
          let (h₁, r₁) = (or_next-clear _ _).0 (h) in
          let (h₂, r₂) = (or_next-clear _ _).0 r₁ in
          let (h₃, r₃) = (or_next-clear _ _).0 r₂ in
          let (h₄, r₄) = (or_next-clear _ _).0 r₃ in
          let (h₅, r₅) = (or_next-clear _ _).0 r₄ in
          let (h₆, r₆) = (or_next-clear _ _).0 r₅ in
          let (h₇, r₇) = (or_next-clear _ _).0 r₆ in
          record {
            not_renewed = (renewed_exact _ _).0 h₁;
            revisable = (max_revision_exact _ _).0 h₂;
            not_bad = (bad_contract_exact _).0 h₃;
            online = (offline_exact fc.metadata host).0 h₄;
            early = (up_for_renewal_exact fc.metadata _ _).0 h₅;
            funded = (sufficient_funds_exact c laws _ fc.metadata host _).0 h₆;
            has_storage = (out_of_storage_exact fc.metadata _).0 h₇;
            fair =
                (gouging_exact c laws k ctr fc.metadata host ctr.height).0
                  ((or_next-clear _ _).0 r₇).0;
          }

  pub Usable-clear :
      (a : Allowance)
      → find_renter ctr fc.metadata.id ≡ some a
      → Usable k ctr fc host a
      → critical_utility_checks c k ctr fc host ≡ some (fc.metadata.utility, false)
  unfolding critical_utility_checks
  Usable-clear a e u =
      rw (e, critical_utility_checks)
        (or_next-rest _ _ ((renewed_exact _ _).1 u.not_renewed)
          ∙ or_next-rest _ _ ((max_revision_exact _ _).1 u.revisable)
          ∙ or_next-rest _ _ ((bad_contract_exact _).1 u.not_bad)
          ∙ or_next-rest _ _ ((offline_exact fc.metadata host).1 u.online)
          ∙ or_next-rest _ _ ((up_for_renewal_exact fc.metadata _ _).1 u.early)
          ∙ or_next-rest _ _ ((sufficient_funds_exact c laws _ fc.metadata host _).1 u.funded)
          ∙ or_next-rest _ _ ((out_of_storage_exact fc.metadata _).1 u.has_storage)
          ∙ or_next-rest _ _ ((gouging_exact c laws k ctr fc.metadata host ctr.height).1 u.fair))

  -- For a known renter the critical checks leave the utility as it is, and ask for no update, exactly
  -- when the contract is usable: not renewed, not at the last revision number, not bad, its host
  -- online, its end beyond the renew window, with funds for three sectors and a twentieth of its
  -- cost, with no recent lack of storage, and its host not gouging.
  pub critical_utility_checks_exact :
      (a : Allowance)
      → find_renter ctr fc.metadata.id ≡ some a
      → (critical_utility_checks c k ctr fc host ≡ some (fc.metadata.utility, false))
        ↔ Usable k ctr fc host a
  critical_utility_checks_exact a e = ((λ h. clear-Usable a e (ap clear h)), Usable-clear a e)

sufficient_funds-Demoted :
    (c : Currency) (n : ℕ) (contract : RenterContract) (host : ScannedHost) (period : ℕ)
    → Ensures Demoted (sufficient_funds_check c n contract host period)
unfolding sufficient_funds_check
sufficient_funds-Demoted c n contract host period = Ensures-any Demoted _ _ λ price.
    Ensures-if Demoted (contract.total_cost == 0) _ _ (λ e. tt)
      (λ e. Ensures-any Demoted (c.mul64 price 3) _ λ needed. Demoted-if _ _ _ refl)

verdict-Demoted : (u : ContractUtility) (ch : Check) → Ensures Demoted (gouging_verdict u ch)
verdict-Demoted u ok = λ e. cc
verdict-Demoted u (err e) = λ _. refl
verdict-Demoted u panicked = tt

out_of_storage-Demoted :
    (contract : RenterContract) (h : ℕ) → Demoted (out_of_storage_check contract h)
unfolding out_of_storage_check
out_of_storage-Demoted contract h = ground arith

gouging-Demoted :
    (c : Currency) (k : Constants) (ctr : Contractor) (contract : RenterContract)
    (host : ScannedHost) (h : ℕ)
    → Ensures Demoted (gouging_check c k ctr contract host h)
unfolding gouging_check
gouging-Demoted c k ctr contract host h =
    elim (Option-cases (ctr.renter_by_contract_id contract.id >>= λ rpk. lookup rpk ctr.renters)) [
      | inl e ↦ rw (e, gouging_check) (λ f. cc)
      | inr (a, e) ↦ elim (Option-cases (ctr.fetch_price_table host)) [
        | inl e' ↦ rw (e, e', gouging_check) (λ f. cc)
        | inr (pt, e') ↦ rw (e, e', gouging_check) (verdict-Demoted contract.utility _)
      ]
    ]

-- Whatever makes the critical checks ask for an update, the utility that they ask for is not good
-- for uploads.
pub critical_utility_checks-Demoted :
    (c : Currency) (k : Constants) (ctr : Contractor) (fc : FileContract) (host : ScannedHost)
    → Ensures Demoted (critical_utility_checks c k ctr fc host)
unfolding critical_utility_checks renewed_check max_revision_check bad_contract_check offline_check
    up_for_renewal_check out_of_storage_check
critical_utility_checks-Demoted c k ctr fc host =
    elim (Option-cases (find_renter ctr fc.metadata.id)) [
      | inl e ↦ rw (e, critical_utility_checks) (λ f. cc)
      | inr (a, e) ↦
          rw (e, critical_utility_checks)
            (Demoted-or_next _ _ (Demoted-if _ _ _ refl) (
              Demoted-or_next _ _ (Demoted-if _ _ _ refl) (
                Demoted-or_next _ _ (Demoted-if _ _ _ refl) (
                  Demoted-or_next _ _ (Demoted-if _ _ _ refl) (
                    Demoted-or_next _ _ (Demoted-if _ _ _ refl) (
                      Demoted-or_next _ _
                        (sufficient_funds-Demoted c k.sector_size fc.metadata host a.period)
                        (Demoted-or_next _ _ (out_of_storage-Demoted fc.metadata ctr.height) (
                          Demoted-or_next _ _ (gouging-Demoted c k ctr fc.metadata host ctr.height)
                            (λ f. cc)))))))))
    ]
