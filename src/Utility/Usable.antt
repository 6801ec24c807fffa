-- ===== src/Utility/Usable.antt =====
-- modules/manager/contractor/maintenancechecks.go: what a contract that passes the critical checks is
-- known to be.
use sia_satellite.Prelude.{
  ℕ, ◌+◌, ◌-◌, ◌*◌, ◌%◌, ◌^◌, ◌≤◌, ◌<◌, ◌≡◌, refl, ◌≢◌, ◌↔◌, ◌⊎◌, inl, inr, Bool, true, false, not,
  ◌||◌, Option, none, some, arith, ltb, ◌==◌, if◌then◌else◌, ◌>>=◌, is_some, Option-cases,
  Ensures-some,
}
use sia_satellite.Prelude.Maps.{lookup}
use sia_satellite.Currency.{currency_limit, Currency, fits, CurrencyLaws}
use sia_satellite.Gouging.{
  Check, ok, err, panicked, Allowance, HostSettings, PriceTable, Constants, u64_limit,
}
use sia_satellite.Gouging.Verdict.{SettingsFair, TableFair, check_gouging_exact}
use sia_satellite.Utility.{
  ContractUtility, RenterContract, FileContract, ScannedHost, Contractor, Verdict, renew_only,
  bad_contract_check, max_revision, max_revision_check, renewed_check, is_offline, offline_check,
  up_for_renewal_check, upload_threshold, below_threshold, sector_price, sufficient_funds_check,
  oos_retry_interval, out_of_storage_check, gouging_verdict, gouging_check, or_next,
}
use sia_satellite.Gouging.PriceTables.{check_gouging}

-- A check that ends well and asks for no update.
abbrev pub clear : Option Verdict → Bool
clear none = false
clear (some (u, needs_update)) = not needs_update

pub or_next-clear :
    (r rest : Option Verdict)
    → (clear (or_next r rest) ≡ true) ↔ ((clear r ≡ true) × (clear rest ≡ true))
unfolding or_next
or_next-clear none rest = ground arith
or_next-clear (some (u, true)) rest = ground arith
or_next-clear (some (u, false)) rest = ground arith

pub or_next-rest : (r rest : Option Verdict) → clear r ≡ true → or_next r rest ≡ rest
unfolding or_next
or_next-rest none rest h = cc
or_next-rest (some (u, true)) rest h = cc
or_next-rest (some (u, false)) rest h = refl

-- What a sector costs for a period: its storage, its upload and its download.
abbrev pub price_total : ℕ → HostSettings → ℕ → ℕ
price_total sector_size hs period =
    hs.storage_price * ((sector_size * period) % u64_limit)
    + (hs.upload_bandwidth_price * sector_size + hs.download_bandwidth_price * sector_size)

-- The renter can pay for three sectors, and has at least a twentieth of the cost left, up to the
-- rounding of the float64.
pub record Funded (sector_size : ℕ) (contract : RenterContract) (hs : HostSettings) (period : ℕ)
    : Type 0 where
  pub price_fits : price_total sector_size hs period * 3 < currency_limit
  pub has_cost : contract.total_cost ≢ 0
  pub covers : price_total sector_size hs period * 3 ≤ contract.renter_funds
  pub above : upload_threshold * contract.total_cost ≤ 2 ^ 58 * contract.renter_funds

-- Neither the host's settings nor its price table exceed what the renter allows, if the renter and
-- the price table are known.
abbrev pub NotGouging : Constants → Contractor → RenterContract → ScannedHost → ℕ → Type 0
NotGouging k ctr contract host height =
    (a : Allowance) (pt : PriceTable)
    → (ctr.renter_by_contract_id contract.id >>= λ rpk. lookup rpk ctr.renters) ≡ some a
    → ctr.fetch_price_table host ≡ some pt
    → SettingsFair a (some host.settings) × TableFair k a height ctr.recommended_fee (some pt)

abbrev pub NoRecentOos : ContractUtility → ℕ → Type 0
NoRecentOos u height =
    (u.last_oos_err ≡ 0) ⊎ (oos_retry_interval < (height + u64_limit - u.last_oos_err) % u64_limit)

pub record Usable (k : Constants) (ctr : Contractor) (fc : FileContract) (host : ScannedHost)
    (a : Allowance) : Type 0 where
  pub not_renewed : lookup fc.metadata.id ctr.renewed_to ≡ none
  pub revisable : fc.revision_number ≢ max_revision
  pub not_bad : fc.metadata.utility.bad_contract ≡ false
  pub online : is_offline host.scan_history ≡ false
  pub early : (ctr.height + a.renew_window) % u64_limit < fc.metadata.end_height
  pub funded : Funded k.sector_size fc.metadata host.settings a.period
  pub has_storage : NoRecentOos fc.metadata.utility ctr.height
  pub fair : NotGouging k ctr fc.metadata host ctr.height

pub renewed_exact :
    (u : ContractUtility) (o : Option ℕ)
    → (clear (some (renewed_check u (is_some o))) ≡ true) ↔ (o ≡ none)
unfolding renewed_check
renewed_exact u o = ground arith

pub max_revision_exact :
    (u : ContractUtility) (n : ℕ)
    → (clear (some (max_revision_check u n)) ≡ true) ↔ (n ≢ max_revision)
unfolding max_revision_check
max_revision_exact u n = ground arith

pub bad_contract_exact :
    (u : ContractUtility) → (clear (some (bad_contract_check u)) ≡ true) ↔ (u.bad_contract ≡ false)
unfolding bad_contract_check
bad_contract_exact u = ground arith

pub offline_exact :
    (contract : RenterContract) (host : ScannedHost)
    → (clear (some (offline_check contract host)) ≡ true) ↔ (is_offline host.scan_history ≡ false)
unfolding offline_check
offline_exact contract host = ground arith

pub up_for_renewal_exact :
    (contract : RenterContract) (w h : ℕ)
    → (clear (some (up_for_renewal_check contract w h)) ≡ true)
      ↔ ((h + w) % u64_limit < contract.end_height)
unfolding up_for_renewal_check
up_for_renewal_exact contract w h = ground arith

pub out_of_storage_exact :
    (contract : RenterContract) (h : ℕ)
    → (clear (some (out_of_storage_check contract h)) ≡ true) ↔ NoRecentOos contract.utility h
unfolding out_of_storage_check
out_of_storage_exact contract h = ground arith

price_chain :
    (s u d : ℕ)
    → (do x ← fits s; y ← fits u; z ← fits d; w ← fits (y + z); fits (x + w)) ≡ fits (s + (u + d))
price_chain s u d = ground arith

funds_chain :
    (t cost funds : ℕ) (u v : ContractUtility)
    → (clear (do
      price ← fits t
      if cost == 0 then none else (do
        needed ← fits (price * 3)
        some (if ltb funds needed || below_threshold funds cost then (u, true) else (v, false))))
        ≡ true)
      ↔ ((t * 3 < currency_limit)
          × (cost ≢ 0)
          × (t * 3 ≤ funds)
          × (upload_threshold * cost ≤ 2 ^ 58 * funds))
funds_chain t cost funds u v = ground arith

verdict_exact :
    (u : ContractUtility) (ch : Check) → (clear (gouging_verdict u ch) ≡ true) ↔ (ch ≡ ok)
verdict_exact u ok = ((λ h. refl), (λ h. refl))
verdict_exact u (err e) = ((λ h. cc), (λ h. cc))
verdict_exact u panicked = ((λ h. cc), (λ h. cc))

-- What holds of two values holds of the values that two answers are known to be.
known :
    {A B : Type 0} (P : A → B → Type 0) (a a' : A) (b b' : B)
    → P a b
    → some a ≡ some a'
    → some b ≡ some b'
    → P a' b'
known P a a' b b' p f g = Ensures-some (P a') (some b) (Ensures-some (λ x. P x b) (some a) p f) g

module _ (c : Currency) (laws : CurrencyLaws c) where
  -- The price of a sector is the exact sum of its parts; the code panics exactly when the sum does
  -- not fit 128 bits.
  pub sector_price_exact :
      (n : ℕ) (hs : HostSettings) (period : ℕ)
      → sector_price c n hs period ≡ fits (price_total n hs period)
  unfolding sector_price
  sector_price_exact n hs period = simp (laws.mul64_law, laws.add_law) (price_chain _ _ _)

  pub sufficient_funds_exact :
      (n : ℕ) (contract : RenterContract) (host : ScannedHost) (period : ℕ)
      → (clear (sufficient_funds_check c n contract host period) ≡ true)
        ↔ Funded n contract host.settings period
  unfolding sufficient_funds_check
  sufficient_funds_exact n contract host period = rw (sector_price_exact n host.settings period) (
      simp (laws.mul64_law) (
        let e =
          funds_chain (price_total n host.settings period) contract.total_cost contract.renter_funds
            (renew_only contract.utility) contract.utility in
        (
          (λ h.
              let (p, q, r, t) = e.0 h in
              record { price_fits = p; has_cost = q; covers = r; above = t }),
          (λ f. e.1 (f.price_fits, f.has_cost, f.covers, f.above)),
        )))

  pub gouging_exact :
      (k : Constants) (ctr : Contractor) (contract : RenterContract) (host : ScannedHost) (h : ℕ)
      → (clear (gouging_check c k ctr contract host h) ≡ true) ↔ NotGouging k ctr contract host h
  unfolding gouging_check
  gouging_exact k ctr contract host h =
      elim (Option-cases
        (ctr.renter_by_contract_id contract.id >>= λ rpk. lookup rpk ctr.renters)) [
          | inl e ↦ rw (e, gouging_check) ((λ _ a pt f. cc), (λ _. refl))
          | inr (a, e) ↦ elim (Option-cases (ctr.fetch_price_table host)) [
            | inl e' ↦ rw (e, e', gouging_check) ((λ _ b pt f g. cc), (λ _. refl))
            | inr (pt, e') ↦
                let fair =
                  check_gouging_exact c laws k a h (some host.settings) (some pt)
                    ctr.recommended_fee in
                let verdict =
                  verdict_exact contract.utility
                    (check_gouging c k a h (some host.settings) (some pt) ctr.recommended_fee) in
                rw (e, e', gouging_check)
                  (
                    (λ x b pt' f g.
                        known
                          (λ a pt.
                            SettingsFair a (some host.settings)
                            × TableFair k a h ctr.recommended_fee (some pt))
                          a b pt pt' (let r = fair.0 (verdict.0 x) in (r.1, r.2)) f g),
                    (λ x. verdict.1 ((let y = x a pt refl refl in fair.1 (refl, y.0, y.1)))),
                  )
          ]
        ]
