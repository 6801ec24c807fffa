-- ===== src/Gouging/Fair.antt =====
-- modules/gouging.go: what a host that passes the checks has promised.
use sia_satellite.Prelude.{
  ℕ, ◌*◌, ◌≤◌, ◌<◌, max, ◌≡◌, refl, ◌↔◌, ◌⊎◌, Bool, false, arith, ◌==◌, if◌then◌else◌, lt→ltb,
  le→ltb,
}
use sia_satellite.Currency.{currency_limit, Currency, CurrencyLaws}
use sia_satellite.Gouging.{
  Error, Check, ok, refuse, with_value, Allowance, HostSettings, check_contract_gouging, over,
  check_price_gouging_hs,
}

-- A price within its maximum, where a maximum of zero sets no limit.
abbrev pub Within : ℕ → ℕ → Type 0
Within price limit = (limit ≡ 0) ⊎ (price ≤ limit)

pub not_over : (price limit : ℕ) → Within price limit → over price limit ≡ false
not_over price limit w = ground arith

pub passes :
    (bad : Bool) (e : Error) (rest : Check) → bad ≡ false → rest ≡ ok → refuse bad e rest ≡ ok
unfolding refuse
passes bad e rest h k = rw h k

pub with_product :
    (c : Currency) (laws : CurrencyLaws c) (a b : ℕ) (f : ℕ → Check)
    → a * b < currency_limit
    → f (a * b) ≡ ok
    → with_value (c.mul64 a b) f ≡ ok
unfolding with_value
with_product c laws a b f h k = rw (laws.mul64_law a b) (rw (lt→ltb (a * b) currency_limit h) k)

pub refused_free :
    (bad : Bool) (e : Error) (rest : Check) → refuse bad e rest ≡ ok → (bad ≡ false) × (rest ≡ ok)
unfolding refuse
refused_free bad e rest h = ground arith

pub over_free : (price limit : ℕ) → over price limit ≡ false → Within price limit
over_free price limit h = ground arith

pub product_fits :
    (c : Currency) (laws : CurrencyLaws c) (a b : ℕ) (f : ℕ → Check)
    → with_value (c.mul64 a b) f ≡ ok
    → (a * b < currency_limit) × (f (a * b) ≡ ok)
unfolding with_value
product_fits c laws a b f h = ground (arith, laws.mul64_law a b)

pub record FairTerms (period renew_window max_duration window_size : ℕ) : Type 0 where
  pub long_enough : (period ≡ 0) ⊎ (period ≤ max_duration)
  pub window_fits : (renew_window ≡ 0) ⊎ (window_size ≤ renew_window)

pub check_contract_gouging_exact :
    (p w d s : ℕ) → (check_contract_gouging p w d s ≡ ok) ↔ FairTerms p w d s
unfolding check_contract_gouging refuse
check_contract_gouging_exact p w d s = ground arith

-- The price of bandwidth that the sector access price is measured by: at least one hasting.
abbrev pub bandwidth_unit : HostSettings → ℕ
bandwidth_unit hs = max 1 hs.download_bandwidth_price

pub record FairSettings (a : Allowance) (hs : HostSettings) : Type 0 where
  pub rpc : Within hs.base_rpc_price a.max_rpc_price
  pub rpc_sane : hs.base_rpc_price ≤ hs.download_bandwidth_price * 40000
  pub sector_access : hs.sector_access_price ≤ bandwidth_unit hs * 400000
  pub storage : Within hs.storage_price a.max_storage_price
  pub contract : Within hs.contract_price a.max_contract_price
  pub collateral : 0 < hs.max_collateral
  pub collateral_min : a.min_max_collateral ≤ hs.max_collateral
  pub no_overflow : bandwidth_unit hs * 400000 < currency_limit

module _ (c : Currency) (laws : CurrencyLaws c) where
  pub check_price_gouging_hs_sound :
      (a : Allowance) (hs : HostSettings) → check_price_gouging_hs c a hs ≡ ok → FairSettings a hs
  unfolding check_price_gouging_hs refuse with_value
  check_price_gouging_hs_sound a hs h = ground (
    arith,
    laws.mul64_law hs.download_bandwidth_price 40000,
    laws.mul64_law 1 400000,
    laws.mul64_law hs.download_bandwidth_price 400000,
  )

  pub check_price_gouging_hs_complete :
      (a : Allowance) (hs : HostSettings) → FairSettings a hs → check_price_gouging_hs c a hs ≡ ok
  unfolding check_price_gouging_hs
  check_price_gouging_hs_complete a hs h =
      let unit : (if hs.download_bandwidth_price == 0 then 1 else hs.download_bandwidth_price)
          ≡ bandwidth_unit hs =
        ground arith in
      passes _ _ _ (not_over _ _ h.rpc) (
        with_product c laws hs.download_bandwidth_price 40000 _ (omega (arith, h.no_overflow)) (
          passes _ _ _ (le→ltb _ _ h.rpc_sane) (
            rw unit (
              with_product c laws (bandwidth_unit hs) 400000 _ h.no_overflow (
                passes _ _ _ (le→ltb _ _ h.sector_access) (
                  passes _ _ _ (not_over _ _ h.storage) (
                    passes _ _ _ (not_over _ _ h.contract) (
                      passes _ _ _ (ground (arith, h.collateral))
                        (passes _ _ _ (le→ltb _ _ h.collateral_min) refl)))))))))
