-- ===== src/Gouging/Verdict.antt =====
-- modules/gouging.go: `CheckGouging` as a whole, and the range of block heights that it accepts.
use sia_satellite.Prelude.{
  ℕ, ◌+◌, ◌*◌, ◌/◌, ◌^◌, ◌≤◌, ◌<◌, ◌≡◌, refl, ◌↔◌, true, ◌||◌, Option, none, some, arith, is_some,
}
use sia_satellite.Currency.{currency_limit, Currency, fits, CurrencyLaws}
use sia_satellite.Gouging.{
  Error, height_out_of_range, Check, ok, err, panicked, refuse, after, Allowance, HostSettings,
  PriceTable, Constants, u64_limit, check_contract_gouging_rhpv2, check_contract_gouging_rhpv3,
  check_price_gouging_hs,
}
use sia_satellite.Gouging.PriceTables.{
  check_block_height, check_per_tib, check_download_gouging_rhpv3, check_upload_gouging_rhpv3,
  check_settings, check_price_table, check_gouging,
}
use sia_satellite.Gouging.Fair.{
  Within, FairTerms, check_contract_gouging_exact, FairSettings, check_price_gouging_hs_sound,
  check_price_gouging_hs_complete,
}
use sia_satellite.Gouging.FairTables.{
  FairTable, check_price_gouging_pt_sound, check_price_gouging_pt_complete,
}
use sia_satellite.Gouging.Costs.{
  read_total, upload_total, sector_read_cost_exact, sector_upload_cost_exact, check_per_tib_exact,
}

-- The price of one TiB, in sectors of a cost, is exact and within its maximum.
pub record FairPerTib (k : Constants) (total limit : ℕ) : Type 0 where
  pub fits_sector : total < currency_limit
  pub fits_tib : total * (2 ^ 40 / k.sector_size) < currency_limit
  pub within : Within (total * (2 ^ 40 / k.sector_size)) limit

abbrev pub SettingsFair : Allowance → Option HostSettings → Type 0
SettingsFair a none = Unit
SettingsFair a (some hs) =
    FairTerms a.period a.renew_window hs.max_duration hs.window_size × FairSettings a hs

abbrev pub TableFair : Constants → Allowance → ℕ → ℕ → Option PriceTable → Type 0
TableFair k a height txn_fee none = Unit
TableFair k a height txn_fee (some pt) =
    FairPerTib k (read_total k pt) a.max_download_bandwidth_price
    × FairTable k a height txn_fee pt
    × FairPerTib k (upload_total k pt) a.max_upload_bandwidth_price
    × FairTerms a.period a.renew_window pt.max_duration pt.window_size

after-ok : (first rest : Check) → (after first rest ≡ ok) ↔ ((first ≡ ok) × (rest ≡ ok))
unfolding after
after-ok ok rest = ((λ h. (refl, h)), (λ h. h.1))
after-ok (err e) rest = ((λ h. cc), (λ h. cc (h.0)))
after-ok panicked rest = ((λ h. cc), (λ h. cc (h.0)))

per_tib_exact :
    (c : Currency) (laws : CurrencyLaws c) (k : Constants) (cost : Option ℕ) (total limit : ℕ)
    (overflow too_high : Error)
    → cost ≡ fits total
    → (check_per_tib c k cost limit overflow too_high ≡ ok) ↔ FairPerTib k total limit
per_tib_exact c laws k cost total limit overflow too_high e =
    let exact = check_per_tib_exact c laws k total limit overflow too_high in
    rw e (
      (λ h. let (s, t, w) = exact.0 h in record { fits_sector = s; fits_tib = t; within = w }),
      (λ f. exact.1 (f.fits_sector, f.fits_tib, f.within)),
    )

module _ (c : Currency) (laws : CurrencyLaws c) where
  download_exact :
      (k : Constants) (a : Allowance) (pt : PriceTable)
      → (check_download_gouging_rhpv3 c k a pt ≡ ok)
        ↔ FairPerTib k (read_total k pt) a.max_download_bandwidth_price
  unfolding check_download_gouging_rhpv3
  download_exact k a pt =
      per_tib_exact c laws k _ (read_total k pt) a.max_download_bandwidth_price _ _
        (sector_read_cost_exact c laws k pt)

  upload_exact :
      (k : Constants) (a : Allowance) (pt : PriceTable)
      → (check_upload_gouging_rhpv3 c k a pt ≡ ok)
        ↔ FairPerTib k (upload_total k pt) a.max_upload_bandwidth_price
  unfolding check_upload_gouging_rhpv3
  upload_exact k a pt =
      per_tib_exact c laws k _ (upload_total k pt) a.max_upload_bandwidth_price _ _
        (sector_upload_cost_exact c laws k pt)

  settings_exact :
      (a : Allowance) (hs : Option HostSettings) → (check_settings c a hs ≡ ok) ↔ SettingsFair a hs
  unfolding check_contract_gouging_rhpv2
  settings_exact a none = ((λ h. tt), (λ h. refl))
  settings_exact a (some hs) =
      let terms =
        check_contract_gouging_exact a.period a.renew_window hs.max_duration hs.window_size in
      let both = after-ok (check_contract_gouging_rhpv2 a hs) (check_price_gouging_hs c a hs) in
      (
        (λ h. (terms.0 (both.0 h).0, check_price_gouging_hs_sound c laws a hs (both.0 h).1)),
        (λ f. both.1 (terms.1 f.0, check_price_gouging_hs_complete c laws a hs f.1)),
      )

  table_sound :
      (k : Constants) (a : Allowance) (height txn_fee : ℕ) (pt : Option PriceTable)
      → check_price_table c k a height txn_fee pt ≡ ok
      → TableFair k a height txn_fee pt
  unfolding check_contract_gouging_rhpv3
  table_sound k a height txn_fee none h = tt
  table_sound k a height txn_fee (some pt) h =
      let (h₁, r₁) = (after-ok _ _).0 h in
      let (h₂, r₂) = (after-ok _ _).0 r₁ in
      let (h₃, h₄) = (after-ok _ _).0 r₂ in
      (
        (download_exact k a pt).0 h₁,
        check_price_gouging_pt_sound c laws k a height txn_fee pt h₂,
        (upload_exact k a pt).0 h₃,
        (check_contract_gouging_exact a.period a.renew_window pt.max_duration pt.window_size).0 h₄,
      )

  table_complete :
      (k : Constants) (a : Allowance) (height txn_fee : ℕ) (pt : Option PriceTable)
      → TableFair k a height txn_fee pt
      → check_price_table c k a height txn_fee pt ≡ ok
  unfolding check_contract_gouging_rhpv3
  table_complete k a height txn_fee none f = refl
  table_complete k a height txn_fee (some pt) f = (after-ok _ _).1 (
    (download_exact k a pt).1 f.0,
    (after-ok _ _).1 (
      check_price_gouging_pt_complete c laws k a height txn_fee pt f.1,
      (after-ok _ _).1 (
        (upload_exact k a pt).1 f.2,
        (check_contract_gouging_exact a.period a.renew_window pt.max_duration pt.window_size).1 f.3,
      ),
    ),
  )

  -- `CheckGouging` passes a host exactly when settings or a price table are given and each of those
  -- given is fair: the prices of RPCs, contracts and storage, and in a table those of a TiB of upload and
  -- of download, are within the renter's maxima, where a maximum of zero sets no limit; the price of
  -- sector access is bounded only by that of download bandwidth, and the bandwidth prices of settings
  -- not at all. The costs that a host should leave at one hasting are at most that, every product stays
  -- below 2^128, and duration, window, collateral, fees and block height are in range.
  pub check_gouging_exact :
      (k : Constants) (a : Allowance) (height : ℕ) (hs : Option HostSettings)
      (pt : Option PriceTable) (txn_fee : ℕ)
      → (check_gouging c k a height hs pt txn_fee ≡ ok) ↔ (
          ((is_some hs || is_some pt) ≡ true) × SettingsFair a hs × TableFair k a height txn_fee pt)
  unfolding check_gouging
  check_gouging_exact k a height none none txn_fee = ((λ h. cc), (λ f. cc (f.0)))
  check_gouging_exact k a height none (some pt) txn_fee = (
    (λ h. let r = (after-ok _ _).0 h in (refl, tt, table_sound k a height txn_fee (some pt) r.1)),
    (λ f. (after-ok _ _).1 (refl, table_complete k a height txn_fee (some pt) f.2)),
  )
  check_gouging_exact k a height (some hs) pt txn_fee = (
    (λ h.
        let r = (after-ok _ _).0 h in
        (refl, (settings_exact a (some hs)).0 r.0, table_sound k a height txn_fee pt r.1)),
    (λ f.
        (after-ok _ _).1
          ((settings_exact a (some hs)).1 f.1, table_complete k a height txn_fee pt f.2)),
  )

-- When the leeway exceeds the height, the lower bound of the accepted heights wraps around, and the
-- check refuses a host whose height is exactly ours.
pub check_block_height_wraps :
    (a : Allowance) (height : ℕ) (pt : PriceTable) (rest : Check)
    → height < a.block_height_leeway
    → a.block_height_leeway + height < u64_limit
    → pt.host_block_height ≡ height
    → check_block_height a height pt rest ≡ err height_out_of_range
unfolding check_block_height refuse
check_block_height_wraps a height pt rest low room synced = ground arith

-- Where the leeway does not exceed the height, the accepted heights are those from ours up to ours
-- plus the leeway.
pub check_block_height_range :
    (a : Allowance) (height : ℕ) (pt : PriceTable) (rest : Check)
    → a.block_height_leeway ≤ height
    → height + a.block_height_leeway < u64_limit
    → (check_block_height a height pt rest ≡ ok) ↔ (
        (height ≤ pt.host_block_height)
        × (pt.host_block_height ≤ height + a.block_height_leeway)
        × (rest ≡ ok))
unfolding check_block_height refuse
check_block_height_range a height pt rest low room = ground arith
