-- ===== src/Gouging/FairTables.antt =====
-- modules/gouging.go: what the price table of a host that passes the checks has promised.
use sia_satellite.Prelude.{ℕ, ◌+◌, ◌-◌, ◌*◌, ◌%◌, ◌≤◌, ◌<◌, ◌≡◌, ◌↔◌, ◌⊎◌, arith, le→ltb, ltb→le}
use sia_satellite.Currency.{currency_limit, Currency, CurrencyLaws}
use sia_satellite.Gouging.{
  Check, ok, refuse, with_value, Allowance, PriceTable, Constants, u64_limit,
}
use sia_satellite.Gouging.PriceTables.{
  check_unit_costs, check_block_height, check_txn_fees, check_price_gouging_pt,
}
use sia_satellite.Gouging.Fair.{
  Within, not_over, passes, with_product, refused_free, over_free, product_fits,
}

-- The costs that hosts do not use are one hasting at most.
pub record UnitCosts (pt : PriceTable) : Type 0 where
  pub read_length_cost : pt.read_length_cost ≤ 1
  pub write_length_cost : pt.write_length_cost ≤ 1
  pub account_balance_cost : pt.account_balance_cost ≤ 1
  pub fund_account_cost : pt.fund_account_cost ≤ 1
  pub update_price_table_cost : pt.update_price_table_cost ≤ 1
  pub has_sector_base_cost : pt.has_sector_base_cost ≤ 1
  pub memory_time_cost : pt.memory_time_cost ≤ 1
  pub drop_sectors_base_cost : pt.drop_sectors_base_cost ≤ 1
  pub drop_sectors_unit_cost : pt.drop_sectors_unit_cost ≤ 1
  pub swap_sector_base_cost : pt.swap_sector_base_cost ≤ 1
  pub subscription_memory_cost : pt.subscription_memory_cost ≤ 1
  pub subscription_notification_cost : pt.subscription_notification_cost ≤ 1

check_unit_costs_sound :
    (pt : PriceTable) (rest : Check) → check_unit_costs pt rest ≡ ok → UnitCosts pt × (rest ≡ ok)
unfolding check_unit_costs refuse with_value
check_unit_costs_sound pt rest h = ground arith

check_unit_costs_complete :
    (pt : PriceTable) (rest : Check) → UnitCosts pt → rest ≡ ok → check_unit_costs pt rest ≡ ok
unfolding check_unit_costs refuse with_value
check_unit_costs_complete pt rest u h = ground arith

-- The host is not behind, and not ahead by more than the leeway. The bounds are uint64 values.
pub record FairHeight (a : Allowance) (height : ℕ) (pt : PriceTable) : Type 0 where
  pub not_behind : height ≤ pt.host_block_height
  pub above : (height + u64_limit - a.block_height_leeway) % u64_limit ≤ pt.host_block_height
  pub below : pt.host_block_height ≤ (height + a.block_height_leeway) % u64_limit

check_block_height_exact :
    (a : Allowance) (height : ℕ) (pt : PriceTable) (rest : Check)
    → (check_block_height a height pt rest ≡ ok) ↔ (FairHeight a height pt × (rest ≡ ok))
unfolding check_block_height refuse with_value
check_block_height_exact a height pt rest = ground arith

-- The fee that the host recommends as the largest is at most five times the one of the wallet.
pub record FairFees (txn_fee : ℕ) (pt : PriceTable) : Type 0 where
  pub ordered : pt.txn_fee_min_recommended ≤ pt.txn_fee_max_recommended
  pub bounded : (txn_fee ≡ 0) ⊎ (pt.txn_fee_max_recommended ≤ txn_fee * 5)
  pub no_overflow : txn_fee * 5 < currency_limit

pub record FairTable (k : Constants) (a : Allowance) (height txn_fee : ℕ) (pt : PriceTable)
    : Type 0 where
  pub rpc : Within pt.init_base_cost a.max_rpc_price
  pub contract : Within pt.contract_price a.max_contract_price
  pub storage : Within pt.write_store_cost a.max_storage_price
  pub collateral : 0 < pt.max_collateral
  pub collateral_min : a.min_max_collateral ≤ pt.max_collateral
  pub unit_costs : UnitCosts pt
  pub revision : pt.latest_revision_cost ≤ a.max_download_bandwidth_price * 4096
  pub no_overflow : a.max_download_bandwidth_price * 4096 < currency_limit
  pub renewal : pt.renew_contract_cost ≤ k.hundred_nanosiacoins
  pub no_revision_base : pt.revision_base_cost ≡ 0
  pub height_fair : FairHeight a height pt
  pub fees_fair : FairFees txn_fee pt

module _ (c : Currency) (laws : CurrencyLaws c) where
  check_txn_fees_exact :
      (txn_fee : ℕ) (pt : PriceTable) → (check_txn_fees c txn_fee pt ≡ ok) ↔ FairFees txn_fee pt
  unfolding check_txn_fees refuse with_value
  check_txn_fees_exact txn_fee pt = ground (arith, laws.mul64_law txn_fee 5)

  pub check_price_gouging_pt_sound :
      (k : Constants) (a : Allowance) (height txn_fee : ℕ) (pt : PriceTable)
      → check_price_gouging_pt c k a height txn_fee pt ≡ ok
      → FairTable k a height txn_fee pt
  unfolding check_price_gouging_pt
  check_price_gouging_pt_sound k a height txn_fee pt h =
      let h₁ = refused_free _ _ _ h in
      let h₂ = refused_free _ _ _ h₁.1 in
      let h₃ = refused_free _ _ _ h₂.1 in
      let h₄ = refused_free _ _ _ h₃.1 in
      let h₅ = refused_free _ _ _ h₄.1 in
      let h₆ = check_unit_costs_sound pt _ h₅.1 in
      let h₇ = product_fits c laws a.max_download_bandwidth_price 4096 _ h₆.1 in
      let h₈ = refused_free _ _ _ h₇.1 in
      let h₉ = refused_free _ _ _ h₈.1 in
      let h₁₀ = refused_free _ _ _ h₉.1 in
      let h₁₁ = (check_block_height_exact a height pt _).0 h₁₀.1 in
      record {
        rpc = over_free _ _ h₁.0;
        contract = over_free _ _ h₂.0;
        storage = over_free _ _ h₃.0;
        collateral = ground (arith, h₄.0);
        collateral_min = ltb→le _ _ h₅.0;
        unit_costs = h₆.0;
        revision = ltb→le _ _ h₈.0;
        no_overflow = h₇.0;
        renewal = ltb→le _ _ h₉.0;
        no_revision_base = ground (arith, h₁₀.0);
        height_fair = h₁₁.0;
        fees_fair = (check_txn_fees_exact txn_fee pt).0 h₁₁.1;
      }

  pub check_price_gouging_pt_complete :
      (k : Constants) (a : Allowance) (height txn_fee : ℕ) (pt : PriceTable)
      → FairTable k a height txn_fee pt
      → check_price_gouging_pt c k a height txn_fee pt ≡ ok
  unfolding check_price_gouging_pt
  check_price_gouging_pt_complete k a height txn_fee pt f = passes _ _ _ (not_over _ _ f.rpc) (
      passes _ _ _ (not_over _ _ f.contract) (
        passes _ _ _ (not_over _ _ f.storage) (
          passes _ _ _ (ground (arith, f.collateral)) (
            passes _ _ _ (le→ltb _ _ f.collateral_min) (
              check_unit_costs_complete pt _ f.unit_costs (
                with_product c laws a.max_download_bandwidth_price 4096 _ f.no_overflow (
                  passes _ _ _ (le→ltb _ _ f.revision) (
                    passes _ _ _ (le→ltb _ _ f.renewal) (
                      passes _ _ _ (ground (arith, f.no_revision_base)) (
                        (check_block_height_exact a height pt _).1
                          (f.height_fair, (check_txn_fees_exact txn_fee pt).1 f.fees_fair)))))))))))
