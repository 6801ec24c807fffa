-- ===== src/Gouging/Costs.antt =====
-- modules/gouging.go: the sector costs that `sectorReadCostRHPv3` and `sectorUploadCostRHPv3` compute
-- with overflow flags.
use sia_satellite.Prelude.{ℕ, ◌+◌, ◌*◌, ◌/◌, ◌%◌, ◌^◌, ◌≤◌, ◌<◌, ◌≡◌, ◌↔◌, ◌⊎◌, arith, leb, ◌>>=◌}
use sia_satellite.Gouging.{Error, ok, refuse, PriceTable, Constants}
use sia_satellite.Currency.{currency_limit, Currency, fits, CurrencyLaws}
use sia_satellite.Gouging.PriceTables.{
  checked, sector_read_cost_rhpv3, sector_upload_cost_rhpv3, check_per_tib,
}

checked-fits : (n : ℕ) → checked (n % currency_limit, leb currency_limit n) ≡ fits n
checked-fits n = ground arith

-- A chain of sums with overflow flags is exact: it stops only if the whole does not fit.
read_chain :
    (p b i g e : ℕ)
    → (do
      x ← fits p
      y ← fits (x + b)
      z ← fits (y + i)
      u ← fits g
      v ← fits e
      w ← fits (z + u)
      fits (w + v))
      ≡ fits (p + b + i + g + e)
read_chain p b i g e = ground arith

upload_chain :
    (p b i g : ℕ)
    → (do x ← fits p; y ← fits (x + b); z ← fits (y + i); u ← fits g; fits (z + u))
      ≡ fits (p + b + i + g)
upload_chain p b i g = ground arith

-- What reading a sector costs: a base cost, the bandwidth of the request and that of the sector.
abbrev pub read_total : Constants → PriceTable → ℕ
read_total k pt =
    pt.read_length_cost * k.sector_size
    + pt.read_base_cost
    + pt.init_base_cost
    + pt.upload_bandwidth_cost * 32
    + pt.download_bandwidth_cost * k.sector_size

-- What uploading a sector costs.
abbrev pub upload_total : Constants → PriceTable → ℕ
upload_total k pt =
    pt.write_length_cost * k.sector_size
    + pt.write_base_cost
    + pt.init_base_cost
    + pt.upload_bandwidth_cost * k.sector_size

module _ (c : Currency) (laws : CurrencyLaws c) where
  checked-mul : (a b : ℕ) → checked (c.mul64_with_overflow a b) ≡ fits (a * b)
  checked-mul a b = rw (laws.mul64_with_overflow_law a b) (checked-fits (a * b))

  checked-add : (a b : ℕ) → checked (c.add_with_overflow a b) ≡ fits (a + b)
  checked-add a b = rw (laws.add_with_overflow_law a b) (checked-fits (a + b))

  -- The cost of reading a sector is the exact sum of its parts, and the overflow flag is raised
  -- exactly when that sum does not fit 128 bits, whatever the order of the additions.
  pub sector_read_cost_exact :
      (k : Constants) (pt : PriceTable) → sector_read_cost_rhpv3 c k pt ≡ fits (read_total k pt)
  unfolding sector_read_cost_rhpv3
  sector_read_cost_exact k pt = simp (checked-mul, checked-add) (read_chain _ _ _ _ _)

  -- The cost of uploading a sector is the exact sum of its parts, and the overflow flag is raised
  -- exactly when that sum does not fit 128 bits.
  pub sector_upload_cost_exact :
      (k : Constants) (pt : PriceTable) → sector_upload_cost_rhpv3 c k pt ≡ fits (upload_total k pt)
  unfolding sector_upload_cost_rhpv3
  sector_upload_cost_exact k pt = simp (checked-mul, checked-add) (upload_chain _ _ _ _)

  pub check_per_tib_exact :
      (k : Constants) (total limit : ℕ) (overflow too_high : Error)
      → (check_per_tib c k (fits total) limit overflow too_high ≡ ok) ↔ (
          (total < currency_limit)
          × (total * (2 ^ 40 / k.sector_size) < currency_limit)
          × ((limit ≡ 0) ⊎ (total * (2 ^ 40 / k.sector_size) ≤ limit)))
  unfolding check_per_tib refuse
  check_per_tib_exact k total limit overflow too_high =
      ground (arith, checked-mul total (2 ^ 40 / k.sector_size))
