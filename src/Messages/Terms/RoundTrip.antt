-- ===== src/Messages/Terms/RoundTrip.antt =====
-- The shared parts of requests are read as they were written.
use sia_satellite.Wire.{good, put, Wire, WireLaws}
use sia_satellite.Prelude.{ℕ, ◌<◌, ◌≡◌, refl, List, arith, length, length-append}
use sia_satellite.Messages.Terms.{
  Terms, put_terms, get_terms, TermsFits, ContractMetadata, put_contract_metadata,
  get_contract_metadata, ContractMetadataFits,
}

module _ (w : Wire) (laws : WireLaws w) where
  pub terms-Undoes :
      (r : Terms) (rest : List ℕ)
      → TermsFits r
      → get_terms w (good (put_terms w r rest)) ≡ (r, good rest)
  unfolding put_terms get_terms
  terms-Undoes r rest fits =
      simp
        (
          laws.word, laws.currency, laws.flag, fits.hosts, fits.period, fits.renew_window,
          fits.storage, fits.upload, fits.download, fits.min_shards, fits.total_shards,
          fits.max_rpc_price, fits.max_contract_price, fits.max_download_price,
          fits.max_upload_price, fits.max_storage_price, fits.max_sector_access_price,
          fits.min_max_collateral, fits.block_height_leeway,
        )
        refl

  pub contract_metadata-Undoes :
      (r : ContractMetadata) (rest : List ℕ)
      → ContractMetadataFits r
      → get_contract_metadata w (good (put_contract_metadata w r rest)) ≡ (r, good rest)
  unfolding put_contract_metadata get_contract_metadata
  contract_metadata-Undoes r rest fits =
      simp
        (
          laws.key, laws.word, laws.currency, laws.revision, fits.id, fits.host_key,
          fits.start_height, fits.renewed_from, fits.upload_spending, fits.download_spending,
          fits.fund_account_spending, fits.contract_price, fits.total_cost,
        )
        refl

  pub contract_metadata-Advances :
      (r : ContractMetadata) (rest : List ℕ) → length rest < length (put_contract_metadata w r rest)
  unfolding put_contract_metadata
  contract_metadata-Advances r rest = omega (
    arith,
    length-append (w.revision.layout r.revision) (rest),
    length-append (w.currency.layout r.total_cost) (put w.revision r.revision (rest)),
    length-append (w.currency.layout r.contract_price)
        (put w.currency r.total_cost (put w.revision r.revision (rest))),
    length-append (w.currency.layout r.fund_account_spending) (
        put w.currency r.contract_price
          (put w.currency r.total_cost (put w.revision r.revision (rest)))),
    length-append (w.currency.layout r.download_spending) (
        put w.currency r.fund_account_spending (
          put w.currency r.contract_price
            (put w.currency r.total_cost (put w.revision r.revision (rest))))),
    length-append (w.currency.layout r.upload_spending) (
        put w.currency r.download_spending (
          put w.currency r.fund_account_spending (
            put w.currency r.contract_price
              (put w.currency r.total_cost (put w.revision r.revision (rest)))))),
    length-append (w.key.layout r.renewed_from) (
        put w.currency r.upload_spending (
          put w.currency r.download_spending (
            put w.currency r.fund_account_spending (
              put w.currency r.contract_price
                (put w.currency r.total_cost (put w.revision r.revision (rest))))))),
    length-append (w.word.layout r.start_height) (
        put w.key r.renewed_from (
          put w.currency r.upload_spending (
            put w.currency r.download_spending (
              put w.currency r.fund_account_spending (
                put w.currency r.contract_price
                  (put w.currency r.total_cost (put w.revision r.revision (rest)))))))),
    length-append (w.key.layout r.host_key) (
        put w.word r.start_height (
          put w.key r.renewed_from (
            put w.currency r.upload_spending (
              put w.currency r.download_spending (
                put w.currency r.fund_account_spending (
                  put w.currency r.contract_price
                    (put w.currency r.total_cost (put w.revision r.revision (rest))))))))),
    length-append (w.key.layout r.id) (
        put w.key r.host_key (
          put w.word r.start_height (
            put w.key r.renewed_from (
              put w.currency r.upload_spending (
                put w.currency r.download_spending (
                  put w.currency r.fund_account_spending (
                    put w.currency r.contract_price
                      (put w.currency r.total_cost (put w.revision r.revision (rest)))))))))),
    laws.key_size r.id,
  )
