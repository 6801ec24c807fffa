-- ===== src/Messages/Contracts/RoundTrip.antt =====
-- The requests about contracts are read as they were written.
use sia_satellite.Wire.{good, put, Wire, WireLaws}
use sia_satellite.Prelude.{ℕ, ◌≡◌, refl, List}
use sia_satellite.Wire.Lists.{get_list-put_list}
use sia_satellite.Messages.Terms.{
  put_contract_metadata, get_contract_metadata, ContractMetadataFits,
}
use sia_satellite.Messages.Terms.RoundTrip.{
  terms-Undoes, contract_metadata-Undoes, contract_metadata-Advances,
}
use sia_satellite.Messages.Contracts.{
  RequestRequest, put_request_request, get_request_request, RequestRequestFits, FormRequest,
  put_form_request, get_form_request, FormRequestFits, UpdateRequest, put_update_request,
  get_update_request, UpdateRequestFits, FormContractRequest, put_form_contract_request,
  get_form_contract_request, FormContractRequestFits, RenewContractRequest,
  put_renew_contract_request, get_renew_contract_request, RenewContractRequestFits, ShareRequest,
  put_share_request, get_share_request, ShareRequestFits,
}

module _ (w : Wire) (laws : WireLaws w) where
  pub request_request-Undoes :
      (r : RequestRequest) (rest : List ℕ)
      → RequestRequestFits r
      → get_request_request w (good (put_request_request w r (put w.signature r.signature rest)))
        ≡ (r, good rest)
  unfolding put_request_request get_request_request
  request_request-Undoes r rest fits =
      simp (laws.key, laws.signature, fits.pub_key, fits.signature) refl

  pub form_request-Undoes :
      (r : FormRequest) (rest : List ℕ)
      → FormRequestFits r
      → get_form_request w (good (put_form_request w r (put w.signature r.signature rest)))
        ≡ (r, good rest)
  unfolding put_form_request get_form_request
  form_request-Undoes r rest fits =
      simp
        (
          laws.key, laws.bytes, terms-Undoes, laws.signature, fits.pub_key, fits.secret_key,
          fits.terms, fits.signature,
        )
        refl

  pub update_request-Undoes :
      (r : UpdateRequest) (rest : List ℕ)
      → UpdateRequestFits r
      → get_update_request w (good (put_update_request w r (put w.signature r.signature rest)))
        ≡ (r, good rest)
  unfolding put_update_request get_update_request
  update_request-Undoes r rest fits =
      simp
        (
          laws.key, laws.revision, laws.signature, laws.currency, fits.pub_key,
          fits.renter_signature, fits.host_signature, fits.uploads, fits.downloads,
          fits.fund_account, fits.signature,
        )
        refl

  pub form_contract_request-Undoes :
      (r : FormContractRequest) (rest : List ℕ)
      → FormContractRequestFits r
      → get_form_contract_request w
          (good (put_form_contract_request w r (put w.signature r.signature rest)))
        ≡ (r, good rest)
  unfolding put_form_contract_request get_form_contract_request
  form_contract_request-Undoes r rest fits =
      simp
        (
          laws.key, laws.word, laws.signature, fits.pub_key, fits.renter_public_key,
          fits.host_public_key, fits.end_height, fits.storage, fits.upload, fits.download,
          fits.min_shards, fits.total_shards, fits.signature,
        )
        refl

  pub renew_contract_request-Undoes :
      (r : RenewContractRequest) (rest : List ℕ)
      → RenewContractRequestFits r
      → get_renew_contract_request w
          (good (put_renew_contract_request w r (put w.signature r.signature rest)))
        ≡ (r, good rest)
  unfolding put_renew_contract_request get_renew_contract_request
  renew_contract_request-Undoes r rest fits =
      simp
        (
          laws.key, laws.word, laws.signature, fits.pub_key, fits.contract, fits.end_height,
          fits.storage, fits.upload, fits.download, fits.min_shards, fits.total_shards,
          fits.signature,
        )
        refl

  pub share_request-Undoes :
      (r : ShareRequest) (rest : List ℕ)
      → ShareRequestFits r
      → get_share_request w (good (put_share_request w r (put w.signature r.signature rest)))
        ≡ (r, good rest)
  unfolding put_share_request get_share_request
  share_request-Undoes r rest fits =
      simp
        (
          laws.key,
          get_list-put_list w laws ContractMetadataFits (put_contract_metadata w)
              (get_contract_metadata w) (contract_metadata-Undoes w laws)
              (contract_metadata-Advances w laws),
          laws.signature,
          fits.pub_key,
          fits.contracts,
          fits.few_contracts,
          fits.signature,
        )
        refl
