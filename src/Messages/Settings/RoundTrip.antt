-- ===== src/Messages/Settings/RoundTrip.antt =====
-- The settings of a renter are read as they were written.
use sia_satellite.Wire.{good, put, Wire, State, WireLaws}
use sia_satellite.Prelude.{ℕ, ◌≡◌, refl, Bool, true, false, List, [], if◌then◌else◌}
use sia_satellite.Messages.Terms.{put_terms, get_terms}
use sia_satellite.Messages.Terms.RoundTrip.{terms-Undoes}
use sia_satellite.Messages.Settings.{
  put_if, get_if, no_terms, put_get_settings_response, UpdateSettingsRequest, wants_account,
  wants_key, put_update_settings_request, get_update_settings_request, UpdateSettingsRequestFits,
  canonical_settings,
}

get_if-put_if :
    {A : Type 0} (b : Bool) (a zero_value : A) (f : A → List ℕ → List ℕ) (p : State A)
    (rest : List ℕ)
    → p (good (f a rest)) ≡ (a, good rest)
    → get_if b p zero_value (good (put_if b (f a) rest)) ≡ (if b then a else zero_value, good rest)
get_if-put_if true a zero_value f p rest h = h
get_if-put_if false a zero_value f p rest h = refl

module _ (w : Wire) (laws : WireLaws w) where
  pub update_settings_request-Undoes :
      (r : UpdateSettingsRequest) (rest : List ℕ)
      → UpdateSettingsRequestFits r
      → get_update_settings_request w
          (good (put_update_settings_request w r (put w.signature r.signature rest)))
        ≡ (canonical_settings r, good rest)
  unfolding put_update_settings_request get_update_settings_request put_get_settings_response
  update_settings_request-Undoes r rest fits =
      let end = put w.signature r.signature rest in
      let renewed = put_if r.settings.auto_renew_contracts (put_terms w r.terms) end in
      let keyed = put_if (wants_account r.settings) (put w.bytes r.account_key) renewed in
      let terms =
        get_if-put_if r.settings.auto_renew_contracts r.terms no_terms (put_terms w) (get_terms w)
          end (terms-Undoes w laws r.terms end fits.terms) in
      let account =
        get_if-put_if (wants_account r.settings) r.account_key [] (put w.bytes) w.bytes.get renewed
          (laws.bytes r.account_key renewed fits.account_key) in
      let private =
        get_if-put_if (wants_key r.settings) r.private_key [] (put w.bytes) w.bytes.get keyed
          (laws.bytes r.private_key keyed fits.private_key) in
      simp
        (laws.key, laws.flag, fits.pub_key, private, account, terms, laws.signature, fits.signature)
        refl
