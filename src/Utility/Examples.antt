-- ===== src/Utility/Examples.antt =====
-- The theorems on the utility of contracts at a concrete contractor.
use sia_satellite.Prelude.{
  ◌^◌, ◌≡◌, refl, sym, ◌∙◌, ◌↔◌, ◌⊎◌, inl, inr, true, false, none, some, [], ◌∷◌, arith, Ensures,
  Succeeds, Ensures-some,
}
use sia_satellite.Prelude.Maps.{lookup}
use sia_satellite.Currency.{currency128, currency128-CurrencyLaws}
use sia_satellite.Gouging.Examples.{constants, allowance, settings}
use sia_satellite.Utility.{
  RenterContract, FileContract, ScannedHost, Contractor, is_offline, find_renter, no_utility,
  critical_utility_checks,
}
use sia_satellite.Utility.Usable.{Usable}
use sia_satellite.Utility.Critical.{critical_utility_checks_exact}
use sia_satellite.Utility.Marking.{mark_contract_utility}
use sia_satellite.Utility.Marked.{Recommended}
use sia_satellite.Utility.Outcome.{Marked, mark_contract_utility-Marked}
use sia_satellite.Utility.MinScores.{
  find_min_allowed_host_scores, FromLowest, find_min_allowed_host_scores-FromLowest,
}

abbrev good_host : ScannedHost
good_host = record {
  filtered = false;
  scan_history = false ∷ true ∷ true ∷ [];
  settings = settings;
}

abbrev contract_7 : RenterContract
contract_7 = record {
  id = 7;
  host_public_key = 3;
  end_height = 9000;
  renter_funds = 10 ^ 20;
  total_cost = 10 ^ 20;
  utility = no_utility;
}

abbrev file_contract : FileContract
file_contract = record { metadata = contract_7; revision_number = 12 }

abbrev contractor : Contractor
contractor = record {
  height = 100;
  renewed_to = (6, 7) ∷ [];
  renters = (1, allowance) ∷ [];
  contracts = (7, file_contract) ∷ [];
  db_renter = λ id. some 1;
  renter_by_contract_id = λ id. some 1;
  db_host = λ pk. some good_host;
  score_breakdown = λ host. some 4000;
  random_hosts = λ n a. some (good_host ∷ []);
  fetch_price_table = λ host. none;
  recommended_fee = 3;
  save_fails = λ id. false;
}

contractor-Usable : Usable constants contractor file_contract good_host allowance
unfolding lookup is_offline
contractor-Usable = record {
  not_renewed = refl;
  revisable = omega arith;
  not_bad = refl;
  online = refl;
  early = omega arith;
  funded = record {
    price_fits = omega arith;
    has_cost = omega arith;
    covers = omega arith;
    above = omega arith;
  };
  has_storage = inl refl;
  fair = λ a pt e f. cc;
}

renter_found : find_renter contractor 7 ≡ some allowance
unfolding find_renter lookup
renter_found = refl

contract_found : lookup 7 contractor.contracts ≡ some file_contract
unfolding lookup
contract_found = refl

critical_utility_checks_exact_example :
    (critical_utility_checks currency128 constants contractor file_contract good_host
      ≡ some (no_utility, false))
    ↔ Usable constants contractor file_contract good_host allowance
critical_utility_checks_exact_example =
    critical_utility_checks_exact currency128 currency128-CurrencyLaws constants contractor
      file_contract good_host allowance renter_found

mark_contract_utility-Marked_example :
    Ensures
      (λ r. (r.0 ≡ contractor) ⊎ Marked constants contractor contract_7 file_contract 8 100 r.0)
      (mark_contract_utility currency128 constants contractor contract_7 8 100)
mark_contract_utility-Marked_example =
    mark_contract_utility-Marked currency128 currency128-CurrencyLaws constants contractor
      contract_7 file_contract 8 100 contract_found

contractor-Recommended : Recommended constants contractor contract_7 file_contract 8 100
contractor-Recommended = record {
  host = good_host;
  in_db = refl;
  not_filtered = refl;
  score = 4000;
  scored = refl;
  above_one = omega arith;
  renewable = inr (omega arith);
  uploadable = inr (omega arith);
  usable = λ a e.
      Ensures-some (Usable constants contractor file_contract good_host) (some allowance)
        contractor-Usable (sym renter_found ∙ e);
}

find_min_allowed_host_scores-FromLowest_example :
    Succeeds
      (FromLowest contractor (good_host ∷ []))
      (find_min_allowed_host_scores currency128 contractor 1)
unfolding lookup
find_min_allowed_host_scores-FromLowest_example =
    find_min_allowed_host_scores-FromLowest currency128 currency128-CurrencyLaws contractor 1
      allowance (good_host ∷ []) refl refl
