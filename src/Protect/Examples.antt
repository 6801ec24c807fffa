-- ===== src/Protect/Examples.antt =====
-- The theorems on protect.go at concrete statistics.
use sia_satellite.Prelude.{◌-◌, ◌*◌, ◌≤◌, ◌<◌, max, ◌≡◌, ◌↔◌, true, [], ◌∷◌, arith}
use sia_satellite.Prelude.Maps.{Map, lookup}
use sia_satellite.Protect.{
  AuthenticationStats, failed_login, no_attempts, max_attempts, check_and_update, prune_auth_stats,
}
use sia_satellite.Protect.Limits.{KeyedByHost, known, check_and_update-refuses}
use sia_satellite.Protect.Prune.{Prunes, prune_auth_stats-Prunes}

abbrev busy : AuthenticationStats
busy = record {
  remote_host = 7;
  failed_logins = record { last_attempt = 100000; count = 3 };
  verifications = record { last_attempt = 90000; count = 1 };
  password_resets = no_attempts;
}

abbrev recorded : Map AuthenticationStats
recorded = (7, busy) ∷ []

recorded-KeyedByHost : KeyedByHost recorded
unfolding lookup
recorded-KeyedByHost k s h = ground arith

check_and_update-refuses_example :
    ((check_and_update failed_login 100001 100001 7 recorded).1 ≡ true) ↔ (
      (0 < (known failed_login (lookup 7 recorded)).count)
      × ((known failed_login (lookup 7 recorded)).last_attempt ≤ 100001)
      × (max_attempts * max 1 (100001 - (known failed_login (lookup 7 recorded)).last_attempt)
          ≤ (known failed_login (lookup 7 recorded)).count))
check_and_update-refuses_example = check_and_update-refuses failed_login 100001 100001 7 recorded

prune_auth_stats-Prunes_example :
    Prunes 102000 (lookup 7 recorded) (lookup 7 (prune_auth_stats 102000 recorded))
prune_auth_stats-Prunes_example = prune_auth_stats-Prunes 102000 7 recorded recorded-KeyedByHost
