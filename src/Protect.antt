-- ===== src/Protect.antt =====
-- modules/portal/protect.go: how often an IP address may sign in, ask for a verification link, or
-- reset a password. Addresses are numbers; times are Unix seconds, which are not negative. The float64
-- quotient of a count and a span exceeds 3 exactly when the count exceeds three times the span, as
-- long as both stay below 2^50.
mod Examples
pub mod Limits
pub mod Prune
use sia_satellite.Prelude.{
  ℕ, suc, ◌+◌, ◌-◌, ◌*◌, max, Bool, false, Option, none, some, List, [], ◌∷◌, map, ltb, ◌==◌,
  if◌then◌else◌,
}
use sia_satellite.Prelude.Maps.{Map, lookup}
use sia_satellite.Prelude.Maps

-- authAttempts
pub record AuthAttempts : Type 0 where
  pub last_attempt : ℕ
  pub count : ℕ

-- authenticationStats
pub record AuthenticationStats : Type 0 where
  pub remote_host : ℕ
  pub failed_logins : AuthAttempts
  pub verifications : AuthAttempts
  pub password_resets : AuthAttempts

-- The field that a handler works on.
pub data Activity : Type 0 where
  failed_login verification password_reset : Activity

abbrev pub attempts_of : Activity → AuthenticationStats → AuthAttempts
attempts_of failed_login s = s.failed_logins
attempts_of verification s = s.verifications
attempts_of password_reset s = s.password_resets

abbrev pub with_attempts : Activity → AuthAttempts → AuthenticationStats → AuthenticationStats
with_attempts failed_login a s = record s { failed_logins = a }
with_attempts verification a s = record s { verifications = a }
with_attempts password_reset a s = record s { password_resets = a }

abbrev pub no_attempts : AuthAttempts
no_attempts = record { last_attempt = 0; count = 0 }

abbrev pub fresh_stats : ℕ → AuthenticationStats
fresh_stats host = record {
  remote_host = host;
  failed_logins = no_attempts;
  verifications = no_attempts;
  password_resets = no_attempts;
}

-- maxVerifications, maxFailedLogins and maxPasswordResets
abbrev pub max_attempts : ℕ
max_attempts = 3

-- `float64(count)/float64(span) > max`, where a span of zero is made one, and a span below zero, after
-- the clock was set back, gives a negative quotient.
unfoldable pub too_many : ℕ → ℕ → ℕ → Bool
too_many count last now =
    if now == last
    then ltb max_attempts count
    else if ltb now last
    then false
    else ltb (max_attempts * (now - last)) count

-- The clock is read for the span, and again for the new attempt.
unfoldable pub check_and_update :
    Activity → ℕ → ℕ → ℕ → Map AuthenticationStats → Map AuthenticationStats × Bool
unfolding too_many
check_and_update act now later host m = elim (lookup host m) [
  | none ↦ (
    Maps.insert host
        (with_attempts act (record { last_attempt = later; count = 1 }) (fresh_stats host)) m,
    false,
  )
  | some stats ↦
      if (attempts_of act stats).count == 0
      then (
        Maps.insert host (with_attempts act (record { last_attempt = later; count = 1 }) stats) m,
        false,
      )
      else (
        Maps.insert host
            (with_attempts act
              (record { last_attempt = later; count = suc ((attempts_of act stats).count) }) stats)
            m,
        too_many (suc ((attempts_of act stats).count)) ((attempts_of act stats).last_attempt) now,
      )
]

-- `checkAndUpdateVerifications`
unfoldable pub check_and_update_verifications :
    ℕ → ℕ → ℕ → Map AuthenticationStats → Map AuthenticationStats × Bool
check_and_update_verifications = check_and_update verification

-- `checkAndUpdateFailedLogins`
unfoldable pub check_and_update_failed_logins :
    ℕ → ℕ → ℕ → Map AuthenticationStats → Map AuthenticationStats × Bool
check_and_update_failed_logins = check_and_update failed_login

-- `checkAndUpdatePasswordResets`
unfoldable pub check_and_update_password_resets :
    ℕ → ℕ → ℕ → Map AuthenticationStats → Map AuthenticationStats × Bool
check_and_update_password_resets = check_and_update password_reset

-- authStatsPruneThreshold
abbrev pub prune_threshold : ℕ
prune_threshold = 24 * 3600

-- authStatsCountResetThreshold
abbrev pub reset_threshold : ℕ
reset_threshold = 3600

-- `float64(now - last) > threshold`
abbrev pub older : ℕ → ℕ → ℕ → Bool
older threshold now last = ltb (last + threshold) now

abbrev pub reset_if_idle : ℕ → AuthAttempts → AuthAttempts → AuthAttempts
reset_if_idle now old a =
    if older reset_threshold now old.last_attempt then record a { count = 0 } else a

-- The resets of the three counters of `stats`, by the spans of `entry`.
abbrev pub reset_counters : ℕ → AuthenticationStats → AuthenticationStats → AuthenticationStats
reset_counters now entry stats = record stats {
  failed_logins = reset_if_idle now entry.failed_logins stats.failed_logins;
  verifications = reset_if_idle now entry.verifications stats.verifications;
  password_resets = reset_if_idle now entry.password_resets stats.password_resets;
}

-- The least of the three spans is that of the latest attempt.
abbrev pub expired : ℕ → AuthenticationStats → Bool
expired now entry = older prune_threshold now (
    max (max entry.failed_logins.last_attempt entry.verifications.last_attempt)
      entry.password_resets.last_attempt)

-- `p.authStats[host]`, which is the zero value for a missing key.
abbrev pub stats_or_zero : Option AuthenticationStats → AuthenticationStats
stats_or_zero none = fresh_stats 0
stats_or_zero (some s) = s

-- The body of the loop of `threadedPruneAuthStats`, for one key that is in the map.
unfoldable pub prune_entry :
    ℕ → ℕ → AuthenticationStats → Map AuthenticationStats → Map AuthenticationStats
prune_entry now ip entry m =
    if expired now entry
    then Maps.delete ip m
    else Maps.insert entry.remote_host
        (reset_counters now entry (stats_or_zero (lookup entry.remote_host m))) m

-- A key that is gone when its turn comes is not visited.
unfoldable pub visit : ℕ → ℕ → Map AuthenticationStats → Map AuthenticationStats
unfolding prune_entry
visit now ip m = elim (lookup ip m) [ none ↦ m | some entry ↦ prune_entry now ip entry m ]

unfoldable pub prune_keys : ℕ → List ℕ → Map AuthenticationStats → Map AuthenticationStats
unfolding visit
prune_keys now [] m = m
prune_keys now (ip ∷ ips) m = prune_keys now ips (visit now ip m)

-- One round of `threadedPruneAuthStats`
unfoldable pub prune_auth_stats : ℕ → Map AuthenticationStats → Map AuthenticationStats
unfolding prune_keys
prune_auth_stats now m = prune_keys now (map (λ e. e.0) m) m
