-- ===== src/Protect/Limits.antt =====
-- modules/portal/protect.go: what one attempt does to the statistics, and when it is refused.
use sia_satellite.Prelude.{
  ℕ, suc, ◌-◌, ◌*◌, ◌≤◌, ◌<◌, max, ◌≡◌, refl, sym, ◌∙◌, ◌↔◌, inl, inr, true, false, Option, none,
  some, arith, ◌==◌, if◌then◌else◌, ==_iff, Bool-cases, Option-cases, Ensures-some, Ensures-of,
  Ensures-if,
}
use sia_satellite.Prelude.Maps.{Map, lookup, lookup-insert}
use sia_satellite.Protect.{
  AuthAttempts, AuthenticationStats, Activity, failed_login, verification, password_reset,
  attempts_of, with_attempts, no_attempts, fresh_stats, max_attempts, too_many, check_and_update,
}

-- Each entry is stored under its own address.
abbrev pub KeyedByHost : Map AuthenticationStats → Type 0
KeyedByHost m = (k : ℕ) (s : AuthenticationStats) → lookup k m ≡ some s → s.remote_host ≡ k

-- The attempts that are known of an address.
abbrev pub known : Activity → Option AuthenticationStats → AuthAttempts
known act none = no_attempts
known act (some s) = attempts_of act s

-- The statistics after an attempt.
abbrev pub after_attempt : Activity → ℕ → ℕ → Option AuthenticationStats → AuthenticationStats
after_attempt act later host o =
    with_attempts act (record { last_attempt = later; count = suc ((known act o).count) })
      (elim o [ none ↦ fresh_stats host | some s ↦ s ])

-- An attempt adds one to its counter and sets its time, in the entry of its address, which is made if
-- there is none; no other entry changes.
pub check_and_update-lookup :
    (act : Activity) (now later host k : ℕ) (m : Map AuthenticationStats)
    → lookup k (check_and_update act now later host m).0
      ≡ (if host == k then some (after_attempt act later host (lookup host m)) else lookup k m)
unfolding check_and_update
check_and_update-lookup act now later host k m = elim (Option-cases (lookup host m)) [
  | inl e ↦ rw (e, check_and_update) (lookup-insert host k _ m)
  | inr (s, e) ↦
      rw (e, check_and_update)
        (elim (Bool-cases ((attempts_of act s).count == 0)) [
          | inl b ↦ rw ((==_iff _ _).0 b) (lookup-insert host k _ m)
          | inr b ↦ rw b (lookup-insert host k _ m)
        ])
]

too_many_exact :
    (n last now : ℕ)
    → (n == 0) ≡ false
    → (too_many (suc n) last now ≡ true)
      ↔ ((0 < n) × (last ≤ now) × (max_attempts * max 1 (now - last) ≤ n))
unfolding too_many
too_many_exact n last now h = ground arith

-- An attempt is refused exactly when the clock was not set back and the count, with this attempt,
-- exceeds three for each second since the last one; the first attempt never is.
pub check_and_update-refuses :
    (act : Activity) (now later host : ℕ) (m : Map AuthenticationStats)
    → ((check_and_update act now later host m).1 ≡ true) ↔ (
        (0 < (known act (lookup host m)).count)
        × ((known act (lookup host m)).last_attempt ≤ now)
        × (max_attempts * max 1 (now - (known act (lookup host m)).last_attempt)
            ≤ (known act (lookup host m)).count))
unfolding check_and_update too_many
check_and_update-refuses act now later host m = elim (Option-cases (lookup host m)) [
  | inl e ↦ rw (e, check_and_update) ((λ h. cc), (λ h. ground arith))
  | inr (s, e) ↦
      rw (e, check_and_update)
        (elim (Bool-cases ((attempts_of act s).count == 0)) [
          | inl b ↦ rw ((==_iff _ _).0 b) ((λ h. cc), (λ h. ground arith))
          | inr b ↦ rw b (too_many_exact (attempts_of act s).count _ now b)
        ])
]

pub attempts_of-with_attempts :
    (act : Activity) (a : AuthAttempts) (s : AuthenticationStats)
    → (attempts_of act (with_attempts act a s) ≡ a)
      × ((with_attempts act a s).remote_host ≡ s.remote_host)
attempts_of-with_attempts failed_login a s = (refl, refl)
attempts_of-with_attempts verification a s = (refl, refl)
attempts_of-with_attempts password_reset a s = (refl, refl)

after_attempt-host :
    (act : Activity) (later host : ℕ) (m : Map AuthenticationStats)
    → KeyedByHost m
    → (after_attempt act later host (lookup host m)).remote_host ≡ host
after_attempt-host act later host m keyed = elim (Option-cases (lookup host m)) [
  | inl e ↦ rw e (attempts_of-with_attempts act _ (fresh_stats host)).1
  | inr (s, e) ↦ rw e ((attempts_of-with_attempts act _ s).1 ∙ keyed host s e)
]

-- An attempt keeps each entry under its own address.
pub check_and_update-KeyedByHost :
    (act : Activity) (now later host : ℕ) (m : Map AuthenticationStats)
    → KeyedByHost m
    → KeyedByHost (check_and_update act now later host m).0
check_and_update-KeyedByHost act now later host m keyed k s e =
    let P : AuthenticationStats → Type 0 = λ t. t.remote_host ≡ k in
    Ensures-some P _
      (Ensures-if P (host == k) _ _
        (λ b. after_attempt-host act later host m keyed ∙ (==_iff host k).0 b)
        (λ b. Ensures-of P (lookup k m) (keyed k)))
      (sym (check_and_update-lookup act now later host k m) ∙ e)
