-- ===== src/Watchdog/Blocks/Changes.antt =====
-- A change of a contract's data that leaves its parents.
use sia_satellite.Prelude.{ℕ, ◌≡◌, inl, inr, Option-cases}
use sia_satellite.Prelude.Maps.{lookup}
use sia_satellite.Watchdog.{ContractStatus, Watchdog, change}
use sia_satellite.Watchdog.Dependencies.{Agrees}
use sia_satellite.Watchdog.Spends.Pruned.{Keeps, put_status-Keeps}

pub change-Agrees :
    (fc : ℕ) (f : ContractStatus → ContractStatus) (w : Watchdog)
    → ((status : ContractStatus) → (f status).parents ≡ status.parents)
    → Agrees w
    → Agrees (change fc f w)
unfolding change
change-Agrees fc f w same a = elim (Option-cases (lookup fc w.contracts)) [
  | inl e ↦ rw (change, e) a
  | inr (status, e) ↦
      rw (change, e) (Keeps.agrees (put_status-Keeps fc status (f status) w e (same status) a))
]
