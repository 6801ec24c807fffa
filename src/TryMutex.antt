-- ===== src/TryMutex.antt =====
-- internal/sync/trymutex.go. The channel of one place holds the token of a free mutex. A goroutine that
-- receives the token holds the mutex; `holders` counts those that do, which the code does not keep.
mod Examples
use sia_satellite.Prelude.{
  ℕ, ◌+◌, ◌-◌, ◌≤◌, ◌<◌, ◌≡◌, refl, ◌↔◌, ◌⊎◌, Bool, true, false, Option, none, some, arith,
  if◌then◌else◌, is_some, Ensures, Ensures-some,
}

pub record TryMutex : Type 0 where
  pub token : Bool
  pub holders : ℕ

abbrev pub free_mutex : TryMutex
free_mutex = record { token = true; holders = 0 }

-- The receive of `Lock`, which blocks without a token: `none`.
unfoldable pub lock : TryMutex → Option TryMutex
lock m = if m.token then some (record { token = false; holders = m.holders + 1 }) else none

-- `TryLock`
unfoldable pub try_lock : TryMutex → TryMutex × Bool
try_lock m =
    if m.token then (record { token = false; holders = m.holders + 1 }, true) else (m, false)

-- `TryLockTimed`: the mutex when it is called, and when the timer fires or a token comes.
unfoldable pub try_lock_timed : TryMutex → TryMutex → TryMutex × Bool
unfolding try_lock
try_lock_timed m later = if m.token then try_lock m else try_lock later

-- The send of `Unlock`, and its panic when the place is taken: `none`.
unfoldable pub unlock : TryMutex → Option TryMutex
unlock m = if m.token then none else some (record { token = true; holders = m.holders - 1 })

-- Who unlocks holds the mutex.
pub data MutexStep : TryMutex → TryMutex → Type 0 where
  locked : (m m' : TryMutex) → lock m ≡ some m' → MutexStep m m'
  tried : (m : TryMutex) → MutexStep m (try_lock m).0
  unlocked : (m m' : TryMutex) → 0 < m.holders → unlock m ≡ some m' → MutexStep m m'

pub data MutexReached : TryMutex → Type 0 where
  made : MutexReached free_mutex
  moved : (m m' : TryMutex) → MutexReached m → MutexStep m m' → MutexReached m'

-- Exactly one of the token and a holder is there.
abbrev pub IsExclusive : TryMutex → Type 0
IsExclusive m = (if m.token then 1 else 0) + m.holders ≡ 1

lock-IsExclusive : (m : TryMutex) → IsExclusive m → Ensures IsExclusive (lock m)
unfolding lock
lock-IsExclusive m h = ground arith

try_lock-IsExclusive : (m : TryMutex) → IsExclusive m → IsExclusive (try_lock m).0
unfolding try_lock
try_lock-IsExclusive m h = ground arith

unlock-IsExclusive : (m : TryMutex) → IsExclusive m → Ensures IsExclusive (unlock m)
unfolding unlock
unlock-IsExclusive m h = ground arith

Reached-IsExclusive : (m : TryMutex) → MutexReached m → IsExclusive m
Reached-IsExclusive _ made = refl
Reached-IsExclusive _ (moved m _ r (locked _ m' e)) =
    Ensures-some IsExclusive _ (lock-IsExclusive m (Reached-IsExclusive m r)) e
Reached-IsExclusive _ (moved m _ r (tried _)) = try_lock-IsExclusive m (Reached-IsExclusive m r)
Reached-IsExclusive _ (moved m _ r (unlocked _ m' p e)) =
    Ensures-some IsExclusive _ (unlock-IsExclusive m (Reached-IsExclusive m r)) e

-- At most one goroutine holds the mutex; TryLock and Lock succeed exactly when none does, and Unlock
-- panics exactly then, so never for the one that holds it.
pub mutex_exclusive :
    (m : TryMutex)
    → MutexReached m
    → (m.holders ≤ 1)
      × (((try_lock m).1 ≡ true) ↔ (m.holders ≡ 0))
      × ((is_some (lock m) ≡ true) ↔ (m.holders ≡ 0))
      × ((unlock m ≡ none) ↔ (m.holders ≡ 0))
unfolding try_lock lock unlock
mutex_exclusive m r = let h = Reached-IsExclusive m r in ground (arith, h)

-- A timed try whose mutex is free, now or in the end, gets it, and else leaves it alone.
pub try_lock_timed_gets :
    (m later : TryMutex)
    → ((try_lock_timed m later).1 ≡ true) ↔ ((m.token ≡ true) ⊎ (later.token ≡ true))
unfolding try_lock_timed
try_lock_timed_gets m later = ground arith
