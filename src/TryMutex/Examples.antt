-- ===== src/TryMutex/Examples.antt =====
-- A mutex that is held.
use sia_satellite.Prelude.{◌≤◌, ◌≡◌, refl, ◌↔◌, true, false, none, is_some}
use sia_satellite.TryMutex.{
  TryMutex, free_mutex, lock, try_lock, unlock, locked, MutexReached, made, moved, mutex_exclusive,
}

abbrev held_mutex : TryMutex
held_mutex = record { token = false; holders = 1 }

held_mutex-Reached : MutexReached held_mutex
unfolding lock
held_mutex-Reached = moved free_mutex held_mutex made (locked free_mutex held_mutex refl)

mutex_exclusive_example :
    (held_mutex.holders ≤ 1)
    × (((try_lock held_mutex).1 ≡ true) ↔ (held_mutex.holders ≡ 0))
    × ((is_some (lock held_mutex) ≡ true) ↔ (held_mutex.holders ≡ 0))
    × ((unlock held_mutex ≡ none) ↔ (held_mutex.holders ≡ 0))
mutex_exclusive_example = mutex_exclusive held_mutex held_mutex-Reached
