-- ===== src/ThreadGroup/Invariant.antt =====
-- internal/sync/threadgroup.go: what holds in every state that the goroutines can reach.
use sia_satellite.Prelude.{
  ℕ, ◌+◌, ◌≡◌, Bool, true, false, not, some, List, [], ◌∷◌, ◌++◌, arith, ◌==◌, if◌then◌else◌,
}
use sia_satellite.ThreadGroup.{
  Phase, running, cancelled, calling_on_stop, waiting, calling_after_stop, finished, Registration,
  ThreadGroup, reverse_onto,
}

abbrev pub times : ℕ → List ℕ → ℕ
times fn [] = 0
times fn (x ∷ xs) = (if x == fn then 1 else 0) + times fn xs

pub times-append : (fn : ℕ) (xs ys : List ℕ) → times fn (xs ++ ys) ≡ times fn xs + times fn ys
times-append fn [] ys = omega arith
times-append fn (x ∷ xs) ys = omega (arith, times-append fn xs ys)

pub times-reverse :
    (fn : ℕ) (xs ys : List ℕ) → times fn (reverse_onto xs ys) ≡ times fn xs + times fn ys
times-reverse fn [] ys = omega arith
times-reverse fn (x ∷ xs) ys = omega (arith, times-reverse fn xs (x ∷ ys))

-- How often a function that was given is still to be called.
abbrev pub pending : ℕ → Phase → List ℕ → List ℕ → ℕ
pending fn running on after = times fn on + times fn after
pending fn cancelled on after = times fn on + times fn after
pending fn (calling_on_stop fns) on after = times fn fns + times fn after
pending fn waiting on after = times fn after
pending fn (calling_after_stop fns) on after = times fn fns
pending fn finished on after = 0

-- A phase in which functions are still appended.
abbrev pub early : Phase → Bool
early running = true
early cancelled = true
early _ = false

abbrev pub is_running : Phase → Bool
is_running running = true
is_running _ = false

-- A phase after the wait.
abbrev pub past_wait : Phase → Bool
past_wait (calling_after_stop fns) = true
past_wait finished = true
past_wait _ = false

pub record Holds (tg : ThreadGroup) : Type 0 where
  pub accounted :
      (fn : ℕ)
      → times fn tg.calls + pending fn tg.phase tg.on_stop_fns tg.after_stop_fns ≡ times fn tg.given
  pub in_time : (r : Registration) → tg.mu ≡ some r → r.saw_stopped ≡ false → early tg.phase ≡ true
  pub stopped_phase : tg.stopped ≡ not (is_running tg.phase)
  pub drained : past_wait tg.phase ≡ true → tg.threads ≡ 0
