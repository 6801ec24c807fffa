-- ===== src/ThreadGroup.antt =====
-- internal/sync/threadgroup.go and trymutex.go, as steps of the goroutines that share them. A method
-- is split where it blocks or lets go of a lock: a step that would block is not there. Functions are
-- told apart by numbers; `calls` lists those that have been called, and `given` those that OnStop and
-- AfterStop were given, which the code does not keep.
mod Examples
pub mod Invariant
pub mod Steps
pub mod Safety
use sia_satellite.Prelude.{
  ℕ, suc, ◌+◌, ◌≡◌, Bool, true, false, Option, none, some, List, [], ◌∷◌, ◌++◌, if◌then◌else◌,
}

-- Where the call of Stop is that found the group running.
pub data Phase : Type 0 where
  running cancelled : Phase
  calling_on_stop : List ℕ → Phase
  waiting : Phase
  calling_after_stop : List ℕ → Phase
  finished : Phase

pub data Hook : Type 0 where
  on_stop_hook after_stop_hook : Hook

-- A call of OnStop or AfterStop that holds `mu`, and whether it saw the group stopped.
pub record Registration : Type 0 where
  pub hook : Hook
  pub fn : ℕ
  pub saw_stopped : Bool

pub record ThreadGroup : Type 0 where
  pub on_stop_fns : List ℕ
  pub after_stop_fns : List ℕ
  pub mu : Option Registration
  pub stopped : Bool
  pub flushing : Bool
  pub threads : ℕ
  pub phase : Phase
  pub calls : List ℕ
  pub given : List ℕ

abbrev pub new_group : ThreadGroup
new_group = record {
  on_stop_fns = [];
  after_stop_fns = [];
  mu = none;
  stopped = false;
  flushing = false;
  threads = 0;
  phase = running;
  calls = [];
  given = [];
}

abbrev pub reverse_onto : List ℕ → List ℕ → List ℕ
reverse_onto [] ys = ys
reverse_onto (x ∷ xs) ys = reverse_onto xs (x ∷ ys)

-- `Add`: the error of a stopped group is `none`.
unfoldable pub add_thread : ThreadGroup → Option ThreadGroup
add_thread tg = if tg.stopped then none else some (record tg { threads = tg.threads + 1 })

-- `tg.onStopFns = append(tg.onStopFns, fn)`, and the same for AfterStop.
abbrev pub append_fn : Hook → ℕ → ThreadGroup → ThreadGroup
append_fn on_stop_hook fn tg = record tg {
  on_stop_fns = tg.on_stop_fns ++ (fn ∷ []);
  given = fn ∷ tg.given;
}
append_fn after_stop_hook fn tg = record tg {
  after_stop_fns = tg.after_stop_fns ++ (fn ∷ []);
  given = fn ∷ tg.given;
}

-- The rest of `OnStop` or `AfterStop`, once it holds `mu` and has looked at the context.
unfoldable pub finish_registration : Registration → ThreadGroup → ThreadGroup
finish_registration r tg =
    if r.saw_stopped
    then record tg { mu = none; calls = r.fn ∷ tg.calls; given = r.fn ∷ tg.given }
    else append_fn r.hook r.fn (record tg { mu = none })

pub data Step : ThreadGroup → ThreadGroup → Type 0 where
  -- Add takes `bmu`, which a Flush holds while it waits.
  added : (tg tg' : ThreadGroup) → tg.flushing ≡ false → add_thread tg ≡ some tg' → Step tg tg'
  done : (tg : ThreadGroup) (n : ℕ) → tg.threads ≡ suc n → Step tg (record tg { threads = n })
  flush_begun :
      (tg : ThreadGroup)
      → tg.flushing ≡ false
      → tg.stopped ≡ false
      → Step tg (record tg { flushing = true })
  flush_ended :
      (tg : ThreadGroup)
      → tg.flushing ≡ true
      → tg.threads ≡ 0
      → Step tg (record tg { flushing = false })
  registering :
      (tg : ThreadGroup) (hook : Hook) (fn : ℕ)
      → tg.mu ≡ none
      → Step tg
          (record tg { mu = some (record { hook = hook; fn = fn; saw_stopped = tg.stopped }) })
  registered :
      (tg : ThreadGroup) (r : Registration) → tg.mu ≡ some r → Step tg (finish_registration r tg)
  -- The steps of Stop.
  stop_begun :
      (tg : ThreadGroup)
      → tg.flushing ≡ false
      → tg.stopped ≡ false
      → Step tg (record tg { stopped = true; phase = cancelled })
  stop_passed :
      (tg : ThreadGroup)
      → tg.phase ≡ cancelled
      → tg.mu ≡ none
      → Step tg (record tg { phase = calling_on_stop (reverse_onto tg.on_stop_fns []) })
  on_stop_called :
      (tg : ThreadGroup) (fn : ℕ) (fns : List ℕ)
      → tg.phase ≡ calling_on_stop (fn ∷ fns)
      → Step tg (record tg { phase = calling_on_stop fns; calls = fn ∷ tg.calls })
  on_stop_ended :
      (tg : ThreadGroup)
      → tg.phase ≡ calling_on_stop []
      → Step tg (record tg { phase = waiting; on_stop_fns = [] })
  waited :
      (tg : ThreadGroup)
      → tg.phase ≡ waiting
      → tg.threads ≡ 0
      → Step tg (record tg { phase = calling_after_stop (reverse_onto tg.after_stop_fns []) })
  after_stop_called :
      (tg : ThreadGroup) (fn : ℕ) (fns : List ℕ)
      → tg.phase ≡ calling_after_stop (fn ∷ fns)
      → Step tg (record tg { phase = calling_after_stop fns; calls = fn ∷ tg.calls })
  after_stop_ended :
      (tg : ThreadGroup)
      → tg.phase ≡ calling_after_stop []
      → Step tg (record tg { phase = finished; after_stop_fns = [] })

pub data Reached : ThreadGroup → Type 0 where
  start : Reached new_group
  step : (tg tg' : ThreadGroup) → Reached tg → Step tg tg' → Reached tg'
