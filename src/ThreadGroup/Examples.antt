-- ===== src/ThreadGroup/Examples.antt =====
-- A thread group that is given two functions, has a thread, and is stopped.
use sia_satellite.Prelude.{ℕ, ◌≡◌, refl, true, none, some, [], ◌∷◌}
use sia_satellite.ThreadGroup.{
  cancelled, calling_on_stop, waiting, calling_after_stop, finished, Hook, on_stop_hook,
  after_stop_hook, ThreadGroup, new_group, add_thread, append_fn, finish_registration, added, done,
  registering, registered, stop_begun, stop_passed, on_stop_called, on_stop_ended, waited,
  after_stop_called, after_stop_ended, Reached, start, step,
}
use sia_satellite.ThreadGroup.Invariant.{times}
use sia_satellite.ThreadGroup.Safety.{finished_called, past_wait-drained}

abbrev held_by : Hook → ℕ → ThreadGroup → ThreadGroup
held_by hook fn tg = record tg {
  mu = some (record { hook = hook; fn = fn; saw_stopped = tg.stopped });
}

abbrev given_one : ThreadGroup
given_one = append_fn on_stop_hook 5 new_group

abbrev given_two : ThreadGroup
given_two = append_fn after_stop_hook 6 given_one

abbrev with_thread : ThreadGroup
with_thread = record given_two { threads = 1 }

abbrev stopping : ThreadGroup
stopping = record with_thread { stopped = true; phase = cancelled }

abbrev calling : ThreadGroup
calling = record stopping { phase = calling_on_stop (5 ∷ []) }

abbrev called : ThreadGroup
called = record calling { phase = calling_on_stop []; calls = 5 ∷ [] }

abbrev stop_waits : ThreadGroup
stop_waits = record called { phase = waiting; on_stop_fns = [] }

abbrev thread_done : ThreadGroup
thread_done = record stop_waits { threads = 0 }

abbrev calling_last : ThreadGroup
calling_last = record thread_done { phase = calling_after_stop (6 ∷ []) }

abbrev called_last : ThreadGroup
called_last = record calling_last { phase = calling_after_stop []; calls = 6 ∷ 5 ∷ [] }

abbrev stop_returned : ThreadGroup
stop_returned = record called_last { phase = finished; after_stop_fns = [] }

given_two-Reached : Reached given_two
unfolding finish_registration
given_two-Reached =
    step (held_by after_stop_hook 6 given_one) given_two
      (step given_one (held_by after_stop_hook 6 given_one)
        (step (held_by on_stop_hook 5 new_group) given_one
          (step new_group (held_by on_stop_hook 5 new_group) start
            (registering new_group on_stop_hook 5 refl))
          (registered (held_by on_stop_hook 5 new_group) _ refl))
        (registering given_one after_stop_hook 6 refl))
      (registered (held_by after_stop_hook 6 given_one) _ refl)

stop_waits-Reached : Reached stop_waits
unfolding add_thread
stop_waits-Reached =
    step called stop_waits
      (step calling called
        (step stopping calling
          (step with_thread stopping
            (step given_two with_thread given_two-Reached (added given_two with_thread refl refl))
            (stop_begun with_thread refl refl))
          (stop_passed stopping refl refl))
        (on_stop_called calling 5 [] refl))
      (on_stop_ended called refl)

stop_returned-Reached : Reached stop_returned
stop_returned-Reached =
    step called_last stop_returned
      (step calling_last called_last
        (step thread_done calling_last
          (step stop_waits thread_done stop_waits-Reached (done stop_waits 0 refl))
          (waited thread_done refl refl))
        (after_stop_called calling_last 6 [] refl))
      (after_stop_ended called_last refl)

finished_called_example : times 6 stop_returned.calls ≡ times 6 stop_returned.given
finished_called_example = finished_called stop_returned 6 stop_returned-Reached refl

past_wait-drained_example : (stop_returned.threads ≡ 0) × (add_thread stop_returned ≡ none)
past_wait-drained_example = past_wait-drained stop_returned stop_returned-Reached refl
