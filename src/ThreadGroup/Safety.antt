-- ===== src/ThreadGroup/Safety.antt =====
-- internal/sync/threadgroup.go: what Stop promises.
use sia_satellite.Prelude.{ℕ, ◌+◌, ◌≤◌, ◌≡◌, refl, ◌∙◌, subst, true, not, none, arith}
use sia_satellite.ThreadGroup.{
  Phase, running, cancelled, calling_on_stop, waiting, calling_after_stop, finished, ThreadGroup,
  add_thread, Reached,
}
use sia_satellite.ThreadGroup.Invariant.{times, pending, is_running, past_wait}
use sia_satellite.ThreadGroup.Steps.{Reached-Holds}

-- When Stop has returned, every function that OnStop or AfterStop was given has been called as often
-- as it was given, also those that were given while or after Stop ran.
pub finished_called :
    (tg : ThreadGroup) (fn : ℕ)
    → Reached tg
    → tg.phase ≡ finished
    → times fn tg.calls ≡ times fn tg.given
finished_called tg fn r e = omega (
  arith,
  subst (λ p. times fn tg.calls + pending fn p tg.on_stop_fns tg.after_stop_fns ≡ times fn tg.given)
      e ((Reached-Holds tg r).accounted fn),
)

past_wait-stopped : (p : Phase) → past_wait p ≡ true → not (is_running p) ≡ true
past_wait-stopped running e = cc
past_wait-stopped cancelled e = refl
past_wait-stopped (calling_on_stop fns) e = refl
past_wait-stopped waiting e = refl
past_wait-stopped (calling_after_stop fns) e = refl
past_wait-stopped finished e = refl

-- Once Stop is past its wait, no thread is in the group, and no Add lets one in.
pub past_wait-drained :
    (tg : ThreadGroup)
    → Reached tg
    → past_wait tg.phase ≡ true
    → (tg.threads ≡ 0) × (add_thread tg ≡ none)
unfolding add_thread
past_wait-drained tg r e =
    let h = Reached-Holds tg r in
    (h.drained e, rw (h.stopped_phase ∙ past_wait-stopped tg.phase e) refl)

-- No function is called more often than it was given, in any state.
pub calls-given : (tg : ThreadGroup) (fn : ℕ) → Reached tg → times fn tg.calls ≤ times fn tg.given
calls-given tg fn r = omega (arith, (Reached-Holds tg r).accounted fn)
