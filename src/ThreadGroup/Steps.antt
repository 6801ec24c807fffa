-- ===== src/ThreadGroup/Steps.antt =====
-- internal/sync/threadgroup.go: every step keeps the invariant.
use sia_satellite.Prelude.{
  ℕ, suc, ◌+◌, ◌≡◌, refl, sym, ◌∙◌, subst, inl, inr, Bool, true, false, not, none, some, List, [],
  ◌∷◌, ◌++◌, arith, Bool-cases, Ensures, Ensures-some, Ensures-if,
}
use sia_satellite.ThreadGroup.{
  Phase, running, cancelled, calling_on_stop, waiting, calling_after_stop, finished, Hook,
  on_stop_hook, after_stop_hook, Registration, ThreadGroup, new_group, reverse_onto, add_thread,
  append_fn, finish_registration, Step, added, done, flush_begun, flush_ended, registering,
  registered, stop_begun, stop_passed, on_stop_called, on_stop_ended, waited, after_stop_called,
  after_stop_ended, Reached, start, step,
}
use sia_satellite.ThreadGroup.Invariant.{
  times, times-append, times-reverse, pending, early, is_running, past_wait, Holds,
}

new_group-Holds : Holds new_group
new_group-Holds = record {
  accounted = λ fn. omega arith;
  in_time = λ r e s. cc;
  stopped_phase = refl;
  drained = λ e. cc;
}

true_of_not : (b : Bool) → not b ≡ false → b ≡ true
true_of_not true e = refl
true_of_not false e = cc

running-not_past : (p : Phase) → is_running p ≡ true → past_wait p ≡ true → ⊥
running-not_past running e h = cc
running-not_past cancelled e h = cc
running-not_past (calling_on_stop fns) e h = cc
running-not_past waiting e h = cc
running-not_past (calling_after_stop fns) e h = cc
running-not_past finished e h = cc

pending-running :
    (g : ℕ) (p : Phase) (calls on after : List ℕ)
    → is_running p ≡ true
    → times g calls + pending g cancelled on after ≡ times g calls + pending g p on after
pending-running g running calls on after e = refl
pending-running g cancelled calls on after e = cc
pending-running g (calling_on_stop fns) calls on after e = cc
pending-running g waiting calls on after e = cc
pending-running g (calling_after_stop fns) calls on after e = cc
pending-running g finished calls on after e = cc

running-early : (p : Phase) → is_running p ≡ true → early p ≡ true
running-early running e = refl
running-early cancelled e = cc
running-early (calling_on_stop fns) e = cc
running-early waiting e = cc
running-early (calling_after_stop fns) e = cc
running-early finished e = cc

pending-on_stop :
    (g fn : ℕ) (p : Phase) (on after : List ℕ)
    → early p ≡ true
    → pending g p (on ++ (fn ∷ [])) after ≡ times g (fn ∷ []) + pending g p on after
pending-on_stop g fn running on after e = omega (arith, times-append g on (fn ∷ []))
pending-on_stop g fn cancelled on after e = omega (arith, times-append g on (fn ∷ []))
pending-on_stop g fn (calling_on_stop fns) on after e = cc
pending-on_stop g fn waiting on after e = cc
pending-on_stop g fn (calling_after_stop fns) on after e = cc
pending-on_stop g fn finished on after e = cc

pending-after_stop :
    (g fn : ℕ) (p : Phase) (on after : List ℕ)
    → early p ≡ true
    → pending g p on (after ++ (fn ∷ [])) ≡ times g (fn ∷ []) + pending g p on after
pending-after_stop g fn running on after e = omega (arith, times-append g after (fn ∷ []))
pending-after_stop g fn cancelled on after e = omega (arith, times-append g after (fn ∷ []))
pending-after_stop g fn (calling_on_stop fns) on after e = cc
pending-after_stop g fn waiting on after e = cc
pending-after_stop g fn (calling_after_stop fns) on after e = cc
pending-after_stop g fn finished on after e = cc

module _ (tg : ThreadGroup) (h : Holds tg) where
  accounted_at :
      (p : Phase) (fn : ℕ)
      → tg.phase ≡ p
      → times fn tg.calls + pending fn p tg.on_stop_fns tg.after_stop_fns ≡ times fn tg.given
  accounted_at p fn e =
      subst
        (λ q. times fn tg.calls + pending fn q tg.on_stop_fns tg.after_stop_fns ≡ times fn tg.given)
        e (h.accounted fn)

  in_time_at :
      (p : Phase) (r : Registration)
      → tg.phase ≡ p
      → tg.mu ≡ some r
      → r.saw_stopped ≡ false
      → early p ≡ true
  in_time_at p r e m s = subst (λ q. early q ≡ true) e (h.in_time r m s)

  drained_at : (p : Phase) → tg.phase ≡ p → past_wait p ≡ true → tg.threads ≡ 0
  drained_at p e d = h.drained (subst (λ q. past_wait q ≡ true) (sym e) d)

  stopped_at : (p : Phase) → tg.phase ≡ p → tg.stopped ≡ not (is_running p)
  stopped_at p e = subst (λ q. tg.stopped ≡ not (is_running q)) e h.stopped_phase

  running_if : tg.stopped ≡ false → is_running tg.phase ≡ true
  running_if e = true_of_not (is_running tg.phase) (sym h.stopped_phase ∙ e)

  add_thread-Holds : Ensures Holds (add_thread tg)
  unfolding add_thread
  add_thread-Holds =
      Ensures-if Holds tg.stopped _ _ (λ s. tt)
        (λ s. record {
          accounted = h.accounted;
          in_time = h.in_time;
          stopped_phase = h.stopped_phase;
          drained = λ d. absurd (running-not_past tg.phase (running_if s) d);
        })

  registering-Holds :
      (hook : Hook) (fn : ℕ)
      → Holds (record tg { mu = some (record { hook = hook; fn = fn; saw_stopped = tg.stopped }) })
  registering-Holds hook fn = record {
    accounted = h.accounted;
    in_time = λ r e s.
        let saw =
          Ensures-some (λ (q : Registration). q.saw_stopped ≡ tg.stopped)
            (some (record { hook = hook; fn = fn; saw_stopped = tg.stopped })) refl e in
        running-early tg.phase (running_if (sym saw ∙ s));
    stopped_phase = h.stopped_phase;
    drained = h.drained;
  }

  appended-Holds :
      (hook : Hook) (fn : ℕ)
      → early tg.phase ≡ true
      → Holds (append_fn hook fn (record tg { mu = none }))
  appended-Holds on_stop_hook fn e = record {
    accounted = λ g.
        omega
          (arith, h.accounted g, pending-on_stop g fn tg.phase tg.on_stop_fns tg.after_stop_fns e);
    in_time = λ r m s. cc;
    stopped_phase = h.stopped_phase;
    drained = h.drained;
  }
  appended-Holds after_stop_hook fn e = record {
    accounted = λ g.
        omega (
          arith,
          h.accounted g,
          pending-after_stop g fn tg.phase tg.on_stop_fns tg.after_stop_fns e,
        );
    in_time = λ r m s. cc;
    stopped_phase = h.stopped_phase;
    drained = h.drained;
  }

  registered-Holds : (r : Registration) → tg.mu ≡ some r → Holds (finish_registration r tg)
  unfolding finish_registration
  registered-Holds r m = elim (Bool-cases r.saw_stopped) [
    | inl s ↦
        rw (s, finish_registration)
          (record {
            accounted = λ g. omega (arith, h.accounted g);
            in_time = λ q m' s'. cc;
            stopped_phase = h.stopped_phase;
            drained = h.drained;
          })
    | inr s ↦ rw (s, finish_registration) (appended-Holds r.hook r.fn (h.in_time r m s))
  ]

  stop_begun-Holds : tg.stopped ≡ false → Holds (record tg { stopped = true; phase = cancelled })
  stop_begun-Holds e = record {
    accounted = λ g.
        pending-running g tg.phase tg.calls tg.on_stop_fns tg.after_stop_fns (running_if e)
        ∙ h.accounted g;
    in_time = λ r m s. refl;
    stopped_phase = refl;
    drained = λ d. cc;
  }

  stop_passed-Holds :
      tg.phase ≡ cancelled
      → tg.mu ≡ none
      → Holds (record tg { phase = calling_on_stop (reverse_onto tg.on_stop_fns []) })
  stop_passed-Holds e m = record {
    accounted =
        λ fn. omega (arith, accounted_at cancelled fn e, times-reverse fn tg.on_stop_fns []);
    in_time = λ r m' s. let z = sym m ∙ m' in cc;
    stopped_phase = stopped_at cancelled e;
    drained = λ d. cc;
  }

  on_stop_called-Holds :
      (fn : ℕ) (fns : List ℕ)
      → tg.phase ≡ calling_on_stop (fn ∷ fns)
      → Holds (record tg { phase = calling_on_stop fns; calls = fn ∷ tg.calls })
  on_stop_called-Holds fn fns e = record {
    accounted = λ g. omega (arith, accounted_at (calling_on_stop (fn ∷ fns)) g e);
    in_time = λ r m s. in_time_at (calling_on_stop (fn ∷ fns)) r e m s;
    stopped_phase = stopped_at (calling_on_stop (fn ∷ fns)) e;
    drained = λ d. cc;
  }

  on_stop_ended-Holds :
      tg.phase ≡ calling_on_stop [] → Holds (record tg { phase = waiting; on_stop_fns = [] })
  on_stop_ended-Holds e = record {
    accounted = λ g. omega (arith, accounted_at (calling_on_stop []) g e);
    in_time = λ r m s. in_time_at (calling_on_stop []) r e m s;
    stopped_phase = stopped_at (calling_on_stop []) e;
    drained = λ d. cc;
  }

  waited-Holds :
      tg.phase ≡ waiting
      → tg.threads ≡ 0
      → Holds (record tg { phase = calling_after_stop (reverse_onto tg.after_stop_fns []) })
  waited-Holds e z = record {
    accounted = λ g. omega (arith, accounted_at waiting g e, times-reverse g tg.after_stop_fns []);
    in_time = λ r m s. in_time_at waiting r e m s;
    stopped_phase = stopped_at waiting e;
    drained = λ d. z;
  }

  after_stop_called-Holds :
      (fn : ℕ) (fns : List ℕ)
      → tg.phase ≡ calling_after_stop (fn ∷ fns)
      → Holds (record tg { phase = calling_after_stop fns; calls = fn ∷ tg.calls })
  after_stop_called-Holds fn fns e = record {
    accounted = λ g. omega (arith, accounted_at (calling_after_stop (fn ∷ fns)) g e);
    in_time = λ r m s. in_time_at (calling_after_stop (fn ∷ fns)) r e m s;
    stopped_phase = stopped_at (calling_after_stop (fn ∷ fns)) e;
    drained = drained_at (calling_after_stop (fn ∷ fns)) e;
  }

  after_stop_ended-Holds :
      tg.phase ≡ calling_after_stop [] → Holds (record tg { phase = finished; after_stop_fns = [] })
  after_stop_ended-Holds e = record {
    accounted = λ g. omega (arith, accounted_at (calling_after_stop []) g e);
    in_time = λ r m s. in_time_at (calling_after_stop []) r e m s;
    stopped_phase = stopped_at (calling_after_stop []) e;
    drained = drained_at (calling_after_stop []) e;
  }

done-Holds :
    (tg : ThreadGroup) (n : ℕ) → Holds tg → tg.threads ≡ suc n → Holds (record tg { threads = n })
done-Holds tg n h e = record {
  accounted = h.accounted;
  in_time = h.in_time;
  stopped_phase = h.stopped_phase;
  drained = λ d. let z = h.drained d in absurd (omega (arith, z, e));
}

flushing-Holds : (tg : ThreadGroup) (b : Bool) → Holds tg → Holds (record tg { flushing = b })
flushing-Holds tg b h = record {
  accounted = h.accounted;
  in_time = h.in_time;
  stopped_phase = h.stopped_phase;
  drained = h.drained;
}

pub Step-Holds : (tg tg' : ThreadGroup) → Step tg tg' → Holds tg → Holds tg'
Step-Holds _ _ (added tg tg' f e) h = Ensures-some Holds _ (add_thread-Holds tg h) e
Step-Holds _ _ (done tg n e) h = done-Holds tg n h e
Step-Holds _ _ (flush_begun tg f s) h = flushing-Holds tg true h
Step-Holds _ _ (flush_ended tg f z) h = flushing-Holds tg false h
Step-Holds _ _ (registering tg hook fn m) h = registering-Holds tg h hook fn
Step-Holds _ _ (registered tg r m) h = registered-Holds tg h r m
Step-Holds _ _ (stop_begun tg f s) h = stop_begun-Holds tg h s
Step-Holds _ _ (stop_passed tg e m) h = stop_passed-Holds tg h e m
Step-Holds _ _ (on_stop_called tg fn fns e) h = on_stop_called-Holds tg h fn fns e
Step-Holds _ _ (on_stop_ended tg e) h = on_stop_ended-Holds tg h e
Step-Holds _ _ (waited tg e z) h = waited-Holds tg h e z
Step-Holds _ _ (after_stop_called tg fn fns e) h = after_stop_called-Holds tg h fn fns e
Step-Holds _ _ (after_stop_ended tg e) h = after_stop_ended-Holds tg h e

pub Reached-Holds : (tg : ThreadGroup) → Reached tg → Holds tg
Reached-Holds _ start = new_group-Holds
Reached-Holds _ (step tg tg' r s) = Step-Holds tg tg' s (Reached-Holds tg r)
