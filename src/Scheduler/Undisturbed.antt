-- ===== src/Scheduler/Undisturbed.antt =====
-- What getTaskFromTimer of coroutine/scheduler.cpp does in steps, when nothing comes between.
use c_rpc.Base.{
  ℕ, suc, ◌≡◌, ap, List, [], ◌∷◌, Option, none, Bool, true, false, Bool-cases, inl, inr,
  if◌then◌else◌, arith,
}
use mathlib.Core.Path.{subst, fun_ext}
use c_rpc.Timer.{get_expired_cbs}
use c_rpc.Scheduler.{
  Scheduler, Worker, empty_handed, adding, passed, pushing, set, at, accepts, make_coroutine,
  make_task, push_coroutine, push_task, add_callback, add_callbacks, get_task_from_timer,
  test_guard, take_due, poll, Steps, here, next, polls, tests_guard, makes, pushes,
}

-- A second move of a thread replaces the first.
at-at : (t : ℕ) (w v : Worker) (s : Scheduler) → at t w (at t v s) ≡ at t w s
at-at t w v s = ap (λ f. record s { workers = f }) (fun_ext (λ u. again u))
  where
    again : (u : ℕ) → set (set s.workers t v) t w u ≡ set s.workers t w u
    again u = ground arith

Steps-trans :
    {may_wake : Scheduler → ℕ → Type 0} {s1 s2 s3 : Scheduler}
    → Steps may_wake s1 s2
    → Steps may_wake s2 s3
    → Steps may_wake s1 s3
Steps-trans run here = run
Steps-trans run (next run' step) = next (Steps-trans run run') step

-- The three steps of addTask for a callback, or the one of its guard.
add_callback-Steps :
    (may_wake : Scheduler → ℕ → Type 0) (t cb : ℕ) (cbs : List ℕ) (again : Option ℕ) (s : Scheduler)
    → Steps may_wake
        (at t (adding (cb ∷ cbs) again) s)
        (at t (adding cbs again) (add_callback cb s).1)
unfolding add_callback
add_callback-Steps may_wake t cb cbs again s = elim (Bool-cases (accepts s)) [
  | inl yes_ ↦ rw (yes_, add_callback) (accepted yes_)
  | inr no_ ↦ rw (no_, add_callback) (refused no_)
]
  where
    begun : Scheduler
    begun = at t (adding (cb ∷ cbs) again) s

    made : Scheduler
    made = push_coroutine (suc s.m_coroutine_id) (make_coroutine cb s)

    begins : begun.workers t ≡ adding (cb ∷ cbs) again
    begins = ground arith

    guarded :
        (b : Bool)
        → accepts s ≡ b
        → test_guard t cb cbs again begun
          ≡ at t (if b then passed cb cbs again else adding cbs again) s
    guarded b e = unfold test_guard in rw e (at-at t _ (adding (cb ∷ cbs) again) s)

    accepted : accepts s ≡ true → Steps may_wake begun (at t (adding cbs again) made)
    accepted e =
        unfold make_task make_coroutine push_task push_coroutine in
        subst (Steps may_wake begun)
          (at-at t (adding cbs again) (pushing (suc s.m_coroutine_id) cbs again) made)
          (next
            (subst (Steps may_wake begun)
              (at-at t (pushing (suc s.m_coroutine_id) cbs again) (passed cb cbs again)
                (make_coroutine cb s))
              (next
                (subst (Steps may_wake begun) (guarded true e)
                  (next here (tests_guard t cb cbs again begins)))
                (makes t cb cbs again (ground arith))))
            (pushes t (suc s.m_coroutine_id) cbs again (ground arith)))

    refused : accepts s ≡ false → Steps may_wake begun (at t (adding cbs again) s)
    refused e =
        subst (Steps may_wake begun) (guarded false e)
          (next here (tests_guard t cb cbs again begins))

add_callbacks-Steps :
    (may_wake : Scheduler → ℕ → Type 0) (t : ℕ) (cbs : List ℕ) (again : Option ℕ) (s : Scheduler)
    → Steps may_wake (at t (adding cbs again) s) (at t (adding [] again) (add_callbacks cbs s))
unfolding add_callbacks
add_callbacks-Steps may_wake t [] again s = here
add_callbacks-Steps may_wake t (cb ∷ cbs) again s =
    Steps-trans (add_callback-Steps may_wake t cb cbs again s)
      (add_callbacks-Steps may_wake t cbs again (add_callback cb s).1)

-- A thread without a task can go through getTaskFromTimer alone, and then has done what the call does
-- that nothing interrupts.
pub get_task_from_timer-Steps :
    (may_wake : Scheduler → ℕ → Type 0) (t now : ℕ) (s : Scheduler)
    → s.workers t ≡ empty_handed
    → Steps may_wake s (at t (adding [] none) (get_task_from_timer now s))
unfolding get_task_from_timer poll take_due
get_task_from_timer-Steps may_wake t now s e = Steps-trans (next here (polls t now e)) (
    add_callbacks-Steps may_wake t (get_expired_cbs now s.m_timer).0 none
      (record s { m_timer = (get_expired_cbs now s.m_timer).1 }))
