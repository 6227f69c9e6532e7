-- ===== src/Scheduler/Twice.antt =====
-- A coroutine of coroutine/coroutine.cpp that is woken before it has yielded.
use c_rpc.Base.{ℕ, ◌≡◌, refl, List, [], ◌∷◌, none, some, true, false, arith}
use mathlib.Core.Path.{subst}
use c_rpc.Scheduler.{
  Scheduler, none_, taking, took, running, adding, pushing, ready, blocked, set, at, changes, frees,
  wakes, tests_again, pushes, takes, resumes, Steps, here, next, set_state, test_guard_again,
  push_coroutine, push_task, take_task, resume_task, accepts,
}

-- It has set its state, and the owner of the mutex has set it back and is past the guard of addTask.
abbrev woken : ℕ → ℕ → Scheduler → Scheduler
woken v i s =
    at v (pushing i [] none)
      (at v (adding [] (some i)) (record s { m_state = set (set s.m_state i blocked) i ready }))

test_guard-woken :
    (v i : ℕ) (s : Scheduler)
    → s.m_running_threads ≡ s.m_threads
    → s.m_stop ≡ false
    → test_guard_again v i
        (at v (adding [] (some i)) (record s { m_state = set (set s.m_state i blocked) i ready }))
      ≡ woken v i s
unfolding test_guard_again
test_guard-woken v i s all_run goes_on = rw accepted refl
  where
    accepted : accepts s ≡ true
    accepted = ground arith

-- A coroutine that waits for a mutex puts itself into the queue of the mutex before it yields. If the owner
-- wakes it in between, by a call `v` of addTask, and a thread takes its task, it runs on two threads at
-- once: with the empty queue of a scheduler that is not to stop, all threads run, and any thread is free
-- to take a task.
pub resumed_twice :
    (s : Scheduler) (i t u v : ℕ)
    → s.m_running_threads ≡ s.m_threads
    → s.m_stop ≡ false
    → s.m_tasks ≡ []
    → s.workers t ≡ running i
    → s.workers u ≡ taking
    → s.workers v ≡ none_
    → (s' : Scheduler) × Steps (λ r j. r.workers t ≡ running j) s s'
      × (s'.workers t ≡ running i)
      × (s'.workers u ≡ running i)
unfolding take_task resume_task set_state push_coroutine push_task
resumed_twice s i t u v all_run goes_on empty et eu ev = (
  at u (running i) (at u (took i) (record (at v (adding [] none) (woken v i s)) { m_tasks = [] })),
  next
      (next
        (subst (Steps (λ r j. r.workers t ≡ running j) s) (ap_tasks (s.m_tasks) empty)
          (next guarded (pushes v i [] none (ground arith))))
        (takes u (ground (arith, eu, ev))))
      (resumes u i (ground arith)),
  ground (arith, et, eu, ev),
  ground arith,
)
  where
    ap_tasks :
        (q : List ℕ)
        → q ≡ []
        → push_task v i [] none (record (woken v i s) { m_tasks = q })
          ≡ record (at v (adding [] none) (woken v i s)) { m_tasks = i ∷ [] }
    ap_tasks q e = rw e refl

    guarded : Steps (λ r j. r.workers t ≡ running j) s (woken v i s)
    guarded =
        subst (Steps (λ r j. r.workers t ≡ running j) s) (test_guard-woken v i s all_run goes_on) (
          next (next (next (next here (changes t i blocked et)) (frees i et)) (wakes v i ev et))
            (tests_again v i (ground arith)))
