-- ===== src/Scheduler/Once.antt =====
-- No coroutine is on two threads of coroutine/scheduler.cpp, as long as none is woken before it is let go.
use c_rpc.Base.{
  ℕ, suc, ◌+◌, ◌-◌, ◌≡◌, refl, sym, List, [], ◌∷◌, Option, none, some, true, false, Bool-cases, inl,
  inr, if◌then◌else◌, ltb, arith,
}
use mathlib.Core.Path.{subst}
use c_rpc.Timer.{get_expired_cbs}
use c_rpc.Scheduler.{
  Scheduler, none_, started, testing, taking, empty_handed, leaving, ended, running, returned,
  adding, passed, pushing, ready, terminated, is_ready, Step, starts, enters, tests, takes, resumes,
  changes, yields, finishes, comes_back, polls, tests_guard, makes, pushes, tests_again, goes_on,
  leaves, calls, frees, wakes, stops, Steps, here, next, start_main, enter, test_stop, take_task,
  resume_task, set_state, yield, finish, take_due, after_resume, poll, test_guard, test_guard_again,
  go_on, leave, request_stop, start_threads, new_scheduler, accepts,
}
use c_rpc.Scheduler.Held.{
  mem, Unique, holds, LetGo, IsOnce, at-IsOnce, frame-IsOnce, get-IsOnce, make_task-IsOnce,
  push_task-IsOnce,
}

take_task-IsOnce : (t : ℕ) (s : Scheduler) → IsOnce s → IsOnce (take_task t s)
unfolding take_task
take_task-IsOnce t s h = go s.m_tasks refl
  where
    go : (q : List ℕ) → s.m_tasks ≡ q → IsOnce (take_task t s)
    go [] eq = rw eq (
        at-IsOnce t empty_handed (record s { m_tasks = [] }) (λ i a. absurd (ground arith)) refl
          (frame-IsOnce s (record s { m_tasks = [] }) (sym eq) refl (omega arith) h))
    go (i ∷ is) eq = rw eq (record {
      unique = (subst Unique eq h.unique).1;
      queued =
          λ j u m. ground (arith, m, eq, (subst Unique eq h.unique).0, h.queued j u, h.queued i u);
      once = λ j u v a b. ground (arith, a, b, eq, h.once j u v, h.queued i u, h.queued i v);
      old = λ j m. ground (arith, m, eq, h.old j);
      held = λ j u a. ground (arith, a, eq, h.held j u, h.old i);
      aparts = λ u. ground (arith, h.aparts u);
    })

take_due-IsOnce :
    (t : ℕ) (again : Option ℕ) (now : ℕ) (s : Scheduler)
    → ((i : ℕ) → holds (adding [] again) i ≡ true → holds (s.workers t) i ≡ true)
    → IsOnce s
    → IsOnce (take_due t again now s)
unfolding take_due
take_due-IsOnce t again now s less h =
    at-IsOnce t (adding (get_expired_cbs now s.m_timer).0 again) timed less refl
      (frame-IsOnce s timed refl refl (omega arith) h)
  where
    timed : Scheduler
    timed = record s { m_timer = (get_expired_cbs now s.m_timer).1 }

after_resume-IsOnce :
    (t i now : ℕ) (s : Scheduler)
    → s.workers t ≡ returned i
    → IsOnce s
    → IsOnce (after_resume t i now s)
unfolding after_resume
after_resume-IsOnce t i now s e h = elim (Bool-cases (is_ready (s.m_state i))) [
  | inl yes_ ↦ rw yes_ (take_due-IsOnce t (some i) now s (λ j a. rw e a) h)
  | inr no_ ↦ rw no_ (at-IsOnce t testing s (λ j a. absurd (ground arith)) refl h)
]

step-IsOnce : (s s' : Scheduler) → Step LetGo s s' → IsOnce s → IsOnce s'
unfolding start_main enter test_stop resume_task set_state yield finish poll test_guard
    test_guard_again go_on leave request_stop LetGo
step-IsOnce s s' (starts t e) h =
    at-IsOnce t started (record s { m_coroutine_id = suc s.m_coroutine_id })
      (λ j a. absurd (ground arith)) refl (frame-IsOnce s _ refl refl (omega arith) h)
step-IsOnce s s' (enters t e) h =
    at-IsOnce t testing (record s { m_running_threads = s.m_running_threads + 1 })
      (λ j a. absurd (ground arith)) refl (frame-IsOnce s _ refl refl (omega arith) h)
step-IsOnce s s' (tests t e) h =
    at-IsOnce t (if s.m_stop then leaving else taking) s (λ j a. absurd (ground arith))
      (ground arith) h
step-IsOnce s s' (takes t e) h = take_task-IsOnce t s h
step-IsOnce s s' (resumes t i e) h = at-IsOnce t (running i) s (λ j a. rw e a) refl h
step-IsOnce s s' (changes t i state e) h =
    frame-IsOnce s (set_state i state s) refl refl (omega arith) h
step-IsOnce s s' (yields t i e) h = at-IsOnce t (returned i) s (λ j a. rw e a) refl h
step-IsOnce s s' (finishes t i e) h =
    at-IsOnce t (returned i) (set_state i terminated s) (λ j a. rw e a) refl
      (frame-IsOnce s (set_state i terminated s) refl refl (omega arith) h)
step-IsOnce s s' (comes_back t i now e) h = after_resume-IsOnce t i now s e h
step-IsOnce s s' (polls t now e) h =
    take_due-IsOnce t none now s (λ i a. absurd (ground (arith, a))) h
step-IsOnce s s' (tests_guard t cb cbs again e) h =
    at-IsOnce t (if accepts s then passed cb cbs again else adding cbs again) s
      (λ j a. ground (arith, a, e)) (ground arith) h
step-IsOnce s s' (makes t cb cbs again e) h = make_task-IsOnce t cb cbs again s e h
step-IsOnce s s' (pushes t i cbs again e) h = push_task-IsOnce t i cbs again s e h
step-IsOnce s s' (tests_again t i e) h =
    at-IsOnce t (if accepts s then pushing i [] none else adding [] none) s
      (λ j a. ground (arith, a, e)) (ground arith) h
step-IsOnce s s' (goes_on t e) h =
    at-IsOnce t (if ltb t s.m_threads then testing else none_) s (λ j a. absurd (ground arith))
      (ground arith) h
step-IsOnce s s' (leaves t e) h =
    at-IsOnce t ended (record s { m_running_threads = s.m_running_threads - 1 })
      (λ j a. absurd (ground arith)) refl (frame-IsOnce s _ refl refl (omega arith) h)
step-IsOnce s s' (calls t cb e) h =
    at-IsOnce t (adding (cb ∷ []) none) s (λ j a. absurd (ground (arith, a))) refl h
step-IsOnce s s' (frees i go) h = frame-IsOnce s (set_state i ready s) refl refl (omega arith) h
step-IsOnce s s' (wakes t i e go) h =
    get-IsOnce t i (adding [] (some i)) s go (λ j a. ground (arith, a)) refl h
step-IsOnce s s' stops h = frame-IsOnce s (request_stop s) refl refl (omega arith) h

steps-IsOnce : (s s' : Scheduler) → Steps LetGo s s' → IsOnce s → IsOnce s'
steps-IsOnce s s' here h = h
steps-IsOnce s s' (next {s1} run step) h = step-IsOnce s1 s' step (steps-IsOnce s s1 run h)

start-IsOnce : (threads : ℕ) → IsOnce (start_threads (new_scheduler threads))
unfolding start_threads new_scheduler
start-IsOnce threads = record {
  unique = tt;
  queued = λ i t m. ground arith;
  once = λ i t u a b. absurd (ground arith);
  old = λ i m. absurd (ground arith);
  held = λ i t a. absurd (ground arith);
  aparts = λ t. ground arith;
}

-- Whatever the threads of a new scheduler do, a coroutine that runs on a thread runs on no other, and is
-- not in the queue either, provided that a coroutine is woken only once it has been let go: when
-- it has yielded, and its thread has dropped it.
pub run_once :
    (threads : ℕ) (s : Scheduler) (i t u : ℕ)
    → Steps LetGo (start_threads (new_scheduler threads)) s
    → s.workers t ≡ running i
    → s.workers u ≡ running i
    → (t ≡ u) × (mem i s.m_tasks ≡ false)
run_once threads s i t u run et eu =
    (ground (arith, inv.once i t u), ground (arith, inv.queued i t))
  where
    inv : IsOnce s
    inv = steps-IsOnce (start_threads (new_scheduler threads)) s run (start-IsOnce threads)
