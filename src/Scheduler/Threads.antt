-- ===== src/Scheduler/Threads.antt =====
-- The number of threads in `run`, `m_runningThreads` of coroutine/scheduler.cpp.
use c_rpc.Base.{
  ℕ, zero, suc, ◌≡◌, refl, sym, List, [], ◌∷◌, Option, none, some, true, Bool-cases, inl, inr, ltb,
  if◌then◌else◌, count, count_change, arith,
}
use c_rpc.Timer.{get_expired_cbs}
use c_rpc.Scheduler.{
  Scheduler, none_, created, started, testing, taking, empty_handed, leaving, ended, took, running,
  returned, adding, passed, pushing, terminated, is_ready, set, Step, starts, enters, tests, takes,
  resumes, changes, yields, finishes, comes_back, polls, tests_guard, makes, pushes, tests_again,
  goes_on, leaves, calls, frees, wakes, stops, Steps, here, next, start_main, enter, test_stop,
  take_task, resume_task, set_state, yield, finish, take_due, after_resume, poll, test_guard,
  make_coroutine, make_task, push_coroutine, push_task, test_guard_again, go_on, leave,
  request_stop, start_threads, new_scheduler, accepts,
}
use c_rpc.Scheduler.Counted.{
  entered, IsCounted, at-IsCounted, loop-IsCounted, call-IsCounted, begin-IsCounted, in_range,
  guard-IsCounted,
}

start_main-IsCounted :
    (t : ℕ) (s : Scheduler) → s.workers t ≡ created → IsCounted s → IsCounted (start_main t s)
unfolding start_main
start_main-IsCounted t s e h =
    at-IsCounted t started (record s { m_coroutine_id = suc s.m_coroutine_id }) (λ lt. rw e refl)
      (λ lt. refl) (λ le. absurd (ground (arith, e, h.others t le)))
      (record { counted = h.counted; threads = h.threads; others = h.others })

enter-IsCounted :
    (t : ℕ) (s : Scheduler) → s.workers t ≡ started → IsCounted s → IsCounted (enter t s)
unfolding enter
enter-IsCounted t s e h = record {
  counted = omega (
    arith,
    h.counted,
    count_change (λ i. entered (s.workers i)) (λ i. entered (set s.workers t testing i)) t
        s.m_threads (in_range t s h (ground arith)) (λ i ne. ground arith) (ground arith)
        (ground arith),
  );
  threads = λ i lt. ground (arith, h.threads i lt);
  others = λ i le. ground (arith, h.others i le, h.others t);
}

leave-IsCounted :
    (t : ℕ) (s : Scheduler) → s.workers t ≡ leaving → IsCounted s → IsCounted (leave t s)
unfolding leave
leave-IsCounted t s e h = record {
  counted = omega (
    arith,
    h.counted,
    count_change (λ i. entered (set s.workers t ended i)) (λ i. entered (s.workers i)) t s.m_threads
        (in_range t s h (ground arith)) (λ i ne. ground arith) (ground arith) (ground arith),
  );
  threads = λ i lt. ground (arith, h.threads i lt);
  others = λ i le. ground (arith, h.others i le, h.others t);
}

take_task-IsCounted :
    (t : ℕ) (s : Scheduler) → s.workers t ≡ taking → IsCounted s → IsCounted (take_task t s)
unfolding take_task
take_task-IsCounted t s e h = go s.m_tasks refl
  where
    go : (q : List ℕ) → s.m_tasks ≡ q → IsCounted (take_task t s)
    go [] eq = rw eq (
        loop-IsCounted t empty_handed (record s { m_tasks = [] }) (rw e refl) (rw e refl) refl refl
          (record { counted = h.counted; threads = h.threads; others = h.others }))
    go (i ∷ is) eq = rw eq (
        loop-IsCounted t (took i) (record s { m_tasks = is }) (rw e refl) (rw e refl) refl refl
          (record { counted = h.counted; threads = h.threads; others = h.others }))

take_due-IsCounted :
    (t : ℕ) (again : Option ℕ) (now : ℕ) (s : Scheduler)
    → entered (s.workers t) ≡ true
    → IsCounted s
    → IsCounted (take_due t again now s)
unfolding take_due
take_due-IsCounted t again now s was h =
    call-IsCounted t (adding (get_expired_cbs now s.m_timer).0 again)
      (record s { m_timer = (get_expired_cbs now s.m_timer).1 }) was refl refl refl
      (record { counted = h.counted; threads = h.threads; others = h.others })

after_resume-IsCounted :
    (t i now : ℕ) (s : Scheduler)
    → s.workers t ≡ returned i
    → IsCounted s
    → IsCounted (after_resume t i now s)
unfolding after_resume
after_resume-IsCounted t i now s e h = elim (Bool-cases (is_ready (s.m_state i))) [
  | inl yes_ ↦ rw yes_ (take_due-IsCounted t (some i) now s (rw e refl) h)
  | inr no_ ↦ rw no_ (loop-IsCounted t testing s (rw e refl) (rw e refl) refl refl h)
]

step-IsCounted :
    (may_wake : Scheduler → ℕ → Type 0) (s s' : Scheduler)
    → Step may_wake s s'
    → IsCounted s
    → IsCounted s'
unfolding test_stop resume_task set_state yield finish poll test_guard make_coroutine make_task
    push_coroutine push_task test_guard_again go_on request_stop
step-IsCounted may_wake s s' (starts t e) h = start_main-IsCounted t s e h
step-IsCounted may_wake s s' (enters t e) h = enter-IsCounted t s e h
step-IsCounted may_wake s s' (tests t e) h =
    loop-IsCounted t (if s.m_stop then leaving else taking) s (rw e refl) (rw e refl) (ground arith)
      (ground arith) h
step-IsCounted may_wake s s' (takes t e) h = take_task-IsCounted t s e h
step-IsCounted may_wake s s' (resumes t i e) h =
    loop-IsCounted t (running i) s (rw e refl) (rw e refl) refl refl h
step-IsCounted may_wake s s' (changes t i state e) h = record {
  counted = h.counted;
  threads = h.threads;
  others = h.others;
}
step-IsCounted may_wake s s' (yields t i e) h =
    loop-IsCounted t (returned i) s (rw e refl) (rw e refl) refl refl h
step-IsCounted may_wake s s' (finishes t i e) h =
    loop-IsCounted t (returned i) (set_state i terminated s) (rw e refl) (rw e refl) refl refl
      (record { counted = h.counted; threads = h.threads; others = h.others })
step-IsCounted may_wake s s' (comes_back t i now e) h = after_resume-IsCounted t i now s e h
step-IsCounted may_wake s s' (polls t now e) h = take_due-IsCounted t none now s (rw e refl) h
step-IsCounted may_wake s s' (tests_guard t cb cbs again e) h =
    guard-IsCounted t (accepts s) (passed cb cbs again) (adding cbs again) s (rw e refl)
      (refl, refl, refl) (refl, refl, refl) h
step-IsCounted may_wake s s' (makes t cb cbs again e) h =
    call-IsCounted t (pushing (suc s.m_coroutine_id) cbs again) (make_coroutine cb s) (rw e refl)
      refl refl refl (record { counted = h.counted; threads = h.threads; others = h.others })
step-IsCounted may_wake s s' (pushes t i cbs again e) h =
    call-IsCounted t (adding cbs again) (push_coroutine i s) (rw e refl) refl refl refl
      (record { counted = h.counted; threads = h.threads; others = h.others })
step-IsCounted may_wake s s' (tests_again t i e) h =
    guard-IsCounted t (accepts s) (pushing i [] none) (adding [] none) s (rw e refl)
      (refl, refl, refl) (refl, refl, refl) h
step-IsCounted may_wake s s' (goes_on t e) h =
    at-IsCounted t (if ltb t s.m_threads then testing else none_) s (λ lt. rw (e, lt) refl)
      (λ lt. rw lt refl) (λ le. rw le refl) h
step-IsCounted may_wake s s' (leaves t e) h = leave-IsCounted t s e h
step-IsCounted may_wake s s' (calls t cb e) h = begin-IsCounted t (adding (cb ∷ []) none) s e refl h
step-IsCounted may_wake s s' (frees i w) h = record {
  counted = h.counted;
  threads = h.threads;
  others = h.others;
}
step-IsCounted may_wake s s' (wakes t i e w) h = begin-IsCounted t (adding [] (some i)) s e refl h
step-IsCounted may_wake s s' stops h = record {
  counted = h.counted;
  threads = h.threads;
  others = h.others;
}

pub steps-IsCounted :
    (may_wake : Scheduler → ℕ → Type 0) (s s' : Scheduler)
    → Steps may_wake s s'
    → IsCounted s
    → IsCounted s'
steps-IsCounted may_wake s s' here h = h
steps-IsCounted may_wake s s' (next {s1} run step) h =
    step-IsCounted may_wake s1 s' step (steps-IsCounted may_wake s s1 run h)

count_created :
    (threads n : ℕ) → count (λ t. entered (if ltb t threads then created else none_)) n ≡ 0
count_created threads zero = refl
count_created threads (suc n) = ground (arith, count_created threads n)

pub start-IsCounted : (threads : ℕ) → IsCounted (start_threads (new_scheduler threads))
unfolding start_threads new_scheduler
start-IsCounted threads = record {
  counted = sym (count_created threads threads);
  threads = λ t lt. ground arith;
  others = λ t le. ground arith;
}
