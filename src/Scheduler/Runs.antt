-- ===== src/Scheduler/Runs.antt =====
-- The queue of tasks over the steps of the threads, coroutine/scheduler.cpp.
use c_rpc.Base.{
  ℕ, ◌≡◌, refl, sym, ap, ◌∙◌, List, [], ◌∷◌, ◌++◌, append-nil, append_assoc, Bool-cases, inl, inr,
  arith,
}
use c_rpc.Scheduler.{
  Scheduler, Worker, none_, created, started, testing, taking, empty_handed, leaving, ended, took,
  running, returned, adding, passed, pushing, is_ready, Step, starts, enters, tests, takes, resumes,
  changes, yields, finishes, comes_back, polls, tests_guard, makes, pushes, tests_again, goes_on,
  leaves, calls, frees, wakes, stops, Steps, here, next, start_main, enter, test_stop, take_task,
  resume_task, set_state, yield, finish, take_due, after_resume, poll, test_guard, make_task,
  make_coroutine, push_coroutine, push_task, test_guard_again, go_on, leave, request_stop,
}

-- What a thread has just taken.
abbrev carried : Worker → List ℕ
carried (took i) = i ∷ []
carried none_ = []
carried created = []
carried started = []
carried testing = []
carried taking = []
carried empty_handed = []
carried leaving = []
carried ended = []
carried (running i) = []
carried (returned i) = []
carried (adding cbs again) = []
carried (passed cb cbs again) = []
carried (pushing i cbs again) = []

-- What a step takes from the queue.
unfoldable pub taken_by :
    {may_wake : Scheduler → ℕ → Type 0} {s s' : Scheduler} → Step may_wake s s' → List ℕ
unfolding take_task
taken_by {s = s} (takes t e) = carried ((take_task t s).workers t)
taken_by (starts t e) = []
taken_by (enters t e) = []
taken_by (tests t e) = []
taken_by (resumes t i e) = []
taken_by (changes t i state e) = []
taken_by (yields t i e) = []
taken_by (finishes t i e) = []
taken_by (comes_back t i now e) = []
taken_by (polls t now e) = []
taken_by (tests_guard t cb cbs again e) = []
taken_by (makes t cb cbs again e) = []
taken_by (pushes t i cbs again e) = []
taken_by (tests_again t i e) = []
taken_by (goes_on t e) = []
taken_by (leaves t e) = []
taken_by (calls t cb e) = []
taken_by (frees i w) = []
taken_by (wakes t i e w) = []
taken_by stops = []

-- What a step adds to the queue: the coroutine that addTask has, past its guard.
unfoldable pub added_by :
    {may_wake : Scheduler → ℕ → Type 0} {s s' : Scheduler} → Step may_wake s s' → List ℕ
added_by (pushes t i cbs again e) = i ∷ []
added_by (starts t e) = []
added_by (enters t e) = []
added_by (tests t e) = []
added_by (takes t e) = []
added_by (resumes t i e) = []
added_by (changes t i state e) = []
added_by (yields t i e) = []
added_by (finishes t i e) = []
added_by (comes_back t i now e) = []
added_by (polls t now e) = []
added_by (tests_guard t cb cbs again e) = []
added_by (makes t cb cbs again e) = []
added_by (tests_again t i e) = []
added_by (goes_on t e) = []
added_by (leaves t e) = []
added_by (calls t cb e) = []
added_by (frees i w) = []
added_by (wakes t i e w) = []
added_by stops = []

-- The coroutines that the threads took from the queue in a run, in order.
unfoldable pub taken :
    {may_wake : Scheduler → ℕ → Type 0} {s s' : Scheduler} → Steps may_wake s s' → List ℕ
unfolding taken_by
taken here = []
taken (next run step) = taken run ++ taken_by step

-- The coroutines that addTask pushed, in order.
unfoldable pub added :
    {may_wake : Scheduler → ℕ → Type 0} {s s' : Scheduler} → Steps may_wake s s' → List ℕ
unfolding added_by
added here = []
added (next run step) = added run ++ added_by step

take_task-fifo :
    (t : ℕ) (s : Scheduler)
    → carried ((take_task t s).workers t) ++ (take_task t s).m_tasks ≡ s.m_tasks ++ []
unfolding take_task
take_task-fifo t s = go s.m_tasks refl
  where
    go :
        (q : List ℕ)
        → s.m_tasks ≡ q
        → carried ((take_task t s).workers t) ++ (take_task t s).m_tasks ≡ s.m_tasks ++ []
    go [] e = rw e (ground arith)
    go (i ∷ is) e = rw e (ground (arith, append-nil is))

after_resume-fifo :
    (t i now : ℕ) (s : Scheduler) → (after_resume t i now s).m_tasks ≡ s.m_tasks ++ []
unfolding after_resume take_due
after_resume-fifo t i now s = elim (Bool-cases (is_ready (s.m_state i))) [
  | inl yes_ ↦ rw yes_ (sym (append-nil s.m_tasks))
  | inr no_ ↦ rw no_ (sym (append-nil s.m_tasks))
]

step_fifo :
    (may_wake : Scheduler → ℕ → Type 0) (s s' : Scheduler) (step : Step may_wake s s')
    → taken_by step ++ s'.m_tasks ≡ s.m_tasks ++ added_by step
unfolding taken_by added_by start_main enter test_stop resume_task set_state yield finish take_due
    poll test_guard make_coroutine make_task push_coroutine push_task test_guard_again go_on leave
    request_stop
step_fifo may_wake s s' (takes t e) = take_task-fifo t s
step_fifo may_wake s s' (comes_back t i now e) = after_resume-fifo t i now s
step_fifo may_wake s s' (pushes t i cbs again e) = refl
step_fifo may_wake s s' (starts t e) = sym (append-nil s.m_tasks)
step_fifo may_wake s s' (enters t e) = sym (append-nil s.m_tasks)
step_fifo may_wake s s' (tests t e) = sym (append-nil s.m_tasks)
step_fifo may_wake s s' (resumes t i e) = sym (append-nil s.m_tasks)
step_fifo may_wake s s' (changes t i state e) = sym (append-nil s.m_tasks)
step_fifo may_wake s s' (yields t i e) = sym (append-nil s.m_tasks)
step_fifo may_wake s s' (finishes t i e) = sym (append-nil s.m_tasks)
step_fifo may_wake s s' (polls t now e) = sym (append-nil s.m_tasks)
step_fifo may_wake s s' (tests_guard t cb cbs again e) = sym (append-nil s.m_tasks)
step_fifo may_wake s s' (makes t cb cbs again e) = sym (append-nil s.m_tasks)
step_fifo may_wake s s' (tests_again t i e) = sym (append-nil s.m_tasks)
step_fifo may_wake s s' (goes_on t e) = sym (append-nil s.m_tasks)
step_fifo may_wake s s' (leaves t e) = sym (append-nil s.m_tasks)
step_fifo may_wake s s' (calls t cb e) = sym (append-nil s.m_tasks)
step_fifo may_wake s s' (frees i w) = sym (append-nil s.m_tasks)
step_fifo may_wake s s' (wakes t i e w) = sym (append-nil s.m_tasks)
step_fifo may_wake s s' stops = sym (append-nil s.m_tasks)

-- First in, first out: whatever the threads do, the coroutines that they have taken from the queue, followed
-- by what it holds, are what it held before, followed by those that addTask has pushed, in the order of
-- the pushes. So no task of the queue is passed over, lost or taken twice.
pub first_come :
    (may_wake : Scheduler → ℕ → Type 0) (s s' : Scheduler) (run : Steps may_wake s s')
    → taken run ++ s'.m_tasks ≡ s.m_tasks ++ added run
unfolding taken added
first_come may_wake s s' here = sym (append-nil s.m_tasks)
first_come may_wake s s' (next {s1} run step) =
    append_assoc (taken run) (taken_by step) s'.m_tasks
    ∙ ap (λ q. taken run ++ q) (step_fifo may_wake s1 s' step)
    ∙ sym (append_assoc (taken run) s1.m_tasks (added_by step))
    ∙ ap (λ q. q ++ added_by step) (first_come may_wake s s1 run)
    ∙ append_assoc s.m_tasks (added run) (added_by step)
