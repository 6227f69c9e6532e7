-- ===== src/Scheduler/Stop.antt =====
-- What the wait of `stop` in coroutine/scheduler.cpp is for: nothing runs behind it.
use c_rpc.Base.{
  ◌+◌, ◌-◌, ℕ, ◌≡◌, ◌≢◌, refl, sym, ap, ◌∙◌, List, [], ◌∷◌, ◌++◌, Option, none, some, Bool, true,
  false, not, ◌&&◌, Bool-cases, inl, inr, ltb, if◌then◌else◌, count_none, arith,
}
use c_rpc.Scheduler.{
  Scheduler, Worker, none_, created, started, testing, taking, empty_handed, leaving, ended, took,
  running, returned, adding, passed, pushing, at, Step, starts, enters, tests, takes, resumes,
  changes, yields, finishes, comes_back, polls, tests_guard, makes, pushes, tests_again, goes_on,
  leaves, calls, frees, wakes, stops, Steps, here, next, start_main, enter, test_stop, set_state,
  test_guard, make_coroutine, make_task, push_coroutine, push_task, test_guard_again, go_on, leave,
  request_stop, start_threads, new_scheduler, accepts,
}
use c_rpc.Scheduler.Runs.{taken_by, taken, added, first_come}
use c_rpc.Scheduler.Counted.{IsCounted, entered}
use c_rpc.Scheduler.Threads.{steps-IsCounted, start-IsCounted}

-- It has no task from the queue, and is not about to take one.
abbrev idle : Worker → Bool
idle none_ = true
idle created = true
idle started = true
idle testing = true
idle leaving = true
idle ended = true
idle (adding cbs again) = true
idle (passed cb cbs again) = true
idle (pushing i cbs again) = true
idle taking = false
idle empty_handed = false
idle (took i) = false
idle (running i) = false
idle (returned i) = false

-- A call of addTask is past its guard.
abbrev pub past : Worker → Bool
past (passed cb cbs again) = true
past (pushing i cbs again) = true
past none_ = false
past created = false
past started = false
past testing = false
past taking = false
past empty_handed = false
past leaving = false
past ended = false
past (took i) = false
past (running i) = false
past (returned i) = false
past (adding cbs again) = false

-- Since a state whose workers were `then_`.
record IsStopped (then_ : ℕ → Worker) (s : Scheduler) : Type 0 where
  stopped : s.m_stop ≡ true
  idles : (t : ℕ) → idle (s.workers t) ≡ true
  late : (t : ℕ) → past (s.workers t) ≡ true → past (then_ t) ≡ true

at-IsStopped :
    (then_ : ℕ → Worker) (t : ℕ) (w : Worker) (s : Scheduler)
    → idle w ≡ true
    → (past w ≡ true → past (s.workers t) ≡ true)
    → IsStopped then_ s
    → IsStopped then_ (at t w s)
at-IsStopped then_ t w s e p h = record {
  stopped = h.stopped;
  idles = λ u. ground (arith, h.idles u);
  late = λ u a. ground (arith, a, p, h.late u);
}

-- What neither `m_stop` nor the threads show.
frame-IsStopped :
    (then_ : ℕ → Worker) (s s' : Scheduler)
    → s'.m_stop ≡ s.m_stop
    → s'.workers ≡ s.workers
    → IsStopped then_ s
    → IsStopped then_ s'
frame-IsStopped then_ s s' e f h = record {
  stopped = e ∙ h.stopped;
  idles = rw f h.idles;
  late = rw f h.late;
}

refused : (then_ : ℕ → Worker) (s : Scheduler) → IsStopped then_ s → accepts s ≡ false
refused then_ s h = ground (arith, h.stopped)

-- A guard sends the call on.
refused-IsStopped :
    (then_ : ℕ → Worker) (t : ℕ) (w : Worker) (cbs : List ℕ) (again : Option ℕ) (s : Scheduler)
    → IsStopped then_ s
    → IsStopped then_ (at t (if accepts s then w else adding cbs again) s)
refused-IsStopped then_ t w cbs again s h =
    rw (refused then_ s h)
      (at-IsStopped then_ t (adding cbs again) s refl (λ p. absurd (ground (arith, p))) h)

step-IsStopped :
    (may_wake : Scheduler → ℕ → Type 0) (then_ : ℕ → Worker) (s s' : Scheduler)
    → Step may_wake s s'
    → IsStopped then_ s
    → IsStopped then_ s'
unfolding start_main enter test_stop set_state test_guard make_coroutine make_task push_coroutine
    push_task test_guard_again go_on leave request_stop
step-IsStopped may_wake th s s' (starts t e) h =
    at-IsStopped th t started _ refl (λ p. absurd (ground (arith, p)))
      (frame-IsStopped th s _ refl refl h)
step-IsStopped may_wake th s s' (enters t e) h =
    at-IsStopped th t testing (record s { m_running_threads = s.m_running_threads + 1 }) refl
      (λ p. absurd (ground (arith, p))) (frame-IsStopped th s _ refl refl h)
step-IsStopped may_wake th s s' (tests t e) h =
    at-IsStopped th t (if s.m_stop then leaving else taking) s (ground (arith, h.stopped))
      (λ p. ground (arith, p)) h
step-IsStopped may_wake th s s' (takes t e) h = absurd (ground (arith, h.idles t))
step-IsStopped may_wake th s s' (resumes t i e) h = absurd (ground (arith, h.idles t))
step-IsStopped may_wake th s s' (changes t i state e) h = absurd (ground (arith, h.idles t))
step-IsStopped may_wake th s s' (yields t i e) h = absurd (ground (arith, h.idles t))
step-IsStopped may_wake th s s' (finishes t i e) h = absurd (ground (arith, h.idles t))
step-IsStopped may_wake th s s' (comes_back t i now e) h = absurd (ground (arith, h.idles t))
step-IsStopped may_wake th s s' (polls t now e) h = absurd (ground (arith, h.idles t))
step-IsStopped may_wake th s s' (tests_guard t cb cbs again e) h =
    refused-IsStopped th t (passed cb cbs again) cbs again s h
step-IsStopped may_wake th s s' (makes t cb cbs again e) h =
    at-IsStopped th t _ (make_coroutine cb s) refl (λ p. ground (arith, e))
      (frame-IsStopped th s (make_coroutine cb s) refl refl h)
step-IsStopped may_wake th s s' (pushes t i cbs again e) h =
    at-IsStopped th t (adding cbs again) (push_coroutine i s) refl (λ p. absurd (ground (arith, p)))
      (frame-IsStopped th s (push_coroutine i s) refl refl h)
step-IsStopped may_wake th s s' (tests_again t i e) h =
    refused-IsStopped th t (pushing i [] none) [] none s h
step-IsStopped may_wake th s s' (goes_on t e) h =
    at-IsStopped th t (if ltb t s.m_threads then testing else none_) s (ground arith)
      (λ p. ground (arith, p)) h
step-IsStopped may_wake th s s' (leaves t e) h =
    at-IsStopped th t ended (record s { m_running_threads = s.m_running_threads - 1 }) refl
      (λ p. absurd (ground (arith, p))) (frame-IsStopped th s _ refl refl h)
step-IsStopped may_wake th s s' (calls t cb e) h =
    at-IsStopped th t (adding (cb ∷ []) none) s refl (λ p. absurd (ground (arith, p))) h
step-IsStopped may_wake th s s' (frees i w) h = frame-IsStopped th s _ refl refl h
step-IsStopped may_wake th s s' (wakes t i e w) h =
    at-IsStopped th t (adding [] (some i)) s refl (λ p. absurd (ground (arith, p))) h
step-IsStopped may_wake th s s' stops h = frame-IsStopped th s _ (sym h.stopped) refl h

step-untaken :
    (may_wake : Scheduler → ℕ → Type 0) (then_ : ℕ → Worker) (s s' : Scheduler)
    (step : Step may_wake s s')
    → IsStopped then_ s
    → taken_by step ≡ []
unfolding taken_by
step-untaken may_wake th s s' (takes t e) h = absurd (ground (arith, h.idles t))
step-untaken may_wake th s s' (starts t e) h = refl
step-untaken may_wake th s s' (enters t e) h = refl
step-untaken may_wake th s s' (tests t e) h = refl
step-untaken may_wake th s s' (resumes t i e) h = refl
step-untaken may_wake th s s' (changes t i state e) h = refl
step-untaken may_wake th s s' (yields t i e) h = refl
step-untaken may_wake th s s' (finishes t i e) h = refl
step-untaken may_wake th s s' (comes_back t i now e) h = refl
step-untaken may_wake th s s' (polls t now e) h = refl
step-untaken may_wake th s s' (tests_guard t cb cbs again e) h = refl
step-untaken may_wake th s s' (makes t cb cbs again e) h = refl
step-untaken may_wake th s s' (pushes t i cbs again e) h = refl
step-untaken may_wake th s s' (tests_again t i e) h = refl
step-untaken may_wake th s s' (goes_on t e) h = refl
step-untaken may_wake th s s' (leaves t e) h = refl
step-untaken may_wake th s s' (calls t cb e) h = refl
step-untaken may_wake th s s' (frees i w) h = refl
step-untaken may_wake th s s' (wakes t i e w) h = refl
step-untaken may_wake th s s' stops h = refl

steps-IsStopped :
    (may_wake : Scheduler → ℕ → Type 0) (then_ : ℕ → Worker) (s s' : Scheduler)
    (run : Steps may_wake s s')
    → IsStopped then_ s
    → IsStopped then_ s' × (taken run ≡ [])
unfolding taken
steps-IsStopped may_wake then_ s s' here h = (h, refl)
steps-IsStopped may_wake then_ s s' (next {s1} run step) h =
    let (h1, none_taken) = steps-IsStopped may_wake then_ s s1 run h in
    (
      step-IsStopped may_wake then_ s1 s' step h1,
      ap (λ q. q ++ taken_by step) none_taken ∙ step-untaken may_wake then_ s1 s' step h1,
    )

-- A scheduler that is to stop, with no thread in `run`.
all_idle :
    (s : Scheduler)
    → IsCounted s
    → s.m_stop ≡ true
    → s.m_running_threads ≡ 0
    → IsStopped s.workers s
all_idle s h stop_ none_running = record {
  stopped = stop_;
  idles = λ t. elim (Bool-cases (ltb t s.m_threads)) [
    | inl lt ↦ ground (
      arith,
      count_none (λ t. entered (s.workers t)) t s.m_threads (sym h.counted ∙ none_running)
          (ground arith),
    )
    | inr le ↦ ground (arith, h.others t le)
  ];
  late = λ t p. p;
}

-- Once `stop` has seen that no thread is running, nothing runs any more, whatever happens then but a new
-- start: no coroutine is on a thread, and the tasks that are left stay in the queue. Behind them can only
-- come what a call of addTask from elsewhere pushes that was past its guard then; no other passes it.
pub stopped_for_good :
    (may_wake : Scheduler → ℕ → Type 0) (threads : ℕ) (s s' : Scheduler)
    → Steps may_wake (start_threads (new_scheduler threads)) s
    → s.m_stop ≡ true
    → s.m_running_threads ≡ 0
    → (run : Steps may_wake s s')
    → (s'.m_tasks ≡ s.m_tasks ++ added run)
      × ((t i : ℕ) → s'.workers t ≢ running i)
      × ((t : ℕ) → (past (s'.workers t) && not (past (s.workers t))) ≡ false)
stopped_for_good may_wake threads s s' before stop_ none_running run =
    let (inv, none_taken) = steps-IsStopped may_wake s.workers s s' run (
      all_idle s (steps-IsCounted may_wake _ s before (start-IsCounted threads)) stop_
        none_running) in
    (
      ap (λ q. q ++ s'.m_tasks) (sym none_taken) ∙ first_come may_wake s s' run,
      λ t i e. ground (arith, inv.idles t),
      λ t. ground (arith, inv.late t),
    )
