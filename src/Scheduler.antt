-- ===== src/Scheduler.antt =====
-- `Scheduler` of coroutine/scheduler.cpp and the states of `Coroutine` of coroutine/coroutine.cpp: what the
-- threads of the scheduler, and the coroutines that they run, do from one access of what is shared to
-- the next is one step, in addTask its guard, the coroutine that it makes, and the push. The two reads of
-- that guard are one step. The switch of contexts is `resume_task` and `yield`.
pub mod Runs
pub mod Counted
pub mod Threads
pub mod Stop
pub mod Undisturbed
pub mod Due
pub mod Lost
pub mod Held
pub mod Once
pub mod Twice
mod Examples
use c_rpc.Base.{
  ℕ, suc, ◌+◌, ◌-◌, ◌≡◌, List, [], ◌∷◌, ◌++◌, Option, none, some, Bool, true, false, not, ◌==◌, ltb,
  ◌&&◌, if◌then◌else◌,
}
use c_rpc.Timer.{Timer, get_expired_cbs, new_timer}

pub data State : Type 0 where
  ready blocked waiting terminated : State

-- Where a thread is in `run`. `started`: it has its main coroutine. `testing`: at the head of the loop.
-- `took`: it has a coroutine from the queue. `running`: the coroutine runs on it. `returned`: the coroutine
-- has come back. `adding`: it adds what the timer gave, and then, if there is one, the coroutine that has
-- come back; `passed`: it is past the guard for a callback, and `pushing`: has a coroutine to push.
-- `leaving`: behind the loop. The numbers of the threads end at `m_threads`; those behind are calls of
-- addTask from elsewhere, `none_` if there is none at present.
pub data Worker : Type 0 where
  none_ created started testing taking empty_handed leaving ended : Worker
  took running returned : ℕ → Worker
  adding : List ℕ → Option ℕ → Worker
  passed pushing : ℕ → List ℕ → Option ℕ → Worker

-- A coroutine is its id, the value of the global counter `m_coroutine_id` when it was made; a callback is
-- known by a number, that of its event for one of the timer.
pub record Scheduler : Type 0 where
  pub m_stop : Bool
  pub m_threads : ℕ
  pub m_running_threads : ℕ
  pub m_tasks : List ℕ
  pub m_timer : Timer
  pub m_coroutine_id : ℕ
  pub m_state : ℕ → State
  pub m_cb : ℕ → ℕ
  pub workers : ℕ → Worker

abbrev pub set {ℓ} : {A : Type ℓ} → (ℕ → A) → ℕ → A → ℕ → A
set f key value i = if i == key then value else f i

unfoldable pub new_scheduler : ℕ → Scheduler
new_scheduler threads = record {
  m_stop = true;
  m_threads = threads;
  m_running_threads = 0;
  m_tasks = [];
  m_timer = new_timer;
  m_coroutine_id = 0;
  m_state = λ i. ready;
  m_cb = λ i. 0;
  workers = λ t. none_;
}

-- start, where the threads of an earlier start have ended.
unfoldable pub start_threads : Scheduler → Scheduler
start_threads s = if not s.m_stop then s else record s {
  m_stop = false;
  workers = λ t. if ltb t s.m_threads then created else s.workers t;
}

-- stop, up to its wait for the threads.
unfoldable pub request_stop : Scheduler → Scheduler
request_stop s = record s { m_stop = true }

-- The guard of addTask.
abbrev pub accepts : Scheduler → Bool
accepts s = (s.m_running_threads == s.m_threads) && not s.m_stop

-- The coroutine that addTask makes for a callback.
unfoldable pub make_coroutine : ℕ → Scheduler → Scheduler
make_coroutine cb s = record s {
  m_coroutine_id = suc s.m_coroutine_id;
  m_state = set s.m_state (suc s.m_coroutine_id) ready;
  m_cb = set s.m_cb (suc s.m_coroutine_id) cb;
}

-- What addTask does under its lock.
unfoldable pub push_coroutine : ℕ → Scheduler → Scheduler
push_coroutine i s = record s { m_tasks = s.m_tasks ++ i ∷ [] }

-- addTask of a callback, when nothing comes between.
unfoldable pub add_callback : ℕ → Scheduler → Bool × Scheduler
unfolding make_coroutine push_coroutine
add_callback cb s =
    if not (accepts s)
    then (false, s)
    else (true, push_coroutine (suc s.m_coroutine_id) (make_coroutine cb s))

unfoldable pub add_callbacks : List ℕ → Scheduler → Scheduler
add_callbacks [] s = s
add_callbacks (cb ∷ cbs) s = add_callbacks cbs (add_callback cb s).1

-- getTaskFromTimer, at the time `now`, when nothing comes between.
unfoldable pub get_task_from_timer : ℕ → Scheduler → Scheduler
get_task_from_timer now s =
    let (cbs, m_timer) = get_expired_cbs now s.m_timer in
    add_callbacks cbs (record s { m_timer = m_timer })

abbrev pub at : ℕ → Worker → Scheduler → Scheduler
at t w s = record s { workers = set s.workers t w }

-- Coroutine::StartCoroutine, whose main coroutine takes a number, too.
unfoldable pub start_main : ℕ → Scheduler → Scheduler
start_main t s = at t started (record s { m_coroutine_id = suc s.m_coroutine_id })

-- run, from there up to its loop.
unfoldable pub enter : ℕ → Scheduler → Scheduler
enter t s = at t testing (record s { m_running_threads = s.m_running_threads + 1 })

unfoldable pub test_stop : ℕ → Scheduler → Scheduler
test_stop t s = at t (if s.m_stop then leaving else taking) s

unfoldable pub take_task : ℕ → Scheduler → Scheduler
take_task t s = elim s.m_tasks [
  | [] ↦ at t empty_handed s
  | first ∷ others ↦ at t (took first) (record s { m_tasks = others })
]

-- Coroutine::resume
unfoldable pub resume_task : ℕ → ℕ → Scheduler → Scheduler
resume_task t i s = at t (running i) s

-- Coroutine::setState
unfoldable pub set_state : ℕ → State → Scheduler → Scheduler
set_state i state s = record s { m_state = set s.m_state i state }

-- Coroutine::yield
unfoldable pub yield : ℕ → ℕ → Scheduler → Scheduler
yield t i s = at t (returned i) s

-- The end of Coroutine::MainFunc.
unfoldable pub finish : ℕ → ℕ → Scheduler → Scheduler
unfolding set_state yield
finish t i s = yield t i (set_state i terminated s)

abbrev pub is_ready : State → Bool
is_ready ready = true
is_ready blocked = false
is_ready waiting = false
is_ready terminated = false

-- What the timer hands out is to be added, and then perhaps a coroutine.
unfoldable pub take_due : ℕ → Option ℕ → ℕ → Scheduler → Scheduler
take_due t again now s =
    let (cbs, m_timer) = get_expired_cbs now s.m_timer in
    at t (adding cbs again) (record s { m_timer = m_timer })

-- What `run` does with a coroutine that has come back.
unfoldable pub after_resume : ℕ → ℕ → ℕ → Scheduler → Scheduler
unfolding take_due
after_resume t i now s =
    if is_ready (s.m_state i) then take_due t (some i) now s else at t testing s

-- What it does without a task.
unfoldable pub poll : ℕ → ℕ → Scheduler → Scheduler
unfolding take_due
poll t now s = take_due t none now s

-- The guard of addTask for a callback.
unfoldable pub test_guard : ℕ → ℕ → List ℕ → Option ℕ → Scheduler → Scheduler
test_guard t cb cbs again s = at t (if accepts s then passed cb cbs again else adding cbs again) s

unfoldable pub make_task : ℕ → ℕ → List ℕ → Option ℕ → Scheduler → Scheduler
unfolding make_coroutine
make_task t cb cbs again s = at t (pushing (suc s.m_coroutine_id) cbs again) (make_coroutine cb s)

unfoldable pub push_task : ℕ → ℕ → List ℕ → Option ℕ → Scheduler → Scheduler
unfolding push_coroutine
push_task t i cbs again s = at t (adding cbs again) (push_coroutine i s)

-- The guard of addTask for a coroutine.
unfoldable pub test_guard_again : ℕ → ℕ → Scheduler → Scheduler
test_guard_again t i s = at t (if accepts s then pushing i [] none else adding [] none) s

-- All has been added.
unfoldable pub go_on : ℕ → Scheduler → Scheduler
go_on t s = at t (if ltb t s.m_threads then testing else none_) s

-- The end of the thread.
unfoldable pub leave : ℕ → Scheduler → Scheduler
leave t s = at t ended (record s { m_running_threads = s.m_running_threads - 1 })

-- A step of a thread, of the coroutine that runs on it, or of a call of addTask from elsewhere. To wake a
-- coroutine is to set its state and to add it; `may_wake` says which are woken when.
pub data Step (may_wake : Scheduler → ℕ → Type 0) (s : Scheduler) : Scheduler → Type 0 where
  starts : (t : ℕ) → s.workers t ≡ created → Step may_wake s (start_main t s)
  enters : (t : ℕ) → s.workers t ≡ started → Step may_wake s (enter t s)
  tests : (t : ℕ) → s.workers t ≡ testing → Step may_wake s (test_stop t s)
  takes : (t : ℕ) → s.workers t ≡ taking → Step may_wake s (take_task t s)
  resumes : (t i : ℕ) → s.workers t ≡ took i → Step may_wake s (resume_task t i s)
  changes :
      (t i : ℕ) (state : State) → s.workers t ≡ running i → Step may_wake s (set_state i state s)
  yields : (t i : ℕ) → s.workers t ≡ running i → Step may_wake s (yield t i s)
  finishes : (t i : ℕ) → s.workers t ≡ running i → Step may_wake s (finish t i s)
  comes_back : (t i now : ℕ) → s.workers t ≡ returned i → Step may_wake s (after_resume t i now s)
  polls : (t now : ℕ) → s.workers t ≡ empty_handed → Step may_wake s (poll t now s)
  tests_guard :
      (t cb : ℕ) (cbs : List ℕ) (again : Option ℕ)
      → s.workers t ≡ adding (cb ∷ cbs) again
      → Step may_wake s (test_guard t cb cbs again s)
  makes :
      (t cb : ℕ) (cbs : List ℕ) (again : Option ℕ)
      → s.workers t ≡ passed cb cbs again
      → Step may_wake s (make_task t cb cbs again s)
  pushes :
      (t i : ℕ) (cbs : List ℕ) (again : Option ℕ)
      → s.workers t ≡ pushing i cbs again
      → Step may_wake s (push_task t i cbs again s)
  tests_again :
      (t i : ℕ) → s.workers t ≡ adding [] (some i) → Step may_wake s (test_guard_again t i s)
  goes_on : (t : ℕ) → s.workers t ≡ adding [] none → Step may_wake s (go_on t s)
  leaves : (t : ℕ) → s.workers t ≡ leaving → Step may_wake s (leave t s)
  calls : (t cb : ℕ) → s.workers t ≡ none_ → Step may_wake s (at t (adding (cb ∷ []) none) s)
  frees : (i : ℕ) → may_wake s i → Step may_wake s (set_state i ready s)
  wakes :
      (t i : ℕ) → s.workers t ≡ none_ → may_wake s i → Step may_wake s (at t (adding [] (some i)) s)
  stops : Step may_wake s (request_stop s)

pub data Steps (may_wake : Scheduler → ℕ → Type 0) (s : Scheduler) : Scheduler → Type 0 where
  here : Steps may_wake s s
  next : {s1 s2 : Scheduler} → Steps may_wake s s1 → Step may_wake s1 s2 → Steps may_wake s s2
