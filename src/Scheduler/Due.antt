-- ===== src/Scheduler/Due.antt =====
-- getTaskFromTimer of coroutine/scheduler.cpp: the callbacks that are due become coroutines.
use c_rpc.Base.{
  ℕ, suc, ◌≡◌, refl, sym, ap, ◌∙◌, List, [], ◌∷◌, ◌++◌, append-nil, append_assoc, none, true, false,
  ◌≤◌, arith,
}
use c_rpc.Timer.{get_expired_cbs}
use c_rpc.Timer.Order.{IsTimer}
use c_rpc.Timer.Expiry.{due, get_expired_cbs_lem}
use c_rpc.Scheduler.Undisturbed.{get_task_from_timer-Steps}
use c_rpc.Scheduler.{
  Scheduler, Steps, empty_handed, adding, at, add_callback, add_callbacks, make_coroutine,
  push_coroutine, get_task_from_timer, accepts, set, ready,
}

-- The ids of the next coroutines, one for each of the callbacks.
abbrev pub next_ids : ℕ → List ℕ → List ℕ
next_ids id [] = []
next_ids id (cb ∷ cbs) = suc id ∷ next_ids (suc id) cbs

-- The callbacks of some coroutines.
abbrev pub callbacks_of : (ℕ → ℕ) → List ℕ → List ℕ
callbacks_of m_cb [] = []
callbacks_of m_cb (i ∷ is) = m_cb i ∷ callbacks_of m_cb is

-- The coroutine for a callback.
abbrev with_coroutine : ℕ → Scheduler → Scheduler
with_coroutine cb s = record s {
  m_coroutine_id = suc s.m_coroutine_id;
  m_state = set s.m_state (suc s.m_coroutine_id) ready;
  m_cb = set s.m_cb (suc s.m_coroutine_id) cb;
  m_tasks = s.m_tasks ++ suc s.m_coroutine_id ∷ [];
}

add_callbacks-accepted :
    (cb : ℕ) (cbs : List ℕ) (s : Scheduler)
    → accepts s ≡ true
    → add_callbacks (cb ∷ cbs) s ≡ add_callbacks cbs (with_coroutine cb s)
unfolding add_callbacks add_callback make_coroutine push_coroutine
add_callbacks-accepted cb cbs s e = rw e refl

pub add_callbacks-refused :
    (cbs : List ℕ) (s : Scheduler) → accepts s ≡ false → add_callbacks cbs s ≡ s
unfolding add_callbacks add_callback make_coroutine push_coroutine
add_callbacks-refused [] s e = refl
add_callbacks-refused (cb ∷ cbs) s e = rw e (add_callbacks-refused cbs s e)

add_callbacks-tasks :
    (cbs : List ℕ) (s : Scheduler)
    → accepts s ≡ true
    → (add_callbacks cbs s).m_tasks ≡ s.m_tasks ++ next_ids s.m_coroutine_id cbs
unfolding add_callbacks
add_callbacks-tasks [] s e = sym (append-nil s.m_tasks)
add_callbacks-tasks (cb ∷ cbs) s e =
    ap (λ r. r.m_tasks) (add_callbacks-accepted cb cbs s e)
    ∙ add_callbacks-tasks cbs (with_coroutine cb s) e
    ∙ append_assoc s.m_tasks (suc s.m_coroutine_id ∷ []) _

-- What was made before stays.
add_callbacks-older :
    (cbs : List ℕ) (s : Scheduler) (i : ℕ)
    → accepts s ≡ true
    → i ≤ s.m_coroutine_id
    → (add_callbacks cbs s).m_cb i ≡ s.m_cb i
unfolding add_callbacks
add_callbacks-older [] s i e le = refl
add_callbacks-older (cb ∷ cbs) s i e le =
    ap (λ r. r.m_cb i) (add_callbacks-accepted cb cbs s e)
    ∙ add_callbacks-older cbs (with_coroutine cb s) i e (omega arith)
    ∙ ground arith

add_callbacks-cbs :
    (cbs : List ℕ) (s : Scheduler)
    → accepts s ≡ true
    → callbacks_of (add_callbacks cbs s).m_cb (next_ids s.m_coroutine_id cbs) ≡ cbs
unfolding add_callbacks
add_callbacks-cbs [] s e = refl
add_callbacks-cbs (cb ∷ cbs) s e =
    ap (λ r. callbacks_of r.m_cb (next_ids s.m_coroutine_id (cb ∷ cbs)))
      (add_callbacks-accepted cb cbs s e)
    ∙ ap
        (λ c.
          c
          ∷ callbacks_of (add_callbacks cbs (with_coroutine cb s)).m_cb
              (next_ids (suc s.m_coroutine_id) cbs))
        (add_callbacks-older cbs (with_coroutine cb s) (suc s.m_coroutine_id) e (omega arith)
          ∙ ground arith)
    ∙ ap (◌∷◌ cb) (add_callbacks-cbs cbs (with_coroutine cb s) e)

-- A thread without a task looks at the timer, which is in order, at the time `now`, while all threads run
-- and the scheduler is not to stop. If nothing comes between, its steps have done what the call does as a
-- whole, and it has nothing more to add: all events that are due and neither cancelled nor stopped
-- get a new coroutine each, at the end of the queue in the order of their times. The coroutines have
-- the next numbers and the callbacks of the events, and the callbacks of all coroutines that were made
-- before stay as they are.
pub get_task_from_timer_lem :
    (may_wake : Scheduler → ℕ → Type 0) (t now : ℕ) (s : Scheduler) (old : ℕ)
    → s.workers t ≡ empty_handed
    → IsTimer s.m_timer
    → s.m_running_threads ≡ s.m_threads
    → s.m_stop ≡ false
    → old ≤ s.m_coroutine_id
    → Steps may_wake s (at t (adding [] none) (get_task_from_timer now s))
      × ((get_task_from_timer now s).m_tasks
          ≡ s.m_tasks
            ++ next_ids s.m_coroutine_id (due s.m_timer.time_event now s.m_timer.m_time_events))
      × (callbacks_of
            (get_task_from_timer now s).m_cb
            (next_ids s.m_coroutine_id (due s.m_timer.time_event now s.m_timer.m_time_events))
          ≡ due s.m_timer.time_event now s.m_timer.m_time_events)
      × ((get_task_from_timer now s).m_cb old ≡ s.m_cb old)
unfolding get_task_from_timer
get_task_from_timer_lem may_wake t now s old idle h all_run goes_on le =
    let cbs = (get_expired_cbs now s.m_timer).0 in
    let given = get_expired_cbs_lem now s.m_timer h in
    (
      get_task_from_timer-Steps may_wake t now s idle,
      add_callbacks-tasks cbs next (ground arith)
          ∙ ap (λ es. s.m_tasks ++ next_ids s.m_coroutine_id es) given,
      ap (λ es. callbacks_of (add_callbacks cbs next).m_cb (next_ids s.m_coroutine_id es))
            (sym given)
          ∙ add_callbacks-cbs cbs next (ground arith)
          ∙ given,
      add_callbacks-older cbs next old (ground arith) le,
    )
  where
    next : Scheduler
    next = record s { m_timer = (get_expired_cbs now s.m_timer).1 }
