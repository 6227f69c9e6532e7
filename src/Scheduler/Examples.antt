-- ===== src/Scheduler/Examples.antt =====
-- Two threads of coroutine/scheduler.cpp, at concrete values.
use c_rpc.Base.{ℕ, ◌≡◌, ◌≢◌, inl, refl, [], ◌∷◌, ◌++◌, none, true, false, not, ◌&&◌, arith}
use c_rpc.Timer.{Timer, get_expired_cbs}
use c_rpc.Timer.Sets.{Has, NotIn}
use c_rpc.Timer.Order.{IsTimer}
use c_rpc.Scheduler.{
  Scheduler, none_, running, taking, empty_handed, adding, at, Steps, here, next, starts, enters,
  tests, takes, resumes, tests_guard, makes, pushes, goes_on, leaves, calls, stops, start_main,
  enter, test_stop, take_task, resume_task, test_guard, make_coroutine, make_task, push_coroutine,
  push_task, go_on, leave, request_stop, start_threads, new_scheduler, get_task_from_timer,
}
use c_rpc.Scheduler.Runs.{taken, added, first_come}
use c_rpc.Scheduler.Stop.{past, stopped_for_good}
use c_rpc.Scheduler.Due.{callbacks_of, next_ids, get_task_from_timer_lem}
use c_rpc.Scheduler.Lost.{get_task_from_timer-lost}
use c_rpc.Scheduler.Held.{LetGo, mem}
use c_rpc.Scheduler.Once.{run_once}
use c_rpc.Scheduler.Twice.{resumed_twice}

abbrev start : Scheduler
start = start_threads (new_scheduler 2)

-- Both threads are in `run`, and a call of addTask, the number 2, is past its guard with a callback.
abbrev entered_both : Scheduler
entered_both = enter 1 (enter 0 (start_main 1 (start_main 0 start)))

abbrev guarded : Scheduler
guarded = test_guard 2 7 [] none (at 2 (adding (7 ∷ []) none) entered_both)

guarded_run : Steps LetGo start guarded
unfolding start_threads new_scheduler start_main enter
guarded_run =
    next
      (next
        (next (next (next (next here (starts 0 refl)) (starts 1 refl)) (enters 0 refl))
          (enters 1 refl))
        (calls 2 7 refl))
      (tests_guard 2 7 [] none refl)

-- It has pushed a coroutine, the third that was made.
abbrev called : Scheduler
called = go_on 2 (push_task 2 3 [] none (make_task 2 7 [] none guarded))

called_run : Steps LetGo start called
unfolding start_threads new_scheduler start_main enter test_guard make_coroutine make_task
    push_coroutine push_task
called_run =
    next (next (next guarded_run (makes 2 7 [] none refl)) (pushes 2 3 [] none refl))
      (goes_on 2 refl)

-- Thread 0 runs its coroutine, and thread 1 is about to take a task.
abbrev working : Scheduler
working = test_stop 1 (resume_task 0 3 (take_task 0 (test_stop 0 called)))

working_run : Steps LetGo start working
unfolding start_threads new_scheduler start_main enter test_guard make_coroutine make_task
    push_coroutine push_task go_on test_stop take_task resume_task
working_run =
    next (next (next (next called_run (tests 0 refl)) (takes 0 refl)) (resumes 0 3 refl))
      (tests 1 refl)

first_come_example : taken working_run ++ working.m_tasks ≡ start.m_tasks ++ added working_run
first_come_example = first_come LetGo start working working_run

runs : working.workers 0 ≡ running 3
unfolding start_threads new_scheduler start_main enter test_guard make_coroutine make_task
    push_coroutine push_task go_on test_stop take_task resume_task
runs = refl

run_once_example : (◌≡◌ {A = ℕ} 0 0) × (mem 3 working.m_tasks ≡ false)
run_once_example = run_once 2 working 3 0 0 working_run runs runs

takes_next : working.workers 1 ≡ taking
unfolding start_threads new_scheduler start_main enter test_guard make_coroutine make_task
    push_coroutine push_task go_on test_stop take_task resume_task
takes_next = refl

no_call : working.workers 2 ≡ none_
unfolding start_threads new_scheduler start_main enter test_guard make_coroutine make_task
    push_coroutine push_task go_on test_stop take_task resume_task
no_call = refl

no_task : working.m_tasks ≡ []
unfolding start_threads new_scheduler start_main enter test_guard make_coroutine make_task
    push_coroutine push_task go_on test_stop take_task resume_task
no_task = refl

all_run : working.m_running_threads ≡ working.m_threads
unfolding start_threads new_scheduler start_main enter test_guard make_coroutine make_task
    push_coroutine push_task go_on test_stop take_task resume_task
all_run = refl

goes_on_running : working.m_stop ≡ false
unfolding start_threads new_scheduler start_main enter test_guard make_coroutine make_task
    push_coroutine push_task go_on test_stop take_task resume_task
goes_on_running = refl

resumed_twice_example :
    (s' : Scheduler) × Steps (λ r j. r.workers 0 ≡ running j) working s'
    × (s'.workers 0 ≡ running 3)
    × (s'.workers 1 ≡ running 3)
resumed_twice_example =
    resumed_twice working 3 0 1 2 all_run goes_on_running no_task runs takes_next no_call

-- The scheduler stops while the call is past its guard, which then pushes.
abbrev stopped : Scheduler
stopped = leave 1 (leave 0 (test_stop 1 (test_stop 0 (request_stop guarded))))

abbrev pushed_late : Scheduler
pushed_late = push_task 2 3 [] none (make_task 2 7 [] none stopped)

stopped_run : Steps LetGo start stopped
unfolding start_threads new_scheduler start_main enter test_guard test_stop request_stop leave
stopped_run =
    next (next (next (next (next guarded_run stops) (tests 0 refl)) (tests 1 refl)) (leaves 0 refl))
      (leaves 1 refl)

late_run : Steps LetGo stopped pushed_late
unfolding start_threads new_scheduler start_main enter test_guard test_stop request_stop leave
    make_coroutine make_task
late_run = next (next here (makes 2 7 [] none refl)) (pushes 2 3 [] none refl)

stop_seen : stopped.m_stop ≡ true
unfolding start_threads new_scheduler start_main enter test_guard test_stop request_stop leave
stop_seen = refl

none_running : stopped.m_running_threads ≡ 0
unfolding start_threads new_scheduler start_main enter test_guard test_stop request_stop leave
none_running = refl

stopped_for_good_example :
    (pushed_late.m_tasks ≡ stopped.m_tasks ++ added late_run)
    × ((t i : ℕ) → pushed_late.workers t ≢ running i)
    × ((t : ℕ) → (past (pushed_late.workers t) && not (past (stopped.workers t))) ≡ false)
stopped_for_good_example =
    stopped_for_good LetGo 2 stopped pushed_late stopped_run stop_seen none_running late_run

-- An event that is due at 1300.
abbrev a_timer : Timer
a_timer = record {
  time_event = λ e. record {
    m_occur_time = 1300;
    m_interval = 300;
    m_is_repeated = false;
    m_is_cancled = false;
    m_is_stoped = false;
  };
  made = 1;
  m_time_events = 0 ∷ [];
}

a_timer-IsTimer : IsTimer a_timer
a_timer-IsTimer = record { ordered = (tt, tt); known = (omega arith, tt) }

abbrev with_timer : Scheduler
with_timer = record (take_task 1 working) { m_timer = a_timer }

polling :
    (with_timer.workers 1 ≡ empty_handed)
    × (with_timer.m_running_threads ≡ with_timer.m_threads)
    × (with_timer.m_stop ≡ false)
    × (with_timer.m_coroutine_id ≡ 3)
unfolding start_threads new_scheduler start_main enter test_guard make_coroutine make_task
    push_coroutine push_task go_on test_stop take_task resume_task
polling = (refl, refl, refl, refl)

get_task_from_timer_lem_example :
    Steps LetGo with_timer (at 1 (adding [] none) (get_task_from_timer 1400 with_timer))
    × ((get_task_from_timer 1400 with_timer).m_tasks
        ≡ with_timer.m_tasks ++ next_ids with_timer.m_coroutine_id (0 ∷ []))
    × (callbacks_of
          (get_task_from_timer 1400 with_timer).m_cb
          (next_ids with_timer.m_coroutine_id (0 ∷ []))
        ≡ 0 ∷ [])
    × ((get_task_from_timer 1400 with_timer).m_cb 3 ≡ with_timer.m_cb 3)
get_task_from_timer_lem_example =
    get_task_from_timer_lem LetGo 1 1400 with_timer 3 polling.0 a_timer-IsTimer polling.1 polling.2
      (omega (arith, polling.3))

abbrev early : Scheduler
early = record start { m_timer = a_timer }

none_entered : early.m_running_threads ≢ early.m_threads
unfolding start_threads new_scheduler
none_entered = omega arith

get_task_from_timer-lost_example :
    Has (get_expired_cbs 1400 early.m_timer).0 0
    × NotIn 0 (get_task_from_timer 1400 early).m_timer.m_time_events
    × ((get_task_from_timer 1400 early).m_tasks ≡ early.m_tasks)
    × ((get_task_from_timer 1400 early).m_cb ≡ early.m_cb)
    × ((get_task_from_timer 1400 early).m_coroutine_id ≡ early.m_coroutine_id)
get_task_from_timer-lost_example =
    get_task_from_timer-lost 1400 early 0 a_timer-IsTimer (inl none_entered) (inl refl)
      (omega arith) refl refl refl
