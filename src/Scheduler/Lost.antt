-- ===== src/Scheduler/Lost.antt =====
-- The callbacks of a timer that getTaskFromTimer of coroutine/scheduler.cpp does not add.
use c_rpc.Base.{
  ℕ, ◌≡◌, ◌≢◌, ◌≤◌, ◌<◌, ◌⊎◌, sym, ap, List, [], ◌∷◌, Bool-cases, inl, inr, true, Bool, false, not,
  ◌&&◌, leb, if◌then◌else◌, arith,
}
use mathlib.Core.Path.{subst}
use c_rpc.Timer.{Timer, TimeEvent, occurs, get_expired_cbs, split_expired, put_back, repeat}
use c_rpc.Timer.Sets.{Has, All-map, All-insert, NotIn, IsOrdered}
use c_rpc.Timer.Order.{IsTimer}
use c_rpc.Timer.Expiry.{due, get_expired_cbs_lem}
use c_rpc.Scheduler.{Scheduler, get_task_from_timer}
use c_rpc.Scheduler.Due.{add_callbacks-refused}

-- An event that is not repeated is not put back.
repeat-gone :
    (now i : ℕ) (es : List ℕ) (t : Timer)
    → (t.time_event i).m_is_repeated ≡ false
    → NotIn i t.m_time_events
    → NotIn i (repeat now es t).m_time_events
unfolding repeat put_back
repeat-gone now i [] t once h = h
repeat-gone now i (e ∷ es) t once h =
    elim (Bool-cases ((t.time_event e).m_is_repeated && not (t.time_event e).m_is_cancled)) [
      | inl again ↦
          let other : e ≢ i =
            (λ q. ground (arith, again, once, ap (λ x. (t.time_event x).m_is_repeated) q)) in
          rw (again, repeat)
            (repeat-gone now i es (put_back now e t) (ground (arith, other, once))
              (All-insert (λ x. x ≢ i) _ e t.m_time_events other h))
      | inr no_ ↦ rw (no_, repeat) (repeat-gone now i es t once h)
    ]

-- What is not expired occurs later.
split-gone :
    (events : ℕ → TimeEvent) (now i : ℕ) (es : List ℕ)
    → IsOrdered (λ e. (events e).m_occur_time) es
    → (events i).m_occur_time ≤ now
    → NotIn i (split_expired events now es).1
unfolding split_expired
split-gone events now i [] h le = tt
split-gone events now i (e ∷ es) (h, hs) le = elim (Bool-cases (leb (events e).m_occur_time now)) [
  | inl yes_ ↦ rw yes_ (split-gone events now i es hs le)
  | inr no_ ↦ rw no_ (later e (ground arith), All-map (λ y lt. later y (ground (arith, lt))) es h)
]
  where
    later : (y : ℕ) → now < (events y).m_occur_time → y ≢ i
    later y lt q = omega (arith, lt, le, ap (λ x. (events x).m_occur_time) q)

if_Has : (i : ℕ) (b : Bool) (xs ys : List ℕ) → Has xs i → Has ys i → Has (if b then xs else ys) i
if_Has i true xs ys h h' = h
if_Has i false xs ys h h' = h'

due-Has :
    (events : ℕ → TimeEvent) (now i : ℕ) (es : List ℕ)
    → Has es i
    → (events i).m_occur_time ≤ now
    → (events i).m_is_cancled ≡ false
    → (events i).m_is_stoped ≡ false
    → Has (due events now es) i
due-Has events now i [] h le c s = absurd h
due-Has events now i (e ∷ es) (inl q) le c s = rw (timely, going, due) (inl q)
  where
    timely : leb (events e).m_occur_time now ≡ true
    timely = ground (arith, ap (λ x. (events x).m_occur_time) q)

    going : (not (events e).m_is_cancled && not (events e).m_is_stoped) ≡ true
    going = ground (arith, ap (λ x. (events x).m_is_cancled) q, ap (λ x. (events x).m_is_stoped) q)
due-Has events now i (e ∷ es) (inr k) le c s =
    let rest = due-Has events now i es k le c s in
    if_Has i _ (e ∷ due events now es) (due events now es) (inr rest) rest

-- A thread looks at a timer in order when a thread has not come to its loop yet, or the scheduler is to
-- stop, and nothing comes between. An event that is due, neither cancelled nor stopped, and not repeated
-- is lost: the timer gives its callback away and no longer has it, and neither the queue nor any
-- coroutine changes.
pub get_task_from_timer-lost :
    (now : ℕ) (s : Scheduler) (e : ℕ)
    → IsTimer s.m_timer
    → (s.m_running_threads ≢ s.m_threads) ⊎ (s.m_stop ≡ true)
    → Has s.m_timer.m_time_events e
    → occurs s.m_timer e ≤ now
    → (s.m_timer.time_event e).m_is_cancled ≡ false
    → (s.m_timer.time_event e).m_is_stoped ≡ false
    → (s.m_timer.time_event e).m_is_repeated ≡ false
    → Has (get_expired_cbs now s.m_timer).0 e
      × NotIn e (get_task_from_timer now s).m_timer.m_time_events
      × ((get_task_from_timer now s).m_tasks ≡ s.m_tasks)
      × ((get_task_from_timer now s).m_cb ≡ s.m_cb)
      × ((get_task_from_timer now s).m_coroutine_id ≡ s.m_coroutine_id)
get_task_from_timer-lost now s e h why there le live on once = (
  subst (λ es. Has es e) (sym (get_expired_cbs_lem now s.m_timer h))
      (due-Has s.m_timer.time_event now e s.m_timer.m_time_events there le live on),
  subst (λ r. NotIn e r.m_timer.m_time_events) (sym same) gone,
  ap (λ r. r.m_tasks) same,
  ap (λ r. r.m_cb) same,
  ap (λ r. r.m_coroutine_id) same,
)
  where
    gone : NotIn e (get_expired_cbs now s.m_timer).1.m_time_events
    gone =
        unfold get_expired_cbs in
        repeat-gone now e (split_expired s.m_timer.time_event now s.m_timer.m_time_events).0
          (record s.m_timer {
            m_time_events = (split_expired s.m_timer.time_event now s.m_timer.m_time_events).1;
          })
          once (split-gone s.m_timer.time_event now e s.m_timer.m_time_events h.ordered le)

    same : get_task_from_timer now s ≡ record s { m_timer = (get_expired_cbs now s.m_timer).1 }
    same =
        unfold get_task_from_timer in
        add_callbacks-refused (get_expired_cbs now s.m_timer).0
          (record s { m_timer = (get_expired_cbs now s.m_timer).1 }) (ground arith)
