-- ===== src/Timer/Examples.antt =====
-- A timer with two repeated events, at concrete times.
use c_rpc.Base.{◌-◌, ◌≤◌, ◌≡◌, refl, [], ◌∷◌, true, false, inl, inr, arith}
use c_rpc.Timer.{
  Timer, occurs, new_timer, occur_time, set_insert, add_time_event, get_latest_te_occur,
  get_expired_cbs,
}
use c_rpc.Timer.Order.{IsTimer, Calls, here, next, adds, Calls-IsTimer}
use c_rpc.Timer.Expiry.{get_latest_te_occur-bound, add_time_event-lost, get_expired_cbs-lost}

-- At 1000 an event every 300, at 1001 another.
abbrev one : Timer
one = (add_time_event 1000 300 true new_timer).1

abbrev two : Timer
two = (add_time_event 1001 300 true one).1

two_made : Calls new_timer two
two_made = next 1001 (next 1000 here (adds 300 true)) (adds 300 true)

Calls-IsTimer_example : IsTimer two
Calls-IsTimer_example = Calls-IsTimer new_timer two (record { ordered = tt; known = tt }) two_made

two-IsTimer : IsTimer two
unfolding add_time_event occur_time set_insert
two-IsTimer = record {
  ordered = ((omega arith, tt), (tt, tt));
  known = (omega arith, (omega arith, tt));
}

two_events : two.m_time_events ≡ 0 ∷ 1 ∷ []
unfolding add_time_event occur_time set_insert
two_events = refl

get_latest_te_occur-bound_example : get_latest_te_occur 1100 two ≤ occurs two 1 - 1100
unfolding add_time_event occur_time set_insert
get_latest_te_occur-bound_example =
    get_latest_te_occur-bound 1100 1 two two-IsTimer (inr (inl refl)) refl

add_time_event-lost_example :
    ((add_time_event 1200 100 false two).1).m_time_events ≡ two.m_time_events
unfolding occur_time set_insert
add_time_event-lost_example =
    add_time_event-lost 1200 100 0 false two two-IsTimer (unfold add_time_event in inl refl)
      (unfold add_time_event in refl)

get_expired_cbs-lost_example : ((get_expired_cbs 1400 two).1).m_time_events ≡ 0 ∷ []
unfolding add_time_event occur_time
get_expired_cbs-lost_example =
    get_expired_cbs-lost 1400 0 1 two two-IsTimer two_events (omega arith) refl refl refl refl refl
