-- ===== src/Timer.antt =====
-- `Timer` and `TimeEvent` of coroutine/timer.h and timer.cpp. A call takes the mutex of the timer for
-- its whole length, so calls come one after the other. `now` is what `GetCurrentMS()` returns.
pub mod Sets
pub mod Order
pub mod Expiry
mod Examples
use c_rpc.Base.{
  ℕ, zero, suc, ◌+◌, ◌-◌, ◌^◌, ◌%◌, List, [], ◌∷◌, Option, none, some, Bool, true, false, not, ◌==◌,
  ltb, leb, ◌&&◌, if◌then◌else◌,
}

-- A callback is known by the event that it belongs to.
pub record TimeEvent : Type 0 where
  pub m_occur_time : ℕ
  pub m_interval : ℕ
  pub m_is_repeated : Bool
  pub m_is_cancled : Bool
  pub m_is_stoped : Bool

-- An event is a pointer: the number of events made before it. `m_time_events` is the set, in its order.
pub record Timer : Type 0 where
  pub time_event : ℕ → TimeEvent
  pub made : ℕ
  pub m_time_events : List ℕ

abbrev pub occurs : Timer → ℕ → ℕ
occurs t e = (t.time_event e).m_occur_time

abbrev pub assign : (ℕ → TimeEvent) → ℕ → TimeEvent → ℕ → TimeEvent
assign f e event i = if i == e then event else f i

-- `std::set::insert` by `Compare`, of events that occur at the times `at`: an event with the time of
-- one that is in the set is not inserted.
unfoldable pub set_insert : (ℕ → ℕ) → ℕ → List ℕ → List ℕ
set_insert at e [] = e ∷ []
set_insert at e (x ∷ xs) =
    let rest = set_insert at e xs in
    if ltb (at e) (at x) then e ∷ x ∷ xs else if ltb (at x) (at e) then x ∷ rest else x ∷ xs

-- `find` and `erase`: the set without the event that has the time of `e`, if there is one.
unfoldable pub set_without : (ℕ → ℕ) → ℕ → List ℕ → Option (List ℕ)
set_without at e [] = none
set_without at e (x ∷ xs) =
    let rest = set_without at e xs in
    if at x == at e then some xs else elim rest [ none ↦ none | some ys ↦ some (x ∷ ys) ]

unfoldable pub occur_time : ℕ → ℕ → ℕ
occur_time now interval = (now + interval) % 2 ^ 64

-- addTimeEvent
unfoldable pub add_time_event : ℕ → ℕ → Bool → Timer → ℕ × Timer
add_time_event now interval is_repeated t =
    let event : TimeEvent = record {
      m_occur_time = occur_time now interval;
      m_interval = interval;
      m_is_repeated = is_repeated;
      m_is_cancled = false;
      m_is_stoped = false;
    } in
    let events = assign t.time_event t.made event in
    (
      t.made,
      record {
        time_event = events;
        made = suc t.made;
        m_time_events = set_insert (λ i. (events i).m_occur_time) t.made t.m_time_events;
      },
    )

-- The event `e` with a new interval, in a set `others` that it has left.
unfoldable pub rearm : ℕ → ℕ → ℕ → List ℕ → Timer → Timer
rearm now interval e others t =
    let events = assign t.time_event e (record (t.time_event e) {
      m_interval = interval;
      m_occur_time = occur_time now interval;
      m_is_cancled = false;
    }) in
    record t {
      time_event = events;
      m_time_events = set_insert (λ i. (events i).m_occur_time) e others;
    }

-- resetTime(interval), and resetTime() with the interval that the event has.
unfoldable pub reset_time_to : ℕ → ℕ → ℕ → Timer → Bool × Timer
reset_time_to now interval e t = elim (set_without (occurs t) e t.m_time_events) [
  | none ↦ (false, t)
  | some others ↦ (true, rearm now interval e others t)
]

unfoldable pub reset_time : ℕ → ℕ → Timer → Bool × Timer
reset_time now e t = reset_time_to now (t.time_event e).m_interval e t

unfoldable pub wake : ℕ → Timer → Timer
wake e t = record t {
  time_event =
      assign t.time_event e (record (t.time_event e) { m_is_cancled = false; m_is_stoped = false });
}

unfoldable pub cancel : ℕ → Timer → Timer
cancel e t = record t {
  time_event = assign t.time_event e (record (t.time_event e) { m_is_cancled = true });
}

unfoldable pub stop : ℕ → Timer → Timer
stop e t = record t {
  time_event = assign t.time_event e (record (t.time_event e) { m_is_stoped = true });
}

unfoldable pub cancle_repeated : ℕ → Timer → Timer
cancle_repeated e t = record t {
  time_event = assign t.time_event e (record (t.time_event e) { m_is_repeated = false });
}

unfoldable pub set_repeated : ℕ → Timer → Timer
set_repeated e t = record t {
  time_event = assign t.time_event e (record (t.time_event e) { m_is_repeated = true });
}

-- The loop of getLatestTEOccur: the first event that is not cancelled.
unfoldable pub first_event : (ℕ → TimeEvent) → List ℕ → Option ℕ
first_event events [] = none
first_event events (e ∷ es) =
    let rest = first_event events es in if (events e).m_is_cancled then rest else some e

-- getLatestTEOccur. `~0ull` if there is no event.
unfoldable pub get_latest_te_occur : ℕ → Timer → ℕ
get_latest_te_occur now t = elim (first_event t.time_event t.m_time_events) [
  | none ↦ 2 ^ 64 - 1
  | some e ↦ if leb (occurs t e) now then 0 else occurs t e - now
]

-- The first loop of getExpiredcbs: the events up to the first that is later than `now`, and the others.
unfoldable pub split_expired : (ℕ → TimeEvent) → ℕ → List ℕ → List ℕ × List ℕ
split_expired events now [] = ([], [])
split_expired events now (e ∷ es) =
    let (expired, others) = split_expired events now es in
    if leb (events e).m_occur_time now then (e ∷ expired, others) else ([], e ∷ es)

-- Its callbacks.
unfoldable pub callbacks : (ℕ → TimeEvent) → List ℕ → List ℕ
callbacks events [] = []
callbacks events (e ∷ es) =
    let rest = callbacks events es in
    if not (events e).m_is_cancled && not (events e).m_is_stoped then e ∷ rest else rest

-- Its second loop, which puts the repeated events back.
unfoldable pub put_back : ℕ → ℕ → Timer → Timer
put_back now e t =
    let event = t.time_event e in
    let events =
      assign t.time_event e (record event { m_occur_time = occur_time now event.m_interval }) in
    record t {
      time_event = events;
      m_time_events = set_insert (λ i. (events i).m_occur_time) e t.m_time_events;
    }

unfoldable pub repeat : ℕ → List ℕ → Timer → Timer
repeat now [] t = t
repeat now (e ∷ es) t = repeat now es (
    if (t.time_event e).m_is_repeated && not (t.time_event e).m_is_cancled
    then put_back now e t
    else t)

-- getExpiredcbs
unfoldable pub get_expired_cbs : ℕ → Timer → List ℕ × Timer
get_expired_cbs now t =
    let (expired, others) = split_expired t.time_event now t.m_time_events in
    (callbacks t.time_event expired, repeat now expired (record t { m_time_events = others }))

-- A timer without events.
abbrev pub no_event : TimeEvent
no_event = record {
  m_occur_time = 0;
  m_interval = 0;
  m_is_repeated = false;
  m_is_cancled = false;
  m_is_stoped = false;
}

abbrev pub new_timer : Timer
new_timer = record { time_event = λ e. no_event; made = 0; m_time_events = [] }
