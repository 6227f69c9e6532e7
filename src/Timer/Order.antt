-- ===== src/Timer/Order.antt =====
-- Whatever the calls of coroutine/timer.h, the set of a timer stays in order.
use c_rpc.Base.{
  ℕ, suc, ◌<◌, ◌≡◌, ◌≢◌, refl, sym, List, [], ◌∷◌, ◌++◌, All, Option, none, some, Bool, true, false,
  if◌then◌else◌, arith,
}
use mathlib.Core.Path.{subst}
use c_rpc.Timer.{
  Timer, TimeEvent, occurs, assign, set_insert, set_without, add_time_event, rearm, reset_time_to,
  reset_time, wake, cancel, stop, cancle_repeated, set_repeated, split_expired, put_back, repeat,
  get_expired_cbs,
}
use c_rpc.Timer.Sets.{
  NotIn, IsOrdered, Distinct, All-map, All-insert, IsOrdered-insert, IsOrdered-agree,
  IsOrdered-Distinct, IsOrdered-right, Distinct-parts, All-parts, All-without,
  set_without-IsOrdered,
}

-- Each event of the set has been made, and is strictly later than those before it.
pub record IsTimer (t : Timer) : Type 0 where
  pub ordered : IsOrdered (occurs t) t.m_time_events
  pub known : All (λ e. e < t.made) t.m_time_events

-- A call at the time `now`, on an event that has been made.
pub data Call (now : ℕ) (t : Timer) : Timer → Type 0 where
  adds :
      (interval : ℕ) (is_repeated : Bool)
      → Call now t ((add_time_event now interval is_repeated t).1)
  resets : (e : ℕ) → e < t.made → Call now t ((reset_time now e t).1)
  resets_to : (interval e : ℕ) → e < t.made → Call now t ((reset_time_to now interval e t).1)
  wakes : (e : ℕ) → e < t.made → Call now t (wake e t)
  cancels : (e : ℕ) → e < t.made → Call now t (cancel e t)
  stops : (e : ℕ) → e < t.made → Call now t (stop e t)
  cancles_repeated : (e : ℕ) → e < t.made → Call now t (cancle_repeated e t)
  sets_repeated : (e : ℕ) → e < t.made → Call now t (set_repeated e t)
  expires : Call now t ((get_expired_cbs now t).1)

-- Calls one after the other, the clock going as it likes.
pub data Calls (t : Timer) : Timer → Type 0 where
  here : Calls t t
  next : (now : ℕ) {m t' : Timer} → Calls t m → Call now m t' → Calls t t'

pub assign_other :
    (f : ℕ → TimeEvent) (e : ℕ) (event : TimeEvent) (xs : List ℕ)
    → NotIn e xs
    → All (λ x. (assign f e event x).m_occur_time ≡ (f x).m_occur_time) xs
assign_other f e event xs = All-map (λ x ne. ground arith) xs

-- The set with the event `e`, which is not in it, changed and inserted.
pub inserted-IsOrdered :
    (f : ℕ → TimeEvent) (e : ℕ) (event : TimeEvent) (xs : List ℕ)
    → IsOrdered (λ i. (f i).m_occur_time) xs
    → NotIn e xs
    → IsOrdered
        (λ i. (assign f e event i).m_occur_time)
        (set_insert (λ i. (assign f e event i).m_occur_time) e xs)
inserted-IsOrdered f e event xs h n =
    IsOrdered-insert (λ i. (assign f e event i).m_occur_time) e xs
      (IsOrdered-agree (λ i. (f i).m_occur_time) (λ i. (assign f e event i).m_occur_time) xs
        (assign_other f e event xs n) h)

flags-IsTimer :
    (e : ℕ) (event : TimeEvent) (t : Timer)
    → event.m_occur_time ≡ occurs t e
    → IsTimer t
    → IsTimer (record t { time_event = assign t.time_event e event })
flags-IsTimer e event t same h = record {
  ordered =
      IsOrdered-agree (occurs t) (λ i. (assign t.time_event e event i).m_occur_time) t.m_time_events
        (everywhere t.m_time_events) h.ordered;
  known = h.known;
}
  where
    everywhere :
        (xs : List ℕ) → All (λ x. (assign t.time_event e event x).m_occur_time ≡ occurs t x) xs
    everywhere [] = tt
    everywhere (x ∷ xs) = (ground arith, everywhere xs)

rearm-IsTimer :
    (now interval e : ℕ) (others : List ℕ) (t : Timer)
    → IsTimer t
    → set_without (occurs t) e t.m_time_events ≡ some others
    → e < t.made
    → IsTimer (rearm now interval e others t)
unfolding rearm
rearm-IsTimer now interval e others t h k lt =
    let (o, n) = set_without-IsOrdered (occurs t) e t.m_time_events others h.ordered k in
    record {
      ordered = inserted-IsOrdered t.time_event e _ others o n;
      known =
          All-insert (λ x. x < t.made) _ e others lt
            (All-without (λ x. x < t.made) (occurs t) e t.m_time_events others k h.known);
    }

reset_time_to-IsTimer :
    (now interval e : ℕ) (t : Timer)
    → IsTimer t
    → e < t.made
    → IsTimer ((reset_time_to now interval e t).1)
unfolding reset_time_to
reset_time_to-IsTimer now interval e t h lt = go (set_without (occurs t) e t.m_time_events) refl
  where
    go :
        (r : Option (List ℕ))
        → set_without (occurs t) e t.m_time_events ≡ r
        → IsTimer (
            (elim r as (λ x. Bool × Timer) [
              | none ↦ (false, t)
              | some others ↦ (true, rearm now interval e others t)
            ]).1)
    go none q = h
    go (some others) q = rearm-IsTimer now interval e others t h q lt

pub if_keeps : (P : Timer → Type 0) (c : Bool) (t t' : Timer) → P t → P t' → P (if c then t else t')
if_keeps P true t t' h h' = h
if_keeps P false t t' h h' = h'

put_back-IsTimer :
    (now e : ℕ) (t : Timer)
    → IsTimer t
    → NotIn e t.m_time_events
    → e < t.made
    → IsTimer (put_back now e t)
unfolding put_back
put_back-IsTimer now e t h n lt = record {
  ordered = inserted-IsOrdered t.time_event e _ t.m_time_events h.ordered n;
  known = All-insert (λ x. x < t.made) _ e t.m_time_events lt h.known;
}

-- What the second loop needs of the events that it has yet to put back.
record Waits (es : List ℕ) (t : Timer) : Type 0 where
  timer : IsTimer t
  outside : All (λ e. NotIn e t.m_time_events) es
  known : All (λ e. e < t.made) es

put_back-Waits :
    (now e : ℕ) (es : List ℕ) (t : Timer)
    → NotIn e es
    → Waits (e ∷ es) t
    → Waits es (put_back now e t)
unfolding put_back
put_back-Waits now e es t n w = record {
  timer = put_back-IsTimer now e t w.timer w.outside.0 w.known.0;
  outside = still es n w.outside.1;
  known = w.known.1;
}
  where
    still :
        (xs : List ℕ)
        → NotIn e xs
        → All (λ x. NotIn x t.m_time_events) xs
        → All (λ x. NotIn x (put_back now e t).m_time_events) xs
    still [] k h = tt
    still (x ∷ xs) (k, ks) (h, hs) =
        (All-insert (λ y. y ≢ x) _ e t.m_time_events (λ q. k (sym q)) h, still xs ks hs)

repeat-IsTimer :
    (now : ℕ) (es : List ℕ) (t : Timer) → Distinct es → Waits es t → IsTimer (repeat now es t)
unfolding repeat
repeat-IsTimer now [] t d w = w.timer
repeat-IsTimer now (e ∷ es) t (n, d) w = repeat-IsTimer now es _ d (
    if_keeps (Waits es) _ (put_back now e t) t (put_back-Waits now e es t n w)
      (record { timer = w.timer; outside = w.outside.1; known = w.known.1 }))

pub split_expired-append :
    (events : ℕ → TimeEvent) (now : ℕ) (es : List ℕ)
    → (split_expired events now es).0 ++ (split_expired events now es).1 ≡ es
unfolding split_expired
split_expired-append events now [] = refl
split_expired-append events now (e ∷ es) = ground (arith, split_expired-append events now es)

get_expired_cbs-IsTimer : (now : ℕ) (t : Timer) → IsTimer t → IsTimer ((get_expired_cbs now t).1)
unfolding get_expired_cbs
get_expired_cbs-IsTimer now t h =
    let xs : List ℕ = (split_expired t.time_event now t.m_time_events).0 in
    let ys : List ℕ = (split_expired t.time_event now t.m_time_events).1 in
    let whole : xs ++ ys ≡ t.m_time_events =
      split_expired-append t.time_event now t.m_time_events in
    let ordered : IsOrdered (occurs t) (xs ++ ys) =
      subst (IsOrdered (occurs t)) (sym whole) h.ordered in
    let (known, known') =
      All-parts (λ e. e < t.made) xs ys (subst (All (λ e. e < t.made)) (sym whole) h.known) in
    let (distinct, outside) =
      Distinct-parts xs ys (IsOrdered-Distinct (occurs t) (xs ++ ys) ordered) in
    repeat-IsTimer now xs _ distinct (record {
      timer = record { ordered = IsOrdered-right (occurs t) xs ys ordered; known = known' };
      outside = outside;
      known = known;
    })

add_time_event-IsTimer :
    (now interval : ℕ) (r : Bool) (t : Timer)
    → IsTimer t
    → IsTimer ((add_time_event now interval r t).1)
unfolding add_time_event
add_time_event-IsTimer now interval r t h = record {
  ordered =
      inserted-IsOrdered t.time_event t.made _ t.m_time_events h.ordered
        (All-map (λ x lt e. omega (arith, lt, e)) t.m_time_events h.known);
  known =
      All-insert (λ x. x < suc t.made) _ t.made t.m_time_events (omega arith)
        (All-map (λ x lt. omega (arith, lt)) t.m_time_events h.known);
}

Call-IsTimer : (now : ℕ) (t t' : Timer) → Call now t t' → IsTimer t → IsTimer t'
unfolding reset_time wake cancel stop cancle_repeated set_repeated
Call-IsTimer now t _ (adds interval r) h = add_time_event-IsTimer now interval r t h
Call-IsTimer now t _ (resets e lt) h = reset_time_to-IsTimer now _ e t h lt
Call-IsTimer now t _ (resets_to interval e lt) h = reset_time_to-IsTimer now interval e t h lt
Call-IsTimer now t _ (wakes e lt) h = flags-IsTimer e _ t refl h
Call-IsTimer now t _ (cancels e lt) h = flags-IsTimer e _ t refl h
Call-IsTimer now t _ (stops e lt) h = flags-IsTimer e _ t refl h
Call-IsTimer now t _ (cancles_repeated e lt) h = flags-IsTimer e _ t refl h
Call-IsTimer now t _ (sets_repeated e lt) h = flags-IsTimer e _ t refl h
Call-IsTimer now t _ expires h = get_expired_cbs-IsTimer now t h

-- Whatever calls are made on a timer in order, on events that have been made and at whatever times,
-- its set stays in order: each event strictly later than those before it.
pub Calls-IsTimer : (t t' : Timer) → IsTimer t → Calls t t' → IsTimer t'
Calls-IsTimer t _ h here = h
Calls-IsTimer t t' h (next now {m} cs c) = Call-IsTimer now m t' c (Calls-IsTimer t m h cs)
