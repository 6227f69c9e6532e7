-- ===== src/Timer/Expiry.antt =====
-- What expires and when, and where coroutine/timer.cpp loses an event.
use c_rpc.Base.{
  ℕ, ◌-◌, ◌<◌, ◌≤◌, ◌≡◌, ◌≢◌, refl, ap, ◌∙◌, List, [], ◌∷◌, All, some, Bool, true, false, not, leb,
  leb→le, ◌&&◌, if◌then◌else◌, arith, Bool-cases, inl, inr,
}
use mathlib.Core.Path.{subst}
use c_rpc.Timer.{
  Timer, TimeEvent, occurs, set_insert, occur_time, add_time_event, first_event,
  get_latest_te_occur, split_expired, callbacks, put_back, repeat, get_expired_cbs,
}
use c_rpc.Timer.Sets.{
  Has, All-Has, Has-insert, set_insert_taken, IsOrdered, IsOrdered-agree, All-map,
}
use c_rpc.Timer.Order.{IsTimer, if_keeps, assign_other}

-- The events of the set whose callbacks are to run at `now`.
abbrev pub due : (ℕ → TimeEvent) → ℕ → List ℕ → List ℕ
due events now [] = []
due events now (e ∷ es) =
    if leb (events e).m_occur_time now
      && (not (events e).m_is_cancled && not (events e).m_is_stoped)
    then e ∷ due events now es
    else due events now es

none_due :
    (events : ℕ → TimeEvent) (now x : ℕ) (es : List ℕ)
    → now < x
    → All (λ y. x < (events y).m_occur_time) es
    → due events now es ≡ []
none_due events now x [] lt h = refl
none_due events now x (e ∷ es) lt (h, hs) = ground (arith, none_due events now x es lt hs)

callbacks-split :
    (events : ℕ → TimeEvent) (now : ℕ) (es : List ℕ)
    → IsOrdered (λ i. (events i).m_occur_time) es
    → callbacks events (split_expired events now es).0 ≡ due events now es
unfolding callbacks split_expired
callbacks-split events now [] h = refl
callbacks-split events now (e ∷ es) (h, hs) = elim (Bool-cases (leb (events e).m_occur_time now)) [
  | inl le ↦ ground (arith, callbacks-split events now es hs)
  | inr gt ↦ ground (arith, none_due events now (events e).m_occur_time es (ground arith) h)
]

-- The callbacks that a timer in order hands out at `now` are those of all its events that occur at
-- `now` or before and are neither cancelled nor stopped, in the order of their times.
pub get_expired_cbs_lem :
    (now : ℕ) (t : Timer)
    → IsTimer t
    → (get_expired_cbs now t).0 ≡ due t.time_event now t.m_time_events
unfolding get_expired_cbs
get_expired_cbs_lem now t h = callbacks-split t.time_event now t.m_time_events h.ordered

Keeps : ℕ → Timer → Timer → Type 0
Keeps i t t' = Has t'.m_time_events i × (t'.time_event i ≡ t.time_event i)

put_back-Keeps :
    (now e i : ℕ) (t : Timer) → e ≢ i → Has t.m_time_events i → Keeps i t (put_back now e t)
unfolding Keeps put_back
put_back-Keeps now e i t ne h = (Has-insert _ e t.m_time_events i h, ground arith)

repeat-Keeps :
    (now i : ℕ) (es : List ℕ) (t : Timer)
    → All (λ e. e ≢ i) es
    → Has t.m_time_events i
    → Keeps i t (repeat now es t)
unfolding Keeps repeat
repeat-Keeps now i [] t n h = (h, refl)
repeat-Keeps now i (e ∷ es) t (ne, ns) h =
    if_keeps (λ m. Keeps i t (repeat now es m)) _ (put_back now e t) t
      (let (k, q) = put_back-Keeps now e i t ne h in
        let (k', q') = repeat-Keeps now i es (put_back now e t) ns k in (k', q' ∙ q))
      (repeat-Keeps now i es t ns h)

later-outside :
    (events : ℕ → TimeEvent) (now i : ℕ) (es : List ℕ)
    → now < (events i).m_occur_time
    → Has es i
    → All (λ e. e ≢ i) (split_expired events now es).0 × Has (split_expired events now es).1 i
unfolding split_expired
later-outside events now i [] lt h = absurd h
later-outside events now i (e ∷ es) lt (inl q) = rw gt (tt, inl q)
  where
    gt : leb (events e).m_occur_time now ≡ false
    gt = ground (arith, ap (λ x. (events x).m_occur_time) q)
later-outside events now i (e ∷ es) lt (inr h) =
    elim (Bool-cases (leb (events e).m_occur_time now)) [
      | inl le ↦
          let (n, k) = later-outside events now i es lt h in
          rw le (
            (
              λ q. omega (
                arith,
                lt,
                ap (λ x. (events x).m_occur_time) q,
                leb→le (events e).m_occur_time now le,
              ),
              n,
            ),
            k,
          )
      | inr gt ↦ rw gt (tt, inr h)
    ]

-- An event that occurs after `now` is left as it is: it stays in the set, with its time.
pub get_expired_cbs_later :
    (now i : ℕ) (t : Timer)
    → Has t.m_time_events i
    → now < occurs t i
    → Has ((get_expired_cbs now t).1).m_time_events i
      × (((get_expired_cbs now t).1).time_event i ≡ t.time_event i)
unfolding get_expired_cbs Keeps
get_expired_cbs_later now i t h lt =
    let (n, k) = later-outside t.time_event now i t.m_time_events lt h in
    repeat-Keeps now i (split_expired t.time_event now t.m_time_events).0
      (record t { m_time_events = (split_expired t.time_event now t.m_time_events).1 }) n k

first_event-soonest :
    (events : ℕ → TimeEvent) (es : List ℕ) (i : ℕ)
    → IsOrdered (λ e. (events e).m_occur_time) es
    → Has es i
    → (events i).m_is_cancled ≡ false
    → (e : ℕ) × (first_event events es ≡ some e)
      × ((events e).m_occur_time ≤ (events i).m_occur_time)
unfolding first_event
first_event-soonest events [] i h k c = absurd k
first_event-soonest events (e ∷ es) i (h, hs) (inl q) c = (
  e,
  rw (ap (λ x. (events x).m_is_cancled) q ∙ c) refl,
  omega (arith, ap (λ x. (events x).m_occur_time) q),
)
first_event-soonest events (e ∷ es) i (h, hs) (inr k) c =
    elim (Bool-cases (events e).m_is_cancled) [
      | inl yes_ ↦ let (f, p, q) = first_event-soonest events es i hs k c in (f, rw yes_ p, q)
      | inr no_ ↦ (
        e,
        rw no_ refl,
        omega (arith, All-Has (λ y. (events e).m_occur_time < (events y).m_occur_time) es i h k),
      )
    ]

-- The wait that a timer in order returns ends before any event of the set that is not cancelled is
-- overdue.
pub get_latest_te_occur-bound :
    (now i : ℕ) (t : Timer)
    → IsTimer t
    → Has t.m_time_events i
    → (t.time_event i).m_is_cancled ≡ false
    → get_latest_te_occur now t ≤ occurs t i - now
unfolding get_latest_te_occur
get_latest_te_occur-bound now i t h k c =
    let (e, p, q) = first_event-soonest t.time_event t.m_time_events i h.ordered k c in
    rw (p, get_latest_te_occur) (ground (arith, q))

-- A new event that would occur at the very time of one in the set is lost: the set stays as it is.
pub add_time_event-lost :
    (now interval i : ℕ) (is_repeated : Bool) (t : Timer)
    → IsTimer t
    → Has t.m_time_events i
    → occurs t i ≡ occur_time now interval
    → ((add_time_event now interval is_repeated t).1).m_time_events ≡ t.m_time_events
unfolding add_time_event
add_time_event-lost now interval i is_repeated t h k q =
    set_insert_taken _ t.made i t.m_time_events
      (IsOrdered-agree (occurs t) _ t.m_time_events
        (assign_other t.time_event t.made _ t.m_time_events
          (All-map (λ x lt e. omega (arith, lt, e)) t.m_time_events h.known))
        h.ordered)
      k
      (let lt : i < t.made = All-Has (λ x. x < t.made) t.m_time_events i h.known k in ground arith)

-- Of two repeated events with the same interval that expire together, in a timer without others, the
-- second is not put back.
pub get_expired_cbs-lost :
    (now a b : ℕ) (t : Timer)
    → IsTimer t
    → t.m_time_events ≡ a ∷ b ∷ []
    → occurs t b ≤ now
    → (t.time_event a).m_is_repeated ≡ true
    → (t.time_event a).m_is_cancled ≡ false
    → (t.time_event b).m_is_repeated ≡ true
    → (t.time_event b).m_is_cancled ≡ false
    → (t.time_event a).m_interval ≡ (t.time_event b).m_interval
    → ((get_expired_cbs now t).1).m_time_events ≡ a ∷ []
unfolding get_expired_cbs split_expired repeat put_back set_insert
get_expired_cbs-lost now a b t h e le ra ca rb cb same =
    let lt : occurs t a < occurs t b = (subst (IsOrdered (occurs t)) e h.ordered).0.0 in
    rw e (ground arith)
