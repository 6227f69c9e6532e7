-- ===== src/Channel/Wakes.antt =====
-- The wake-ups of coroutine/coroutinechannal.h: who waits is woken if there is something to do.
use c_rpc.Base.{
  ℕ, ◌+◌, ◌-◌, ◌≤◌, ◌<◌, ◌≡◌, ◌≢◌, ◌⊎◌, refl, List, [], ◌∷◌, length, length-append, false, arith,
}
use c_rpc.Channel.{CoroutineChannal, new_channal, notify_pop, notify_push, push, pop, close}

-- A channel with the number of the calls of pop and of push that have been woken and have not gone on.
pub record Scheduled (T : Type 0) : Type 0 where
  pub channal : CoroutineChannal T
  pub pops : ℕ
  pub pushes : ℕ

-- Those that have left a queue of waiting coroutines have been woken.
abbrev pub left : List ℕ → List ℕ → ℕ
left before after = length before - length after

module _ {T : Type 0} where
  abbrev pub after : Scheduled T → CoroutineChannal T → Scheduled T
  after s c = record {
    channal = c;
    pops = s.pops + left s.channal.m_pop_cv c.m_pop_cv;
    pushes = s.pushes + left s.channal.m_push_cv c.m_push_cv;
  }

  -- A call starts, or one that was woken goes on, or the channel is closed.
  pub data Turn (s : Scheduled T) : Scheduled T → Type 0 where
    push_called : (me : ℕ) (t : T) → Turn s (after s (push me t s.channal).1)
    pop_called : (me : ℕ) → Turn s (after s (pop me s.channal).1)
    push_resumed :
        (me : ℕ) (t : T)
        → 0 < s.pushes
        → Turn s (after (record s { pushes = s.pushes - 1 }) (push me t s.channal).1)
    pop_resumed :
        (me : ℕ) → 0 < s.pops → Turn s (after (record s { pops = s.pops - 1 }) (pop me s.channal).1)
    closes : Turn s (after s (close s.channal))

  pub data Turns (s : Scheduled T) : Scheduled T → Type 0 where
    here : Turns s s
    next : {s1 s2 : Scheduled T} → Turns s s1 → Turn s1 s2 → Turns s s2

  -- Enough of those that wait have been woken for what is in the queue, and for what is free in it; nobody
  -- waits for a closed channel.
  IsAwake : Scheduled T → Type 0
  IsAwake s =
      ((s.channal.m_pop_cv ≡ []) ⊎ (length s.channal.m_queue ≤ s.pops))
      × ((s.channal.m_push_cv ≡ []) ⊎ (s.channal.m_capacity ≤ length s.channal.m_queue + s.pushes))
      × ((s.channal.m_is_close ≡ false) ⊎ ((s.channal.m_pop_cv ≡ []) × (s.channal.m_push_cv ≡ [])))

  push-IsAwake :
      (me : ℕ) (t : T) (s : Scheduled T) → IsAwake s → IsAwake (after s (push me t s.channal).1)
  unfolding IsAwake push notify_pop
  push-IsAwake me t s h =
      ground (
        arith,
        length-append s.channal.m_queue (t ∷ []),
        length-append s.channal.m_push_cv (me ∷ []),
      )

  pop-IsAwake : (me : ℕ) (s : Scheduled T) → IsAwake s → IsAwake (after s (pop me s.channal).1)
  unfolding IsAwake pop notify_push
  pop-IsAwake me s h = ground (arith, length-append s.channal.m_pop_cv (me ∷ []))

  close-IsAwake : (s : Scheduled T) → IsAwake s → IsAwake (after s (close s.channal))
  unfolding IsAwake close
  close-IsAwake s h = ground arith

  push_resumed-IsAwake :
      (me : ℕ) (t : T) (s : Scheduled T)
      → 0 < s.pushes
      → IsAwake s
      → IsAwake (after (record s { pushes = s.pushes - 1 }) (push me t s.channal).1)
  unfolding IsAwake push notify_pop
  push_resumed-IsAwake me t s lt h =
      ground (
        arith,
        length-append s.channal.m_queue (t ∷ []),
        length-append s.channal.m_push_cv (me ∷ []),
      )

  pop_resumed-IsAwake :
      (me : ℕ) (s : Scheduled T)
      → 0 < s.pops
      → IsAwake s
      → IsAwake (after (record s { pops = s.pops - 1 }) (pop me s.channal).1)
  unfolding IsAwake pop notify_push
  pop_resumed-IsAwake me s lt h = ground (arith, length-append s.channal.m_pop_cv (me ∷ []))

  turns-IsAwake : (s s' : Scheduled T) → Turns s s' → IsAwake s → IsAwake s'
  turns-IsAwake s s' here h = h
  turns-IsAwake s s' (next {s1} run (push_called me t)) h =
      push-IsAwake me t s1 (turns-IsAwake s s1 run h)
  turns-IsAwake s s' (next {s1} run (pop_called me)) h =
      pop-IsAwake me s1 (turns-IsAwake s s1 run h)
  turns-IsAwake s s' (next {s1} run (push_resumed me t lt)) h =
      push_resumed-IsAwake me t s1 lt (turns-IsAwake s s1 run h)
  turns-IsAwake s s' (next {s1} run (pop_resumed me lt)) h =
      pop_resumed-IsAwake me s1 lt (turns-IsAwake s s1 run h)
  turns-IsAwake s s' (next {s1} run closes) h = close-IsAwake s1 (turns-IsAwake s s1 run h)

  new-IsAwake :
      (capacity : ℕ) (c : CoroutineChannal T)
      → c ≡ new_channal capacity
      → IsAwake (record { channal = c; pops = 0; pushes = 0 })
  unfolding IsAwake new_channal
  new-IsAwake capacity c e = ground arith

  -- No wake-up is lost: whatever calls run on a new channel in whatever order, where a call of pop waits
  -- although the queue is not empty, another has been woken that will take what is in it.
  pub pop_woken :
      (capacity : ℕ) (s : Scheduled T)
      → Turns (record { channal = new_channal capacity; pops = 0; pushes = 0 }) s
      → s.channal.m_pop_cv ≢ []
      → s.channal.m_queue ≢ []
      → 0 < s.pops
  unfolding IsAwake
  pop_woken capacity s run waits some_ = ground (
    arith,
    turns-IsAwake (record { channal = new_channal capacity; pops = 0; pushes = 0 }) s run
        (new-IsAwake capacity (new_channal capacity) refl),
  )

  -- Likewise where a call of push waits although the queue is not full.
  pub push_woken :
      (capacity : ℕ) (s : Scheduled T)
      → Turns (record { channal = new_channal capacity; pops = 0; pushes = 0 }) s
      → s.channal.m_push_cv ≢ []
      → length s.channal.m_queue < s.channal.m_capacity
      → 0 < s.pushes
  unfolding IsAwake
  push_woken capacity s run waits room = ground (
    arith,
    turns-IsAwake (record { channal = new_channal capacity; pops = 0; pushes = 0 }) s run
        (new-IsAwake capacity (new_channal capacity) refl),
  )
