-- ===== src/Mutex/Exclusion.antt =====
-- Mutual exclusion, and the wake-up that is lost, of coroutine/coroutinesync.cpp.
use c_rpc.Base.{ℕ, ◌≡◌, ◌≢◌, refl, sym, ap, [], ◌∷◌, ◌++◌, none, some, true, false, arith}
use mathlib.Core.Path.{subst}
use c_rpc.Mutex.{
  CoroutineMutex, outside, trying, failed, pushed, queued, inside, leaving, waking, move, new_mutex,
  try_lock, enqueue, suspend, disown, unlock_mutex, wake, Step, Steps, calls, calls_again, tries,
  enqueues, suspends, owns, disowns_again, disowns, unlocks, resumes, resume, without, wakes, here,
  next,
}
use c_rpc.Mutex.Owner.{
  IsExclusive, new_mutex-IsExclusive, move-IsExclusive, try_lock-IsExclusive, own-IsExclusive,
  unlock_mutex-IsExclusive, call_lock-IsExclusive, call_lock-again, disown-again,
  disown-IsExclusive,
}

Step-IsExclusive : (s s' : CoroutineMutex) → Step s s' → IsExclusive s → IsExclusive s'
unfolding enqueue suspend wake resume
Step-IsExclusive s s' (calls me n at) h = call_lock-IsExclusive me s n at h
Step-IsExclusive s s' (calls_again me at) h = call_lock-again me s at h
Step-IsExclusive s s' (tries me at) h = try_lock-IsExclusive me s at h
Step-IsExclusive s s' (enqueues me at) h =
    move-IsExclusive me pushed (s.m_wait_queue ++ me ∷ []) s.ready s (ground (arith, at))
      (λ p. ground (arith, at, p)) (λ p. ground (arith, p)) h
Step-IsExclusive s s' (suspends me at) h =
    move-IsExclusive me queued s.m_wait_queue s.ready s (ground (arith, at))
      (λ p. ground (arith, at, p)) (λ p. ground (arith, p)) h
Step-IsExclusive s s' (owns me at) h = own-IsExclusive me s at h
Step-IsExclusive s s' (disowns me at) h = disown-IsExclusive me s at h
Step-IsExclusive s s' (disowns_again me n at) h =
    subst IsExclusive (sym (disown-again me s n at h)) h
Step-IsExclusive s s' (unlocks me woken at) h = unlock_mutex-IsExclusive me woken s at h
Step-IsExclusive s s' (resumes me at r) h =
    move-IsExclusive me trying s.m_wait_queue (without me s.ready) s (ground (arith, at))
      (λ p. ground (arith, at, p)) (λ p. ground (arith, p)) h
Step-IsExclusive s s' (wakes me none at) h =
    move-IsExclusive me outside s.m_wait_queue s.ready s (ground (arith, at))
      (λ p. ground (arith, at, p)) (λ p. ground (arith, p)) h
Step-IsExclusive s s' (wakes me (some first) at) h =
    move-IsExclusive me outside s.m_wait_queue (s.ready ++ first ∷ []) s (ground (arith, at))
      (λ p. ground (arith, at, p)) (λ p. ground (arith, p)) h

Steps-IsExclusive : (s s' : CoroutineMutex) → Steps s s' → IsExclusive s → IsExclusive s'
Steps-IsExclusive s s' here h = h
Steps-IsExclusive s s' (next {s1} run step) h =
    Step-IsExclusive s1 s' step (Steps-IsExclusive s s1 run h)

-- However the steps of coroutines follow each other, with nested calls of `lock` and `unlock`, no two of
-- them are between `lock` and the first `unlock` behind it at the same time, provided that the scheduler
-- goes on with a coroutine of the queue only once it has yielded.
pub mutual_exclusion :
    (s : CoroutineMutex) (i j : ℕ)
    → Steps new_mutex s
    → s.place i ≡ inside
    → s.place j ≡ inside
    → i ≡ j
mutual_exclusion s i j run p q =
    let h = Steps-IsExclusive new_mutex s run new_mutex-IsExclusive in
    h.only i j (ground (arith, p)) (ground (arith, q))

try_lock-taken : (me : ℕ) (s : CoroutineMutex) → s.m_mutex ≡ true → try_lock me s ≡ move me failed s
unfolding try_lock
try_lock-taken me s e = ground (arith, e)

pub disown-alone :
    (me : ℕ) (s : CoroutineMutex)
    → s.m_coroutine_id ≡ me
    → s.m_wait_queue ≡ []
    → disown me s ≡ move me (leaving none) (record s { m_coroutine_id = 0 })
unfolding disown
disown-alone me s o q = ground (arith, o, q)

-- A coroutine that calls `tryLock` while another is inside, and nobody is in the queue, can come to
-- wait in the queue of a free mutex, with the other gone and without being handed to the scheduler.
pub lost_wake_up :
    (me other : ℕ) (s : CoroutineMutex)
    → me ≢ other
    → s.m_mutex ≡ true
    → s.m_coroutine_id ≡ me
    → s.m_wait_queue ≡ []
    → s.place me ≡ inside
    → s.place other ≡ trying
    → (s' : CoroutineMutex) × Steps s s'
      × (s'.m_mutex ≡ false)
      × (s'.m_wait_queue ≡ other ∷ [])
      × (s'.place other ≡ queued)
      × (s'.place me ≡ outside)
      × (s'.ready ≡ s.ready)
unfolding enqueue suspend wake unlock_mutex
lost_wake_up me other s n taken owner queue at at' = (
  move other queued
      (move other pushed (record s4 { m_wait_queue = s4.m_wait_queue ++ other ∷ [] })),
  next
      (next
        (next
          (next
            (next (next here (subst (Step s) tried (tries other at')))
              (subst (Step s1) disowned (disowns me (ground (arith, at)))))
            (unlocks me none (ground arith)))
          (wakes me none (ground arith)))
        (enqueues other (ground arith)))
      (suspends other (ground arith)),
  refl,
  ap (λ q. q ++ other ∷ []) queue,
  ground arith,
  ground arith,
  refl,
)
  where
    s1 : CoroutineMutex
    s1 = move other failed s

    s2 : CoroutineMutex
    s2 = move me (leaving none) (record s1 { m_coroutine_id = 0 })

    s4 : CoroutineMutex
    s4 = move me outside (move me (waking none) (record s2 { m_mutex = false }))

    tried : try_lock other s ≡ s1
    tried = try_lock-taken other s taken

    disowned : disown me s1 ≡ s2
    disowned = disown-alone me s1 owner queue
