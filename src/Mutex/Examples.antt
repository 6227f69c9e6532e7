-- ===== src/Mutex/Examples.antt =====
-- Two coroutines and one mutex.
use c_rpc.Base.{ℕ, ◌≡◌, refl, [], ◌∷◌, false, arith}
use c_rpc.Mutex.{
  CoroutineMutex, outside, queued, new_mutex, Steps, call_lock, try_lock, own, calls, tries, owns,
  here, next,
}
use c_rpc.Mutex.Exclusion.{mutual_exclusion, lost_wake_up}

abbrev first : ℕ
first = 1

-- The first is inside, the second calls `tryLock`.
abbrev contended : CoroutineMutex
contended = call_lock 2 (own 1 (try_lock 1 (call_lock 1 new_mutex)))

contended_run : Steps new_mutex contended
unfolding call_lock try_lock own new_mutex
contended_run =
    next (next (next (next here (calls 1 (omega arith) refl)) (tries 1 refl)) (owns 1 refl))
      (calls 2 (omega arith) refl)

mutual_exclusion_example : first ≡ first
unfolding call_lock try_lock own new_mutex
mutual_exclusion_example = mutual_exclusion contended first first contended_run refl refl

lost_wake_up_example :
    (s' : CoroutineMutex) × Steps contended s'
    × (s'.m_mutex ≡ false)
    × (s'.m_wait_queue ≡ 2 ∷ [])
    × (s'.place 2 ≡ queued)
    × (s'.place 1 ≡ outside)
    × (s'.ready ≡ [])
unfolding call_lock try_lock own new_mutex
lost_wake_up_example = lost_wake_up 1 2 contended (omega arith) refl refl refl refl refl
