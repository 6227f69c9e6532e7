-- ===== src/Mutex/Owner.antt =====
-- Who has and who owns the mutex of coroutine/coroutinesync.cpp, over each of its operations.
use c_rpc.Base.{ℕ, ◌≡◌, ◌≢◌, sym, List, Option, Bool, true, false, arith}
use c_rpc.Mutex.{
  CoroutineMutex, Place, outside, trying, failed, pushed, queued, locked, inside, leaving, waking,
  move, new_mutex, call_lock, try_lock, own, disown, unlock_mutex,
}

-- The places at which a coroutine has `m_mutex`.
abbrev pub holds : Place → Bool
holds outside = false
holds trying = false
holds failed = false
holds pushed = false
holds queued = false
holds locked = true
holds inside = true
holds (leaving woken) = true
holds (waking woken) = false

-- Whoever has `m_mutex` is the only one, and it is taken; whoever owns the mutex has `m_mutex`.
pub record IsExclusive (s : CoroutineMutex) : Type 0 where
  pub only : (i j : ℕ) → holds (s.place i) ≡ true → holds (s.place j) ≡ true → i ≡ j
  pub taken : (i : ℕ) → holds (s.place i) ≡ true → s.m_mutex ≡ true
  pub owner : (i : ℕ) → s.m_coroutine_id ≡ i → i ≢ 0 → s.place i ≡ inside
  pub owned : (i : ℕ) → s.place i ≡ inside → s.m_coroutine_id ≡ i

pub new_mutex-IsExclusive : IsExclusive new_mutex
unfolding new_mutex
new_mutex-IsExclusive = record {
  only = λ i j p q. ground (arith, p);
  taken = λ i p. ground (arith, p);
  owner = λ i p n. absurd (n (sym p));
  owned = λ i p. ground (arith, p);
}

-- A step that neither takes nor frees `m_mutex`, nor changes its owner.
pub move-IsExclusive :
    (me : ℕ) (p : Place) (q r : List ℕ) (s : CoroutineMutex)
    → holds p ≡ holds (s.place me)
    → s.place me ≢ inside
    → p ≢ inside
    → IsExclusive s
    → IsExclusive (move me p (record s { m_wait_queue = q; ready = r }))
move-IsExclusive me p q r s same at away h = record {
  only = λ i j a b. ground (arith, same, h.only i j, a, b);
  taken = λ i a. ground (arith, same, h.taken i, a);
  owner = λ i a n. ground (arith, at, h.owner i a n);
  owned = λ i a. ground (arith, away, h.owned i, a);
}

pub try_lock-IsExclusive :
    (me : ℕ) (s : CoroutineMutex)
    → s.place me ≡ trying
    → IsExclusive s
    → IsExclusive (try_lock me s)
unfolding try_lock
try_lock-IsExclusive me s at h = record {
  only = λ i j p q. ground (arith, at, h.only i j, h.taken i, h.taken j, p, q);
  taken = λ i p. ground (arith, at, h.taken i, p);
  owner = λ i p n. ground (arith, at, h.owner i, p, n);
  owned = λ i p. ground (arith, at, h.owned i, p);
}

pub own-IsExclusive :
    (me : ℕ) (s : CoroutineMutex) → s.place me ≡ locked → IsExclusive s → IsExclusive (own me s)
unfolding own
own-IsExclusive me s at h = record {
  only = λ i j p q. ground (arith, at, h.only i j, p, q);
  taken = λ i p. ground (arith, at, h.taken i, p);
  owner = λ i p n. ground (arith, at, p);
  owned = λ i p. ground (arith, at, h.only i me, p);
}

pub unlock_mutex-IsExclusive :
    (me : ℕ) (woken : Option ℕ) (s : CoroutineMutex)
    → s.place me ≡ leaving woken
    → IsExclusive s
    → IsExclusive (unlock_mutex me woken s)
unfolding unlock_mutex
unlock_mutex-IsExclusive me woken s at h = record {
  only = λ i j p q. ground (arith, at, h.only i j, p, q);
  taken = λ i p. ground (arith, at, h.only i me, p);
  owner = λ i p n. ground (arith, at, h.owner i p n);
  owned = λ i p. ground (arith, at, h.owned i, p);
}

pub call_lock-IsExclusive :
    (me : ℕ) (s : CoroutineMutex)
    → me ≢ 0
    → s.place me ≡ outside
    → IsExclusive s
    → IsExclusive (call_lock me s)
unfolding call_lock
call_lock-IsExclusive me s n at h = record {
  only = λ i j p q. ground (arith, at, h.owner me, n, h.only i j, p, q);
  taken = λ i p. ground (arith, at, h.owner me, n, h.taken i, p);
  owner = λ i p k. ground (arith, at, h.owner me, n, h.owner i, p, k);
  owned = λ i p. ground (arith, at, h.owner me, n, h.owned i, p);
}

-- A nested lock changes nothing.
pub call_lock-again :
    (me : ℕ) (s : CoroutineMutex)
    → s.place me ≡ inside
    → IsExclusive s
    → IsExclusive (call_lock me s)
unfolding call_lock
call_lock-again me s at h = record {
  only = λ i j p q. ground (arith, at, h.owned me, h.only i j, p, q);
  taken = λ i p. ground (arith, at, h.owned me, h.taken i, p);
  owner = λ i p k. ground (arith, at, h.owned me, h.owner i, p, k);
  owned = λ i p. ground (arith, at, h.owned me, h.owned i, p);
}

-- Neither does an unlock of a coroutine that is outside.
pub disown-again :
    (me : ℕ) (s : CoroutineMutex) → me ≢ 0 → s.place me ≡ outside → IsExclusive s → disown me s ≡ s
unfolding disown
disown-again me s n at h = ground (arith, at, n, h.owner me)

pub disown-IsExclusive :
    (me : ℕ) (s : CoroutineMutex) → s.place me ≡ inside → IsExclusive s → IsExclusive (disown me s)
unfolding disown
disown-IsExclusive me s at h = record {
  only = λ i j p q. ground (arith, at, h.only i j, p, q);
  taken = λ i p. ground (arith, at, h.taken i, h.taken me, p);
  owner = λ i p k. ground (arith, at, h.owner i, p, k);
  owned = λ i p. ground (arith, at, h.owned me, h.owned i, h.only i me, p);
}
