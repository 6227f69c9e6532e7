-- ===== src/Mutex.antt =====
-- `CoroutineMutex` of coroutine/coroutinesync.cpp, between coroutines that run on several threads: what
-- a coroutine does in `lock` and `unlock` from one access of what is shared to the next is one step. A
-- coroutine that is inside can call `lock` again, and one that is outside `unlock`, as nested calls do. The
-- scheduler goes on with a coroutine only once it has yielded.
pub mod Owner
pub mod Exclusion
pub mod Nested
mod Examples
use c_rpc.Base.{
  ℕ, suc, ◌≡◌, ◌≢◌, List, [], ◌∷◌, ◌++◌, Option, none, some, Bool, true, false, ◌==◌, if◌then◌else◌,
}

-- Where a coroutine is. `trying`: it calls `tryLock`. `failed`: that was in vain. `pushed`: it is in the
-- queue, and still runs. `queued`: it has yielded. `locked`: it has `m_mutex`. `inside`: it has returned from `lock`. `leaving`:
-- `unlock` has given up the ownership, and knows whom to wake. `waking`: `m_mutex` is free again.
pub data Place : Type 0 where
  outside trying failed pushed queued locked inside : Place
  leaving waking : Option ℕ → Place

-- `m_coroutineId` is 0 if nobody owns the mutex; ids start at 1. `ready` are the coroutines that have been
-- handed back to the scheduler.
pub record CoroutineMutex : Type 0 where
  pub m_mutex : Bool
  pub m_coroutine_id : ℕ
  pub m_wait_queue : List ℕ
  pub place : ℕ → Place
  pub ready : List ℕ

abbrev pub move : ℕ → Place → CoroutineMutex → CoroutineMutex
move i p s = record s { place = λ j. if j == i then p else s.place j }

unfoldable pub new_mutex : CoroutineMutex
new_mutex = record {
  m_mutex = false;
  m_coroutine_id = 0;
  m_wait_queue = [];
  place = λ i. outside;
  ready = [];
}

-- lock: a coroutine that owns the mutex returns at once.
unfoldable pub call_lock : ℕ → CoroutineMutex → CoroutineMutex
call_lock me s = if s.m_coroutine_id == me then move me inside s else move me trying s

unfoldable pub try_lock : ℕ → CoroutineMutex → CoroutineMutex
try_lock me s = if s.m_mutex then move me failed s else move me locked (record s { m_mutex = true })

unfoldable pub enqueue : ℕ → CoroutineMutex → CoroutineMutex
enqueue me s = move me pushed (record s { m_wait_queue = s.m_wait_queue ++ me ∷ [] })

-- The yield that follows.
unfoldable pub suspend : ℕ → CoroutineMutex → CoroutineMutex
suspend me s = move me queued s

unfoldable pub own : ℕ → CoroutineMutex → CoroutineMutex
own me s = move me inside (record s { m_coroutine_id = me })

-- unlock, in three steps. Who does not own the mutex returns at once.
unfoldable pub disown : ℕ → CoroutineMutex → CoroutineMutex
disown me s =
    if s.m_coroutine_id == me
    then (elim s.m_wait_queue [
      | [] ↦ move me (leaving none) (record s { m_coroutine_id = 0 })
      | first ∷ others ↦
          move me (leaving (some first)) (record s { m_coroutine_id = 0; m_wait_queue = others })
    ])
    else s

unfoldable pub unlock_mutex : ℕ → Option ℕ → CoroutineMutex → CoroutineMutex
unlock_mutex me woken s = move me (waking woken) (record s { m_mutex = false })

unfoldable pub wake : ℕ → Option ℕ → CoroutineMutex → CoroutineMutex
wake me none s = move me outside s
wake me (some first) s = move me outside (record s { ready = s.ready ++ first ∷ [] })

unfoldable pub is_ready : ℕ → List ℕ → Bool
is_ready me [] = false
is_ready me (i ∷ is) = let rest = is_ready me is in if i == me then true else rest

unfoldable pub without : ℕ → List ℕ → List ℕ
without me [] = []
without me (i ∷ is) = let rest = without me is in if i == me then is else i ∷ rest

-- The scheduler goes on with a coroutine, which calls `tryLock` again.
unfoldable pub resume : ℕ → CoroutineMutex → CoroutineMutex
resume me s = move me trying (record s { ready = without me s.ready })

-- A step of a coroutine that is at the place where it does this.
pub data Step (s : CoroutineMutex) : CoroutineMutex → Type 0 where
  calls : (me : ℕ) → me ≢ 0 → s.place me ≡ outside → Step s (call_lock me s)
  calls_again : (me : ℕ) → s.place me ≡ inside → Step s (call_lock me s)
  tries : (me : ℕ) → s.place me ≡ trying → Step s (try_lock me s)
  enqueues : (me : ℕ) → s.place me ≡ failed → Step s (enqueue me s)
  suspends : (me : ℕ) → s.place me ≡ pushed → Step s (suspend me s)
  owns : (me : ℕ) → s.place me ≡ locked → Step s (own me s)
  disowns : (me : ℕ) → s.place me ≡ inside → Step s (disown me s)
  disowns_again : (me : ℕ) → me ≢ 0 → s.place me ≡ outside → Step s (disown me s)
  unlocks :
      (me : ℕ) (woken : Option ℕ) → s.place me ≡ leaving woken → Step s (unlock_mutex me woken s)
  resumes : (me : ℕ) → s.place me ≡ queued → is_ready me s.ready ≡ true → Step s (resume me s)
  wakes : (me : ℕ) (woken : Option ℕ) → s.place me ≡ waking woken → Step s (wake me woken s)

pub data Steps (s : CoroutineMutex) : CoroutineMutex → Type 0 where
  here : Steps s s
  next : {s1 s2 : CoroutineMutex} → Steps s s1 → Step s1 s2 → Steps s s2
