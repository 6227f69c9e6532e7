-- ===== src/Channel.antt =====
-- `CoroutineChannal` of coroutine/coroutinechannal.h, a bounded queue between coroutines. What a
-- coroutine does from `lock` to the next wait or return is one section.
pub mod Runs
pub mod Wakes
mod Examples
mod WakeExamples
use c_rpc.Base.{ℕ, ◌+◌, List, [], ◌∷◌, ◌++◌, length, Bool, true, false, leb, if◌then◌else◌}

-- The condition variables are the coroutines that wait, in their order. `ready` are those that have
-- been handed back to the scheduler.
pub record CoroutineChannal {ℓ} (T : Type ℓ) : Type ℓ where
  pub m_is_close : Bool
  pub m_capacity : ℕ
  pub m_push_cv : List ℕ
  pub m_pop_cv : List ℕ
  pub m_queue : List T
  pub ready : List ℕ

-- How a section of a call ends: the call returns, or its coroutine waits to be woken, and then goes
-- on with the same section.
pub data Ending {ℓ} (A : Type ℓ) : Type ℓ where
  returned : A → Ending A
  waiting : Ending A

unfoldable pub new_channal {ℓ} : {T : Type ℓ} → ℕ → CoroutineChannal T
new_channal capacity = record {
  m_is_close = false;
  m_capacity = capacity;
  m_push_cv = [];
  m_pop_cv = [];
  m_queue = [];
  ready = [];
}

-- notify: the first that waits is woken.
unfoldable pub notify_pop {ℓ} : {T : Type ℓ} → CoroutineChannal T → CoroutineChannal T
notify_pop c = elim c.m_pop_cv [
  | [] ↦ c
  | first ∷ others ↦ record c { m_pop_cv = others; ready = c.ready ++ first ∷ [] }
]

unfoldable pub notify_push {ℓ} : {T : Type ℓ} → CoroutineChannal T → CoroutineChannal T
notify_push c = elim c.m_push_cv [
  | [] ↦ c
  | first ∷ others ↦ record c { m_push_cv = others; ready = c.ready ++ first ∷ [] }
]

-- push, of the coroutine `me`. The tests on waking are those at the start.
unfoldable pub push {ℓ} :
    {T : Type ℓ} → ℕ → T → CoroutineChannal T → Ending Bool × CoroutineChannal T
push me t c =
    if c.m_is_close
    then (returned false, c)
    else if leb c.m_capacity (length c.m_queue)
    then (waiting, record c { m_push_cv = c.m_push_cv ++ me ∷ [] })
    else (returned true, notify_pop (record c { m_queue = c.m_queue ++ t ∷ [] }))

-- pop: a call that succeeds returns the front of the queue, one that fails nothing.
unfoldable pub pop {ℓ} :
    {T : Type ℓ} → ℕ → CoroutineChannal T → Ending (List T) × CoroutineChannal T
pop me c = if c.m_is_close then (returned [], c) else elim c.m_queue [
  | [] ↦ (waiting, record c { m_pop_cv = c.m_pop_cv ++ me ∷ [] })
  | front ∷ rest ↦ (returned (front ∷ []), notify_push (record c { m_queue = rest }))
]

unfoldable pub close {ℓ} : {T : Type ℓ} → CoroutineChannal T → CoroutineChannal T
close c = if c.m_is_close then c else record c {
  m_is_close = true;
  m_push_cv = [];
  m_pop_cv = [];
  ready = c.ready ++ (c.m_push_cv ++ c.m_pop_cv);
}
