-- ===== src/Raft/Outcome.antt =====
-- How a call ends, and the coroutine mutexes (coroutine/coroutinesync.cpp) as far as a call of
-- raft/ sees them.
use c_rpc.Base.{ℕ, ◌==◌, ◌||◌, if◌then◌else◌}

-- `blocked`: the coroutine waits for a mutex that another holds, and the call does not go on.
-- `fault`: the call reads outside of a vector, or a variable without a value, which is undefined.
pub data Outcome {ℓ} (A : Type ℓ) : Type ℓ where
  done : A → Outcome A
  blocked : Outcome A
  fault : Outcome A

-- A mutex is the id of the coroutine that holds it, 0 for none: ids start at 1. `lock` returns at
-- once if the caller holds it already, and `unlock` does nothing if another does.
unfoldable pub acquire : ℕ → ℕ → Outcome ℕ
acquire me owner = if (owner == me) || (owner == 0) then done me else blocked

unfoldable pub release : ℕ → ℕ → ℕ
release me owner = if owner == me then 0 else owner
