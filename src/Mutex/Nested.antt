-- ===== src/Mutex/Nested.antt =====
-- Nested calls of `lock` in coroutine/coroutinesync.cpp: the inner `unlock` gives the mutex up.
use c_rpc.Base.{ℕ, ◌+◌, ◌≡◌, ◌==◌, if◌then◌else◌}
use c_rpc.Mutex.{
  CoroutineMutex, new_mutex, Step, Steps, calls, calls_again, tries, enqueues, suspends, owns,
  disowns, disowns_again, unlocks, resumes, wakes, here, next,
}

-- Whether a step is a call of `lock`, or of `unlock`, by `me`.
unfoldable pub locks_by : {s s' : CoroutineMutex} → ℕ → Step s s' → ℕ
locks_by me (calls i n e) = if i == me then 1 else 0
locks_by me (calls_again i e) = if i == me then 1 else 0
locks_by me (tries i e) = 0
locks_by me (enqueues i e) = 0
locks_by me (suspends i e) = 0
locks_by me (owns i e) = 0
locks_by me (disowns i e) = 0
locks_by me (disowns_again i n e) = 0
locks_by me (unlocks i woken e) = 0
locks_by me (resumes i e r) = 0
locks_by me (wakes i woken e) = 0

unfoldable pub unlocks_by : {s s' : CoroutineMutex} → ℕ → Step s s' → ℕ
unlocks_by me (disowns i e) = if i == me then 1 else 0
unlocks_by me (disowns_again i n e) = if i == me then 1 else 0
unlocks_by me (calls i n e) = 0
unlocks_by me (calls_again i e) = 0
unlocks_by me (tries i e) = 0
unlocks_by me (enqueues i e) = 0
unlocks_by me (suspends i e) = 0
unlocks_by me (owns i e) = 0
unlocks_by me (unlocks i woken e) = 0
unlocks_by me (resumes i e r) = 0
unlocks_by me (wakes i woken e) = 0

-- How often `me` calls `lock` in a run, and `unlock`.
unfoldable pub locks_in : {s s' : CoroutineMutex} → ℕ → Steps s s' → ℕ
unfolding locks_by
locks_in me here = 0
locks_in me (next run step) = locks_in me run + locks_by me step

unfoldable pub unlocks_in : {s s' : CoroutineMutex} → ℕ → Steps s s' → ℕ
unfolding unlocks_by
unlocks_in me here = 0
unlocks_in me (next run step) = unlocks_in me run + unlocks_by me step

-- A run of a new mutex with so many calls.
Reaches : ℕ → ℕ → ℕ → CoroutineMutex → Type 0
Reaches me a b s = (run : Steps new_mutex s) × (locks_in me run ≡ a) × (unlocks_in me run ≡ b)
