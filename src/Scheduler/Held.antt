-- ===== src/Scheduler/Held.antt =====
-- The coroutines of coroutine/scheduler.cpp that are queued, on a thread, or being added, and the steps of
-- addTask.
use c_rpc.Base.{
  ℕ, suc, ◌≤◌, ◌≡◌, refl, List, [], ◌∷◌, ◌++◌, Option, none, some, Bool, true, false, not, ◌==◌,
  ◌||◌, arith,
}
use c_rpc.Scheduler.{
  Scheduler, Worker, none_, created, started, testing, taking, empty_handed, leaving, ended, took,
  running, returned, adding, passed, pushing, at, make_coroutine, make_task, push_coroutine,
  push_task,
}

abbrev pub mem : ℕ → List ℕ → Bool
mem i [] = false
mem i (x ∷ xs) = (i == x) || mem i xs

mem-snoc : (i j : ℕ) (xs : List ℕ) → mem i (xs ++ j ∷ []) ≡ (mem i xs || (i == j))
mem-snoc i j [] = ground arith
mem-snoc i j (x ∷ xs) = ground (arith, mem-snoc i j xs)

abbrev pub Unique : List ℕ → Type 0
Unique [] = Unit {0}
Unique (x ∷ xs) = (mem x xs ≡ false) × Unique xs

Unique-snoc : (j : ℕ) (xs : List ℕ) → mem j xs ≡ false → Unique xs → Unique (xs ++ j ∷ [])
Unique-snoc j [] n h = (refl, tt)
Unique-snoc j (x ∷ xs) n (m, h) =
    (ground (arith, mem-snoc x j xs), Unique-snoc j xs (ground arith) h)

abbrev is_again : Option ℕ → ℕ → Bool
is_again none i = false
is_again (some j) i = i == j

-- The thread, or the call of addTask, has the coroutine `i`.
abbrev pub holds : Worker → ℕ → Bool
holds none_ i = false
holds created i = false
holds started i = false
holds testing i = false
holds taking i = false
holds empty_handed i = false
holds leaving i = false
holds ended i = false
holds (took j) i = i == j
holds (running j) i = i == j
holds (returned j) i = i == j
holds (adding cbs again) i = is_again again i
holds (passed cb cbs again) i = is_again again i
holds (pushing j cbs again) i = (i == j) || is_again again i

-- What is to be pushed is not what is to be added behind it.
abbrev pub apart : Worker → Bool
apart (pushing j cbs again) = not (is_again again j)
apart none_ = true
apart created = true
apart started = true
apart testing = true
apart taking = true
apart empty_handed = true
apart leaving = true
apart ended = true
apart (took j) = true
apart (running j) = true
apart (returned j) = true
apart (adding cbs again) = true
apart (passed cb cbs again) = true

-- A coroutine that was made, and is neither in the queue nor on a thread, nor being added.
unfoldable pub LetGo : Scheduler → ℕ → Type 0
LetGo s i =
    (mem i s.m_tasks ≡ false) × ((t : ℕ) → holds (s.workers t) i ≡ false) × (i ≤ s.m_coroutine_id)

pub record IsOnce (s : Scheduler) : Type 0 where
  pub unique : Unique s.m_tasks
  pub queued : (i t : ℕ) → mem i s.m_tasks ≡ true → holds (s.workers t) i ≡ false
  pub once : (i t u : ℕ) → holds (s.workers t) i ≡ true → holds (s.workers u) i ≡ true → t ≡ u
  pub old : (i : ℕ) → mem i s.m_tasks ≡ true → i ≤ s.m_coroutine_id
  pub held : (i t : ℕ) → holds (s.workers t) i ≡ true → i ≤ s.m_coroutine_id
  pub aparts : (t : ℕ) → apart (s.workers t) ≡ true

-- A thread keeps its coroutine, or gives it up.
pub at-IsOnce :
    (t : ℕ) (w : Worker) (s : Scheduler)
    → ((i : ℕ) → holds w i ≡ true → holds (s.workers t) i ≡ true)
    → apart w ≡ true
    → IsOnce s
    → IsOnce (at t w s)
at-IsOnce t w s less ap_ h = record {
  unique = h.unique;
  queued = λ i u m. ground (arith, h.queued i u m, less i);
  once = λ i u v a b. ground (arith, a, b, h.once i u v, less i);
  old = h.old;
  held = λ i u a. ground (arith, a, h.held i u, less i);
  aparts = λ u. ground (arith, ap_, h.aparts u);
}

-- Only the states, the callbacks and the guard of addTask are others, and the counter has not gone back.
pub frame-IsOnce :
    (s s' : Scheduler)
    → s'.m_tasks ≡ s.m_tasks
    → s'.workers ≡ s.workers
    → s.m_coroutine_id ≤ s'.m_coroutine_id
    → IsOnce s
    → IsOnce s'
frame-IsOnce s s' e f g h = record {
  unique = rw e h.unique;
  queued = rw (e, f) h.queued;
  once = rw f h.once;
  old = rw e (λ i m. omega (arith, h.old i m));
  held = rw f (λ i t a. omega (arith, h.held i t a));
  aparts = rw f h.aparts;
}

-- A call of addTask gets a coroutine that nobody has.
pub get-IsOnce :
    (t i : ℕ) (w : Worker) (s : Scheduler)
    → LetGo s i
    → ((j : ℕ) → holds w j ≡ true → ((j == i) || holds (s.workers t) j) ≡ true)
    → apart w ≡ true
    → IsOnce s
    → IsOnce (at t w s)
unfolding LetGo
get-IsOnce t i w s (outside, free, made) less ap_ h = record {
  unique = h.unique;
  queued = λ j u m. ground (arith, m, h.queued j u m, less j, outside);
  once = λ j u v a b. ground (arith, a, b, h.once j u v, less j, free u, free v);
  old = h.old;
  held = λ j u a. ground (arith, a, h.held j u, less j, made);
  aparts = λ u. ground (arith, ap_, h.aparts u);
}

pub make_task-IsOnce :
    (t cb : ℕ) (cbs : List ℕ) (again : Option ℕ) (s : Scheduler)
    → s.workers t ≡ passed cb cbs again
    → IsOnce s
    → IsOnce (make_task t cb cbs again s)
unfolding make_task make_coroutine LetGo
make_task-IsOnce t cb cbs again s e h =
    get-IsOnce t (suc s.m_coroutine_id) (pushing (suc s.m_coroutine_id) cbs again)
      (make_coroutine cb s)
      (
        ground (arith, h.old (suc s.m_coroutine_id)),
        λ u. ground (arith, h.held (suc s.m_coroutine_id) u),
        omega arith,
      )
      (λ j a. ground (arith, a, e)) (ground (arith, e, h.held (suc s.m_coroutine_id) t))
      (frame-IsOnce s (make_coroutine cb s) refl refl (omega arith) h)

pub push_task-IsOnce :
    (t i : ℕ) (cbs : List ℕ) (again : Option ℕ) (s : Scheduler)
    → s.workers t ≡ pushing i cbs again
    → IsOnce s
    → IsOnce (push_task t i cbs again s)
unfolding push_task push_coroutine
push_task-IsOnce t i cbs again s e h = record {
  unique = Unique-snoc i s.m_tasks outside h.unique;
  queued =
      λ j u m. ground (arith, m, e, mem-snoc j i s.m_tasks, h.queued j u, h.once i u t, h.aparts t);
  once = λ j u v a b. ground (arith, a, b, e, h.once j u v);
  old = λ j m. ground (arith, m, e, mem-snoc j i s.m_tasks, h.old j, h.held i t);
  held = λ j u a. ground (arith, a, e, h.held j u);
  aparts = λ u. ground (arith, h.aparts u);
}
  where
    outside : mem i s.m_tasks ≡ false
    outside = ground (arith, e, h.queued i t)
