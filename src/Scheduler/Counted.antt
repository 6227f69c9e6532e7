-- ===== src/Scheduler/Counted.antt =====
-- Which threads of coroutine/scheduler.cpp `m_runningThreads` counts.
use c_rpc.Base.{
  ℕ, ◌<◌, ◌≡◌, sym, ◌∙◌, Bool, true, false, Bool-cases, inl, inr, ltb, if◌then◌else◌, count,
  count_ext, arith,
}
use c_rpc.Scheduler.{
  Scheduler, Worker, none_, created, started, testing, taking, empty_handed, leaving, ended, took,
  running, returned, adding, passed, pushing, set, at,
}

-- A thread is between the two changes of `m_running_threads`.
abbrev pub entered : Worker → Bool
entered none_ = false
entered created = false
entered started = false
entered ended = false
entered testing = true
entered taking = true
entered empty_handed = true
entered leaving = true
entered (took i) = true
entered (running i) = true
entered (returned i) = true
entered (adding cbs again) = true
entered (passed cb cbs again) = true
entered (pushing i cbs again) = true

-- A call of addTask from elsewhere can be there.
abbrev pub calling : Worker → Bool
calling none_ = true
calling (adding cbs again) = true
calling (passed cb cbs again) = true
calling (pushing i cbs again) = true
calling created = false
calling started = false
calling ended = false
calling testing = false
calling taking = false
calling empty_handed = false
calling leaving = false
calling (took i) = false
calling (running i) = false
calling (returned i) = false

abbrev pub is_thread : Worker → Bool
is_thread none_ = false
is_thread created = true
is_thread started = true
is_thread ended = true
is_thread testing = true
is_thread taking = true
is_thread empty_handed = true
is_thread leaving = true
is_thread (took i) = true
is_thread (running i) = true
is_thread (returned i) = true
is_thread (adding cbs again) = true
is_thread (passed cb cbs again) = true
is_thread (pushing i cbs again) = true

pub record IsCounted (s : Scheduler) : Type 0 where
  pub counted : s.m_running_threads ≡ count (λ t. entered (s.workers t)) s.m_threads
  pub threads : (t : ℕ) → ltb t s.m_threads ≡ true → is_thread (s.workers t) ≡ true
  pub others : (t : ℕ) → ltb t s.m_threads ≡ false → calling (s.workers t) ≡ true

-- A step at `t`, a thread or a call, that neither enters nor leaves `run`.
pub at-IsCounted :
    (t : ℕ) (w : Worker) (s : Scheduler)
    → (ltb t s.m_threads ≡ true → entered w ≡ entered (s.workers t))
    → (ltb t s.m_threads ≡ true → is_thread w ≡ true)
    → (ltb t s.m_threads ≡ false → calling w ≡ true)
    → IsCounted s
    → IsCounted (at t w s)
at-IsCounted t w s same is_ other h = record {
  counted =
      h.counted
      ∙ count_ext (λ i. entered (s.workers i)) (λ i. entered (set s.workers t w i)) s.m_threads
          (λ i lt. ground (arith, same));
  threads = λ i lt. ground (arith, h.threads i lt, is_);
  others = λ i le. ground (arith, h.others i le, other);
}

-- A thread goes on in its loop.
pub loop-IsCounted :
    (t : ℕ) (w : Worker) (s : Scheduler)
    → calling (s.workers t) ≡ false
    → entered (s.workers t) ≡ true
    → entered w ≡ true
    → is_thread w ≡ true
    → IsCounted s
    → IsCounted (at t w s)
loop-IsCounted t w s no_ was is_ thread h =
    at-IsCounted t w s (λ lt. is_ ∙ sym was) (λ lt. thread)
      (λ le. absurd (ground (arith, h.others t le))) h

-- A call of addTask goes on, on a thread or elsewhere.
pub call-IsCounted :
    (t : ℕ) (w : Worker) (s : Scheduler)
    → entered (s.workers t) ≡ true
    → entered w ≡ true
    → is_thread w ≡ true
    → calling w ≡ true
    → IsCounted s
    → IsCounted (at t w s)
call-IsCounted t w s was is_ thread call h =
    at-IsCounted t w s (λ lt. is_ ∙ sym was) (λ lt. thread) (λ le. call) h

-- One begins elsewhere.
pub begin-IsCounted :
    (t : ℕ) (w : Worker) (s : Scheduler)
    → s.workers t ≡ none_
    → calling w ≡ true
    → IsCounted s
    → IsCounted (at t w s)
begin-IsCounted t w s e call h =
    at-IsCounted t w s (λ lt. absurd (ground (arith, e, h.threads t lt)))
      (λ lt. absurd (ground (arith, e, h.threads t lt))) (λ le. call) h

pub in_range :
    (t : ℕ) (s : Scheduler) → IsCounted s → calling (s.workers t) ≡ false → t < s.m_threads
in_range t s h no_ = elim (Bool-cases (ltb t s.m_threads)) [
  | inl lt ↦ ground arith
  | inr le ↦ absurd (ground (arith, h.others t le))
]

pub guard-IsCounted :
    (t : ℕ) (b : Bool) (w v : Worker) (s : Scheduler)
    → entered (s.workers t) ≡ true
    → (entered w ≡ true) × (is_thread w ≡ true) × (calling w ≡ true)
    → (entered v ≡ true) × (is_thread v ≡ true) × (calling v ≡ true)
    → IsCounted s
    → IsCounted (at t (if b then w else v) s)
guard-IsCounted t true w v s was (a, b, c) other h = call-IsCounted t w s was a b c h
guard-IsCounted t false w v s was other (a, b, c) h = call-IsCounted t v s was a b c h
