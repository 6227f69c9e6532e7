-- ===== src/Channel/WakeExamples.antt =====
-- Calls that wait on a channel for one number.
use c_rpc.Base.{ℕ, ◌<◌, ◌≢◌, [], length, arith}
use c_rpc.Channel.{CoroutineChannal, new_channal, push, pop, notify_pop, notify_push}
use c_rpc.Channel.Wakes.{
  Scheduled, after, here, next, push_called, pop_called, pop_woken, push_woken,
}

abbrev full : CoroutineChannal ℕ
full = (push 2 20 (push 1 10 (new_channal 1)).1).1

-- Two calls of pop wait, and one is woken by a push.
abbrev at_first : Scheduled ℕ
at_first = record { channal = new_channal 1; pops = 0; pushes = 0 }

abbrev two_wait : Scheduled ℕ
two_wait = after (after at_first (pop 1 at_first.channal).1) (pop 2 (pop 1 at_first.channal).1).1

abbrev one_woken : Scheduled ℕ
one_woken = after two_wait (push 3 10 two_wait.channal).1

pop_waits_still : one_woken.channal.m_pop_cv ≢ []
unfolding push pop new_channal notify_pop
pop_waits_still = λ e. ground arith

holds_one : one_woken.channal.m_queue ≢ []
unfolding push pop new_channal notify_pop
holds_one = λ e. ground arith

pop_woken_example : 0 < one_woken.pops
pop_woken_example =
    pop_woken 1 one_woken (next (next (next here (pop_called 1)) (pop_called 2)) (push_called 3 10))
      pop_waits_still holds_one

-- Two calls of push wait, and one is woken by a pop.
abbrev two_more : Scheduled ℕ
two_more = after (after (after at_first (push 1 10 at_first.channal).1) full) (push 3 30 full).1

abbrev emptied : Scheduled ℕ
emptied = after two_more (pop 4 two_more.channal).1

push_waits_still : emptied.channal.m_push_cv ≢ []
unfolding push pop new_channal notify_push notify_pop
push_waits_still = λ e. ground arith

has_room : length emptied.channal.m_queue < emptied.channal.m_capacity
unfolding push pop new_channal notify_push notify_pop
has_room = omega arith

push_woken_example : 0 < emptied.pushes
push_woken_example =
    push_woken 1 emptied
      (next (next (next (next here (push_called 1 10)) (push_called 2 20)) (push_called 3 30))
        (pop_called 4))
      push_waits_still has_room
