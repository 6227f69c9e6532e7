-- ===== src/Channel/Examples.antt =====
-- A channel for one number.
use c_rpc.Base.{ℕ, ◌≤◌, ◌≡◌, List, [], ◌∷◌, ◌++◌, length, refl}
use c_rpc.Channel.{CoroutineChannal, new_channal, push, pop, close, notify_pop, notify_push}
use c_rpc.Channel.Runs.{Run, here, next, pushed, push_waits, popped, refused, fifo}

abbrev channal : CoroutineChannal ℕ
channal = (push 1 10 (new_channal 1)).1

-- A second push waits, until a pop wakes it.
abbrev full : CoroutineChannal ℕ
full = (push 2 20 channal).1

abbrev woken : CoroutineChannal ℕ
woken = (pop 3 full).1

a_run : Run (new_channal 1) woken (10 ∷ []) (10 ∷ [])
unfolding push pop new_channal notify_pop notify_push
a_run =
    next full woken _ _ [] (10 ∷ [])
      (next channal full _ _ [] []
        (next (new_channal 1) channal [] [] (10 ∷ []) [] here (pushed 1 10 refl))
        (push_waits 2 20 refl))
      (popped 3 (10 ∷ []) refl)

fifo_example : (10 ∷ [] ≡ (10 ∷ []) ++ woken.m_queue) × (length woken.m_queue ≤ 1)
fifo_example = fifo 1 woken (10 ∷ []) (10 ∷ []) a_run

a_closed_run : Run (close channal) (close channal) [] []
unfolding push close new_channal notify_pop
a_closed_run = next (close channal) (close channal) [] [] [] [] here (refused 2 20 refl)

abbrev none_at_all : List ℕ
none_at_all = []
