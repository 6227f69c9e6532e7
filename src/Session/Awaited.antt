-- ===== src/Session/Awaited.antt =====
-- A channel of rpc/rpc_session.h on which a response is waited for, and what leaves it so.
use c_rpc.Base.{
  ℕ, ◌<◌, ◌≡◌, ◌≢◌, refl, ap, ◌∙◌, List, [], Option, none, some, Bool, false, ◌==◌, Bool-cases, inl,
  inr, arith,
}
use mathlib.Core.Path.{subst}
use c_rpc.Protocol.{Message, type_code, rpc_publish}
use c_rpc.Channel.{CoroutineChannal, Ending, returned, new_channal, push, pop, close}
use c_rpc.Session.{
  push_request, deliver, RpcSession, expect_response, send, handle_send, handle_receive,
  earse_response_channal, await, time_out, assign,
}

-- What else may happen in a session while the response with the number `seq` is waited for on the
-- channel `c`: requests, responses and erasures of other numbers, pushes that run again, messages that
-- go out, waits on any channel, and timeouts on others.
pub data Other (seq c : ℕ) (s : RpcSession) : RpcSession → Type 0 where
  sends : (me : ℕ) (m : Message) → m.seq ≢ seq → Other seq c s (send me m s).1
  pushes_again : (me : ℕ) (m : Message) → Other seq c s (push_request me m s).1
  goes_out : (me : ℕ) → Other seq c s (handle_send me s).1
  receives : (me : ℕ) (m : Message) → m.seq ≢ seq → Other seq c s (handle_receive me m s).1
  delivers_again : (me i : ℕ) (m : Message) → i ≢ c → Other seq c s (deliver me m i s).1
  erases : (other : ℕ) → other ≢ seq → Other seq c s (earse_response_channal other s)
  awaits : (me i : ℕ) → Other seq c s (await me i s).1
  times_out : (i : ℕ) → i ≢ c → Other seq c s (time_out i s)

pub data Others (seq c : ℕ) (s : RpcSession) : RpcSession → Type 0 where
  here : Others seq c s s
  next : {s1 s2 : RpcSession} → Others seq c s s1 → Other seq c s1 s2 → Others seq c s s2

-- The channel `c` is that of the number `seq` and of no other; it is open and empty.
pub record Awaited (seq c : ℕ) (s : RpcSession) : Type 0 where
  pub entry : s.m_response_channals seq ≡ some c
  pub only : (other : ℕ) → s.m_response_channals other ≡ some c → other ≡ seq
  pub made : c < s.made
  pub opened : (s.channal c).m_is_close ≡ false
  pub empty : (s.channal c).m_queue ≡ []
  pub room : (s.channal c).m_capacity ≡ 1

-- A session: its channels are numbered below `made`.
unfoldable pub IsNumbered : RpcSession → Type 0
IsNumbered s = (seq c : ℕ) → s.m_response_channals seq ≡ some c → c < s.made

pub expect_response-Awaited :
    (m : Message) (s : RpcSession) → IsNumbered s → Awaited m.seq s.made (expect_response m s)
unfolding IsNumbered expect_response new_channal
expect_response-Awaited m s h = record {
  entry = ground arith;
  only = λ other e. ground (arith, h other s.made, e);
  made = omega arith;
  opened = ground arith;
  empty = ground arith;
  room = ground arith;
}

-- A change of another channel, or of what is no channel.
on_other :
    (seq c i : ℕ) (s : RpcSession) (x : CoroutineChannal Message)
    → i ≢ c
    → Awaited seq c s
    → Awaited seq c (record s { channal = assign s.channal i x })
on_other seq c i s x n h = record {
  entry = h.entry;
  only = h.only;
  made = h.made;
  opened = ground (arith, h.opened);
  empty = ground (arith, h.empty);
  room = ground (arith, h.room);
}

expect-Awaited :
    (seq c : ℕ) (m : Message) (s : RpcSession)
    → m.seq ≢ seq
    → Awaited seq c s
    → Awaited seq c (expect_response m s)
unfolding expect_response
expect-Awaited seq c m s n h = record {
  entry = ground (arith, h.entry);
  only = λ other e. ground (arith, e, h.only other, h.made);
  made = omega (arith, h.made);
  opened = ground (arith, h.opened, h.made);
  empty = ground (arith, h.empty, h.made);
  room = ground (arith, h.room, h.made);
}

erase-Awaited :
    (seq c other : ℕ) (s : RpcSession)
    → other ≢ seq
    → Awaited seq c s
    → Awaited seq c (earse_response_channal other s)
unfolding earse_response_channal
erase-Awaited seq c other s n h = record {
  entry = ground (arith, h.entry);
  only = λ k e. ground (arith, e, h.only k);
  made = h.made;
  opened = h.opened;
  empty = h.empty;
  room = h.room;
}

receive-Awaited :
    (seq c me : ℕ) (m : Message) (s : RpcSession)
    → m.seq ≢ seq
    → Awaited seq c s
    → Awaited seq c (handle_receive me m s).1
unfolding handle_receive deliver
receive-Awaited seq c me m s n h = elim (Bool-cases (m.type_of == type_code rpc_publish)) [
  | inl published ↦ rw published (erase-Awaited seq c m.seq s n h)
  | inr other ↦ rw other (go (s.m_response_channals m.seq) refl)
]
  where
    go :
        (r : Option ℕ)
        → s.m_response_channals m.seq ≡ r
        → Awaited seq c
            (elim r as (λ x. Ending Bool × RpcSession) [
              | none ↦ (returned false, s)
              | some i ↦ (
                (push me m (s.channal i)).0,
                record s { channal = assign s.channal i (push me m (s.channal i)).1 },
              )
            ]).1
    go none e = h
    go (some i) e =
        on_other seq c i s (push me m (s.channal i)).1 (λ p. n (h.only m.seq (e ∙ ap some p))) h

pop-empty :
    (me : ℕ) (x : CoroutineChannal Message)
    → x.m_is_close ≡ false
    → x.m_queue ≡ []
    → ((pop me x).1.m_is_close ≡ false)
      × ((pop me x).1.m_queue ≡ [])
      × ((pop me x).1.m_capacity ≡ x.m_capacity)
unfolding pop
pop-empty me x o e = ground (arith, o, e)

on_own :
    (seq c : ℕ) (s : RpcSession) (x : CoroutineChannal Message)
    → (x.m_is_close ≡ false) × (x.m_queue ≡ []) × (x.m_capacity ≡ 1)
    → Awaited seq c s
    → Awaited seq c (record s { channal = assign s.channal c x })
on_own seq c s x (o, e, r) h = record {
  entry = h.entry;
  only = h.only;
  made = h.made;
  opened = ground (arith, o);
  empty = ground (arith, e);
  room = ground (arith, r);
}

await-Awaited : (seq c me i : ℕ) (s : RpcSession) → Awaited seq c s → Awaited seq c (await me i s).1
unfolding await
await-Awaited seq c me i s h = elim (Bool-cases (i == c)) [
  | inl same ↦
      let p : c ≡ i = ground (arith, same) in
      subst
        (λ j. Awaited seq c (record s { channal = assign s.channal j (pop me (s.channal j)).1 })) p
        (on_own seq c s (pop me (s.channal c)).1 popped h)
  | inr other ↦ on_other seq c i s (pop me (s.channal i)).1 (λ p. ground (arith, other)) h
]
  where
    popped :
        ((pop me (s.channal c)).1.m_is_close ≡ false)
        × ((pop me (s.channal c)).1.m_queue ≡ [])
        × ((pop me (s.channal c)).1.m_capacity ≡ 1)
    popped = let (o, e, r) = pop-empty me (s.channal c) h.opened h.empty in (o, e, r ∙ h.room)

-- What goes out is another matter.
pub same-Awaited :
    (seq c : ℕ) (s : RpcSession) (q : CoroutineChannal Message) (ms : List Message)
    → Awaited seq c s
    → Awaited seq c (record s { m_send_channal = q; sent = ms })
same-Awaited seq c s q ms h = record {
  entry = h.entry;
  only = h.only;
  made = h.made;
  opened = h.opened;
  empty = h.empty;
  room = h.room;
}

Other-Awaited :
    (seq c : ℕ) (s s' : RpcSession) → Other seq c s s' → Awaited seq c s → Awaited seq c s'
unfolding send push_request handle_send deliver time_out
Other-Awaited seq c s s' (sends me m n) h =
    same-Awaited seq c (expect_response m s) _ _ (expect-Awaited seq c m s n h)
Other-Awaited seq c s s' (pushes_again me m) h = same-Awaited seq c s _ _ h
Other-Awaited seq c s s' (goes_out me) h = same-Awaited seq c s _ _ h
Other-Awaited seq c s s' (delivers_again me i m n) h =
    on_other seq c i s (push me m (s.channal i)).1 n h
Other-Awaited seq c s s' (receives me m n) h = receive-Awaited seq c me m s n h
Other-Awaited seq c s s' (erases other n) h = erase-Awaited seq c other s n h
Other-Awaited seq c s s' (awaits me i) h = await-Awaited seq c me i s h
Other-Awaited seq c s s' (times_out i n) h = on_other seq c i s (close (s.channal i)) n h

pub Others-Awaited :
    (seq c : ℕ) (s s' : RpcSession) → Others seq c s s' → Awaited seq c s → Awaited seq c s'
Others-Awaited seq c s s' here h = h
Others-Awaited seq c s s' (next {s1} run step) h =
    Other-Awaited seq c s1 s' step (Others-Awaited seq c s s1 run h)
