-- ===== src/Session/Responses.antt =====
-- The response to a request of rpc/rpc_session.h reaches the coroutine that waits for it.
use c_rpc.Base.{ℕ, ◌≡◌, refl, ap, ◌∙◌, sym, [], ◌∷◌, true, false, ◌==◌, arith, length}
use mathlib.Core.Path.{subst}
use c_rpc.Protocol.{Message, type_code, rpc_publish}
use c_rpc.Channel.{CoroutineChannal, returned, push, pop, notify_pop}
use c_rpc.Session.{
  push_request, deliver, RpcSession, expect_response, send, handle_receive, earse_response_channal,
  await, assign, new_rpc_session,
}
use c_rpc.Session.Awaited.{
  Others, Awaited, IsNumbered, expect_response-Awaited, same-Awaited, Others-Awaited,
}

push-empty :
    (me : ℕ) (r : Message) (x : CoroutineChannal Message)
    → x.m_is_close ≡ false
    → x.m_queue ≡ []
    → x.m_capacity ≡ 1
    → ((push me r x).0 ≡ returned true)
      × ((push me r x).1.m_queue ≡ r ∷ [])
      × ((push me r x).1.m_is_close ≡ false)
unfolding push notify_pop
push-empty me r x o e room = ground (arith, o, e, room, ap length e)

pop-one :
    (me : ℕ) (r : Message) (x : CoroutineChannal Message)
    → x.m_is_close ≡ false
    → x.m_queue ≡ r ∷ []
    → (pop me x).0 ≡ returned (r ∷ [])
unfolding pop
pop-one me r x o e = ground (arith, o, e)

receives_own :
    (me me' c : ℕ) (r : Message) (s : RpcSession)
    → Awaited r.seq c s
    → r.type_of == type_code rpc_publish ≡ false
    → ((handle_receive me r s).0 ≡ returned true)
      × ((await me' c (handle_receive me r s).1).0 ≡ returned (r ∷ []))
receives_own me me' c r s h kind =
    let (done_, queue, open_) = push-empty me r (s.channal c) h.opened h.empty h.room in
    (
      ap (λ p. p.0) found ∙ done_,
      ap (λ p. (await me' c p.1).0) found
          ∙ unfold await in rw same (pop-one me' r (push me r (s.channal c)).1 open_ queue),
    )
  where
    same : c == c ≡ true
    same = ground arith

    found : handle_receive me r s ≡ (
      (push me r (s.channal c)).0,
      record s { channal = assign s.channal c (push me r (s.channal c)).1 },
    )
    found = unfold handle_receive deliver in rw (kind, h.entry, handle_receive) refl

-- A request is sent. Whatever else happens in the session before its response comes (requests, responses,
-- publications and erasures with other numbers, waits, and timeouts of other channels), the response with
-- its number, a message that is no publication, is then put where the sender waits for it, and what the
-- sender takes there is this response. The session had its channels numbered.
pub response_delivered :
    (me me1 me2 : ℕ) (m r : Message) (s s' : RpcSession)
    → IsNumbered s
    → Others m.seq s.made (send me m s).1 s'
    → r.seq ≡ m.seq
    → r.type_of == type_code rpc_publish ≡ false
    → ((handle_receive me1 r s').0 ≡ returned true)
      × ((await me2 s.made (handle_receive me1 r s').1).0 ≡ returned (r ∷ []))
unfolding send push_request
response_delivered me me1 me2 m r s s' h run e kind =
    receives_own me1 me2 s.made r s'
      (subst (λ seq. Awaited seq s.made s') (sym e)
        (Others-Awaited m.seq s.made (send me m s).1 s' run
          (same-Awaited m.seq s.made (expect_response m s) _ _ (expect_response-Awaited m s h))))
      kind

-- A new session is numbered, and what changes the table keeps it so.
pub new_rpc_session-IsNumbered : IsNumbered new_rpc_session
unfolding IsNumbered new_rpc_session
new_rpc_session-IsNumbered seq c e = ground (arith, e)

pub send-IsNumbered :
    (me : ℕ) (m : Message) (s : RpcSession) → IsNumbered s → IsNumbered (send me m s).1
unfolding IsNumbered send push_request expect_response
send-IsNumbered me m s h seq c e = ground (arith, h seq c, e)

pub erase-IsNumbered :
    (other : ℕ) (s : RpcSession) → IsNumbered s → IsNumbered (earse_response_channal other s)
unfolding IsNumbered earse_response_channal
erase-IsNumbered other s h seq c e = ground (arith, h seq c, e)
