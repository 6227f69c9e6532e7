-- ===== src/Session.antt =====
-- `RpcSession` of rpc/rpc_session.h: requests that go out over one connection, and the channels on which
-- their responses are waited for. What the socket does is in Protocol.
pub mod Awaited
pub mod Responses
mod Examples
use c_rpc.Base.{
  ℕ, suc, List, [], ◌∷◌, ◌++◌, Option, none, some, Bool, true, false, ◌==◌, if◌then◌else◌,
}
use c_rpc.Protocol.{Message, type_code, rpc_default, rpc_publish}
use c_rpc.Channel.{CoroutineChannal, Ending, returned, waiting, new_channal, push, pop, close}

-- A channel of responses is a pointer: the number of those made before it. `sent` is what was handed to
-- the socket.
pub record RpcSession : Type 0 where
  pub m_send_channal : CoroutineChannal Message
  pub m_response_channals : ℕ → Option ℕ
  pub channal : ℕ → CoroutineChannal Message
  pub made : ℕ
  pub sent : List Message

unfoldable pub new_rpc_session : RpcSession
new_rpc_session = record {
  m_send_channal = new_channal 1024;
  m_response_channals = λ seq. none;
  channal = λ i. new_channal 0;
  made = 0;
  sent = [];
}

abbrev pub assign {ℓ} : {A : Type ℓ} → (ℕ → A) → ℕ → A → ℕ → A
assign f i a j = if j == i then a else f j

-- send, up to the push, and with it. The push of a coroutine that waits runs again once it is woken.
unfoldable pub expect_response : Message → RpcSession → RpcSession
expect_response m s = record s {
  m_response_channals = assign s.m_response_channals m.seq (some s.made);
  channal = assign s.channal s.made (new_channal 1);
  made = suc s.made;
}

unfoldable pub push_request : ℕ → Message → RpcSession → Ending Bool × RpcSession
push_request me m s =
    let (ending, q) = push me m s.m_send_channal in (ending, record s { m_send_channal = q })

unfoldable pub send : ℕ → Message → RpcSession → Ending Bool × RpcSession
unfolding expect_response push_request
send me m s = push_request me m (expect_response m s)

-- A round of handle_send. A message of the type RPC_DEFAULT is not sent, and neither is what a closed
-- channel gives.
unfoldable pub to_socket : Ending (List Message) → List Message
to_socket waiting = []
to_socket (returned []) = []
to_socket (returned (m ∷ ms)) = if m.type_of == type_code rpc_default then [] else m ∷ []

unfoldable pub handle_send : ℕ → RpcSession → Ending (List Message) × RpcSession
unfolding to_socket
handle_send me s =
    let (ending, q) = pop me s.m_send_channal in
    (ending, record s { m_send_channal = q; sent = s.sent ++ to_socket ending })

unfoldable pub earse_response_channal : ℕ → RpcSession → RpcSession
earse_response_channal seq s = record s {
  m_response_channals = assign s.m_response_channals seq none;
}

-- The round of handle_receive for a decoded message: a publication erases the channel of its number, and
-- any other message goes to it, if there is one. What a publication has is read and printed, which is
-- left out. A push that waits runs again once it is woken.
unfoldable pub deliver : ℕ → Message → ℕ → RpcSession → Ending Bool × RpcSession
deliver me m i s =
    let (ending, c) = push me m (s.channal i) in
    (ending, record s { channal = assign s.channal i c })

unfoldable pub handle_receive : ℕ → Message → RpcSession → Ending Bool × RpcSession
unfolding deliver earse_response_channal
handle_receive me m s =
    if m.type_of == type_code rpc_publish
    then (returned false, earse_response_channal m.seq s)
    else (elim (s.m_response_channals m.seq) [
      | none ↦ (returned false, s)
      | some i ↦ deliver me m i s
    ])

-- What the caller of `send` does with the channel: it waits for the response, and its timer closes it.
unfoldable pub await : ℕ → ℕ → RpcSession → Ending (List Message) × RpcSession
await me i s =
    let (ending, c) = pop me (s.channal i) in (ending, record s { channal = assign s.channal i c })

unfoldable pub time_out : ℕ → RpcSession → RpcSession
time_out i s = record s { channal = assign s.channal i (close (s.channal i)) }
