-- ===== src/Rpc/Publish.antt =====
-- How a server makes its functions known: registerFunc2Reg, deleteFunc2Reg (in Deletion) and
-- RedirectRegister of rpc/rpc_server.cpp.
pub mod Centre
pub mod Leader
pub mod Deletion
mod Examples
use c_rpc.Base.{
  ℕ, zero, suc, ◌+◌, ◌%◌, ◌^◌, List, [], ◌∷◌, ◌++◌, length, get_elem?, Option, none, some, Bool,
  true, false, ◌==◌, if◌then◌else◌,
}
use c_rpc.Wire.Buffer.{
  Buffer, Reader, Result, ok, throw, hang, empty_buffer, ◌>>=◌, pure, read_uint16,
}
use c_rpc.Wire.Serializer.{read_string}
use c_rpc.Protocol.{
  Message, MessageType, encode, new_message, type_code, err_code, success, rpc_service_register,
  raft_redirect,
}
use c_rpc.Tables.{IpPort, Multimap}
use c_rpc.Registry.{write_services}
use c_rpc.Pool.{ConnectionPool, add_register, get_all_register, raft_register}

-- How the wait for an answer ends: the timer closes the channel, or a message that has been decoded
-- comes.
pub data Reply : Type 0 where
  timed_out : Reply
  got : Message → Reply

-- The pool, the address of the server itself and the counter `SEQ` of rpc_protocol.h, which all coroutines
-- share; further how the waits to come end, how many messages the other coroutines make while the answer
-- to the message of a number is waited for, and what has been done: the addresses that sessions were
-- connected to, and the messages that they sent.
pub record Publisher : Type 0 where
  pub m_connection_pool : ConnectionPool
  pub address : IpPort
  pub seq : ℕ
  pub replies : List Reply
  pub meanwhile : ℕ → ℕ
  pub connections : List (ℕ × IpPort)
  pub sent : List (ℕ × Message)

-- How a call ends. `waits`: for an answer. `undefined`: it reads an element that a vector does not
-- have, or leaves a function that returns a value without one. `loops`: it never ends.
pub data Ending {ℓ} (A : Type ℓ) : Type ℓ where
  returns : A → Ending A
  waits : Ending A
  loops : Ending A
  undefined : Ending A
  throws : Ending A

infixl 5 ◌▷◌
abbrev pub ◌▷◌ {ℓ κ} : {A : Type ℓ} {B : Type κ} → Ending A → (A → Ending B) → Ending B
returns a ▷ f = f a
waits ▷ f = waits
loops ▷ f = loops
undefined ▷ f = undefined
throws ▷ f = throws

unfoldable pub connect_new : IpPort → Publisher → Publisher
connect_new a p = record p {
  m_connection_pool = record p.m_connection_pool { made = suc p.m_connection_pool.made };
  connections = p.connections ++ (p.m_connection_pool.made, a) ∷ [];
}

-- A message goes out on a session, and its answer is waited for. What receives the answer is a message
-- that takes a number, too, as do those of other coroutines.
unfoldable pub send_and_wait : ℕ → MessageType → Buffer → Publisher → Ending (Reply × Publisher)
send_and_wait session kind content p =
    let (message, SEQ') = new_message (type_code kind) (err_code success) 0x01 p.seq in
    elim p.replies [
      | [] ↦ waits
      | reply ∷ rest ↦ returns (
        reply,
        record p {
          seq = (SEQ' + 1 + p.meanwhile SEQ') % 2 ^ 64;
          replies = rest;
          sent = p.sent ++ (session, encode message content) ∷ [];
        },
      )
    ]

-- RedirectRegister. After a timeout it ends without a `return`.
unfoldable pub redirect_end : Reply × Publisher → Ending (Bool × Publisher)
redirect_end (timed_out, p) = undefined
redirect_end (got m, p) = returns (true, p)

unfoldable pub redirect_register : IpPort → Publisher → Ending (Bool × Publisher)
unfolding connect_new send_and_wait redirect_end
redirect_register a p =
    let session = p.m_connection_pool.made in
    let p1 = connect_new a p in
    send_and_wait session rpc_service_register empty_buffer
      (record p1 { m_connection_pool = add_register raft_register session p1.m_connection_pool })
    ▷ redirect_end

-- `>>ip>>port`
unfoldable pub read_address : Reader IpPort
read_address = do
  m_ip ← read_string
  m_port ← read_uint16
  pure (record { m_ip = m_ip; m_port = m_port })

unfoldable pub reads_address : Buffer → Ending IpPort
reads_address b = elim (read_address b) [ ok (a, b') ↦ returns a | throw e ↦ throws | hang ↦ waits ]

-- `getAllRegister()[0]`
unfoldable pub first_register : ConnectionPool → Ending ℕ
first_register pool = elim (get_all_register pool) [
  | [] ↦ undefined
  | session ∷ others ↦ returns session
]

-- What registerFunc2Reg does with an answer. `retry` is the jump to `Redirect`. The bytes of an answer
-- that is no redirection are read one by one and dropped, which is left out.
unfoldable pub after_redirect : (Publisher → Ending Publisher) → Bool × Publisher → Ending Publisher
after_redirect retry (true, p) = returns p
after_redirect retry (false, p) = retry p

unfoldable pub after_answer : (Publisher → Ending Publisher) → Reply × Publisher → Ending Publisher
unfolding redirect_register reads_address after_redirect
after_answer retry (timed_out, p) = returns p
after_answer retry (got m, p) =
    if m.type_of == type_code raft_redirect
    then (reads_address m.serializer ▷ λ a. redirect_register a p ▷ after_redirect retry)
    else returns p

-- registerFunc2Reg, for at most `rounds` jumps.
unfoldable pub register_func2reg : ℕ → List ℕ → Publisher → Ending Publisher
unfolding send_and_wait first_register after_answer
register_func2reg zero name p = waits
register_func2reg (suc rounds) name p =
    let retry = register_func2reg rounds name in
    first_register p.m_connection_pool ▷ λ session.
    send_and_wait session rpc_service_register
      (write_services ((name, p.address) ∷ []) empty_buffer) p
    ▷ after_answer retry
