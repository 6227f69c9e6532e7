-- ===== src/Rpc/Publish/Centre.antt =====
-- A function that a server registers reaches the registration centre: registerFunc2Reg of
-- rpc/rpc_server.cpp and handleServiceRegister of rpc/rpc_register.cpp.
use c_rpc.Base.{
  ℕ, suc, ◌-◌, ◌^◌, ◌≤◌, ◌<◌, ◌≡◌, refl, ap, ◌∙◌, List, [], ◌∷◌, ◌++◌, ◌+◌, ◌%◌, length, false,
  ◌==◌, arith,
}
use c_rpc.Wire.Buffer.{Buffer, ok, empty_buffer}
use c_rpc.Wire.Serializer.{max_size}
use c_rpc.Protocol.{
  Message, encode, decode, new_message, type_code, err_code, success, rpc_service_register,
  raft_redirect,
}
use c_rpc.Protocol.Arrival.{at_start}
use c_rpc.Protocol.Decoding.{decode-arrived}
use c_rpc.Tables.{IpPort, emplace}
use c_rpc.Registry.{RpcRegister, write_services, handle_service_register}
use c_rpc.Registry.Exchange.{handle_service_register_lem}
use c_rpc.Pool.{ConnectionPool, get_all_register}
use c_rpc.Rpc.Publish.{
  Publisher, Reply, got, returns, ◌▷◌, register_func2reg, send_and_wait, first_register,
  after_answer,
}

-- A message of the type that registers, and the registration of a function.
abbrev pub register_message : Buffer → ℕ → Message
register_message content seq =
    encode
      (record {
        magic = 0x66;
        version = 0x01;
        type_of = type_code rpc_service_register;
        err = err_code success;
        seq = seq;
        content_lenth = 0;
        serializer = empty_buffer;
      })
      content

abbrev pub registration : List ℕ → IpPort → ℕ → Message
registration name address seq =
    register_message (write_services ((name, address) ∷ []) empty_buffer) seq

pub first_found :
    (pool : ConnectionPool) {session : ℕ} {others : List ℕ}
    → get_all_register pool ≡ session ∷ others
    → first_register pool ≡ returns session
unfolding first_register
first_found pool e = rw (e, first_register) refl

-- The publisher once a message has gone out on a session and its answer has come.
abbrev pub answered_by : ℕ → Message → List Reply → Publisher → Publisher
answered_by session message rest p = record p {
  seq = ((p.seq + 1) % 2 ^ 64 + 1 + p.meanwhile ((p.seq + 1) % 2 ^ 64)) % 2 ^ 64;
  replies = rest;
  sent = p.sent ++ (session, message) ∷ [];
}

pub sent_and_got :
    (session : ℕ) (content : Buffer) (p : Publisher) {reply : Reply} {rest : List Reply}
    → p.replies ≡ reply ∷ rest
    → send_and_wait session rpc_service_register content p
      ≡ returns
          (reply, answered_by session (register_message content ((p.seq + 1) % 2 ^ 64)) rest p)
unfolding send_and_wait new_message
sent_and_got session content p e = rw (e, send_and_wait) refl

-- The first answer to a registration.
pub registers_once :
    (rounds session : ℕ) (name : List ℕ) (p : Publisher) {others : List ℕ} {reply : Reply}
    {rest : List Reply}
    → get_all_register p.m_connection_pool ≡ session ∷ others
    → p.replies ≡ reply ∷ rest
    → register_func2reg (suc rounds) name p
      ≡ after_answer
          (register_func2reg rounds name)
          (reply, answered_by session (registration name p.address ((p.seq + 1) % 2 ^ 64)) rest p)
unfolding register_func2reg
registers_once rounds session name p first q =
    let content = write_services ((name, p.address) ∷ []) empty_buffer in
    let retry = register_func2reg rounds name in
    ap (λ m. m ▷ λ i. send_and_wait i rpc_service_register content p ▷ after_answer retry)
      (first_found p.m_connection_pool first)
    ∙ ap (λ m. m ▷ after_answer retry) (sent_and_got session content p q)

-- A server registers a function at the first of its registration centres, and is not redirected: the
-- call returns, and one message has been sent. As it arrives it decodes, the centre adds the function
-- with the address of the server to its table, and answers with the number of the message. The name
-- and the address fit their types, and the content a message.
pub function_registered :
    (rounds session : ℕ) (name : List ℕ) (p : Publisher) (others : List ℕ) (reply : Message)
    (rest : List Reply) (r : Message) (centre : RpcRegister)
    → get_all_register p.m_connection_pool ≡ session ∷ others
    → p.replies ≡ got reply ∷ rest
    → reply.type_of == type_code raft_redirect ≡ false
    → length name ≤ max_size
    → length p.address.m_ip ≤ max_size
    → p.address.m_port < 2 ^ 16
    → length (write_services ((name, p.address) ∷ []) empty_buffer).m_data ≤ max_size - 20
    → r.serializer ≡ at_start (registration name p.address ((p.seq + 1) % 2 ^ 64)).serializer.m_data
    → (p' : Publisher) × (register_func2reg (suc rounds) name p ≡ returns p')
      × (p'.sent ≡ p.sent ++ (session, registration name p.address ((p.seq + 1) % 2 ^ 64)) ∷ [])
      × (d : Message) × (answer : Message) × (centre' : RpcRegister) × (decode r ≡ ok d)
      × (handle_service_register d centre ≡ ok (answer, centre'))
      × (answer.seq ≡ (p.seq + 1) % 2 ^ 64)
      × (centre'.m_addresses ≡ emplace (name, p.address) centre.m_addresses)
unfolding after_answer
function_registered rounds session name p others reply rest r centre first q kind n ip port len e =
    let (d, decoded, number, t, v, content) =
      decode-arrived sent r (write_services ((name, p.address) ∷ []) empty_buffer)
        (record {
          magic = omega arith;
          version = omega arith;
          type_of = omega arith;
          err = omega arith;
          seq = omega arith;
        })
        refl len e in
    let (answer, centre', handled, numbered, table, timers) =
      handle_service_register_lem ((name, p.address) ∷ []) d centre ((n, ip, port), tt) v content in
    (
      answered_by session (registration name p.address ((p.seq + 1) % 2 ^ 64)) rest p,
      registers_once rounds session name p first q ∙ rw kind refl,
      refl,
      d,
      answer,
      centre',
      decoded,
      handled,
      numbered ∙ number,
      table,
    )
  where
    sent : Message
    sent = record {
      magic = 0x66;
      version = 0x01;
      type_of = type_code rpc_service_register;
      err = err_code success;
      seq = (p.seq + 1) % 2 ^ 64;
      content_lenth = 0;
      serializer = empty_buffer;
    }
