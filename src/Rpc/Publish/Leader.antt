-- ===== src/Rpc/Publish/Leader.antt =====
-- A server that a node of the centre redirects to the leader: registerFunc2Reg and RedirectRegister of
-- rpc/rpc_server.cpp, and handleServiceRegister of raft/raft_node.cpp.
use c_rpc.Base.{
  ℕ, suc, ◌+◌, ◌%◌, ◌^◌, ◌≡◌, refl, ap, ◌∙◌, List, [], ◌∷◌, ◌++◌, length, none, true, ◌==◌, arith,
}
use c_rpc.Wire.Buffer.{Buffer, ok, empty_buffer}
use c_rpc.Wire.Reads.{IsValid, unread}
use c_rpc.Wire.Ends.{at_end}
use c_rpc.Protocol.{
  Message, decode, type_code, raft_redirect, rpc_service_register, err_code, success,
}
use c_rpc.Protocol.Arrival.{at_start}
use c_rpc.Protocol.Decoding.{decode-arrived}
use c_rpc.Tables.{IpPort}
use c_rpc.Raft.Outcome.{done, fault, release}
use c_rpc.Raft.Node.{RaftNode, ◌>>=◌, lock, unlock}
use c_rpc.Raft.Node.Append.{Available}
use c_rpc.Raft.Service.{append_services, unlock_after, register_services, wait_applied}
use c_rpc.Raft.Sections.{bind-done, lock-taken}
use c_rpc.Pool.{get_all_register, add_register, raft_register}
use c_rpc.Rpc.Publish.{
  Publisher, Reply, got, returns, ◌▷◌, register_func2reg, redirect_register, redirect_end,
  connect_new, read_address, reads_address, after_answer, after_redirect, send_and_wait,
}
use c_rpc.Rpc.Publish.Centre.{
  registration, register_message, answered_by, sent_and_got, registers_once,
}

-- A registration without a service leaves the log and `index` as they are, and the wait that follows
-- reads `index`, which has no value.
empty_registration :
    (me : ℕ) (b : Buffer) (n : RaftNode)
    → Available me n
    → IsValid b
    → unread b ≡ []
    → (register_services b me n ≡ done (ok none, record n { m_raft_mutex = 0 }))
      × (wait_applied none me (record n { m_raft_mutex = 0 }) ≡ fault)
unfolding register_services append_services unlock_after unlock release wait_applied
empty_registration me b n av v e = (
  bind-done lock (λ u. append_services (suc (length b.m_data)) none b >>= unlock_after) me n
        (lock-taken me n av.raft)
      ∙ rw (at_end b v e) (ground arith),
  refl,
)

-- The publisher once it is connected to the leader.
abbrev at_leader : IpPort → Publisher → Publisher
at_leader a p = record (connect_new a p) {
  m_connection_pool =
      add_register raft_register p.m_connection_pool.made (connect_new a p).m_connection_pool;
}

reads_ok :
    (b : Buffer) {a : IpPort} {b' : Buffer}
    → read_address b ≡ ok (a, b')
    → reads_address b ≡ returns a
unfolding reads_address
reads_ok b e = rw (e, reads_address) refl

redirects_once :
    (retry : Publisher → c_rpc.Rpc.Publish.Ending Publisher) (m m' : Message) (a : IpPort)
    (b' : Buffer) (p : Publisher) (rest : List Reply)
    → m.type_of == type_code raft_redirect ≡ true
    → read_address m.serializer ≡ ok (a, b')
    → p.replies ≡ got m' ∷ rest
    → after_answer retry (got m, p)
      ≡ returns (
          answered_by p.m_connection_pool.made
            (register_message empty_buffer ((p.seq + 1) % 2 ^ 64))
            rest
            (at_leader a p))
unfolding after_answer redirect_register connect_new redirect_end after_redirect
redirects_once retry m m' a b' p rest kind read q = rw kind (
    ap (λ r. r ▷ λ x. redirect_register x p ▷ after_redirect retry) (reads_ok m.serializer read)
    ∙ ap (λ r. r ▷ redirect_end ▷ after_redirect retry)
        (sent_and_got p.m_connection_pool.made empty_buffer (at_leader a p) q))

-- The number of the message that goes out behind the first: what received the first answer has a number
-- in between, and so have the messages of other coroutines.
abbrev pub second_seq : Publisher → ℕ
second_seq p =
    (((p.seq + 1) % 2 ^ 64 + 1 + p.meanwhile ((p.seq + 1) % 2 ^ 64)) % 2 ^ 64 + 1) % 2 ^ 64

-- A server that registers a function is redirected, and the leader answers: the call returns, and two
-- messages have been sent, the registration to the first centre, and to the leader, on a new
-- connection to the address that was in the answer, one without any service. As that arrives it
-- decodes; whoever can take both mutexes appends nothing for it, and the wait that follows reads
-- `index`, which has no value.
pub redirected_lost :
    (rounds session : ℕ) (name : List ℕ) (p : Publisher) (others : List ℕ) (m m' r : Message)
    (a : IpPort) (b' : Buffer) (rest : List Reply) (me : ℕ) (n : RaftNode)
    → get_all_register p.m_connection_pool ≡ session ∷ others
    → p.replies ≡ got m ∷ (got m' ∷ rest)
    → m.type_of == type_code raft_redirect ≡ true
    → read_address m.serializer ≡ ok (a, b')
    → r.serializer ≡ at_start (register_message empty_buffer (second_seq p)).serializer.m_data
    → Available me n
    → (p' : Publisher) × (register_func2reg (suc rounds) name p ≡ returns p')
      × (p'.sent
          ≡ (p.sent ++ (session, registration name p.address ((p.seq + 1) % 2 ^ 64)) ∷ [])
            ++ (p.m_connection_pool.made, register_message empty_buffer (second_seq p)) ∷ [])
      × (p'.connections ≡ p.connections ++ (p.m_connection_pool.made, a) ∷ [])
      × (d : Message) × (decode r ≡ ok d)
      × (register_services d.serializer me n ≡ done (ok none, record n { m_raft_mutex = 0 }))
      × (wait_applied none me (record n { m_raft_mutex = 0 }) ≡ fault)
unfolding connect_new
redirected_lost rounds session name p others m m' r a b' rest me n first q kind read e av =
    let (d, decoded, number, t, v, content) =
      decode-arrived sent r empty_buffer
        (record {
          magic = omega arith;
          version = omega arith;
          type_of = omega arith;
          err = omega arith;
          seq = omega arith;
        })
        refl (omega arith) e in
    let (nothing, wrong) = empty_registration me d.serializer n av v content in
    let p1 =
      answered_by session (registration name p.address ((p.seq + 1) % 2 ^ 64)) (got m' ∷ rest) p in
    (
      answered_by p.m_connection_pool.made (register_message empty_buffer (second_seq p)) rest
          (at_leader a p1),
      registers_once rounds session name p first q
          ∙ redirects_once (register_func2reg rounds name) m m' a b' p1 rest kind read refl,
      refl,
      refl,
      d,
      decoded,
      nothing,
      wrong,
    )
  where
    sent : Message
    sent = record {
      magic = 0x66;
      version = 0x01;
      type_of = type_code rpc_service_register;
      err = err_code success;
      seq = second_seq p;
      content_lenth = 0;
      serializer = empty_buffer;
    }
