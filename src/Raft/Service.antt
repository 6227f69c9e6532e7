-- ===== src/Raft/Service.antt =====
-- The handlers of raft/raft_node.cpp that serve clients and servers: a server registers its functions
-- at the leader, which appends them to the log; other nodes send it on to the leader. A handler is
-- made of sections under `m_raft_mutex`, between which other coroutines run; the first wait of
-- handleServiceRegister, which takes the mutex and frees it in the other order, is left out.
pub mod Registers
pub mod Found
pub mod Redirect
mod Examples
use c_rpc.Base.{
  ℕ, zero, suc, ◌-◌, List, length, get_elem?, Option, none, some, Bool, true, false, not, ◌==◌, ltb,
  str_eq, ◌&&◌, ◌||◌, if◌then◌else◌,
}
use c_rpc.Wire.Buffer.{
  Buffer, Result, ok, throw, hang, empty_buffer, ◌⨾◌, is_read_end, write_uint16,
}
use c_rpc.Wire.Serializer.{write_string}
use c_rpc.Protocol.{
  Message, MessageType, encode, new_message, type_code, err_code, success, rpc_client_init,
  rpc_server_init, rpc_service_register, rpc_service_delete, heart_beat, rpc_request, raft_redirect,
  rpc_service_discover_response, rpc_service_register_response,
}
use c_rpc.Tables.{IpPort}
use c_rpc.Registry.{read_service, write_services}
use c_rpc.Raft.Config.{Entry, default_entry, op_no_op, op_register}
use c_rpc.Raft.Outcome.{Outcome, done, blocked, fault}
use c_rpc.Raft.Logger.{get_commit_index, get_last_applied, get_entry, size, append_local}
use c_rpc.Raft.Node.{RaftNode, Section, ◌>>=◌, ◌>>◌, pure, get, lock, unlock, on_logger, is_leader}

-- The condition of the first wait: the last entry is a "no-op" that the leader has not committed.
unfoldable pub no_op_pending : Section Bool
no_op_pending = do
  entries ← on_logger size
  last ← on_logger (get_entry (entries - 1))
  if not (str_eq last.op op_no_op) then pure false else do
    commit_index ← on_logger get_commit_index
    n ← get
    pure (ltb commit_index (entries - 1) && is_leader n.m_state)

-- A round of that wait, and whether there is another.
unfoldable pub wait_no_op : Section Bool
wait_no_op = do lock; waits ← no_op_pending; unlock; pure waits

abbrev pub register_entry : ℕ → List ℕ × IpPort → Entry
register_entry term (f_name, a) = record default_entry {
  term = term;
  op = op_register;
  f_name = f_name;
  f_ip = a.m_ip;
  f_port = a.m_port;
}

-- `while(!s->isReadEnd())`, for at most `rounds` rounds: an entry for each service that is read.
-- `index` is a variable without an initialiser.
unfoldable pub append_services : ℕ → Option ℕ → Buffer → Section (Result (Option ℕ))
append_services zero index b = pure hang
append_services (suc rounds) index b =
    if is_read_end b then pure (ok index) else elim (read_service b) [
      | ok (service, b') ↦ do
        n ← get
        i ← on_logger (append_local (register_entry n.m_current_term service))
        append_services rounds (some i) b'
      | throw e ↦ pure (throw e)
      | hang ↦ pure hang
    ]

-- The section that fills the log. What throws leaves the mutex held.
unfoldable pub unlock_after : Result (Option ℕ) → Section (Result (Option ℕ))
unlock_after (ok index) = do unlock; pure (ok index)
unlock_after (throw e) = pure (throw e)
unlock_after hang = pure hang

unfoldable pub register_services : Buffer → Section (Result (Option ℕ))
register_services b = do
  lock
  result ← append_services (suc (length b.m_data)) none b
  unlock_after result

-- A round of the second wait, and whether there is another. It reads `index`.
unfoldable pub wait_applied : Option ℕ → Section Bool
wait_applied none = λ me n. fault
wait_applied (some index) = do
  lock
  last_applied ← on_logger get_last_applied
  unlock
  pure (ltb index last_applied)

-- What the handlers read and write beside the node: the addresses of the cluster, whether a socket has
-- a timer, and the counter `SEQ` of rpc_protocol.h.
pub record RaftService : Type 0 where
  pub raft : RaftNode
  pub m_nodes : List IpPort
  pub m_heartbeat_timers : ℕ → Bool
  pub seq : ℕ

-- A message of the given type that answers the message `m`.
unfoldable pub answer : MessageType → Message → Buffer → RaftService → Message × RaftService
answer kind m content s =
    let (message, SEQ') = new_message (type_code kind) (err_code success) 0x01 s.seq in
    (encode (record message { seq = m.seq }) content, record s { seq = SEQ' })

abbrev pub write_address : IpPort → Buffer → Buffer
write_address a = write_string a.m_ip ⨾ write_uint16 a.m_port

-- `m_nodes[m_leaderId]`: without a leader the index is -1.
unfoldable pub handle_server_redirect : Message → RaftService → Outcome (Message × RaftService)
handle_server_redirect m s = elim (get_elem? s.m_nodes s.raft.m_leader_id) [
  | none ↦ fault
  | some a ↦ done (answer raft_redirect m (write_address a empty_buffer) s)
]

unfoldable pub handle_client_init : Message → RaftService → Message × RaftService
handle_client_init m s =
    answer rpc_service_discover_response m
      (write_services s.raft.m_raft_logger.m_addresses empty_buffer) s

-- The end of handleServerInit, behind its waits, and that of handleServiceRegister.
unfoldable pub finish_server_init : ℕ → Message → RaftService → Message × RaftService
finish_server_init fd m s =
    answer rpc_service_register_response m empty_buffer
      (record s { m_heartbeat_timers = λ i. (i == fd) || s.m_heartbeat_timers i })

unfoldable pub finish_service_register : Message → RaftService → Message × RaftService
finish_service_register m s = answer rpc_service_register_response m empty_buffer s

-- The handlers, and the one that handleMsg calls for a decoded message.
pub data Handler : Type 0 where
  server_redirect client_init server_init service_register heart_beats client_request no_handler :
      Handler

unfoldable pub redirects : ℕ → Bool
redirects t =
    (t == type_code rpc_server_init)
    || ((t == type_code rpc_service_register) || (t == type_code rpc_service_delete))

unfoldable pub handle_msg : Message → RaftNode → Handler
handle_msg m n =
    if not (n.m_id == n.m_leader_id) && redirects m.type_of
    then server_redirect
    else if m.type_of == type_code rpc_client_init
    then client_init
    else if m.type_of == type_code rpc_server_init
    then server_init
    else if m.type_of == type_code rpc_service_register
    then service_register
    else if m.type_of == type_code heart_beat
    then heart_beats
    else if m.type_of == type_code rpc_request
    then client_request
    else no_handler
