-- ===== src/Registry.antt =====
-- The registration centre, rpc/rpc_register.cpp: its table of addresses, and the handlers of the
-- messages that it serves.
pub mod Addresses
pub mod Exchange
pub mod Names
pub mod Discovery
pub mod Subscription
mod NameExamples
mod Examples
use c_rpc.Base.{
  ℕ, zero, suc, ◌+◌, List, [], ◌∷◌, length, Option, none, some, Bool, true, false, ◌==◌, ltb,
  str_eq, ◌&&◌, ◌||◌, if◌then◌else◌,
}
use c_rpc.Wire.Buffer.{
  Buffer, Reader, Result, ok, throw, hang, empty_buffer, ◌>>=◌, pure, ◌⨾◌, read_uint16,
  write_uint16, is_read_end,
}
use c_rpc.Wire.Serializer.{read_string, write_string}
use c_rpc.Protocol.{
  Message, MessageType, rpc_service_discover_response, rpc_service_register_response,
  rpc_client_init, rpc_server_init, rpc_service_register, heart_beat, type_code, err_code, success,
  new_message, encode,
}
use c_rpc.Tables.{IpPort, Multimap, str_lt, emplace, equal_range, erase_first}

-- `m_subscribes`: the sockets that a name is published to. `m_heartbeat_timers`: whether a socket has a
-- timer. `seq` is the counter `SEQ` of
-- rpc_protocol.h.
pub record RpcRegister : Type 0 where
  pub m_addresses : Multimap IpPort
  pub m_subscribes : Multimap ℕ
  pub m_heartbeat_timers : ℕ → Bool
  pub seq : ℕ

-- addAddress and eraseAddress
unfoldable pub add_address : List ℕ → IpPort → RpcRegister → RpcRegister
add_address func_name address r = record r {
  m_addresses = emplace (func_name, address) r.m_addresses;
}

unfoldable pub erase_address : List ℕ → IpPort → RpcRegister → Bool × RpcRegister
erase_address func_name address r =
    let (found, m) = erase_first func_name address r.m_addresses in
    (found, record r { m_addresses = m })

-- `<< f_name << f_ip << port` for the pairs of a table, and `>> f_name >> f_ip >> f_port`.
unfoldable pub write_services : Multimap IpPort → Buffer → Buffer
write_services [] = λ b. b
write_services ((f_name, a) ∷ m) =
    (write_string f_name ⨾ (write_string a.m_ip ⨾ write_uint16 a.m_port)) ⨾ write_services m

unfoldable pub read_service : Reader (List ℕ × IpPort)
read_service = do
  f_name ← read_string
  f_ip ← read_string
  f_port ← read_uint16
  pure (f_name, record { m_ip = f_ip; m_port = f_port })

-- `while(!s->isReadEnd())`, for at most `rounds` rounds, with the table that it fills.
unfoldable pub emplace_services : ℕ → Multimap IpPort → Reader (Multimap IpPort)
emplace_services zero m b = hang
emplace_services (suc rounds) m b =
    if is_read_end b
    then ok (m, b)
    else (read_service >>= λ service. emplace_services rounds (emplace service m)) b

-- A round takes some bytes, so there are no more rounds than bytes, but for the last test.
unfoldable pub receive_services : Multimap IpPort → Reader (Multimap IpPort)
receive_services m b = emplace_services (suc (length b.m_data)) m b

-- A message of the given type that answers the message with the number `seq`.
unfoldable pub reply : MessageType → ℕ → Buffer → RpcRegister → Message × RpcRegister
reply kind seq content r =
    let (message, SEQ') = new_message (type_code kind) (err_code success) 0x01 r.seq in
    (encode (record message { seq = seq }) content, record r { seq = SEQ' })

unfoldable pub handle_client_init : Message → RpcRegister → Message × RpcRegister
handle_client_init m r =
    reply rpc_service_discover_response m.seq (write_services r.m_addresses empty_buffer) r

unfoldable pub handle_service_register : Message → RpcRegister → Result (Message × RpcRegister)
handle_service_register m r = elim (receive_services r.m_addresses m.serializer) [
  | ok (addresses, s) ↦ ok (
      reply rpc_service_register_response m.seq empty_buffer (record r { m_addresses = addresses }))
  | throw e ↦ throw e
  | hang ↦ hang
]

-- A server also gets a timer, unless its socket has one.
unfoldable pub handle_server_init : ℕ → Message → RpcRegister → Result (Message × RpcRegister)
handle_server_init fd m r = elim (receive_services r.m_addresses m.serializer) [
  | ok (addresses, s) ↦ ok (
      reply rpc_service_register_response m.seq empty_buffer (record r {
        m_addresses = addresses;
        m_heartbeat_timers = λ i. (i == fd) || r.m_heartbeat_timers i;
      }))
  | throw e ↦ throw e
  | hang ↦ hang
]

-- The loop `while(!s->isReadEnd()){}` has no body. The result: whether a timer was reset.
unfoldable pub handle_heart_beat : ℕ → Message → RpcRegister → Result Bool
handle_heart_beat fd m r = if is_read_end m.serializer then ok (r.m_heartbeat_timers fd) else hang

-- The switch of handleMsg, on a message that has been decoded.
unfoldable pub handle_msg : ℕ → Message → RpcRegister → Result (Option Message × RpcRegister)
handle_msg fd m r =
    if m.type_of == type_code rpc_client_init
    then (let (answer, r') = handle_client_init m r in ok (some answer, r'))
    else if m.type_of == type_code rpc_server_init
    then answered (handle_server_init fd m r)
    else if m.type_of == type_code rpc_service_register
    then answered (handle_service_register m r)
    else if m.type_of == type_code heart_beat
    then elim (handle_heart_beat fd m r) [
      | ok reset ↦ ok (none, r)
      | throw e ↦ throw e
      | hang ↦ hang
    ]
    else ok (none, r)
  where
    answered : Result (Message × RpcRegister) → Result (Option Message × RpcRegister)
    answered (ok (answer, r')) = ok (some answer, r')
    answered (throw e) = throw e
    answered hang = hang
