-- ===== src/Registry/Examples.antt =====
-- The registration centre at concrete values.
use c_rpc.Base.{◌-◌, ◌≤◌, ◌≡◌, [], ◌∷◌, str_eq, drop, length, false, refl, arith}
use c_rpc.Wire.Buffer.{Buffer, empty_buffer, write, write_uint8, write_uint16, write_uint64, ◌⨾◌}
use c_rpc.Wire.Words.{host_bytes}
use c_rpc.Wire.Reads.{IsValid}
use c_rpc.Wire.Serializer.{max_size, write_string}
use c_rpc.Tables.{IpPort, Multimap, str_lt, erase_first}
use c_rpc.Protocol.{Message, type_code, rpc_service_register, new_message, encode, write_header}
use c_rpc.Registry.{RpcRegister, erase_address, write_services, handle_client_init, reply}
use c_rpc.Tables.Order.{IsSorted}

abbrev here : IpPort
here = record { m_ip = 49 ∷ []; m_port = 80 }

abbrev there : IpPort
there = record { m_ip = 50 ∷ []; m_port = 81 }

-- "a" and "c" here, to which "b" there is added.
abbrev table : Multimap IpPort
table = (97 ∷ [], here) ∷ (99 ∷ [], here) ∷ []

table-IsSorted : IsSorted table
unfolding str_lt
table-IsSorted = ((refl, tt), (tt, tt))

abbrev a_register : RpcRegister
a_register = record {
  m_addresses = table;
  m_subscribes = [];
  m_heartbeat_timers = λ i. false;
  seq = 6;
}

absent : (erase_address (97 ∷ []) there a_register).0 ≡ false
unfolding erase_address erase_first str_eq
absent = refl

-- What a server with the one function "b" sends.
abbrev offer : Multimap IpPort
offer = (98 ∷ [], there) ∷ []

abbrev request : Message
request = record {
  magic = 0x66;
  version = 1;
  type_of = type_code rpc_service_register;
  err = 0;
  seq = 7;
  content_lenth = 20;
  serializer = write_services offer empty_buffer;
}

request-IsValid : IsValid request.serializer
unfolding write_services write_string write_uint64 write_uint16 write ◌⨾◌ host_bytes
request-IsValid = record { in_range = omega arith; addressable = omega arith }

request-at_start : request.serializer.m_position ≡ 0
unfolding write_services write_string write_uint64 write_uint16 write ◌⨾◌ host_bytes
request-at_start = refl

-- The content of the answer to a client.
abbrev answered : Buffer
answered = record {
  m_data = drop 20 (handle_client_init request a_register).0.serializer.m_data;
  m_position = 0;
}

content-length : length (write_services table empty_buffer).m_data ≤ max_size - 20
unfolding write_services write_string write_uint64 write_uint16 write ◌⨾◌ host_bytes
content-length = omega arith

answered-IsValid : IsValid answered
unfolding handle_client_init reply new_message encode write_header write_services write_string
    write_uint64 write_uint16 write_uint8 write ◌⨾◌ host_bytes
answered-IsValid = record { in_range = omega arith; addressable = omega arith }
