-- ===== src/Registry/NameExamples.antt =====
-- The lists of names of rpc/rpc_register.cpp at concrete values.
use c_rpc.Base.{◌-◌, ◌≤◌, ◌≡◌, [], ◌∷◌, All, str_eq, drop, length, refl, false, arith}
use c_rpc.Wire.Buffer.{
  Buffer, ok, empty_buffer, write, write_uint8, write_uint16, write_uint64, ◌⨾◌,
}
use c_rpc.Wire.Words.{host_bytes}
use c_rpc.Wire.Reads.{IsValid}
use c_rpc.Wire.Serializer.{max_size, write_string}
use c_rpc.Tables.{IpPort, equal_range}
use c_rpc.Protocol.{Message, new_message, encode, write_header}
use c_rpc.Registry.{RpcRegister, write_services, receive_services, reply}
use c_rpc.Registry.Names.{
  NameFits, services_of, discover_answer, handle_service_discover, write_names,
}
use c_rpc.Registry.Discovery.{discovered}

abbrev one : IpPort
one = record { m_ip = 49 ∷ []; m_port = 80 }

abbrev two : IpPort
two = record { m_ip = 50 ∷ []; m_port = 81 }

abbrev centre : RpcRegister
centre = record {
  m_addresses = (97 ∷ [], one) ∷ (97 ∷ [], two) ∷ (98 ∷ [], one) ∷ [];
  m_subscribes = (97 ∷ [], 4) ∷ [];
  m_heartbeat_timers = λ i. false;
  seq = 6;
}

abbrev request : Message
request = record {
  magic = 0x66;
  version = 1;
  type_of = 2;
  err = 0;
  seq = 7;
  content_lenth = 18;
  serializer = write_names ((98 ∷ []) ∷ (97 ∷ []) ∷ []) empty_buffer;
}

names-NameFits : All NameFits ((98 ∷ []) ∷ (97 ∷ []) ∷ [])
names-NameFits = (omega arith, (omega arith, tt))

request-IsValid : IsValid request.serializer
unfolding write_string write_uint64 write ◌⨾◌ host_bytes
request-IsValid = record { in_range = omega arith; addressable = omega arith }

request-unread :
    drop request.serializer.m_position request.serializer.m_data ≡ request.serializer.m_data
unfolding write_string write_uint64 write ◌⨾◌ host_bytes
request-unread = refl

abbrev answered : Buffer
answered = record {
  m_data = drop 20 (discover_answer request centre (97 ∷ [])).0.serializer.m_data;
  m_position = 0;
}

answered-IsValid : IsValid answered
unfolding reply new_message encode write_header write_services write_string write_uint64
    write_uint16 write_uint8 write ◌⨾◌ host_bytes equal_range str_eq
answered-IsValid = record { in_range = omega arith; addressable = omega arith }

found-fits :
    length (write_services (services_of (97 ∷ []) (one ∷ two ∷ [])) empty_buffer).m_data
    ≤ max_size - 20
unfolding write_services write_string write_uint64 write_uint16 write ◌⨾◌ host_bytes
found-fits = omega arith

discovered_example :
    (b' : Buffer) × (handle_service_discover request centre
      ≡ ok (discover_answer request centre (97 ∷ [])))
    × (receive_services [] answered ≡ ok ((97 ∷ [], one) ∷ (97 ∷ [], two) ∷ [], b'))
unfolding equal_range str_eq
discovered_example =
    discovered ((98 ∷ []) ∷ []) (97 ∷ []) request centre answered names-NameFits request-IsValid
      request-unread
      ((omega arith, omega arith, omega arith), ((omega arith, omega arith, omega arith), tt))
      (omega arith) found-fits answered-IsValid refl
