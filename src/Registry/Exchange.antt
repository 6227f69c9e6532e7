-- ===== src/Registry/Exchange.antt =====
-- The exchange of addresses between servers, the registration centre and clients:
-- rpc/rpc_register.cpp, and the loop of rpc/rpc_client.cpp that fills the table of a client.
use c_rpc.Base.{
  emplace_all, ℕ, zero, suc, ◌-◌, ◌^◌, ◌≤◌, ◌<◌, ◌≡◌, refl, sym, ap, ◌∙◌, List, [], ◌∷◌, ◌++◌,
  append-nil, length, All, false, arith, length-append, drop, length-drop,
}
use mathlib.Core.Path.{subst}
use c_rpc.Wire.Buffer.{
  Buffer, is_read_end, out_of_range, throw, read, check_read, read_uint64, read_uint16,
  write_uint16, ok, empty_buffer, ◌>>=◌, ◌⨾◌,
}
use c_rpc.Wire.Serializer.{max_size, read_string, write_string}
use c_rpc.Wire.Reads.{
  IsValid, RoundTrips, unread, advance, Writes, Writes-then, bind-ok, unread-advance,
  advance-IsValid,
}
use c_rpc.Wire.Ends.{at_end, not_at_end, not_empty}
use c_rpc.Wire.RoundTrip.{RoundTrips-then, RoundTrips-map}
use c_rpc.Wire.Prims.{uint16-RoundTrips}
use c_rpc.Wire.Containers.{string-RoundTrips}
use c_rpc.Protocol.{
  Message, new_message, encode, type_code, rpc_service_discover_response,
  rpc_service_register_response, err_code, success,
}
use c_rpc.Protocol.Arrival.{at_start}
use c_rpc.Protocol.Decoding.{decode-encode}
use c_rpc.Tables.Order.{IsSorted}
use c_rpc.Tables.Fill.{emplace_all-IsSorted}
use c_rpc.Tables.{IpPort, Multimap, emplace}
use c_rpc.Registry.{
  RpcRegister, write_services, read_service, emplace_services, receive_services,
  handle_service_register, handle_client_init, reply,
}

-- A name and an address that fit their types.
abbrev pub ServiceFits : List ℕ × IpPort → Type 0
ServiceFits (f_name, a) =
    (length f_name ≤ max_size) × (length a.m_ip ≤ max_size) × (a.m_port < 2 ^ 16)

abbrev pub write_service : List ℕ × IpPort → Buffer → Buffer
write_service (f_name, a) = write_string f_name ⨾ (write_string a.m_ip ⨾ write_uint16 a.m_port)

pub service-RoundTrips :
    (s : List ℕ × IpPort) → ServiceFits s → RoundTrips (write_service s) read_service s
unfolding read_service
service-RoundTrips (f_name, a) (n, i, p) =
    RoundTrips-then read_string _ (string-RoundTrips f_name n) (
      RoundTrips-then read_string _ (string-RoundTrips a.m_ip i)
        (RoundTrips-map read_uint16 _ (uint16-RoundTrips a.m_port p)))

read_service_empty : read_service empty_buffer ≡ throw out_of_range
unfolding read_service read_string read_uint64 read check_read ◌>>=◌
read_service_empty = refl

-- The bytes of a table.
unfoldable pub services_bytes : (ss : Multimap IpPort) → All ServiceFits ss → List ℕ
services_bytes [] hs = []
services_bytes (s ∷ ss) (h, hs) = (service-RoundTrips s h).bytes ++ services_bytes ss hs

pub Writes-services :
    (ss : Multimap IpPort) (hs : All ServiceFits ss)
    → Writes (write_services ss) (services_bytes ss hs)
unfolding write_services services_bytes
Writes-services [] hs b = ap (λ d. record b { m_data = d }) (sym (append-nil b.m_data))
Writes-services ((f_name, a) ∷ ss) (h, hs) b =
    Writes-then (service-RoundTrips (f_name, a) h).writes (Writes-services ss hs) b

pub length-services :
    (ss : Multimap IpPort) (hs : All ServiceFits ss) → length ss ≤ length (services_bytes ss hs)
unfolding services_bytes
length-services [] hs = omega arith
length-services (s ∷ ss) (h, hs) = omega (
  arith,
  length-services ss hs,
  not_empty read_service s (service-RoundTrips s h).bytes read_service_empty
      (service-RoundTrips s h).reads,
  length-append (service-RoundTrips s h).bytes (services_bytes ss hs),
)

-- A buffer whose unread bytes are those of a table that is not empty: the next service is read.
pub services_next :
    (s : List ℕ × IpPort) (ss : Multimap IpPort) (h : ServiceFits s) (hs : All ServiceFits ss)
    (b : Buffer)
    → IsValid b
    → unread b ≡ services_bytes (s ∷ ss) (h, hs)
    → (b' : Buffer) × (is_read_end b ≡ false)
      × (read_service b ≡ ok (s, b'))
      × IsValid b'
      × (unread b' ≡ services_bytes ss hs)
unfolding services_bytes
services_next s ss h hs b v e =
    let k = service-RoundTrips s h in
    (
      advance (length k.bytes) b,
      not_at_end b k.bytes (services_bytes ss hs) v e
          (not_empty read_service s k.bytes read_service_empty k.reads),
      k.reads b (services_bytes ss hs) v e,
      advance-IsValid b k.bytes (services_bytes ss hs) v e,
      unread-advance b k.bytes (services_bytes ss hs) e,
    )

emplace_services_lem :
    (ss : Multimap IpPort) (hs : All ServiceFits ss) (t : Multimap IpPort) (b : Buffer) (rounds : ℕ)
    → IsValid b
    → unread b ≡ services_bytes ss hs
    → length ss < rounds
    → (b' : Buffer) × (emplace_services rounds t b ≡ ok (emplace_all emplace ss t, b'))
unfolding emplace_services
emplace_services_lem [] hs t b zero h e lt = elim lt [ ]
emplace_services_lem [] hs t b (suc rounds) h e lt =
    (b, rw (at_end b h (unfold services_bytes in e)) refl)
emplace_services_lem (s ∷ ss) hs t b zero h e lt = elim lt [ ]
emplace_services_lem (s ∷ ss) (k, hs) t b (suc rounds) h e lt =
    let (b1, more, q, v, e') = services_next s ss k hs b h e in
    let (b', q') = emplace_services_lem ss hs (emplace s t) b1 rounds v e' (omega arith) in
    (b', rw more (bind-ok read_service _ q) ∙ q')

-- What reads a table that another has written: the pairs written are added, in order, to the table
-- that the reader has. They fit their types, and the bytes written are what is unread.
pub receive_services_lem :
    (ss t : Multimap IpPort) (b : Buffer)
    → All ServiceFits ss
    → IsValid b
    → unread b ≡ (write_services ss empty_buffer).m_data
    → (b' : Buffer) × (receive_services t b ≡ ok (emplace_all emplace ss t, b'))
unfolding receive_services
receive_services_lem ss t b hs h e =
    emplace_services_lem ss hs t b (suc (length b.m_data)) h bytes
      (omega (arith, length-services ss hs, ap length bytes, length-drop b.m_position b.m_data))
  where
    bytes : unread b ≡ services_bytes ss hs
    bytes = e ∙ ap (λ c. c.m_data) (Writes-services ss hs empty_buffer)

handled :
    (m : Message) (r : RpcRegister) (t : Multimap IpPort) (b' : Buffer)
    → receive_services r.m_addresses m.serializer ≡ ok (t, b')
    → handle_service_register m r
      ≡ ok (reply rpc_service_register_response m.seq empty_buffer (record r { m_addresses = t }))
unfolding handle_service_register
handled m r t b' q = rw (q, handle_service_register)

-- A server registers its functions: the answer has the number of the request, and the table has the
-- pairs that the server wrote, added in order, and nothing else is changed but the counter of
-- messages. The pairs fit their types, and what is unread of the message is what the server wrote.
pub handle_service_register_lem :
    (ss : Multimap IpPort) (m : Message) (r : RpcRegister)
    → All ServiceFits ss
    → IsValid m.serializer
    → unread m.serializer ≡ (write_services ss empty_buffer).m_data
    → (answer : Message) × (r' : RpcRegister) × (handle_service_register m r ≡ ok (answer, r'))
      × (answer.seq ≡ m.seq)
      × (r'.m_addresses ≡ emplace_all emplace ss r.m_addresses)
      × (r'.m_heartbeat_timers ≡ r.m_heartbeat_timers)
unfolding handle_service_register reply new_message encode
handle_service_register_lem ss m r hs h e =
    let (b', q) = receive_services_lem ss r.m_addresses m.serializer hs h e in
    let answer =
      reply rpc_service_register_response m.seq empty_buffer
        (record r { m_addresses = emplace_all emplace ss r.m_addresses }) in
    (answer.0, answer.1, handled m r (emplace_all emplace ss r.m_addresses) b' q, refl, refl, refl)

-- What a client reads from an answer, behind the 20 bytes of the header: the pairs that were written, put
-- in order into an empty table.
pub read_answer :
    (ss : Multimap IpPort) (seq : ℕ) (r : RpcRegister) (b : Buffer)
    → All ServiceFits ss
    → seq < 2 ^ 64
    → length (write_services ss empty_buffer).m_data ≤ max_size - 20
    → IsValid b
    → unread b
      ≡ drop 20
          (reply rpc_service_discover_response seq
            (write_services ss empty_buffer)
            r).0.serializer.m_data
    → (b' : Buffer) × (receive_services [] b ≡ ok (emplace_all emplace ss [], b'))
unfolding reply new_message
read_answer ss seq r b hs fits len h e = receive_services_lem ss [] b hs h (e ∙ content)
  where
    answer : Message
    answer = record {
      magic = 0x66;
      version = 0x01;
      type_of = type_code rpc_service_discover_response;
      err = err_code success;
      seq = seq;
      content_lenth = 0;
      serializer = empty_buffer;
    }

    content :
        drop 20 (encode answer (write_services ss empty_buffer)).serializer.m_data
        ≡ (write_services ss empty_buffer).m_data
    content =
        (decode-encode answer
          (record answer {
            serializer =
                at_start (encode answer (write_services ss empty_buffer)).serializer.m_data;
          })
          (write_services ss empty_buffer)
          (record {
            magic = omega arith;
            version = omega arith;
            type_of = omega arith;
            err = omega arith;
            seq = fits;
          })
          refl len refl).1

-- A client starts: with no table of its own, it has that of the registration centre once it has
-- read the answer, all behind the 20 bytes of its header. The table is in order, its pairs and the
-- number of the request fit their types, and the content is at most the largest string less the
-- header.
pub handle_client_init_lem :
    (m : Message) (r : RpcRegister) (b : Buffer)
    → IsSorted r.m_addresses
    → All ServiceFits r.m_addresses
    → m.seq < 2 ^ 64
    → length (write_services r.m_addresses empty_buffer).m_data ≤ max_size - 20
    → IsValid b
    → unread b ≡ drop 20 (handle_client_init m r).0.serializer.m_data
    → (b' : Buffer) × (receive_services [] b ≡ ok (r.m_addresses, b'))
unfolding handle_client_init
handle_client_init_lem m r b sorted hs fits len h e =
    subst (λ t. (b' : Buffer) × (receive_services [] b ≡ ok (t, b')))
      (emplace_all-IsSorted [] r.m_addresses sorted)
      (read_answer r.m_addresses m.seq r b hs fits len h e)
