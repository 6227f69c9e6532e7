-- ===== src/Rpc/Examples.antt =====
-- A server with one function, called by a client.
use c_rpc.Base.{
  ℕ, ◌+◌, ◌-◌, ◌%◌, ◌^◌, ◌≤◌, ◌≡◌, refl, List, [], ◌∷◌, length, Option, none, some, str_eq,
  if◌then◌else◌, arith,
}
use c_rpc.Wire.Words.{host_bytes, host_value, htonl, htonll, ntohll}
use c_rpc.Wire.Buffer.{
  Buffer, ok, empty_buffer, write, write_uint64, write_uint32, ◌⨾◌, ◌>>=◌, pure, read, check_read,
  copy_out, read_uint64,
}
use c_rpc.Wire.Serializer.{
  Ty, Val, Vals, prim, uint32, max_size, write_ref, write_prim, write_const, write_string,
  serialize, read_string, resize,
}
use c_rpc.Protocol.{Message, decode}
use c_rpc.Protocol.Arrival.{at_start}
use c_rpc.Rpc.Server.{RpcServer, Func, find_func, call_func, register_func, set_func, handle_msg}
use c_rpc.Rpc.Client.{request_content, request, read_response}
use c_rpc.Rpc.RemoteCall.{remote_call}
use c_rpc.Rpc.Functions.{registers, deletes, finds, run, run_refines}

-- "add" of two uint32_t.
abbrev add_name : List ℕ
add_name = 97 ∷ 100 ∷ 100 ∷ []

abbrev pair : List Ty
pair = prim uint32 ∷ prim uint32 ∷ []

abbrev add : Vals pair → Val (prim uint32)
add (a, (b, u)) = (a + b) % 2 ^ 32

abbrev server : RpcServer
server = register_func pair (prim uint32) add_name add (record { m_funcs = []; seq = 4 })

server-add : find_func add_name server.m_funcs ≡ some (call_func pair (prim uint32) add)
unfolding register_func set_func find_func str_eq
server-add = refl

abbrev a_message : Message
a_message = record {
  magic = 0;
  version = 0;
  type_of = 0;
  err = 0;
  seq = 0;
  content_lenth = 0;
  serializer = empty_buffer;
}

request-length : length (request_content pair add_name (2, (3, tt))).m_data ≤ max_size - 20
unfolding request_content write_string serialize write_const write_prim write_uint64 write_uint32
    write ◌⨾◌ host_bytes
request-length = omega arith

result-length :
    length (write_ref (prim uint32) (add (2, (3, tt))) empty_buffer).m_data ≤ max_size - 20
unfolding write_ref write_prim write_uint32 write host_bytes
result-length = omega arith

remote_call_example :
    (m : Message) × (answer : Message) × (s' : RpcServer) × (m' : Message) × (b' : Buffer) × (decode
        (record a_message {
          serializer = at_start (request pair add_name (2, (3, tt)) 8).0.serializer.m_data;
        })
      ≡ ok m)
    × (handle_msg m server ≡ ok (some answer, s'))
    × (decode (record a_message { serializer = at_start answer.serializer.m_data }) ≡ ok m')
    × (m'.seq ≡ (request pair add_name (2, (3, tt)) 8).0.seq)
    × (read_response (prim uint32) m'.serializer ≡ ok (some 5, b'))
remote_call_example =
    remote_call pair (prim uint32) add add_name (2, (3, tt)) 8 server a_message a_message server-add
      (omega arith) (omega arith, (omega arith, tt)) (omega arith) request-length result-length

abbrev after : RpcServer
after =
    run (registers pair (prim uint32) add_name add ∷ deletes (98 ∷ []) ∷ [])
      (record { m_funcs = []; seq = 4 })

abbrev found : List ℕ → Option Func
found name =
    if str_eq name (98 ∷ [])
    then none
    else if str_eq name add_name
    then some (call_func pair (prim uint32) add)
    else none

run_refines_example : finds after ≡ found
run_refines_example =
    run_refines (registers pair (prim uint32) add_name add ∷ deletes (98 ∷ []) ∷ []) 4

abbrev unknown : Message
unknown = record a_message { serializer = write_string (98 ∷ []) empty_buffer }

unknown-name :
    read_string unknown.serializer
    ≡ ok (98 ∷ [], record { m_data = unknown.serializer.m_data; m_position = 9 })
unfolding write_string write_uint64 write ◌⨾◌ host_bytes read_string read_uint64 resize read
    check_read copy_out ◌>>=◌ pure ntohll htonl host_value htonll
unknown-name = refl

unknown-missing : find_func (98 ∷ []) server.m_funcs ≡ none
unfolding register_func set_func find_func str_eq
unknown-missing = refl
