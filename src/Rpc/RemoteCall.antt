-- ===== src/Rpc/RemoteCall.antt =====
-- A call from rpc/rpc_client.h to rpc/rpc_server.cpp and back.
use c_rpc.Base.{
  ℕ, zero, suc, ◌+◌, ◌-◌, ◌%◌, ◌^◌, ◌≤◌, ◌<◌, ◌≡◌, refl, sym, ap, ◌∙◌, List, [], ◌++◌, append-nil,
  length, Option, some, true, arith,
}
use c_rpc.Wire.Buffer.{
  Buffer, ok, throw, out_of_range, empty_buffer, ◌>>=◌, is_read_end, read_int8, read_uint8,
  read_int16, read_uint16, read_int32, read_uint32, read_int64, read_uint64, read_float,
  read_double, read, check_read,
}
use c_rpc.Wire.Serializer.{
  Prim, bool, float, double, int8, uint8, int16, uint16, int32, uint32, int64, uint64, read_prim,
  Ty, Val, Vals, prim, string, read_ref, write_ref, read_string, write_string, serialize,
  deserialize, max_size,
}
use c_rpc.Wire.Reads.{
  IsValid, RoundTrips, Writes-then, unread, advance, bind-ok, unread-advance, advance-IsValid,
  length-unread,
}
use c_rpc.Wire.Ends.{at_end, not_at_end, not_empty}
use c_rpc.Wire.Prims.{InRange, prim-RoundTrips}
use c_rpc.Wire.Containers.{AllCarried, string-RoundTrips, tuple-RoundTrips}
use c_rpc.Protocol.{
  Message, encode, decode, new_message, rpc_request, rpc_response, type_code, err_code, success,
}
use c_rpc.Protocol.Arrival.{MessageFits, at_start}
use c_rpc.Protocol.Decoding.{decode-arrived}
use c_rpc.Rpc.Server.{
  RpcServer, find_func, call_func, call, respond, handle_client_request, handle_msg,
}
use c_rpc.Rpc.Client.{request_content, request, read_results, read_response}

-- The values that a write of a variable carries over.
abbrev pub Sent : (t : Ty) → Val t → Type 0
Sent (prim p) v = InRange p v
Sent string v = length v ≤ max_size

ref-RoundTrips : (t : Ty) (v : Val t) → Sent t v → RoundTrips (write_ref t v) (read_ref t) v
unfolding write_ref read_ref
ref-RoundTrips (prim p) v h = prim-RoundTrips p v h
ref-RoundTrips string v h = string-RoundTrips v h

called :
    (ts : List Ty) (r : Ty) (func : Vals ts → Val r) (f_name : List ℕ) (args : Vals ts)
    (params rest : Buffer) (s : RpcServer)
    → find_func f_name s.m_funcs ≡ some (call_func ts r func)
    → deserialize ts params ≡ ok (args, rest)
    → call f_name params empty_buffer s ≡ ok (write_ref r (func args) empty_buffer)
unfolding call call_func
called ts r func f_name args params rest s found e = ground (arith, found, e)

-- The service of a request whose content is what the client wrote.
served :
    (ts : List Ty) (r : Ty) (func : Vals ts → Val r) (f_name : List ℕ) (args : Vals ts)
    (m : Message) (s : RpcServer)
    → find_func f_name s.m_funcs ≡ some (call_func ts r func)
    → length f_name ≤ max_size
    → AllCarried ts args
    → IsValid m.serializer
    → unread m.serializer ≡ (request_content ts f_name args).m_data
    → handle_client_request m s ≡ ok (respond m (write_ref r (func args) empty_buffer) s)
unfolding request_content handle_client_request
served ts r func f_name args m s found fits carried h e =
    rw (name, called ts r func f_name args params _ s found arguments, handle_client_request)
  where
    p : RoundTrips (write_string f_name) read_string f_name
    p = string-RoundTrips f_name fits

    q : RoundTrips (serialize ts args) (deserialize ts) args
    q = tuple-RoundTrips ts args carried

    bytes : unread m.serializer ≡ p.bytes ++ q.bytes
    bytes = e ∙ ap (λ b. b.m_data) (Writes-then p.writes q.writes empty_buffer)

    params : Buffer
    params = advance (length p.bytes) m.serializer

    name : read_string m.serializer ≡ ok (f_name, params)
    name = p.reads m.serializer q.bytes h bytes

    arguments : deserialize ts params ≡ ok (args, advance (length q.bytes) params)
    arguments =
        q.reads params [] (advance-IsValid m.serializer p.bytes q.bytes h bytes)
          (unread-advance m.serializer p.bytes q.bytes bytes ∙ sym (append-nil q.bytes))

ref-throws : (t : Ty) → read_ref t empty_buffer ≡ throw out_of_range
unfolding read_ref read_prim read_string read_int8 read_uint8 read_int16 read_uint16 read_int32
    read_uint32 read_int64 read_uint64 read_float read_double read check_read ◌>>=◌
ref-throws (prim bool) = refl
ref-throws (prim float) = refl
ref-throws (prim double) = refl
ref-throws (prim int8) = refl
ref-throws (prim uint8) = refl
ref-throws (prim int16) = refl
ref-throws (prim uint16) = refl
ref-throws (prim int32) = refl
ref-throws (prim uint32) = refl
ref-throws (prim int64) = refl
ref-throws (prim uint64) = refl
ref-throws string = refl

ended :
    (r : Ty) (rounds : ℕ) (v : Option (Val r)) (b : Buffer)
    → 0 < rounds
    → is_read_end b ≡ true
    → read_results r rounds v b ≡ ok (v, b)
unfolding read_results
ended r zero v b lt e = elim lt [ ]
ended r (suc rounds) v b lt e = rw e refl

-- The response whose content is one result.
responded :
    (r : Ty) (v : Val r) (b : Buffer)
    → Sent r v
    → IsValid b
    → unread b ≡ (write_ref r v empty_buffer).m_data
    → (b' : Buffer) × (read_response r b ≡ ok (some v, b'))
unfolding read_response read_results
responded r v b sent h e = (
  after,
  rw (not_at_end b p.bytes [] h bytes some_bytes)
      (bind-ok (read_ref r) _ (p.reads b [] h bytes) ∙ last),
)
  where
    p : RoundTrips (write_ref r v) (read_ref r) v
    p = ref-RoundTrips r v sent

    after : Buffer
    after = advance (length p.bytes) b

    bytes : unread b ≡ p.bytes ++ []
    bytes = e ∙ ap (λ c. c.m_data) (p.writes empty_buffer) ∙ sym (append-nil p.bytes)

    some_bytes : 0 < length p.bytes
    some_bytes = not_empty (read_ref r) v p.bytes (ref-throws r) p.reads

    last : read_results r (length b.m_data) (some v) after ≡ ok (some v, after)
    last =
        ended r (length b.m_data) (some v) after
          (omega (arith, some_bytes, length-unread b p.bytes [] h bytes))
          (at_end after (advance-IsValid b p.bytes [] h bytes) (unread-advance b p.bytes [] bytes))

handled :
    (m answer : Message) (s s' : RpcServer)
    → m.type_of ≡ type_code rpc_request
    → handle_client_request m s ≡ ok (answer, s')
    → handle_msg m s ≡ ok (some answer, s')
unfolding handle_msg
handled m answer s s' t e = ground (arith, t, e)

-- A call: the server has the function under that name, the name is no longer than a string can be,
-- the arguments are numbers in range, the result fits its type, and both contents fit a message. Then
-- the request decodes, the server answers, the answer decodes with the number of the request, and
-- what the client reads from it is the value of the function at the arguments.
pub remote_call :
    (ts : List Ty) (r : Ty) (func : Vals ts → Val r) (f_name : List ℕ) (args : Vals ts) (SEQ : ℕ)
    (s : RpcServer) (q q' : Message)
    → find_func f_name s.m_funcs ≡ some (call_func ts r func)
    → length f_name ≤ max_size
    → AllCarried ts args
    → Sent r (func args)
    → length (request_content ts f_name args).m_data ≤ max_size - 20
    → length (write_ref r (func args) empty_buffer).m_data ≤ max_size - 20
    → (m : Message) × (answer : Message) × (s' : RpcServer) × (m' : Message) × (b' : Buffer)
      × (decode
            (record q { serializer = at_start (request ts f_name args SEQ).0.serializer.m_data })
          ≡ ok m)
      × (handle_msg m s ≡ ok (some answer, s'))
      × (decode (record q' { serializer = at_start answer.serializer.m_data }) ≡ ok m')
      × (m'.seq ≡ (request ts f_name args SEQ).0.seq)
      × (read_response r m'.serializer ≡ ok (some (func args), b'))
unfolding request new_message respond encode
remote_call ts r func f_name args SEQ s q q' found fits carried sent k k' =
    let (m, d, n, t, v, u) =
      decode-arrived message
        (record q { serializer = at_start (encode message content).serializer.m_data }) content fit
        refl k refl in
    let (m', d', n', t', v', u') =
      decode-arrived (result m)
        (record q' { serializer = at_start (encode (result m) returns).serializer.m_data }) returns
        (result_fit m n) refl k' refl in
    let (b', read) = responded r (func args) m'.serializer sent v' u' in
    (
      m,
      (respond m returns s).0,
      (respond m returns s).1,
      m',
      b',
      d,
      handled m _ s _ t (served ts r func f_name args m s found fits carried v u),
      d',
      n' ∙ n,
      read,
    )
  where
    message : Message
    message = record {
      magic = 0x66;
      version = 0x01;
      type_of = type_code rpc_request;
      err = err_code success;
      seq = (SEQ + 1) % 2 ^ 64;
      content_lenth = 0;
      serializer = empty_buffer;
    }

    fit : MessageFits message
    fit = record {
      magic = omega arith;
      version = omega arith;
      type_of = omega arith;
      err = omega arith;
      seq = omega arith;
    }

    content : Buffer
    content = request_content ts f_name args

    returns : Buffer
    returns = write_ref r (func args) empty_buffer

    result : Message → Message
    result m = record message { type_of = type_code rpc_response; seq = m.seq }

    result_fit : (m : Message) → m.seq ≡ message.seq → MessageFits (result m)
    result_fit m n = record {
      magic = omega arith;
      version = omega arith;
      type_of = omega arith;
      err = omega arith;
      seq = omega (arith, n);
    }
