-- ===== src/Session/Examples.antt =====
-- Two requests on one connection, whose responses come in the other order.
use c_rpc.Base.{ℕ, ◌≡◌, refl, [], ◌∷◌, true, arith}
use c_rpc.Wire.Buffer.{empty_buffer}
use c_rpc.Protocol.{Message, type_code, rpc_response}
use c_rpc.Channel.{returned}
use c_rpc.Session.{RpcSession, new_rpc_session, send, handle_send, handle_receive, await}
use c_rpc.Session.Awaited.{Others, here, next, sends, goes_out, receives, awaits}
use c_rpc.Session.Responses.{response_delivered, new_rpc_session-IsNumbered}

abbrev message : ℕ → Message
message seq = record {
  magic = 0x66;
  version = 0x01;
  type_of = type_code rpc_response;
  err = 0;
  seq = seq;
  content_lenth = 0;
  serializer = empty_buffer;
}

abbrev after : RpcSession
after =
    (handle_receive 3 (message 6)
      (await 1 0
        (handle_send 2 (send 4 (message 6) (send 1 (message 5) new_rpc_session).1).1).1).1).1

-- What happens between the first request and its response.
between : Others 5 0 (send 1 (message 5) new_rpc_session).1 after
between =
    next (next (next (next here (sends 4 (message 6) (omega arith))) (goes_out 2)) (awaits 1 0))
      (receives 3 (message 6) (omega arith))

response_delivered_example :
    ((handle_receive 3 (message 5) after).0 ≡ returned true)
    × ((await 1 0 (handle_receive 3 (message 5) after).1).0 ≡ returned (message 5 ∷ []))
unfolding new_rpc_session
response_delivered_example =
    response_delivered 1 3 1 (message 5) (message 5) new_rpc_session after
      new_rpc_session-IsNumbered between refl refl
