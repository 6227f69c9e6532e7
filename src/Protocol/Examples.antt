-- ===== src/Protocol/Examples.antt =====
-- Messages of rpc/rpc_protocol.h at concrete values, sent and received in pieces.
use c_rpc.Base.{take, ◌++◌, ℕ, ◌≡◌, List, [], ◌∷◌, length, drop, refl, arith}
use c_rpc.Wire.Words.{host_bytes, htonll, htonl}
use c_rpc.Wire.Serializer.{write_string}
use c_rpc.Wire.Buffer.{◌⨾◌, write, write_uint64, write_uint8, Buffer, ok, empty_buffer}
use c_rpc.Protocol.{
  write_header, Message, encode, decode, err_code, success, type_code, rpc_request,
}
use c_rpc.Protocol.Stream.{receive_message, Event, chunk, bytes_of}
use c_rpc.Protocol.Framing.{Flows}
use c_rpc.Protocol.Send.{
  Answer, takes, not_now, total_bytes_sent, send, send_message, send_loop, send_ends, sent_received,
}
use c_rpc.Protocol.Takes.{Takes}
use c_rpc.Protocol.Decoding.{decode-encode}
use c_rpc.Protocol.Arrival.{MessageFits, receive-encode, at_start}

abbrev request : Message
request = record {
  magic = 0x66;
  version = 1;
  type_of = type_code rpc_request;
  err = err_code success;
  seq = 258;
  content_lenth = 0;
  serializer = empty_buffer;
}

request-MessageFits : MessageFits request
request-MessageFits = record {
  magic = omega arith;
  version = omega arith;
  type_of = omega arith;
  err = omega arith;
  seq = omega arith;
}

abbrev content : Buffer
content = record { m_data = 10 ∷ 20 ∷ 30 ∷ []; m_position = 0 }

abbrev sent : List ℕ
sent = (encode request content).serializer.m_data

receive-encode_example : Takes receive_message empty_buffer (length sent) (at_start sent) sent
receive-encode_example = receive-encode request content request-MessageFits refl (omega arith)

decode-encode_example :
    (decode (record request { serializer = at_start sent })
      ≡ ok (record request {
        content_lenth = 3;
        serializer = record { m_data = sent; m_position = 20 };
      }))
    × (drop 20 sent ≡ content.m_data)
decode-encode_example =
    decode-encode request (record request { serializer = at_start sent }) content
      request-MessageFits refl (omega arith) refl

-- The kernel takes the 23 bytes in two calls, with a pause between them, and delivers them in two.
abbrev answers : List Answer
answers = takes 10 ∷ not_now ∷ takes 40 ∷ []

abbrev arrives : List Event
arrives = chunk 0x66 (take 4 (drop 1 sent)) ∷ chunk 0 (drop 6 sent) ∷ []

sends_now : (send_message answers (encode request content)).0 ≡ total_bytes_sent 23
unfolding send_message send send_loop encode ◌⨾◌ write_string write write_uint64 write_header
    write_uint8 host_bytes
sends_now = refl

arrives_now : bytes_of arrives ≡ (send_message answers (encode request content)).1 ++ []
unfolding send_message send send_loop encode ◌⨾◌ write_string write write_uint64 write_header
    write_uint8 host_bytes htonll htonl
arrives_now = refl

sent_received_example :
    (es' : List Event) × (receive_message empty_buffer arrives
      ≡ ok (23, at_start (encode request content).serializer.m_data, es'))
    × (bytes_of es' ≡ [])
    × Flows es'
sent_received_example =
    sent_received answers request content 23 arrives [] request-MessageFits refl (omega arith)
      sends_now tt arrives_now

send_ends_example :
    send (takes 1 ∷ not_now ∷ takes 5 ∷ []) (7 ∷ 8 ∷ []) ≡ (total_bytes_sent 2, 7 ∷ 8 ∷ [])
send_ends_example =
    send_ends (takes 1 ∷ not_now ∷ takes 5 ∷ []) (7 ∷ 8 ∷ []) (omega arith, (omega arith, tt))
      (omega arith)
