-- ===== src/Rpc/Publish/Deletion.antt =====
-- A server takes a function back: deleteFunc2Reg of rpc/rpc_server.cpp, and what becomes of its message in
-- handleMsg of rpc/rpc_register.cpp.
use c_rpc.Base.{
  ℕ, ◌-◌, ◌^◌, ◌≤◌, ◌≡◌, refl, List, [], ◌∷◌, ◌++◌, ◌+◌, ◌%◌, length, none, if◌then◌else◌, arith,
}
use c_rpc.Wire.Buffer.{ok, empty_buffer, is_read_end}
use c_rpc.Wire.Serializer.{max_size}
use c_rpc.Protocol.{
  Message, encode, decode, new_message, type_code, err_code, success, rpc_service_delete,
}
use c_rpc.Protocol.Arrival.{at_start}
use c_rpc.Protocol.Decoding.{decode-arrived}
use c_rpc.Registry.{RpcRegister, write_services, handle_msg}
use c_rpc.Pool.{get_all_register}
use c_rpc.Rpc.Publish.{
  Publisher, Ending, Reply, timed_out, got, returns, loops, ◌▷◌, send_and_wait, first_register,
}
use c_rpc.Rpc.Publish.Centre.{answered_by, first_found}

-- The loop over what an answer holds has no body.
unfoldable pub after_deletion : Reply × Publisher → Ending Publisher
after_deletion (timed_out, p) = returns p
after_deletion (got m, p) = if is_read_end m.serializer then returns p else loops

unfoldable pub delete_func2reg : List ℕ → Publisher → Ending Publisher
unfolding send_and_wait first_register after_deletion
delete_func2reg name p = first_register p.m_connection_pool ▷ λ session.
    send_and_wait session rpc_service_delete (write_services ((name, p.address) ∷ []) empty_buffer)
      p
    ▷ after_deletion

abbrev pub deletion : List ℕ → Publisher → Message
deletion name p =
    encode
      (record {
        magic = 0x66;
        version = 0x01;
        type_of = type_code rpc_service_delete;
        err = err_code success;
        seq = (p.seq + 1) % 2 ^ 64;
        content_lenth = 0;
        serializer = empty_buffer;
      })
      (write_services ((name, p.address) ∷ []) empty_buffer)

deletes :
    (session : ℕ) (name : List ℕ) (p : Publisher) {others : List ℕ} {rest : List Reply}
    → get_all_register p.m_connection_pool ≡ session ∷ others
    → p.replies ≡ timed_out ∷ rest
    → delete_func2reg name p ≡ returns (answered_by session (deletion name p) rest p)
unfolding delete_func2reg send_and_wait new_message after_deletion
deletes session name p first q = rw (first_found p.m_connection_pool first, q) refl

ignored :
    (fd : ℕ) (d : Message) (centre : RpcRegister)
    → d.type_of ≡ type_code rpc_service_delete
    → handle_msg fd d centre ≡ ok (none, centre)
unfolding handle_msg
ignored fd d centre e = rw e refl

-- A server deletes a function at the first of its registration centres: one message goes out. As it arrives
-- it decodes, and the centre neither answers it nor changes its table; the call returns, without an
-- answer, when its time is over. The content fits a message.
pub deletion_ignored :
    (session fd : ℕ) (name : List ℕ) (p : Publisher) (others : List ℕ) (rest : List Reply)
    (r : Message) (centre : RpcRegister)
    → get_all_register p.m_connection_pool ≡ session ∷ others
    → p.replies ≡ timed_out ∷ rest
    → length (write_services ((name, p.address) ∷ []) empty_buffer).m_data ≤ max_size - 20
    → r.serializer ≡ at_start (deletion name p).serializer.m_data
    → (p' : Publisher) × (delete_func2reg name p ≡ returns p')
      × (p'.sent ≡ p.sent ++ (session, deletion name p) ∷ [])
      × (d : Message) × (decode r ≡ ok d)
      × (handle_msg fd d centre ≡ ok (none, centre))
deletion_ignored session fd name p others rest r centre first q len e =
    let (d, decoded, number, t, v, content) =
      decode-arrived sent r (write_services ((name, p.address) ∷ []) empty_buffer)
        (record {
          magic = omega arith;
          version = omega arith;
          type_of = omega arith;
          err = omega arith;
          seq = omega arith;
        })
        refl len e in
    (
      answered_by session (deletion name p) rest p,
      deletes session name p first q,
      refl,
      d,
      decoded,
      ignored fd d centre t,
    )
  where
    sent : Message
    sent = record {
      magic = 0x66;
      version = 0x01;
      type_of = type_code rpc_service_delete;
      err = err_code success;
      seq = (p.seq + 1) % 2 ^ 64;
      content_lenth = 0;
      serializer = empty_buffer;
    }
