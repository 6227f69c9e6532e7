-- ===== src/Raft/Service/Redirect.antt =====
-- What a node that is not the leader answers to a server: handleMsg and handleServerRedirect of
-- raft/raft_node.cpp.
use c_rpc.Base.{
  ℕ, zero, suc, ◌-◌, ◌^◌, ◌≤◌, ◌<◌, ◌≡◌, ◌≢◌, refl, sym, ap, ◌∙◌, List, [], ◌∷◌, append-nil, length,
  get_elem?, some, none, true, arith,
}
use c_rpc.Wire.Buffer.{Buffer, ok, empty_buffer, read_uint16}
use c_rpc.Wire.Serializer.{max_size, read_string}
use c_rpc.Wire.Reads.{RoundTrips, advance}
use c_rpc.Wire.RoundTrip.{RoundTrips-then, RoundTrips-map}
use c_rpc.Wire.Prims.{uint16-RoundTrips}
use c_rpc.Wire.Containers.{string-RoundTrips}
use c_rpc.Protocol.{Message, encode, decode, type_code, raft_redirect, new_message, err_code}
use c_rpc.Protocol.Arrival.{at_start}
use c_rpc.Protocol.Decoding.{decode-arrived}
use c_rpc.Tables.{IpPort}
use c_rpc.Rpc.Publish.{read_address}
use c_rpc.Raft.Outcome.{done, fault}
use c_rpc.Raft.Node.{no_node}
use c_rpc.Raft.Service.{
  RaftService, handle_msg, handle_server_redirect, answer, server_redirect, redirects,
  write_address,
}

address-RoundTrips :
    (a : IpPort)
    → length a.m_ip ≤ max_size
    → a.m_port < 2 ^ 16
    → RoundTrips (write_address a) read_address a
unfolding read_address
address-RoundTrips a i p =
    RoundTrips-then read_string _ (string-RoundTrips a.m_ip i)
      (RoundTrips-map read_uint16 _ (uint16-RoundTrips a.m_port p))

get_elem?-out : (xs : List IpPort) (i : ℕ) → length xs ≤ i → get_elem? xs i ≡ none
get_elem?-out [] i h = refl
get_elem?-out (x ∷ xs) zero h = elim h [ ]
get_elem?-out (x ∷ xs) (suc i) h = get_elem?-out xs i (omega arith)

-- A node that knows no leader reads outside of the list of nodes when it sends a server on: the list
-- is no longer than a vector can be.
pub redirect_unknown :
    (m : Message) (s : RaftService)
    → s.raft.m_leader_id ≡ no_node
    → length s.m_nodes < 2 ^ 63
    → handle_server_redirect m s ≡ fault
unfolding handle_server_redirect
redirect_unknown m s e lt =
    rw (get_elem?-out s.m_nodes s.raft.m_leader_id (omega (arith, e, lt)), handle_server_redirect)

-- A node that knows another as the leader sends a server on to it, whichever of the three messages of
-- a server it got: the answer, as it arrives, decodes with the number of the message and the type of a
-- redirection, and what is read from it is the address of the leader. The number and the address fit
-- their types and a message.
pub redirected :
    (m r : Message) (s : RaftService) (a : IpPort)
    → s.raft.m_id ≢ s.raft.m_leader_id
    → redirects m.type_of ≡ true
    → get_elem? s.m_nodes s.raft.m_leader_id ≡ some a
    → m.seq < 2 ^ 64
    → length a.m_ip ≤ max_size
    → a.m_port < 2 ^ 16
    → length (write_address a empty_buffer).m_data ≤ max_size - 20
    → r.serializer
      ≡ at_start (answer raft_redirect m (write_address a empty_buffer) s).0.serializer.m_data
    → (handle_msg m s.raft ≡ server_redirect)
      × (handle_server_redirect m s
          ≡ done (answer raft_redirect m (write_address a empty_buffer) s))
      × (d : Message) × (decode r ≡ ok d)
      × (d.seq ≡ m.seq)
      × (d.type_of ≡ type_code raft_redirect)
      × (b' : Buffer) × (read_address d.serializer ≡ ok (a, b'))
unfolding handle_msg handle_server_redirect answer new_message
redirected m r s a other kind leader fits ip port len e =
    let (d, p, q, t, v, content) =
      decode-arrived sent r (write_address a empty_buffer)
        (record {
          magic = omega arith;
          version = omega arith;
          type_of = omega arith;
          err = omega arith;
          seq = fits;
        })
        refl len e in
    (
      ground (arith, kind),
      rw (leader, handle_server_redirect) refl,
      d,
      p,
      q,
      t,
      advance (length trip.bytes) d.serializer,
      trip.reads d.serializer [] v
          (content ∙ ap (λ b. b.m_data) (trip.writes empty_buffer) ∙ sym (append-nil trip.bytes)),
    )
  where
    sent : Message
    sent = (record {
      magic = 0x66;
      version = 0x01;
      type_of = type_code raft_redirect;
      err = err_code c_rpc.Protocol.success;
      seq = m.seq;
      content_lenth = 0;
      serializer = empty_buffer;
    })

    trip : RoundTrips (write_address a) read_address a
    trip = address-RoundTrips a ip port
