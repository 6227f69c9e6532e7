-- ===== src/Raft/Service/Examples.antt =====
-- A leader of three nodes, a server that registers one service, and a client that starts.
use c_rpc.Base.{
  ℕ, zero, suc, ◌≤◌, ◌<◌, ◌≡◌, ◌≢◌, refl, sym, inr, List, [], ◌∷◌, drop, length, ◌-◌, some, arith,
  emplace_all, Bool, true, false,
}
use c_rpc.Wire.Buffer.{
  Buffer, ok, empty_buffer, ◌⨾◌, write, write_uint16, write_uint64, write_uint8,
}
use c_rpc.Wire.Words.{host_bytes}
use c_rpc.Wire.Serializer.{max_size, write_string}
use c_rpc.Wire.Reads.{IsValid}
use c_rpc.Protocol.{
  Message, encode, decode, write_header, new_message, type_code, raft_redirect, rpc_server_init,
}
use c_rpc.Protocol.Arrival.{at_start}
use c_rpc.Rpc.Publish.{read_address}
use c_rpc.Tables.{IpPort, Multimap, emplace}
use c_rpc.Registry.{write_services, receive_services}
use c_rpc.Raft.Config.{Entry, default_entry}
use c_rpc.Raft.Outcome.{done}
use c_rpc.Raft.Logger.{RaftLogger, apply_step}
use c_rpc.Raft.Logger.Indexed.{IsIndexed}
use c_rpc.Raft.Logger.Applied.{IsApplied, apply_rounds}
use c_rpc.Raft.Node.{RaftNode, leader, follower, no_node}
use c_rpc.Raft.Service.{
  RaftService, register_services, handle_client_init, handle_server_redirect, handle_msg, answer,
  server_redirect, register_entry, redirects, write_address,
}
use c_rpc.Raft.Service.Registers.{register_services_lem}
use c_rpc.Raft.Service.Found.{registered_applied, registered_found}
use c_rpc.Raft.Service.Redirect.{redirected}

abbrev there : IpPort
there = record { m_ip = 49 ∷ []; m_port = 80 }

abbrev offer : Multimap IpPort
offer = (97 ∷ [], there) ∷ []

abbrev a_logger : RaftLogger
a_logger = record {
  m_mutex = 0;
  m_entries = default_entry ∷ [];
  m_last_applied = 0;
  m_commit_index = 0;
  m_addresses = [];
}

abbrev a_leader : RaftNode
a_leader = record {
  m_raft_mutex = 0;
  m_state = leader;
  m_id = 1;
  m_leader_id = 1;
  m_current_term = 2;
  m_voted_for = 1;
  m_nodes = 3;
  m_next_indexs = λ i. 0;
  m_match_indexs = λ i. 0;
  election_stoped = true;
  election_interval = 0;
  heartbeat_stoped = false;
  m_replicators = [];
  m_raft_logger = a_logger;
}

a_leader-IsIndexed : IsIndexed a_logger
a_leader-IsIndexed = record { not_empty = omega arith; numbered = (refl, tt) }

abbrev content : Buffer
content = write_services offer empty_buffer

content-IsValid : IsValid content
unfolding write_services write_string write_uint64 write_uint16 write ◌⨾◌ host_bytes
content-IsValid = record { in_range = omega arith; addressable = omega arith }

content-at_start : content.m_position ≡ 0
unfolding write_services write_string write_uint64 write_uint16 write ◌⨾◌ host_bytes
content-at_start = refl

unread_content : drop content.m_position content.m_data ≡ content.m_data
unread_content = rw content-at_start refl

-- The log once the service is registered.
abbrev new_log : List Entry
new_log = default_entry ∷ record (register_entry 2 (97 ∷ [], there)) { index = 1 } ∷ []

registers_one :
    (l' : RaftLogger) × (register_services content 5 a_leader
      ≡ done (ok (some 1), record a_leader { m_raft_mutex = 0; m_raft_logger = l' }))
    × (l'.m_entries ≡ new_log)
    × (l'.m_mutex ≡ 0)
    × IsIndexed l'
    × (l'.m_last_applied ≡ 0)
    × (l'.m_commit_index ≡ 0)
    × (l'.m_addresses ≡ [])
registers_one =
    register_services_lem (97 ∷ [], there) [] 5 content a_leader
      ((omega arith, omega arith, omega arith), tt) (record { raft = inr refl; logger = inr refl })
      a_leader-IsIndexed content-IsValid unread_content

-- The logger and the node once the section has run, and the logger before and after the entry is
-- applied.
abbrev after_register : RaftNode
after_register = record a_leader { m_raft_logger = record a_logger { m_entries = new_log } }

abbrev committed : RaftLogger
committed = record a_logger { m_entries = new_log; m_commit_index = 1 }

abbrev in_table : RaftLogger
in_table = record committed { m_last_applied = 1; m_addresses = offer }

registers_now : register_services content 5 a_leader ≡ done (ok (some 1), after_register)
registers_now =
    let (l', run, entries, mutex, indexed, last, commit, table) = registers_one in
    ground (arith, run, entries, mutex, last, commit, table)

committed-IsApplied : IsApplied committed
unfolding c_rpc.Base.str_eq
committed-IsApplied = record { in_range = omega arith; table = refl }

applies : apply_rounds 1 6 committed ≡ done (tt, in_table)
unfolding apply_rounds apply_step c_rpc.Base.str_eq emplace
applies = refl

registered_applied_example :
    (l' : RaftLogger) × (apply_rounds 1 6 committed ≡ done (tt, l'))
    × (l'.m_addresses ≡ emplace_all emplace offer [])
unfolding c_rpc.Base.str_eq
registered_applied_example =
    registered_applied (97 ∷ [], there) [] 5 1 6 1 content a_leader after_register committed
      ((omega arith, omega arith, omega arith), tt) (record { raft = inr refl; logger = inr refl })
      a_leader-IsIndexed content-IsValid unread_content registers_now refl refl committed-IsApplied
      (inr refl) refl

-- The node once its table has the service, and a client that starts.
abbrev service : RaftService
service = record {
  raft = record after_register { m_raft_logger = in_table };
  m_nodes = there ∷ there ∷ [];
  m_heartbeat_timers = λ i. false;
  seq = 3;
}

abbrev request : Message
request = record {
  magic = 0x66;
  version = 0x01;
  type_of = type_code rpc_server_init;
  err = 0;
  seq = 7;
  content_lenth = 0;
  serializer = empty_buffer;
}

abbrev answered : Buffer
answered = record {
  m_data = drop 20 (handle_client_init request service).0.serializer.m_data;
  m_position = 0;
}

content-length : length content.m_data ≤ max_size - 20
unfolding write_services write_string write_uint64 write_uint16 write ◌⨾◌ host_bytes
content-length = omega arith

answered-IsValid : IsValid answered
unfolding handle_client_init answer new_message encode write_header write_services write_string
    write_uint64 write_uint16 write_uint8 write ◌⨾◌ host_bytes
answered-IsValid = record { in_range = omega arith; addressable = omega arith }

registered_found_example :
    (b' : Buffer) × (receive_services [] answered ≡ ok (emplace_all emplace offer [], b'))
unfolding c_rpc.Base.str_eq
registered_found_example =
    registered_found (97 ∷ [], there) [] 5 1 6 1 content a_leader after_register committed service
      request answered ((omega arith, omega arith, omega arith), tt)
      (record { raft = inr refl; logger = inr refl }) a_leader-IsIndexed content-IsValid
      unread_content registers_now refl refl committed-IsApplied (inr refl) refl applies
      ((omega arith, omega arith, omega arith), tt) (omega arith) content-length answered-IsValid
      refl

-- Node 0 of two follows node 1; node 1's election has no outcome yet.
abbrev a_follower : RaftService
a_follower = record service { raft = record a_leader { m_state = follower; m_id = 0 } }

abbrev leaderless : RaftService
leaderless = record service { raft = record a_leader { m_state = follower; m_leader_id = no_node } }

abbrev received : Message
received = record request {
  serializer =
      at_start
        (answer raft_redirect request (write_address there empty_buffer)
          a_follower).0.serializer.m_data;
}

address-length : length (write_address there empty_buffer).m_data ≤ max_size - 20
unfolding write_string write_uint64 write_uint16 write ◌⨾◌ host_bytes
address-length = omega arith

redirected_example :
    (handle_msg request a_follower.raft ≡ server_redirect)
    × (handle_server_redirect request a_follower
        ≡ done (answer raft_redirect request (write_address there empty_buffer) a_follower))
    × (d : Message) × (decode received ≡ ok d)
    × (d.seq ≡ 7)
    × (d.type_of ≡ 13)
    × (b' : Buffer) × (read_address d.serializer ≡ ok (there, b'))
unfolding redirects
redirected_example =
    redirected request received a_follower there (omega arith) refl refl (omega arith) (omega arith)
      (omega arith) address-length refl
