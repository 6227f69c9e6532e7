-- ===== src/Rpc/Publish/Examples.antt =====
-- A server with one registration centre, and a leader of three nodes.
use c_rpc.Base.{
  ℕ, zero, suc, ◌≤◌, ◌<◌, ◌≡◌, ◌-◌, ◌==◌, refl, ap, inr, List, [], ◌∷◌, ◌++◌, length, none, true,
  false, arith,
}
use c_rpc.Wire.Buffer.{
  Buffer, ok, empty_buffer, ◌⨾◌, write, write_uint16, write_uint64, read_uint16, read_uint64, read,
  check_read, copy_out,
}
use c_rpc.Wire.Words.{host_bytes, ntohll, htonl, host_value, ntohs}
use c_rpc.Wire.Serializer.{max_size, write_string, read_string, resize}
use c_rpc.Protocol.{Message, decode, type_code, raft_redirect, rpc_service_register_response}
use c_rpc.Protocol.Arrival.{at_start}
use c_rpc.Tables.{IpPort, emplace}
use c_rpc.Registry.{RpcRegister, write_services, handle_service_register, handle_msg}
use c_rpc.Raft.Outcome.{done, fault}
use c_rpc.Raft.Config.{default_entry}
use c_rpc.Raft.Node.{RaftNode, leader}
use c_rpc.Raft.Service.{register_services, wait_applied}
use c_rpc.Pool.{ConnectionPool, get_all_register, map_find}
use c_rpc.Rpc.Publish.{Publisher, got, timed_out, returns, register_func2reg, read_address}
use c_rpc.Rpc.Publish.Centre.{registration, register_message, function_registered}
use c_rpc.Rpc.Publish.Leader.{redirected_lost}
use c_rpc.Rpc.Publish.Deletion.{delete_func2reg, deletion, deletion_ignored}

abbrev here : IpPort
here = record { m_ip = 49 ∷ []; m_port = 80 }

abbrev there : IpPort
there = record { m_ip = 50 ∷ []; m_port = 81 }

abbrev add_name : List ℕ
add_name = 97 ∷ []

abbrev confirmed : Message
confirmed = record {
  magic = 0x66;
  version = 0x01;
  type_of = type_code rpc_service_register_response;
  err = 0;
  seq = 1;
  content_lenth = 0;
  serializer = empty_buffer;
}

-- The answer of a node that knows the leader at `there`.
abbrev redirection : Message
redirection = record confirmed {
  type_of = type_code raft_redirect;
  serializer = record { m_data = 0 ∷ 0 ∷ 0 ∷ 0 ∷ 0 ∷ 0 ∷ 0 ∷ 1 ∷ 50 ∷ 0 ∷ 81 ∷ []; m_position = 0 };
}

abbrev pool : ConnectionPool
pool = record {
  m_funcs = [];
  m_servers = [];
  m_addresses = [];
  m_registers = (100 ∷ [], 0) ∷ [];
  made = 1;
}

abbrev server : Publisher
server = record {
  m_connection_pool = pool;
  address = here;
  seq = 4;
  replies = got confirmed ∷ [];
  meanwhile = λ i. 2;
  connections = [];
  sent = [];
}

first_centre : get_all_register pool ≡ 0 ∷ []
unfolding get_all_register map_find c_rpc.Base.str_eq
first_centre = refl

abbrev centre : RpcRegister
centre = record { m_addresses = []; m_subscribes = []; m_heartbeat_timers = λ i. false; seq = 0 }

abbrev arrived : Message
arrived = record confirmed {
  serializer = at_start (registration add_name here 5).serializer.m_data;
}

content-length : length (write_services ((add_name, here) ∷ []) empty_buffer).m_data ≤ max_size - 20
unfolding write_services write_string write_uint64 write_uint16 write ◌⨾◌ host_bytes
content-length = omega arith

function_registered_example :
    (p' : Publisher) × (register_func2reg 1 add_name server ≡ returns p')
    × (p'.sent ≡ (0, registration add_name here 5) ∷ [])
    × (d : Message) × (answer : Message) × (centre' : RpcRegister) × (decode arrived ≡ ok d)
    × (handle_service_register d centre ≡ ok (answer, centre'))
    × (answer.seq ≡ 5)
    × (centre'.m_addresses ≡ (add_name, here) ∷ [])
unfolding emplace
function_registered_example =
    function_registered 0 0 add_name server [] confirmed [] arrived centre first_centre refl refl
      (omega arith) (omega arith) (omega arith) content-length refl

abbrev redirected_server : Publisher
redirected_server = record server { replies = got redirection ∷ (got confirmed ∷ []) }

reads_there :
    read_address redirection.serializer
    ≡ ok (there, record { m_data = redirection.serializer.m_data; m_position = 11 })
unfolding read_address read_string read_uint64 read_uint16 read check_read copy_out
    c_rpc.Wire.Buffer.◌>>=◌ c_rpc.Wire.Buffer.pure resize ntohll htonl host_value ntohs
reads_there = refl

abbrev a_leader : RaftNode
a_leader = record {
  m_raft_mutex = 0;
  m_state = leader;
  m_id = 1;
  m_leader_id = 1;
  m_current_term = 2;
  m_voted_for = 1;
  m_nodes = 3;
  m_next_indexs = λ i. 0;
  m_match_indexs = λ i. 0;
  election_stoped = true;
  election_interval = 0;
  heartbeat_stoped = false;
  m_replicators = [];
  m_raft_logger = record {
    m_mutex = 0;
    m_entries = default_entry ∷ [];
    m_last_applied = 0;
    m_commit_index = 0;
    m_addresses = [];
  };
}

abbrev empty_arrived : Message
empty_arrived = record confirmed {
  serializer = at_start (register_message empty_buffer 9).serializer.m_data;
}

redirected_lost_example :
    (p' : Publisher) × (register_func2reg 1 add_name redirected_server ≡ returns p')
    × (p'.sent ≡ (0, registration add_name here 5) ∷ (1, register_message empty_buffer 9) ∷ [])
    × (p'.connections ≡ (1, there) ∷ [])
    × (d : Message) × (decode empty_arrived ≡ ok d)
    × (register_services d.serializer 5 a_leader ≡ done (ok none, a_leader))
    × (wait_applied none 5 a_leader ≡ fault)
redirected_lost_example =
    redirected_lost 0 0 add_name redirected_server [] redirection confirmed empty_arrived there
      (record { m_data = redirection.serializer.m_data; m_position = 11 }) [] 5 a_leader
      first_centre refl refl reads_there refl (record { raft = inr refl; logger = inr refl })

-- The server deletes its function, and no answer comes.
abbrev deleting_server : Publisher
deleting_server = record server { replies = timed_out ∷ [] }

abbrev deletion_arrived : Message
deletion_arrived = record confirmed {
  serializer = at_start (deletion add_name deleting_server).serializer.m_data;
}

deletion_ignored_example :
    (p' : Publisher) × (delete_func2reg add_name deleting_server ≡ returns p')
    × (p'.sent ≡ (0, deletion add_name deleting_server) ∷ [])
    × (d : Message) × (decode deletion_arrived ≡ ok d)
    × (handle_msg 3 d centre ≡ ok (none, centre))
deletion_ignored_example =
    deletion_ignored 0 3 add_name deleting_server [] [] deletion_arrived centre first_centre refl
      content-length refl
