-- ===== src/Wire/Examples.antt =====
-- The round trips of util/serializer.h at concrete values.
use c_rpc.Base.{ℕ, List, [], ◌∷◌, arith}
use c_rpc.Raft.Config.{RaftVoteParams, Entry, AppendEntriesParams, op_register}
use c_rpc.Wire.Serializer.{uint32, read_prim, write_prim}
use c_rpc.Wire.Reads.{RoundTrips}
use c_rpc.Wire.Prims.{prim-RoundTrips}

prim-RoundTrips_example : RoundTrips (write_prim uint32 305419896) (read_prim uint32) 305419896
prim-RoundTrips_example = prim-RoundTrips uint32 305419896 (omega arith)

-- "add"
abbrev add_name : List ℕ
add_name = 97 ∷ 100 ∷ 100 ∷ []

abbrev ports : List (ℕ × ℕ)
ports = (1, 5829) ∷ (2, 6829) ∷ []

abbrev a_vote : RaftVoteParams
a_vote = record { term = 4; candidate_id = 2; last_log_index = 9; last_log_term = 3 }

abbrev an_entry : Entry
an_entry = record {
  index = 3;
  term = 2;
  op = op_register;
  f_name = add_name;
  f_ip = 49 ∷ 46 ∷ 49 ∷ [];
  f_port = 8080;
}

abbrev an_append : AppendEntriesParams
an_append = record {
  term = 2;
  leader_id = 1;
  prev_log_index = 2;
  prev_log_term = 1;
  entry = an_entry;
  leader_commit = 1;
}
