-- ===== src/Raft/Examples.antt =====
-- A node of raft/raft_node.cpp, and its log, at concrete values.
use c_rpc.Base.{◌≡◌, inr, str_eq, [], ◌∷◌, true, false, refl, arith}
use c_rpc.Raft.Config.{
  RaftVoteParams, RaftVoteRets, Entry, AppendEntriesParams, default_entry, op_no_op, op_register,
  op_heartbeat,
}
use c_rpc.Raft.Outcome.{done, blocked}
use c_rpc.Raft.Logger.{RaftLogger, is_newer}
use c_rpc.Raft.Node.{RaftNode, follower, no_node, raft_vote, append_entries, follow, lock}
use c_rpc.Raft.Logger.Indexed.{IsIndexed}
use c_rpc.Raft.Node.Append.{
  Available, followed, append_entries-match, append_entries-mismatch, append_entries-blocks,
}
use c_rpc.Raft.Steps.{here, next, votes, Steps-Votes, one_vote}
use c_rpc.Raft.Votes.{Votes}

abbrev first : Entry
first = record default_entry { index = 1; term = 1; op = op_no_op }

abbrev second : Entry
second = record default_entry {
  index = 2;
  term = 2;
  op = op_register;
  f_name = 97 ∷ [];
  f_port = 80;
}

abbrev a_logger : RaftLogger
a_logger = record {
  m_mutex = 0;
  m_entries = default_entry ∷ first ∷ [];
  m_last_applied = 0;
  m_commit_index = 1;
  m_addresses = [];
}

abbrev a_node : RaftNode
a_node = record {
  m_raft_mutex = 0;
  m_state = follower;
  m_id = 0;
  m_leader_id = no_node;
  m_current_term = 1;
  m_voted_for = no_node;
  m_nodes = 3;
  m_next_indexs = λ i. 0;
  m_match_indexs = λ i. 0;
  election_stoped = false;
  election_interval = 0;
  heartbeat_stoped = true;
  m_replicators = [];
  m_raft_logger = a_logger;
}

-- Nodes 2 and 1 ask for the vote in term 2.
abbrev from_two : RaftVoteParams
from_two = record { term = 2; candidate_id = 2; last_log_index = 1; last_log_term = 1 }

abbrev from_one : RaftVoteParams
from_one = record { term = 2; candidate_id = 1; last_log_index = 1; last_log_term = 1 }

abbrev granted : RaftVoteRets
granted = record { term = 2; vote_granted = true }

abbrev voted : RaftNode
voted = record a_node {
  m_current_term = 2;
  m_leader_id = 2;
  m_voted_for = 2;
  election_interval = 700;
}

votes_for_two : raft_vote from_two 700 5 a_node ≡ done (granted, voted)
unfolding raft_vote is_newer
votes_for_two = refl

refuses_one :
    raft_vote from_one 600 6 voted ≡ done (record { term = 2; vote_granted = false }, voted)
unfolding raft_vote
refuses_one = refl

-- Node 2 asks again, with a longer log.
abbrev two_again : RaftVoteParams
two_again = record { term = 2; candidate_id = 2; last_log_index = 4; last_log_term = 1 }

again_for_two : raft_vote two_again 700 7 voted ≡ done (granted, voted)
unfolding raft_vote is_newer
again_for_two = refl

abbrev refused : RaftVoteRets
refused = record { term = 2; vote_granted = false }

one_vote_example : from_two.candidate_id ≡ two_again.candidate_id
one_vote_example =
    one_vote 5 700 from_two granted a_node voted 7 700 two_again granted voted voted votes_for_two
      (next here (votes 6 600 from_one refused refuses_one)) again_for_two refl refl refl
      (omega arith) (omega arith)

Steps-Votes_example : Votes a_node voted
Steps-Votes_example = Steps-Votes a_node voted (
    next (next here (votes 5 700 from_two granted votes_for_two))
      (votes 6 600 from_one refused refuses_one))

a_node-Available : Available 5 a_node
a_node-Available = record { raft = inr refl; logger = inr refl }

a_logger-IsIndexed : IsIndexed a_logger
a_logger-IsIndexed = record { not_empty = omega arith; numbered = (refl, (refl, tt)) }

-- The leader, node 1, of term 2 sends its entry at the place 2, or one behind another log.
abbrev replicate : AppendEntriesParams
replicate = record {
  term = 2;
  leader_id = 1;
  prev_log_index = 1;
  prev_log_term = 1;
  entry = second;
  leader_commit = 1;
}

abbrev other_log : AppendEntriesParams
other_log = record replicate { prev_log_term = 2 }

abbrev heartbeat : AppendEntriesParams
heartbeat = record replicate { entry = record default_entry { op = op_heartbeat } }

replicate-not_heartbeat : str_eq second.op op_heartbeat ≡ false
unfolding str_eq
replicate-not_heartbeat = refl

append_entries-match_example :
    append_entries replicate 300 5 a_node
    ≡ done (
      record { success = true; term = 2 },
      record (followed replicate 300 a_node) {
        m_raft_logger = record a_logger { m_entries = default_entry ∷ first ∷ second ∷ [] };
      },
    )
unfolding follow
append_entries-match_example =
    append_entries-match 5 300 replicate a_node a_node-Available a_logger-IsIndexed (omega arith)
      replicate-not_heartbeat (omega arith) refl

abbrev stuck : RaftNode
stuck = record (followed other_log 300 a_node) {
  m_raft_mutex = 5;
  m_raft_logger = record a_logger { m_mutex = 5 };
}

refuses_other :
    append_entries other_log 300 5 a_node ≡ done (record { success = false; term = 2 }, stuck)
unfolding follow
refuses_other =
    append_entries-mismatch 5 300 other_log a_node a_node-Available a_logger-IsIndexed (omega arith)
      replicate-not_heartbeat (omega arith) (omega arith)

append_entries-blocks_example : lock 6 stuck ≡ blocked
append_entries-blocks_example =
    append_entries-blocks 5 6 300 other_log a_node stuck (record { success = false; term = 2 })
      a_node-Available a_logger-IsIndexed (omega arith) replicate-not_heartbeat (omega arith)
      (omega arith) refuses_other (omega arith) (omega arith)
