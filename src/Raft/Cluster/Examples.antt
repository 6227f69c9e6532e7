-- ===== src/Raft/Cluster/Examples.antt =====
-- An election in a cluster of three nodes, raft/raft_node.cpp: node 0 asks node 1 and leads in term 1.
use c_rpc.Base.{ℕ, ◌≤◌, inr, ◌≡◌, refl, true, false, [], ◌∷◌, arith}
use c_rpc.Raft.Config.{RaftVoteParams, RaftVoteRets, Entry, default_entry, op_no_op}
use c_rpc.Raft.Outcome.{done}
use c_rpc.Raft.Logger.{is_newer, get_last_index, get_last_term, append_local, locked}
use c_rpc.Raft.Node.{
  RaftNode, follower, candidate, leader, no_node, on_logger, raft_vote, election_timeout,
  start_election,
}
use c_rpc.Raft.Leader.{
  on_vote_reply, become_leader, quorum, remote_ids, reset_indexs, start_replicate_log, update,
}
use c_rpc.Raft.Cluster.{
  Cluster, asked, replied, closed, place, begin_election, set_answer, Moves, here, next, times_out,
  elects, votes, counts, IsInitial,
}
use c_rpc.Raft.Cluster.Safety.{one_leader}
use c_rpc.Raft.Logger.Indexed.{IsIndexed}
use c_rpc.Raft.Win.{won, on_vote_reply-leads}

abbrev node : ℕ → RaftNode
node v = record {
  m_raft_mutex = 0;
  m_state = follower;
  m_id = v;
  m_leader_id = no_node;
  m_current_term = 0;
  m_voted_for = no_node;
  m_nodes = 3;
  m_next_indexs = λ i. 0;
  m_match_indexs = λ i. 0;
  election_stoped = false;
  election_interval = 0;
  heartbeat_stoped = true;
  m_replicators = [];
  m_raft_logger = record {
    m_mutex = 0;
    m_entries = default_entry ∷ [];
    m_last_applied = 0;
    m_commit_index = 0;
    m_addresses = [];
  };
}

abbrev start : Cluster
start = record {
  nodes = node;
  started = 0;
  elections = λ e. record {
    request = record { term = 0; candidate_id = 0; last_log_index = 0; last_log_term = 0 };
    granted_votes = 0;
    answers = λ v. asked;
  };
}

abbrev timed_out : RaftNode
timed_out = record (node 0) { m_state = candidate; m_current_term = 1; m_voted_for = 0 }

times_out_run : election_timeout 5 (node 0) ≡ done (true, timed_out)
unfolding election_timeout
times_out_run = refl

abbrev asking : RaftNode
asking = record timed_out { election_interval = 300 }

abbrev request : RaftVoteParams
request = record { term = 1; candidate_id = 0; last_log_index = 0; last_log_term = 0 }

elects_run : start_election 300 5 timed_out ≡ done (request, asking)
unfolding start_election get_last_index get_last_term locked
elects_run = refl

abbrev granted : RaftVoteRets
granted = record { term = 1; vote_granted = true }

abbrev voter : RaftNode
voter = record (node 1) {
  m_current_term = 1;
  m_leader_id = 0;
  m_voted_for = 0;
  election_interval = 400;
}

votes_run : raft_vote request 400 6 (node 1) ≡ done (granted, voter)
unfolding raft_vote is_newer
votes_run = refl

abbrev no_op : Entry
no_op = record default_entry { index = 1; term = 1; op = op_no_op }

abbrev leading : RaftNode
leading = record asking {
  m_state = leader;
  m_leader_id = 0;
  m_next_indexs = update (update (λ i. 0) 1 1) 2 1;
  m_match_indexs = update (update (λ i. 0) 1 0) 2 0;
  election_stoped = true;
  heartbeat_stoped = false;
  m_replicators = 1 ∷ 2 ∷ [];
  m_raft_logger = record asking.m_raft_logger { m_entries = default_entry ∷ no_op ∷ [] };
}

leads_run : on_vote_reply granted 1 7 asking ≡ done (2, leading)
unfolding on_vote_reply quorum become_leader reset_indexs remote_ids start_replicate_log on_logger
    get_last_index append_local locked
leads_run = refl

abbrev after_timeout : Cluster
after_timeout = place start 0 timed_out

abbrev after_start : Cluster
after_start = begin_election (place after_timeout 0 asking) request

abbrev after_vote : Cluster
after_vote = set_answer (place after_start 1 voter) 0 1 (replied granted) 1

abbrev elected : Cluster
elected = set_answer (place after_vote 0 leading) 0 1 (closed granted) 2

run : Moves 3 start elected
run =
    next
      (next
        (next (next here (times_out 0 5 true timed_out (omega arith) (omega arith) times_out_run))
          (elects 0 5 300 request asking (omega arith) elects_run))
        (votes 0 1 6 400 granted voter (omega arith) (omega arith) (omega arith) refl votes_run))
      (counts 0 1 7 2 granted leading (omega arith) refl leads_run)

start-IsInitial : IsInitial 3 start
unfolding IsInitial
start-IsInitial = (refl, λ v lt. (refl, refl, refl))

one_leader_example : ◌≡◌ {A = ℕ} 0 0
one_leader_example =
    one_leader 3 start elected elected 0 0 (omega arith) (omega arith) start-IsInitial run here
      (omega arith) (omega arith) refl refl refl

asking-IsIndexed : IsIndexed asking.m_raft_logger
asking-IsIndexed = record { not_empty = omega arith; numbered = (refl, tt) }

enough : quorum 3 ≤ 2
unfolding quorum
enough = omega arith

on_vote_reply-leads_example : on_vote_reply granted 1 7 asking ≡ done (2, won 1 asking)
on_vote_reply-leads_example =
    on_vote_reply-leads granted 1 7 asking (inr refl) refl asking-IsIndexed refl refl refl enough
