-- ===== src/Raft/Node/Vote.antt =====
-- The votes of a node, raftVote of raft/raft_node.cpp.
use c_rpc.Base.{ℕ, ◌<◌, ◌≡◌, ◌⊎◌, true, arith}
use c_rpc.Raft.Config.{RaftVoteParams, RaftVoteRets}
use c_rpc.Raft.Outcome.{done}
use c_rpc.Raft.Logger.{is_newer}
use c_rpc.Raft.Node.{RaftNode, raft_vote}

-- A vote is given only in the term of the request, which is then the term of the node, to a log at
-- least as new as the node's; in a term that the node was in already, only to the candidate that it
-- voted for before. The log stays as it is.
pub raft_vote_granted :
    (me random : ℕ) (params : RaftVoteParams) (n n' : RaftNode) (rets : RaftVoteRets)
    → raft_vote params random me n ≡ done (rets, n')
    → rets.vote_granted ≡ true
    → (n'.m_voted_for ≡ params.candidate_id)
      × (n'.m_current_term ≡ params.term)
      × (rets.term ≡ params.term)
      × (is_newer params.last_log_term params.last_log_index n.m_raft_logger ≡ true)
      × ((n.m_current_term < params.term)
          ⊎ ((n.m_current_term ≡ params.term) × (n.m_voted_for ≡ params.candidate_id)))
unfolding raft_vote
raft_vote_granted me random params n n' rets e g = ground arith
