-- ===== src/Raft/Cluster/Voter.antt =====
-- The votes of one node of a cluster, over the sections of raft/raft_node.cpp: in each term it is bound
-- to at most one candidate.
use c_rpc.Base.{ℕ, suc, ◌^◌, ◌≤◌, ◌<◌, ◌≡◌, ◌≢◌, ◌⊎◌, Bool, if◌then◌else◌, arith}
use c_rpc.Raft.Config.{RaftVoteParams, RaftVoteRets}
use c_rpc.Raft.Outcome.{done}
use c_rpc.Raft.Node.{
  RaftNode, follower, no_node, is_leader, raft_vote, election_timeout, start_election,
}
use c_rpc.Raft.Quiet.{Quiet}
use c_rpc.Raft.Votes.{Same, Wins}
use c_rpc.Raft.Cluster.{put}

-- `votes` is the candidate that the node `v` is bound to in each term, or -1. A node that has come
-- back to follow in its term may have forgotten, but does not vote again.
pub record IsVoter (v : ℕ) (n : RaftNode) (votes : ℕ → ℕ) : Type 0 where
  pub id : n.m_id ≡ v
  pub past : (term : ℕ) → votes term ≢ no_node → term ≤ n.m_current_term
  pub own : (n.m_state ≡ follower) ⊎ (votes n.m_current_term ≡ v)
  pub bound :
      (votes n.m_current_term ≡ no_node)
      ⊎ ((n.m_voted_for ≡ votes n.m_current_term)
          ⊎ ((n.m_voted_for ≡ v) ⊎ (n.m_voted_for ≡ no_node)))

unfoldable pub Grows : (ℕ → ℕ) → (ℕ → ℕ) → Type 0
Grows votes votes' = (term : ℕ) → (votes' term ≡ votes term) ⊎ (votes term ≡ no_node)

pub Quiet-IsVoter :
    (v : ℕ) (n n' : RaftNode) (votes : ℕ → ℕ) → Quiet n n' → IsVoter v n votes → IsVoter v n' votes
unfolding Quiet
Quiet-IsVoter v n n' votes q h = record {
  id = ground (arith, h.id);
  past = λ term some_. ground (arith, h.past term some_);
  own = ground (arith, h.own);
  bound = ground (arith, h.bound, h.past n'.m_current_term);
}

pub Wins-IsVoter :
    (result : RaftVoteRets) (granted v : ℕ) (n n' : RaftNode) (votes : ℕ → ℕ)
    → Wins result granted n n'
    → IsVoter v n votes
    → IsVoter v n' votes
unfolding Wins Same
Wins-IsVoter result granted v n n' votes w h = record {
  id = ground (arith, h.id);
  past = λ term some_. ground (arith, h.past term some_);
  own = ground (arith, h.own);
  bound = ground (arith, h.bound);
}

pub start_election-IsVoter :
    (random me v : ℕ) (params : RaftVoteParams) (n n' : RaftNode) (votes : ℕ → ℕ)
    → start_election random me n ≡ done (params, n')
    → IsVoter v n votes
    → IsVoter v n' votes
unfolding start_election
start_election-IsVoter random me v params n n' votes e h = record {
  id = ground (arith, h.id);
  past = λ term some_. ground (arith, h.past term some_);
  own = ground (arith, h.own);
  bound = ground (arith, h.id);
}

-- The election timer binds a node that does not lead to itself.
abbrev pub after_timeout : RaftNode → (ℕ → ℕ) → ℕ → ℕ
after_timeout n votes =
    if is_leader n.m_state then votes else put votes (suc n.m_current_term) n.m_id

pub election_timeout-IsVoter :
    (me v : ℕ) (b : Bool) (n n' : RaftNode) (votes : ℕ → ℕ)
    → suc n.m_current_term < 2 ^ 64
    → election_timeout me n ≡ done (b, n')
    → IsVoter v n votes
    → IsVoter v n' (after_timeout n votes)
unfolding election_timeout
election_timeout-IsVoter me v b n n' votes wraps e h = record {
  id = ground (arith, h.id);
  past = λ term some_. ground (arith, h.past term);
  own = ground (arith, h.own, h.id);
  bound = ground (arith, h.bound, h.id);
}

pub election_timeout-Grows :
    (v : ℕ) (n : RaftNode) (votes : ℕ → ℕ) → IsVoter v n votes → Grows votes (after_timeout n votes)
unfolding Grows
election_timeout-Grows v n votes h term = ground (arith, h.past term)

abbrev pub after_vote : RaftVoteParams → RaftVoteRets → (ℕ → ℕ) → ℕ → ℕ
after_vote params rets votes =
    if rets.vote_granted then put votes params.term params.candidate_id else votes

-- A granted vote for another node binds the voter, which was free or bound to that candidate before.
pub raft_vote-IsVoter :
    (me random v : ℕ) (params : RaftVoteParams) (rets : RaftVoteRets) (n n' : RaftNode)
    (votes : ℕ → ℕ)
    → raft_vote params random me n ≡ done (rets, n')
    → v ≢ no_node
    → v ≢ params.candidate_id
    → params.candidate_id ≢ no_node
    → IsVoter v n votes
    → IsVoter v n' (after_vote params rets votes)
unfolding raft_vote
raft_vote-IsVoter me random v params rets n n' votes e node other exists_ h = record {
  id = ground (arith, h.id);
  past = λ term some_. ground (arith, h.past term);
  own = ground (arith, h.own, h.bound);
  bound = ground (arith, h.bound, h.past n'.m_current_term);
}

pub raft_vote-Grows :
    (me random v : ℕ) (params : RaftVoteParams) (rets : RaftVoteRets) (n n' : RaftNode)
    (votes : ℕ → ℕ)
    → raft_vote params random me n ≡ done (rets, n')
    → v ≢ params.candidate_id
    → params.candidate_id ≢ no_node
    → IsVoter v n votes
    → Grows votes (after_vote params rets votes)
unfolding Grows raft_vote
raft_vote-Grows me random v params rets n n' votes e other exists_ h term =
    ground (arith, h.bound, h.past term)
