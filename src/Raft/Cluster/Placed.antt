-- ===== src/Raft/Cluster/Placed.antt =====
-- What a section of raft/raft_node.cpp at one node does to the invariant of the cluster.
use c_rpc.Base.{ℕ, suc, ◌^◌, ◌<◌, ◌≡◌, ◌≢◌, inl, refl, Bool, arith}
use c_rpc.Raft.Config.{RaftVoteParams, RaftVoteRets}
use c_rpc.Raft.Outcome.{done}
use c_rpc.Raft.Node.{RaftNode, leader, no_node, raft_vote, election_timeout, start_election}
use c_rpc.Raft.Quiet.{Quiet}
use c_rpc.Raft.Cluster.{Cluster, put, place}
use c_rpc.Raft.Cluster.Voter.{
  Grows, Quiet-IsVoter, start_election-IsVoter, election_timeout-IsVoter, election_timeout-Grows,
  raft_vote-IsVoter, raft_vote-Grows, after_timeout, after_vote,
}
use c_rpc.Raft.Cluster.Electorate.{Elected}
use c_rpc.Raft.Cluster.Invariant.{IsElectorate, After, placed, place-IsElectorate}

still_leads :
    (size : ℕ) (s : Cluster) (bound : ℕ → ℕ → ℕ) (v : ℕ) (n : RaftNode)
    → v < size
    → (s.nodes v).m_state ≡ leader
    → n.m_current_term ≡ (s.nodes v).m_current_term
    → IsElectorate size s bound
    → Elected size bound n.m_current_term v
still_leads size s bound v n lt was same h = rw same (h.leaders v lt was)

pub placed_quiet :
    (size : ℕ) (s : Cluster) (bound : ℕ → ℕ → ℕ) (v : ℕ) (n : RaftNode)
    → size < no_node
    → v < size
    → Quiet (s.nodes v) n
    → IsElectorate size s bound
    → After size (place s v n) bound
unfolding Grows Quiet
placed_quiet size s bound v n small lt q h =
    placed size s bound v n (bound v) small lt (ground (arith, h.sizes v lt))
      (Quiet-IsVoter v (s.nodes v) n (bound v) q (h.voters v lt)) (λ term. inl refl)
      (λ leads. still_leads size s bound v n lt (ground arith) (ground arith) h) h

-- The election timer runs out: nobody leads who did not before.
pub placed_timeout :
    (size : ℕ) (s : Cluster) (bound : ℕ → ℕ → ℕ) (v me : ℕ) (b : Bool) (n : RaftNode)
    → size < no_node
    → v < size
    → suc (s.nodes v).m_current_term < 2 ^ 64
    → election_timeout me (s.nodes v) ≡ done (b, n)
    → IsElectorate size s bound
    → After size (place s v n) bound
unfolding election_timeout
placed_timeout size s bound v me b n small lt wraps e h =
    placed size s bound v n (after_timeout (s.nodes v) (bound v)) small lt
      (ground (arith, h.sizes v lt))
      (election_timeout-IsVoter me v b (s.nodes v) n (bound v) wraps e (h.voters v lt))
      (election_timeout-Grows v (s.nodes v) (bound v) (h.voters v lt))
      (λ leads. still_leads size s bound v n lt (ground arith) (ground arith) h) h

pub placed_start :
    (size : ℕ) (s : Cluster) (bound : ℕ → ℕ → ℕ) (v me random : ℕ) (params : RaftVoteParams)
    (n : RaftNode)
    → size < no_node
    → v < size
    → start_election random me (s.nodes v) ≡ done (params, n)
    → IsElectorate size s bound
    → After size (place s v n) bound
unfolding start_election Grows
placed_start size s bound v me random params n small lt e h =
    placed size s bound v n (bound v) small lt (ground (arith, h.sizes v lt))
      (start_election-IsVoter random me v params (s.nodes v) n (bound v) e (h.voters v lt))
      (λ term. inl refl) (λ leads. still_leads size s bound v n lt (ground arith) (ground arith) h)
      h

pub placed_vote :
    (size : ℕ) (s : Cluster) (bound : ℕ → ℕ → ℕ) (v me random : ℕ) (params : RaftVoteParams)
    (rets : RaftVoteRets) (n : RaftNode)
    → size < no_node
    → v < size
    → v ≢ params.candidate_id
    → params.candidate_id < size
    → raft_vote params random me (s.nodes v) ≡ done (rets, n)
    → IsElectorate size s bound
    → IsElectorate size (place s v n) (put bound v (after_vote params rets (bound v)))
unfolding raft_vote
placed_vote size s bound v me random params rets n small lt other candidate_lt e h =
    place-IsElectorate size s bound v n (after_vote params rets (bound v)) small lt
      (ground (arith, h.sizes v lt))
      (raft_vote-IsVoter me random v params rets (s.nodes v) n (bound v) e (omega arith) other
        (omega arith) (h.voters v lt))
      (raft_vote-Grows me random v params rets (s.nodes v) n (bound v) e other (omega arith)
        (h.voters v lt))
      (λ leads. still_leads size s bound v n lt (ground arith) (ground arith) h) h
