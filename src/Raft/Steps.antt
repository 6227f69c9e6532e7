-- ===== src/Raft/Steps.antt =====
-- The sections of a node, in any order and any number: what holds of a node whatever happens.
use c_rpc.Base.{ℕ, suc, ◌^◌, ◌<◌, ◌≡◌, ◌≢◌, refl, Bool, true, arith}
use c_rpc.Raft.Config.{RaftVoteParams, RaftVoteRets}
use c_rpc.Raft.Outcome.{done}
use c_rpc.Raft.Node.{RaftNode, no_node, raft_vote, election_timeout, start_election}
use c_rpc.Raft.Leader.{on_vote_reply}
use c_rpc.Raft.Node.Vote.{raft_vote_granted}
use c_rpc.Raft.Sections.{Of}
use c_rpc.Raft.Quiet.{Local, Local-Quiet}
use c_rpc.Raft.Votes.{
  Votes, Votes-refl, Votes-trans, Quiet-Votes, raft_vote-Votes, election_timeout-Votes,
  start_election-Votes, on_vote_reply-Votes,
}

-- One section of the remote calls, the timers, the count of votes, the replication or the handlers of
-- clients has run to its end. A term that would wrap is left out.
pub data Step (n n' : RaftNode) : Type 0 where
  votes :
      (me random : ℕ) (params : RaftVoteParams) (rets : RaftVoteRets)
      → raft_vote params random me n ≡ done (rets, n')
      → Step n n'
  times_out :
      (me : ℕ) (b : Bool)
      → suc n.m_current_term < 2 ^ 64
      → election_timeout me n ≡ done (b, n')
      → Step n n'
  elects :
      (me random : ℕ) (params : RaftVoteParams)
      → start_election random me n ≡ done (params, n')
      → Step n n'
  counts :
      (me granted granted' : ℕ) (result : RaftVoteRets)
      → on_vote_reply result granted me n ≡ done (granted', n')
      → Step n n'
  others : Local n n' → Step n n'

pub data Steps (n : RaftNode) : RaftNode → Type 0 where
  here : Steps n n
  next : {m m' : RaftNode} → Steps n m → Step m m' → Steps n m'

Step-Votes : (n n' : RaftNode) → Step n n' → Votes n n'
unfolding Of
Step-Votes n n' (votes me random params rets e) = raft_vote-Votes params random me n n' rets e
Step-Votes n n' (times_out me b h e) = election_timeout-Votes me n n' b h e
Step-Votes n n' (elects me random params e) = start_election-Votes random me n n' params e
Step-Votes n n' (counts me granted granted' result e) =
    on_vote_reply-Votes result granted me n n' granted' e
Step-Votes n n' (others l) = Quiet-Votes n n' (Local-Quiet n n' l)

-- Over any run of sections the term of a node never goes back, and while it stays the same the
-- vote is kept, forgotten, or turned to the node itself. The run does not wrap a term.
pub Steps-Votes : (n n' : RaftNode) → Steps n n' → Votes n n'
Steps-Votes n n' here = Votes-refl n n refl
Steps-Votes n n' (next {m} ss s) = Votes-trans n m n' (Steps-Votes n m ss) (Step-Votes m n' s)

-- One vote in a term: a node that has given its vote in a term to one candidate gives it, whatever
-- it does in between, in that term to no other, but for one that says it is the node itself or has
-- the id -1. The run in between does not wrap a term.
pub one_vote :
    (me1 random1 : ℕ) (params1 : RaftVoteParams) (rets1 : RaftVoteRets) (n n1 : RaftNode)
    (me2 random2 : ℕ) (params2 : RaftVoteParams) (rets2 : RaftVoteRets) (n2 n3 : RaftNode)
    → raft_vote params1 random1 me1 n ≡ done (rets1, n1)
    → Steps n1 n2
    → raft_vote params2 random2 me2 n2 ≡ done (rets2, n3)
    → rets1.vote_granted ≡ true
    → rets2.vote_granted ≡ true
    → params1.term ≡ params2.term
    → params2.candidate_id ≢ no_node
    → params2.candidate_id ≢ n1.m_id
    → params1.candidate_id ≡ params2.candidate_id
unfolding Votes
one_vote me1 random1 params1 rets1 n n1 me2 random2 params2 rets2 n2 n3 e1 run e2 g1 g2 same h i =
    ground (
      arith,
      raft_vote_granted me1 random1 params1 n n1 rets1 e1 g1,
      raft_vote_granted me2 random2 params2 n2 n3 rets2 e2 g2,
      Steps-Votes n1 n2 run,
    )
