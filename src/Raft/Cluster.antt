-- ===== src/Raft/Cluster.antt =====
-- A cluster of nodes of raft/raft_node.cpp that elect their leaders: the nodes, and the elections that
-- `startElection` has begun, each with its counter `*grantedVotes` and its coroutines, one for each
-- other node, that send the request, take the answer and count it.
pub mod Voter
pub mod Electorate
pub mod Invariant
pub mod Placed
pub mod Preserved
pub mod Safety
mod Examples
use c_rpc.Base.{ℕ, suc, ◌^◌, ◌<◌, ◌≡◌, ◌≢◌, Bool, ◌==◌, if◌then◌else◌}
use c_rpc.Raft.Config.{RaftVoteParams, RaftVoteRets}
use c_rpc.Raft.Outcome.{done}
use c_rpc.Raft.Node.{RaftNode, follower, raft_vote, election_timeout, start_election, no_node}
use c_rpc.Raft.Leader.{on_vote_reply}
use c_rpc.Raft.Quiet.{Local}

-- A coroutine of an election: it has not had the other node vote, its answer has come back, or the
-- answer has been looked at. A request or an answer that is lost stays where it is.
pub data Answer : Type 0 where
  asked : Answer
  replied : RaftVoteRets → Answer
  closed : RaftVoteRets → Answer

pub record Election : Type 0 where
  pub request : RaftVoteParams
  pub granted_votes : ℕ
  pub answers : ℕ → Answer

pub record Cluster : Type 0 where
  pub nodes : ℕ → RaftNode
  pub started : ℕ
  pub elections : ℕ → Election

abbrev pub put {ℓ} : {A : Type ℓ} → (ℕ → A) → ℕ → A → ℕ → A
put f key value i = if i == key then value else f i

abbrev pub place : Cluster → ℕ → RaftNode → Cluster
place s v n = record s { nodes = put s.nodes v n }

abbrev pub begin_election : Cluster → RaftVoteParams → Cluster
begin_election s params = record s {
  started = suc s.started;
  elections =
      put s.elections s.started
        (record { request = params; granted_votes = 1; answers = λ v. asked });
}

abbrev pub with_answer : Election → ℕ → Answer → ℕ → Election
with_answer e v a granted = record e { granted_votes = granted; answers = put e.answers v a }

abbrev pub set_answer : Cluster → ℕ → ℕ → Answer → ℕ → Cluster
set_answer s e v a granted = record s {
  elections = put s.elections e (with_answer (s.elections e) v a granted);
}

-- One section of one of the `size` nodes. The answer that a voter gave is the one that the candidate
-- gets. A term that would wrap is left out.
pub data Move (size : ℕ) (s : Cluster) : Cluster → Type 0 where
  local : (v : ℕ) (n' : RaftNode) → v < size → Local (s.nodes v) n' → Move size s (place s v n')
  times_out :
      (v me : ℕ) (b : Bool) (n' : RaftNode)
      → v < size
      → suc (s.nodes v).m_current_term < 2 ^ 64
      → election_timeout me (s.nodes v) ≡ done (b, n')
      → Move size s (place s v n')
  elects :
      (v me random : ℕ) (params : RaftVoteParams) (n' : RaftNode)
      → v < size
      → start_election random me (s.nodes v) ≡ done (params, n')
      → Move size s (begin_election (place s v n') params)
  votes :
      (e v me random : ℕ) (rets : RaftVoteRets) (n' : RaftNode)
      → e < s.started
      → v < size
      → v ≢ (s.elections e).request.candidate_id
      → (s.elections e).answers v ≡ asked
      → raft_vote (s.elections e).request random me (s.nodes v) ≡ done (rets, n')
      → Move size s (set_answer (place s v n') e v (replied rets) (s.elections e).granted_votes)
  counts :
      (e v me granted : ℕ) (rets : RaftVoteRets) (n' : RaftNode)
      → e < s.started
      → (s.elections e).answers v ≡ replied rets
      → on_vote_reply rets
          (s.elections e).granted_votes
          me
          (s.nodes (s.elections e).request.candidate_id)
        ≡ done (granted, n')
      → Move size s
          (set_answer (place s (s.elections e).request.candidate_id n') e v (closed rets) granted)

pub data Moves (size : ℕ) (s : Cluster) : Cluster → Type 0 where
  here : Moves size s s
  next : {t t' : Cluster} → Moves size s t → Move size t t' → Moves size s t'

-- Before any election all nodes follow, in any terms. Each knows its id and the number of nodes.
unfoldable pub IsInitial : ℕ → Cluster → Type 0
IsInitial size s =
    (s.started ≡ 0)
    × ((v : ℕ)
        → v < size
        → ((s.nodes v).m_id ≡ v) × ((s.nodes v).m_nodes ≡ size) × ((s.nodes v).m_state ≡ follower))
