-- ===== src/Raft/Cluster/Preserved.antt =====
-- Each section of raft/raft_node.cpp keeps the invariant of the cluster.
use c_rpc.Base.{ℕ, ◌+◌, ◌<◌, ◌≡◌, ◌≢◌, ◌⊎◌, inl, inr, refl, true, arith}
use c_rpc.Raft.Config.{RaftVoteParams, RaftVoteRets}
use c_rpc.Raft.Outcome.{done}
use c_rpc.Raft.Node.{RaftNode, no_node, raft_vote, start_election}
use c_rpc.Raft.Node.Vote.{raft_vote_granted}
use c_rpc.Raft.Quiet.{Local-Quiet}
use c_rpc.Raft.Votes.{Same, Wins, on_vote_reply-Wins, on_vote_reply-count}
use c_rpc.Raft.Cluster.{
  Cluster, asked, replied, closed, put, place, begin_election, set_answer, with_answer, Move, local,
  times_out, elects, votes, counts,
}
use c_rpc.Raft.Cluster.Voter.{Grows, Wins-IsVoter, raft_vote-Grows, after_vote}
use c_rpc.Raft.Cluster.Electorate.{vote_given, vote_counted}
use c_rpc.Raft.Cluster.Invariant.{
  IsElectorate, After, put-AllGrow, placed, set_answer-IsElectorate, begin_election-IsElectorate,
  win,
}
use c_rpc.Raft.Cluster.Placed.{placed_quiet, placed_timeout, placed_start, placed_vote}

-- The answer is looked at, whatever it does to the candidate.
closed_After :
    (size : ℕ) (s : Cluster) (bound : ℕ → ℕ → ℕ) (e v granted : ℕ) (rets : RaftVoteRets)
    → e < s.started
    → (s.elections e).answers v ≡ replied rets
    → (granted ≡ (s.elections e).granted_votes)
      ⊎ ((granted ≡ (s.elections e).granted_votes + 1) × (rets.vote_granted ≡ true))
    → After size s bound
    → After size (set_answer s e v (closed rets) granted) bound
unfolding After
closed_After size s bound e v granted rets started came up (bound', inv, grows) = (
  bound',
  set_answer-IsElectorate size s bound' e v granted (closed rets)
      (vote_counted size bound' (s.elections e) v granted rets came up (inv.elections e started))
      inv,
  grows,
)

placed_win :
    (size : ℕ) (s : Cluster) (bound : ℕ → ℕ → ℕ) (e v granted : ℕ) (rets : RaftVoteRets)
    (n : RaftNode)
    → size < no_node
    → e < s.started
    → (s.elections e).answers v ≡ replied rets
    → granted ≡ (s.elections e).granted_votes + 1
    → Wins rets (s.elections e).granted_votes (s.nodes (s.elections e).request.candidate_id) n
    → IsElectorate size s bound
    → After size (place s (s.elections e).request.candidate_id n) bound
unfolding Wins Same Grows
placed_win size s bound e v granted rets n small started came up w h =
    placed size s bound c n (bound c) small lt (ground (arith, h.sizes c lt))
      (Wins-IsVoter rets (s.elections e).granted_votes c (s.nodes c) n (bound c) w (h.voters c lt))
      (λ term. inl refl)
      (λ leads.
        win size bound (with_answer (s.elections e) v (closed rets) granted) rets
          (s.elections e).granted_votes (s.nodes c) n
          (vote_counted size bound (s.elections e) v granted rets came (inr (up, ground arith))
            (h.elections e started))
          (h.voters c lt) (h.sizes c lt)
          (ground (arith, (h.elections e started).granted v rets (inl came))) (omega arith) w)
      h
  where
    c : ℕ
    c = (s.elections e).request.candidate_id

    lt : c < size
    lt = (h.elections e started).candidate_lt

voted_After :
    (size : ℕ) (s : Cluster) (bound : ℕ → ℕ → ℕ) (e v me random : ℕ) (rets : RaftVoteRets)
    (n : RaftNode)
    → size < no_node
    → e < s.started
    → v < size
    → v ≢ (s.elections e).request.candidate_id
    → (s.elections e).answers v ≡ asked
    → raft_vote (s.elections e).request random me (s.nodes v) ≡ done (rets, n)
    → IsElectorate size s bound
    → After size (set_answer (place s v n) e v (replied rets) (s.elections e).granted_votes) bound
unfolding After
voted_After size s bound e v me random rets n small started lt other fresh eq h = (
  put bound v ballots,
  set_answer-IsElectorate size (place s v n) (put bound v ballots) e v (s.elections e).granted_votes
      (replied rets)
      (vote_given size (put bound v ballots) (s.elections e) v rets fresh
        (λ g. (
          lt,
          other,
          ground (arith, raft_vote_granted me random params (s.nodes v) n rets eq g),
          ground arith,
        ))
        (inv.elections e started))
      inv,
  put-AllGrow bound v ballots (
      raft_vote-Grows me random v params rets (s.nodes v) n (bound v) eq other
        (omega (arith, candidate_lt)) (h.voters v lt)),
)
  where
    params : RaftVoteParams
    params = (s.elections e).request

    candidate_lt : params.candidate_id < size
    candidate_lt = (h.elections e started).candidate_lt

    ballots : ℕ → ℕ
    ballots = after_vote params rets (bound v)

    inv : IsElectorate size (place s v n) (put bound v ballots)
    inv = placed_vote size s bound v me random params rets n small lt other candidate_lt eq h

started_After :
    (size : ℕ) (s : Cluster) (bound : ℕ → ℕ → ℕ) (v me random : ℕ) (params : RaftVoteParams)
    (n : RaftNode)
    → v < size
    → start_election random me (s.nodes v) ≡ done (params, n)
    → IsElectorate size s bound
    → After size (place s v n) bound
    → After size (begin_election (place s v n) params) bound
unfolding After start_election
started_After size s bound v me random params n lt e h (bound', inv, grows) = (
  bound',
  begin_election-IsElectorate size (place s v n) bound' params (ground (arith, (h.voters v lt).id))
      inv,
  grows,
)

-- Every move keeps the invariant, and what nodes are bound to.
pub move :
    (size : ℕ) (s s' : Cluster) (bound : ℕ → ℕ → ℕ)
    → size < no_node
    → Move size s s'
    → IsElectorate size s bound
    → After size s' bound
move size s s' bound small (local v n lt l) h =
    placed_quiet size s bound v n small lt (Local-Quiet (s.nodes v) n l) h
move size s s' bound small (times_out v me b n lt wraps e) h =
    placed_timeout size s bound v me b n small lt wraps e h
move size s s' bound small (elects v me random params n lt e) h =
    started_After size s bound v me random params n lt e h
      (placed_start size s bound v me random params n small lt e h)
move size s s' bound small (votes e v me random rets n started lt other fresh eq) h =
    voted_After size s bound e v me random rets n small started lt other fresh eq h
move size s s' bound small (counts e v me granted rets n started came eq) h =
    closed_After size (place s c n) bound e v granted rets started came
      (on_vote_reply-count rets before granted me (s.nodes c) n eq)
      (elim (on_vote_reply-Wins rets before granted me (s.nodes c) n eq) [
        | inl quiet ↦
            placed_quiet size s bound c n small (h.elections e started).candidate_lt quiet h
        | inr (up, wins) ↦ placed_win size s bound e v granted rets n small started came up wins h
      ])
  where
    c : ℕ
    c = (s.elections e).request.candidate_id

    before : ℕ
    before = (s.elections e).granted_votes
