-- ===== src/Raft/Votes.antt =====
-- What the sections of raft/raft_node.cpp do to the term and the vote of a node.
use c_rpc.Base.{ℕ, suc, ◌+◌, ◌^◌, ◌≤◌, ◌<◌, ◌≡◌, ◌⊎◌, refl, Bool, true, List, arith}
use c_rpc.Raft.Config.{RaftVoteParams, RaftVoteRets}
use c_rpc.Raft.Outcome.{Outcome, done, blocked, fault}
use c_rpc.Raft.Node.{
  RaftNode, candidate, Section, ◌>>=◌, no_node, raft_vote, election_timeout, start_election,
  become_follower, get, modify, on_logger,
}
use c_rpc.Raft.Logger.{RaftLogger, Method}
use c_rpc.Raft.Leader.{quorum, on_vote_reply, become_leader, reset_indexs, start_replicate_log}
use c_rpc.Raft.Sections.{Of, get-Of, on_logger-Of, bind-Of, modify-Of}
use c_rpc.Raft.Kept.{Kept, reset_indexs-Kept, start_replicate_log-Kept}
use c_rpc.Raft.Quiet.{Quiet}

-- A section goes to a later term, or it keeps the term and either the vote, or forgets it, or
-- votes for the node itself.
unfoldable pub Votes : RaftNode → RaftNode → Type 0
Votes n n' =
    (n'.m_id ≡ n.m_id)
    × ((n.m_current_term < n'.m_current_term)
        ⊎ ((n.m_current_term ≡ n'.m_current_term)
            × ((n'.m_voted_for ≡ n.m_voted_for)
                ⊎ ((n'.m_voted_for ≡ no_node) ⊎ (n'.m_voted_for ≡ n.m_id)))))

pub Votes-refl : (n n' : RaftNode) → n ≡ n' → Votes n n'
unfolding Votes
Votes-refl n n' e = ground arith

pub Votes-trans : (n m n' : RaftNode) → Votes n m → Votes m n' → Votes n n'
unfolding Votes
Votes-trans n m n' p q = ground arith

pub Quiet-Votes : (n n' : RaftNode) → Quiet n n' → Votes n n'
unfolding Votes Quiet
Quiet-Votes n n' q = ground arith

pub raft_vote-Votes : (params : RaftVoteParams) (random : ℕ) → Of Votes (raft_vote params random)
unfolding Of Votes raft_vote
raft_vote-Votes params random me n n' rets e = ground arith

pub election_timeout-Votes :
    (me : ℕ) (n n' : RaftNode) (b : Bool)
    → suc n.m_current_term < 2 ^ 64
    → election_timeout me n ≡ done (b, n')
    → Votes n n'
unfolding Votes election_timeout
election_timeout-Votes me n n' b h e = ground arith

pub start_election-Votes : (random : ℕ) → Of Votes (start_election random)
unfolding Of Votes start_election
start_election-Votes random me n n' params e = ground arith

-- What a candidate keeps that comes to lead.
unfoldable pub Same : RaftNode → RaftNode → Type 0
Same n n' =
    (n'.m_id ≡ n.m_id)
    × (n'.m_nodes ≡ n.m_nodes)
    × (n'.m_current_term ≡ n.m_current_term)
    × (n'.m_voted_for ≡ n.m_voted_for)

Same-trans : (n m n' : RaftNode) → Same n m → Same m n' → Same n n'
unfolding Same
Same-trans n m n' p q = ground arith

frame-Same :
    (n : RaftNode) (mutex : ℕ) (logger : RaftLogger)
    → Same n (record n { m_raft_mutex = mutex; m_raft_logger = logger })
unfolding Same
frame-Same n mutex logger = (refl, refl, refl, refl)

get-Same : Of Same get
get-Same = get-Of Same Same-trans frame-Same

on_logger-Same : {A : Type 0} (f : Method A) → Of Same (on_logger f)
on_logger-Same = on_logger-Of Same Same-trans frame-Same

bind-Same :
    {A B : Type 0} (m : Section A) (f : A → Section B)
    → Of Same m
    → ((a : A) → Of Same (f a))
    → Of Same (m >>= f)
bind-Same = bind-Of Same Same-trans frame-Same

modify-Same :
    (f : RaftNode → RaftNode)
    → ((n : RaftNode) → (f n).m_id ≡ n.m_id)
    → ((n : RaftNode) → (f n).m_nodes ≡ n.m_nodes)
    → ((n : RaftNode) → (f n).m_current_term ≡ n.m_current_term)
    → ((n : RaftNode) → (f n).m_voted_for ≡ n.m_voted_for)
    → Of Same (modify f)
unfolding Same
modify-Same f i s t v = modify-Of Same f λ n. (i n, s n, t n, v n)

section-Same : {A : Type 0} (m : Section A) → Of Kept m → Of Same m
unfolding Of Kept Same
section-Same m h me n n' a e = ground (arith, h me n n' a e)

reset_indexs-Same : (is : List ℕ) → Of Same (reset_indexs is)
reset_indexs-Same is = section-Same (reset_indexs is) (reset_indexs-Kept is)

start_replicate_log-Same : Of Same start_replicate_log
start_replicate_log-Same = section-Same start_replicate_log start_replicate_log-Kept

become_leader-Same : Of Same become_leader
unfolding become_leader
become_leader-Same =
    search
      (
        get-Same, on_logger-Same, bind-Same, modify-Same, reset_indexs-Same,
        start_replicate_log-Same,
      )
      depth 30

-- A vote comes back: only a candidate in the term of the reply, for which it is a granted vote that
-- makes up a quorum, can come to lead, and then keeps its term and its vote.
unfoldable pub Wins : RaftVoteRets → ℕ → RaftNode → RaftNode → Type 0
Wins result granted n n' =
    Same n n'
    × (n.m_state ≡ candidate)
    × (n.m_current_term ≡ result.term)
    × (result.vote_granted ≡ true)
    × (quorum n.m_nodes ≤ granted + 1)

-- The last bind of a section that goes on by what `become_leader` gives.
leads :
    (result : RaftVoteRets) (granted granted' me : ℕ) (n n' : RaftNode)
    (o : Outcome (Unit {0} × RaftNode))
    → become_leader me (record n { m_raft_mutex = me }) ≡ o
    → on_vote_reply result granted me n ≡ done (granted', n')
    → Quiet n n' ⊎ ((granted' ≡ granted + 1) × Wins result granted n n')
unfolding Wins on_vote_reply Quiet Same Of become_follower
leads result granted granted' me n n' (done (tt, n1)) eq e =
    ground (arith, become_leader-Same me (record n { m_raft_mutex = me }) n1 tt eq)
leads result granted granted' me n n' blocked eq e = ground arith
leads result granted granted' me n n' fault eq e = ground arith

-- The count goes up only for a granted vote.
pub on_vote_reply-count :
    (result : RaftVoteRets) (granted granted' me : ℕ) (n n' : RaftNode)
    → on_vote_reply result granted me n ≡ done (granted', n')
    → (granted' ≡ granted) ⊎ ((granted' ≡ granted + 1) × (result.vote_granted ≡ true))
unfolding on_vote_reply
on_vote_reply-count result granted granted' me n n' e = ground arith

pub on_vote_reply-Wins :
    (result : RaftVoteRets) (granted granted' me : ℕ) (n n' : RaftNode)
    → on_vote_reply result granted me n ≡ done (granted', n')
    → Quiet n n' ⊎ ((granted' ≡ granted + 1) × Wins result granted n n')
on_vote_reply-Wins result granted granted' me n n' e =
    leads result granted granted' me n n' (become_leader me (record n { m_raft_mutex = me })) refl e

pub on_vote_reply-Votes :
    (result : RaftVoteRets) (granted : ℕ) → Of Votes (on_vote_reply result granted)
unfolding Of Votes Wins Quiet Same
on_vote_reply-Votes result granted me n n' granted' e =
    ground (arith, on_vote_reply-Wins result granted granted' me n n' e)
