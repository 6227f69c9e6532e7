-- ===== src/Raft/Cluster/Invariant.antt =====
-- The invariant of a cluster that runs raft/raft_node.cpp, and what keeps it: a node that goes on, an
-- election that begins, an answer that is looked at.
use c_rpc.Base.{
  count_mono, ℕ, ◌+◌, ◌≤◌, ◌<◌, ◌≡◌, ◌≢◌, inl, inr, refl, true, Bool-cases, ◌==◌, arith,
}
use c_rpc.Raft.Config.{RaftVoteParams, RaftVoteRets}
use c_rpc.Raft.Node.{RaftNode, leader, no_node}
use c_rpc.Raft.Leader.{quorum}
use c_rpc.Raft.Votes.{Same, Wins}
use c_rpc.Raft.Cluster.{
  Cluster, Election, Answer, asked, replied, closed, put, place, begin_election, set_answer,
  with_answer,
}
use c_rpc.Raft.Cluster.Voter.{IsVoter, Grows}
use c_rpc.Raft.Cluster.Electorate.{
  Elected, Elected-mono, IsElection, IsElection-mono, new-IsElection, counted_for,
}

-- The invariant: what the nodes are bound to, and that a leader has a quorum.
pub record IsElectorate (size : ℕ) (s : Cluster) (bound : ℕ → ℕ → ℕ) : Type 0 where
  pub sizes : (v : ℕ) → v < size → (s.nodes v).m_nodes ≡ size
  pub voters : (v : ℕ) → v < size → IsVoter v (s.nodes v) (bound v)
  pub elections : (e : ℕ) → e < s.started → IsElection size bound (s.elections e)
  pub leaders :
      (v : ℕ)
      → v < size
      → (s.nodes v).m_state ≡ leader
      → Elected size bound (s.nodes v).m_current_term v

unfoldable pub AllGrow : (ℕ → ℕ → ℕ) → (ℕ → ℕ → ℕ) → Type 0
AllGrow bound bound' = (u : ℕ) → Grows (bound u) (bound' u)

pub put-AllGrow :
    (bound : ℕ → ℕ → ℕ) (v : ℕ) (ballots : ℕ → ℕ)
    → Grows (bound v) ballots
    → AllGrow bound (put bound v ballots)
unfolding Grows AllGrow
put-AllGrow bound v ballots g u term = ground (arith, g term)

-- At each key of two functions that were both changed at `v`.
put_both :
    {A B : Type 0} (P : ℕ → A → B → Type 0) (f : ℕ → A) (g : ℕ → B) (v u : ℕ) (a : A) (b : B)
    → P v a b
    → P u (f u) (g u)
    → P u (put f v a u) (put g v b u)
put_both P f g v u a b this other = elim (Bool-cases (u == v)) [
  | inl e ↦ rw (e, same_key e) this
  | inr e ↦ rw e other
]
  where
    same_key : (u == v) ≡ true → u ≡ v
    same_key e = ground arith

-- A node goes on, without or with a new vote.
pub place-IsElectorate :
    (size : ℕ) (s : Cluster) (bound : ℕ → ℕ → ℕ) (v : ℕ) (n : RaftNode) (ballots : ℕ → ℕ)
    → size < no_node
    → v < size
    → n.m_nodes ≡ size
    → IsVoter v n ballots
    → Grows (bound v) ballots
    → (n.m_state ≡ leader → Elected size bound n.m_current_term v)
    → IsElectorate size s bound
    → IsElectorate size (place s v n) (put bound v ballots)
unfolding AllGrow
place-IsElectorate size s bound v n ballots small lt nodes voter grows leads h = record {
  sizes = λ u lt. ground (arith, nodes, h.sizes u);
  voters = λ u lt. put_both IsVoter s.nodes bound v u n ballots voter (h.voters u lt);
  elections = λ e lt.
      IsElection-mono size bound (put bound v ballots) (s.elections e) small
        (put-AllGrow bound v ballots grows) (h.elections e lt);
  leaders = λ u below.
      put_both (λ u m _. m.m_state ≡ leader → Elected size (put bound v ballots) m.m_current_term u)
        s.nodes bound v u n ballots (λ is_. still n.m_current_term v (omega arith) (leads is_))
        (λ was. still (s.nodes u).m_current_term u (omega (arith, below)) (h.leaders u below was));
}
  where
    still :
        (term u : ℕ)
        → u ≢ no_node
        → Elected size bound term u
        → Elected size (put bound v ballots) term u
    still term u =
        Elected-mono size bound (put bound v ballots) term u (put-AllGrow bound v ballots grows)

counted_bound :
    (size : ℕ) (bound : ℕ → ℕ → ℕ) (e : Election) (u : ℕ) (a : Answer)
    → IsElection size bound e
    → bound e.request.candidate_id e.request.term ≡ e.request.candidate_id
    → e.answers u ≡ a
    → counted_for e u ≡ true
    → bound u e.request.term ≡ e.request.candidate_id
counted_bound size bound e u asked h own at on = ground arith
counted_bound size bound e u (replied rets) h own at on = ground arith
counted_bound size bound e u (closed rets) h own at on = ground (arith, h.granted u rets (inr at))

-- A counted majority: a quorum of the nodes is bound to the candidate that wins.
pub win :
    (size : ℕ) (bound : ℕ → ℕ → ℕ) (e : Election) (rets : RaftVoteRets) (granted : ℕ)
    (n n' : RaftNode)
    → IsElection size bound e
    → IsVoter e.request.candidate_id n (bound e.request.candidate_id)
    → n.m_nodes ≡ size
    → rets.term ≡ e.request.term
    → granted + 1 ≤ e.granted_votes
    → Wins rets granted n n'
    → Elected size bound n'.m_current_term e.request.candidate_id
unfolding Wins Same Elected
win size bound e rets granted n n' h voter nodes same enough w = omega (
  arith,
  quorum_reached,
  h.counted,
  enough,
  count_mono (counted_for e) (λ u. bound u n'.m_current_term == e.request.candidate_id) size
      (λ u lt on.
        ground (
          arith,
          counted_bound size bound e u (e.answers u) h (ground (arith, voter.own)) refl on,
        )),
)
  where
    quorum_reached : quorum size ≤ granted + 1
    quorum_reached = ground (arith, nodes)

-- Some votes bind after a move, those from before among them.
unfoldable pub After : ℕ → Cluster → (ℕ → ℕ → ℕ) → Type 0
After size s bound = (bound' : ℕ → ℕ → ℕ) × IsElectorate size s bound' × AllGrow bound bound'

pub placed :
    (size : ℕ) (s : Cluster) (bound : ℕ → ℕ → ℕ) (v : ℕ) (n : RaftNode) (ballots : ℕ → ℕ)
    → size < no_node
    → v < size
    → n.m_nodes ≡ size
    → IsVoter v n ballots
    → Grows (bound v) ballots
    → (n.m_state ≡ leader → Elected size bound n.m_current_term v)
    → IsElectorate size s bound
    → After size (place s v n) bound
unfolding After
placed size s bound v n ballots small lt nodes voter grows leads h = (
  put bound v ballots,
  place-IsElectorate size s bound v n ballots small lt nodes voter grows leads h,
  put-AllGrow bound v ballots grows,
)

pub set_answer-IsElectorate :
    (size : ℕ) (s : Cluster) (bound : ℕ → ℕ → ℕ) (e v granted : ℕ) (a : Answer)
    → IsElection size bound (with_answer (s.elections e) v a granted)
    → IsElectorate size s bound
    → IsElectorate size (set_answer s e v a granted) bound
set_answer-IsElectorate size s bound e v granted a one h = record {
  sizes = h.sizes;
  voters = h.voters;
  elections = λ i lt.
      put_both (λ i x (_ : ℕ). IsElection size bound x) s.elections (λ i. i) e i
        (with_answer (s.elections e) v a granted) e one (h.elections i lt);
  leaders = h.leaders;
}

pub begin_election-IsElectorate :
    (size : ℕ) (s : Cluster) (bound : ℕ → ℕ → ℕ) (params : RaftVoteParams)
    → params.candidate_id < size
    → IsElectorate size s bound
    → IsElectorate size (begin_election s params) bound
begin_election-IsElectorate size s bound params lt h = record {
  sizes = h.sizes;
  voters = h.voters;
  elections = λ i below. elim (Bool-cases (i == s.started)) [
    | inl new ↦ rw new (new-IsElection size bound params lt)
    | inr old ↦ rw old (h.elections i (ground arith))
  ];
  leaders = h.leaders;
}
