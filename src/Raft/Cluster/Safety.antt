-- ===== src/Raft/Cluster/Safety.antt =====
-- Election safety of a cluster that runs raft/raft_node.cpp: a term has at most one leader.
use c_rpc.Base.{ℕ, ◌%◌, ◌<◌, ◌≡◌, inl, refl, ◌==◌, arith}
use c_rpc.Raft.Node.{leader, no_node}
use c_rpc.Raft.Quorum.{quorum_overlap}
use c_rpc.Raft.Cluster.{Cluster, Moves, here, next, IsInitial}
use c_rpc.Raft.Cluster.Voter.{Grows}
use c_rpc.Raft.Cluster.Electorate.{Elected, Elected-mono}
use c_rpc.Raft.Cluster.Invariant.{IsElectorate, AllGrow, After}
use c_rpc.Raft.Cluster.Preserved.{move}

moves :
    (size : ℕ) (s s' : Cluster) (bound : ℕ → ℕ → ℕ)
    → size < no_node
    → Moves size s s'
    → IsElectorate size s bound
    → After size s' bound
unfolding After AllGrow Grows
moves size s s' bound small here h = (bound, h, λ u term. inl refl)
moves size s s' bound small (next {t} before m) h =
    let (bound1, inv1, grows1) = moves size s t bound small before h in
    let (bound2, inv2, grows2) = move size t s' bound1 small m inv1 in
    (bound2, inv2, λ u term. ground (arith, grows1 u term, grows2 u term))

initial : (size : ℕ) (s : Cluster) → IsInitial size s → IsElectorate size s (λ u term. no_node)
unfolding IsInitial
initial size s (none_, all) = record {
  sizes = λ v lt. ground (arith, all v lt);
  voters = λ v lt. record {
    id = ground (arith, all v lt);
    past = λ term some_. absurd (some_ refl);
    own = ground (arith, all v lt);
    bound = inl refl;
  };
  elections = λ e lt. absurd (ground arith);
  leaders = λ v lt is_. absurd (ground (arith, all v lt));
}

-- Two quorums of an odd number of nodes that are bound in the same term have the same candidate.
same_candidate :
    (size : ℕ) (bound : ℕ → ℕ → ℕ) (term a b : ℕ)
    → size % 2 ≡ 1
    → Elected size bound term a
    → Elected size bound term b
    → a ≡ b
unfolding Elected
same_candidate size bound term a b odd ea eb =
    let (u, lt, ua, ub) =
      quorum_overlap size (λ u. bound u term == a) (λ u. bound u term == b) odd ea eb in
    ground arith

-- Election safety: in a cluster of an odd number of nodes, whatever their sections do in whatever
-- order, with requests and answers lost at will, a node that leads at one time and a node that leads
-- then or later in the same term are the same node. At first all nodes follow; no term wraps.
pub one_leader :
    (size : ℕ) (s s1 s2 : Cluster) (a b : ℕ)
    → size % 2 ≡ 1
    → size < no_node
    → IsInitial size s
    → Moves size s s1
    → Moves size s1 s2
    → a < size
    → b < size
    → (s1.nodes a).m_state ≡ leader
    → (s2.nodes b).m_state ≡ leader
    → (s1.nodes a).m_current_term ≡ (s2.nodes b).m_current_term
    → a ≡ b
unfolding After AllGrow
one_leader size s s1 s2 a b odd small first run1 run2 lta ltb la lb same =
    let (bound1, inv1, _) = moves size s s1 (λ u term. no_node) small run1 (initial size s first) in
    let (bound2, inv2, grows) = moves size s1 s2 bound1 small run2 inv1 in
    same_candidate size bound2 (s2.nodes b).m_current_term a b odd
      (Elected-mono size bound1 bound2 (s2.nodes b).m_current_term a grows (omega arith)
        (rw (← same) (inv1.leaders a lta la)))
      (inv2.leaders b ltb lb)
