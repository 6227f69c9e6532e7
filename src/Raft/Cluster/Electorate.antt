-- ===== src/Raft/Cluster/Electorate.antt =====
-- The votes of all nodes of a cluster and what its elections, `startElection` of raft/raft_node.cpp,
-- know of them.
use c_rpc.Base.{
  count, count_mono, count_more, count_some, ℕ, ◌+◌, ◌≤◌, ◌<◌, ◌≡◌, ◌≢◌, ◌⊎◌, inl, inr, Bool, true,
  false, Bool-cases, ◌==◌, ◌||◌, arith,
}
use c_rpc.Raft.Config.{RaftVoteParams, RaftVoteRets}
use c_rpc.Raft.Node.{no_node}
use c_rpc.Raft.Leader.{quorum}
use c_rpc.Raft.Cluster.{Election, Answer, asked, replied, closed, with_answer}
use c_rpc.Raft.Cluster.Voter.{Grows}

-- A quorum of the nodes is bound to `v` in the term.
unfoldable pub Elected : ℕ → (ℕ → ℕ → ℕ) → ℕ → ℕ → Type 0
Elected size votes term v = quorum size ≤ count (λ u. votes u term == v) size

pub Elected-mono :
    (size : ℕ) (votes votes' : ℕ → ℕ → ℕ) (term v : ℕ)
    → ((u : ℕ) → Grows (votes u) (votes' u))
    → v ≢ no_node
    → Elected size votes term v
    → Elected size votes' term v
unfolding Elected Grows
Elected-mono size votes votes' term v grows node h = omega (
  arith,
  h,
  count_mono (λ u. votes u term == v) (λ u. votes' u term == v) size
      (λ u lt e. ground (arith, grows u term)),
)

abbrev pub is_granted : Answer → Bool
is_granted asked = false
is_granted (replied rets) = false
is_granted (closed rets) = rets.vote_granted

-- The votes that the candidate has counted: its own and the granted ones that came back.
abbrev pub counted_for : Election → ℕ → Bool
counted_for e v = (v == e.request.candidate_id) || is_granted (e.answers v)

-- What holds of an election: the votes are the candidate's in every term, and a granted answer is
-- true for good.
pub record IsElection (size : ℕ) (votes : ℕ → ℕ → ℕ) (e : Election) : Type 0 where
  pub candidate_lt : e.request.candidate_id < size
  pub granted :
      (v : ℕ) (rets : RaftVoteRets)
      → (e.answers v ≡ replied rets) ⊎ (e.answers v ≡ closed rets)
      → rets.vote_granted ≡ true
      → (v < size)
        × (v ≢ e.request.candidate_id)
        × (rets.term ≡ e.request.term)
        × (votes v e.request.term ≡ e.request.candidate_id)
  pub counted : e.granted_votes ≤ count (counted_for e) size

pub IsElection-mono :
    (size : ℕ) (votes votes' : ℕ → ℕ → ℕ) (e : Election)
    → size < no_node
    → ((u : ℕ) → Grows (votes u) (votes' u))
    → IsElection size votes e
    → IsElection size votes' e
unfolding Grows
IsElection-mono size votes votes' e small grows h = record {
  candidate_lt = h.candidate_lt;
  granted =
      λ v rets a g. ground (arith, h.granted v rets a g, h.candidate_lt, grows v e.request.term);
  counted = h.counted;
}

-- A new election has the vote of its candidate.
pub new-IsElection :
    (size : ℕ) (votes : ℕ → ℕ → ℕ) (params : RaftVoteParams)
    → params.candidate_id < size
    → IsElection size votes (record { request = params; granted_votes = 1; answers = λ v. asked })
new-IsElection size votes params lt = record {
  candidate_lt = lt;
  granted = λ v rets a g. absurd (ground (arith, a));
  counted = count_some _ params.candidate_id size lt (ground arith);
}

-- A vote is given.
pub vote_given :
    (size : ℕ) (votes : ℕ → ℕ → ℕ) (e : Election) (v : ℕ) (rets : RaftVoteRets)
    → e.answers v ≡ asked
    → (rets.vote_granted ≡ true
        → (v < size)
          × (v ≢ e.request.candidate_id)
          × (rets.term ≡ e.request.term)
          × (votes v e.request.term ≡ e.request.candidate_id))
    → IsElection size votes e
    → IsElection size votes (with_answer e v (replied rets) e.granted_votes)
vote_given size votes e v rets fresh given h = record {
  candidate_lt = h.candidate_lt;
  granted = λ u r a g. ground (arith, a, g, h.granted u r, given);
  counted = omega (
    arith,
    h.counted,
    count_mono (counted_for e) (counted_for (with_answer e v (replied rets) e.granted_votes)) size
        (λ i lt on. ground (arith, fresh, on)),
  );
}

-- A vote is counted.
pub vote_counted :
    (size : ℕ) (votes : ℕ → ℕ → ℕ) (e : Election) (v granted_votes : ℕ) (rets : RaftVoteRets)
    → e.answers v ≡ replied rets
    → (granted_votes ≡ e.granted_votes)
      ⊎ ((granted_votes ≡ e.granted_votes + 1) × (rets.vote_granted ≡ true))
    → IsElection size votes e
    → IsElection size votes (with_answer e v (closed rets) granted_votes)
vote_counted size votes e v granted_votes rets came up h = record {
  candidate_lt = h.candidate_lt;
  granted = λ u r a g. ground (arith, a, g, came, h.granted u r);
  counted = elim (Bool-cases rets.vote_granted) [
    | inl yes_ ↦ omega (
      arith,
      up,
      h.counted,
      count_more (counted_for e) (counted_for (with_answer e v (closed rets) granted_votes)) v size
          (ground (arith, h.granted v rets, came, yes_)) (λ i lt on. ground (arith, came, on))
          (ground (arith, h.granted v rets, came, yes_)) (ground arith),
    )
    | inr no_ ↦ ground (
      arith,
      up,
      h.counted,
      count_mono (counted_for e) (counted_for (with_answer e v (closed rets) granted_votes)) size
          (λ i lt on. ground (arith, came, on)),
    )
  ];
}
