-- ===== src/Raft/Quorum.antt =====
-- Majorities: the number of votes and of replicas that raft/raft_node.cpp asks for.
use c_rpc.Base.{
  ℕ, zero, suc, ◌+◌, ◌/◌, ◌%◌, ◌≤◌, ◌<◌, ◌≡◌, refl, Bool, true, false, not, ◌&&◌, ◌||◌, ◌==◌, ltb,
  leb, if◌then◌else◌, arith, ap, ◌∙◌, count, count_overlap,
}
use native.Mathlib.Numerals.{add-one}
use native.Mathlib.Nat.{add-zero, add-suc}
use c_rpc.Raft.Leader.{quorum, commit_loop}

-- How many of the `left` nodes from `i` on satisfy `p`, in the order of the loop.
abbrev count_from : (ℕ → Bool) → ℕ → ℕ → ℕ
count_from p i zero = 0
count_from p i (suc left) = (if p i then 1 else 0) + count_from p (i + 1) left

-- The nodes that hold the entry `last_index`.
abbrev pub holds : (ℕ → ℕ) → ℕ → ℕ → ℕ → Bool
holds matches id last_index i = (i == id) || leb last_index (matches i)

commit_loop-count_from :
    (matches : ℕ → ℕ) (id last_index needed i left vote : ℕ)
    → vote < needed
    → commit_loop matches id last_index needed i left vote
      ≡ leb needed (vote + count_from (holds matches id last_index) i left)
unfolding commit_loop
commit_loop-count_from matches id last_index needed i zero vote h = ground arith
commit_loop-count_from matches id last_index needed i (suc left) vote h = ground (
  arith,
  commit_loop-count_from matches id last_index needed (i + 1) left vote,
  commit_loop-count_from matches id last_index needed (i + 1) left (vote + 1),
)

count-step : (p : ℕ → Bool) (i : ℕ) → count p (i + 1) ≡ (if p i then suc (count p i) else count p i)
count-step p i = rw (add-one i) refl

count_from-count :
    (p : ℕ → Bool) (i left n : ℕ) → i + left ≡ n → count p i + count_from p i left ≡ count p n
count_from-count p i zero n e = rw (← e, add-zero i) (omega arith)
count_from-count p i (suc left) n e =
    ground (arith, count-step p i, count_from-count p (i + 1) left n (omega arith))

-- The loop breaks off to commit exactly if the leader and the nodes whose match index has reached
-- the entry are, together, as many as needed.
pub commit_loop-count :
    (matches : ℕ → ℕ) (id last_index needed n : ℕ)
    → 0 < needed
    → commit_loop matches id last_index needed 0 n 0
      ≡ leb needed (count (holds matches id last_index) n)
commit_loop-count matches id last_index needed n h =
    commit_loop-count_from matches id last_index needed 0 n 0 h
    ∙ ap (leb needed) (count_from-count (holds matches id last_index) 0 n n (omega arith))

-- With an odd number of nodes any two quorums, of voters or of replicas, have a node in common.
pub quorum_overlap :
    (n : ℕ) (p q : ℕ → Bool)
    → n % 2 ≡ 1
    → quorum n ≤ count p n
    → quorum n ≤ count q n
    → (i : ℕ) × (i < n) × (p i ≡ true) × (q i ≡ true)
unfolding quorum
quorum_overlap n p q odd hp hq = count_overlap p q n (omega arith)

count-ltb : (k n : ℕ) → n ≤ k → count (λ i. ltb i k) n ≡ n
count-ltb k zero h = refl
count-ltb k (suc n) h = ground (arith, count-ltb k n)

count-split : (p : ℕ → Bool) (n : ℕ) → count p n + count (λ i. not (p i)) n ≡ n
count-split p zero = omega arith
count-split p (suc n) = ground (arith, count-split p n)

count-ltb_beyond : (k d : ℕ) → count (λ i. ltb i k) (k + d) ≡ k
count-ltb_beyond k zero = rw (add-zero k) (count-ltb k k (omega arith))
count-ltb_beyond k (suc d) = rw (add-suc k d) (ground (arith, count-ltb_beyond k d))

-- With an even number of nodes there are two quorums that have no node in common, so two candidates
-- can win the same term.
pub quorum_split :
    (n : ℕ)
    → n % 2 ≡ 0
    → (p : ℕ → Bool) × (q : ℕ → Bool) × (quorum n ≤ count p n)
      × (quorum n ≤ count q n)
      × ((i : ℕ) → (p i && q i) ≡ false)
unfolding quorum
quorum_split n even = (
  λ i. ltb i (n / 2),
  λ i. not (ltb i (n / 2)),
  omega (arith, half),
  omega (arith, half, count-split (λ i. ltb i (n / 2)) n),
  λ i. ground arith,
)
  where
    half : count (λ i. ltb i (n / 2)) n ≡ n / 2
    half = ap (count (λ i. ltb i (n / 2))) (omega arith) ∙ count-ltb_beyond (n / 2) (n / 2)
