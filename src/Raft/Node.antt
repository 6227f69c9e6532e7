-- ===== src/Raft/Node.antt =====
-- `RaftNode` of raft/raft_node.h and raft_node.cpp: the handlers of the two remote calls, and the
-- sections under `m_raft_mutex` of the coroutines that elect a leader and replicate its log. What
-- stands between two sections (sending, waiting for the reply) may interleave with any others.
pub mod Vote
pub mod Append
use c_rpc.Base.{
  ℕ, zero, suc, ◌+◌, ◌-◌, ◌/◌, ◌%◌, ◌^◌, List, [], ◌∷◌, ◌++◌, min, max, Bool, true, false, not,
  ◌==◌, ltb, leb, str_eq, ◌&&◌, ◌||◌, if◌then◌else◌,
}
use c_rpc.Raft.Config.{
  RaftVoteParams, RaftVoteRets, Entry, AppendEntriesParams, AppendEntriesRets, default_entry,
  op_null, op_no_op, op_heartbeat,
}
use c_rpc.Raft.Outcome.{Outcome, done, blocked, fault, acquire, release}
use c_rpc.Raft.Logger.{
  RaftLogger, Method, is_newer, get_commit_index, set_commit_index, get_last_term, get_last_index,
  get_entry, append_entry, append_local,
}

pub data RaftState : Type 0 where
  follower candidate leader : RaftState

-- A uint64_t. `-1` stands for no node.
abbrev pub u64 : ℕ → ℕ
u64 n = n % 2 ^ 64

abbrev pub no_node : ℕ
no_node = 2 ^ 64 - 1

-- The maps of indexes are functions: a key that is missing reads as 0. Of the two timers, what the
-- node does to them: whether they are stopped, and the interval of the last `resetTime` of the
-- election timer. `m_replicators` are the nodes for which `replicateLog` was handed to the scheduler.
pub record RaftNode : Type 0 where
  pub m_raft_mutex : ℕ
  pub m_state : RaftState
  pub m_id : ℕ
  pub m_leader_id : ℕ
  pub m_current_term : ℕ
  pub m_voted_for : ℕ
  pub m_nodes : ℕ
  pub m_next_indexs : ℕ → ℕ
  pub m_match_indexs : ℕ → ℕ
  pub election_stoped : Bool
  pub election_interval : ℕ
  pub heartbeat_stoped : Bool
  pub m_replicators : List ℕ
  pub m_raft_logger : RaftLogger

-- A section of code: the coroutine that runs it, and what it returns with the node after it.
abbrev pub Section {ℓ} : Type ℓ → Type ℓ
Section A = ℕ → RaftNode → Outcome (A × RaftNode)

infixl 5 ◌>>=◌ ◌>>◌
abbrev pub ◌>>=◌ {ℓ κ} : {A : Type ℓ} {B : Type κ} → Section A → (A → Section B) → Section B
◌>>=◌ m f me n = elim (m me n) [ done (a, n') ↦ f a me n' | blocked ↦ blocked | fault ↦ fault ]

abbrev pub ◌>>◌ {ℓ} : {B : Type ℓ} → Section (Unit {0}) → Section B → Section B
m >> k = m >>= λ _. k

abbrev pub pure {ℓ} : {A : Type ℓ} → A → Section A
pure a me n = done (a, n)

abbrev pub get : Section RaftNode
get me n = done (n, n)

abbrev pub modify : (RaftNode → RaftNode) → Section (Unit {0})
modify f me n = done (tt, f n)

unfoldable pub lock : Section (Unit {0})
unfolding acquire
lock me n = elim (acquire me n.m_raft_mutex) [
  | done owner ↦ done (tt, record n { m_raft_mutex = owner })
  | blocked ↦ blocked
  | fault ↦ fault
]

unfoldable pub unlock : Section (Unit {0})
unfolding release
unlock me n = done (tt, record n { m_raft_mutex = release me n.m_raft_mutex })

-- A call of the logger.
unfoldable pub on_logger {ℓ} : {A : Type ℓ} → Method A → Section A
on_logger f me n = elim (f me n.m_raft_logger) [
  | done (a, l) ↦ done (a, record n { m_raft_logger = l })
  | blocked ↦ blocked
  | fault ↦ fault
]

abbrev pub is_leader : RaftState → Bool
is_leader leader = true
is_leader follower = false
is_leader candidate = false

abbrev pub is_candidate : RaftState → Bool
is_candidate candidate = true
is_candidate follower = false
is_candidate leader = false

-- A node that was the leader stops its heartbeat and wakes its election timer; then it follows in
-- the term `term`, without a vote.
unfoldable pub become_follower : ℕ → ℕ → RaftNode → RaftNode
become_follower term leader_id n = record n {
  election_stoped = if is_leader n.m_state then false else n.election_stoped;
  heartbeat_stoped = if is_leader n.m_state then true else n.heartbeat_stoped;
  m_state = follower;
  m_current_term = term;
  m_voted_for = no_node;
  m_leader_id = leader_id;
}

unfoldable pub reply_vote : Bool → Section RaftVoteRets
reply_vote granted = do
  n ← get
  unlock
  pure (record { term = n.m_current_term; vote_granted = granted })

-- raftVote. `random` is what `genRandom()` returns.
unfoldable pub raft_vote : RaftVoteParams → ℕ → Section RaftVoteRets
unfolding lock unlock become_follower reply_vote
raft_vote params random = do
  lock
  n ← get
  if ltb params.term n.m_current_term
        || ((params.term == n.m_current_term) && not (n.m_voted_for == params.candidate_id))
      then reply_vote false
      else do
        modify λ n.
            if ltb n.m_current_term params.term
            then become_follower params.term params.candidate_id n
            else n
        n ← get
        if not (is_newer params.last_log_term params.last_log_index n.m_raft_logger)
            then reply_vote false
            else do
              modify λ n. record n { m_voted_for = params.candidate_id; election_interval = random }
              reply_vote true

unfoldable pub reply_append : Bool → Section AppendEntriesRets
reply_append success = do
  n ← get
  unlock
  pure (record { success = success; term = n.m_current_term })

-- The end of appendEntries. After a mismatch it returns without `m_raft_mutex.unlock()`.
unfoldable pub append_checked : AppendEntriesParams → Section AppendEntriesRets
append_checked params = do
  appended ← on_logger (append_entry params.entry params.prev_log_index params.prev_log_term)
  n ← get
  if appended then reply_append true else pure (record { success = false; term = n.m_current_term })

-- The changes of state of appendEntries. `m_leaderId < 0` is a test of an unsigned number.
unfoldable pub follow : AppendEntriesParams → ℕ → RaftNode → RaftNode
unfolding become_follower
follow params random n =
    let n' =
      if ltb n.m_current_term params.term
        || ((params.term == n.m_current_term) && is_candidate n.m_state)
      then become_follower params.term params.leader_id n
      else n in
    record n' {
      m_leader_id = if ltb n'.m_leader_id 0 then params.leader_id else n'.m_leader_id;
      election_interval = random;
    }

-- appendEntries
unfoldable pub append_entries : AppendEntriesParams → ℕ → Section AppendEntriesRets
unfolding lock unlock on_logger follow reply_append append_checked
append_entries params random = do
  lock
  n ← get
  if ltb params.term n.m_current_term then reply_append false else do
    modify (follow params random)
    last_index ← on_logger get_last_index
    on_logger (set_commit_index (min params.leader_commit last_index))
    if str_eq params.entry.op op_heartbeat then reply_append true else append_checked params

-- The election timer has run out.
unfoldable pub election_timeout : Section Bool
unfolding lock unlock
election_timeout = do
  lock
  n ← get
  modify λ n. if is_leader n.m_state then n else record n {
    m_state = candidate;
    m_current_term = u64 (n.m_current_term + 1);
    m_voted_for = n.m_id;
    m_leader_id = no_node;
  }
  unlock
  pure (not (is_leader n.m_state))

-- The section of startElection: the request that goes to every other node.
unfoldable pub start_election : ℕ → Section RaftVoteParams
unfolding lock unlock on_logger
start_election random = do
  lock
  last_index ← on_logger get_last_index
  last_term ← on_logger get_last_term
  n ← get
  modify λ n. record n { m_voted_for = n.m_id; election_interval = random }
  unlock
  pure (record {
    term = n.m_current_term;
    candidate_id = n.m_id;
    last_log_index = last_index;
    last_log_term = last_term;
  })
