-- ===== src/Raft/Leader.antt =====
-- The sections of raft/raft_node.cpp in which a candidate counts its votes and a leader replicates
-- its log.
use c_rpc.Base.{
  ℕ, zero, suc, ◌+◌, ◌-◌, ◌/◌, ◌^◌, List, [], ◌∷◌, ◌++◌, max, Bool, true, false, not, ◌==◌, ltb,
  leb, str_eq, ◌&&◌, if◌then◌else◌,
}
use c_rpc.Raft.Config.{
  RaftVoteRets, Entry, AppendEntriesParams, AppendEntriesRets, default_entry, op_null, op_no_op,
  op_heartbeat,
}
use c_rpc.Raft.Logger.{get_commit_index, set_commit_index, get_last_index, get_entry, append_local}
use c_rpc.Raft.Node.{
  leader, Section, ◌>>=◌, ◌>>◌, pure, get, modify, lock, unlock, on_logger, is_leader, is_candidate,
  become_follower, u64, no_node,
}

-- `((uint64_t)m_nodes.size() + 1) / 2`
unfoldable pub quorum : ℕ → ℕ
quorum nodes = (nodes + 1) / 2

-- The ids below `n` but that of the node itself.
unfoldable pub remote_ids : ℕ → ℕ → List ℕ
remote_ids id zero = []
remote_ids id (suc i) = let rest = remote_ids id i in if i == id then rest else rest ++ i ∷ []

abbrev pub update : (ℕ → ℕ) → ℕ → ℕ → ℕ → ℕ
update f key value i = if i == key then value else f i

-- The loop in which a new leader sets up the indexes of the other nodes.
unfoldable pub reset_indexs : List ℕ → Section (Unit {0})
reset_indexs [] = pure tt
reset_indexs (i ∷ is) = do
  last_index ← on_logger get_last_index
  modify λ n. record n {
    m_next_indexs = update n.m_next_indexs i (u64 (last_index + 1));
    m_match_indexs = update n.m_match_indexs i 0;
  }
  reset_indexs is

-- startReplicateLog: a coroutine for each other node.
unfoldable pub start_replicate_log : Section (Unit {0})
start_replicate_log =
    modify λ n. record n { m_replicators = n.m_replicators ++ remote_ids n.m_id n.m_nodes }

-- The candidate has a majority: it leads, and its first entry is a "no-op".
unfoldable pub become_leader : Section (Unit {0})
become_leader = do
  modify λ n. record n { election_stoped = true; m_state = leader; m_leader_id = n.m_id }
  n ← get
  reset_indexs (remote_ids n.m_id n.m_nodes)
  n ← get
  index ← on_logger (append_local (record default_entry { op = op_no_op; term = n.m_current_term }))
  modify λ n. record n { heartbeat_stoped = false }
  start_replicate_log

-- A vote has come back; `granted` is `*grantedVotes`, and the result its new value.
unfoldable pub on_vote_reply : RaftVoteRets → ℕ → Section ℕ
unfolding lock unlock become_follower
on_vote_reply result granted = do
  lock
  n ← get
  if (n.m_current_term == result.term) && is_candidate n.m_state
      then if result.vote_granted
        then if leb (quorum n.m_nodes) (granted + 1)
          then (do become_leader; unlock; pure (granted + 1))
          else (do unlock; pure (granted + 1))
        else (do unlock; pure granted)
      else do
        modify (λ n.
            if ltb n.m_current_term result.term then become_follower result.term no_node n else n)
        unlock
        pure granted

-- How a round of replicateLog, or of the heartbeat, goes on.
pub data Round : Type 0 where
  stop : Round
  retry : Round
  send : AppendEntriesParams → Round

-- The request for `entry` to the node `node_id`. An index is a uint64_t: 0 - 1 wraps.
unfoldable pub request_for : ℕ → Entry → Section AppendEntriesParams
request_for node_id entry = do
  n ← get
  commit ← on_logger get_commit_index
  let prev = u64 (n.m_next_indexs node_id + (2 ^ 64 - 1))
  prev_entry ← on_logger (get_entry prev)
  pure (record {
    term = n.m_current_term;
    leader_id = n.m_id;
    prev_log_index = prev;
    prev_log_term = prev_entry.term;
    entry = entry;
    leader_commit = commit;
  })

-- The first section of a round of replicateLog.
unfoldable pub prepare_append : ℕ → Section Round
unfolding lock unlock
prepare_append node_id = do
  lock
  n ← get
  if is_leader n.m_state
      then (do
        entry ← on_logger (get_entry (n.m_next_indexs node_id))
        if str_eq entry.op op_null
            then (do unlock; pure retry)
            else (do request ← request_for node_id entry; unlock; pure (send request)))
      else (do unlock; pure stop)

-- The section of the heartbeat for one node.
unfoldable pub prepare_heartbeat : ℕ → Section Round
unfolding lock unlock
prepare_heartbeat node_id = do
  lock
  n ← get
  if is_leader n.m_state
      then (do
        request ← request_for node_id (record default_entry { op = op_heartbeat })
        unlock
        pure (send request))
      else (do unlock; pure stop)

-- The loop that counts the nodes which hold the entry `last_index`, from node `i` on with `left`
-- nodes to go: whether it breaks off to commit.
unfoldable pub commit_loop : (ℕ → ℕ) → ℕ → ℕ → ℕ → ℕ → ℕ → ℕ → Bool
commit_loop matches id last_index needed i zero vote = false
commit_loop matches id last_index needed i (suc left) vote =
    let vote' =
      if i == id then vote + 1 else if leb last_index (matches i) then vote + 1 else vote in
    let rest = commit_loop matches id last_index needed (i + 1) left vote' in
    if leb needed vote' then true else rest

-- The entry was taken: the indexes of the node, and the commit index if a majority has the entry.
unfoldable pub entry_accepted : ℕ → Section Round
entry_accepted node_id = do
  modify λ n. record n {
    m_next_indexs = update n.m_next_indexs node_id (u64 (n.m_next_indexs node_id + 1));
  }
  modify λ n. record n {
    m_match_indexs = update n.m_match_indexs node_id (u64 (n.m_next_indexs node_id + (2 ^ 64 - 1)));
  }
  n ← get
  let last_index = n.m_match_indexs node_id
  if commit_loop n.m_match_indexs n.m_id last_index (quorum n.m_nodes) 0 n.m_nodes 0
      then (do
        commit ← on_logger get_commit_index
        on_logger (set_commit_index (max last_index commit))
        unlock
        pure retry)
      else (do unlock; pure retry)

-- The reply has come: the second section of a round of replicateLog.
unfoldable pub on_append_reply : ℕ → AppendEntriesRets → Section Round
unfolding lock unlock become_follower
on_append_reply node_id result = do
  lock
  n ← get
  if not (is_leader n.m_state)
      then (do unlock; pure stop)
      else if ltb n.m_current_term result.term
      then (do modify (become_follower result.term no_node); unlock; pure stop)
      else if ltb result.term n.m_current_term
      then (do unlock; pure retry)
      else if not result.success
      then (do
        modify (λ n.
            if ltb 1 (n.m_next_indexs node_id)
            then record n {
              m_next_indexs = update n.m_next_indexs node_id (n.m_next_indexs node_id - 1);
            }
            else n)
        unlock
        pure stop)
      else entry_accepted node_id
