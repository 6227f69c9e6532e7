-- ===== src/Raft/Win.antt =====
-- A candidate of raft/raft_node.cpp that has the votes of a quorum comes to lead.
use c_rpc.Base.{
  ℕ, zero, suc, ◌+◌, ◌≤◌, ◌≡◌, ◌⊎◌, inl, inr, refl, ap, ◌∙◌, List, [], ◌∷◌, ◌++◌, length, true,
  false, Bool-cases, ◌==◌, ltb, not, ◌&&◌, if◌then◌else◌, arith,
}
use std.Path.{fun_ext}
use c_rpc.Raft.Config.{RaftVoteRets, default_entry, op_no_op}
use c_rpc.Raft.Outcome.{done, acquire, release}
use c_rpc.Raft.Logger.{last_entry, get_last_index, locked}
use c_rpc.Raft.Logger.Indexed.{IsIndexed, with_local, append_local_run, last_entry-index}
use c_rpc.Raft.Node.{RaftNode, ◌>>=◌, candidate, leader, unlock, on_logger, u64}
use c_rpc.Raft.Sections.{lock-taken}
use c_rpc.Raft.Leader.{
  on_vote_reply, become_leader, reset_indexs, start_replicate_log, remote_ids, quorum, update,
}

-- The indexes of the other nodes behind the loop.
abbrev updated : (ℕ → ℕ) → List ℕ → ℕ → ℕ → ℕ
updated f [] value = f
updated f (i ∷ is) value = updated (update f i value) is value

get_last_index_run :
    (me : ℕ) (n : RaftNode)
    → n.m_raft_logger.m_mutex ≡ 0
    → on_logger get_last_index me n ≡ done ((last_entry n.m_raft_logger.m_entries).index, n)
unfolding on_logger get_last_index locked acquire release
get_last_index_run me n free = ground arith

updated-snoc :
    (f : ℕ → ℕ) (is : List ℕ) (j value : ℕ)
    → updated f (is ++ j ∷ []) value ≡ update (updated f is value) j value
updated-snoc f [] j value = refl
updated-snoc f (i ∷ is) j value = updated-snoc (update f i value) is j value

-- A change of the values of all nodes below `n` but that of the node itself.
abbrev of_others : ℕ → ℕ → ℕ → (ℕ → ℕ) → ℕ → ℕ
of_others id n value f i = if ltb i n && not (i == id) then value else f i

updated-remote_ids :
    (id n value : ℕ) (f : ℕ → ℕ) (i : ℕ)
    → updated f (remote_ids id n) value i ≡ of_others id n value f i
unfolding remote_ids
updated-remote_ids id zero value f i = ground arith
updated-remote_ids id (suc j) value f i = elim (Bool-cases (j == id)) [
  | inl own ↦ rw own (ground (arith, updated-remote_ids id j value f i))
  | inr other ↦
      rw (other, updated-snoc f (remote_ids id j) j value)
        (ground (arith, updated-remote_ids id j value f i))
]

reset_indexs_lem :
    (is : List ℕ) (me : ℕ) (n : RaftNode)
    → n.m_raft_logger.m_mutex ≡ 0
    → reset_indexs is me n
      ≡ done (
        tt,
        record n {
          m_next_indexs =
              updated n.m_next_indexs is (u64 ((last_entry n.m_raft_logger.m_entries).index + 1));
          m_match_indexs = updated n.m_match_indexs is 0;
        },
      )
unfolding reset_indexs
reset_indexs_lem [] me n free = refl
reset_indexs_lem (i ∷ is) me n free =
    rw (get_last_index_run me n free, ◌>>=◌) (reset_indexs_lem is me _ free)

reset_others :
    (id nodes me : ℕ) (n : RaftNode)
    → n.m_raft_logger.m_mutex ≡ 0
    → reset_indexs (remote_ids id nodes) me n
      ≡ done (
        tt,
        record n {
          m_next_indexs =
              of_others id nodes
                (u64 ((last_entry n.m_raft_logger.m_entries).index + 1))
                n.m_next_indexs;
          m_match_indexs = of_others id nodes 0 n.m_match_indexs;
        },
      )
reset_others id nodes me n free =
    rw
      (
        ← fun_ext (
            updated-remote_ids id nodes (u64 ((last_entry n.m_raft_logger.m_entries).index + 1))
              n.m_next_indexs),
        ← fun_ext (updated-remote_ids id nodes 0 n.m_match_indexs),
      )
      (reset_indexs_lem (remote_ids id nodes) me n free)

-- The candidate that leads: its log has a "no-op" of its term, and replication to each of the others
-- starts with the entry `next_index`.
abbrev pub won : ℕ → RaftNode → RaftNode
won next_index n = record n {
  m_raft_mutex = 0;
  m_state = leader;
  m_leader_id = n.m_id;
  election_stoped = true;
  heartbeat_stoped = false;
  m_next_indexs = of_others n.m_id n.m_nodes (u64 next_index) n.m_next_indexs;
  m_match_indexs = of_others n.m_id n.m_nodes 0 n.m_match_indexs;
  m_replicators = n.m_replicators ++ remote_ids n.m_id n.m_nodes;
  m_raft_logger =
      with_local (record default_entry { op = op_no_op; term = n.m_current_term }) n.m_raft_logger;
}

become_leader_lem :
    (me : ℕ) (n : RaftNode)
    → n.m_raft_logger.m_mutex ≡ 0
    → IsIndexed n.m_raft_logger
    → become_leader me n
      ≡ done (
        tt,
        record (won ((last_entry n.m_raft_logger.m_entries).index + 1) n) {
          m_raft_mutex = n.m_raft_mutex;
        },
      )
unfolding become_leader start_replicate_log on_logger
become_leader_lem me n free indexed =
    rw
      (
        reset_others n.m_id n.m_nodes me
            (record n { election_stoped = true; m_state = leader; m_leader_id = n.m_id }) free,
        ◌>>=◌,
        append_local_run me (record default_entry { op = op_no_op; term = n.m_current_term })
            n.m_raft_logger indexed (inr free),
      )
      refl

-- A candidate that has the granted answers of a quorum, its own vote included, comes to lead at once:
-- it stops its election timer and starts its heartbeat, its numbered log gets a "no-op" of its term,
-- and the replication to each of the other nodes starts, with that entry as the next.
-- Whoever can take the node's mutex finds the logger's free, and all are free in the end.
pub on_vote_reply-leads :
    (result : RaftVoteRets) (granted me : ℕ) (n : RaftNode)
    → (n.m_raft_mutex ≡ me) ⊎ (n.m_raft_mutex ≡ 0)
    → n.m_raft_logger.m_mutex ≡ 0
    → IsIndexed n.m_raft_logger
    → n.m_state ≡ candidate
    → n.m_current_term ≡ result.term
    → result.vote_granted ≡ true
    → quorum n.m_nodes ≤ granted + 1
    → on_vote_reply result granted me n
      ≡ done (granted + 1, won (length n.m_raft_logger.m_entries) n)
unfolding on_vote_reply unlock release
on_vote_reply-leads result granted me n mutex free indexed state term yes_ enough =
    run ∙ ap (λ i. done (granted + 1, won i n)) (last_entry-index n.m_raft_logger indexed)
  where
    run :
        on_vote_reply result granted me n
        ≡ done (granted + 1, won ((last_entry n.m_raft_logger.m_entries).index + 1) n)
    run = ground (
      arith,
      lock-taken me n mutex,
      become_leader_lem me (record n { m_raft_mutex = me }) free indexed,
    )
