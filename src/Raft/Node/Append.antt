-- ===== src/Raft/Node/Append.antt =====
-- appendEntries of raft/raft_node.cpp.
use c_rpc.Base.{
  ℕ, suc, ◌≤◌, ◌<◌, ◌≡◌, ◌≢◌, ◌⊎◌, inr, refl, ap, ◌∙◌, min, length, take, [], ◌∷◌, ◌++◌, Bool, true,
  false, ◌==◌, if◌then◌else◌, str_eq, arith,
}
use c_rpc.Raft.Config.{AppendEntriesParams, AppendEntriesRets, op_heartbeat}
use c_rpc.Raft.Outcome.{Outcome, done, blocked, release}
use c_rpc.Raft.Logger.{
  RaftLogger, entry_at, last_entry, append_entry, get_last_index, set_commit_index, locked,
}
use c_rpc.Raft.Logger.Applied.{released}
use c_rpc.Raft.Logger.Indexed.{IsIndexed, Free, append_entry_lem}
use c_rpc.Raft.Node.{
  ◌>>=◌, RaftNode, follower, append_entries, follow, on_logger, append_checked, reply_append, lock,
  unlock,
}

-- The caller can take both mutexes.
pub record Available (me : ℕ) (n : RaftNode) : Type 0 where
  pub raft : (n.m_raft_mutex ≡ me) ⊎ (n.m_raft_mutex ≡ 0)
  pub logger : Free me n.m_raft_logger

-- A request of an earlier term is refused, and changes nothing but the mutex, which is free again.
pub append_entries-stale :
    (me random : ℕ) (params : AppendEntriesParams) (n : RaftNode)
    → Available me n
    → params.term < n.m_current_term
    → append_entries params random me n
      ≡ done (record { success = false; term = n.m_current_term }, record n { m_raft_mutex = 0 })
unfolding append_entries
append_entries-stale me random params n h lt = ground arith

-- The node after the changes that every request of a current term makes: the state and the election
-- timer, and the commit index, which is set to the leader's or to the last index of the log, the
-- lower of the two, whatever it was before.
abbrev pub followed : AppendEntriesParams → ℕ → RaftNode → RaftNode
followed params random n =
    let n' = follow params random n in
    record n' {
      m_raft_mutex = 0;
      m_raft_logger = record n.m_raft_logger {
        m_mutex = 0;
        m_commit_index = min params.leader_commit (last_entry n.m_raft_logger.m_entries).index;
      };
    }

-- A heartbeat of a current term is accepted with these changes, and no other.
pub append_entries-heartbeat :
    (me random : ℕ) (params : AppendEntriesParams) (n : RaftNode)
    → Available me n
    → n.m_current_term ≤ params.term
    → str_eq params.entry.op op_heartbeat ≡ true
    → append_entries params random me n
      ≡ done (
        record { success = true; term = (follow params random n).m_current_term },
        followed params random n,
      )
unfolding append_entries get_last_index set_commit_index locked
append_entries-heartbeat me random params n h le hb = ground arith

-- The logger as it stands when the entry of the request is appended.
abbrev committed : AppendEntriesParams → RaftNode → RaftLogger
committed params n = record n.m_raft_logger {
  m_mutex = 0;
  m_commit_index = min params.leader_commit (last_entry n.m_raft_logger.m_entries).index;
}

-- What appendEntries does with an entry that is no heartbeat, once the changes above are made.
append_entries-checked :
    (me random : ℕ) (params : AppendEntriesParams) (n : RaftNode)
    → Available me n
    → n.m_current_term ≤ params.term
    → str_eq params.entry.op op_heartbeat ≡ false
    → append_entries params random me n
      ≡ append_checked params me (record (followed params random n) {
        m_raft_mutex = me;
        m_raft_logger = committed params n;
      })
unfolding append_entries get_last_index set_commit_index locked
append_entries-checked me random params n h le hb = ground arith

module _ (params : AppendEntriesParams) (me : ℕ) (n : RaftNode) where
  abbrev appends : Outcome (Bool × RaftLogger)
  appends = append_entry params.entry params.prev_log_index params.prev_log_term me n.m_raft_logger

  called :
      {b : Bool} {l : RaftLogger}
      → appends ≡ done (b, l)
      → on_logger (append_entry params.entry params.prev_log_index params.prev_log_term) me n
        ≡ done (b, record n { m_raft_logger = l })
  unfolding on_logger
  called e = rw (e, on_logger)

  append_checked-true :
      {l : RaftLogger}
      → appends ≡ done (true, l)
      → append_checked params me n
        ≡ done (
          record { success = true; term = n.m_current_term },
          record n { m_raft_mutex = release me n.m_raft_mutex; m_raft_logger = l },
        )
  unfolding append_checked reply_append unlock
  append_checked-true e = rw (called e, append_checked, ◌>>=◌)

  append_checked-false :
      {l : RaftLogger}
      → appends ≡ done (false, l)
      → append_checked params me n
        ≡ done (record { success = false; term = n.m_current_term }, record n { m_raft_logger = l })
  unfolding append_checked
  append_checked-false e = rw (called e, append_checked, ◌>>=◌)

module _ (me random : ℕ) (params : AppendEntriesParams) (n : RaftNode) (h : Available me n)
    (indexed : IsIndexed n.m_raft_logger) (le : n.m_current_term ≤ params.term)
    (hb : str_eq params.entry.op op_heartbeat ≡ false)
    (lt : params.prev_log_index < length n.m_raft_logger.m_entries) where
  appended :
      append_entry params.entry params.prev_log_index params.prev_log_term me (committed params n)
      ≡ (if (entry_at n.m_raft_logger.m_entries params.prev_log_index).term == params.prev_log_term
          then done (
            true,
            record (committed params n) {
              m_mutex = 0;
              m_entries =
                  take (suc params.prev_log_index) n.m_raft_logger.m_entries ++ params.entry ∷ [];
            },
          )
          else done (false, record (committed params n) { m_mutex = me }))
  appended =
      append_entry_lem me params.prev_log_index params.prev_log_term params.entry
        (committed params n) (record { not_empty = indexed.not_empty; numbered = indexed.numbered })
        (inr refl) lt

  same :
      (entry_at n.m_raft_logger.m_entries params.prev_log_index).term ≡ params.prev_log_term
      → ((entry_at n.m_raft_logger.m_entries params.prev_log_index).term == params.prev_log_term)
        ≡ true
  same e = ground arith

  differs :
      (entry_at n.m_raft_logger.m_entries params.prev_log_index).term ≢ params.prev_log_term
      → ((entry_at n.m_raft_logger.m_entries params.prev_log_index).term == params.prev_log_term)
        ≡ false
  differs e = ground arith

  appended-true :
      (entry_at n.m_raft_logger.m_entries params.prev_log_index).term ≡ params.prev_log_term
      → append_entry params.entry params.prev_log_index params.prev_log_term me (committed params n)
        ≡ done (
          true,
          record (committed params n) {
            m_mutex = 0;
            m_entries =
                take (suc params.prev_log_index) n.m_raft_logger.m_entries ++ params.entry ∷ [];
          },
        )
  appended-true e = rw (appended, same e)

  appended-false :
      (entry_at n.m_raft_logger.m_entries params.prev_log_index).term ≢ params.prev_log_term
      → append_entry params.entry params.prev_log_index params.prev_log_term me (committed params n)
        ≡ done (false, record (committed params n) { m_mutex = me })
  appended-false e = rw (appended, differs e)

  -- Where the log has an entry of the given term at the given place, the request is accepted: the
  -- log is cut behind that place and the entry put there, both mutexes are free.
  pub append_entries-match :
      (entry_at n.m_raft_logger.m_entries params.prev_log_index).term ≡ params.prev_log_term
      → append_entries params random me n
        ≡ done (
          record { success = true; term = (follow params random n).m_current_term },
          record (followed params random n) {
            m_raft_logger = record (committed params n) {
              m_entries =
                  take (suc params.prev_log_index) n.m_raft_logger.m_entries ++ params.entry ∷ [];
            };
          },
        )
  append_entries-match e =
      append_entries-checked me random params n h le hb
      ∙ append_checked-true params me _ (appended-true e)
      ∙ ap
          (λ owner. done (
            record { success = true; term = (follow params random n).m_current_term },
            record (followed params random n) {
              m_raft_mutex = owner;
              m_raft_logger = record (committed params n) {
                m_entries =
                    take (suc params.prev_log_index) n.m_raft_logger.m_entries ++ params.entry ∷ [];
              };
            },
          ))
          (released me)

  -- Where it has an entry of another term there, the request is refused and the log kept, but the
  -- call returns with both mutexes still held.
  pub append_entries-mismatch :
      (entry_at n.m_raft_logger.m_entries params.prev_log_index).term ≢ params.prev_log_term
      → append_entries params random me n
        ≡ done (
          record { success = false; term = (follow params random n).m_current_term },
          record (followed params random n) {
            m_raft_mutex = me;
            m_raft_logger = record (committed params n) { m_mutex = me };
          },
        )
  append_entries-mismatch e =
      append_entries-checked me random params n h le hb
      ∙ append_checked-false params me _ (appended-false e)

-- A node whose mutexes can be taken, with a numbered log, gets a request that is no heartbeat, of a term
-- that is not behind its own, and has at the place before the new entry an entry of another term than the
-- request says. Once the call has returned, no other coroutine can take the mutex of the node.
pub append_entries-blocks :
    (me other random : ℕ) (params : AppendEntriesParams) (n n' : RaftNode)
    (rets : AppendEntriesRets)
    → Available me n
    → IsIndexed n.m_raft_logger
    → n.m_current_term ≤ params.term
    → str_eq params.entry.op op_heartbeat ≡ false
    → params.prev_log_index < length n.m_raft_logger.m_entries
    → (entry_at n.m_raft_logger.m_entries params.prev_log_index).term ≢ params.prev_log_term
    → append_entries params random me n ≡ done (rets, n')
    → other ≢ me
    → me ≢ 0
    → lock other n' ≡ blocked
unfolding lock
append_entries-blocks me other random params n n' rets h indexed le hb lt ne e o z =
    ground (arith, e, append_entries-mismatch me random params n h indexed le hb lt ne)

-- A follower that does not know its leader does not learn it from a request of its own term.
pub follow-leader_unknown :
    (random : ℕ) (params : AppendEntriesParams) (n : RaftNode)
    → n.m_state ≡ follower
    → params.term ≡ n.m_current_term
    → (follow params random n).m_leader_id ≡ n.m_leader_id
unfolding follow
follow-leader_unknown random params n s t = ground arith
