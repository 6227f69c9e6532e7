-- ===== src/Raft/Logger.antt =====
-- `RaftLogger` of raft/raft_logger.h. `m_addresses` is a reference to the table of the node, which
-- no handler that a message reaches writes to otherwise.
pub mod Indexed
pub mod Matching
pub mod Applied
use c_rpc.Base.{
  ℕ, zero, suc, ◌+◌, ◌-◌, ◌≡◌, List, [], ◌∷◌, ◌++◌, length, take, get_elem?, Option, none, some,
  Bool, true, false, ◌==◌, ltb, leb, str_eq, ◌&&◌, if◌then◌else◌,
}
use c_rpc.Raft.Config.{Entry, default_entry, op_null, op_no_op, op_register}
use c_rpc.Raft.Outcome.{Outcome, done, blocked, fault, acquire, release}
use c_rpc.Tables.{IpPort, Multimap, emplace}

pub record RaftLogger : Type 0 where
  pub m_mutex : ℕ
  pub m_entries : List Entry
  pub m_last_applied : ℕ
  pub m_commit_index : ℕ
  pub m_addresses : Multimap IpPort

-- A method: the coroutine that calls, and what it returns with the logger after it.
abbrev pub Method {ℓ} : Type ℓ → Type ℓ
Method A = ℕ → RaftLogger → Outcome (A × RaftLogger)

-- `m_mutex.lock(); … m_mutex.unlock();` round a body that returns.
unfoldable pub locked {ℓ} : {A : Type ℓ} → (RaftLogger → A × RaftLogger) → Method A
unfolding acquire release
locked body me l = elim (acquire me l.m_mutex) [
  | done owner ↦
      let (a, l') = body (record l { m_mutex = owner }) in
      done (a, record l' { m_mutex = release me l'.m_mutex })
  | blocked ↦ blocked
  | fault ↦ fault
]

-- `m_entries[i]`, for an `i` in range.
abbrev pub entry_at : List Entry → ℕ → Entry
entry_at [] i = default_entry
entry_at (e ∷ es) zero = e
entry_at (e ∷ es) (suc i) = entry_at es i

-- `m_entries[m_entries.size()-1]`: the constructor stores an entry, and none takes the last away.
abbrev pub last_entry : List Entry → Entry
last_entry es = entry_at es (length es - 1)

unfoldable pub new_logger : RaftLogger
new_logger = record {
  m_mutex = 0;
  m_entries = default_entry ∷ [];
  m_last_applied = 0;
  m_commit_index = 0;
  m_addresses = [];
}

unfoldable pub is_newer : ℕ → ℕ → RaftLogger → Bool
is_newer term index l =
    if ltb (last_entry l.m_entries).term term
    then true
    else if term == (last_entry l.m_entries).term
    then leb (last_entry l.m_entries).index index
    else false

unfoldable pub get_last_applied : Method ℕ
get_last_applied = locked λ l. (l.m_last_applied, l)

unfoldable pub get_commit_index : Method ℕ
get_commit_index = locked λ l. (l.m_commit_index, l)

unfoldable pub set_commit_index : ℕ → Method (Unit {0})
set_commit_index index = locked λ l. (tt, record l { m_commit_index = index })

unfoldable pub get_last_term : Method ℕ
get_last_term = locked λ l. ((last_entry l.m_entries).term, l)

unfoldable pub get_last_index : Method ℕ
get_last_index = locked λ l. ((last_entry l.m_entries).index, l)

unfoldable pub get_entry : ℕ → Method Entry
get_entry index = locked λ l. (
  if ltb index (length l.m_entries)
      then entry_at l.m_entries index
      else record default_entry { op = op_null },
  l,
)

unfoldable pub size : Method ℕ
size = locked λ l. (length l.m_entries, l)

-- The loop from the last entry down, for the entry with the index `prev`: the iterator, or `none`
-- once it stands before the first entry.
unfoldable pub scan_back : List Entry → ℕ → ℕ → Option ℕ
scan_back es prev zero = none
scan_back es prev (suc i) =
    let rest = scan_back es prev i in if (entry_at es i).index == prev then some i else rest

-- appendEntry(new_entry, prevLogIndex, prevLogTerm). Behind the loop `entry_iter->index` is read
-- also where the iterator stands before the first entry. On a mismatch the call returns without
-- `m_mutex.unlock()`.
unfoldable pub append_entry : Entry → ℕ → ℕ → Method Bool
unfolding acquire release
append_entry new_entry prev_log_index prev_log_term me l = elim (acquire me l.m_mutex) [
  | done owner ↦ elim (scan_back l.m_entries prev_log_index (length l.m_entries)) [
    | none ↦ fault
    | some i ↦
        let e = entry_at l.m_entries i in
        if (e.index == prev_log_index) && (e.term == prev_log_term)
        then done (
          true,
          record l {
            m_mutex = release me owner;
            m_entries = take (suc i) l.m_entries ++ new_entry ∷ [];
          },
        )
        else done (false, record l { m_mutex = owner })
  ]
  | blocked ↦ blocked
  | fault ↦ fault
]

-- appendEntry(new_entry) of a leader.
unfoldable pub append_local : Entry → Method ℕ
append_local new_entry = locked λ l.
    let index = (last_entry l.m_entries).index + 1 in
    (
      length l.m_entries,
      record l { m_entries = l.m_entries ++ record new_entry { index = index } ∷ [] },
    )

-- One round of the coroutine that applies the log.
unfoldable pub apply_entry : Entry → RaftLogger → RaftLogger
apply_entry entry l =
    if str_eq entry.op op_no_op
    then l
    else if str_eq entry.op op_register
    then record l {
      m_addresses =
          emplace (entry.f_name, record { m_ip = entry.f_ip; m_port = entry.f_port }) l.m_addresses;
    }
    else l

unfoldable pub apply_step : Method (Unit {0})
unfolding acquire release apply_entry
apply_step me l = elim (acquire me l.m_mutex) [
  | done owner ↦
      if ltb l.m_last_applied l.m_commit_index
      then elim (get_elem? l.m_entries (l.m_last_applied + 1)) [
        | none ↦ fault
        | some entry ↦
            let l' = apply_entry entry (record l { m_mutex = owner }) in
            done
              (tt, record l' { m_last_applied = l.m_last_applied + 1; m_mutex = release me owner })
      ]
      else done (tt, record l { m_mutex = release me owner })
  | blocked ↦ blocked
  | fault ↦ fault
]
