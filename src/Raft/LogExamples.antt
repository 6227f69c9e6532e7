-- ===== src/Raft/LogExamples.antt =====
-- The log of raft/raft_logger.h and the majorities of raft/raft_node.cpp at concrete values.
use c_rpc.Base.{
  count, emplace_all, ℕ, zero, suc, ◌≡◌, inr, List, [], ◌∷◌, take, true, ◌==◌, leb, refl, arith,
  if◌then◌else◌, str_eq,
}
use c_rpc.Raft.Config.{Entry, default_entry, op_no_op, op_register}
use c_rpc.Tables.{emplace}
use c_rpc.Raft.Outcome.{done, fault}
use c_rpc.Raft.Logger.{RaftLogger, append_entry}
use c_rpc.Raft.Logger.Indexed.{IsIndexed, append_entry_lem, append_entry-fault}
use c_rpc.Raft.Logger.Matching.{Match, append_entry-prefix}
use c_rpc.Raft.Logger.Applied.{IsApplied, registrations, apply_rounds, apply_rounds-commit}
use c_rpc.Raft.Leader.{commit_loop}
use c_rpc.Raft.Quorum.{holds, commit_loop-count}

abbrev first : Entry
first = record default_entry { index = 1; term = 1; op = op_no_op }

-- Registers "a" at port 80.
abbrev second : Entry
second = record default_entry {
  index = 2;
  term = 1;
  op = op_register;
  f_name = 97 ∷ [];
  f_port = 80;
}

-- The entry that another leader had put in its place.
abbrev other : Entry
other = record default_entry { index = 2; term = 2; op = op_no_op }

abbrev leader_log : List Entry
leader_log = default_entry ∷ first ∷ second ∷ []

abbrev a_logger : RaftLogger
a_logger = record {
  m_mutex = 0;
  m_entries = default_entry ∷ first ∷ other ∷ [];
  m_last_applied = 0;
  m_commit_index = 1;
  m_addresses = [];
}

a_logger-IsIndexed : IsIndexed a_logger
a_logger-IsIndexed = record { not_empty = omega arith; numbered = (refl, (refl, (refl, tt))) }

replaced :
    append_entry second 1 1 5 a_logger ≡ done (true, record a_logger { m_entries = leader_log })
replaced = append_entry_lem 5 1 1 second a_logger a_logger-IsIndexed (inr refl) (omega arith)

a_logger-Match : Match a_logger.m_entries leader_log
a_logger-Match zero h k e = refl
a_logger-Match (suc zero) h k e = refl
a_logger-Match (suc (suc zero)) h k e = absurd (omega arith)
a_logger-Match (suc (suc (suc i))) h k e = absurd (omega arith)

append_entry-prefix_example :
    (record a_logger { m_entries = leader_log }).m_entries ≡ take 3 leader_log
append_entry-prefix_example =
    append_entry-prefix 5 1 leader_log a_logger (record a_logger { m_entries = leader_log })
      a_logger-IsIndexed (inr refl) a_logger-Match (omega arith) (omega arith) replaced

append_entry-fault_example : append_entry second 7 1 5 a_logger ≡ fault
append_entry-fault_example =
    append_entry-fault 5 7 1 second a_logger a_logger-IsIndexed (inr refl) (omega arith)

abbrev replicated : RaftLogger
replicated = record a_logger { m_entries = leader_log; m_commit_index = 2 }

replicated-IsApplied : IsApplied replicated
unfolding str_eq
replicated-IsApplied = record { in_range = omega arith; table = refl }

apply_rounds-commit_example :
    (l' : RaftLogger) × (apply_rounds 2 5 replicated ≡ done (tt, l'))
    × (l'.m_last_applied ≡ 2)
    × (l'.m_entries ≡ leader_log)
    × (l'.m_addresses ≡ emplace_all emplace (registrations leader_log) [])
apply_rounds-commit_example =
    apply_rounds-commit 2 5 replicated replicated-IsApplied (inr refl) (omega arith) refl

-- Of three nodes, the leader 0 and node 2 have the entry 4.
abbrev matches : ℕ → ℕ
matches i = if i == 2 then 6 else 1

commit_loop-count_example : commit_loop matches 0 4 2 0 3 0 ≡ leb 2 (count (holds matches 0 4) 3)
commit_loop-count_example = commit_loop-count matches 0 4 2 3 (omega arith)
