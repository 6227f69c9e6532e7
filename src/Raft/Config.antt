-- ===== src/Raft/Config.antt =====
-- raft/raft_config.h. An id, a term or an index is a uint64_t; a string is the list of its bytes.
use c_rpc.Base.{ℕ, List, [], ◌∷◌, Bool}

pub record RaftVoteParams : Type 0 where
  pub term : ℕ
  pub candidate_id : ℕ
  pub last_log_index : ℕ
  pub last_log_term : ℕ

pub record RaftVoteRets : Type 0 where
  pub term : ℕ
  pub vote_granted : Bool

pub record Entry : Type 0 where
  pub index : ℕ
  pub term : ℕ
  pub op : List ℕ
  pub f_name : List ℕ
  pub f_ip : List ℕ
  pub f_port : ℕ

-- `Entry entry;`, with the member initialisers. `f_port` has none; it is 0 here.
abbrev pub default_entry : Entry
default_entry = record { index = 0; term = 0; op = []; f_name = []; f_ip = []; f_port = 0 }

pub record AppendEntriesParams : Type 0 where
  pub term : ℕ
  pub leader_id : ℕ
  pub prev_log_index : ℕ
  pub prev_log_term : ℕ
  pub entry : Entry
  pub leader_commit : ℕ

pub record AppendEntriesRets : Type 0 where
  pub success : Bool
  pub term : ℕ

-- The values of `op`.
abbrev pub op_null : List ℕ
op_null = b'n' ∷ b'u' ∷ b'l' ∷ b'l' ∷ []

abbrev pub op_no_op : List ℕ
op_no_op = b'n' ∷ b'o' ∷ b'-' ∷ b'o' ∷ b'p' ∷ []

abbrev pub op_register : List ℕ
op_register = b'r' ∷ b'e' ∷ b'g' ∷ b'i' ∷ b's' ∷ b't' ∷ b'e' ∷ b'r' ∷ []

abbrev pub op_heartbeat : List ℕ
op_heartbeat = b'h' ∷ b'e' ∷ b'a' ∷ b'r' ∷ b't' ∷ b'b' ∷ b'e' ∷ b'a' ∷ b't' ∷ []
