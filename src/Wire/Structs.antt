-- ===== src/Wire/Structs.antt =====
-- The operators of util/serializer.h for the structs of raft/raft_config.h, and their round trips.
use c_rpc.Base.{ℕ, ◌^◌, ◌≤◌, ◌<◌, length, Bool, true, false, ◌==◌, if◌then◌else◌, arith}
use c_rpc.Raft.Config.{RaftVoteParams, RaftVoteRets, Entry, AppendEntriesParams, AppendEntriesRets}
use c_rpc.Wire.Buffer.{
  Buffer, Reader, ◌>>=◌, pure, ◌⨾◌, write_uint64, read_uint64, write_uint16, read_uint16,
}
use c_rpc.Wire.Serializer.{bool, read_prim, write_prim, max_size, read_string, write_string}
use c_rpc.Wire.Reads.{RoundTrips}
use c_rpc.Wire.RoundTrip.{RoundTrips-then, RoundTrips-map}
use c_rpc.Wire.Prims.{prim-RoundTrips, uint64-RoundTrips, uint16-RoundTrips}
use c_rpc.Wire.Containers.{string-RoundTrips}

-- A `bool` as the number that is written, and back.
abbrev pub of_bool : Bool → ℕ
of_bool true = 1
of_bool false = 0

abbrev pub to_bool : ℕ → Bool
to_bool v = if v == 0 then false else true

unfoldable pub write_bool : Bool → Buffer → Buffer
write_bool v = write_prim bool (of_bool v)

unfoldable pub read_bool : Reader Bool
read_bool = do v ← read_prim bool; pure (to_bool v)

unfoldable pub read_vote_params : Reader RaftVoteParams
read_vote_params = do
  term ← read_uint64
  candidate_id ← read_uint64
  last_log_index ← read_uint64
  last_log_term ← read_uint64
  pure (record {
    term = term;
    candidate_id = candidate_id;
    last_log_index = last_log_index;
    last_log_term = last_log_term;
  })

unfoldable pub write_vote_params : RaftVoteParams → Buffer → Buffer
write_vote_params t =
    write_uint64 t.term
    ⨾ (write_uint64 t.candidate_id ⨾ (write_uint64 t.last_log_index ⨾ write_uint64 t.last_log_term))

unfoldable pub read_vote_rets : Reader RaftVoteRets
read_vote_rets = do
  term ← read_uint64
  vote_granted ← read_bool
  pure (record { term = term; vote_granted = vote_granted })

unfoldable pub write_vote_rets : RaftVoteRets → Buffer → Buffer
write_vote_rets t = write_uint64 t.term ⨾ write_bool t.vote_granted

unfoldable pub read_entry : Reader Entry
read_entry = do
  index ← read_uint64
  term ← read_uint64
  op ← read_string
  f_name ← read_string
  f_ip ← read_string
  f_port ← read_uint16
  pure (record {
    index = index;
    term = term;
    op = op;
    f_name = f_name;
    f_ip = f_ip;
    f_port = f_port;
  })

unfoldable pub write_entry : Entry → Buffer → Buffer
write_entry t =
    write_uint64 t.index
    ⨾ (write_uint64 t.term
        ⨾ (write_string t.op
            ⨾ (write_string t.f_name ⨾ (write_string t.f_ip ⨾ write_uint16 t.f_port))))

unfoldable pub read_append_params : Reader AppendEntriesParams
read_append_params = do
  term ← read_uint64
  leader_id ← read_uint64
  prev_log_index ← read_uint64
  prev_log_term ← read_uint64
  entry ← read_entry
  leader_commit ← read_uint64
  pure (record {
    term = term;
    leader_id = leader_id;
    prev_log_index = prev_log_index;
    prev_log_term = prev_log_term;
    entry = entry;
    leader_commit = leader_commit;
  })

unfoldable pub write_append_params : AppendEntriesParams → Buffer → Buffer
write_append_params t =
    write_uint64 t.term
    ⨾ (write_uint64 t.leader_id
        ⨾ (write_uint64 t.prev_log_index
            ⨾ (write_uint64 t.prev_log_term
                ⨾ (write_entry t.entry ⨾ write_uint64 t.leader_commit))))

unfoldable pub read_append_rets : Reader AppendEntriesRets
read_append_rets = do
  success ← read_bool
  term ← read_uint64
  pure (record { success = success; term = term })

unfoldable pub write_append_rets : AppendEntriesRets → Buffer → Buffer
write_append_rets t = write_bool t.success ⨾ write_uint64 t.term

-- The members fit their types.
pub record EntryFits (t : Entry) : Type 0 where
  pub index : t.index < 2 ^ 64
  pub term : t.term < 2 ^ 64
  pub op : length t.op ≤ max_size
  pub f_name : length t.f_name ≤ max_size
  pub f_ip : length t.f_ip ≤ max_size
  pub f_port : t.f_port < 2 ^ 16

pub record VoteParamsFit (t : RaftVoteParams) : Type 0 where
  pub term : t.term < 2 ^ 64
  pub candidate_id : t.candidate_id < 2 ^ 64
  pub last_log_index : t.last_log_index < 2 ^ 64
  pub last_log_term : t.last_log_term < 2 ^ 64

pub record AppendParamsFit (t : AppendEntriesParams) : Type 0 where
  pub term : t.term < 2 ^ 64
  pub leader_id : t.leader_id < 2 ^ 64
  pub prev_log_index : t.prev_log_index < 2 ^ 64
  pub prev_log_term : t.prev_log_term < 2 ^ 64
  pub entry : EntryFits t.entry
  pub leader_commit : t.leader_commit < 2 ^ 64

bool-RoundTrips : (v : Bool) → RoundTrips (write_bool v) read_bool v
unfolding write_bool read_bool
bool-RoundTrips true =
    RoundTrips-map (read_prim bool) to_bool (prim-RoundTrips bool 1 (omega arith))
bool-RoundTrips false =
    RoundTrips-map (read_prim bool) to_bool (prim-RoundTrips bool 0 (omega arith))

-- The arguments of raftVote are read back as they were, if they fit their types.
pub vote_params-RoundTrips :
    (t : RaftVoteParams) → VoteParamsFit t → RoundTrips (write_vote_params t) read_vote_params t
unfolding write_vote_params read_vote_params
vote_params-RoundTrips t h = RoundTrips-then read_uint64 _ (uint64-RoundTrips t.term h.term) (
    RoundTrips-then read_uint64 _ (uint64-RoundTrips t.candidate_id h.candidate_id) (
      RoundTrips-then read_uint64 _ (uint64-RoundTrips t.last_log_index h.last_log_index)
        (RoundTrips-map read_uint64 _ (uint64-RoundTrips t.last_log_term h.last_log_term))))

pub vote_rets-RoundTrips :
    (t : RaftVoteRets) → t.term < 2 ^ 64 → RoundTrips (write_vote_rets t) read_vote_rets t
unfolding write_vote_rets read_vote_rets
vote_rets-RoundTrips t h =
    RoundTrips-then read_uint64 _ (uint64-RoundTrips t.term h)
      (RoundTrips-map read_bool _ (bool-RoundTrips t.vote_granted))

pub entry-RoundTrips : (t : Entry) → EntryFits t → RoundTrips (write_entry t) read_entry t
unfolding write_entry read_entry
entry-RoundTrips t h = RoundTrips-then read_uint64 _ (uint64-RoundTrips t.index h.index) (
    RoundTrips-then read_uint64 _ (uint64-RoundTrips t.term h.term) (
      RoundTrips-then read_string _ (string-RoundTrips t.op h.op) (
        RoundTrips-then read_string _ (string-RoundTrips t.f_name h.f_name) (
          RoundTrips-then read_string _ (string-RoundTrips t.f_ip h.f_ip)
            (RoundTrips-map read_uint16 _ (uint16-RoundTrips t.f_port h.f_port))))))

-- The arguments of appendEntries are read back as they were, the entry with its strings included, if
-- they fit their types.
pub append_params-RoundTrips :
    (t : AppendEntriesParams)
    → AppendParamsFit t
    → RoundTrips (write_append_params t) read_append_params t
unfolding write_append_params read_append_params
append_params-RoundTrips t h = RoundTrips-then read_uint64 _ (uint64-RoundTrips t.term h.term) (
    RoundTrips-then read_uint64 _ (uint64-RoundTrips t.leader_id h.leader_id) (
      RoundTrips-then read_uint64 _ (uint64-RoundTrips t.prev_log_index h.prev_log_index) (
        RoundTrips-then read_uint64 _ (uint64-RoundTrips t.prev_log_term h.prev_log_term) (
          RoundTrips-then read_entry _ (entry-RoundTrips t.entry h.entry)
            (RoundTrips-map read_uint64 _ (uint64-RoundTrips t.leader_commit h.leader_commit))))))

pub append_rets-RoundTrips :
    (t : AppendEntriesRets) → t.term < 2 ^ 64 → RoundTrips (write_append_rets t) read_append_rets t
unfolding write_append_rets read_append_rets
append_rets-RoundTrips t h =
    RoundTrips-then read_bool _ (bool-RoundTrips t.success)
      (RoundTrips-map read_uint64 _ (uint64-RoundTrips t.term h))
