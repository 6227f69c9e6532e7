-- ===== src/Raft/Quiet.antt =====
-- What the sections of raft/raft_node.cpp other than the election do to the state, the term and the
-- vote of a node.
use c_rpc.Base.{ℕ, ◌≤◌, ◌≡◌, ◌⊎◌, Bool, Option, arith, if◌then◌else◌}
use c_rpc.Raft.Config.{AppendEntriesParams, AppendEntriesRets}
use c_rpc.Raft.Outcome.{done}
use c_rpc.Raft.Logger.{RaftLogger, Method}
use c_rpc.Raft.Node.{
  RaftNode, Section, ◌>>=◌, follower, no_node, lock, get, modify, on_logger, append_entries,
  reply_append, append_checked, follow, become_follower,
}
use c_rpc.Raft.Leader.{Round, prepare_append, prepare_heartbeat, on_append_reply}
use c_rpc.Raft.Sections.{Of, modify-Of, if-Of, get-Of, lock-Of, on_logger-Of, bind-Of}
use c_rpc.Raft.Kept.{
  Kept, prepare_append-Kept, prepare_heartbeat-Kept, entry_accepted-Kept, reply_append-Kept,
  append_checked-Kept, wait_no_op-Kept, register_services-Kept, wait_applied-Kept,
}
use c_rpc.Wire.Buffer.{Buffer, Result}
use c_rpc.Raft.Service.{wait_no_op, register_services, wait_applied}

-- The term does not go back, the vote is kept or forgotten, and a node that does not come to follow
-- keeps its state and its term.
unfoldable pub Quiet : RaftNode → RaftNode → Type 0
Quiet n n' =
    (n'.m_id ≡ n.m_id)
    × (n'.m_nodes ≡ n.m_nodes)
    × (n.m_current_term ≤ n'.m_current_term)
    × ((n'.m_voted_for ≡ n.m_voted_for) ⊎ (n'.m_voted_for ≡ no_node))
    × ((n'.m_state ≡ follower)
        ⊎ ((n'.m_state ≡ n.m_state) × (n'.m_current_term ≡ n.m_current_term)))

Quiet-trans : (n m n' : RaftNode) → Quiet n m → Quiet m n' → Quiet n n'
unfolding Quiet
Quiet-trans n m n' p q = ground arith

Kept-Quiet : (n n' : RaftNode) → Kept n n' → Quiet n n'
unfolding Quiet Kept
Kept-Quiet n n' k = ground arith

section-Quiet : {A : Type 0} (m : Section A) → Of Kept m → Of Quiet m
unfolding Of
section-Quiet m h me n n' a e = Kept-Quiet n n' (h me n n' a e)

frame-Quiet :
    (n : RaftNode) (mutex : ℕ) (logger : RaftLogger)
    → Quiet n (record n { m_raft_mutex = mutex; m_raft_logger = logger })
unfolding Quiet
frame-Quiet n mutex logger = ground arith

get-Quiet : Of Quiet get
get-Quiet = get-Of Quiet Quiet-trans frame-Quiet

lock-Quiet : Of Quiet lock
lock-Quiet = lock-Of Quiet Quiet-trans frame-Quiet

on_logger-Quiet : {A : Type 0} (f : Method A) → Of Quiet (on_logger f)
on_logger-Quiet = on_logger-Of Quiet Quiet-trans frame-Quiet

bind-Quiet :
    {A B : Type 0} (m : Section A) (f : A → Section B)
    → Of Quiet m
    → ((a : A) → Of Quiet (f a))
    → Of Quiet (m >>= f)
bind-Quiet = bind-Of Quiet Quiet-trans frame-Quiet

if-Quiet :
    {A : Type 0} (m k : Section A) (c : Bool)
    → Of Quiet m
    → Of Quiet k
    → Of Quiet (if c then m else k)
if-Quiet = if-Of Quiet

follow-Quiet :
    (params : AppendEntriesParams) (random : ℕ) (n : RaftNode) → Quiet n (follow params random n)
unfolding Quiet become_follower follow
follow-Quiet params random n = ground arith

reply_append-Quiet : (success : Bool) → Of Quiet (reply_append success)
reply_append-Quiet success = section-Quiet (reply_append success) (reply_append-Kept success)

append_checked-Quiet : (params : AppendEntriesParams) → Of Quiet (append_checked params)
append_checked-Quiet params = section-Quiet (append_checked params) (append_checked-Kept params)

modify-Quiet : (f : RaftNode → RaftNode) → ((n : RaftNode) → Quiet n (f n)) → Of Quiet (modify f)
modify-Quiet = modify-Of Quiet

append_entries-Quiet :
    (params : AppendEntriesParams) (random : ℕ) → Of Quiet (append_entries params random)
unfolding append_entries
append_entries-Quiet params random =
    search
      (
        get-Quiet, lock-Quiet, on_logger-Quiet, bind-Quiet, if-Quiet, modify-Quiet, follow-Quiet,
        reply_append-Quiet, append_checked-Quiet,
      )
      depth 20

on_append_reply-Quiet :
    (node_id : ℕ) (result : AppendEntriesRets) → Of Quiet (on_append_reply node_id result)
unfolding Of Quiet Kept on_append_reply become_follower
on_append_reply-Quiet node_id result me n n' r e =
    ground (arith, entry_accepted-Kept node_id me (record n { m_raft_mutex = me }) n' r)

-- One section of a node that takes no part in an election: a request of a leader, a round of a
-- leader, or a part of the handler of a client. The messages are any.
pub data Local (n n' : RaftNode) : Type 0 where
  appends :
      (me random : ℕ) (params : AppendEntriesParams) (rets : AppendEntriesRets)
      → append_entries params random me n ≡ done (rets, n')
      → Local n n'
  prepares : (me node_id : ℕ) (r : Round) → prepare_append node_id me n ≡ done (r, n') → Local n n'
  beats : (me node_id : ℕ) (r : Round) → prepare_heartbeat node_id me n ≡ done (r, n') → Local n n'
  replies :
      (me node_id : ℕ) (result : AppendEntriesRets) (r : Round)
      → on_append_reply node_id result me n ≡ done (r, n')
      → Local n n'
  waits_no_op : (me : ℕ) (b : Bool) → wait_no_op me n ≡ done (b, n') → Local n n'
  registers :
      (me : ℕ) (b : Buffer) (r : Result (Option ℕ))
      → register_services b me n ≡ done (r, n')
      → Local n n'
  waits_applied :
      (me : ℕ) (index : Option ℕ) (b : Bool) → wait_applied index me n ≡ done (b, n') → Local n n'

pub Local-Quiet : (n n' : RaftNode) → Local n n' → Quiet n n'
unfolding Of
Local-Quiet n n' (appends me random params rets e) =
    append_entries-Quiet params random me n n' rets e
Local-Quiet n n' (prepares me node_id r e) =
    Kept-Quiet n n' (prepare_append-Kept node_id me n n' r e)
Local-Quiet n n' (beats me node_id r e) =
    Kept-Quiet n n' (prepare_heartbeat-Kept node_id me n n' r e)
Local-Quiet n n' (replies me node_id result r e) = on_append_reply-Quiet node_id result me n n' r e
Local-Quiet n n' (waits_no_op me b e) = Kept-Quiet n n' (wait_no_op-Kept me n n' b e)
Local-Quiet n n' (registers me b r e) = Kept-Quiet n n' (register_services-Kept b me n n' r e)
Local-Quiet n n' (waits_applied me index b e) =
    Kept-Quiet n n' (wait_applied-Kept index me n n' b e)
