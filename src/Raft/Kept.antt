-- ===== src/Raft/Kept.antt =====
-- The sections of raft/raft_node.cpp that leave the state, the term and the vote of a node: those that
-- replicate the log and count the replicas, and those of the client handlers.
use c_rpc.Base.{
  ℕ, zero, suc, ◌≡◌, refl, Bool, List, [], ◌∷◌, Option, none, some, arith, if◌then◌else◌,
}
use c_rpc.Raft.Config.{Entry, AppendEntriesParams}
use c_rpc.Raft.Outcome.{fault}
use c_rpc.Raft.Logger.{RaftLogger, Method, append_local}
use c_rpc.Raft.Node.{
  RaftNode, Section, pure, get, modify, lock, unlock, on_logger, ◌>>=◌, append_checked,
  reply_append,
}
use c_rpc.Raft.Leader.{
  prepare_append, prepare_heartbeat, request_for, entry_accepted, reset_indexs, start_replicate_log,
}
use c_rpc.Raft.Sections.{
  Of, modify-Of, if-Of, pure-Of, get-Of, lock-Of, unlock-Of, on_logger-Of, bind-Of,
}
use c_rpc.Wire.Buffer.{Buffer, Result, ok, throw, hang, is_read_end}
use c_rpc.Registry.{read_service}
use c_rpc.Tables.{IpPort}
use c_rpc.Raft.Service.{
  no_op_pending, wait_no_op, append_services, unlock_after, register_services, wait_applied,
  register_entry,
}

unfoldable pub Kept : RaftNode → RaftNode → Type 0
Kept n n' =
    (n'.m_id ≡ n.m_id)
    × (n'.m_nodes ≡ n.m_nodes)
    × (n'.m_current_term ≡ n.m_current_term)
    × (n'.m_voted_for ≡ n.m_voted_for)
    × (n'.m_state ≡ n.m_state)

Kept-trans : (n m n' : RaftNode) → Kept n m → Kept m n' → Kept n n'
unfolding Kept
Kept-trans n m n' p q = ground arith

frame-Kept :
    (n : RaftNode) (mutex : ℕ) (logger : RaftLogger)
    → Kept n (record n { m_raft_mutex = mutex; m_raft_logger = logger })
unfolding Kept
frame-Kept n mutex logger = (refl, refl, refl, refl, refl)

pure-Kept : {A : Type 0} (a : A) → Of Kept (pure a)
pure-Kept = pure-Of Kept Kept-trans frame-Kept

get-Kept : Of Kept get
get-Kept = get-Of Kept Kept-trans frame-Kept

lock-Kept : Of Kept lock
lock-Kept = lock-Of Kept Kept-trans frame-Kept

unlock-Kept : Of Kept unlock
unlock-Kept = unlock-Of Kept Kept-trans frame-Kept

on_logger-Kept : {A : Type 0} (f : Method A) → Of Kept (on_logger f)
on_logger-Kept = on_logger-Of Kept Kept-trans frame-Kept

bind-Kept :
    {A B : Type 0} (m : Section A) (f : A → Section B)
    → Of Kept m
    → ((a : A) → Of Kept (f a))
    → Of Kept (m >>= f)
bind-Kept = bind-Of Kept Kept-trans frame-Kept

if-Kept :
    {A : Type 0} (m k : Section A) (c : Bool) → Of Kept m → Of Kept k → Of Kept (if c then m else k)
if-Kept = if-Of Kept

-- A change of the node that keeps the five members.
modify-Kept :
    (f : RaftNode → RaftNode)
    → ((n : RaftNode) → (f n).m_id ≡ n.m_id)
    → ((n : RaftNode) → (f n).m_nodes ≡ n.m_nodes)
    → ((n : RaftNode) → (f n).m_current_term ≡ n.m_current_term)
    → ((n : RaftNode) → (f n).m_voted_for ≡ n.m_voted_for)
    → ((n : RaftNode) → (f n).m_state ≡ n.m_state)
    → Of Kept (modify f)
unfolding Kept
modify-Kept f i s t v r = modify-Of Kept f λ n. (i n, s n, t n, v n, r n)

ruleset kept = (
  pure-Kept, get-Kept, lock-Kept, unlock-Kept, on_logger-Kept, bind-Kept, if-Kept, modify-Kept,
  refl,
)

pub reply_append-Kept : (success : Bool) → Of Kept (reply_append success)
unfolding reply_append
reply_append-Kept success = search kept depth 20

pub append_checked-Kept : (params : AppendEntriesParams) → Of Kept (append_checked params)
unfolding append_checked
append_checked-Kept params = search (kept, reply_append-Kept) depth 20

request_for-Kept : (node_id : ℕ) (entry : Entry) → Of Kept (request_for node_id entry)
unfolding request_for
request_for-Kept node_id entry = search kept depth 20

pub prepare_append-Kept : (node_id : ℕ) → Of Kept (prepare_append node_id)
unfolding prepare_append
prepare_append-Kept node_id = search (kept, request_for-Kept) depth 20

pub prepare_heartbeat-Kept : (node_id : ℕ) → Of Kept (prepare_heartbeat node_id)
unfolding prepare_heartbeat
prepare_heartbeat-Kept node_id = search (kept, request_for-Kept) depth 20

pub entry_accepted-Kept : (node_id : ℕ) → Of Kept (entry_accepted node_id)
unfolding entry_accepted
entry_accepted-Kept node_id = search kept depth 30

pub reset_indexs-Kept : (is : List ℕ) → Of Kept (reset_indexs is)
unfolding reset_indexs
reset_indexs-Kept [] = search kept
reset_indexs-Kept (i ∷ is) = search (kept, reset_indexs-Kept is) depth 20

pub start_replicate_log-Kept : Of Kept start_replicate_log
unfolding start_replicate_log
start_replicate_log-Kept = search kept depth 20

no_op_pending-Kept : Of Kept no_op_pending
unfolding no_op_pending
no_op_pending-Kept = search kept depth 20

pub wait_no_op-Kept : Of Kept wait_no_op
unfolding wait_no_op
wait_no_op-Kept = search (kept, no_op_pending-Kept) depth 20

read-Kept :
    (r : Result ((List ℕ × IpPort) × Buffer))
    (k : List ℕ × IpPort → Buffer → Section (Result (Option ℕ)))
    → ((s : List ℕ × IpPort) (b : Buffer) → Of Kept (k s b))
    → Of Kept (elim r as (λ x. Section (Result (Option ℕ))) [
      | ok (s, b) ↦ k s b
      | throw e ↦ pure (throw e)
      | hang ↦ pure hang
    ])
read-Kept (ok (s, b)) k h = h s b
read-Kept (throw e) k h = pure-Kept (throw e)
read-Kept hang k h = pure-Kept hang

append_services-Kept :
    (rounds : ℕ) (index : Option ℕ) (b : Buffer) → Of Kept (append_services rounds index b)
unfolding append_services
append_services-Kept zero index b = pure-Kept hang
append_services-Kept (suc rounds) index b = if-Kept _ _ (is_read_end b) (pure-Kept (ok index)) (
    read-Kept (read_service b) _ λ s b'. bind-Kept get _ get-Kept λ n.
      bind-Kept (on_logger (append_local (register_entry n.m_current_term s))) _ (on_logger-Kept _)
        λ i. append_services-Kept rounds (some i) b')

unlock_after-Kept : (r : Result (Option ℕ)) → Of Kept (unlock_after r)
unfolding unlock_after
unlock_after-Kept (ok index) = search kept
unlock_after-Kept (throw e) = search kept
unlock_after-Kept hang = search kept

pub register_services-Kept : (b : Buffer) → Of Kept (register_services b)
unfolding register_services
register_services-Kept b = search (kept, append_services-Kept, unlock_after-Kept) depth 20

fault-Kept : Of {A = Bool} Kept (λ me n. fault)
unfolding Of
fault-Kept me n n' a e = ground arith

pub wait_applied-Kept : (index : Option ℕ) → Of Kept (wait_applied index)
unfolding wait_applied
wait_applied-Kept none = fault-Kept
wait_applied-Kept (some index) = search kept depth 20
