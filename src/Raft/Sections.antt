-- ===== src/Raft/Sections.antt =====
-- What holds of the node before and after any section that is put together from others: the rules for
-- a relation between two nodes that is reflexive, transitive, and sees neither mutex nor log.
use c_rpc.Base.{ℕ, ◌≡◌, ◌⊎◌, refl, Bool, true, false, if◌then◌else◌, arith}
use c_rpc.Raft.Outcome.{Outcome, done, blocked, fault, acquire}
use c_rpc.Raft.Logger.{RaftLogger, Method}
use c_rpc.Raft.Node.{RaftNode, Section, ◌>>=◌, pure, get, modify, on_logger, lock, unlock}

unfoldable pub Of : {A : Type 0} → (RaftNode → RaftNode → Type 0) → Section A → Type 0
Of {A} R m = (me : ℕ) (n n' : RaftNode) (a : A) → m me n ≡ done (a, n') → R n n'

pub modify-Of :
    (R : RaftNode → RaftNode → Type 0) (f : RaftNode → RaftNode)
    → ((n : RaftNode) → R n (f n))
    → Of R (modify f)
unfolding Of
modify-Of R f h me n n' b e = ground (arith, h n)

pub if-Of :
    {A : Type 0} (R : RaftNode → RaftNode → Type 0) (m k : Section A) (c : Bool)
    → Of R m
    → Of R k
    → Of R (if c then m else k)
if-Of R m k true hm hk = hm
if-Of R m k false hm hk = hk

-- A section that comes to its end, at the head of others.
pub bind-done :
    {A B : Type 0} (m : Section A) (k : A → Section B) (me : ℕ) (n : RaftNode) {a : A}
    {n' : RaftNode}
    → m me n ≡ done (a, n')
    → (m >>= k) me n ≡ k a me n'
bind-done m k me n e = rw (e, ◌>>=◌) refl

pub on_logger-done :
    {A : Type 0} (f : Method A) (me : ℕ) (n : RaftNode) {a : A} {l : RaftLogger}
    → f me n.m_raft_logger ≡ done (a, l)
    → on_logger f me n ≡ done (a, record n { m_raft_logger = l })
unfolding on_logger
on_logger-done f me n e = rw (e, on_logger) refl

pub lock-taken :
    (me : ℕ) (n : RaftNode)
    → (n.m_raft_mutex ≡ me) ⊎ (n.m_raft_mutex ≡ 0)
    → lock me n ≡ done (tt, record n { m_raft_mutex = me })
unfolding lock acquire
lock-taken me n h = ground arith

module _ (R : RaftNode → RaftNode → Type 0) (trans : (n m n' : RaftNode) → R n m → R m n' → R n n')
    (frame : (n : RaftNode) (mutex : ℕ) (logger : RaftLogger)
      → R n (record n { m_raft_mutex = mutex; m_raft_logger = logger })) where
  pub pure-Of : {A : Type 0} (a : A) → Of R (pure a)
  unfolding Of
  pure-Of a me n n' b e = ground (arith, frame n n.m_raft_mutex n.m_raft_logger)

  pub get-Of : Of R get
  unfolding Of
  get-Of me n n' b e = ground (arith, frame n n.m_raft_mutex n.m_raft_logger)

  pub lock-Of : Of R lock
  unfolding Of lock acquire
  lock-Of me n n' b e = ground (arith, frame n me n.m_raft_logger)

  pub unlock-Of : Of R unlock
  unfolding Of unlock
  unlock-Of me n n' b e = ground (arith, frame n n'.m_raft_mutex n.m_raft_logger)

  pub on_logger-Of : {A : Type 0} (f : Method A) → Of R (on_logger f)
  unfolding Of on_logger
  on_logger-Of f me n n' b e = ground (arith, frame n n.m_raft_mutex n'.m_raft_logger)

  pub bind-Of :
      {A B : Type 0} (m : Section A) (f : A → Section B)
      → Of R m
      → ((a : A) → Of R (f a))
      → Of R (m >>= f)
  unfolding Of
  bind-Of {A} {B} m f hm hf me n n' b e = go (m me n) refl e
    where
      go :
          (o : Outcome (A × RaftNode))
          → m me n ≡ o
          → elim o [ done (a, n1) ↦ f a me n1 | blocked ↦ blocked | fault ↦ fault ] ≡ done (b, n')
          → R n n'
      go (done (a, n1)) eq e = trans n n1 n' (hm me n n1 a eq) (hf a me n1 n' b e)
      go blocked eq e = absurd (ground (arith, e))
      go fault eq e = absurd (ground (arith, e))
