-- ===== src/Raft/Service/Registers.antt =====
-- What a leader appends for the services that a server registers: handleServerInit and
-- handleServiceRegister of raft/raft_node.cpp.
use c_rpc.Base.{
  ℕ, zero, suc, ◌+◌, ◌<◌, ◌≡◌, inr, refl, sym, ap, ◌∙◌, List, [], ◌∷◌, ◌++◌, append_assoc,
  append-nil, length, length-append, length-drop, All, Option, none, some, arith,
}
use c_rpc.Wire.Buffer.{Buffer, ok, empty_buffer}
use c_rpc.Wire.Reads.{IsValid, unread}
use c_rpc.Wire.Ends.{at_end}
use c_rpc.Tables.{IpPort, Multimap}
use c_rpc.Registry.{write_services}
use c_rpc.Registry.Exchange.{
  ServiceFits, services_bytes, Writes-services, length-services, services_next,
}
use c_rpc.Raft.Config.{Entry}
use c_rpc.Raft.Outcome.{done, release}
use c_rpc.Raft.Logger.{RaftLogger, append_local}
use c_rpc.Raft.Logger.Indexed.{IsIndexed, Free, append_local_run, with_local, with_local-IsIndexed}
use c_rpc.Raft.Node.{RaftNode, ◌>>=◌, lock, unlock, on_logger}
use c_rpc.Raft.Node.Append.{Available}
use c_rpc.Raft.Sections.{bind-done, on_logger-done, lock-taken}
use c_rpc.Raft.Service.{append_services, register_services, register_entry, unlock_after}

-- The entries for the services, numbered from `i` on.
abbrev pub entries_of : ℕ → ℕ → Multimap IpPort → List Entry
entries_of term i [] = []
entries_of term i (s ∷ ss) =
    record (register_entry term s) { index = i } ∷ entries_of term (suc i) ss

-- The logger after the loop, and the variable `index`.
abbrev logged : ℕ → Multimap IpPort → RaftLogger → RaftLogger
logged term [] l = l
logged term (s ∷ ss) l = logged term ss (with_local (register_entry term s) l)

abbrev index_after : ℕ → Option ℕ → Multimap IpPort → RaftLogger → Option ℕ
index_after term index [] l = index
index_after term index (s ∷ ss) l =
    index_after term (some (length l.m_entries)) ss (with_local (register_entry term s) l)

append_services_lem :
    (ss : Multimap IpPort) (hs : All ServiceFits ss) (me rounds : ℕ) (index : Option ℕ) (b : Buffer)
    (n : RaftNode)
    → IsIndexed n.m_raft_logger
    → Free me n.m_raft_logger
    → IsValid b
    → unread b ≡ services_bytes ss hs
    → length ss < rounds
    → append_services rounds index b me n
      ≡ done (
        ok (index_after n.m_current_term index ss n.m_raft_logger),
        record n { m_raft_logger = logged n.m_current_term ss n.m_raft_logger },
      )
unfolding append_services
append_services_lem [] hs me zero index b n h f v e lt = elim lt [ ]
append_services_lem [] hs me (suc rounds) index b n h f v e lt =
    rw (at_end b v (unfold services_bytes in e)) refl
append_services_lem (s ∷ ss) hs me zero index b n h f v e lt = elim lt [ ]
append_services_lem (s ∷ ss) (k, hs) me (suc rounds) index b n h f v e lt =
    let (b', more, q, v', e') = services_next s ss k hs b v e in
    let new = register_entry n.m_current_term s in
    rw (more, q, append_services)
      (bind-done (on_logger (append_local new)) (λ i. append_services rounds (some i) b') me n
          (on_logger-done (append_local new) me n (append_local_run me new n.m_raft_logger h f))
        ∙ append_services_lem ss hs me rounds (some (length n.m_raft_logger.m_entries)) b'
            (record n { m_raft_logger = with_local new n.m_raft_logger })
            (with_local-IsIndexed new n.m_raft_logger h) (inr refl) v' e' (omega arith))

logged-entries :
    (term : ℕ) (ss : Multimap IpPort) (l : RaftLogger)
    → (logged term ss l).m_entries ≡ l.m_entries ++ entries_of term (length l.m_entries) ss
logged-entries term [] l = sym (append-nil l.m_entries)
logged-entries term (s ∷ ss) l =
    logged-entries term ss (with_local (register_entry term s) l)
    ∙ append_assoc l.m_entries (new ∷ []) _
    ∙ ap (λ i. l.m_entries ++ new ∷ entries_of term i ss)
        (omega (arith, length-append l.m_entries (new ∷ [])))
  where
    new : Entry
    new = record (register_entry term s) { index = length l.m_entries }

logged-IsIndexed :
    (term : ℕ) (ss : Multimap IpPort) (l : RaftLogger) → IsIndexed l → IsIndexed (logged term ss l)
logged-IsIndexed term [] l h = h
logged-IsIndexed term (s ∷ ss) l h =
    logged-IsIndexed term ss _ (with_local-IsIndexed (register_entry term s) l h)

-- What the loop leaves of the logger as it was.
logged-rest :
    (term : ℕ) (ss : Multimap IpPort) (l : RaftLogger)
    → ((logged term ss l).m_last_applied ≡ l.m_last_applied)
      × ((logged term ss l).m_commit_index ≡ l.m_commit_index)
      × ((logged term ss l).m_addresses ≡ l.m_addresses)
logged-rest term [] l = (refl, refl, refl)
logged-rest term (s ∷ ss) l = logged-rest term ss (with_local (register_entry term s) l)

logged-mutex :
    (term : ℕ) (ss : Multimap IpPort) (l : RaftLogger)
    → l.m_mutex ≡ 0
    → (logged term ss l).m_mutex ≡ 0
logged-mutex term [] l e = e
logged-mutex term (s ∷ ss) l e = logged-mutex term ss (with_local (register_entry term s) l) refl

index_after-last :
    (term i : ℕ) (ss : Multimap IpPort) (l : RaftLogger)
    → length l.m_entries ≡ suc i
    → index_after term (some i) ss l ≡ some (i + length ss)
index_after-last term i [] l e = ap some (omega arith)
index_after-last term i (s ∷ ss) l e =
    ap (λ j. index_after term (some j) ss (with_local (register_entry term s) l)) e
    ∙ index_after-last term (suc i) ss _ (
        omega (
          arith,
          length-append l.m_entries
              (record (register_entry term s) { index = length l.m_entries } ∷ []),
        ))
    ∙ ap some (omega arith)

-- A server registers its services: whoever can take both mutexes appends, to a numbered log, an entry
-- of the current term for each of them, in order. `index` is that of the last; the log stays numbered,
-- both mutexes are free, and nothing else of the node is changed. The services, one at least, fit
-- their types, and what is unread of the message is what the server wrote.
pub register_services_lem :
    (s : List ℕ × IpPort) (ss : Multimap IpPort) (me : ℕ) (b : Buffer) (n : RaftNode)
    → All ServiceFits (s ∷ ss)
    → Available me n
    → IsIndexed n.m_raft_logger
    → IsValid b
    → unread b ≡ (write_services (s ∷ ss) empty_buffer).m_data
    → (l' : RaftLogger) × (register_services b me n
        ≡ done (
          ok (some (length n.m_raft_logger.m_entries + length ss)),
          record n { m_raft_mutex = 0; m_raft_logger = l' },
        ))
      × (l'.m_entries
          ≡ n.m_raft_logger.m_entries
            ++ entries_of n.m_current_term (length n.m_raft_logger.m_entries) (s ∷ ss))
      × (l'.m_mutex ≡ 0)
      × IsIndexed l'
      × (l'.m_last_applied ≡ n.m_raft_logger.m_last_applied)
      × (l'.m_commit_index ≡ n.m_raft_logger.m_commit_index)
      × (l'.m_addresses ≡ n.m_raft_logger.m_addresses)
unfolding register_services unlock unlock_after release
register_services_lem s ss me b n hs av h v e =
    let l = n.m_raft_logger in
    let l' = logged n.m_current_term (s ∷ ss) l in
    (
      l',
      bind-done lock (λ u. append_services (suc (length b.m_data)) none b >>= unlock_after) me n
            locked_now
          ∙ bind-done (append_services (suc (length b.m_data)) none b) unlock_after me _ loop
          ∙ ground (arith, last),
      logged-entries n.m_current_term (s ∷ ss) l,
      logged-mutex n.m_current_term ss _ refl,
      logged-IsIndexed n.m_current_term (s ∷ ss) l h,
      (logged-rest n.m_current_term (s ∷ ss) l).0,
      (logged-rest n.m_current_term (s ∷ ss) l).1,
      (logged-rest n.m_current_term (s ∷ ss) l).2,
    )
  where
    bytes : unread b ≡ services_bytes (s ∷ ss) hs
    bytes = e ∙ ap (λ c. c.m_data) (Writes-services (s ∷ ss) hs empty_buffer)

    locked_now : lock me n ≡ done (tt, record n { m_raft_mutex = me })
    locked_now = lock-taken me n av.raft

    last :
        index_after n.m_current_term none (s ∷ ss) n.m_raft_logger
        ≡ some (length n.m_raft_logger.m_entries + length ss)
    last = index_after-last n.m_current_term (length n.m_raft_logger.m_entries) ss _ (
        omega (
          arith,
          length-append n.m_raft_logger.m_entries (
              record (register_entry n.m_current_term s) {
                index = length n.m_raft_logger.m_entries;
              }
              ∷ []),
        ))

    loop :
        append_services (suc (length b.m_data)) none b me (record n { m_raft_mutex = me })
        ≡ done (
          ok (index_after n.m_current_term none (s ∷ ss) n.m_raft_logger),
          record n {
            m_raft_mutex = me;
            m_raft_logger = logged n.m_current_term (s ∷ ss) n.m_raft_logger;
          },
        )
    loop =
        append_services_lem (s ∷ ss) hs me (suc (length b.m_data)) none b
          (record n { m_raft_mutex = me }) h av.logger v bytes
          (omega (
            arith,
            length-services (s ∷ ss) hs,
            ap length bytes,
            length-drop b.m_position b.m_data,
          ))
