-- ===== src/Raft/Service/Found.antt =====
-- From a server that registers to a client that starts: raft/raft_node.cpp and raft/raft_logger.h
-- together.
use c_rpc.Base.{
  emplace_all, emplace_all-append, ℕ, suc, ◌+◌, ◌-◌, ◌^◌, ◌≤◌, ◌<◌, ◌≡◌, refl, sym, ap, ◌∙◌, List,
  [], ◌∷◌, ◌++◌, length, length-append, str_eq, take, drop, All, some, arith,
}
use mathlib.Core.Path.{subst}
use c_rpc.Wire.Buffer.{Buffer, ok, empty_buffer}
use c_rpc.Wire.Serializer.{max_size}
use c_rpc.Wire.Reads.{IsValid, unread}
use c_rpc.Protocol.{Message}
use c_rpc.Tables.{IpPort, Multimap, emplace}
use c_rpc.Tables.Order.{emplace-IsSorted, emplace_all-keeps, IsSorted}
use c_rpc.Registry.{write_services, receive_services}
use c_rpc.Registry.Exchange.{ServiceFits, handle_client_init_lem}
use c_rpc.Raft.Config.{Entry}
use c_rpc.Raft.Outcome.{done}
use c_rpc.Raft.Logger.{RaftLogger}
use c_rpc.Raft.Logger.Indexed.{IsIndexed, Free}
use c_rpc.Raft.Logger.Applied.{
  registrations, registrations-append, IsApplied, apply_rounds, apply_rounds-commit,
}
use c_rpc.Raft.Node.{RaftNode}
use c_rpc.Raft.Node.Append.{Available}
use c_rpc.Raft.Service.{RaftService, register_services, handle_client_init, answer}
use c_rpc.Raft.Service.Registers.{entries_of, register_services_lem}

registrations-entries_of :
    (term i : ℕ) (ss : Multimap IpPort) → registrations (entries_of term i ss) ≡ ss
unfolding str_eq
registrations-entries_of term i [] = refl
registrations-entries_of term i (s ∷ ss) = ap (◌∷◌ s) (registrations-entries_of term (suc i) ss)

length-entries_of : (term i : ℕ) (ss : Multimap IpPort) → length (entries_of term i ss) ≡ length ss
length-entries_of term i [] = refl
length-entries_of term i (s ∷ ss) = ap suc (length-entries_of term (suc i) ss)

append-take : (xs : List Entry) → take (length xs) xs ≡ xs
append-take [] = refl
append-take (x ∷ xs) = ap (◌∷◌ x) (append-take xs)

-- What a run of the section has done, whichever way it came to its end.
registered :
    (s : List ℕ × IpPort) (ss : Multimap IpPort) (me index : ℕ) (b : Buffer) (n n1 : RaftNode)
    → All ServiceFits (s ∷ ss)
    → Available me n
    → IsIndexed n.m_raft_logger
    → IsValid b
    → unread b ≡ (write_services (s ∷ ss) empty_buffer).m_data
    → register_services b me n ≡ done (ok (some index), n1)
    → (index ≡ length n.m_raft_logger.m_entries + length ss)
      × (n1.m_raft_logger.m_entries
          ≡ n.m_raft_logger.m_entries
            ++ entries_of n.m_current_term (length n.m_raft_logger.m_entries) (s ∷ ss))
registered s ss me index b n n1 hs av h v e run =
    let (l1, q, entries, mutex, indexed, last, commit, table) =
      register_services_lem s ss me b n hs av h v e in
    (ground (arith, q, run), ground (arith, q, run, entries))

-- A server registers its services at a leader. Once the last of their entries is committed, in a
-- logger whose entries are those that the section left and whose table was in step before, the rounds
-- of the applying coroutine that are left, undisturbed, add exactly these services, in order, to what
-- the entries before them had registered.
pub registered_applied :
    (s : List ℕ × IpPort) (ss : Multimap IpPort) (me index w k : ℕ) (b : Buffer) (n n1 : RaftNode)
    (l : RaftLogger)
    → All ServiceFits (s ∷ ss)
    → Available me n
    → IsIndexed n.m_raft_logger
    → IsValid b
    → unread b ≡ (write_services (s ∷ ss) empty_buffer).m_data
    → register_services b me n ≡ done (ok (some index), n1)
    → l.m_entries ≡ n1.m_raft_logger.m_entries
    → l.m_commit_index ≡ index
    → IsApplied l
    → Free w l
    → l.m_last_applied + k ≡ index
    → (l' : RaftLogger) × (apply_rounds k w l ≡ done (tt, l'))
      × (l'.m_addresses
          ≡ emplace_all emplace
              (s ∷ ss)
              (emplace_all emplace (registrations n.m_raft_logger.m_entries) []))
registered_applied s ss me index w k b n n1 l hs av h v e run es c applied f left =
    let (i, entries) = registered s ss me index b n n1 hs av h v e run in
    let (l', q, last, kept, table) =
      apply_rounds-commit k w l applied f
        (omega (arith, i, c, ap length (es ∙ entries), length-append old new, size))
        (omega (arith, c, left)) in
    (
      l',
      q,
      table
          ∙ ap (λ ps. emplace_all emplace ps [])
              (all_registered (es ∙ entries) (omega (arith, i, c, length-append old new, size)))
          ∙ emplace_all-append emplace (registrations old) (s ∷ ss) [],
    )
  where
    old : List Entry
    old = n.m_raft_logger.m_entries

    new : List Entry
    new = entries_of n.m_current_term (length n.m_raft_logger.m_entries) (s ∷ ss)

    size : length new ≡ suc (length ss)
    size = length-entries_of n.m_current_term (length n.m_raft_logger.m_entries) (s ∷ ss)

    all_registered :
        l.m_entries ≡ old ++ new
        → suc l.m_commit_index ≡ length (old ++ new)
        → registrations (take (suc l.m_commit_index) l.m_entries) ≡ registrations old ++ (s ∷ ss)
    all_registered p q =
        rw (p, q, append-take (old ++ new))
          (registrations-append old new
            ∙ ap (◌++◌ (registrations old)) (
                registrations-entries_of n.m_current_term (length n.m_raft_logger.m_entries)
                  (s ∷ ss)))

-- A client that starts is answered from the table of the node: read behind the header, into an empty
-- table, the answer is that table. The table is in order, its pairs and the number of the request fit
-- their types, and the content fits a message.
client_init :
    (m : Message) (svc : RaftService) (b : Buffer)
    → IsSorted svc.raft.m_raft_logger.m_addresses
    → All ServiceFits svc.raft.m_raft_logger.m_addresses
    → m.seq < 2 ^ 64
    → length (write_services svc.raft.m_raft_logger.m_addresses empty_buffer).m_data ≤ max_size - 20
    → IsValid b
    → unread b ≡ drop 20 (handle_client_init m svc).0.serializer.m_data
    → (b' : Buffer) × (receive_services [] b ≡ ok (svc.raft.m_raft_logger.m_addresses, b'))
unfolding handle_client_init answer c_rpc.Registry.handle_client_init c_rpc.Registry.reply
client_init m svc b sorted hs fits len v e =
    handle_client_init_lem m
      (record {
        m_addresses = svc.raft.m_raft_logger.m_addresses;
        m_subscribes = [];
        m_heartbeat_timers = svc.m_heartbeat_timers;
        seq = svc.seq;
      })
      b sorted hs fits len v e

-- Then a client that starts at this node finds, behind what the entries before had registered, just
-- these services. The table that it is sent fits its types and a message, and so does the number of
-- its request.
pub registered_found :
    (s : List ℕ × IpPort) (ss : Multimap IpPort) (me index w k : ℕ) (b : Buffer) (n n1 : RaftNode)
    (l : RaftLogger) (svc : RaftService) (m : Message) (b2 : Buffer)
    → All ServiceFits (s ∷ ss)
    → Available me n
    → IsIndexed n.m_raft_logger
    → IsValid b
    → unread b ≡ (write_services (s ∷ ss) empty_buffer).m_data
    → register_services b me n ≡ done (ok (some index), n1)
    → l.m_entries ≡ n1.m_raft_logger.m_entries
    → l.m_commit_index ≡ index
    → IsApplied l
    → Free w l
    → l.m_last_applied + k ≡ index
    → apply_rounds k w l ≡ done (tt, svc.raft.m_raft_logger)
    → All ServiceFits svc.raft.m_raft_logger.m_addresses
    → m.seq < 2 ^ 64
    → length (write_services svc.raft.m_raft_logger.m_addresses empty_buffer).m_data ≤ max_size - 20
    → IsValid b2
    → unread b2 ≡ drop 20 (handle_client_init m svc).0.serializer.m_data
    → (b' : Buffer) × (receive_services [] b2
        ≡ ok (
          emplace_all emplace
              (s ∷ ss)
              (emplace_all emplace (registrations n.m_raft_logger.m_entries) []),
          b',
        ))
registered_found s ss me index w k b n n1 l svc m b2 hs av h v e run es c applied f left rounds fit
      q len v2 e2 =
    let (l', run', table) =
      registered_applied s ss me index w k b n n1 l hs av h v e run es c applied f left in
    let now : svc.raft.m_raft_logger.m_addresses
        ≡ emplace_all emplace (s ∷ ss)
            (emplace_all emplace (registrations n.m_raft_logger.m_entries) []) =
      ground (arith, run', rounds, table) in
    subst (λ t. (b' : Buffer) × (receive_services [] b2 ≡ ok (t, b'))) now
      (client_init m svc b2 (subst IsSorted (sym now) sorted) fit q len v2 e2)
  where
    sorted : IsSorted (
        emplace_all emplace
          (s ∷ ss)
          (emplace_all emplace (registrations n.m_raft_logger.m_entries) []))
    sorted =
        emplace_all-keeps IsSorted (s ∷ ss)
          (emplace_all emplace (registrations n.m_raft_logger.m_entries) []) emplace-IsSorted
          (emplace_all-keeps IsSorted (registrations n.m_raft_logger.m_entries) [] emplace-IsSorted
            tt)
