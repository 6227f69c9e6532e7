-- ===== src/Pool/Sessions.antt =====
-- The connections of rpc/rpc_connection_pool.cpp.
use c_rpc.Base.{ℕ, List, [], ◌∷◌, ◌≡◌, none, some, Bool, false, arith}
use c_rpc.Tables.{IpPort, Multimap, equal_range}
use c_rpc.Tables.Order.{IsSorted, equal_range-emplace}
use c_rpc.Pool.{
  ConnectionPool, new_session, get_all_rpc_session, get_rpc_session, add_server, get_all_register,
  map_find, raft_register, values,
}

-- What a lookup of sessions has found, every later one finds again without a new connection: the
-- sessions are the same, whatever the connections would return by then, and the pool stays as it is.
-- The table of servers was in order.
pub get_all_rpc_session-pooled :
    (connects connects' : IpPort → Bool) (func_name : List ℕ) (p p' : ConnectionPool) (session : ℕ)
    (others : List ℕ)
    → IsSorted p.m_servers
    → get_all_rpc_session connects func_name p ≡ (session ∷ others, p')
    → get_all_rpc_session connects' func_name p' ≡ (session ∷ others, p')
unfolding get_all_rpc_session new_session add_server
get_all_rpc_session-pooled connects connects' func_name p p' session others h e =
    ground (arith, e, equal_range-emplace func_name p.made p.m_servers h)

-- With no session, and no address that can be connected to, there is no session to choose, and the
-- tables stay as they are.
pub get_rpc_session-none :
    (chosen : ℕ) (func_name : List ℕ) (p : ConnectionPool)
    → equal_range func_name p.m_servers ≡ []
    → ((get_rpc_session (λ address. false) chosen func_name p).0 ≡ none)
      × ((get_rpc_session (λ address. false) chosen func_name p).1.m_servers ≡ p.m_servers)
      × ((get_rpc_session (λ address. false) chosen func_name p).1.m_addresses ≡ p.m_addresses)
unfolding get_rpc_session get_all_rpc_session new_session
get_rpc_session-none chosen func_name p e = ground (arith, e)

-- Where "raft register" is among the registration centres, its session takes the place of the one
-- whose name comes first, which is not among those returned.
pub get_all_register-first :
    (k : List ℕ) (v session : ℕ) (m : Multimap ℕ) (p : ConnectionPool)
    → p.m_registers ≡ (k, v) ∷ m
    → map_find raft_register p.m_registers ≡ some session
    → get_all_register p ≡ session ∷ values m
unfolding get_all_register
get_all_register-first k v session m p e f = ground (arith, e, f)
