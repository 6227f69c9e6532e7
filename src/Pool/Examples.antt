-- ===== src/Pool/Examples.antt =====
-- A pool with one function at two addresses, and two registration centres.
use c_rpc.Base.{ℕ, List, [], ◌∷◌, ◌≡◌, refl, true, false, str_eq}
use c_rpc.Tables.{IpPort, emplace, equal_range}
use c_rpc.Tables.Erase.{remove_first}
use c_rpc.Pool.{
  ConnectionPool, new_pool, add_address, erase_address, change_address, get_all_address,
  get_all_rpc_session, get_rpc_session, get_all_register, map_find, raft_register, new_session,
}
use c_rpc.Pool.Addresses.{Op, adds, erases, changes, run, replay, finds, addresses_refine}

abbrev here : IpPort
here = record { m_ip = 49 ∷ []; m_port = 80 }

abbrev there : IpPort
there = record { m_ip = 50 ∷ []; m_port = 81 }

abbrev add_name : List ℕ
add_name = 97 ∷ []

abbrev calls : List Op
calls =
    adds add_name here
    ∷ adds add_name there
    ∷ changes add_name here there
    ∷ erases add_name here
    ∷ []

addresses_refine_example :
    ((run calls new_pool).0 ≡ true ∷ false ∷ [])
    × (finds (run calls new_pool).1 ≡ (replay calls (λ f. [])).1)
unfolding replay remove_first str_eq
addresses_refine_example = addresses_refine calls

abbrev pool : ConnectionPool
pool = record {
  m_funcs = [];
  m_servers = [];
  m_addresses = (add_name, here) ∷ [];
  m_registers = (98 ∷ [], 0) ∷ (raft_register, 1) ∷ [];
  made = 2;
}

abbrev connected : ConnectionPool
connected = record pool { m_servers = (add_name, 2) ∷ []; made = 3 }

connects_now : get_all_rpc_session (λ address. true) add_name pool ≡ (2 ∷ [], connected)
unfolding get_all_rpc_session new_session get_all_address equal_range str_eq c_rpc.Pool.add_server
    emplace
connects_now = refl
