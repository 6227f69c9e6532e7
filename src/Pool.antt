-- ===== src/Pool.antt =====
-- `ConnectionPool` of rpc/rpc_connection_pool.h and rpc_connection_pool.cpp: what a client knows of
-- functions, addresses and connections. Nothing of the class adds to `m_addr_to_session`, which is left
-- out with the loop over it.
pub mod Addresses
pub mod Sessions
mod Examples
use c_rpc.Base.{
  ℕ, suc, ◌+◌, List, [], ◌∷◌, get_elem?, Option, none, some, Bool, true, false, str_eq,
  if◌then◌else◌,
}
use c_rpc.Tables.{IpPort, Multimap, emplace, equal_range, erase_first}

-- `std::map` with strings as keys: a table in order that has a key once at most. `find` with the
-- value; `m[k] = v`; `emplace`, which leaves the value of a key that is there; `erase`.
unfoldable pub map_find {ℓ} : {V : Type ℓ} → List ℕ → Multimap V → Option V
map_find k [] = none
map_find k ((k', v) ∷ m) = let rest = map_find k m in if str_eq k k' then some v else rest

unfoldable pub map_change {ℓ} : {V : Type ℓ} → List ℕ → V → Multimap V → Multimap V
map_change k v [] = []
map_change k v ((k', v') ∷ m) =
    let rest = map_change k v m in if str_eq k k' then (k', v) ∷ m else (k', v') ∷ rest

unfoldable pub map_assign {ℓ} : {V : Type ℓ} → List ℕ → V → Multimap V → Multimap V
map_assign k v m = elim (map_find k m) [ none ↦ emplace (k, v) m | some old ↦ map_change k v m ]

unfoldable pub map_emplace {ℓ} : {V : Type ℓ} → List ℕ × V → Multimap V → Multimap V
map_emplace (k, v) m = elim (map_find k m) [ none ↦ emplace (k, v) m | some old ↦ m ]

-- `find` and `erase` of the element found, also of a multimap, where it is the first of the key.
unfoldable pub find_erase {ℓ} : {V : Type ℓ} → List ℕ → Multimap V → Bool × Multimap V
find_erase k [] = (false, [])
find_erase k ((k', v) ∷ m) =
    let rest = find_erase k m in if str_eq k k' then (true, m) else (rest.0, (k', v) ∷ rest.1)

abbrev pub values {ℓ} : {V : Type ℓ} → Multimap V → List V
values [] = []
values ((k, v) ∷ m) = v ∷ values m

-- A session is a number: how many were made before it.
pub record ConnectionPool : Type 0 where
  pub m_funcs : Multimap (List (List ℕ))
  pub m_servers : Multimap ℕ
  pub m_addresses : Multimap IpPort
  pub m_registers : Multimap ℕ
  pub made : ℕ

unfoldable pub new_pool : ConnectionPool
new_pool = record { m_funcs = []; m_servers = []; m_addresses = []; m_registers = []; made = 0 }

unfoldable pub add_func : List ℕ → List (List ℕ) → ConnectionPool → ConnectionPool
add_func func_name params p = record p { m_funcs = map_assign func_name params p.m_funcs }

unfoldable pub erase_func : List ℕ → ConnectionPool → Bool × ConnectionPool
erase_func func_name p =
    let (found, m) = find_erase func_name p.m_funcs in (found, record p { m_funcs = m })

unfoldable pub change_func : List ℕ → List (List ℕ) → ConnectionPool → Bool × ConnectionPool
change_func func_name params p = elim (map_find func_name p.m_funcs) [
  | none ↦ (false, p)
  | some old ↦ (true, record p { m_funcs = map_change func_name params p.m_funcs })
]

-- `==` of two vectors of strings.
unfoldable pub params_eq : List (List ℕ) → List (List ℕ) → Bool
params_eq [] [] = true
params_eq [] (y ∷ ys) = false
params_eq (x ∷ xs) [] = false
params_eq (x ∷ xs) (y ∷ ys) = let rest = params_eq xs ys in if str_eq x y then rest else false

unfoldable pub check_func_params : List ℕ → List (List ℕ) → ConnectionPool → Bool
check_func_params func_name params p = elim (map_find func_name p.m_funcs) [
  | none ↦ false
  | some expected ↦ params_eq expected params
]

unfoldable pub add_address : List ℕ → IpPort → ConnectionPool → ConnectionPool
add_address func_name address p = record p {
  m_addresses = emplace (func_name, address) p.m_addresses;
}

unfoldable pub erase_address : List ℕ → IpPort → ConnectionPool → Bool × ConnectionPool
erase_address func_name address p =
    let (found, m) = erase_first func_name address p.m_addresses in
    (found, record p { m_addresses = m })

unfoldable pub change_address : List ℕ → IpPort → IpPort → ConnectionPool → Bool × ConnectionPool
unfolding add_address erase_address
change_address func_name old_address new_address p =
    let (found, p') = erase_address func_name old_address p in
    if found then (true, add_address func_name new_address p') else (false, p')

unfoldable pub add_server : List ℕ → ℕ → ConnectionPool → ConnectionPool
add_server server_name session p = record p {
  m_servers = emplace (server_name, session) p.m_servers;
}

unfoldable pub erase_server : List ℕ → ConnectionPool → Bool × ConnectionPool
erase_server server_name p =
    let (found, m) = find_erase server_name p.m_servers in (found, record p { m_servers = m })

unfoldable pub add_register : List ℕ → ℕ → ConnectionPool → ConnectionPool
add_register register_name session p = record p {
  m_registers = map_emplace (register_name, session) p.m_registers;
}

unfoldable pub erase_register : List ℕ → ConnectionPool → Bool × ConnectionPool
erase_register register_name p =
    let (found, m) = find_erase register_name p.m_registers in (found, record p { m_registers = m })

abbrev pub raft_register : List ℕ
raft_register =
    b'r' ∷ b'a' ∷ b'f' ∷ b't' ∷ b' ' ∷ b'r' ∷ b'e' ∷ b'g' ∷ b'i' ∷ b's' ∷ b't' ∷ b'e' ∷ b'r' ∷ []

-- `xs[0] = x`, on a vector that is not empty.
abbrev pub assign_first : ℕ → List ℕ → List ℕ
assign_first x [] = []
assign_first x (y ∷ ys) = x ∷ ys

unfoldable pub get_all_register : ConnectionPool → List ℕ
get_all_register p = elim (map_find raft_register p.m_registers) [
  | none ↦ values p.m_registers
  | some session ↦ assign_first session (values p.m_registers)
]

unfoldable pub get_all_address : List ℕ → ConnectionPool → List IpPort
get_all_address func_name p = equal_range func_name p.m_addresses

-- A new session, which is connected to the first address. `connects` is what `connect` returns for an
-- address.
unfoldable pub new_session : (IpPort → Bool) → List ℕ → ConnectionPool → List ℕ × ConnectionPool
unfolding add_server
new_session connects func_name p = elim (get_all_address func_name p) [
  | [] ↦ ([], p)
  | address ∷ others ↦
      let p' = record p { made = suc p.made } in
      if connects address then (p.made ∷ [], add_server func_name p.made p') else ([], p')
]

unfoldable pub get_all_rpc_session :
    (IpPort → Bool) → List ℕ → ConnectionPool → List ℕ × ConnectionPool
get_all_rpc_session connects func_name p = elim (equal_range func_name p.m_servers) [
  | [] ↦ new_session connects func_name p
  | session ∷ others ↦ (session ∷ others, p)
]

-- `chosen` is what the random distribution gives, an index of the vector. `none` is the null pointer.
unfoldable pub get_rpc_session :
    (IpPort → Bool) → ℕ → List ℕ → ConnectionPool → Option ℕ × ConnectionPool
get_rpc_session connects chosen func_name p =
    let (sessions, p') = get_all_rpc_session connects func_name p in (get_elem? sessions chosen, p')
