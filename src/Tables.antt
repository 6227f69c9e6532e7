-- ===== src/Tables.antt =====
-- The tables of addresses that the registration centre, the Raft nodes and the connection pool of a
-- client keep: `ip_port` of util/utils.h, and a std::multimap with names as keys.
pub mod Order
pub mod Erase
pub mod Fill
use c_rpc.Base.{ℕ, List, [], ◌∷◌, Bool, true, false, ◌==◌, ltb, str_eq, ◌&&◌, ◌||◌, if◌then◌else◌}

pub record IpPort : Type 0 where
  pub m_ip : List ℕ
  pub m_port : ℕ

-- A std::multimap with strings as keys: the pairs in the order of their keys, those of one key in the
-- order of their insertion.
abbrev pub Multimap {ℓ} : Type ℓ → Type ℓ
Multimap V = List (List ℕ × V)

-- `<` on strings.
unfoldable pub str_lt : List ℕ → List ℕ → Bool
str_lt xs [] = false
str_lt [] (y ∷ ys) = true
str_lt (x ∷ xs) (y ∷ ys) = ltb x y || ((x == y) && str_lt xs ys)

-- std::multimap::emplace: behind the last pair whose key is not greater.
unfoldable pub emplace {ℓ} : {V : Type ℓ} → List ℕ × V → Multimap V → Multimap V
emplace (k, v) [] = (k, v) ∷ []
emplace (k, v) ((k', v') ∷ m) =
    let rest = emplace (k, v) m in if str_lt k k' then (k, v) ∷ (k', v') ∷ m else (k', v') ∷ rest

-- std::multimap::equal_range: the values of a key.
unfoldable pub equal_range {ℓ} : {V : Type ℓ} → List ℕ → Multimap V → List V
equal_range k [] = []
equal_range k ((k', v) ∷ m) = let rest = equal_range k m in if str_eq k k' then v ∷ rest else rest

unfoldable pub erase_first : List ℕ → IpPort → Multimap IpPort → Bool × Multimap IpPort
erase_first func_name address [] = (false, [])
erase_first func_name address ((k, a) ∷ m) =
    let rest = erase_first func_name address m in
    if str_eq func_name k && (str_eq a.m_ip address.m_ip && (a.m_port == address.m_port))
    then (true, m)
    else (rest.0, (k, a) ∷ rest.1)
