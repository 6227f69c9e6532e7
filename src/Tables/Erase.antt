-- ===== src/Tables/Erase.antt =====
-- Erasing an address from a table.
use c_rpc.Base.{
  ℕ, List, [], ◌∷◌, ◌≡◌, refl, Bool, true, false, ◌==◌, ◌&&◌, str_eq, str_eq→eq, str_eq_refl, All,
  arith, Bool-cases, inl, inr, if◌then◌else◌,
}
use c_rpc.Tables.{IpPort, Multimap, str_lt, emplace, equal_range, erase_first}
use c_rpc.Tables.Order.{IsSorted}

pub erase_first-emplace :
    (k : List ℕ) (a : IpPort) (m : Multimap IpPort)
    → (erase_first k a m).0 ≡ false
    → erase_first k a (emplace (k, a) m) ≡ (true, m)
unfolding erase_first emplace
erase_first-emplace k a [] h = rw (str_eq_refl k, str_eq_refl a.m_ip) (ground arith)
erase_first-emplace k a ((k', a') ∷ m) h = elim (Bool-cases (str_lt k k')) [
  | inl lt ↦ rw (lt, str_eq_refl k, str_eq_refl a.m_ip) (ground arith)
  | inr ge ↦ rw ge (ground (arith, erase_first-emplace k a m))
]

abbrev pub address_eq : IpPort → IpPort → Bool
address_eq a b = str_eq a.m_ip b.m_ip && (a.m_port == b.m_port)

-- A list without the first address that is the given one, and whether there was one.
unfoldable pub remove_first : IpPort → List IpPort → Bool × List IpPort
remove_first address [] = (false, [])
remove_first address (a ∷ as_) =
    let rest = remove_first address as_ in
    if address_eq a address then (true, as_) else (rest.0, a ∷ rest.1)

pub erase_first_lem :
    (k : List ℕ) (a : IpPort) (m : Multimap IpPort)
    → ((erase_first k a m).0 ≡ (remove_first a (equal_range k m)).0)
      × (equal_range k (erase_first k a m).1 ≡ (remove_first a (equal_range k m)).1)
unfolding erase_first equal_range remove_first
erase_first_lem k a [] = (refl, refl)
erase_first_lem k a ((k', a') ∷ m) = elim (Bool-cases (str_eq k k')) [
  | inl same ↦ ground (arith, erase_first_lem k a m)
  | inr other ↦ ground (arith, erase_first_lem k a m)
]

-- Under the other names nothing is erased.
pub erase_first_other :
    (k other : List ℕ) (a : IpPort) (m : Multimap IpPort)
    → str_eq other k ≡ false
    → equal_range other (erase_first k a m).1 ≡ equal_range other m
unfolding erase_first equal_range
erase_first_other k other a [] h = refl
erase_first_other k other a ((k', a') ∷ m) h =
    ground (arith, erase_first_other k other a m h, str_eq→eq k k')

All-erase_first :
    (P : List ℕ × IpPort → Type 0) (k : List ℕ) (a : IpPort) (m : Multimap IpPort)
    → All P m
    → All P (erase_first k a m).1
unfolding erase_first
All-erase_first P k a [] h = tt
All-erase_first P k a ((k', a') ∷ m) (h, hs) = elim (Bool-cases (str_eq k k' && address_eq a' a)) [
  | inl found ↦ rw found hs
  | inr more ↦ rw more (h, All-erase_first P k a m hs)
]

pub erase_first-IsSorted :
    (k : List ℕ) (a : IpPort) (m : Multimap IpPort) → IsSorted m → IsSorted (erase_first k a m).1
unfolding erase_first
erase_first-IsSorted k a [] h = tt
erase_first-IsSorted k a ((k', a') ∷ m) (h, hs) =
    elim (Bool-cases (str_eq k k' && address_eq a' a)) [
      | inl found ↦ rw found hs
      | inr more ↦
          rw more
            (All-erase_first (λ p. str_lt p.0 k' ≡ false) k a m h, erase_first-IsSorted k a m hs)
    ]
