-- ===== src/Pool/Addresses.antt =====
-- The table of addresses of rpc/rpc_connection_pool.cpp refines a function from names to lists.
use c_rpc.Base.{
  ℕ, List, [], ◌∷◌, ◌++◌, ◌≡◌, refl, sym, ap, ◌∙◌, Bool, str_eq, str_eq→eq, str_eq_refl, Bool-cases,
  inl, inr, arith, if◌then◌else◌,
}
use mathlib.Core.Path.{fun_ext, subst}
use c_rpc.Tables.{IpPort, equal_range}
use c_rpc.Tables.Order.{IsSorted, emplace-IsSorted, equal_range-emplace, equal_range_other}
use c_rpc.Tables.Erase.{remove_first, erase_first_lem, erase_first_other, erase_first-IsSorted}
use c_rpc.Pool.{
  ConnectionPool, new_pool, add_address, erase_address, change_address, get_all_address,
}

pub data Op : Type 0 where
  adds : List ℕ → IpPort → Op
  erases : List ℕ → IpPort → Op
  changes : List ℕ → IpPort → IpPort → Op

-- The calls in order, with the results of those that return whether they found the address.
unfoldable pub run : List Op → ConnectionPool → List Bool × ConnectionPool
run [] p = ([], p)
run (adds f a ∷ ops) p = run ops (add_address f a p)
run (erases f a ∷ ops) p =
    let (found, p1) = erase_address f a p in let (rest, p') = run ops p1 in (found ∷ rest, p')
run (changes f old new ∷ ops) p =
    let (found, p1) = change_address f old new p in
    let (rest, p') = run ops p1 in (found ∷ rest, p')

-- The same of a function from names to lists: an address is added at the end, and the first that is
-- equal is erased.
abbrev pub update : List ℕ → List IpPort → (List ℕ → List IpPort) → List ℕ → List IpPort
update f as_ t other = if str_eq other f then as_ else t other

unfoldable pub replay : List Op → (List ℕ → List IpPort) → List Bool × (List ℕ → List IpPort)
replay [] t = ([], t)
replay (adds f a ∷ ops) t = replay ops (update f (t f ++ a ∷ []) t)
replay (erases f a ∷ ops) t =
    let (found, as_) = remove_first a (t f) in
    let (rest, t') = replay ops (update f as_ t) in (found ∷ rest, t')
replay (changes f old new ∷ ops) t =
    let (found, as_) = remove_first old (t f) in
    let (rest, t') = replay ops (update f (if found then as_ ++ new ∷ [] else as_) t) in
    (found ∷ rest, t')

abbrev pub finds : ConnectionPool → List ℕ → List IpPort
finds p f = get_all_address f p

finds-add_address :
    (f : List ℕ) (a : IpPort) (p : ConnectionPool)
    → IsSorted p.m_addresses
    → finds (add_address f a p) ≡ update f (finds p f ++ a ∷ []) (finds p)
unfolding add_address get_all_address
finds-add_address f a p h = fun_ext λ other. elim (Bool-cases (str_eq other f)) [
  | inl same ↦ rw (same, str_eq→eq other f same) (equal_range-emplace f a p.m_addresses h)
  | inr different ↦ rw different (equal_range_other f other a p.m_addresses different)
]

finds-erase_address :
    (f : List ℕ) (a : IpPort) (p : ConnectionPool)
    → finds (erase_address f a p).1 ≡ update f (remove_first a (finds p f)).1 (finds p)
unfolding erase_address get_all_address
finds-erase_address f a p = fun_ext λ other. elim (Bool-cases (str_eq other f)) [
  | inl same ↦ rw (same, str_eq→eq other f same) (erase_first_lem f a p.m_addresses).1
  | inr different ↦ rw different (erase_first_other f other a p.m_addresses different)
]

Refines : List Op → ConnectionPool → (List ℕ → List IpPort) → Type 0
Refines ops p t = ((run ops p).0 ≡ (replay ops t).0) × (finds (run ops p).1 ≡ (replay ops t).1)

found_erase :
    (f : List ℕ) (a : IpPort) (p : ConnectionPool)
    → (erase_address f a p).0 ≡ (remove_first a (finds p f)).0
unfolding erase_address get_all_address
found_erase f a p = (erase_first_lem f a p.m_addresses).0

erase_address-IsSorted :
    (f : List ℕ) (a : IpPort) (p : ConnectionPool)
    → IsSorted p.m_addresses
    → IsSorted (erase_address f a p).1.m_addresses
unfolding erase_address
erase_address-IsSorted f a p h = erase_first-IsSorted f a p.m_addresses h

add_address-IsSorted :
    (f : List ℕ) (a : IpPort) (p : ConnectionPool)
    → IsSorted p.m_addresses
    → IsSorted (add_address f a p).m_addresses
unfolding add_address
add_address-IsSorted f a p h = emplace-IsSorted (f, a) p.m_addresses h

update_twice :
    (f : List ℕ) (as_ bs : List IpPort) (t : List ℕ → List IpPort)
    → update f bs (update f as_ t) ≡ update f bs t
update_twice f as_ bs t = fun_ext λ other. elim (Bool-cases (str_eq other f)) [
  | inl same ↦ rw same refl
  | inr different ↦ rw different refl
]

-- A changed address is erased, and the new one added if it was there.
found_change :
    (f : List ℕ) (old new : IpPort) (p : ConnectionPool)
    → (change_address f old new p).0 ≡ (remove_first old (finds p f)).0
unfolding change_address
found_change f old new p = ground (arith, found_erase f old p)

change_address-IsSorted :
    (f : List ℕ) (old new : IpPort) (p : ConnectionPool)
    → IsSorted p.m_addresses
    → IsSorted (change_address f old new p).1.m_addresses
unfolding change_address
change_address-IsSorted f old new p h = elim (Bool-cases (erase_address f old p).0) [
  | inl there ↦
      rw there
        (add_address-IsSorted f new (erase_address f old p).1 (erase_address-IsSorted f old p h))
  | inr gone ↦ rw gone (erase_address-IsSorted f old p h)
]

finds-change_address :
    (f : List ℕ) (old new : IpPort) (p : ConnectionPool)
    → IsSorted p.m_addresses
    → finds (change_address f old new p).1 ≡ (
        let (found, as_) = remove_first old (finds p f) in
        update f (if found then as_ ++ new ∷ [] else as_) (finds p))
unfolding change_address
finds-change_address f old new p h = elim (Bool-cases (erase_address f old p).0) [
  | inl there ↦
      rw (there, sym (found_erase f old p) ∙ there)
        (finds-add_address f new (erase_address f old p).1 (erase_address-IsSorted f old p h)
          ∙ ap (λ t. update f (t f ++ new ∷ []) t) (finds-erase_address f old p)
          ∙ added)
  | inr gone ↦ rw (gone, sym (found_erase f old p) ∙ gone) (finds-erase_address f old p)
]
  where
    as_ : List IpPort
    as_ = (remove_first old (finds p f)).1

    added :
        update f (update f as_ (finds p) f ++ new ∷ []) (update f as_ (finds p))
        ≡ update f (as_ ++ new ∷ []) (finds p)
    added = rw (str_eq_refl f) (update_twice f as_ (as_ ++ new ∷ []) (finds p))

run_from : (ops : List Op) (p : ConnectionPool) → IsSorted p.m_addresses → Refines ops p (finds p)
unfolding Refines run replay
run_from [] p h = (refl, refl)
run_from (adds f a ∷ ops) p h =
    subst (Refines ops (add_address f a p)) (finds-add_address f a p h)
      (run_from ops (add_address f a p) (add_address-IsSorted f a p h))
run_from (erases f a ∷ ops) p h =
    let (results, tables) =
      subst (Refines ops (erase_address f a p).1) (finds-erase_address f a p)
        (run_from ops (erase_address f a p).1 (erase_address-IsSorted f a p h)) in
    (rw (found_erase f a p, results) refl, tables)
run_from (changes f old new ∷ ops) p h =
    let (results, tables) =
      subst (Refines ops (change_address f old new p).1) (finds-change_address f old new p h)
        (run_from ops (change_address f old new p).1 (change_address-IsSorted f old new p h)) in
    (rw (found_change f old new p, results) refl, tables)

-- From a new pool, whatever addresses are added, erased and changed, in whatever order, the calls
-- return what they do on a function from names to lists, where an address is added at the end and the
-- first equal one is erased, and the addresses found in the end are the same.
pub addresses_refine :
    (ops : List Op)
    → ((run ops new_pool).0 ≡ (replay ops (λ f. [])).0)
      × (finds (run ops new_pool).1 ≡ (replay ops (λ f. [])).1)
unfolding new_pool get_all_address equal_range
addresses_refine ops = unfold Refines in run_from ops new_pool tt
