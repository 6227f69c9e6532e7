-- ===== src/Tables/Order.antt =====
-- The order of a table, and what is found in it.
use c_rpc.Base.{
  emplace_all, ℕ, List, [], ◌∷◌, ◌++◌, ◌≡◌, refl, ap, All, true, false, str_eq, str_eq→eq,
  str_eq_refl, arith, Bool-cases, inl, inr,
}
use c_rpc.Tables.{Multimap, str_lt, emplace, equal_range}

pub str_lt_irrefl : (xs : List ℕ) → str_lt xs xs ≡ false
unfolding str_lt
str_lt_irrefl [] = refl
str_lt_irrefl (x ∷ xs) = ground (arith, str_lt_irrefl xs)

str_lt_asym : (xs ys : List ℕ) → str_lt xs ys ≡ true → str_lt ys xs ≡ false
unfolding str_lt
str_lt_asym [] [] h = refl
str_lt_asym [] (y ∷ ys) h = refl
str_lt_asym (x ∷ xs) [] h = cc
str_lt_asym (x ∷ xs) (y ∷ ys) h = ground (arith, str_lt_asym xs ys)

str_lt_trans : (xs ys zs : List ℕ) → str_lt xs ys ≡ true → str_lt ys zs ≡ true → str_lt xs zs ≡ true
unfolding str_lt
str_lt_trans xs ys [] h k = cc
str_lt_trans xs [] (z ∷ zs) h k = cc
str_lt_trans [] (y ∷ ys) (z ∷ zs) h k = refl
str_lt_trans (x ∷ xs) (y ∷ ys) (z ∷ zs) h k = ground (arith, str_lt_trans xs ys zs)

-- No later key is smaller.
abbrev pub IsSorted {ℓ} : {V : Type ℓ} → Multimap V → Type 0
IsSorted [] = Unit {0}
IsSorted ((k, v) ∷ m) = All (λ p. str_lt p.0 k ≡ false) m × IsSorted m

module _ {V : Type 0} where
  pub All-emplace :
      (P : List ℕ × V → Type 0) (p : List ℕ × V) (m : Multimap V)
      → P p
      → All P m
      → All P (emplace p m)
  unfolding emplace
  All-emplace P (k, v) [] h hs = (h, tt)
  All-emplace P (k, v) ((k', v') ∷ m) h (h', hs) = elim (Bool-cases (str_lt k k')) [
    | inl lt ↦ rw lt (h, (h', hs))
    | inr ge ↦ rw ge (h', All-emplace P (k, v) m h hs)
  ]

  -- What is not below the head is not below anything that is.
  All-below :
      (k k' : List ℕ) (m : Multimap V)
      → str_lt k k' ≡ true
      → All (λ p. str_lt p.0 k' ≡ false) m
      → All (λ p. str_lt p.0 k ≡ false) m
  All-below k k' [] lt h = tt
  All-below k k' ((x, v) ∷ m) lt (h, hs) =
      (ground (arith, str_lt_trans x k k'), All-below k k' m lt hs)

  -- Inserting keeps the order.
  pub emplace-IsSorted : (p : List ℕ × V) (m : Multimap V) → IsSorted m → IsSorted (emplace p m)
  unfolding emplace
  emplace-IsSorted (k, v) [] h = (tt, tt)
  emplace-IsSorted (k, v) ((k', v') ∷ m) (h, hs) = elim (Bool-cases (str_lt k k')) [
    | inl lt ↦ rw lt ((str_lt_asym k k' lt, All-below k k' m lt h), (h, hs))
    | inr ge ↦
        rw ge (All-emplace (λ p. str_lt p.0 k' ≡ false) (k, v) m ge h, emplace-IsSorted (k, v) m hs)
  ]

  none_above :
      (k k' : List ℕ) (m : Multimap V)
      → str_lt k k' ≡ true
      → All (λ p. str_lt p.0 k' ≡ false) m
      → equal_range k m ≡ []
  unfolding equal_range
  none_above k k' [] lt h = refl
  none_above k k' ((x, v) ∷ m) lt (h, hs) = elim (Bool-cases (str_eq k x)) [
    | inl same ↦ absurd (ground (arith, ap (λ s. str_lt s k') (str_eq→eq k x same)))
    | inr other ↦ rw other (none_above k k' m lt hs)
  ]

  -- In a table in order, the address that is added under a name is found last under that name.
  pub equal_range-emplace :
      (k : List ℕ) (v : V) (m : Multimap V)
      → IsSorted m
      → equal_range k (emplace (k, v) m) ≡ equal_range k m ++ v ∷ []
  unfolding equal_range emplace
  equal_range-emplace k v [] h = rw (str_eq_refl k) refl
  equal_range-emplace k v ((k', v') ∷ m) (h, hs) = elim (Bool-cases (str_lt k k')) [
    | inl lt ↦
        ground (arith, str_eq_refl k, none_above k k' m lt h, str_eq→eq k k', str_lt_irrefl k)
    | inr ge ↦ ground (arith, equal_range-emplace k v m hs)
  ]

  -- Under every other name the same addresses are found.
  pub equal_range_other :
      (k other : List ℕ) (v : V) (m : Multimap V)
      → str_eq other k ≡ false
      → equal_range other (emplace (k, v) m) ≡ equal_range other m
  unfolding equal_range emplace
  equal_range_other k other v [] h = rw h refl
  equal_range_other k other v ((k', v') ∷ m) h = ground (arith, equal_range_other k other v m h)

pub emplace_all-keeps {ℓ} :
    {V : Type 0} (P : Multimap V → Type ℓ) (ps m : Multimap V)
    → ((p : List ℕ × V) (t : Multimap V) → P t → P (emplace p t))
    → P m
    → P (emplace_all emplace ps m)
emplace_all-keeps P [] m h k = k
emplace_all-keeps P (p ∷ ps) m h k = emplace_all-keeps P ps (emplace p m) h (h p m k)
