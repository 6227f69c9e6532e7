-- ===== src/Timer/Sets.antt =====
-- The set of coroutine/timer.h: a list whose events are strictly later one after the other.
use c_rpc.Base.{
  ℕ, ◌<◌, ◌≡◌, ◌≢◌, ◌⊎◌, refl, ap, ◌∙◌, List, [], ◌∷◌, ◌++◌, All, Option, none, some, false, ◌==◌,
  ltb, arith, Bool-cases, inl, inr,
}
use mathlib.Core.Path.{subst}
use c_rpc.Timer.{set_insert, set_without}

pub All-map {ℓ κ} :
    {A : Type ℓ} {P Q : A → Type κ} → ((x : A) → P x → Q x) → (xs : List A) → All P xs → All Q xs
All-map f [] h = tt
All-map f (x ∷ xs) (h, hs) = (f x h, All-map f xs hs)

abbrev pub NotIn : ℕ → List ℕ → Type 0
NotIn e xs = All (λ x. x ≢ e) xs

abbrev pub IsOrdered : (ℕ → ℕ) → List ℕ → Type 0
IsOrdered at [] = Unit {0}
IsOrdered at (x ∷ xs) = All (λ y. at x < at y) xs × IsOrdered at xs

abbrev pub Distinct : List ℕ → Type 0
Distinct [] = Unit {0}
Distinct (x ∷ xs) = NotIn x xs × Distinct xs

pub IsOrdered-Distinct : (at : ℕ → ℕ) (xs : List ℕ) → IsOrdered at xs → Distinct xs
IsOrdered-Distinct at [] h = tt
IsOrdered-Distinct at (x ∷ xs) (h, hs) =
    (All-map (λ y lt e. omega (arith, lt, ap at e)) xs h, IsOrdered-Distinct at xs hs)

pub All-insert :
    (P : ℕ → Type 0) (at : ℕ → ℕ) (e : ℕ) (xs : List ℕ)
    → P e
    → All P xs
    → All P (set_insert at e xs)
unfolding set_insert
All-insert P at e [] h hs = (h, tt)
All-insert P at e (x ∷ xs) h (hx, hs) = elim (Bool-cases (ltb (at e) (at x))) [
  | inl lt ↦ rw lt (h, (hx, hs))
  | inr ge ↦ elim (Bool-cases (ltb (at x) (at e))) [
    | inl gt ↦ rw (ge, gt) (hx, All-insert P at e xs h hs)
    | inr eq ↦ rw (ge, eq) (hx, hs)
  ]
]

pub IsOrdered-insert :
    (at : ℕ → ℕ) (e : ℕ) (xs : List ℕ) → IsOrdered at xs → IsOrdered at (set_insert at e xs)
unfolding set_insert
IsOrdered-insert at e [] h = (tt, tt)
IsOrdered-insert at e (x ∷ xs) (h, hs) = elim (Bool-cases (ltb (at e) (at x))) [
  | inl lt ↦ rw lt ((ground arith, All-map (λ y k. ground (arith, lt)) xs h), (h, hs))
  | inr ge ↦ elim (Bool-cases (ltb (at x) (at e))) [
    | inl gt ↦
        rw (ge, gt)
          (All-insert (λ y. at x < at y) at e xs (ground arith) h, IsOrdered-insert at e xs hs)
    | inr eq ↦ rw (ge, eq) (h, hs)
  ]
]

-- Times that agree on the set order it alike.
pub IsOrdered-agree :
    (at at' : ℕ → ℕ) (xs : List ℕ) → All (λ x. at' x ≡ at x) xs → IsOrdered at xs → IsOrdered at' xs
IsOrdered-agree at at' [] a h = tt
IsOrdered-agree at at' (x ∷ xs) (a, rest) (h, hs) =
    (later xs rest h, IsOrdered-agree at at' xs rest hs)
  where
    later :
        (ys : List ℕ)
        → All (λ y. at' y ≡ at y) ys
        → All (λ y. at x < at y) ys
        → All (λ y. at' x < at' y) ys
    later [] b k = tt
    later (y ∷ ys) (b, bs) (k, ks) = (omega (arith, a, b, k), later ys bs ks)

-- How the search goes on: at the head, or in the tail.
data Without (at : ℕ → ℕ) (e x : ℕ) (xs ys : List ℕ) : Type 0 where
  at_head : at x ≡ at e → ys ≡ xs → Without at e x xs ys
  in_tail :
      (zs : List ℕ)
      → at x ≢ at e
      → set_without at e xs ≡ some zs
      → ys ≡ x ∷ zs
      → Without at e x xs ys

set_without-cases :
    (at : ℕ → ℕ) (e x : ℕ) (xs ys : List ℕ)
    → set_without at e (x ∷ xs) ≡ some ys
    → Without at e x xs ys
unfolding set_without
set_without-cases at e x xs ys k = elim (Bool-cases (at x == at e)) [
  | inl same ↦ at_head (ground arith) (ground (arith, k))
  | inr other ↦ go other (set_without at e xs) refl
]
  where
    go :
        (at x == at e) ≡ false
        → (r : Option (List ℕ)) → set_without at e xs ≡ r
        → Without at e x xs ys
    go other none q = absurd (ground (arith, k))
    go other (some zs) q = in_tail zs (ground arith) q (ground (arith, k))

pub All-without :
    (P : ℕ → Type 0) (at : ℕ → ℕ) (e : ℕ) (xs ys : List ℕ)
    → set_without at e xs ≡ some ys
    → All P xs
    → All P ys
unfolding set_without
All-without P at e [] ys k h = absurd (ground (arith, k))
All-without P at e (x ∷ xs) ys k (h, hs) = elim (set_without-cases at e x xs ys k) [
  | at_head same q ↦ rw q hs
  | in_tail zs other r q ↦ rw q (h, All-without P at e xs zs r hs)
]

-- Without the event that has the time of `e` the set keeps its order, and `e` is not in it.
pub set_without-IsOrdered :
    (at : ℕ → ℕ) (e : ℕ) (xs ys : List ℕ)
    → IsOrdered at xs
    → set_without at e xs ≡ some ys
    → IsOrdered at ys × NotIn e ys
unfolding set_without
set_without-IsOrdered at e [] ys h k = absurd (ground (arith, k))
set_without-IsOrdered at e (x ∷ xs) ys (h, hs) k = elim (set_without-cases at e x xs ys k) [
  | at_head same q ↦ rw q (hs, All-map (λ y lt f. omega (arith, lt, same, ap at f)) xs h)
  | in_tail zs other r q ↦
      let (o, n) = set_without-IsOrdered at e xs zs hs r in
      rw q ((All-without (λ y. at x < at y) at e xs zs r h, o), (λ f. other (ap at f), n))
]

pub All-parts {ℓ κ} :
    {A : Type ℓ} (P : A → Type κ) (xs ys : List A) → All P (xs ++ ys) → All P xs × All P ys
All-parts P [] ys h = (tt, h)
All-parts P (x ∷ xs) ys (h, hs) = let (a, b) = All-parts P xs ys hs in ((h, a), b)

pub IsOrdered-right : (at : ℕ → ℕ) (xs ys : List ℕ) → IsOrdered at (xs ++ ys) → IsOrdered at ys
IsOrdered-right at [] ys h = h
IsOrdered-right at (x ∷ xs) ys h = IsOrdered-right at xs ys h.1

pub Distinct-parts : (xs ys : List ℕ) → Distinct (xs ++ ys) → Distinct xs × All (λ x. NotIn x ys) xs
Distinct-parts [] ys h = (tt, tt)
Distinct-parts (x ∷ xs) ys (n, d) =
    let (a, b) = Distinct-parts xs ys d in
    let (p, q) = All-parts (λ y. y ≢ x) xs ys n in ((p, a), (q, b))

-- `e` is in the set.
abbrev pub Has : List ℕ → ℕ → Type 0
Has [] e = ⊥
Has (x ∷ xs) e = (x ≡ e) ⊎ Has xs e

pub All-Has {ℓ} : (P : ℕ → Type ℓ) (xs : List ℕ) (e : ℕ) → All P xs → Has xs e → P e
All-Has P [] e h k = absurd k
All-Has P (x ∷ xs) e (h, hs) (inl q) = subst P q h
All-Has P (x ∷ xs) e (h, hs) (inr k) = All-Has P xs e hs k

pub Has-insert : (at : ℕ → ℕ) (e : ℕ) (xs : List ℕ) (i : ℕ) → Has xs i → Has (set_insert at e xs) i
unfolding set_insert
Has-insert at e [] i h = absurd h
Has-insert at e (x ∷ xs) i h = elim (Bool-cases (ltb (at e) (at x))) [
  | inl lt ↦ rw lt (inr h)
  | inr ge ↦ elim (Bool-cases (ltb (at x) (at e))) [
    | inl gt ↦ rw (ge, gt) (elim h [ inl q ↦ inl q | inr k ↦ inr (Has-insert at e xs i k) ])
    | inr eq ↦ rw (ge, eq) h
  ]
]

-- An event whose time is taken is not inserted.
pub set_insert_taken :
    (at : ℕ → ℕ) (e i : ℕ) (xs : List ℕ)
    → IsOrdered at xs
    → Has xs i
    → at i ≡ at e
    → set_insert at e xs ≡ xs
unfolding set_insert
set_insert_taken at e i [] h k q = absurd k
set_insert_taken at e i (x ∷ xs) (h, hs) (inl p) q =
    let p' : at x ≡ at e = ap at p ∙ q in ground arith
set_insert_taken at e i (x ∷ xs) (h, hs) (inr k) q =
    let lt : at x < at i = All-Has (λ y. at x < at y) xs i h k in
    ground (arith, set_insert_taken at e i xs hs k q)
