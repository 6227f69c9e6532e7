-- ===== src/Base/Counts.antt =====
-- How many numbers below a bound satisfy a test.
use Prim.Native.Nat.{ℕ, zero, suc, ◌+◌, ◌≤◌, ◌<◌}
use mathlib.Core.Path.{◌≡◌}
use mathlib.Core.Logic.{◌≢◌, inl, inr}
use mathlib.Core.Bool.{Bool, true, false, ◌&&◌}
use native.Mathlib.Omega.{arith}
use c_rpc.Base.Tests.{◌==◌, if◌then◌else◌, Bool-cases}

abbrev pub count : (ℕ → Bool) → ℕ → ℕ
count p zero = 0
count p (suc n) = if p n then suc (count p n) else count p n

pub count-le : (p : ℕ → Bool) (n : ℕ) → count p n ≤ n
count-le p zero = omega arith
count-le p (suc n) = ground (arith, count-le p n)

pub count_mono :
    (p q : ℕ → Bool) (n : ℕ) → ((i : ℕ) → i < n → p i ≡ true → q i ≡ true) → count p n ≤ count q n
count_mono p q zero h = omega arith
count_mono p q (suc n) h = ground (arith, count_mono p q n (λ i lt. h i (omega (arith, lt))), h n)

-- One more.
pub count_more :
    (p q : ℕ → Bool) (v n : ℕ)
    → v < n
    → ((i : ℕ) → i < n → p i ≡ true → q i ≡ true)
    → p v ≡ false
    → q v ≡ true
    → suc (count p n) ≤ count q n
count_more p q v zero lt h off on = omega arith
count_more p q v (suc n) lt h off on = elim (Bool-cases (v == n)) [
  | inl last ↦ ground (arith, count_mono p q n (λ i lt. h i (omega (arith, lt))), ap_last last)
  | inr before ↦
      ground
        (arith, count_more p q v n (ground arith) (λ i lt. h i (omega (arith, lt))) off on, h n)
]
  where
    ap_last : (v == n) ≡ true → v ≡ n
    ap_last last = ground arith

pub count_some : (p : ℕ → Bool) (v n : ℕ) → v < n → p v ≡ true → 1 ≤ count p n
count_some p v zero lt on = omega arith
count_some p v (suc n) lt on = elim (Bool-cases (v == n)) [
  | inl last ↦ ground arith
  | inr before ↦ ground (arith, count_some p v n (ground arith) on)
]

-- Two tests that together count more than all have a number in common.
pub count_overlap :
    (p q : ℕ → Bool) (n : ℕ)
    → n < count p n + count q n
    → (i : ℕ) × (i < n) × (p i ≡ true) × (q i ≡ true)
count_overlap p q zero h = absurd (omega arith)
count_overlap p q (suc n) h = elim (Bool-cases (p n && q n)) [
  | inl both ↦ (n, omega arith, ground arith, ground arith)
  | inr other ↦ let (i, lt, a, b) = count_overlap p q n (ground arith) in (i, omega arith, a, b)
]

pub count_ext : (p q : ℕ → Bool) (n : ℕ) → ((i : ℕ) → i < n → p i ≡ q i) → count p n ≡ count q n
count_ext p q zero h = omega arith
count_ext p q (suc n) h = ground (arith, count_ext p q n (λ i lt. h i (omega (arith, lt))), h n)

-- A test that changes at one number.
pub count_change :
    (p q : ℕ → Bool) (v n : ℕ)
    → v < n
    → ((i : ℕ) → i ≢ v → p i ≡ q i)
    → p v ≡ false
    → q v ≡ true
    → count q n ≡ suc (count p n)
count_change p q v zero lt h off on = omega arith
count_change p q v (suc n) lt h off on = elim (Bool-cases (v == n)) [
  | inl last ↦
      ground (
        arith,
        last_one last,
        count_ext p q n (λ i below. h i (omega (arith, below, last_one last))),
      )
  | inr before ↦ ground (arith, count_change p q v n (ground arith) h off on, h n)
]
  where
    last_one : (v == n) ≡ true → v ≡ n
    last_one last = ground arith

pub count_none : (p : ℕ → Bool) (v n : ℕ) → count p n ≡ 0 → v < n → p v ≡ false
count_none p v n none_ lt = elim (Bool-cases (p v)) [
  | inl yes_ ↦ absurd (omega (arith, count_some p v n lt yes_))
  | inr no_ ↦ no_
]
