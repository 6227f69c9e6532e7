-- ===== src/Wire/Words.antt =====
-- The byte order of util/serializer.h: a w-bit integer is its bit pattern, a number below 2 ^ w, and
-- the host is little-endian (the branch of `htonll` that a big-endian host would take is `value`).
use native.Mathlib.Nat.{pow-suc}
use c_rpc.Base.{ℕ, zero, suc, ◌+◌, ◌*◌, ◌/◌, ◌%◌, ◌^◌, ◌<◌, ◌≡◌, refl, List, [], ◌∷◌, length, arith}

-- The object representation of a `k`-byte integer on the host, lowest byte first.
unfoldable pub host_bytes : ℕ → ℕ → List ℕ
host_bytes zero v = []
host_bytes (suc k) v = (v % 256) ∷ host_bytes k (v / 256)

unfoldable pub host_value : List ℕ → ℕ
host_value [] = 0
host_value (b ∷ bs) = b + 256 * host_value bs

unfoldable pub htons : ℕ → ℕ
htons v = v % 256 * 2 ^ 8 + v / 2 ^ 8 % 256

unfoldable pub htonl : ℕ → ℕ
htonl v = v % 256 * 2 ^ 24 + v / 2 ^ 8 % 256 * 2 ^ 16 + v / 2 ^ 16 % 256 * 2 ^ 8 + v / 2 ^ 24 % 256

-- `((uint64_t)htonl(value & 0xFFFFFFFF) << 32) | htonl(value >> 32)`: the operands of `|` have no
-- bit in common, so it is a sum.
unfoldable pub htonll : ℕ → ℕ
htonll value = htonl (value % 2 ^ 32) * 2 ^ 32 + htonl (value / 2 ^ 32 % 2 ^ 32)

-- The three conversions back are the same functions.
unfoldable pub ntohs : ℕ → ℕ
unfolding htons
ntohs v = htons v

unfoldable pub ntohl : ℕ → ℕ
unfolding htonl
ntohl v = htonl v

unfoldable pub ntohll : ℕ → ℕ
ntohll value = htonl (value % 2 ^ 32) * 2 ^ 32 + htonl (value / 2 ^ 32 % 2 ^ 32)

pub length-host_bytes : (k v : ℕ) → length (host_bytes k v) ≡ k
unfolding host_bytes
length-host_bytes zero v = refl
length-host_bytes (suc k) v = omega (arith, length-host_bytes k (v / 256))

pub host_value-host_bytes : (k v : ℕ) → v < 256 ^ k → host_value (host_bytes k v) ≡ v
unfolding host_bytes host_value
host_value-host_bytes zero v h = omega arith
host_value-host_bytes (suc k) v h =
    omega (arith, pow-suc 256 k, host_value-host_bytes k (v / 256) (omega (arith, pow-suc 256 k)))

pub htons-lt : (v : ℕ) → htons v < 2 ^ 16
unfolding htons
htons-lt v = omega arith

pub htonl-lt : (v : ℕ) → htonl v < 2 ^ 32
unfolding htonl
htonl-lt v = omega arith

pub htonll-lt : (v : ℕ) → htonll v < 2 ^ 64
unfolding htonll
htonll-lt v = omega (arith, htonl-lt (v % 2 ^ 32), htonl-lt (v / 2 ^ 32 % 2 ^ 32))

pub ntohs-htons : (v : ℕ) → v < 2 ^ 16 → ntohs (htons v) ≡ v
unfolding ntohs
ntohs-htons v h = omega arith

pub ntohl-htonl : (v : ℕ) → v < 2 ^ 32 → ntohl (htonl v) ≡ v
unfolding ntohl
ntohl-htonl v h = omega arith

low_word : (hi lo : ℕ) → lo < 2 ^ 32 → (hi * 2 ^ 32 + lo) % 2 ^ 32 ≡ lo
low_word hi lo h = omega arith

high_word : (hi lo : ℕ) → hi < 2 ^ 32 → lo < 2 ^ 32 → (hi * 2 ^ 32 + lo) / 2 ^ 32 % 2 ^ 32 ≡ hi
high_word hi lo h k = omega arith

swap_back : (v : ℕ) → v < 2 ^ 32 → htonl (htonl v) ≡ v
unfolding ntohl
swap_back v h = ntohl-htonl v h

pub ntohll-htonll : (v : ℕ) → v < 2 ^ 64 → ntohll (htonll v) ≡ v
unfolding ntohll htonll
ntohll-htonll v h =
    let lo = v % 2 ^ 32 in
    let hi = v / 2 ^ 32 % 2 ^ 32 in
    rw
      (
        low_word (htonl lo) (htonl hi) (htonl-lt hi),
        high_word (htonl lo) (htonl hi) (htonl-lt lo) (htonl-lt hi),
        swap_back hi (omega arith),
        swap_back lo (omega arith),
      )
      (omega arith)
