-- ===== src/Wire/Prims.antt =====
-- The round trips of the types of util/serializer.h, from the words up to containers and tuples.
use c_rpc.Base.{ℕ, ◌^◌, ◌<◌, ◌≡◌, refl, arith, ◌==◌, if◌then◌else◌}
use mathlib.Core.Path.{subst}
use c_rpc.Wire.Words.{
  htons, htonl, htonll, ntohs, ntohl, ntohll, htons-lt, htonl-lt, htonll-lt, ntohs-htons,
  ntohl-htonl, ntohll-htonll,
}
use c_rpc.Wire.Buffer.{
  write, write_int8, write_uint8, write_int16, write_uint16, write_int32, write_uint32, write_int64,
  write_uint64, write_float, write_double, read_int8, read_uint8, read_int16, read_uint16,
  read_int32, read_uint32, read_int64, read_uint64, read_float, read_double,
}
use c_rpc.Wire.Serializer.{
  Prim, bool, float, double, int8, uint8, int16, uint16, int32, uint32, int64, uint64, read_prim,
  write_prim,
}
use c_rpc.Wire.Reads.{RoundTrips}
use c_rpc.Wire.RoundTrip.{RoundTrips-map, word-RoundTrips, byte-RoundTrips}

-- The values of a type, as bit patterns.
abbrev pub InRange : Prim → ℕ → Type 0
InRange bool v = v < 2
InRange float v = v < 2 ^ 32
InRange double v = v < 2 ^ 64
InRange int8 v = v < 256
InRange uint8 v = v < 256
InRange int16 v = v < 2 ^ 16
InRange uint16 v = v < 2 ^ 16
InRange int32 v = v < 2 ^ 32
InRange uint32 v = v < 2 ^ 32
InRange int64 v = v < 2 ^ 64
InRange uint64 v = v < 2 ^ 64

pub uint16-RoundTrips : (v : ℕ) → v < 2 ^ 16 → RoundTrips (write_uint16 v) read_uint16 v
unfolding write_uint16 read_uint16
uint16-RoundTrips v h = word-RoundTrips 2 htons ntohs v (htons-lt v) (ntohs-htons v h)

pub uint64-RoundTrips : (v : ℕ) → v < 2 ^ 64 → RoundTrips (write_uint64 v) read_uint64 v
unfolding write_uint64 read_uint64
uint64-RoundTrips v h = word-RoundTrips 8 htonll ntohll v (htonll-lt v) (ntohll-htonll v h)

int8-RoundTrips : (v : ℕ) → v < 256 → RoundTrips (write_int8 v) read_int8 v
unfolding write_int8 read_int8 write
int8-RoundTrips v h = byte-RoundTrips v h

flag : (v : ℕ) → v < 2 → (if v == 0 then 0 else 1) ≡ v
flag v h = ground arith

-- What `write` puts into the buffer for a value of any listed type, `read` takes out as that value.
pub prim-RoundTrips : (p : Prim) (v : ℕ) → InRange p v → RoundTrips (write_prim p v) (read_prim p) v
unfolding write_prim read_prim write_int8 write_uint8 write_int16 write_int32 write_uint32
    write_int64 write_float write_double read_int8 read_uint8 read_int16 read_int32 read_uint32
    read_int64 read_float read_double write
prim-RoundTrips bool v h =
    subst (RoundTrips _ _) (flag v h)
      (RoundTrips-map read_int8 (λ t. if t == 0 then 0 else 1) (int8-RoundTrips v (omega arith)))
prim-RoundTrips float v h = word-RoundTrips 4 (λ x. x) (λ x. x) v h refl
prim-RoundTrips double v h = word-RoundTrips 8 (λ x. x) (λ x. x) v h refl
prim-RoundTrips int8 v h = byte-RoundTrips v h
prim-RoundTrips uint8 v h = byte-RoundTrips v h
prim-RoundTrips int16 v h = word-RoundTrips 2 htons ntohs v (htons-lt v) (ntohs-htons v h)
prim-RoundTrips uint16 v h = uint16-RoundTrips v h
prim-RoundTrips int32 v h = word-RoundTrips 4 htonl ntohl v (htonl-lt v) (ntohl-htonl v h)
prim-RoundTrips uint32 v h = word-RoundTrips 4 htonl ntohl v (htonl-lt v) (ntohl-htonl v h)
prim-RoundTrips int64 v h = word-RoundTrips 8 htonll ntohll v (htonll-lt v) (ntohll-htonll v h)
prim-RoundTrips uint64 v h = uint64-RoundTrips v h
