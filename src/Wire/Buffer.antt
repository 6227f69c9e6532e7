-- ===== src/Wire/Buffer.antt =====
-- `Buffer` of util/serializer.h. A `char` is a number below 256. A call that throws returns `throw`,
-- and a loop that does not end `hang`.
use c_rpc.Base.{
  ℕ, zero, suc, ◌+◌, ◌%◌, ◌^◌, List, [], ◌∷◌, ◌++◌, length, take, drop, Bool, ltb, leb,
  if◌then◌else◌,
}
use c_rpc.Wire.Words.{host_bytes, host_value, htons, htonl, htonll, ntohs, ntohl, ntohll}

pub data Exception : Type 0 where
  out_of_range length_error runtime_error : Exception

pub data Result {ℓ} (A : Type ℓ) : Type ℓ where
  ok : A → Result A
  throw : Exception → Result A
  hang : Result A

pub record Buffer : Type 0 where
  pub m_data : List ℕ
  pub m_position : ℕ

-- A method that reads: the value and the buffer after it.
abbrev pub Reader {ℓ} : Type ℓ → Type ℓ
Reader A = Buffer → Result (A × Buffer)

infixl 5 ◌>>=◌ ◌>>◌
unfoldable pub ◌>>=◌ {ℓ κ} : {A : Type ℓ} {B : Type κ} → Reader A → (A → Reader B) → Reader B
◌>>=◌ m f b = elim (m b) [ ok (a, b') ↦ f a b' | throw e ↦ throw e | hang ↦ hang ]

abbrev pub ◌>>◌ {ℓ} : {B : Type ℓ} → Reader (Unit {0}) → Reader B → Reader B
m >> k = m >>= λ _. k

unfoldable pub pure {ℓ} : {A : Type ℓ} → A → Reader A
pure a b = ok (a, b)

-- A chain of writes, `s << a << b`, in the order of the source.
infixl 5 ◌⨾◌
unfoldable pub ◌⨾◌ : (Buffer → Buffer) → (Buffer → Buffer) → Buffer → Buffer
◌⨾◌ first second b = second (first b)

abbrev pub size_mod : ℕ
size_mod = 2 ^ 64

abbrev pub empty_buffer : Buffer
empty_buffer = record { m_data = []; m_position = 0 }

unfoldable pub write : List ℕ → Buffer → Buffer
write bytes b = record b { m_data = b.m_data ++ bytes }

unfoldable pub write_int8 : ℕ → Buffer → Buffer
write_int8 value b = record b { m_data = b.m_data ++ (value % 256 ∷ []) }

unfoldable pub write_uint8 : ℕ → Buffer → Buffer
write_uint8 value b = record b { m_data = b.m_data ++ (value % 256 ∷ []) }

unfoldable pub write_int16 : ℕ → Buffer → Buffer
write_int16 value = write (host_bytes 2 (htons value))

unfoldable pub write_uint16 : ℕ → Buffer → Buffer
write_uint16 value = write (host_bytes 2 (htons value))

unfoldable pub write_int32 : ℕ → Buffer → Buffer
write_int32 value = write (host_bytes 4 (htonl value))

unfoldable pub write_uint32 : ℕ → Buffer → Buffer
write_uint32 value = write (host_bytes 4 (htonl value))

unfoldable pub write_int64 : ℕ → Buffer → Buffer
write_int64 value = write (host_bytes 8 (htonll value))

unfoldable pub write_uint64 : ℕ → Buffer → Buffer
write_uint64 value = write (host_bytes 8 (htonll value))

-- A `float` or `double` is its bit pattern; it is written in host order.
unfoldable pub write_float : ℕ → Buffer → Buffer
write_float value = write (host_bytes 4 value)

unfoldable pub write_double : ℕ → Buffer → Buffer
write_double value = write (host_bytes 8 value)

-- The sum is a `size_t`, and wraps.
unfoldable pub check_read : ℕ → Reader (Unit {0})
check_read len b =
    if ltb (length b.m_data) ((b.m_position + len) % size_mod)
    then throw out_of_range
    else ok (tt, b)

-- `memcpy` from the position on, and the step past it.
unfoldable pub copy_out : ℕ → Reader (List ℕ)
copy_out len b = ok (
  take len (drop b.m_position b.m_data),
  record b { m_position = (b.m_position + len) % size_mod },
)

unfoldable pub read : ℕ → Reader (List ℕ)
read len = check_read len >> copy_out len

-- `m_data[i]`; only called behind a check that `i` is in range.
unfoldable pub char_at : List ℕ → ℕ → ℕ
char_at [] i = 0
char_at (x ∷ xs) zero = x
char_at (x ∷ xs) (suc i) = char_at xs i

-- `m_data[m_position++]`
unfoldable pub next_char : Reader ℕ
next_char b =
    ok (char_at b.m_data b.m_position, record b { m_position = (b.m_position + 1) % size_mod })

unfoldable pub read_int8 : Reader ℕ
read_int8 = check_read 1 >> next_char

unfoldable pub read_uint8 : Reader ℕ
read_uint8 = check_read 1 >> next_char

unfoldable pub read_int16 : Reader ℕ
read_int16 = do value ← read 2; pure (ntohs (host_value value))

unfoldable pub read_uint16 : Reader ℕ
read_uint16 = do value ← read 2; pure (ntohs (host_value value))

unfoldable pub read_int32 : Reader ℕ
read_int32 = do value ← read 4; pure (ntohl (host_value value))

unfoldable pub read_uint32 : Reader ℕ
read_uint32 = do value ← read 4; pure (ntohl (host_value value))

unfoldable pub read_int64 : Reader ℕ
read_int64 = do value ← read 8; pure (ntohll (host_value value))

unfoldable pub read_uint64 : Reader ℕ
read_uint64 = do value ← read 8; pure (ntohll (host_value value))

unfoldable pub read_float : Reader ℕ
read_float = do value ← read 4; pure (host_value value)

unfoldable pub read_double : Reader ℕ
read_double = do value ← read 8; pure (host_value value)

unfoldable pub set_position : ℕ → Reader (Unit {0})
set_position position b =
    if ltb (length b.m_data) position
    then throw out_of_range
    else ok (tt, record b { m_position = position })

unfoldable pub clear : Buffer → Buffer
clear b = empty_buffer

unfoldable pub is_read_end : Buffer → Bool
is_read_end b = leb (length b.m_data) b.m_position
