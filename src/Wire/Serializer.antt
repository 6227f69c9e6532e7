-- ===== src/Wire/Serializer.antt =====
-- `Serializer` of util/serializer.h, whose one field is the buffer: so a serializer is its buffer.
use c_rpc.Base.{ℕ, zero, suc, ◌+◌, ◌-◌, ◌^◌, List, [], ◌∷◌, length, ltb, ◌==◌, if◌then◌else◌}
use c_rpc.Wire.Buffer.{
  Buffer, Reader, ok, throw, length_error, ◌>>=◌, ◌>>◌, pure, ◌⨾◌, write, read, write_int8,
  write_uint8, write_int16, write_uint16, write_int32, write_uint32, write_int64, write_uint64,
  write_float, write_double, read_int8, read_uint8, read_int16, read_uint16, read_int32,
  read_uint32, read_int64, read_uint64, read_float, read_double, set_position,
}

-- The types that `read` and `write` list.
pub data Prim : Type 0 where
  bool float double int8 uint8 int16 uint16 int32 uint32 int64 uint64 : Prim

unfoldable pub read_prim : Prim → Reader ℕ
read_prim bool = do t ← read_int8; pure (if t == 0 then 0 else 1)
read_prim float = read_float
read_prim double = read_double
read_prim int8 = read_int8
read_prim uint8 = read_uint8
read_prim int16 = read_int16
read_prim uint16 = read_uint16
read_prim int32 = read_int32
read_prim uint32 = read_uint32
read_prim int64 = read_int64
read_prim uint64 = read_uint64

unfoldable pub write_prim : Prim → ℕ → Buffer → Buffer
write_prim bool = write_int8
write_prim float = write_float
write_prim double = write_double
write_prim int8 = write_int8
write_prim uint8 = write_uint8
write_prim int16 = write_int16
write_prim uint16 = write_uint16
write_prim int32 = write_int32
write_prim uint32 = write_uint32
write_prim int64 = write_int64
write_prim uint64 = write_uint64

-- `std::string::max_size()`
abbrev pub max_size : ℕ
max_size = 2 ^ 63 - 1

unfoldable pub resize : ℕ → Reader (Unit {0})
resize size b = if ltb max_size size then throw length_error else ok (tt, b)

-- operator>>(std::string&) and operator<<(std::string&)
unfoldable pub read_string : Reader (List ℕ)
read_string = do size ← read_uint64; resize size; read size

unfoldable pub write_string : List ℕ → Buffer → Buffer
write_string v = write_uint64 (length v) ⨾ write v

-- reset() and offset()
unfoldable pub reset : Reader (Unit {0})
reset = set_position 0

unfoldable pub offset : ℕ → Reader (Unit {0})
offset off b = set_position (b.m_position + off) b

-- The types of elements, members and arguments.
pub data Ty : Type 0 where
  prim : Prim → Ty
  string : Ty

abbrev pub Val : Ty → Type 0
Val (prim p) = ℕ
Val string = List ℕ

-- operator>>(T&) on a variable.
unfoldable pub read_ref : (t : Ty) → Reader (Val t)
read_ref (prim p) = read_prim p
read_ref string = read_string

-- operator<< on a variable that is not const.
unfoldable pub write_ref : (t : Ty) → Val t → Buffer → Buffer
write_ref (prim p) v = write_prim p v
write_ref string v = write_string v

-- operator<< on a const variable: operator<<(std::string&) does not take one, so a string goes to
-- the template operator<<(const T&), whose `write` lists no string and does nothing.
unfoldable pub write_const : (t : Ty) → Val t → Buffer → Buffer
write_const (prim p) v = write_prim p v
write_const string v = λ b. b

-- `T t; read(t)`: the template `read` lists no string, and leaves `t` empty.
unfoldable pub read_elem : (t : Ty) → Reader (Val t)
read_elem (prim p) = read_prim p
read_elem string = pure []

-- What the code uses of a container of the standard library: the elements in the order of
-- iteration, and the insertion of one (emplace_back, emplace).
pub record Container {ℓ} (A : Type ℓ) : Type (ℓ + 1) where
  pub C : Type ℓ
  pub elements : C → List A
  pub emplace : A → C → C

-- operator<<(const std::pair<K, V>&) and operator>>(std::pair<K, V>&)
unfoldable pub write_pair : (k v : Ty) → Val k × Val v → Buffer → Buffer
write_pair k v (first, second) = write_const k first ⨾ write_const v second

unfoldable pub read_pair : (k v : Ty) → Reader (Val k × Val v)
read_pair k v = do first ← read_ref k; second ← read_ref v; pure (first, second)

-- The loops of the container operators, over the elements to write and the elements left to read.
unfoldable pub write_all {ℓ} : {A : Type ℓ} → (A → Buffer → Buffer) → List A → Buffer → Buffer
write_all w [] = λ b. b
write_all w (t ∷ ts) = w t ⨾ write_all w ts

unfoldable pub read_all {ℓ κ} :
    {A : Type ℓ} {C : Type κ} → Reader A → (A → C → C) → ℕ → C → Reader C
read_all r emplace zero c = pure c
read_all r emplace (suc size) c = do t ← r; read_all r emplace size (emplace t c)

-- list, vector, set, multiset, unordered_set and unordered_multiset differ in their container only.
module _ (t : Ty) (c : Container (Val t)) where
  open c use {C, elements, emplace}

  unfoldable pub write_sequence : C → Buffer → Buffer
  write_sequence v = write_uint64 (length (elements v)) ⨾ write_all (write_const t) (elements v)

  unfoldable pub read_sequence : C → Reader C
  read_sequence v = do size ← read_uint64; read_all (read_elem t) emplace size v

-- map, unordered_map, multimap and unordered_multimap
module _ (k v : Ty) (c : Container (Val k × Val v)) where
  open c use {C, elements, emplace}

  unfoldable pub write_map : C → Buffer → Buffer
  write_map m = write_uint64 (length (elements m)) ⨾ write_all (write_pair k v) (elements m)

  unfoldable pub read_map : C → Reader C
  read_map m = do size ← read_uint64; read_all (read_pair k v) emplace size m

-- TupleSerializer: `std::get<Index>` of a const tuple to write, of a variable to read.
abbrev pub Vals : List Ty → Type 0
Vals [] = Unit {0}
Vals (t ∷ ts) = Val t × Vals ts

unfoldable pub serialize : (ts : List Ty) → Vals ts → Buffer → Buffer
serialize [] vs = λ b. b
serialize (t ∷ ts) (v, vs) = write_const t v ⨾ serialize ts vs

unfoldable pub deserialize : (ts : List Ty) → Reader (Vals ts)
deserialize [] = pure tt
deserialize (t ∷ ts) = do v ← read_ref t; vs ← deserialize ts; pure (v, vs)
