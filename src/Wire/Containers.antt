-- ===== src/Wire/Containers.antt =====
-- The round trips of strings, containers, pairs and tuples, and where the overloads of
-- util/serializer.h lose a string.
use mathlib.Core.List.{map}
use c_rpc.Base.{
  emplace_all, ℕ, ◌^◌, ◌≤◌, ◌<◌, ◌≡◌, refl, sym, ap, ◌∙◌, List, [], ◌∷◌, ◌++◌, length, All, arith,
  le→ltb, append_assoc, append-nil,
}
use mathlib.Core.Path.{subst}
use c_rpc.Wire.Buffer.{
  Buffer, Reader, ok, throw, out_of_range, ◌>>=◌, ◌⨾◌, read, read_uint64, empty_buffer, check_read,
}
use c_rpc.Wire.Serializer.{
  Prim, Ty, Val, Vals, prim, string, Container, read_ref, write_const, read_elem, max_size, resize,
  read_string, write_string, write_all, read_all, write_sequence, read_sequence, write_pair,
  read_pair, write_map, read_map, serialize, deserialize,
}
use c_rpc.Wire.Reads.{RoundTrips}
use c_rpc.Wire.RoundTrip.{
  RoundTrips-nil, RoundTrips-then, RoundTrips-map, RoundTrips-skip, RoundTrips-write,
}
use c_rpc.Wire.Prims.{InRange, prim-RoundTrips, uint64-RoundTrips}

resize-ok : (n : ℕ) → n ≤ max_size → (b : Buffer) → resize n b ≡ ok (tt, b)
unfolding resize
resize-ok n h b = rw (le→ltb max_size n h)

-- A string that is no longer than a string can be is read back as it was.
pub string-RoundTrips :
    (v : List ℕ) → length v ≤ max_size → RoundTrips (write_string v) read_string v
unfolding write_string read_string
string-RoundTrips v h = RoundTrips-then read_uint64 _ (uint64-RoundTrips (length v) (omega arith)) (
    RoundTrips-skip (resize (length v)) (read (length v)) (resize-ok (length v) h)
      (RoundTrips-write v))

-- The values that a const write carries over: any of a listed type, no string.
abbrev pub Carried : (t : Ty) → Val t → Type 0
Carried (prim p) v = InRange p v
Carried string v = ⊥

const-RoundTrips : (t : Ty) (v : Val t) → Carried t v → RoundTrips (write_const t v) (read_ref t) v
unfolding write_const read_ref
const-RoundTrips (prim p) v h = prim-RoundTrips p v h
const-RoundTrips string v h = absurd h

elem-RoundTrips : (t : Ty) (v : Val t) → Carried t v → RoundTrips (write_const t v) (read_elem t) v
unfolding write_const read_elem
elem-RoundTrips (prim p) v h = prim-RoundTrips p v h
elem-RoundTrips string v h = absurd h

pair-RoundTrips :
    (k v : Ty) (p : Val k × Val v)
    → Carried k p.0 × Carried v p.1
    → RoundTrips (write_pair k v p) (read_pair k v) p
unfolding write_pair read_pair
pair-RoundTrips k v (a, b) (h, i) =
    RoundTrips-then (read_ref k) _ (const-RoundTrips k a h)
      (RoundTrips-map (read_ref v) (λ y. (a, y)) (const-RoundTrips v b i))

module _ {ℓ κ} {A : Type ℓ} {C : Type κ} where
  write_all-RoundTrips :
      (w : A → Buffer → Buffer) (r : Reader A) (emplace : A → C → C) (xs : List A) (c : C)
      (got : A → A)
      → All (λ x. RoundTrips (w x) r (got x)) xs
      → RoundTrips
          (write_all w xs)
          (read_all r emplace (length xs) c)
          (emplace_all emplace (map got xs) c)
  unfolding write_all read_all
  write_all-RoundTrips w r emplace [] c got h = RoundTrips-nil c
  write_all-RoundTrips w r emplace (x ∷ xs) c got (h, hs) =
      RoundTrips-then r _ h (write_all-RoundTrips w r emplace xs (emplace (got x) c) got hs)

map-id {ℓ} : {A : Type ℓ} (xs : List A) → map (λ x. x) xs ≡ xs
map-id [] = refl
map-id (x ∷ xs) = ap (◌∷◌ x) (map-id xs)

All-map {ℓ κ} :
    {A : Type ℓ} {P Q : A → Type κ} → ((x : A) → P x → Q x) → (xs : List A) → All P xs → All Q xs
All-map f [] h = tt
All-map f (x ∷ xs) (h, hs) = (f x h, All-map f xs hs)

same-RoundTrips {ℓ κ} :
    {A : Type ℓ} {C : Type κ} (w : A → Buffer → Buffer) (r : Reader A) (emplace : A → C → C)
    (xs : List A) (c : C)
    → All (λ x. RoundTrips (w x) r x) xs
    → RoundTrips (write_all w xs) (read_all r emplace (length xs) c) (emplace_all emplace xs c)
same-RoundTrips w r emplace xs c h =
    subst
      (λ ys.
        RoundTrips (write_all w xs) (read_all r emplace (length xs) c) (emplace_all emplace ys c))
      (map-id xs) (write_all-RoundTrips w r emplace xs c (λ x. x) h)

-- list, vector and the sets: reading back inserts the elements written, in their order, into the
-- container that is read into.
pub sequence-RoundTrips :
    (t : Ty) (c : Container (Val t)) (v into : c.C)
    → length (c.elements v) < 2 ^ 64
    → All (Carried t) (c.elements v)
    → RoundTrips
        (write_sequence t c v)
        (read_sequence t c into)
        (emplace_all c.emplace (c.elements v) into)
unfolding write_sequence read_sequence
sequence-RoundTrips t c v into n h =
    RoundTrips-then read_uint64 _ (uint64-RoundTrips (length (c.elements v)) n) (
      same-RoundTrips (write_const t) (read_elem t) c.emplace (c.elements v) into
        (All-map (elem-RoundTrips t) (c.elements v) h))

-- The maps likewise, with their pairs.
pub map-RoundTrips :
    (k v : Ty) (c : Container (Val k × Val v)) (m into : c.C)
    → length (c.elements m) < 2 ^ 64
    → All (λ p. Carried k p.0 × Carried v p.1) (c.elements m)
    → RoundTrips
        (write_map k v c m)
        (read_map k v c into)
        (emplace_all c.emplace (c.elements m) into)
unfolding write_map read_map
map-RoundTrips k v c m into n h =
    RoundTrips-then read_uint64 _ (uint64-RoundTrips (length (c.elements m)) n) (
      same-RoundTrips (write_pair k v) (read_pair k v) c.emplace (c.elements m) into
        (All-map (pair-RoundTrips k v) (c.elements m) h))

-- std::vector and std::list: emplace_back.
abbrev pub vector : (A : Type 0) → Container A
vector A = record { C = List A; elements = λ xs. xs; emplace = λ x xs. xs ++ x ∷ [] }

emplace_all-vector :
    {A : Type 0} (xs into : List A) → emplace_all (λ x ys. ys ++ x ∷ []) xs into ≡ into ++ xs
emplace_all-vector [] into = sym (append-nil into)
emplace_all-vector (x ∷ xs) into =
    emplace_all-vector xs (into ++ x ∷ []) ∙ append_assoc into (x ∷ []) xs

-- A vector of numbers is appended, in order, to the vector that is read into.
pub vector-RoundTrips :
    (p : Prim) (v into : List ℕ)
    → length v < 2 ^ 64
    → All (InRange p) v
    → RoundTrips
        (write_sequence (prim p) (vector ℕ) v)
        (read_sequence (prim p) (vector ℕ) into)
        (into ++ v)
vector-RoundTrips p v into n h =
    subst (RoundTrips _ _) (emplace_all-vector v into)
      (sequence-RoundTrips (prim p) (vector ℕ) v into n h)

empty_strings :
    (xs : List (List ℕ)) → All (λ x. RoundTrips (write_const string x) (read_elem string) []) xs
unfolding write_const read_elem
empty_strings [] = tt
empty_strings (x ∷ xs) = (RoundTrips-nil [], empty_strings xs)

-- A vector of strings comes back with as many strings, all of them empty.
pub string_vector-lost :
    (v : List (List ℕ))
    → length v < 2 ^ 64
    → RoundTrips
        (write_sequence string (vector (List ℕ)) v)
        (read_sequence string (vector (List ℕ)) [])
        (map (λ _. []) v)
unfolding write_sequence read_sequence
string_vector-lost v n = RoundTrips-then read_uint64 _ (uint64-RoundTrips (length v) n) (
    subst (RoundTrips _ _) (emplace_all-vector (map (λ _. []) v) []) (
      write_all-RoundTrips (write_const string) (read_elem string) _ v [] (λ _. [])
        (empty_strings v)))

abbrev pub AllCarried : (ts : List Ty) → Vals ts → Type 0
AllCarried [] vs = Unit {0}
AllCarried (t ∷ ts) (v, vs) = Carried t v × AllCarried ts vs

-- The arguments of a call: a tuple of numbers of any listed types comes back as it was.
pub tuple-RoundTrips :
    (ts : List Ty) (vs : Vals ts)
    → AllCarried ts vs
    → RoundTrips (serialize ts vs) (deserialize ts) vs
unfolding serialize deserialize
tuple-RoundTrips [] vs h = RoundTrips-nil vs
tuple-RoundTrips (t ∷ ts) (v, vs) (h, hs) =
    RoundTrips-then (read_ref t) _ (const-RoundTrips t v h)
      (RoundTrips-map (deserialize ts) (λ us. (v, us)) (tuple-RoundTrips ts vs hs))

-- A tuple whose one member is a string cannot be read back: the read throws.
pub string_tuple-throws :
    (s : List ℕ)
    → deserialize (string ∷ []) (serialize (string ∷ []) (s, tt) empty_buffer) ≡ throw out_of_range
unfolding serialize deserialize write_const read_ref read_string read_uint64 read check_read ◌>>=◌
    ◌⨾◌
string_tuple-throws s = refl
