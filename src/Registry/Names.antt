-- ===== src/Registry/Names.antt =====
-- The handlers of rpc/rpc_register.cpp that get a list of names: handleServiceDiscover and
-- handleSubscribe. handleMsg has no case that calls them.
use c_rpc.Base.{
  ℕ, zero, suc, ◌≤◌, ◌<◌, ◌≡◌, refl, sym, ap, ◌∙◌, List, [], ◌∷◌, ◌++◌, append-nil, length,
  length-append, length-drop, All, if◌then◌else◌, arith,
}
use c_rpc.Wire.Buffer.{
  Buffer, Reader, Result, ok, throw, hang, out_of_range, empty_buffer, ◌>>=◌, ◌⨾◌, is_read_end,
  read, check_read, read_uint64,
}
use c_rpc.Wire.Serializer.{max_size, read_string, write_string}
use c_rpc.Wire.Reads.{
  IsValid, unread, advance, Writes, Writes-then, bind-ok, unread-advance, advance-IsValid,
}
use c_rpc.Wire.Ends.{at_end, not_at_end, not_empty}
use c_rpc.Wire.Containers.{string-RoundTrips}
use c_rpc.Protocol.{Message, rpc_service_discover_response, rpc_subscribe_response}
use c_rpc.Tables.{IpPort, Multimap, emplace, equal_range}
use c_rpc.Registry.{RpcRegister, write_services, reply}

-- `while(!s->isReadEnd())`, for at most `rounds` rounds: a name is read, and `f` goes on with it.
unfoldable pub for_each_name : {S : Type 0} → (List ℕ → S → S) → ℕ → S → Reader S
for_each_name f zero s b = hang
for_each_name f (suc rounds) s b =
    if is_read_end b
    then ok (s, b)
    else (read_string >>= λ f_name. for_each_name f rounds (f f_name s)) b

-- The pairs of a name in a table.
abbrev pub services_of : List ℕ → List IpPort → Multimap IpPort
services_of f_name [] = []
services_of f_name (a ∷ as_) = (f_name, a) ∷ services_of f_name as_

-- The answer with the addresses of a name.
abbrev pub discover_answer : Message → RpcRegister → List ℕ → Message × RpcRegister
discover_answer m r f_name =
    reply rpc_service_discover_response m.seq
      (write_services (services_of f_name (equal_range f_name r.m_addresses)) empty_buffer) r

-- The last name counts.
unfoldable pub handle_service_discover : Message → RpcRegister → Result (Message × RpcRegister)
unfolding for_each_name
handle_service_discover m r =
    elim (for_each_name (λ f_name last. f_name) (suc (length m.serializer.m_data)) []
      m.serializer) [
        | ok (f_name, s) ↦ ok (discover_answer m r f_name)
        | throw e ↦ throw e
        | hang ↦ hang
      ]

-- The socket `fd` subscribes to each of the names.
unfoldable pub handle_subscribe : ℕ → Message → RpcRegister → Result (Message × RpcRegister)
unfolding for_each_name
handle_subscribe fd m r =
    elim (for_each_name (λ f_name t. emplace (f_name, fd) t) (suc (length m.serializer.m_data))
      r.m_subscribes m.serializer) [
        | ok (subscribes, s) ↦ ok (
            reply rpc_subscribe_response m.seq empty_buffer
              (record r { m_subscribes = subscribes }))
        | throw e ↦ throw e
        | hang ↦ hang
      ]

-- What a client writes.
abbrev pub write_names : List (List ℕ) → Buffer → Buffer
write_names [] = λ b. b
write_names (n ∷ ns) = write_string n ⨾ write_names ns

abbrev pub NameFits : List ℕ → Type 0
NameFits n = length n ≤ max_size

abbrev pub fold {ℓ} : {S : Type ℓ} → (List ℕ → S → S) → List (List ℕ) → S → S
fold f [] s = s
fold f (n ∷ ns) s = fold f ns (f n s)

read_string_empty : read_string empty_buffer ≡ throw out_of_range
unfolding read_string read_uint64 read check_read ◌>>=◌
read_string_empty = refl

unfoldable names_bytes : (ns : List (List ℕ)) → All NameFits ns → List ℕ
names_bytes [] hs = []
names_bytes (n ∷ ns) (h, hs) = (string-RoundTrips n h).bytes ++ names_bytes ns hs

Writes-names :
    (ns : List (List ℕ)) (hs : All NameFits ns) → Writes (write_names ns) (names_bytes ns hs)
unfolding names_bytes
Writes-names [] hs b = ap (λ d. record b { m_data = d }) (sym (append-nil b.m_data))
Writes-names (n ∷ ns) (h, hs) b = Writes-then (string-RoundTrips n h).writes (Writes-names ns hs) b

length-names : (ns : List (List ℕ)) (hs : All NameFits ns) → length ns ≤ length (names_bytes ns hs)
unfolding names_bytes
length-names [] hs = omega arith
length-names (n ∷ ns) (h, hs) = omega (
  arith,
  length-names ns hs,
  not_empty read_string n (string-RoundTrips n h).bytes read_string_empty
      (string-RoundTrips n h).reads,
  length-append (string-RoundTrips n h).bytes (names_bytes ns hs),
)

for_each_name_run :
    {S : Type 0} (f : List ℕ → S → S) (ns : List (List ℕ)) (hs : All NameFits ns) (rounds : ℕ)
    (s : S) (b : Buffer)
    → IsValid b
    → unread b ≡ names_bytes ns hs
    → length ns < rounds
    → (b' : Buffer) × (for_each_name f rounds s b ≡ ok (fold f ns s, b'))
unfolding for_each_name names_bytes
for_each_name_run f [] hs zero s b v e lt = elim lt [ ]
for_each_name_run f [] hs (suc rounds) s b v e lt = (b, rw (at_end b v e) refl)
for_each_name_run f (n ∷ ns) hs zero s b v e lt = elim lt [ ]
for_each_name_run f (n ∷ ns) (h, hs) (suc rounds) s b v e lt =
    let k = string-RoundTrips n h in
    let (b', q) =
      for_each_name_run f ns hs rounds (f n s) (advance (length k.bytes) b)
        (advance-IsValid b k.bytes (names_bytes ns hs) v e)
        (unread-advance b k.bytes (names_bytes ns hs) e) (omega arith) in
    (
      b',
      rw
            (not_at_end b k.bytes (names_bytes ns hs) v e
              (not_empty read_string n k.bytes read_string_empty k.reads))
            (bind-ok read_string _ (k.reads b (names_bytes ns hs) v e))
          ∙ q,
    )

-- The loop goes through all names that a client wrote.
pub for_each_name_lem :
    {S : Type 0} (f : List ℕ → S → S) (ns : List (List ℕ)) (s : S) (b : Buffer)
    → All NameFits ns
    → IsValid b
    → unread b ≡ (write_names ns empty_buffer).m_data
    → (b' : Buffer) × (for_each_name f (suc (length b.m_data)) s b ≡ ok (fold f ns s, b'))
for_each_name_lem f ns s b hs v e =
    for_each_name_run f ns hs (suc (length b.m_data)) s b v bytes
      (omega (arith, length-names ns hs, ap length bytes, length-drop b.m_position b.m_data))
  where
    bytes : unread b ≡ names_bytes ns hs
    bytes = e ∙ ap (λ c. c.m_data) (Writes-names ns hs empty_buffer)
