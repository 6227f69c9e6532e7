-- ===== src/Protocol/Stream.antt =====
-- `Socket::receive` of socket/socket.cpp against what the kernel answers.
use c_rpc.Base.{
  ℕ, zero, suc, ◌-◌, List, [], ◌∷◌, ◌++◌, length, take, drop, leb, ◌==◌, if◌then◌else◌,
}
use c_rpc.Wire.Buffer.{Buffer, Reader, Result, ok, throw, hang, write}
use c_rpc.Wire.Serializer.{reset}
use c_rpc.Protocol.{read_size}

-- What `::recv` finds from one call to the next: bytes that have arrived together, at least one;
-- nothing yet (EWOULDBLOCK, EAGAIN, EINTR); an error; the end of the connection.
pub data Event : Type 0 where
  chunk : ℕ → List ℕ → Event
  again : Event
  failed : Event
  closed : Event

-- How a call of `receive(std::string&, size)` ends.
pub data Outcome : Type 0 where
  got : List ℕ → Outcome
  error : Outcome

-- The bytes that no call has taken yet.
abbrev pub bytes_of : List Event → List ℕ
bytes_of [] = []
bytes_of (chunk b bs ∷ es) = (b ∷ bs) ++ bytes_of es
bytes_of (again ∷ es) = bytes_of es
bytes_of (failed ∷ es) = bytes_of es
bytes_of (closed ∷ es) = bytes_of es

-- The event that stays behind when `n` bytes of a chunk are taken.
abbrev pub leftover : List ℕ → List Event → List Event
leftover [] es = es
leftover (b ∷ bs) es = chunk b bs ∷ es

-- The loop of `receive`: `buffer` holds what has come, `missing` is what is to come. A chunk that is
-- longer than that is taken in part. With no event left the coroutine waits for ever.
unfoldable pub receive_loop : List Event → List ℕ → ℕ → Result (Outcome × List Event)
receive_loop [] buffer zero = ok (got buffer, [])
receive_loop [] buffer (suc missing) = hang
receive_loop (e ∷ es) buffer zero = ok (got buffer, e ∷ es)
receive_loop (chunk b bs ∷ es) buffer (suc missing) =
    let more = receive_loop es (buffer ++ (b ∷ bs)) (missing - length bs) in
    if leb (length bs) missing
    then more
    else ok (got (buffer ++ (b ∷ take missing bs)), leftover (drop missing bs) es)
receive_loop (again ∷ es) buffer (suc missing) = receive_loop es buffer (suc missing)
receive_loop (failed ∷ es) buffer (suc missing) = ok (error, es)
receive_loop (closed ∷ es) buffer (suc missing) = ok (got buffer, closed ∷ es)

-- A method that reads a serializer and its socket.
abbrev pub Receiver : Type 0 → Type 0
Receiver A = Buffer → List Event → Result (A × Buffer × List Event)

infixl 5 ◌>>=◌ ◌>>◌
unfoldable pub ◌>>=◌ : {A B : Type 0} → Receiver A → (A → Receiver B) → Receiver B
◌>>=◌ m f s es = elim (m s es) [ ok (a, s', es') ↦ f a s' es' | throw e ↦ throw e | hang ↦ hang ]

abbrev pub ◌>>◌ : {B : Type 0} → Receiver (Unit {0}) → Receiver B → Receiver B
m >> k = m >>= λ _. k

-- What a call of the serializer does; the socket stays as it is.
unfoldable pub on_buffer : {A : Type 0} → Reader A → Receiver A
on_buffer r s es = elim (r s) [ ok (a, s') ↦ ok (a, s', es) | throw e ↦ throw e | hang ↦ hang ]

-- receive(Serializer&, size): what came is appended, and nothing after an error.
unfoldable pub receive_into : ℕ → Receiver (Unit {0})
receive_into size s es = elim (receive_loop es [] size) [
  | ok (got bytes, es') ↦ ok (tt, write bytes s, es')
  | ok (error, es') ↦ ok (tt, s, es')
  | throw e ↦ throw e
  | hang ↦ hang
]

unfoldable pub buffer_size : Receiver ℕ
buffer_size s es = ok (length s.m_data, s, es)

-- The rest of `receive(Message&)` once the length of the content is known.
unfoldable pub receive_content : Receiver ℕ
receive_content = do size ← on_buffer read_size; receive_into size; on_buffer reset; buffer_size

-- receive(Message&), on the serializer of the message.
unfoldable pub receive_message : Receiver ℕ
receive_message = do
  receive_into 1
  receive_into 1
  receive_into 1
  receive_into 1
  receive_into 8
  receive_into 8
  on_buffer reset
  size ← buffer_size
  if size == 0 then buffer_size else receive_content
