-- ===== src/Protocol/Arrival.antt =====
-- What `encode` of rpc/rpc_protocol.h puts on the wire, `receive` of socket/socket.cpp takes off it.
use c_rpc.Base.{
  ℕ, ◌+◌, ◌%◌, ◌^◌, ◌≤◌, ◌<◌, ◌≡◌, refl, sym, ap, ◌∙◌, List, [], ◌∷◌, ◌++◌, length, append-nil,
  append_assoc, length-append, le→ltb, ◌-◌, false, if◌then◌else◌, ◌==◌, arith,
}
use mathlib.Core.Path.{subst}
use c_rpc.Wire.Words.{
  host_bytes, htonll, ntohl, ntohll, length-host_bytes, htonll-lt, ntohll-htonll,
}
use c_rpc.Wire.Buffer.{
  Buffer, ok, empty_buffer, write, write_uint8, write_uint64, read_uint32, read_uint64, ◌⨾◌,
  set_position,
}
use c_rpc.Wire.Serializer.{max_size, reset, write_string}
use c_rpc.Wire.Reads.{IsValid, Reads, Reads-bind}
use c_rpc.Wire.RoundTrip.{Reads-word, Reads-converted}
use c_rpc.Protocol.{Message, encode, write_header, read_size}
use c_rpc.Protocol.Stream.{receive_message, receive_content, receive_into, on_buffer, buffer_size}
use c_rpc.Protocol.Takes.{Takes, Takes-bind, Takes-on, Takes-size, Takes-into}

-- The eight bytes of a uint64_t on the wire.
abbrev pub word : ℕ → List ℕ
word v = host_bytes 8 (htonll v)

abbrev pub header : Message → ℕ → List ℕ
header m n = m.magic ∷ m.version ∷ m.type_of ∷ m.err ∷ (word m.seq ++ word n)

-- The members fit their types.
pub record MessageFits (m : Message) : Type 0 where
  pub magic : m.magic < 256
  pub version : m.version < 256
  pub type_of : m.type_of < 256
  pub err : m.err < 256
  pub seq : m.seq < 2 ^ 64

small : (v : ℕ) → v < 256 → v % 256 ≡ v
small v h = omega arith

-- A message is its header, which holds the length of the content, and the content.
pub encode_lem :
    (m : Message) (s : Buffer)
    → MessageFits m
    → m.serializer ≡ empty_buffer
    → (encode m s).serializer
      ≡ record { m_data = header m (length s.m_data) ++ s.m_data; m_position = 0 }
unfolding encode write_header write_string write_uint8 write_uint64 write ◌⨾◌
encode_lem m s h e = rw (
  e,
  small m.magic h.magic,
  small m.version h.version,
  small m.type_of h.type_of,
  small m.err h.err,
)

pub Reads-uint64 : (v : ℕ) → v < 2 ^ 64 → Reads read_uint64 v (word v)
unfolding read_uint64
Reads-uint64 v h = Reads-converted 8 htonll ntohll v (htonll-lt v) (ntohll-htonll v h)

Reads-size : (m : Message) (n : ℕ) → MessageFits m → n < 2 ^ 64 → Reads read_size n (header m n)
unfolding read_size read_uint32
Reads-size m n h k =
    Reads-bind _ _ (m.magic ∷ m.version ∷ m.type_of ∷ m.err ∷ []) (word m.seq ++ word n)
      (Reads-word 4 ntohl (m.magic ∷ m.version ∷ m.type_of ∷ m.err ∷ []) refl)
      (Reads-bind read_uint64 _ (word m.seq) (word n) (Reads-uint64 m.seq h.seq) (Reads-uint64 n k))

pub length-header : (m : Message) (n : ℕ) → length (header m n) ≡ 20
length-header m n = omega (
  arith,
  length-append (word m.seq) (word n),
  length-host_bytes 8 (htonll m.seq),
  length-host_bytes 8 (htonll n),
)

abbrev pub at_start : List ℕ → Buffer
at_start xs = record { m_data = xs; m_position = 0 }

reset-ok : (b : Buffer) → reset b ≡ ok (tt, at_start b.m_data)
unfolding reset set_position
reset-ok b = rw (le→ltb (length b.m_data) 0 (omega arith))

into_word : (s : Buffer) (v : ℕ) → Takes (receive_into 8) s tt (write (word v) s) (word v)
into_word s v =
    subst (λ n. Takes (receive_into n) s tt (write (word v) s) (word v))
      (length-host_bytes 8 (htonll v)) (Takes-into s (word v))

-- The second half of `receive(Message&)`, from a serializer that holds the header.
content-Takes :
    (m : Message) (body : List ℕ)
    → MessageFits m
    → length body ≤ max_size - 20
    → Takes receive_content
        (at_start (header m (length body)))
        (length (header m (length body) ++ body))
        (at_start (header m (length body) ++ body))
        (body ++ [])
unfolding receive_content write
content-Takes m body h k = Takes-bind (on_buffer read_size) _ (Takes-on read_size size) (
    Takes-bind (receive_into (length body)) _ (Takes-into _ body) (
      Takes-bind (on_buffer reset) _ (Takes-on reset (reset-ok _))
        (Takes-size (at_start (header m (length body) ++ body)))))
  where
    valid : IsValid (at_start (header m (length body)))
    valid = record {
      in_range = omega arith;
      addressable = omega (arith, length-header m (length body));
    }

    size :
        read_size (at_start (header m (length body)))
        ≡ ok (
          length body,
          record {
            m_data = header m (length body);
            m_position = 0 + length (header m (length body));
          },
        )
    size = Reads-size m (length body) h (omega arith) _ [] valid (sym (append-nil _))

header_not_empty : (m : Message) (n : ℕ) → (length (header m n) == 0) ≡ false
header_not_empty m n = ground (arith, length-header m n)

dispatch-Takes :
    (m : Message) (body : List ℕ)
    → MessageFits m
    → length body ≤ max_size - 20
    → Takes
        (if length (header m (length body)) == 0 then buffer_size else receive_content)
        (at_start (header m (length body)))
        (length (header m (length body) ++ body))
        (at_start (header m (length body) ++ body))
        (body ++ [])
dispatch-Takes m body h k = rw (header_not_empty m (length body)) (content-Takes m body h k)

into_byte : (s : Buffer) (x : ℕ) → Takes (receive_into 1) s tt (write (x ∷ []) s) (x ∷ [])
into_byte s x = Takes-into s (x ∷ [])

message-Takes :
    (m : Message) (body : List ℕ)
    → MessageFits m
    → length body ≤ max_size - 20
    → Takes receive_message empty_buffer
        (length (header m (length body) ++ body))
        (at_start (header m (length body) ++ body))
        (header m (length body) ++ body)
unfolding receive_message write
message-Takes m body h k = subst (Takes receive_message empty_buffer _ _) same (
    Takes-bind (receive_into 1) _ (into_byte _ m.magic) (
      Takes-bind (receive_into 1) _ (into_byte _ m.version) (
        Takes-bind (receive_into 1) _ (into_byte _ m.type_of) (
          Takes-bind (receive_into 1) _ (into_byte _ m.err) (
            Takes-bind (receive_into 8) _ (into_word _ m.seq) (
              Takes-bind (receive_into 8) _ (into_word _ (length body)) (
                Takes-bind (on_buffer reset) _ (Takes-on reset (reset-ok _)) (
                  Takes-bind buffer_size _ (Takes-size (at_start (header m (length body))))
                    (dispatch-Takes m body h k)))))))))
  where
    same :
        m.magic
          ∷ m.version
          ∷ m.type_of
          ∷ m.err
          ∷ (word m.seq ++ (word (length body) ++ (body ++ [])))
        ≡ header m (length body) ++ body
    same =
        ap (λ (xs : List ℕ). m.magic ∷ m.version ∷ m.type_of ∷ m.err ∷ xs)
          (ap (λ ys. word m.seq ++ (word (length body) ++ ys)) (append-nil body)
            ∙ sym (append_assoc (word m.seq) (word (length body)) body))

-- Whatever the pieces in which the bytes of a message arrive, and whatever comes behind them,
-- `receive` on an empty serializer takes exactly these bytes, returns their number and leaves the
-- serializer at its start. The connection neither fails nor ends, the members fit their types, the
-- message had an empty serializer, and the content is at most the largest string less the header.
pub receive-encode :
    (m : Message) (s : Buffer)
    → MessageFits m
    → m.serializer ≡ empty_buffer
    → length s.m_data ≤ max_size - 20
    → let sent = (encode m s).serializer.m_data in
      Takes receive_message empty_buffer (length sent) (at_start sent) sent
receive-encode m s h e k = rw (encode_lem m s h e) (message-Takes m s.m_data h k)
