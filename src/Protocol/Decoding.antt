-- ===== src/Protocol/Decoding.antt =====
-- What `encode` of rpc/rpc_protocol.h writes, `decode` reads.
use c_rpc.Base.{
  ℕ, ◌+◌, ◌^◌, ◌≤◌, ◌<◌, ◌≡◌, refl, sym, ap, ◌∙◌, List, [], ◌∷◌, ◌++◌, length, append-nil, drop,
  drop_all, length-append, ◌-◌, arith,
}
use mathlib.Core.Path.{subst}
use c_rpc.Wire.Buffer.{Buffer, ok, empty_buffer, read_uint8, read_uint64}
use c_rpc.Wire.Serializer.{max_size}
use c_rpc.Wire.Reads.{unread, IsValid, Reads, Reads-bind, Reads-pure, Reads-next_char}
use c_rpc.Protocol.{Message, encode, decode, read_fields}
use c_rpc.Protocol.Arrival.{
  MessageFits, word, header, at_start, encode_lem, Reads-uint64, length-header,
}

Reads-byte : (x : ℕ) → Reads read_uint8 x (x ∷ [])
unfolding read_uint8
Reads-byte x = Reads-next_char x

fields-Reads :
    (m : Message) (old : Buffer) (n : ℕ)
    → MessageFits m
    → n < 2 ^ 64
    → Reads (read_fields old) (record m { content_lenth = n; serializer = old }) (header m n)
unfolding read_fields
fields-Reads m old n h k =
    Reads-bind read_uint8 _ (m.magic ∷ []) (m.version ∷ m.type_of ∷ m.err ∷ words)
      (Reads-byte m.magic)
      (Reads-bind read_uint8 _ (m.version ∷ []) (m.type_of ∷ m.err ∷ words) (Reads-byte m.version) (
        Reads-bind read_uint8 _ (m.type_of ∷ []) (m.err ∷ words) (Reads-byte m.type_of) (
          Reads-bind read_uint8 _ (m.err ∷ []) words (Reads-byte m.err) (
            Reads-bind read_uint64 _ (word m.seq) (word n) (Reads-uint64 m.seq h.seq) (
              subst (Reads _ _) (append-nil (word n))
                (Reads-bind read_uint64 _ (word n) [] (Reads-uint64 n k) (Reads-pure _)))))))
  where
    words : List ℕ
    words = word m.seq ++ word n

read_fields-sent :
    (m : Message) (body : List ℕ)
    → MessageFits m
    → length body ≤ max_size - 20
    → let b = at_start (header m (length body) ++ body) in
      read_fields b b
      ≡ ok (
        record m { content_lenth = length body; serializer = b },
        record { m_data = b.m_data; m_position = 20 },
      )
read_fields-sent m body h k =
    fields-Reads m b n h (omega arith) b body valid refl
    ∙ ap
        (λ p. ok (
          record m { content_lenth = n; serializer = b },
          record { m_data = b.m_data; m_position = p },
        ))
        (omega (arith, length-header m n))
  where
    n : ℕ
    n = length body

    b : Buffer
    b = at_start (header m n ++ body)

    valid : IsValid b
    valid = record {
      in_range = omega arith;
      addressable = omega (arith, length-header m n, length-append (header m n) body);
    }

decode-sent :
    (m r : Message) (body : List ℕ)
    → MessageFits m
    → length body ≤ max_size - 20
    → r.serializer ≡ at_start (header m (length body) ++ body)
    → decode r
      ≡ ok (record m {
        content_lenth = length body;
        serializer = record { m_data = header m (length body) ++ body; m_position = 20 };
      })
unfolding decode
decode-sent m r body h k q = rw (q, read_fields-sent m body h k, decode)

drop-header : (m : Message) (n : ℕ) (body : List ℕ) → drop 20 (header m n ++ body) ≡ body
drop-header m n body =
    ap (λ k. drop k (header m n ++ body)) (sym (length-header m n)) ∙ drop_all (header m n) body

-- What `receive` left is decoded to the members that were encoded, with the length of the content,
-- and the serializer stands before the content, which is what had been put in. The members fit
-- their types, the message had an empty serializer, and the content is at most the largest string
-- less the header.
pub decode-encode :
    (m r : Message) (s : Buffer)
    → MessageFits m
    → m.serializer ≡ empty_buffer
    → length s.m_data ≤ max_size - 20
    → r.serializer ≡ at_start (encode m s).serializer.m_data
    → (decode r
        ≡ ok (record m {
          content_lenth = length s.m_data;
          serializer = record { m_data = (encode m s).serializer.m_data; m_position = 20 };
        }))
      × (drop 20 (encode m s).serializer.m_data ≡ s.m_data)
decode-encode m r s h e k q = (
  rw (encode_lem m s h e) (decode-sent m r s.m_data h k (rw (encode_lem m s h e) at q)),
  rw (encode_lem m s h e) (drop-header m (length s.m_data) s.m_data),
)

-- A message that has arrived decodes, with its number and its type, and what is unread of it is its
-- content. The conditions are as before.
pub decode-arrived :
    (m r : Message) (s : Buffer)
    → MessageFits m
    → m.serializer ≡ empty_buffer
    → length s.m_data ≤ max_size - 20
    → r.serializer ≡ at_start (encode m s).serializer.m_data
    → (d : Message) × (decode r ≡ ok d)
      × (d.seq ≡ m.seq)
      × (d.type_of ≡ m.type_of)
      × IsValid d.serializer
      × (unread d.serializer ≡ s.m_data)
decode-arrived m r s h e k q =
    let (p, content) = decode-encode m r s h e k q in
    (
      record m {
        content_lenth = length s.m_data;
        serializer = record { m_data = (encode m s).serializer.m_data; m_position = 20 };
      },
      p,
      refl,
      refl,
      record { in_range = omega (arith, whole); addressable = omega (arith, whole) },
      content,
    )
  where
    whole : length (encode m s).serializer.m_data ≡ 20 + length s.m_data
    whole =
        ap (λ b. length b.m_data) (encode_lem m s h e)
        ∙ omega (
          arith,
          length-append (header m (length s.m_data)) s.m_data,
          length-header m (length s.m_data),
        )
