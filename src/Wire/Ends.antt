-- ===== src/Wire/Ends.antt =====
-- Loops that read until the end of a serializer, `while(!s->isReadEnd())`.
use c_rpc.Base.{
  ℕ, ◌<◌, ◌≡◌, refl, ap, List, [], ◌∷◌, ◌++◌, length, length-drop, true, false, le→leb, lt→leb,
  arith,
}
use c_rpc.Wire.Buffer.{Buffer, Reader, throw, out_of_range, empty_buffer, is_read_end}
use c_rpc.Wire.Reads.{IsValid, Reads, unread, length-unread}

pub at_end : (b : Buffer) → IsValid b → unread b ≡ [] → is_read_end b ≡ true
unfolding is_read_end
at_end b h e =
    le→leb (length b.m_data) b.m_position
      (omega (arith, h.in_range, length-drop b.m_position b.m_data, ap length e))

pub not_at_end :
    (b : Buffer) (xs rest : List ℕ)
    → IsValid b
    → unread b ≡ xs ++ rest
    → 0 < length xs
    → is_read_end b ≡ false
unfolding is_read_end
not_at_end b xs rest h e lt =
    lt→leb b.m_position (length b.m_data) (omega (arith, length-unread b xs rest h e))

-- What a reader that throws on an empty buffer reads is not empty.
pub not_empty :
    {A : Type 0} (r : Reader A) (v : A) (xs : List ℕ)
    → r empty_buffer ≡ throw out_of_range
    → Reads r v xs
    → 0 < length xs
not_empty r v [] e h = absurd (
    ground (
      arith,
      e,
      h empty_buffer [] (record { in_range = omega arith; addressable = omega arith }) refl,
    ))
not_empty r v (x ∷ xs) e h = omega arith
