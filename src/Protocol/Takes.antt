-- ===== src/Protocol/Takes.antt =====
-- What a receiver takes from the connection, and the rules for chains of receivers.
use c_rpc.Base.{ℕ, ◌≡◌, refl, ◌∙◌, List, [], ◌++◌, length, append_assoc}
use c_rpc.Wire.Buffer.{Buffer, Reader, ok, write}
use c_rpc.Protocol.Stream.{Event, Receiver, ◌>>=◌, bytes_of, receive_into, on_buffer, buffer_size}
use c_rpc.Protocol.Framing.{Flows, Gets, receive_loop-Gets}

-- From the serializer `s`, whenever the bytes to come begin with `xs`, `r` returns `v` with the
-- serializer `s'`, and the bytes behind `xs` are still to come.
pub record Takes {A : Type 0} (r : Receiver A) (s : Buffer) (v : A) (s' : Buffer) (xs : List ℕ)
    : Type 0 where
  pub run :
      (es : List Event) (rest : List ℕ)
      → Flows es
      → bytes_of es ≡ xs ++ rest
      → (es' : List Event) × (r s es ≡ ok (v, s', es')) × (bytes_of es' ≡ rest) × Flows es'

bind-ok :
    {A B : Type 0} (r : Receiver A) (f : A → Receiver B) {v : A} {s s' : Buffer}
    {es es' : List Event}
    → r s es ≡ ok (v, s', es')
    → (r >>= f) s es ≡ f v s' es'
unfolding ◌>>=◌
bind-ok r f e = rw (e, ◌>>=◌)

pub Takes-bind :
    {A B : Type 0} (r : Receiver A) (f : A → Receiver B) {s s' t : Buffer} {v : A} {u : B}
    {xs ys : List ℕ}
    → Takes r s v s' xs
    → Takes (f v) s' u t ys
    → Takes (r >>= f) s u t (xs ++ ys)
Takes-bind r f {s} {s'} {t} {v} {u} {xs} {ys} p q = record {
  run = λ es rest h e. after es rest (p.run es (ys ++ rest) h (e ∙ append_assoc xs ys rest));
}
  where
    last :
        (es es' : List Event) (rest : List ℕ)
        → r s es ≡ ok (v, s', es')
        → ((last : List Event) × (f v s' es' ≡ ok (u, t, last))
            × (bytes_of last ≡ rest)
            × Flows last)
        → (last : List Event) × ((r >>= f) s es ≡ ok (u, t, last))
          × (bytes_of last ≡ rest)
          × Flows last
    last es es' rest e (es2, e2, b2, h2) = (es2, bind-ok r f e ∙ e2, b2, h2)

    after :
        (es : List Event) (rest : List ℕ)
        → ((es' : List Event) × (r s es ≡ ok (v, s', es'))
            × (bytes_of es' ≡ ys ++ rest)
            × Flows es')
        → (last : List Event) × ((r >>= f) s es ≡ ok (u, t, last))
          × (bytes_of last ≡ rest)
          × Flows last
    after es rest (es', e, b, h) = last es es' rest e (q.run es' rest h b)

pub Takes-on :
    {A : Type 0} (r : Reader A) {s s' : Buffer} {v : A}
    → r s ≡ ok (v, s')
    → Takes (on_buffer r) s v s' []
unfolding on_buffer
Takes-on r e = record { run = λ es rest h k. (es, rw (e, on_buffer), k, h) }

pub Takes-size : (s : Buffer) → Takes buffer_size s (length s.m_data) s []
unfolding buffer_size
Takes-size s = record { run = λ es rest h k. (es, refl, k, h) }

pub Takes-into : (s : Buffer) (xs : List ℕ) → Takes (receive_into (length xs)) s tt (write xs s) xs
unfolding receive_into
Takes-into s xs = record { run = λ es rest h k. into es rest (receive_loop-Gets es [] xs rest h k) }
  where
    into :
        (es : List Event) (rest : List ℕ)
        → Gets [] xs rest es
        → (es' : List Event) × (receive_into (length xs) s es ≡ ok (tt, write xs s, es'))
          × (bytes_of es' ≡ rest)
          × Flows es'
    into es rest (es', e, b, f) = (es', rw (e, receive_into), b, f)
