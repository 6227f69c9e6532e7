-- ===== src/Protocol/Framing.antt =====
-- A message that is sent arrives whole, however the connection cuts it up.
use c_rpc.Base.{
  ℕ, suc, ◌+◌, ◌≤◌, ◌<◌, ◌≡◌, refl, sym, ap, ◌∙◌, List, [], ◌∷◌, ◌++◌, length, leb, append_assoc,
  append-nil, take_all, drop_all, length-append, Bool-cases, inl, inr, leb→le, leb→lt, le→leb,
  lt→leb, arith,
}
use c_rpc.Protocol.Stream.{Event, chunk, again, failed, closed, got, bytes_of, receive_loop}
use c_rpc.Wire.Buffer.{ok}

-- The connection neither fails nor ends.
abbrev pub Flows : List Event → Type 0
Flows [] = Unit {0}
Flows (chunk b bs ∷ es) = Flows es
Flows (again ∷ es) = Flows es
Flows (failed ∷ es) = ⊥
Flows (closed ∷ es) = ⊥

append-split {ℓ} :
    {A : Type ℓ} (bs u xs rest : List A)
    → bs ++ u ≡ xs ++ rest
    → length bs ≤ length xs
    → (ys : List A) × (xs ≡ bs ++ ys) × (u ≡ ys ++ rest)
append-split [] u xs rest e h = (xs, refl, e)
append-split (b ∷ bs) u [] rest e h = absurd (omega arith)
append-split (b ∷ bs) u (x ∷ xs) rest e h =
    let (ys, p, q) = append-split bs u xs rest (cc) (omega arith) in (ys, ground (arith, e, p), q)

append-split-lt {ℓ} :
    {A : Type ℓ} (xs rest bs u : List A)
    → xs ++ rest ≡ bs ++ u
    → length xs < length bs
    → (z : A) × (zs : List A) × (bs ≡ xs ++ z ∷ zs) × (rest ≡ (z ∷ zs) ++ u)
append-split-lt [] rest [] u e h = elim h [ ]
append-split-lt [] rest (b ∷ bs) u e h = (b, bs, refl, e)
append-split-lt (x ∷ xs) rest [] u e h = elim h [ ]
append-split-lt (x ∷ xs) rest (b ∷ bs) u e h =
    let (z, zs, p, q) = append-split-lt xs rest bs u (cc) (omega arith) in
    (z, zs, ground (arith, e, p), q)

-- What the loop returns when the bytes to come begin with `xs`.
abbrev pub Gets : List ℕ → List ℕ → List ℕ → List Event → Type 0
Gets buffer xs rest es =
    (es' : List Event) × (receive_loop es buffer (length xs) ≡ ok (got (buffer ++ xs), es'))
    × (bytes_of es' ≡ rest)
    × Flows es'

loop_whole :
    (b : ℕ) (bs ys buffer : List ℕ) (es : List Event)
    → receive_loop (chunk b bs ∷ es) buffer (suc (length (bs ++ ys)))
      ≡ receive_loop es (buffer ++ (b ∷ bs)) (length ys)
unfolding receive_loop
loop_whole b bs ys buffer es =
    rw (length-append bs ys, le→leb (length bs) (length bs + length ys) (omega arith))
      (ap (receive_loop es (buffer ++ (b ∷ bs))) (omega arith))

loop_part :
    (b z : ℕ) (xs zs buffer : List ℕ) (es : List Event)
    → receive_loop (chunk b (xs ++ z ∷ zs) ∷ es) buffer (suc (length xs))
      ≡ ok (got (buffer ++ (b ∷ xs)), chunk z zs ∷ es)
unfolding receive_loop
loop_part b z xs zs buffer es =
    rw (lt→leb (length xs) (length (xs ++ z ∷ zs)) (omega (arith, length-append xs (z ∷ zs))))
      (rw (take_all xs (z ∷ zs), drop_all xs (z ∷ zs)))

whole_Gets :
    (b : ℕ) (bs ys buffer rest : List ℕ) (es : List Event) {x : ℕ} {xs : List ℕ}
    → x ≡ b
    → xs ≡ bs ++ ys
    → Gets (buffer ++ (b ∷ bs)) ys rest es
    → Gets buffer (x ∷ xs) rest (chunk b bs ∷ es)
whole_Gets b bs ys buffer rest es hx hxs (es', r, k, g) = (
  es',
  rw (hxs, hx)
      (loop_whole b bs ys buffer es
        ∙ r
        ∙ ap (λ out. ok (got out, es')) (append_assoc buffer (b ∷ bs) ys)),
  k,
  g,
)

part_Gets :
    (b z : ℕ) (xs zs buffer rest : List ℕ) (es : List Event) {x : ℕ} {bs : List ℕ}
    → Flows es
    → x ≡ b
    → bs ≡ xs ++ z ∷ zs
    → rest ≡ (z ∷ zs) ++ bytes_of es
    → Gets buffer (x ∷ xs) rest (chunk b bs ∷ es)
part_Gets b z xs zs buffer rest es f hx hbs hr =
    (chunk z zs ∷ es, rw (hbs, hx) (loop_part b z xs zs buffer es), sym hr, f)

pub receive_loop-Gets :
    (es : List Event) (buffer xs rest : List ℕ)
    → Flows es
    → bytes_of es ≡ xs ++ rest
    → Gets buffer xs rest es
unfolding receive_loop
receive_loop-Gets [] buffer [] rest f e = ([], rw append-nil, e, tt)
receive_loop-Gets [] buffer (x ∷ xs) rest f e = cc
receive_loop-Gets (v ∷ es) buffer [] rest f e = (v ∷ es, rw append-nil, e, f)
receive_loop-Gets (again ∷ es) buffer (x ∷ xs) rest f e =
    receive_loop-Gets es buffer (x ∷ xs) rest f e
receive_loop-Gets (failed ∷ es) buffer (x ∷ xs) rest f e = absurd f
receive_loop-Gets (closed ∷ es) buffer (x ∷ xs) rest f e = absurd f
receive_loop-Gets (chunk b bs ∷ es) buffer (x ∷ xs) rest f e =
    elim (Bool-cases (leb (length bs) (length xs))) [
      | inl whole ↦
          let (ys, p, q) = append-split bs (bytes_of es) xs rest tails (leb→le _ _ whole) in
          whole_Gets b bs ys buffer rest es heads p
            (receive_loop-Gets es (buffer ++ (b ∷ bs)) ys rest f q)
      | inr part ↦
          let (z, zs, p, q) =
            append-split-lt xs rest bs (bytes_of es) (sym tails) (leb→lt _ _ part) in
          part_Gets b z xs zs buffer rest es f heads p q
    ]
  where
    heads : x ≡ b
    heads = cc

    tails : bs ++ bytes_of es ≡ xs ++ rest
    tails = cc
