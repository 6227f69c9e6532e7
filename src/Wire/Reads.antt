-- ===== src/Wire/Reads.antt =====
-- What it is to write and to read back: the notions by which the round trips are stated, and their
-- rules for chains.
use c_rpc.Base.{
  ℕ, zero, suc, ◌+◌, ◌^◌, ◌%◌, ◌≤◌, ◌<◌, ◌≡◌, refl, sym, ap, ◌∙◌, List, [], ◌∷◌, ◌++◌, append_assoc,
  length, drop, length-append, length-drop, take_all, drop_all, drop-drop, arith, le→ltb,
}
use c_rpc.Wire.Buffer.{
  Buffer, Reader, ok, ◌>>=◌, ◌>>◌, pure, ◌⨾◌, write, check_read, copy_out, read, char_at, next_char,
}

-- The position is in range, and the vector is no longer than a vector can be.
pub record IsValid (b : Buffer) : Type 0 where
  pub in_range : b.m_position ≤ length b.m_data
  pub addressable : length b.m_data < 2 ^ 63

abbrev pub unread : Buffer → List ℕ
unread b = drop b.m_position b.m_data

abbrev pub advance : ℕ → Buffer → Buffer
advance n b = record b { m_position = b.m_position + n }

-- `w` appends the bytes `xs` to any buffer.
abbrev pub Writes : (Buffer → Buffer) → List ℕ → Type 0
Writes w xs = (b : Buffer) → w b ≡ record b { m_data = b.m_data ++ xs }

-- Where the unread bytes begin with `xs`, `r` returns `v` and steps past them.
abbrev pub Reads {ℓ} : {A : Type ℓ} → Reader A → A → List ℕ → Type ℓ
Reads r v xs =
    (b : Buffer) (rest : List ℕ)
    → IsValid b
    → unread b ≡ xs ++ rest
    → r b ≡ ok (v, advance (length xs) b)

-- What `w` appends to a buffer, `r` reads as `v`, whatever follows it, and takes nothing of that.
pub record RoundTrips {ℓ} {A : Type ℓ} (w : Buffer → Buffer) (r : Reader A) (v : A) : Type ℓ where
  pub bytes : List ℕ
  pub writes : Writes w bytes
  pub reads : Reads r v bytes

pub length-unread :
    (b : Buffer) (xs rest : List ℕ)
    → IsValid b
    → unread b ≡ xs ++ rest
    → b.m_position + length xs ≤ length b.m_data
length-unread b xs rest h e =
    omega (arith, h.in_range, length-drop b.m_position b.m_data, ap length e, length-append xs rest)

pub unread-advance :
    (b : Buffer) (xs rest : List ℕ) → unread b ≡ xs ++ rest → unread (advance (length xs) b) ≡ rest
unread-advance b xs rest e =
    sym (drop-drop (length xs) b.m_position b.m_data) ∙ ap (drop (length xs)) e ∙ drop_all xs rest

pub advance-IsValid :
    (b : Buffer) (xs rest : List ℕ)
    → IsValid b
    → unread b ≡ xs ++ rest
    → IsValid (advance (length xs) b)
advance-IsValid b xs rest h e = record {
  in_range = length-unread b xs rest h e;
  addressable = h.addressable;
}

advance-append :
    (b : Buffer) (xs ys : List ℕ)
    → advance (length ys) (advance (length xs) b) ≡ advance (length (xs ++ ys)) b
advance-append b xs ys = ap (λ n. record b { m_position = n }) (omega (arith, length-append xs ys))

pub Reads-pure {ℓ} : {A : Type ℓ} (v : A) → Reads (pure v) v []
unfolding pure
Reads-pure v b rest h e = ap (λ n. ok (v, record b { m_position = n })) (omega arith)

pub bind-ok {ℓ κ} :
    {A : Type ℓ} {B : Type κ} (r : Reader A) (f : A → Reader B) {v : A} {b c : Buffer}
    → r b ≡ ok (v, c)
    → (r >>= f) b ≡ f v c
unfolding ◌>>=◌
bind-ok r f e = rw (e, ◌>>=◌)

pub Reads-bind {ℓ κ} :
    {A : Type ℓ} {B : Type κ} (r : Reader A) (f : A → Reader B) {v : A} {u : B} (xs ys : List ℕ)
    → Reads r v xs
    → Reads (f v) u ys
    → Reads (r >>= f) u (xs ++ ys)
Reads-bind r f {v} {u} xs ys p q b rest h e =
    bind-ok r f (p b (ys ++ rest) h e')
    ∙ q (advance (length xs) b) rest (advance-IsValid b xs (ys ++ rest) h e')
        (unread-advance b xs (ys ++ rest) e')
    ∙ ap (λ c. ok (u, c)) (advance-append b xs ys)
  where
    e' : unread b ≡ xs ++ (ys ++ rest)
    e' = e ∙ append_assoc xs ys rest

check_read-ok :
    (n : ℕ) (b : Buffer)
    → IsValid b
    → b.m_position + n ≤ length b.m_data
    → check_read n b ≡ ok (tt, b)
unfolding check_read
check_read-ok n b h k =
    rw (le→ltb (length b.m_data) ((b.m_position + n) % 2 ^ 64) (omega (arith, h.addressable)))

copy_out_lem :
    (b : Buffer) (xs rest : List ℕ)
    → IsValid b
    → unread b ≡ xs ++ rest
    → copy_out (length xs) b ≡ ok (xs, advance (length xs) b)
unfolding copy_out
copy_out_lem b xs rest h e = rw (e, take_all xs rest, next)
  where
    next : (b.m_position + length xs) % 2 ^ 64 ≡ b.m_position + length xs
    next = omega (arith, length-unread b xs rest h e, h.addressable)

pub Reads-read : (xs : List ℕ) → Reads (read (length xs)) xs xs
unfolding read
Reads-read xs b rest h e =
    bind-ok (check_read (length xs)) _ (check_read-ok (length xs) b h (length-unread b xs rest h e))
    ∙ copy_out_lem b xs rest h e

char_at-drop :
    (p : ℕ) (xs : List ℕ) {x : ℕ} {rest : List ℕ} → drop p xs ≡ x ∷ rest → char_at xs p ≡ x
unfolding char_at
char_at-drop zero [] e = cc
char_at-drop zero (y ∷ ys) e = ground (arith, e)
char_at-drop (suc p) [] e = cc
char_at-drop (suc p) (y ∷ ys) e = char_at-drop p ys e

pub Reads-next_char : (x : ℕ) → Reads (check_read 1 >> next_char) x (x ∷ [])
Reads-next_char x b rest h e =
    bind-ok (check_read 1) _ (check_read-ok 1 b h (length-unread b (x ∷ []) rest h e))
    ∙ unfold next_char in rw (char_at-drop b.m_position b.m_data e, next)
  where
    next : (b.m_position + 1) % 2 ^ 64 ≡ b.m_position + 1
    next = omega (arith, length-unread b (x ∷ []) rest h e, h.addressable)

pub Writes-write : (xs : List ℕ) → Writes (write xs) xs
unfolding write
Writes-write xs b = refl

pub Writes-then :
    {w w' : Buffer → Buffer} {xs ys : List ℕ}
    → Writes w xs
    → Writes w' ys
    → Writes (w ⨾ w') (xs ++ ys)
unfolding ◌⨾◌
Writes-then {w} {w'} {xs} {ys} p q b =
    ap w' (p b)
    ∙ q (record b { m_data = b.m_data ++ xs })
    ∙ ap (λ d. record b { m_data = d }) (append_assoc b.m_data xs ys)
