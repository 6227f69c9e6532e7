-- ===== src/Wire/RoundTrip.antt =====
-- The rules by which the round trip of a chain of writes and reads follows from those of its parts.
use c_rpc.Base.{
  ℕ, ◌%◌, ◌^◌, ◌<◌, ◌≡◌, sym, ap, ◌∙◌, List, [], ◌∷◌, ◌++◌, length, append-nil, length, arith,
}
use c_rpc.Wire.Words.{host_bytes, host_value, length-host_bytes, host_value-host_bytes}
use c_rpc.Wire.Buffer.{
  Buffer, Reader, ok, ◌>>=◌, ◌>>◌, pure, ◌⨾◌, write, read, check_read, next_char,
}
use c_rpc.Wire.Reads.{
  Reads, RoundTrips, Reads-pure, bind-ok, Reads-bind, Reads-read, Reads-next_char, Writes-write,
  Writes-then,
}
use mathlib.Core.Path.{subst}

module _ {ℓ} {A : Type ℓ} where
  pub RoundTrips-nil : (v : A) → RoundTrips (λ b. b) (pure v) v
  RoundTrips-nil v = record {
    bytes = [];
    writes = λ b. ap (λ d. record b { m_data = d }) (sym (append-nil b.m_data));
    reads = Reads-pure v;
  }

module _ {ℓ κ} {A : Type ℓ} {B : Type κ} where
  -- `w << w'` against `r >> f`.
  pub RoundTrips-then :
      {w w' : Buffer → Buffer} (r : Reader A) (f : A → Reader B) {v : A} {u : B}
      → RoundTrips w r v
      → RoundTrips w' (f v) u
      → RoundTrips (w ⨾ w') (r >>= f) u
  RoundTrips-then r f p q = record {
    bytes = p.bytes ++ q.bytes;
    writes = Writes-then p.writes q.writes;
    reads = Reads-bind r f p.bytes q.bytes p.reads q.reads;
  }

  pub RoundTrips-map :
      {w : Buffer → Buffer} (r : Reader A) (g : A → B) {v : A}
      → RoundTrips w r v
      → RoundTrips w (r >>= λ x. pure (g x)) (g v)
  RoundTrips-map {w} r g {v} p = record {
    bytes = p.bytes;
    writes = p.writes;
    reads =
        subst (Reads (r >>= λ x. pure (g x)) (g v)) (append-nil p.bytes)
          (Reads-bind r _ p.bytes [] p.reads (Reads-pure (g v)));
  }

-- A step of the reader that takes nothing.
pub RoundTrips-skip {ℓ} :
    {A : Type ℓ} {w : Buffer → Buffer} (g : Reader (Unit {0})) (r : Reader A) {v : A}
    → ((b : Buffer) → g b ≡ ok (tt, b))
    → RoundTrips w r v
    → RoundTrips w (g >>= λ _. r) v
RoundTrips-skip g r skips p = record {
  bytes = p.bytes;
  writes = p.writes;
  reads = λ b rest h e. bind-ok g _ (skips b) ∙ p.reads b rest h e;
}

pub RoundTrips-write : (xs : List ℕ) → RoundTrips (write xs) (read (length xs)) xs
RoundTrips-write xs = record { bytes = xs; writes = Writes-write xs; reads = Reads-read xs }

-- A word of `k` bytes, whatever they are.
pub Reads-word :
    (k : ℕ) (back : ℕ → ℕ) (xs : List ℕ)
    → length xs ≡ k
    → Reads (read k >>= λ x. pure (back (host_value x))) (back (host_value xs)) xs
Reads-word k back xs e =
    subst (Reads (read k >>= λ x. pure (back (host_value x))) (back (host_value xs)))
      (append-nil xs)
      (Reads-bind (read k) _ xs [] (subst (λ n. Reads (read n) xs xs) e (Reads-read xs))
        (Reads-pure (back (host_value xs))))

-- A `k`-byte word, converted on the way out and on the way in.
pub Reads-converted :
    (k : ℕ) (out back : ℕ → ℕ) (v : ℕ)
    → out v < 256 ^ k
    → back (out v) ≡ v
    → Reads (read k >>= λ x. pure (back (host_value x))) v (host_bytes k (out v))
Reads-converted k out back v fits e =
    subst (λ u. Reads (read k >>= λ x. pure (back (host_value x))) u (host_bytes k (out v)))
      (ap back (host_value-host_bytes k (out v) fits) ∙ e)
      (Reads-word k back (host_bytes k (out v)) (length-host_bytes k (out v)))

pub word-RoundTrips :
    (k : ℕ) (out back : ℕ → ℕ) (v : ℕ)
    → out v < 256 ^ k
    → back (out v) ≡ v
    → RoundTrips (write (host_bytes k (out v))) (read k >>= λ x. pure (back (host_value x))) v
word-RoundTrips k out back v fits e = record {
  bytes = host_bytes k (out v);
  writes = Writes-write (host_bytes k (out v));
  reads = Reads-converted k out back v fits e;
}

pub byte-RoundTrips :
    (v : ℕ) → v < 256 → RoundTrips (write (v % 256 ∷ [])) (check_read 1 >> next_char) v
byte-RoundTrips v h = record {
  bytes = v ∷ [];
  writes = rw same (Writes-write (v ∷ []));
  reads = Reads-next_char v;
}
  where
    same : v % 256 ≡ v
    same = omega arith
