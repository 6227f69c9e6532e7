-- ===== src/Tables/Fill.antt =====
-- Filling a table with one pair after the other.
use c_rpc.Base.{
  emplace_all, ℕ, ◌≡◌, refl, sym, ap, ◌∙◌, List, [], ◌∷◌, ◌++◌, append-nil, append_assoc, All,
  false,
}
use mathlib.Core.Path.{subst}
use c_rpc.Tables.{IpPort, Multimap, emplace, str_lt}
use c_rpc.Tables.Order.{IsSorted}

All-append :
    (P : List ℕ × IpPort → Type 0) (xs ys : Multimap IpPort) (x : List ℕ × IpPort)
    → All P (xs ++ x ∷ ys)
    → P x
All-append P [] ys x h = h.0
All-append P (z ∷ zs) ys x h = All-append P zs ys x h.1

emplace_last :
    (s : List ℕ × IpPort) (t : Multimap IpPort)
    → All (λ p. str_lt s.0 p.0 ≡ false) t
    → emplace s t ≡ t ++ s ∷ []
unfolding emplace
emplace_last (k, a) [] h = refl
emplace_last (k, a) ((k', a') ∷ t) (h, hs) = rw h (ap (◌∷◌ (k', a')) (emplace_last (k, a) t hs))

none_below :
    (s : List ℕ × IpPort) (t ss : Multimap IpPort)
    → IsSorted (t ++ s ∷ ss)
    → All (λ p. str_lt s.0 p.0 ≡ false) t
none_below s [] ss h = tt
none_below s ((k, a) ∷ t) ss (h, hs) =
    (All-append (λ p. str_lt p.0 k ≡ false) t ss s h, none_below s t ss hs)

pub emplace_all-IsSorted :
    (t ss : Multimap IpPort) → IsSorted (t ++ ss) → emplace_all emplace ss t ≡ t ++ ss
emplace_all-IsSorted t [] h = sym (append-nil t)
emplace_all-IsSorted t (s ∷ ss) h =
    ap (emplace_all emplace ss) (emplace_last s t (none_below s t ss h))
    ∙ emplace_all-IsSorted (t ++ s ∷ []) ss (subst IsSorted (sym (append_assoc t (s ∷ []) ss)) h)
    ∙ append_assoc t (s ∷ []) ss
