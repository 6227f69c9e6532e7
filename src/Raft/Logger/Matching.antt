-- ===== src/Raft/Logger/Matching.antt =====
-- Replication makes the follower's log a prefix of the leader's.
use c_rpc.Base.{
  ℕ, zero, suc, ◌<◌, ◌≡◌, refl, sym, ap, ◌∙◌, List, [], ◌∷◌, ◌++◌, length, take, true, arith, false,
  ◌==◌, if◌then◌else◌, Bool-cases, inl, inr, ==_iff,
}
use c_rpc.Raft.Config.{Entry}
use c_rpc.Raft.Outcome.{done}
use c_rpc.Raft.Logger.{RaftLogger, entry_at, append_entry}
use c_rpc.Raft.Logger.Indexed.{IsIndexed, Free, append_entry_lem}

-- The log matching property: where two logs have entries of one term at a place, they agree up to
-- and including that place.
abbrev pub Match : List Entry → List Entry → Type 0
Match xs ys =
    (i : ℕ)
    → i < length xs
    → i < length ys
    → (entry_at xs i).term ≡ (entry_at ys i).term
    → take (suc i) xs ≡ take (suc i) ys

pub take-suc :
    (i : ℕ) (es : List Entry) → i < length es → take (suc i) es ≡ take i es ++ entry_at es i ∷ []
take-suc i [] h = elim h [ ]
take-suc zero (e ∷ es) h = refl
take-suc (suc i) (e ∷ es) h = ap (◌∷◌ e) (take-suc i es (omega arith))

-- The request that a leader with the log `leader` sends for its entry at the place `next`: if a
-- follower whose log matches the leader's accepts it, the follower's log is then the leader's up to
-- and including that entry. The follower's log is numbered and has the place before, and its mutex is
-- free or the caller's.
pub append_entry-prefix :
    (me next : ℕ) (leader : List Entry) (l l' : RaftLogger)
    → IsIndexed l
    → Free me l
    → Match l.m_entries leader
    → suc next < length leader
    → next < length l.m_entries
    → append_entry (entry_at leader (suc next)) next (entry_at leader next).term me l
      ≡ done (true, l')
    → l'.m_entries ≡ take (suc (suc next)) leader
append_entry-prefix me next leader l l' h f m k lt e =
    elim (Bool-cases ((entry_at l.m_entries next).term == (entry_at leader next).term)) [
      | inl same ↦
          replaced same
          ∙ ap (λ xs. xs ++ entry_at leader (suc next) ∷ [])
              (m next lt (omega arith) ((==_iff _ _).0 same))
          ∙ sym (take-suc (suc next) leader k)
      | inr other ↦ absurd (ground (arith, e, branches, other))
    ]
  where
    branches : append_entry (entry_at leader (suc next)) next (entry_at leader next).term me l ≡ (
        if (entry_at l.m_entries next).term == (entry_at leader next).term
        then done (
          true,
          record l {
            m_mutex = 0;
            m_entries = take (suc next) l.m_entries ++ entry_at leader (suc next) ∷ [];
          },
        )
        else done (false, record l { m_mutex = me }))
    branches =
        append_entry_lem me next (entry_at leader next).term (entry_at leader (suc next)) l h f lt

    replaced :
        ((entry_at l.m_entries next).term == (entry_at leader next).term) ≡ true
        → l'.m_entries ≡ take (suc next) l.m_entries ++ entry_at leader (suc next) ∷ []
    replaced same = ground (arith, e, branches, same)
