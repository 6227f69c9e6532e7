-- ===== src/Raft/Logger/Indexed.antt =====
-- The entry at a place of the log has that place as its index, and what the two appends do then.
use c_rpc.Base.{
  ℕ, zero, suc, ◌+◌, ◌-◌, ◌≤◌, ◌<◌, ◌≡◌, refl, List, [], ◌∷◌, ◌++◌, length, take, none, some, Bool,
  true, false, ◌==◌, ◌⊎◌, arith, length-append, if◌then◌else◌,
}
use c_rpc.Raft.Config.{Entry}
use c_rpc.Raft.Outcome.{done, fault, acquire, release}
use c_rpc.Raft.Logger.{
  RaftLogger, entry_at, last_entry, scan_back, append_entry, append_local, locked, new_logger,
}

-- The entries are numbered from `n` on.
abbrev pub Numbered : ℕ → List Entry → Type 0
Numbered n [] = Unit {0}
Numbered n (e ∷ es) = (e.index ≡ n) × Numbered (suc n) es

-- The log is not empty, and numbered from 0 on.
pub record IsIndexed (l : RaftLogger) : Type 0 where
  pub not_empty : 0 < length l.m_entries
  pub numbered : Numbered 0 l.m_entries

-- The mutex is free or the caller's own.
abbrev pub Free : ℕ → RaftLogger → Type 0
Free me l = (l.m_mutex ≡ me) ⊎ (l.m_mutex ≡ 0)

entry_at-index :
    (n i : ℕ) (es : List Entry) → Numbered n es → i < length es → (entry_at es i).index ≡ n + i
entry_at-index n i [] h k = elim k [ ]
entry_at-index n zero (e ∷ es) h k = omega (arith, h.0)
entry_at-index n (suc i) (e ∷ es) h k = omega (arith, entry_at-index (suc n) i es h.1 (omega arith))

-- The loop finds the place `prev`, or none at all.
scan_back-found :
    (es : List Entry) (prev k : ℕ)
    → Numbered 0 es
    → k ≤ length es
    → prev < k
    → scan_back es prev k ≡ some prev
unfolding scan_back
scan_back-found es prev zero h k lt = elim lt [ ]
scan_back-found es prev (suc i) h k lt =
    ground (arith, entry_at-index 0 i es h, scan_back-found es prev i h)

scan_back-none :
    (es : List Entry) (prev k : ℕ)
    → Numbered 0 es
    → k ≤ length es
    → k ≤ prev
    → scan_back es prev k ≡ none
unfolding scan_back
scan_back-none es prev zero h k le = refl
scan_back-none es prev (suc i) h k le =
    ground (arith, entry_at-index 0 i es h, scan_back-none es prev i h)

Numbered-append :
    (n : ℕ) (es : List Entry) (e : Entry)
    → Numbered n es
    → e.index ≡ n + length es
    → Numbered n (es ++ e ∷ [])
Numbered-append n [] e h k = (omega arith, tt)
Numbered-append n (x ∷ es) e h k = (h.0, Numbered-append (suc n) es e h.1 (omega arith))

Numbered-take : (n k : ℕ) (es : List Entry) → Numbered n es → Numbered n (take k es)
Numbered-take n zero es h = tt
Numbered-take n (suc k) [] h = tt
Numbered-take n (suc k) (e ∷ es) h = (h.0, Numbered-take (suc n) k es h.1)

pub length-take : (k : ℕ) (es : List Entry) → k ≤ length es → length (take k es) ≡ k
length-take zero es h = refl
length-take (suc k) [] h = elim h [ ]
length-take (suc k) (e ∷ es) h = omega (arith, length-take k es (omega arith))

pub acquire-Free : (me : ℕ) (l : RaftLogger) → Free me l → acquire me l.m_mutex ≡ done me
unfolding acquire
acquire-Free me l f = ground arith

-- What a follower's append does, by the entry that it has at the place `prev`. If that has the term
-- `prev_term`, all behind it is replaced by the new entry and the mutex is free again; if not, the
-- log stays as it is and the caller still holds the mutex.
pub append_entry_lem :
    (me prev prev_term : ℕ) (new : Entry) (l : RaftLogger)
    → IsIndexed l
    → Free me l
    → prev < length l.m_entries
    → append_entry new prev prev_term me l ≡ (
        if (entry_at l.m_entries prev).term == prev_term
        then done
            (true, record l { m_mutex = 0; m_entries = take (suc prev) l.m_entries ++ new ∷ [] })
        else done (false, record l { m_mutex = me }))
unfolding append_entry release
append_entry_lem me prev prev_term new l h f lt =
    rw
      (
        acquire-Free me l f,
        scan_back-found l.m_entries prev (length l.m_entries) h.numbered (omega arith) lt,
        append_entry,
      )
      (ground (arith, entry_at-index 0 prev l.m_entries h.numbered lt))

-- A follower that has no entry at the place `prev` reads outside of its log.
pub append_entry-fault :
    (me prev prev_term : ℕ) (new : Entry) (l : RaftLogger)
    → IsIndexed l
    → Free me l
    → length l.m_entries ≤ prev
    → append_entry new prev prev_term me l ≡ fault
unfolding append_entry
append_entry-fault me prev prev_term new l h f le = rw (
  acquire-Free me l f,
  scan_back-none l.m_entries prev (length l.m_entries) h.numbered (omega arith) le,
  append_entry,
)

-- An append by a follower keeps the log numbered if the new entry has the index behind `prev`.
pub append_entry-IsIndexed :
    (me prev prev_term : ℕ) (new : Entry) (l l' : RaftLogger) (b : Bool)
    → IsIndexed l
    → Free me l
    → prev < length l.m_entries
    → new.index ≡ suc prev
    → append_entry new prev prev_term me l ≡ done (b, l')
    → IsIndexed l'
append_entry-IsIndexed me prev prev_term new l l' b h f lt e k = ground (
  arith,
  append_entry_lem me prev prev_term new l h f lt,
  h.not_empty,
  h.numbered,
  grown,
  length-append (take (suc prev) l.m_entries) (new ∷ []),
)
  where
    grown : Numbered 0 (take (suc prev) l.m_entries ++ new ∷ [])
    grown =
        Numbered-append 0 (take (suc prev) l.m_entries) new
          (Numbered-take 0 (suc prev) l.m_entries h.numbered)
          (omega (arith, length-take (suc prev) l.m_entries lt))

pub last_entry-index :
    (l : RaftLogger) → IsIndexed l → (last_entry l.m_entries).index + 1 ≡ length l.m_entries
last_entry-index l h = omega (
  arith,
  h.not_empty,
  entry_at-index 0 (length l.m_entries - 1) l.m_entries h.numbered (omega (arith, h.not_empty)),
)

pub locked-Free {ℓ} :
    {A : Type ℓ} (body : RaftLogger → A × RaftLogger) (me : ℕ) (l : RaftLogger)
    → Free me l
    → locked body me l
      ≡ done (
        (body (record l { m_mutex = me })).0,
        record ((body (record l { m_mutex = me })).1) {
          m_mutex = release me (body (record l { m_mutex = me })).1.m_mutex;
        },
      )
unfolding locked
locked-Free body me l f = rw (acquire-Free me l f, locked)

-- The logger after the leader's append.
abbrev pub with_local : Entry → RaftLogger → RaftLogger
with_local new l = record l {
  m_mutex = 0;
  m_entries = l.m_entries ++ record new { index = length l.m_entries } ∷ [];
}

pub append_local_run :
    (me : ℕ) (new : Entry) (l : RaftLogger)
    → IsIndexed l
    → Free me l
    → append_local new me l ≡ done (length l.m_entries, with_local new l)
unfolding append_local
append_local_run me new l h f =
    rw (locked-Free _ me l f, last_entry-index l h) (unfold release in ground arith)

-- An append by the leader numbers the entry itself, and the log stays numbered.
pub with_local-IsIndexed :
    (new : Entry) (l : RaftLogger) → IsIndexed l → IsIndexed (with_local new l)
with_local-IsIndexed new l h = record {
  not_empty =
      omega (arith, length-append l.m_entries (record new { index = length l.m_entries } ∷ []));
  numbered = Numbered-append 0 l.m_entries _ h.numbered (omega arith);
}

-- The log that a node starts with.
pub new_logger-IsIndexed : IsIndexed new_logger
unfolding new_logger
new_logger-IsIndexed = omega arith
