-- ===== src/Raft/Logger/Applied.antt =====
-- The coroutine of raft/raft_logger.h that applies the log.
use c_rpc.Base.{
  emplace_all, emplace_all-append, ℕ, zero, suc, ◌+◌, ◌≤◌, ◌<◌, ◌≡◌, refl, sym, ap, ◌∙◌, List, [],
  ◌∷◌, ◌++◌, append_assoc, append-nil, length, take, get_elem?, none, some, arith, lt→ltb, le→ltb,
  true, false, Bool-cases, inl, inr, if◌then◌else◌, str_eq, str_eq→eq,
}
use native.Mathlib.Numerals.{add-one}
use c_rpc.Raft.Config.{Entry, op_no_op, op_register}
use c_rpc.Raft.Outcome.{Outcome, done, blocked, fault, release}
use c_rpc.Tables.{IpPort, emplace}
use c_rpc.Raft.Logger.{RaftLogger, entry_at, apply_entry, apply_step, new_logger}
use c_rpc.Raft.Logger.Indexed.{Free, acquire-Free}
use c_rpc.Raft.Logger.Matching.{take-suc}

-- The pairs that the entries register, in order.
abbrev pub registration : Entry → List (List ℕ × IpPort)
registration e =
    if str_eq e.op op_register
    then (e.f_name, record { m_ip = e.f_ip; m_port = e.f_port }) ∷ []
    else []

abbrev pub registrations : List Entry → List (List ℕ × IpPort)
registrations [] = []
registrations (e ∷ es) = registration e ++ registrations es

-- The table holds what the entries up to the last applied one register, and no more.
pub record IsApplied (l : RaftLogger) : Type 0 where
  pub in_range : l.m_last_applied < length l.m_entries
  pub table :
      l.m_addresses
      ≡ emplace_all emplace (registrations (take (suc l.m_last_applied) l.m_entries)) []

pub registrations-append :
    (xs ys : List Entry) → registrations (xs ++ ys) ≡ registrations xs ++ registrations ys
registrations-append [] ys = refl
registrations-append (x ∷ xs) ys =
    ap (◌++◌ (registration x)) (registrations-append xs ys)
    ∙ sym (append_assoc (registration x) (registrations xs) (registrations ys))

get_elem?-entry_at :
    (es : List Entry) (i : ℕ) → i < length es → get_elem? es i ≡ some (entry_at es i)
get_elem?-entry_at [] i h = elim h [ ]
get_elem?-entry_at (e ∷ es) zero h = refl
get_elem?-entry_at (e ∷ es) (suc i) h = get_elem?-entry_at es i (omega arith)

get_elem?-none : (es : List Entry) (i : ℕ) → length es ≤ i → get_elem? es i ≡ none
get_elem?-none [] i h = refl
get_elem?-none (e ∷ es) zero h = elim h [ ]
get_elem?-none (e ∷ es) (suc i) h = get_elem?-none es i (omega arith)

no_op-registers : (e : Entry) → str_eq e.op op_no_op ≡ true → str_eq e.op op_register ≡ false
unfolding str_eq
no_op-registers e h = rw (str_eq→eq e.op op_no_op h)

apply_entry_lem :
    (e : Entry) (l : RaftLogger)
    → apply_entry e l
      ≡ record l { m_addresses = emplace_all emplace (registration e) l.m_addresses }
unfolding apply_entry
apply_entry_lem e l = elim (Bool-cases (str_eq e.op op_no_op)) [
  | inl idle ↦ rw (idle, no_op-registers e idle) refl
  | inr other ↦ rw other (ground arith)
]

registrations-suc :
    (k : ℕ) (es : List Entry)
    → suc k < length es
    → registrations (take (suc k) es) ++ registration (entry_at es (suc k))
      ≡ registrations (take (suc (suc k)) es)
registrations-suc k es h = sym (
    ap registrations (take-suc (suc k) es h)
    ∙ registrations-append (take (suc k) es) (entry_at es (suc k) ∷ [])
    ∙ ap (◌++◌ (registrations (take (suc k) es))) (append-nil (registration (entry_at es (suc k)))))

-- The logger after a round that applied the next entry, and after one that found none.
abbrev applied : RaftLogger → RaftLogger
applied l = record l {
  m_mutex = 0;
  m_last_applied = l.m_last_applied + 1;
  m_addresses =
      emplace_all emplace (registration (entry_at l.m_entries (l.m_last_applied + 1)))
        l.m_addresses;
}

pub released : (me : ℕ) → release me me ≡ 0
unfolding release
released me = ground arith

apply_step_more :
    (me : ℕ) (l : RaftLogger)
    → Free me l
    → l.m_last_applied < l.m_commit_index
    → l.m_last_applied + 1 < length l.m_entries
    → apply_step me l ≡ done (tt, applied l)
unfolding apply_step
apply_step_more me l f lt k = rw (
  acquire-Free me l f,
  lt→ltb l.m_last_applied l.m_commit_index lt,
  get_elem?-entry_at l.m_entries (l.m_last_applied + 1) k,
  apply_entry_lem (entry_at l.m_entries (l.m_last_applied + 1)) (record l { m_mutex = me }),
  released me,
  apply_step,
)

apply_step_idle :
    (me : ℕ) (l : RaftLogger)
    → Free me l
    → l.m_commit_index ≤ l.m_last_applied
    → apply_step me l ≡ done (tt, record l { m_mutex = 0 })
unfolding apply_step
apply_step_idle me l f le =
    rw (acquire-Free me l f, le→ltb l.m_last_applied l.m_commit_index le, released me, apply_step)

-- A log that is shorter than the commit index says is read outside of its range.
pub apply_step-fault :
    (me : ℕ) (l : RaftLogger)
    → Free me l
    → l.m_last_applied < l.m_commit_index
    → length l.m_entries ≤ l.m_last_applied + 1
    → apply_step me l ≡ fault
unfolding apply_step
apply_step-fault me l f lt k = rw (
  acquire-Free me l f,
  lt→ltb l.m_last_applied l.m_commit_index lt,
  get_elem?-none l.m_entries (l.m_last_applied + 1) k,
  apply_step,
)

applied-IsApplied :
    (l : RaftLogger)
    → IsApplied l
    → l.m_last_applied + 1 < length l.m_entries
    → IsApplied (applied l)
applied-IsApplied l h k = record {
  in_range = k;
  table =
      ap (emplace_all emplace (registration (entry_at l.m_entries (l.m_last_applied + 1)))) h.table
      ∙ sym (
          emplace_all-append emplace (registrations (take (suc l.m_last_applied) l.m_entries))
            (registration (entry_at l.m_entries (l.m_last_applied + 1))) [])
      ∙ ap (λ ps. emplace_all emplace ps []) next;
}
  where
    next :
        registrations (take (suc l.m_last_applied) l.m_entries)
          ++ registration (entry_at l.m_entries (l.m_last_applied + 1))
        ≡ registrations (take (suc (l.m_last_applied + 1)) l.m_entries)
    next =
        rw (add-one l.m_last_applied) (registrations-suc l.m_last_applied l.m_entries (omega arith))

-- The rounds of the coroutine, as many as `n`.
unfoldable pub apply_rounds : ℕ → ℕ → RaftLogger → Outcome (Unit {0} × RaftLogger)
apply_rounds zero me l = done (tt, l)
apply_rounds (suc n) me l = elim (apply_step me l) [
  | done (u, l') ↦ apply_rounds n me l'
  | blocked ↦ blocked
  | fault ↦ fault
]

-- As many rounds as entries are committed and not applied, in which no other coroutine changes the
-- logger, apply exactly these: the table holds what the entries up to the commit index register.
pub apply_rounds-commit :
    (n me : ℕ) (l : RaftLogger)
    → IsApplied l
    → Free me l
    → l.m_commit_index < length l.m_entries
    → l.m_last_applied + n ≡ l.m_commit_index
    → (l' : RaftLogger) × (apply_rounds n me l ≡ done (tt, l'))
      × (l'.m_last_applied ≡ l.m_commit_index)
      × (l'.m_entries ≡ l.m_entries)
      × (l'.m_addresses
          ≡ emplace_all emplace (registrations (take (suc l.m_commit_index) l.m_entries)) [])
unfolding apply_rounds
apply_rounds-commit zero me l h f c e = (l, refl, last, refl, rw (← last) h.table)
  where
    last : l.m_last_applied ≡ l.m_commit_index
    last = omega arith
apply_rounds-commit (suc n) me l h f c e =
    rw (apply_step_more me l f (omega arith) (omega arith), apply_rounds)
      (apply_rounds-commit n me (applied l) (applied-IsApplied l h (omega arith)) (inr refl) c
        (omega arith))

-- A node starts with an empty table.
pub new_logger-IsApplied : IsApplied new_logger
unfolding new_logger str_eq
new_logger-IsApplied = record { in_range = omega arith; table = refl }
