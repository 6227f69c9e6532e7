-- ===== src/Channel/Runs.antt =====
-- The sections of coroutine/coroutinechannal.h in any order: what goes in comes out, in order.
use c_rpc.Base.{
  ℕ, ◌≤◌, ◌≡◌, refl, sym, ap, ◌∙◌, List, [], ◌∷◌, ◌++◌, append-nil, append_assoc, length,
  length-append, true, false, arith,
}
use mathlib.Core.Path.{subst}
use c_rpc.Channel.{
  CoroutineChannal, returned, waiting, new_channal, notify_pop, notify_push, push, pop, close,
}

module _ {T : Type 0} where
  -- A section, with what its call has put in and taken out when it returns.
  pub data Step (c c' : CoroutineChannal T) : List T → List T → Type 0 where
    pushed : (me : ℕ) (t : T) → push me t c ≡ (returned true, c') → Step c c' (t ∷ []) []
    refused : (me : ℕ) (t : T) → push me t c ≡ (returned false, c') → Step c c' [] []
    push_waits : (me : ℕ) (t : T) → push me t c ≡ (waiting, c') → Step c c' [] []
    popped : (me : ℕ) (ts : List T) → pop me c ≡ (returned ts, c') → Step c c' [] ts
    pop_waits : (me : ℕ) → pop me c ≡ (waiting, c') → Step c c' [] []
    closes : close c ≡ c' → Step c c' [] []

  -- Sections one after the other, with all that went in and all that came out.
  pub data Run (c : CoroutineChannal T) : CoroutineChannal T → List T → List T → Type 0 where
    here : Run c c [] []
    next :
        (m c' : CoroutineChannal T) (ins outs i o : List T)
        → Run c m ins outs
        → Step m c' i o
        → Run c c' (ins ++ i) (outs ++ o)

  -- What a section does to the queue.
  abbrev Kept : CoroutineChannal T → CoroutineChannal T → List T → List T → Type 0
  Kept c c' i o =
      (c.m_queue ++ i ≡ o ++ c'.m_queue)
      × (c'.m_capacity ≡ c.m_capacity)
      × (length c.m_queue ≤ c.m_capacity → length c'.m_queue ≤ c'.m_capacity)

  Step-Kept : (c c' : CoroutineChannal T) (i o : List T) → Step c c' i o → Kept c c' i o
  unfolding push pop close notify_pop notify_push
  Step-Kept c c' i o (pushed me t e) = ground (arith, length-append c.m_queue (t ∷ []))
  Step-Kept c c' i o (refused me t e) = ground (arith, append-nil c.m_queue)
  Step-Kept c c' i o (push_waits me t e) = ground (arith, append-nil c.m_queue)
  Step-Kept c c' i o (popped me ts e) = ground (arith, append-nil c.m_queue)
  Step-Kept c c' i o (pop_waits me e) = ground (arith, append-nil c.m_queue)
  Step-Kept c c' i o (closes e) = ground (arith, append-nil c.m_queue)

  Run-Kept :
      (c c' : CoroutineChannal T) (ins outs : List T) → Run c c' ins outs → Kept c c' ins outs
  Run-Kept c c' ins outs here = (append-nil c.m_queue, refl, λ h. h)
  Run-Kept c _ _ _ (next m c' ins' outs' i o run step) =
      let (p, q, r) = Run-Kept c m ins' outs' run in
      let (p', q', r') = Step-Kept m c' i o step in
      (
        sym (append_assoc c.m_queue ins' i)
            ∙ ap (λ xs. xs ++ i) p
            ∙ append_assoc outs' m.m_queue i
            ∙ ap (◌++◌ outs') p'
            ∙ sym (append_assoc outs' o c'.m_queue),
        q' ∙ q,
        λ h. r' (r h),
      )

  -- From a new channel on, whatever runs in whatever order: what has gone in is what has come out
  -- followed by what the queue holds, so nothing is lost, doubled or overtaken; and the queue holds
  -- no more than the capacity.
  pub fifo :
      (capacity : ℕ) (c : CoroutineChannal T) (ins outs : List T)
      → Run (new_channal capacity) c ins outs
      → (ins ≡ outs ++ c.m_queue) × (length c.m_queue ≤ capacity)
  unfolding new_channal
  fifo capacity c ins outs run =
      let (p, q, r) = Run-Kept (new_channal capacity) c ins outs run in
      (p, subst (λ n. length c.m_queue ≤ n) q (r (omega arith)))

  Step-closed :
      (c c' : CoroutineChannal T) (i o : List T)
      → c.m_is_close ≡ true
      → Step c c' i o
      → (c' ≡ c) × (i ≡ []) × (o ≡ [])
  unfolding push pop close
  Step-closed c c' i o h (pushed me t e) = ground arith
  Step-closed c c' i o h (refused me t e) = ground arith
  Step-closed c c' i o h (push_waits me t e) = ground arith
  Step-closed c c' i o h (popped me ts e) = ground arith
  Step-closed c c' i o h (pop_waits me e) = ground arith
  Step-closed c c' i o h (closes e) = ground arith

  Run-closed :
      (c c' : CoroutineChannal T) (ins outs : List T)
      → c.m_is_close ≡ true
      → Run c c' ins outs
      → (c' ≡ c) × (ins ≡ []) × (outs ≡ [])
  Run-closed c c' ins outs h here = (refl, refl, refl)
  Run-closed c _ _ _ h (next m c' ins' outs' i o run step) =
      let (p, q, r) = Run-closed c m ins' outs' h run in
      let (p', q', r') = Step-closed m c' i o (ap (λ x. x.m_is_close) p ∙ h) step in
      (p' ∙ p, ground (arith, q, q'), ground (arith, r, r'))

  close-closed : (c : CoroutineChannal T) → (close c).m_is_close ≡ true
  unfolding close
  close-closed c = ground arith

  -- Once a channel is closed nothing goes in and nothing comes out, also of what the queue still
  -- holds, and it stays as it is.
  pub closed_for_good :
      (c c' : CoroutineChannal T) (ins outs : List T)
      → Run (close c) c' ins outs
      → (c' ≡ close c) × (ins ≡ []) × (outs ≡ [])
  closed_for_good c c' ins outs run = Run-closed (close c) c' ins outs (close-closed c) run
