-- ===== src/Tools/Safety.antt =====
-- What every run of the asynchronous tool keeps to.
use imee.Base.{
  ℕ, zero, suc, ◌+◌, ◌≤◌, ◌≡◌, ◌⊎◌, inl, inr, refl, List, [], ◌∷◌, arith, false, true, Bool, length,
  get_elem?, some, ◌∙◌, ap, subst,
}
use imee.Tools.{
  Queue, n_entries, entry_address, ToolPc, head, put_zero, put_address, put_length, put_lock, spin,
  show, leave, done, AgentPc, poll, tested, sized, addressed, storing, exited, System, Reach,
}
use imee.Tools.Places.{AreEntries, Fits, Serves, count, IsIdle, IsEnding}
use imee.Tools.Invariant.{Reach-Inv}

-- The agent reads the request, or writes the reply or the lock.
abbrev pub busy : AgentPc → Bool
busy sized = true
busy (addressed _) = true
busy (storing _ _) = true
busy _ = false

module _ (IsWord : ℕ → ℕ → Type 0) where
  entries-at :
      (out : List ℕ) (i j n x : ℕ)
      → n ≡ i + j
      → AreEntries IsWord i out
      → get_elem? out j ≡ some x
      → IsWord (entry_address n) x
  entries-at [] i j n x at entries e = absurd (ground (arith, e))
  entries-at (y ∷ out) i zero n x at (one, _) e =
      subst (λ m. IsWord (entry_address m) x) (omega (arith, at))
        (subst (IsWord (entry_address i)) (cc e) one)
  entries-at (y ∷ out) i (suc j) n x at (_, others) e =
      entries-at out (suc i) j n x (omega (arith, at)) others e

  -- Either the agent has no request, or it leaves and the thread has ended, or it is at work on the
  -- request that the thread waits for.
  Fits-cases :
      (q : Queue) (p : AgentPc) (t : ToolPc)
      → Fits IsWord q p t
      → (IsIdle p ⊎ ((t ≡ done) × IsEnding p))
        ⊎ ((i : ℕ) × (t ≡ spin i) × (q 0 ≡ 1) × (q 1 ≡ entry_address i) × Serves IsWord i q p)
  Fits-cases q p (head i) (_, (_, idle)) = inl (inl idle)
  Fits-cases q p (put_zero i) (_, (_, idle)) = inl (inl idle)
  Fits-cases q p (put_address i) (_, (_, idle)) = inl (inl idle)
  Fits-cases q p (put_length i) (_, _, (_, idle)) = inl (inl idle)
  Fits-cases q p (put_lock i) (_, _, (_, idle)) = inl (inl idle)
  Fits-cases q p (spin i) (_, (at, inl (lock, serves))) = inr (i, refl, lock, at, serves)
  Fits-cases q p (spin i) (_, (_, inr (_, idle, _))) = inl (inl idle)
  Fits-cases q p (show i) (_, (_, idle), _) = inl (inl idle)
  Fits-cases q p leave (_, idle) = inl (inl idle)
  Fits-cases q p done (_, ending) = inl (inr (refl, ending))

  few : (q : Queue) (p : AgentPc) (t : ToolPc) → Fits IsWord q p t → count t ≤ n_entries
  few q p (head i) fits = fits.0
  few q p (put_zero i) fits = omega (arith, fits.0)
  few q p (put_address i) fits = omega (arith, fits.0)
  few q p (put_length i) fits = omega (arith, fits.0)
  few q p (put_lock i) fits = omega (arith, fits.0)
  few q p (spin i) fits = omega (arith, fits.0)
  few q p (show i) fits = omega (arith, fits.0)
  few q p leave fits = omega arith
  few q p done fits = omega arith

  busy-free :
      (p : AgentPc) (t : ToolPc)
      → busy p ≡ true
      → IsIdle p ⊎ ((t ≡ done) × IsEnding p)
      → false ≡ true
  busy-free poll t b free = b
  busy-free (tested v) t b free = b
  busy-free sized t b free = ground (arith, free)
  busy-free (addressed a) t b free = ground (arith, free)
  busy-free (storing x n) t b free = ground (arith, free)
  busy-free exited t b free = b

  module _ (q : Queue) (s : System IsWord) (run : Reach IsWord q s) where
    -- In whatever order the thread and the agent move, no more than 40 words are printed, and the one
    -- at place `j` is the guest's word at sys_call_table + 4 * j at a time of the run.
    pub Reach-prints :
        (j x : ℕ)
        → get_elem? s.printed j ≡ some x
        → IsWord (entry_address j) x × (length s.printed ≤ n_entries)
    Reach-prints j x e =
        let v = Reach-Inv IsWord run in
        (
          entries-at s.printed 0 j j x (omega arith) v.entries e,
          omega (arith, v.printed, few s.queue s.agent s.tool v.fits),
        )

    -- In whatever order they move: while the agent reads a request or writes its reply, the thread
    -- waits in its loop for the lock, which is 1, and the address of the request stands in the buffer.
    pub Reach-no_race :
        busy s.agent ≡ true
        → (i : ℕ) × (s.tool ≡ spin i) × (s.queue 0 ≡ 1) × (s.queue 1 ≡ entry_address i)
    Reach-no_race at_work = elim (Fits-cases s.queue s.agent s.tool (Reach-Inv IsWord run).fits) [
      | inl free ↦ absurd (ground (arith, busy-free s.agent s.tool at_work free))
      | inr (i, waits, lock, at, _) ↦ (i, waits, lock, at)
    ]

    -- In whatever order they move: the agent leaves only after the thread has printed 40 words and
    -- ended.
    pub Reach-exits_last : s.agent ≡ exited → (s.tool ≡ done) × (length s.printed ≡ n_entries)
    Reach-exits_last out =
        let v = Reach-Inv IsWord run in
        let fits = subst (λ p. Fits IsWord s.queue p s.tool) out v.fits in
        elim (Fits-cases s.queue exited s.tool fits) [
          | inl (inl idle) ↦ absurd (ground (arith, idle))
          | inl (inr (ended, _)) ↦ (ended, v.printed ∙ ap count ended)
          | inr (i, waits, lock, at, serves) ↦ absurd (ground (arith, serves))
        ]
