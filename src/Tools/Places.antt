-- ===== src/Tools/Places.antt =====
-- What a place of the thread says of the buffer and of the agent.
use imee.Base.{
  ℕ, suc, ◌+◌, ◌<◌, ◌≤◌, ◌≡◌, ◌⊎◌, List, [], ◌++◌, ◌∷◌, arith, false, true, length, subst,
}
use imee.Tools.{
  Queue, n_entries, entry_address, ToolPc, head, put_zero, put_address, put_length, put_lock, spin,
  show, leave, done, AgentPc, poll, tested, sized, addressed, storing, exited,
}

abbrev pub Never : Type 0
Never = false ≡ true

-- The agent has no request.
abbrev pub IsIdle : AgentPc → Type 0
IsIdle poll = Unit
IsIdle (tested v) = v ≡ 0
IsIdle _ = Never

-- The agent leaves, or will.
abbrev pub IsEnding : AgentPc → Type 0
IsEnding poll = Unit
IsEnding (tested v) = (v ≡ 0) ⊎ (v ≡ 2)
IsEnding exited = Unit
IsEnding _ = Never

-- The number of entries printed.
abbrev pub count : ToolPc → ℕ
count (head i) = i
count (put_zero i) = i
count (put_address i) = i
count (put_length i) = i
count (put_lock i) = i
count (spin i) = i
count (show i) = i
count leave = n_entries
count done = n_entries

module _ (IsWord : ℕ → ℕ → Type 0) where
  -- Each word printed is that of its entry, the first one that of entry `i`.
  abbrev pub AreEntries : ℕ → List ℕ → Type 0
  AreEntries i [] = Unit
  AreEntries i (x ∷ rest) = IsWord (entry_address i) x × AreEntries (suc i) rest

  pub AreEntries-append :
      (out : List ℕ) (i j x : ℕ)
      → j ≡ i + length out
      → AreEntries i out
      → IsWord (entry_address j) x
      → AreEntries i (out ++ x ∷ [])
  AreEntries-append [] i j x e entries new =
      (subst (λ n. IsWord (entry_address n) x) (omega arith) new, tt)
  AreEntries-append (y ∷ out) i j x e (one, others) new =
      (one, AreEntries-append out (suc i) j x (omega arith) others new)

  -- The agent at work on the request for entry `i`.
  abbrev pub Serves : ℕ → Queue → AgentPc → Type 0
  Serves i q poll = Unit
  Serves i q (tested v) = (v ≡ 0) ⊎ (v ≡ 1)
  Serves i q sized = Unit
  Serves i q (addressed a) = a ≡ entry_address i
  Serves i q (storing x n) = IsWord (entry_address i) (x 0) × (0 < n → q 3 ≡ x 0)
  Serves i q exited = Never

  -- A request for entry `i` stands, or the reply to it.
  abbrev pub Stands : ℕ → Queue → AgentPc → Type 0
  Stands i q agent =
      (q 1 ≡ entry_address i)
      × (((q 0 ≡ 1) × Serves i q agent)
          ⊎ ((q 0 ≡ 0) × IsIdle agent × IsWord (entry_address i) (q 3)))

  abbrev pub Quiet : Queue → AgentPc → Type 0
  Quiet q agent = (q 0 ≡ 0) × IsIdle agent

  -- What a place of the thread says of the buffer and the agent.
  abbrev pub Fits : Queue → AgentPc → ToolPc → Type 0
  Fits q agent (head i) = (i ≤ n_entries) × Quiet q agent
  Fits q agent (put_zero i) = (i < n_entries) × Quiet q agent
  Fits q agent (put_address i) = (i < n_entries) × Quiet q agent
  Fits q agent (put_length i) = (i < n_entries) × (q 1 ≡ entry_address i) × Quiet q agent
  Fits q agent (put_lock i) = (i < n_entries) × (q 1 ≡ entry_address i) × Quiet q agent
  Fits q agent (spin i) = (i < n_entries) × Stands i q agent
  Fits q agent (show i) = (i < n_entries) × Quiet q agent × IsWord (entry_address i) (q 3)
  Fits q agent leave = Quiet q agent
  Fits q agent done = (q 0 ≡ 2) × IsEnding agent
