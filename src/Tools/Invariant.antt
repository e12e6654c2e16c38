-- ===== src/Tools/Invariant.antt =====
-- What holds at every step of the thread and the agent, in whatever order they move.
use imee.Base.{ℕ, ◌≡◌, inl, inr, refl, List, arith, length, length-append, ◌∙◌, ap, sym, subst}
use imee.Tools.{
  Queue, put_word, entry_address, ToolPc, head, put_zero, put_address, put_length, put_lock, spin,
  show, leave, done, ToolMove, round, ends, zeroes, addresses, sizes, locks, waits, passes, prints,
  quits, AgentPc, poll, tested, sized, addressed, storing, exited, AgentMove, loads, retries, exits,
  takes, fetches, reads, stores, releases, System, Step, by_tool, by_agent, Reach, start, later,
}
use imee.Tools.Places.{
  IsIdle, IsEnding, AreEntries, AreEntries-append, Serves, Stands, Quiet, Fits, count,
}

module _ (IsWord : ℕ → ℕ → Type 0) where
  pub record Inv (s : System IsWord) : Type 0 where
    pub printed : length s.printed ≡ count s.tool
    pub entries : AreEntries IsWord 0 s.printed
    pub fits : Fits IsWord s.queue s.agent s.tool

  -- Without a request the agent leaves the buffer alone.
  Quiet-move :
      {q q' : Queue} {p p' : AgentPc}
      → Quiet IsWord q p
      → AgentMove IsWord q p q' p'
      → Quiet IsWord q' p' × (q' ≡ q)
  Quiet-move (lock, idle) loads = ((lock, lock), refl)
  Quiet-move (lock, idle) retries = ((lock, tt), refl)
  Quiet-move (lock, idle) exits = absurd (omega (arith, idle))
  Quiet-move (lock, idle) (takes ne _) = absurd (ne idle)
  Quiet-move (lock, idle) fetches = absurd (ground (arith, idle))
  Quiet-move (lock, idle) (reads _) = absurd (ground (arith, idle))
  Quiet-move (lock, idle) (stores _) = absurd (ground (arith, idle))
  Quiet-move (lock, idle) (releases _) = absurd (ground (arith, idle))

  -- At the end it leaves the buffer alone too.
  IsEnding-move :
      {q q' : Queue} {p p' : AgentPc}
      → (q 0 ≡ 2) × IsEnding p
      → AgentMove IsWord q p q' p'
      → (q' 0 ≡ 2) × IsEnding p'
  IsEnding-move (lock, ending) loads = (lock, inr lock)
  IsEnding-move (lock, ending) retries = (lock, tt)
  IsEnding-move (lock, ending) exits = (lock, tt)
  IsEnding-move (lock, ending) (takes ne0 ne2) = absurd (ground (arith, ending, ne0, ne2))
  IsEnding-move (lock, ending) fetches = absurd (ground (arith, ending))
  IsEnding-move (lock, ending) (reads _) = absurd (ground (arith, ending))
  IsEnding-move (lock, ending) (stores _) = absurd (ground (arith, ending))
  IsEnding-move (lock, ending) (releases _) = absurd (ground (arith, ending))

  Serves-move :
      (i : ℕ) {q q' : Queue} {p p' : AgentPc}
      → q 1 ≡ entry_address i
      → q 0 ≡ 1
      → Serves IsWord i q p
      → AgentMove IsWord q p q' p'
      → Stands IsWord i q' p'
  Serves-move i at lock serves loads = (at, inl (lock, inr lock))
  Serves-move i at lock serves retries = (at, inl (lock, tt))
  Serves-move i at lock serves exits = absurd (ground (arith, serves))
  Serves-move i at lock serves (takes _ _) = (at, inl (lock, tt))
  Serves-move i at lock serves fetches = (at, inl (lock, at))
  Serves-move i at lock serves (reads {x = x} words) = (
    at,
    inl (
      lock,
      (
        subst (λ a. IsWord a (x 0)) (omega (arith, serves)) (words 0 (omega arith)),
        λ pos. absurd (omega (arith, pos)),
      ),
    ),
  )
  Serves-move i at lock serves (stores {x = x} {n = n} lt) =
      (ground (arith, at), inl (ground (arith, lock), (serves.0, λ pos. ground (arith, serves.1))))
  Serves-move i at lock serves (releases {x = x} le) = (
    at,
    inr (
      refl,
      tt,
      subst (IsWord (entry_address i)) (sym (serves.1 (omega (arith, le)))) (serves.0),
    ),
  )

  -- What a step of the agent keeps.
  agent-Fits :
      (t : ToolPc) {q q' : Queue} {p p' : AgentPc}
      → Fits IsWord q p t
      → AgentMove IsWord q p q' p'
      → Fits IsWord q' p' t
  agent-Fits (head i) (lt, quiet) mv = (lt, (Quiet-move quiet mv).0)
  agent-Fits (put_zero i) (lt, quiet) mv = (lt, (Quiet-move quiet mv).0)
  agent-Fits (put_address i) (lt, quiet) mv = (lt, (Quiet-move quiet mv).0)
  agent-Fits (put_length i) (lt, at, quiet) mv =
      let (quiet', same) = Quiet-move quiet mv in (lt, ap (λ f. f 1) same ∙ at, quiet')
  agent-Fits (put_lock i) (lt, at, quiet) mv =
      let (quiet', same) = Quiet-move quiet mv in (lt, ap (λ f. f 1) same ∙ at, quiet')
  agent-Fits (spin i) (lt, (at, inl (lock, serves))) mv = (lt, Serves-move i at lock serves mv)
  agent-Fits (spin i) (lt, (at, inr (lock, idle, word))) mv =
      let ((lock', idle'), same) = Quiet-move (lock, idle) mv in
      (
        lt,
        (
          ap (λ f. f 1) same ∙ at,
          inr (lock', idle', subst (λ f. IsWord (entry_address i) (f 3)) (sym same) word),
        ),
      )
  agent-Fits (show i) (lt, quiet, word) mv =
      let (quiet', same) = Quiet-move quiet mv in
      (lt, quiet', subst (λ f. IsWord (entry_address i) (f 3)) (sym same) word)
  agent-Fits leave quiet mv = (Quiet-move quiet mv).0
  agent-Fits done ending mv = IsEnding-move ending mv

  idle-Serves : (i : ℕ) (q : Queue) (p : AgentPc) → IsIdle p → Serves IsWord i q p
  idle-Serves i q poll idle = tt
  idle-Serves i q (tested v) idle = inl idle
  idle-Serves i q sized idle = tt
  idle-Serves i q (addressed a) idle = absurd (ground (arith, idle))
  idle-Serves i q (storing x n) idle = absurd (ground (arith, idle))
  idle-Serves i q exited idle = absurd (ground (arith, idle))

  idle-IsEnding : (p : AgentPc) → IsIdle p → IsEnding p
  idle-IsEnding poll idle = tt
  idle-IsEnding (tested v) idle = inl idle
  idle-IsEnding sized idle = idle
  idle-IsEnding (addressed a) idle = idle
  idle-IsEnding (storing x n) idle = idle
  idle-IsEnding exited idle = tt

  pub Quiet-ends : (q : Queue) (p : AgentPc) → Quiet IsWord q p → IsEnding p
  Quiet-ends q p quiet = idle-IsEnding p quiet.1

  -- What a step of the thread keeps.
  tool-Inv :
      (p : AgentPc) {q q' : Queue} {out out' : List ℕ} {t t' : ToolPc}
      → Inv (record { queue = q; printed = out; tool = t; agent = p })
      → ToolMove q out t q' out' t'
      → Inv (record { queue = q'; printed = out'; tool = t'; agent = p })
  tool-Inv p v (round lt) = record {
    printed = v.printed;
    entries = v.entries;
    fits = (lt, v.fits.1);
  }
  tool-Inv p v (ends le) = record {
    printed = omega (arith, v.printed, v.fits.0, le);
    entries = v.entries;
    fits = v.fits.1;
  }
  tool-Inv p v zeroes = record {
    printed = v.printed;
    entries = v.entries;
    fits = (v.fits.0, (refl, v.fits.1.1));
  }
  tool-Inv p v addresses = record {
    printed = v.printed;
    entries = v.entries;
    fits = (v.fits.0, refl, v.fits.1);
  }
  tool-Inv p v sizes = record { printed = v.printed; entries = v.entries; fits = v.fits }
  tool-Inv p {q = q} v (locks {i = i}) = record {
    printed = v.printed;
    entries = v.entries;
    fits = (v.fits.0, (v.fits.1, inl (refl, idle-Serves i (put_word q 0 1) p (v.fits.2.1))));
  }
  tool-Inv p v (waits ne) = v
  tool-Inv p v (passes {i = i} zero_) =
      let (lt, (at, stands)) = v.fits in
      record {
        printed = v.printed;
        entries = v.entries;
        fits = elim stands [
          | inl (lock, _) ↦ absurd (omega (arith, lock, zero_))
          | inr (lock, idle, word) ↦ (lt, (lock, idle), word)
        ];
      }
  tool-Inv p {out = out} v (prints {i = i}) =
      let (lt, quiet, word) = v.fits in
      record {
        printed = length-append out _ ∙ omega (arith, v.printed);
        entries = AreEntries-append IsWord out 0 i _ (omega (arith, v.printed)) v.entries word;
        fits = (lt, quiet);
      }
  tool-Inv p v quits = record {
    printed = v.printed;
    entries = v.entries;
    fits = (refl, idle-IsEnding p (v.fits.1));
  }

  pub Step-Inv : {s t : System IsWord} → Inv s → Step IsWord s t → Inv t
  Step-Inv {s} v (by_tool mv) = tool-Inv s.agent v mv
  Step-Inv {s} v (by_agent mv) = record {
    printed = v.printed;
    entries = v.entries;
    fits = agent-Fits s.tool v.fits mv;
  }

  pub Reach-Inv : {q : Queue} {s : System IsWord} → Reach IsWord q s → Inv s
  Reach-Inv start = record { printed = refl; entries = tt; fits = (omega arith, (refl, tt)) }
  Reach-Inv (later r step) = Step-Inv (Reach-Inv r) step
