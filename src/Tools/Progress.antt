-- ===== src/Tools/Progress.antt =====
-- The asynchronous tool can always come to its end.
use imee.Base.{
  ℕ, zero, suc, ◌+◌, ◌*◌, ◌%◌, ◌^◌, ◌<◌, ◌≡◌, inl, inr, refl, List, arith, leb, ◌-◌, subst, sym,
  Bool-cases,
}
use imee.Tools.{
  Queue, put_word, put_xmm, n_entries, ToolPc, head, put_zero, put_address, put_length, put_lock,
  spin, show, leave, done, round, ends, zeroes, addresses, sizes, locks, passes, prints, quits,
  AgentPc, poll, tested, sized, addressed, storing, exited, loads, retries, exits, takes, fetches,
  reads, stores, releases, System, Step, by_tool, by_agent, Reach, later, ToolMove,
}
use imee.Tools.Places.{Serves, IsEnding}
use imee.Tools.Invariant.{Inv, Step-Inv, Reach-Inv, Quiet-ends}

module _ (IsWord : ℕ → ℕ → Type 0) where
  -- Any number of steps.
  pub data Steps : System IsWord → System IsWord → Type 0 where
    here : {s : System IsWord} → Steps s s
    further : {s t u : System IsWord} → Step IsWord s t → Steps t u → Steps s u

  Steps-trans : {s t u : System IsWord} → Steps s t → Steps t u → Steps s u
  Steps-trans here rest = rest
  Steps-trans (further one more) rest = further one (Steps-trans more rest)

  pub Reach-Steps :
      {q : Queue} {s t : System IsWord} → Reach IsWord q s → Steps s t → Reach IsWord q t
  Reach-Steps r here = r
  Reach-Steps r (further one more) = Reach-Steps (later r one) more

  Steps-Inv : {s t : System IsWord} → Steps s t → Inv IsWord s → Inv IsWord t
  Steps-Inv here v = v
  Steps-Inv (further one more) v = Steps-Inv more (Step-Inv IsWord v one)

  abbrev at : Queue → List ℕ → ToolPc → AgentPc → System IsWord
  at q out t p = record { queue = q; printed = out; tool = t; agent = p }

  -- The agent alone gets to where it polls, and the lock is 0.
  abbrev Releases : Queue → List ℕ → ToolPc → AgentPc → Type 0
  Releases q out t p = (q' : Queue) × Steps (at q out t p) (at q' out t poll) × (q' 0 ≡ 0)

  -- From any state the run can go on to its end.
  abbrev pub Finishes : System IsWord → Type 0
  Finishes s = (t : System IsWord) × Steps s t × (t.tool ≡ done) × (t.agent ≡ exited)

  module _ (readable : (a : ℕ) → (v : ℕ) × IsWord a v) (out : List ℕ) (t : ToolPc) where
    storing-Releases :
        (d n : ℕ) (x : ℕ → ℕ) (q : Queue) → n + d ≡ 4 → Releases q out t (storing x n)
    storing-Releases zero n x q e =
        (put_word q 0 0, further (by_agent (releases (omega (arith, e)))) here, refl)
    storing-Releases (suc d) n x q e =
        let (q', steps, free) = storing-Releases d (suc n) x (put_xmm q x n) (omega (arith, e)) in
        (q', further (by_agent (stores (omega (arith, e)))) steps, free)

    addressed-Releases : (q : Queue) (a : ℕ) → Releases q out t (addressed a)
    addressed-Releases q a =
        let x : ℕ → ℕ = λ j. (readable ((a + 4 * j) % 2 ^ 32)).0 in
        let (q', steps, free) = storing-Releases 4 0 x q refl in
        (
          q',
          further (by_agent (reads {x = x} (λ j lt. (readable ((a + 4 * j) % 2 ^ 32)).1))) steps,
          free,
        )

    sized-Releases : (q : Queue) → Releases q out t sized
    sized-Releases q =
        let (q', steps, free) = addressed-Releases q (q 1) in
        (q', further (by_agent fetches) steps, free)

    taken-Releases : (q : Queue) (v : ℕ) → v ≡ 1 → Releases q out t (tested v)
    taken-Releases q v one =
        let (q', steps, free) = sized-Releases q in
        (
          q',
          further (by_agent (takes (λ e. omega (arith, one, e)) (λ e. omega (arith, one, e))))
              steps,
          free,
        )

    poll-Releases : (q : Queue) → q 0 ≡ 1 → Releases q out t poll
    poll-Releases q lock =
        let (q', steps, free) = taken-Releases q (q 0) lock in
        (q', further (by_agent loads) steps, free)

    retry : (q : Queue) (v : ℕ) → v ≡ 0 → Step IsWord (at q out t (tested v)) (at q out t poll)
    retry q v e =
        subst (λ w. Step IsWord (at q out t (tested w)) (at q out t poll)) (sym e)
          (by_agent retries)

    Serves-Releases :
        (i : ℕ) (q : Queue) (p : AgentPc) → q 0 ≡ 1 → Serves IsWord i q p → Releases q out t p
    Serves-Releases i q poll lock serves = poll-Releases q lock
    Serves-Releases i q (tested v) lock (inl e) =
        let (q', steps, free) = poll-Releases q lock in (q', further (retry q v e) steps, free)
    Serves-Releases i q (tested v) lock (inr e) = taken-Releases q v e
    Serves-Releases i q sized lock serves = sized-Releases q
    Serves-Releases i q (addressed a) lock serves = addressed-Releases q a
    Serves-Releases i q (storing x n) lock serves = elim (Bool-cases (leb n 4)) [
      | inl e ↦ storing-Releases (4 - n) n x q (ground (arith, e))
      | inr e ↦ (put_word q 0 0, further (by_agent (releases (ground (arith, e)))) here, refl)
    ]
    Serves-Releases i q exited lock serves = absurd (ground (arith, serves))

  module _ (readable : (a : ℕ) → (v : ℕ) × IsWord a v) where
    exits-from : (out : List ℕ) (q : Queue) (v : ℕ) → v ≡ 2 → Finishes (at q out done (tested v))
    exits-from out q v e = (
      at q out done exited,
      subst (λ w. Steps (at q out done (tested w)) (at q out done exited)) (sym e)
          (further (by_agent exits) here),
      refl,
      refl,
    )

    done-Finishes :
        (q : Queue) (out : List ℕ) (p : AgentPc) → q 0 ≡ 2 → IsEnding p → Finishes (at q out done p)
    done-Finishes q out poll lock ending =
        let (t, steps, ended, left) = exits-from out q (q 0) lock in
        (t, further (by_agent loads) steps, ended, left)
    done-Finishes q out (tested v) lock (inl e) =
        let (t, steps, ended, left) = exits-from out q (q 0) lock in
        (t, further (retry readable out done q v e) (further (by_agent loads) steps), ended, left)
    done-Finishes q out (tested v) lock (inr e) = exits-from out q v e
    done-Finishes q out sized lock ending = absurd (ground (arith, ending))
    done-Finishes q out (addressed a) lock ending = absurd (ground (arith, ending))
    done-Finishes q out (storing x n) lock ending = absurd (ground (arith, ending))
    done-Finishes q out exited lock ending = (at q out done exited, here, refl, refl)

    -- One more step, or several, before.
    before : {s t : System IsWord} → Steps s t → Finishes t → Finishes s
    before steps (u, more, ended, left) = (u, Steps-trans steps more, ended, left)

    -- From a place of the thread, whatever the buffer, the output and the agent.
    From : ToolPc → Type 0
    From t =
        (q : Queue) (out : List ℕ) (p : AgentPc)
        → Inv IsWord (at q out t p)
        → Finishes (at q out t p)

    via :
        (t : ToolPc) {q q' : Queue} {out out' : List ℕ} {t' : ToolPc} {p : AgentPc}
        → From t'
        → ToolMove q out t q' out' t'
        → Inv IsWord (at q out t p)
        → Finishes (at q out t p)
    unfolding From
    via t {p = p} next mv v =
        before (further (by_tool mv) here) (next _ _ p (Step-Inv IsWord v (by_tool mv)))

    leave-Finishes : From leave
    unfolding From
    leave-Finishes q out p v =
        before (further (by_tool quits) here)
          (done-Finishes (put_word q 0 2) out p refl (Quiet-ends IsWord q p v.fits))

    module _ (i : ℕ) (next : From (head (suc i))) where
      show-Finishes : From (show i)
      unfolding From
      show-Finishes q out p v = via (show i) next prints v

      spin-Finishes : From (spin i)
      unfolding From
      spin-Finishes q out p v = elim v.fits.1.1 [
        | inl (lock, serves) ↦
            let (q', steps, free) = Serves-Releases readable out (spin i) i q p lock serves in
            before steps (via (spin i) show-Finishes (passes free) (Steps-Inv steps v))
        | inr (free, _, _) ↦ via (spin i) show-Finishes (passes free) v
      ]

      lock-Finishes : From (put_lock i)
      unfolding From
      lock-Finishes q out p v = via (put_lock i) spin-Finishes locks v

      length-Finishes : From (put_length i)
      unfolding From
      length-Finishes q out p v = via (put_length i) lock-Finishes sizes v

      address-Finishes : From (put_address i)
      unfolding From
      address-Finishes q out p v = via (put_address i) length-Finishes addresses v

      zero-Finishes : From (put_zero i)
      unfolding From
      zero-Finishes q out p v = via (put_zero i) address-Finishes zeroes v

    head-Finishes : (d i : ℕ) → i + d ≡ n_entries → From (head i)
    unfolding From
    head-Finishes zero i e q out p v = via (head i) leave-Finishes (ends (omega (arith, e))) v
    head-Finishes (suc d) i e q out p v =
        via (head i) (zero-Finishes i (head-Finishes d (suc i) (omega (arith, e))))
          (round (omega (arith, e))) v

    next-Finishes : (i : ℕ) → i < n_entries → From (head (suc i))
    next-Finishes i lt = head-Finishes (n_entries - suc i) (suc i) (omega (arith, lt))

    Inv-Finishes : (t : ToolPc) → From t
    unfolding From
    Inv-Finishes (head i) q out p v =
        head-Finishes (n_entries - i) i (omega (arith, v.fits.0)) q out p v
    Inv-Finishes (put_zero i) q out p v = zero-Finishes i (next-Finishes i v.fits.0) q out p v
    Inv-Finishes (put_address i) q out p v = address-Finishes i (next-Finishes i v.fits.0) q out p v
    Inv-Finishes (put_length i) q out p v = length-Finishes i (next-Finishes i v.fits.0) q out p v
    Inv-Finishes (put_lock i) q out p v = lock-Finishes i (next-Finishes i v.fits.0) q out p v
    Inv-Finishes (spin i) q out p v = spin-Finishes i (next-Finishes i v.fits.0) q out p v
    Inv-Finishes (show i) q out p v = show-Finishes i (next-Finishes i v.fits.0) q out p v
    Inv-Finishes leave q out p v = leave-Finishes q out p v
    Inv-Finishes done q out p v = done-Finishes q out p v.fits.0 v.fits.1

    -- If every address of the guest can be read, then from every state that a run reaches it can go on
    -- to the end, where the thread has ended and the agent has left: they never block each other.
    pub Reach-Finishes : (q : Queue) (s : System IsWord) → Reach IsWord q s → Finishes s
    unfolding From
    Reach-Finishes q s run = Inv-Finishes s.tool s.queue s.printed s.agent (Reach-Inv IsWord run)
