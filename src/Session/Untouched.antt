-- ===== src/Session/Untouched.antt =====
-- What the start of an agent and the interrupt handler of kvm/imee.c leave of the EPTs.
use imee.Base.{ℕ, ◌≡◌, refl, ◌∙◌, Option, none, some, arith, Option-cases, inl, inr}
use imee.Context.{get_next_ctx}
use imee.Session.{
  Session, Answer, stamp, stamp_in, write_eoi, finish_start, await_guest, start_guest_intercept,
}

-- The memory, the allocator and the code page of the agent are the same.
abbrev pub Untouched : Session → Session → Type 0
Untouched s t = (t.host ≡ s.host) × (t.code_hpa ≡ s.code_hpa)

stamp_in-Untouched : (o : Option (ℕ → ℕ)) (now : ℕ) (s : Session) → Untouched s (stamp_in o now s)
unfolding stamp_in
stamp_in-Untouched none now s = (refl, refl)
stamp_in-Untouched (some buffer) now s = (ground arith, ground arith)

stamp-Untouched : (now : ℕ) (s : Session) → Untouched s (stamp now s)
unfolding stamp
stamp-Untouched now s = stamp_in-Untouched s.ts_buffer1 now s

pub write_eoi-Untouched :
    (a : Answer) (s : Session)
    → Untouched s (write_eoi a s) × ((write_eoi a s).contexts ≡ s.contexts)
unfolding write_eoi
write_eoi-Untouched a s = ((ground arith, ground arith), ground arith)

finish_start-Untouched : (a : Answer) (s : Session) → Untouched s (finish_start a s)
unfolding finish_start
finish_start-Untouched a s =
    stamp-Untouched a.stamp2
      (record s { trial_run = 1; tr = s.imee_tr; idt = s.imee_idt; gdt = s.imee_gdt; imee_up = 1 })

await_guest-Untouched : (a : Answer) (s : Session) → Untouched s (await_guest a s).1
unfolding await_guest
await_guest-Untouched a s =
    let (w, _) = write_eoi-Untouched a s in
    let f = finish_start-Untouched a (write_eoi a s) in
    (ground (arith, w.0, f.0), ground (arith, w.1, f.1))

pub start-Untouched : (a : Answer) (s : Session) → Untouched s (start_guest_intercept a s).1
unfolding start_guest_intercept
start-Untouched a s = elim (Option-cases (get_next_ctx s.contexts)) [
  | inl e ↦ rw (e, start_guest_intercept) (stamp-Untouched a.stamp1 s)
  | inr ((next, ctxs), e) ↦
      let (host, code) = stamp-Untouched a.stamp1 s in
      let w = await_guest-Untouched a _ in rw (e, start_guest_intercept) (w.0 ∙ host, w.1 ∙ code)
]
