-- ===== src/Session/Start.antt =====
-- What start_guest_intercept does on each of its ways out.
use imee.Base.{
  ℕ, zero, suc, ◌+◌, ◌≤◌, ◌≡◌, refl, Bool, false, Option, none, some, List, ltb, leb, ◌==◌, ◌&&◌,
  not, if◌then◌else◌, arith, sym, ap, ◌∙◌, subst,
}
use imee.Ept.{IntroCtx}
use imee.Context.{get_next_ctx}
use imee.Session.{
  Session, Answer, stamp, stamp_in, write_eoi, wait_exit, finish_start, await_guest,
  start_guest_intercept, start_go, reset_general_regs, switch_intro_ctx,
}

wait_exit-lem : (n j : ℕ) → j ≤ 10000000 → wait_exit n j ≡ leb (n + j) 10000000
unfolding wait_exit
wait_exit-lem zero j small = ground arith
wait_exit-lem (suc n) j small = ground (arith, wait_exit-lem n (j + 1))

-- The guest answers in time, with a page table root.
abbrev pub answers : Answer → Bool
answers a = leb a.delay 10000000 && not (a.guest_cr3 == 0)

abbrev pub Same : Session → Session → Type 0
Same s t =
    (t.contexts ≡ s.contexts)
    × (t.root_hpa ≡ s.root_hpa)
    × (t.current_target ≡ s.current_target)
    × ((r : ℕ) → t.regs r ≡ s.regs r)
    × (t.last_cr3 ≡ s.last_cr3)
    × (t.go_flg ≡ s.go_flg)

stamp_in-Same : (o : Option (ℕ → ℕ)) (now : ℕ) (s : Session) → Same s (stamp_in o now s)
unfolding stamp_in
stamp_in-Same none now s = (refl, refl, refl, λ r. refl, refl, refl)
stamp_in-Same (some buffer) now s =
    (ground arith, ground arith, ground arith, λ r. ground arith, ground arith, ground arith)

stamp-Same : (now : ℕ) (s : Session) → Same s (stamp now s)
unfolding stamp
stamp-Same now s = stamp_in-Same s.ts_buffer1 now s

finish_start-Same : (a : Answer) (s : Session) → Same s (finish_start a s)
unfolding finish_start
finish_start-Same a s =
    stamp-Same a.stamp2
      (record s { trial_run = 1; tr = s.imee_tr; idt = s.imee_idt; gdt = s.imee_gdt; imee_up = 1 })

await_guest-lem :
    (a : Answer) (s : Session)
    → s.exit_flg ≡ 1
    → s.last_cr3 ≡ 0
    → let r = await_guest a s in
      (r.0 ≡ answers a)
      × (r.1.contexts ≡ s.contexts)
      × (r.1.root_hpa ≡ s.root_hpa)
      × (r.1.current_target ≡ s.current_target)
      × ((i : ℕ) → r.1.regs i ≡ s.regs i)
      × (r.1.last_cr3 ≡ (if leb a.delay 10000000 then a.guest_cr3 else 0))
      × (r.1.go_flg ≡ s.go_flg)
unfolding await_guest write_eoi
await_guest-lem a s up zero_cr3 =
    let e = wait_exit-lem a.delay 0 (omega arith) in
    let f = finish_start-Same a (write_eoi a s) in
    (
      ground (arith, e, up, zero_cr3),
      ground (arith, f.0),
      ground (arith, f.1),
      ground (arith, f.2),
      λ i. ground (arith, f.3 i),
      ground (arith, e, f.4, zero_cr3),
      ground (arith, f.5),
    )

-- What a call does once get_next_ctx has picked `next`.
start-next :
    (a : Answer) (s : Session) (next : IntroCtx) (ctxs : List IntroCtx)
    → get_next_ctx s.contexts ≡ some (next, ctxs)
    → start_guest_intercept a s
      ≡ await_guest a
          (record (reset_general_regs (
            switch_intro_ctx next (record (stamp a.stamp1 s) {
              last_cr3 = 0;
              go_flg = start_go s.go_flg;
              contexts = ctxs;
              current_target = next.kvm;
            }))) { exit_flg = 1 })
unfolding start_guest_intercept
start-next a s next ctxs e = rw (e, start_guest_intercept)

-- When a context is left, start_guest_intercept returns 0 exactly if the guest answers within
-- 10,000,000 reads of exit_flg and with a page table root that is not 0. Either way the context
-- is marked, the vCPU has its EPT and zeros in the eight general registers, go_flg has gone from 1
-- to 0 and from 3 to 2, and last_cr3 is the guest's root if the guest answers in time and 0 if not.
pub start-runs :
    (a : Answer) (s : Session) (next : IntroCtx) (ctxs : List IntroCtx) (i : ℕ)
    → get_next_ctx s.contexts ≡ some (next, ctxs)
    → let r = start_guest_intercept a s in
      (r.0 ≡ answers a)
      × (r.1.contexts ≡ ctxs)
      × (r.1.root_hpa ≡ next.eptptr)
      × (r.1.current_target ≡ next.kvm)
      × (r.1.regs i ≡ (if ltb i 8 then 0 else s.regs i))
      × (r.1.last_cr3 ≡ (if leb a.delay 10000000 then a.guest_cr3 else 0))
      × (r.1.go_flg ≡ start_go s.go_flg)
start-runs a s next ctxs i e =
    let same = stamp-Same a.stamp1 s in
    let s2 =
      record (reset_general_regs (
        switch_intro_ctx next (record (stamp a.stamp1 s) {
          last_cr3 = 0;
          go_flg = start_go s.go_flg;
          contexts = ctxs;
          current_target = next.kvm;
        }))) { exit_flg = 1 } in
    let r = await_guest-lem a s2 refl refl in
    subst
      (λ p.
        (p.0 ≡ answers a)
        × (p.1.contexts ≡ ctxs)
        × (p.1.root_hpa ≡ next.eptptr)
        × (p.1.current_target ≡ next.kvm)
        × (p.1.regs i ≡ (if ltb i 8 then 0 else s.regs i))
        × (p.1.last_cr3 ≡ (if leb a.delay 10000000 then a.guest_cr3 else 0))
        × (p.1.go_flg ≡ start_go s.go_flg))
      (sym (start-next a s next ctxs e))
      (r.0, r.1, r.2, r.3, r.4 i ∙ ap (λ x. if ltb i 8 then 0 else x) (same.3 i), r.5, r.6)

-- When no context is left, start_guest_intercept returns -1 and leaves the contexts, the EPT and
-- the registers of the vCPU as they were, but forgets last_cr3 and moves go_flg all the same.
pub start-none :
    (a : Answer) (s : Session) (i : ℕ)
    → get_next_ctx s.contexts ≡ none
    → let r = start_guest_intercept a s in
      (r.0 ≡ false)
      × (r.1.contexts ≡ s.contexts)
      × (r.1.root_hpa ≡ s.root_hpa)
      × (r.1.regs i ≡ s.regs i)
      × (r.1.last_cr3 ≡ 0)
      × (r.1.go_flg ≡ start_go s.go_flg)
unfolding start_guest_intercept
start-none a s i e =
    let same = stamp-Same a.stamp1 s in
    rw (e, start_guest_intercept) (refl, same.0, same.1, same.3 i, refl, refl)
