-- ===== src/Segments/Answers.antt =====
-- guest_state_valid and vmx_set_segment of kvm/vmx.c, as functions of the VMCS and rmode.segs alone.
use imee.Base.{
  ℕ, ◌≡◌, refl, ap, ◌∙◌, Bool, true, false, not, ◌&&◌, ◌||◌, ◌==◌, if◌then◌else◌, bit_and,
}
use imee.Segments.{Segment}
use imee.Segments.Cache.{Config, GuestSegments, SegVcpu, vmx_get_segment}
use imee.Segments.Coherent.{
  IsCoherent, Cached, Cached-refl, Cached-then, segment_in, vmx_get_segment-Cached,
}
use imee.Segments.Valid.{
  rmode_valid, code_valid, stack_valid, data_valid, tr_test, ldtr_test, check_then, on_segment,
  cs_ss_rpl_check, rmode_checks, pmode_checks, guest_state_valid,
}

module _ (c : Config) where
  -- A check that gives what `test` says of the VMCS and rmode.segs, and changes the cache only.
  abbrev pub Answers : (SegVcpu → Bool × SegVcpu) → (GuestSegments → Bool) → Type 0
  Answers p test = (v : SegVcpu) → IsCoherent c v → ((p v).0 ≡ test v.guest) × Cached c v (p v).1

  on_segment-Answers :
      (seg : ℕ) (test : Segment → Bool)
      → Answers (on_segment c seg test) (λ g. test (segment_in c seg g))
  on_segment-Answers seg test v coherent =
      let (e, cached) = vmx_get_segment-Cached c seg v coherent in (ap test e, cached)

  check_then-Answers :
      (p q : SegVcpu → Bool × SegVcpu) (s t : GuestSegments → Bool)
      → Answers p s
      → Answers q t
      → Answers (check_then c p q) (λ g. s g && t g)
  check_then-Answers p q s t first second v coherent =
      let (e, one) = first v coherent in
      let (e', two) = second (p v).1 one.coherent in
      go (p v).0 (e) one (Cached-then c v (p v).1 (q (p v).1).1 one two) (e' ∙ ap t (one.guest))
    where
      go :
          (ok : Bool)
          → ok ≡ s v.guest
          → Cached c v (p v).1
          → Cached c v (q (p v).1).1
          → (q (p v).1).0 ≡ t v.guest
          → let r = if◌then◌else◌ {A = Bool × SegVcpu} ok (q (p v).1) (false, (p v).1) in
            (r.0 ≡ (s v.guest && t v.guest)) × Cached c v r.1
      go true e one two e' = (e' ∙ ap (λ b. b && t v.guest) e, two)
      go false e one two e' = (ap (λ b. b && t v.guest) e, one)

  -- What the tests are on.
  abbrev pub in_rmode : GuestSegments → Bool
  in_rmode g =
      let ok = λ (seg : ℕ). rmode_valid c seg (segment_in c seg g) in
      ok c.cs && (ok c.ss && (ok c.ds && (ok c.es && (ok c.fs && ok c.gs))))

  abbrev pub in_pmode : GuestSegments → Bool
  in_pmode g =
      let at_seg = λ (seg : ℕ). segment_in c seg g in
      let rpl = λ (seg : ℕ). bit_and (at_seg seg).selector c.rpl_mask in
      (rpl c.cs == rpl c.ss)
      && (code_valid c (at_seg c.cs)
          && (stack_valid c (at_seg c.ss)
              && (data_valid c (at_seg c.ds)
                  && (data_valid c (at_seg c.es)
                      && (data_valid c (at_seg c.fs)
                          && (data_valid c (at_seg c.gs)
                              && (tr_test c (at_seg c.tr) && ldtr_test c (at_seg c.ldtr))))))))

  abbrev pub state_valid : GuestSegments → Bool
  state_valid g =
      if c.enable_unrestricted_guest
      then true
      else if not g.protmode || g.rflags_vm
      then in_rmode g
      else in_pmode g

  rmode_checks-Answers : Answers (rmode_checks c) in_rmode
  unfolding rmode_checks
  rmode_checks-Answers =
      let ok = λ (seg : ℕ). on_segment-Answers seg (rmode_valid c seg) in
      check_then-Answers _ _ _ _ (ok c.cs) (
        check_then-Answers _ _ _ _ (ok c.ss) (
          check_then-Answers _ _ _ _ (ok c.ds) (
            check_then-Answers _ _ _ _ (ok c.es) (check_then-Answers _ _ _ _ (ok c.fs) (ok c.gs)))))

  cs_ss-Answers : Answers (cs_ss_rpl_check c) (λ g.
      bit_and (segment_in c c.cs g).selector c.rpl_mask
      == bit_and (segment_in c c.ss g).selector c.rpl_mask)
  unfolding cs_ss_rpl_check
  cs_ss-Answers v coherent =
      let (e, one) = vmx_get_segment-Cached c c.cs v coherent in
      let v1 = (vmx_get_segment c c.cs v).1 in
      let (e', two) = vmx_get_segment-Cached c c.ss v1 one.coherent in
      let e2 = e' ∙ ap (segment_in c c.ss) (one.guest) in
      (
        ap
              (λ x.
                bit_and x.selector c.rpl_mask
                == bit_and (vmx_get_segment c c.ss v1).0.selector c.rpl_mask)
              e
            ∙ ap
                (λ x.
                  bit_and (segment_in c c.cs v.guest).selector c.rpl_mask
                  == bit_and x.selector c.rpl_mask)
                e2,
        Cached-then c v v1 _ one two,
      )

  pmode_checks-Answers : Answers (pmode_checks c) in_pmode
  unfolding pmode_checks
  pmode_checks-Answers = check_then-Answers _ _ _ _ cs_ss-Answers (
      check_then-Answers _ _ _ _ (on_segment-Answers c.cs (code_valid c)) (
        check_then-Answers _ _ _ _ (on_segment-Answers c.ss (stack_valid c)) (
          check_then-Answers _ _ _ _ (on_segment-Answers c.ds (data_valid c)) (
            check_then-Answers _ _ _ _ (on_segment-Answers c.es (data_valid c)) (
              check_then-Answers _ _ _ _ (on_segment-Answers c.fs (data_valid c)) (
                check_then-Answers _ _ _ _ (on_segment-Answers c.gs (data_valid c)) (
                  check_then-Answers _ _ _ _ (on_segment-Answers c.tr (tr_test c))
                    (on_segment-Answers c.ldtr (ldtr_test c)))))))))

  pub guest_state_valid-Answers : Answers (guest_state_valid c) state_valid
  unfolding guest_state_valid
  guest_state_valid-Answers v coherent =
      go c.enable_unrestricted_guest (not v.guest.protmode || v.guest.rflags_vm)
        (rmode_checks-Answers v coherent) (pmode_checks-Answers v coherent)
    where
      go :
          (free real : Bool)
          → ((rmode_checks c v).0 ≡ in_rmode v.guest) × Cached c v (rmode_checks c v).1
          → ((pmode_checks c v).0 ≡ in_pmode v.guest) × Cached c v (pmode_checks c v).1
          → let r =
              if◌then◌else◌ {A = Bool × SegVcpu} free
                (true, v)
                (if◌then◌else◌ {A = Bool × SegVcpu} real (rmode_checks c v) (pmode_checks c v)) in
            (r.0 ≡ (if free then true else if real then in_rmode v.guest else in_pmode v.guest))
            × Cached c v r.1
      go true real rm pm = (refl, Cached-refl c v coherent)
      go false true rm pm = rm
      go false false rm pm = pm
