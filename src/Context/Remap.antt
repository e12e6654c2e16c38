-- ===== src/Context/Remap.antt =====
-- What a sequence of remap_gpa_code leaves of the EPT.
use imee.Base.{
  ℕ, ◌≡◌, ◌≢◌, refl, ap, ◌∙◌, Option, none, some, List, [], ◌∷◌, arith, All, ==→eq, Option-cases,
  inl, inr,
}
use imee.Host.{Host, DirectMap, Mem}
use imee.Ept.{IntroCtx, Ptr, get_epte}
use imee.Context.{put, code_entry_of, remap_gpa_code}

-- The calls of remap_gpa_code, one for each address.
unfoldable pub remap_run : DirectMap → ℕ → List ℕ → IntroCtx → Host → Option (IntroCtx × Host)
unfolding remap_gpa_code
remap_run k code_hpa [] ctx h = some (ctx, h)
remap_run k code_hpa (gpa ∷ gpas) ctx h = elim (remap_gpa_code k code_hpa gpa ctx h) [
  | none ↦ none
  | some (ctx', h') ↦ remap_run k code_hpa gpas ctx' h'
]

-- The memory once the entry that the context has replaced is put back.
abbrev pub restored : IntroCtx → Host → Mem
restored ctx h = (put ctx.code_ept_pte_p ctx.code_ept_pte h).mem

put_back :
    (p : Ptr) (v : ℕ) (h : Host) (q j : ℕ)
    → (put (some p) (h.mem p.page p.slot) (put (some p) v h)).mem q j ≡ h.mem q j
put_back p v h q j = ground (arith, ==→eq q p.page, ==→eq j p.slot)

-- The context and the memory after a remapping of the page whose entry is at `p`.
abbrev pub after_ctx : Ptr → IntroCtx → Host → IntroCtx
after_ctx p ctx h = record ctx {
  code_ept_pte_p = some p;
  code_ept_pte = restored ctx h p.page p.slot;
}

abbrev pub after_host : ℕ → Ptr → IntroCtx → Host → Host
after_host code_hpa p ctx h =
    put (some p) (code_entry_of (restored ctx h p.page p.slot) code_hpa)
      (put ctx.code_ept_pte_p ctx.code_ept_pte h)

pub remap_one :
    (k : DirectMap) (code_hpa gpa : ℕ) (p : Ptr) (ctx : IntroCtx) (h : Host)
    → get_epte ctx gpa ≡ some p
    → remap_gpa_code k code_hpa gpa ctx h ≡ some (after_ctx p ctx h, after_host code_hpa p ctx h)
unfolding remap_gpa_code
remap_one k code_hpa gpa p ctx h e = rw (e, remap_gpa_code)

remap_run-cons :
    (k : DirectMap) (code_hpa gpa : ℕ) (gpas : List ℕ) (ctx c : IntroCtx) (h h1 : Host)
    → remap_gpa_code k code_hpa gpa ctx h ≡ some (c, h1)
    → remap_run k code_hpa (gpa ∷ gpas) ctx h ≡ remap_run k code_hpa gpas c h1
unfolding remap_run
remap_run-cons k code_hpa gpa gpas ctx c h h1 e = rw (e, remap_run)

remap_run-exists :
    (k : DirectMap) (code_hpa : ℕ) (gpas : List ℕ) (ctx : IntroCtx) (h : Host) (base : Mem)
    → All gpas (λ gpa. get_epte ctx gpa ≢ none)
    → ((q j : ℕ) → restored ctx h q j ≡ base q j)
    → (c : IntroCtx) × (h' : Host) × (remap_run k code_hpa gpas ctx h ≡ some (c, h'))
      × ((q j : ℕ) → restored c h' q j ≡ base q j)
unfolding get_epte remap_run
remap_run-exists k code_hpa [] ctx h base there were = (ctx, h, refl, were)
remap_run-exists k code_hpa (gpa ∷ gpas) ctx h base there were =
    elim (Option-cases (get_epte ctx gpa)) [
      | inl e ↦ absurd (there.0 e)
      | inr (p, e) ↦
          let (c, h', runs, back) =
            remap_run-exists k code_hpa gpas (after_ctx p ctx h) (after_host code_hpa p ctx h) base
              there.1
              (λ q j.
                put_back p (code_entry_of (restored ctx h p.page p.slot) code_hpa)
                  (put ctx.code_ept_pte_p ctx.code_ept_pte h) q j
                ∙ were q j) in
          (
            c,
            h',
            remap_run-cons k code_hpa gpa gpas ctx (after_ctx p ctx h) h
                  (after_host code_hpa p ctx h) (remap_one k code_hpa gpa p ctx h e)
                ∙ runs,
            back,
          )
    ]

-- Any sequence of calls of remap_gpa_code, from a context with no page replaced, for addresses
-- that have a leaf page each, ends without a fault; writing the saved entry back then gives the
-- memory before the first call, so no entry but that of the last page replaced is different.
pub remap_run-restores :
    (k : DirectMap) (code_hpa : ℕ) (gpas : List ℕ) (ctx : IntroCtx) (h : Host)
    → All gpas (λ gpa. get_epte ctx gpa ≢ none)
    → ctx.code_ept_pte_p ≡ none
    → (c : IntroCtx) × (h' : Host) × (remap_run k code_hpa gpas ctx h ≡ some (c, h'))
      × ((q j : ℕ) → (put c.code_ept_pte_p c.code_ept_pte h').mem q j ≡ h.mem q j)
remap_run-restores k code_hpa gpas ctx h there fresh =
    remap_run-exists k code_hpa gpas ctx h h.mem there
      (λ q j. ap (λ o. (put o ctx.code_ept_pte h).mem q j) fresh)
