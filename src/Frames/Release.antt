-- ===== src/Frames/Release.antt =====
-- What release_ept_frames gives back to the kernel.
use imee.Base.{
  ℕ, zero, suc, ◌+◌, ◌≤◌, ◌<◌, ◌≡◌, refl, ap, ◌∙◌, none, some, List, [], ◌∷◌, ◌++◌, arith, set,
  replicate, get_elem?, get_elem?-replicate, get_elem?-replicate_past, set-replicate,
  replicate-append-cons,
}
use native.Mathlib.Decide.{dec_lt}
use imee.Host.{Host}
use imee.Frames.{nbase, init_ept_frames, get_ept_page, release_from, release_ept_frames}

-- The calls that change the allocator before it is released.
pub data Call : Type 0 where
  init page : Call

unfoldable pub perform : Call → Host → Host
perform init h = init_ept_frames h
perform page h = (get_ept_page h).1

unfoldable pub perform_all : List Call → Host → Host
unfolding perform
perform_all [] h = h
perform_all (c ∷ cs) h = perform_all cs (perform c h)

perform_bases :
    (c : Call) (h : Host) → ((perform c h).p_bases ≡ h.p_bases) × ((perform c h).freed ≡ h.freed)
unfolding perform init_ept_frames get_ept_page
perform_bases init h = ground arith
perform_bases page h = ground arith

perform_all_bases :
    (cs : List Call) (h : Host)
    → ((perform_all cs h).p_bases ≡ h.p_bases) × ((perform_all cs h).freed ≡ h.freed)
unfolding perform_all
perform_all_bases [] h = (refl, refl)
perform_all_bases (c ∷ cs) h = ground (arith, perform_bases c h, perform_all_bases cs (perform c h))

-- The array p_bases as the program starts with it.
abbrev pub no_bases : List ℕ
no_bases = replicate nbase 0

release_from-suc :
    (n i b : ℕ) (h : Host)
    → get_elem? h.p_bases i ≡ some b
    → release_from (suc n) i h
      ≡ release_from n (i + 1) (record h { freed = b ∷ h.freed; p_bases = set h.p_bases i 0 })
unfolding release_from
release_from-suc n i b h e = rw (e, release_from)

-- Releasing entry `i` and those behind it, while all entries are NULL.
release_null :
    (n i : ℕ) (h : Host)
    → h.p_bases ≡ no_bases
    → n + i ≤ nbase
    → (h' : Host) × (release_from n i h ≡ some h') × (h'.freed ≡ replicate n 0 ++ h.freed)
unfolding release_from
release_null zero i h e le = (h, refl, refl)
release_null (suc n) i h e le =
    let h1 : Host = record h { freed = 0 ∷ h.freed; p_bases = set h.p_bases i 0 } in
    let (h2, runs, freed) =
      release_null n (i + 1) h1 (rw e (set-replicate {A = ℕ} 0 nbase i)) (omega arith) in
    let entry : get_elem? h.p_bases i ≡ some 0 =
      rw e (get_elem?-replicate {A = ℕ} 0 nbase i (omega arith)) in
    (h2, release_from-suc n i 0 h entry ∙ runs, freed ∙ replicate-append-cons {A = ℕ} 0 n h.freed)

release_past :
    (n i : ℕ) (h : Host) → h.p_bases ≡ no_bases → nbase < n + i → 0 < n → release_from n i h ≡ none
unfolding release_from
release_past zero i h e lt pos = absurd (omega arith)
release_past (suc n) i h e lt pos = elim (dec_lt i nbase) [
  | yes p ↦
      rw (e, get_elem?-replicate {A = ℕ} 0 nbase i p)
        (release_past n (i + 1) _ (set-replicate {A = ℕ} 0 nbase i) (omega arith) (omega arith))
  | no p ↦ rw (e, get_elem?-replicate_past {A = ℕ} 0 nbase i (omega arith))
]

-- However init_ept_frames and get_ept_page were called before, releasing hands only NULL to
-- free_pages, once for each block in use: no block goes back to the kernel. The allocator itself is
-- reset.
pub release-leaks :
    (cs : List Call) (h : Host)
    → h.p_bases ≡ no_bases
    → (perform_all cs h).p_base_idx < nbase
    → (h' : Host) × (release_ept_frames (perform_all cs h) ≡ some h')
      × (h'.freed ≡ replicate ((perform_all cs h).p_base_idx + 1) 0 ++ h.freed)
      × (h'.p_base ≡ 0)
unfolding release_ept_frames
release-leaks cs h e lt =
    let g = perform_all cs h in
    let (bases, none_freed) = perform_all_bases cs h in
    let (h2, runs, freed) = release_null (g.p_base_idx + 1) 0 g (bases ∙ e) (omega arith) in
    (
      record h2 { p_base = 0; p_base_idx = 0; p_idx = 0 },
      rw (runs, release_ept_frames),
      freed ∙ ap (λ f. replicate (g.p_base_idx + 1) 0 ++ f) none_freed,
      refl,
    )

-- When the blocks are used up, release reads and writes p_bases behind its end.
pub release-out_of_bounds :
    (cs : List Call) (h : Host)
    → h.p_bases ≡ no_bases
    → nbase ≤ (perform_all cs h).p_base_idx
    → release_ept_frames (perform_all cs h) ≡ none
unfolding release_ept_frames
release-out_of_bounds cs h e lt =
    let g = perform_all cs h in
    let past = release_past (g.p_base_idx + 1) 0 g ((perform_all_bases cs h).0 ∙ e) in
    rw (past (omega arith) (omega arith), release_ept_frames)
