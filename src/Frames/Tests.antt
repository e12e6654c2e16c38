-- ===== src/Frames/Tests.antt =====
-- The allocator at concrete inputs.
use imee.Base.{
  ℕ, zero, suc, get_or, ◌+◌, ◌*◌, ◌≤◌, ◌<◌, ◌≡◌, refl, ◌≢◌, ◌⊎◌, none, some, List, [], ◌∷◌, ◌++◌,
  arith, replicate,
}
use imee.Host.{Host}
use imee.Frames.{nbase, page_size, init_ept_frames, get_ept_page, release_ept_frames}
use imee.Frames.Capacity.{AreBlocks, after, page_no, page_no-apart, page_no-cleared}
use imee.Frames.Release.{init, page, perform_all, no_bases, release-leaks, release-out_of_bounds}

-- Memory that holds 7 everywhere, and four blocks of 4 MB.
abbrev blocks : List ℕ
blocks = 0x1000000 ∷ 0x2000000 ∷ 0x3000000 ∷ 0x4000000 ∷ []

abbrev cold : Host
cold = record {
  mem = λ p i. 7;
  supply = blocks;
  freed = [];
  p_bases = no_bases;
  p_base = 0;
  p_base_idx = 0;
  p_idx = 0;
}

abbrev warm : Host
warm = record cold { supply = 0x2000000 ∷ []; p_base = 0x1000000 }

abbrev full : Host
full = record warm { p_idx = 1023 }

block_at : (i : ℕ) → i < nbase → get_or blocks i 0 ≡ (i + 1) * 0x1000000
block_at zero h = refl
block_at (suc zero) h = refl
block_at (suc (suc zero)) h = refl
block_at (suc (suc (suc zero))) h = refl
block_at (suc (suc (suc (suc i)))) h = absurd (omega arith)

blocks-AreBlocks : AreBlocks blocks
blocks-AreBlocks = record {
  four = refl;
  nonnull = λ i h. omega (arith, block_at i h);
  fits = λ i h. omega (arith, block_at i h);
  apart = λ i j hi hj ne. omega (arith, block_at i hi, block_at j hj);
}

page_no-apart_example :
    (page_no 1023 (init_ept_frames cold) ≢ 0)
    × ((page_no 5 (init_ept_frames cold) + page_size ≤ page_no 1023 (init_ept_frames cold))
        ⊎ (page_no 1023 (init_ept_frames cold) + page_size ≤ page_no 5 (init_ept_frames cold)))
page_no-apart_example =
    page_no-apart blocks blocks-AreBlocks cold refl refl 5 1023 (omega arith) (omega arith)

-- The first page of the second block.
page_no-cleared_example :
    (after 1024 (init_ept_frames cold)).mem 0x200_0000 5
    ≡ (after 1023 (init_ept_frames cold)).mem 0x200_0000 5
page_no-cleared_example =
    page_no-cleared blocks blocks-AreBlocks cold refl refl 1023 0x200_0000 5 (omega arith)

release-leaks_example :
    (h' : Host) × (release_ept_frames (perform_all (init ∷ page ∷ []) cold) ≡ some h')
    × (h'.freed ≡ replicate ((perform_all (init ∷ page ∷ []) cold).p_base_idx + 1) 0 ++ [])
    × (h'.p_base ≡ 0)
unfolding perform_all init_ept_frames get_ept_page
release-leaks_example = release-leaks (init ∷ page ∷ []) cold refl (omega arith)

-- Five blocks' worth of pages have been asked for.
abbrev spent : Host
spent = record full { p_base_idx = 3 }

release-out_of_bounds_example : release_ept_frames (perform_all (page ∷ []) spent) ≡ none
unfolding perform_all get_ept_page
release-out_of_bounds_example = release-out_of_bounds (page ∷ []) spent refl (omega arith)
