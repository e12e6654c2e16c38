-- ===== src/Frames/Capacity.antt =====
-- How many pages the allocator gives out, and which.
use imee.Base.{
  ℕ, zero, suc, ◌+◌, ◌*◌, ◌/◌, ◌%◌, ◌^◌, ◌≤◌, ◌<◌, ◌≡◌, ◌≢◌, ◌⊎◌, List, arith, length, get_or, drop,
  drop-cons, not, ◌&&◌, ◌==◌, ltb, if◌then◌else◌,
}
use imee.Host.{Host}
use imee.Frames.{block_pages, nbase, page_size, init_ept_frames, get_ept_page}

-- The state after `n` calls of get_ept_page.
unfoldable pub after : ℕ → Host → Host
after zero h = h
after (suc n) h = (get_ept_page (after n h)).1

-- What call number `n` returns, counted from 0.
unfoldable pub page_no : ℕ → Host → ℕ
unfolding after
page_no n h = (get_ept_page (after n h)).0

-- The four blocks that the kernel hands over: none is NULL, each lies in the address space, and
-- they do not overlap.
pub record AreBlocks (bs : List ℕ) : Type 0 where
  pub four : length bs ≡ nbase
  pub nonnull : (i : ℕ) → i < nbase → get_or bs i 0 ≢ 0
  pub fits : (i : ℕ) → i < nbase → get_or bs i 0 + block_pages * page_size ≤ 2 ^ 64
  pub apart :
      (i j : ℕ)
      → i < nbase
      → j < nbase
      → i ≢ j
      → (get_or bs i 0 + block_pages * page_size ≤ get_or bs j 0)
        ⊎ (get_or bs j 0 + block_pages * page_size ≤ get_or bs i 0)

-- The allocator stands at page `n` of the blocks `bs`.
pub record AtPage (bs : List ℕ) (n : ℕ) (h : Host) : Type 0 where
  pub rank : h.p_base_idx * block_pages + h.p_idx ≡ n
  pub in_block : h.p_idx < block_pages
  pub base : h.p_base ≡ get_or bs h.p_base_idx 0
  pub supply : h.supply ≡ drop (suc h.p_base_idx) bs

-- All blocks are used up, and `k` calls were made since.
record IsSpent (k : ℕ) (h : Host) : Type 0 where
  base : h.p_base ≢ 0
  past_block : block_pages ≤ h.p_idx
  past_array : h.p_base_idx ≡ nbase + k

module _ (bs : List ℕ) (ok : AreBlocks bs) where
  get_ept_page-AtPage :
      (n : ℕ) (h : Host)
      → AtPage bs n h
      → n + 1 < nbase * block_pages
      → AtPage bs (n + 1) (get_ept_page h).1
        × ((get_ept_page h).0
            ≡ get_or bs ((n + 1) / block_pages) 0 + (n + 1) % block_pages * page_size)
  unfolding get_ept_page
  get_ept_page-AtPage n h v lt = ground (
    arith,
    ok.four,
    ok.nonnull h.p_base_idx,
    ok.fits h.p_base_idx,
    drop-cons bs (suc h.p_base_idx) 0,
  )

  init_ept_frames-AtPage :
      (h : Host) → h.p_base ≡ 0 → h.supply ≡ bs → AtPage bs 0 (init_ept_frames h)
  unfolding init_ept_frames
  init_ept_frames-AtPage h e s = ground (arith, ok.four, drop-cons bs 0 0)

  module _ (h : Host) (cold : h.p_base ≡ 0) (given : h.supply ≡ bs) where
    after-AtPage : (n : ℕ) → n < nbase * block_pages → AtPage bs n (after n (init_ept_frames h))
    unfolding after
    after-AtPage zero lt = init_ept_frames-AtPage h cold given
    after-AtPage (suc n) lt = ground (
      arith,
      after-AtPage n (omega arith),
      get_ept_page-AtPage n (after n (init_ept_frames h)) (after-AtPage n (omega arith)),
    )

    page_no-eq :
        (n : ℕ)
        → n + 1 < nbase * block_pages
        → page_no n (init_ept_frames h)
          ≡ get_or bs ((n + 1) / block_pages) 0 + (n + 1) % block_pages * page_size
    unfolding page_no
    page_no-eq n lt =
        (get_ept_page-AtPage n (after n (init_ept_frames h)) (after-AtPage n (omega arith)) lt).1

    -- From a cold start, with four good blocks from the kernel, the first 4095 calls return pages
    -- that are not NULL, and no two of these calls return overlapping pages.
    pub page_no-apart :
        (m n : ℕ)
        → m < n
        → n + 1 < nbase * block_pages
        → (page_no n (init_ept_frames h) ≢ 0)
          × ((page_no m (init_ept_frames h) + page_size ≤ page_no n (init_ept_frames h))
              ⊎ (page_no n (init_ept_frames h) + page_size ≤ page_no m (init_ept_frames h)))
    page_no-apart m n lt room = ground (
      arith,
      page_no-eq m (omega arith),
      page_no-eq n room,
      ok.nonnull ((n + 1) / block_pages),
      ok.apart ((m + 1) / block_pages) ((n + 1) / block_pages),
    )

    -- From a cold start, with four good blocks from the kernel, each of the first 4095 calls, counted
    -- from 0, sets the 512 words of the page that it returns to 0 and leaves all other words, but for
    -- the calls 1023, 2047 and 3071, which return the first page of a new block: these leave every
    -- word as it is, so that page is handed out with what was in it.
    pub page_no-cleared :
        (m q i : ℕ)
        → m + 1 < nbase * block_pages
        → (after (suc m) (init_ept_frames h)).mem q i ≡ (
            if not ((m + 1) % block_pages == 0)
              && ((q == page_no m (init_ept_frames h)) && ltb i 512)
            then 0
            else (after m (init_ept_frames h)).mem q i)
    unfolding after page_no get_ept_page
    page_no-cleared m q i lt = ground (
      arith,
      after-AtPage m (omega arith),
      ok.four,
      ok.nonnull ((after m (init_ept_frames h)).p_base_idx),
      ok.fits ((after m (init_ept_frames h)).p_base_idx),
      drop-cons bs (suc (after m (init_ept_frames h)).p_base_idx) 0,
    )
