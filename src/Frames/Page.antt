-- ===== src/Frames/Page.antt =====
-- What one call of get_ept_page returns, and what it does to the memory.
use imee.Base.{ltb, ◌==◌, ◌&&◌, if◌then◌else◌, ℕ, ◌+◌, ◌*◌, ◌^◌, ◌≤◌, ◌<◌, ◌≡◌, ◌≢◌, arith}
use imee.Host.{Host}
use imee.Frames.{block_pages, page_size, get_ept_page}

-- The allocator has a block that lies inside the address space.
pub record HasBlock (h : Host) : Type 0 where
  pub base : h.p_base ≢ 0
  pub fits : h.p_base + block_pages * page_size ≤ 2 ^ 64

-- While a block has pages left, the call returns the next page of the block, sets its 512 words
-- to 0, and leaves every other page as it was.
pub get_ept_page-mem :
    (h : Host) (q i : ℕ)
    → HasBlock h
    → h.p_idx + 1 < block_pages
    → ((get_ept_page h).0 ≡ h.p_base + (h.p_idx + 1) * page_size)
      × ((get_ept_page h).1.p_idx ≡ h.p_idx + 1)
      × ((get_ept_page h).1.mem q i
          ≡ (if (q == (get_ept_page h).0) && ltb i 512 then 0 else h.mem q i))
unfolding get_ept_page
get_ept_page-mem h q i v room = (ground arith, ground arith, ground arith)
