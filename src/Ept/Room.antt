-- ===== src/Ept/Room.antt =====
-- The pages that get_ept_page will give out next, as new tables.
use imee.Base.{ℕ, suc, ◌+◌, ◌*◌, ◌/◌, ◌%◌, ◌^◌, ◌≤◌, ◌<◌, ◌≡◌, ◌≢◌, arith, bit_or}
use imee.Masks.{frame_bits-add, bit_or-aligned}
use imee.Host.{Host, DirectMap}
use imee.Frames.{block_pages, page_size, get_ept_page}
use imee.Ept.Walk.{child, Labels}
use imee.Ept.Change.{extend}

-- The current block has `m` pages left at least, lies in the direct map, and none of the pages
-- that it has left is a table.
pub record Room (k : DirectMap) (l : Labels) (m : ℕ) (h : Host) : Type 0 where
  pub aligned : h.p_base % page_size ≡ 0
  pub below : k.page_offset ≤ h.p_base
  pub above : h.p_base + block_pages * page_size ≤ k.page_offset + 2 ^ 46
  pub fits : k.page_offset + 2 ^ 46 ≤ 2 ^ 64
  pub left : h.p_idx + m < block_pages
  pub unused : (j : ℕ) → h.p_idx < j → j < block_pages → l.height (h.p_base + j * page_size) ≡ 0

-- The address of the next page.
abbrev pub next_page : Host → ℕ
next_page h = h.p_base + (h.p_idx + 1) * page_size

module _ (k : DirectMap) where
  -- An entry made from a page of the direct map points to that page.
  pub child-entry :
      (p : ℕ)
      → p % page_size ≡ 0
      → k.page_offset ≤ p
      → p < k.page_offset + 2 ^ 46
      → child k (bit_or (k.pa p) 0x7) ≡ p
  child-entry p al lo hi = ground (
    arith,
    k.offset_aligned,
    k.pa_lem p,
    k.va_lem (k.pa p),
    bit_or-aligned (k.pa p / 4096) 0x7,
    frame_bits-add (k.pa p / 4096) 0x7,
  )

  pub entry-ne-zero :
      (p : ℕ)
      → p % page_size ≡ 0
      → k.page_offset ≤ p
      → p < k.page_offset + 2 ^ 46
      → bit_or (k.pa p) 0x7 ≢ 0
  entry-ne-zero p al lo hi =
      ground (arith, k.offset_aligned, k.pa_lem p, bit_or-aligned (k.pa p / 4096) 0x7)

  module _ (l : Labels) (m : ℕ) (h : Host) (room : Room k l (suc m) h) where
    pub next_page-child : child k (bit_or (k.pa (next_page h)) 0x7) ≡ next_page h
    next_page-child = child-entry (next_page h) (omega arith) (omega arith) (omega arith)

    pub next_page-entry : bit_or (k.pa (next_page h)) 0x7 ≢ 0
    next_page-entry = entry-ne-zero (next_page h) (omega arith) (omega arith) (omega arith)

    pub next_page-nonnull : next_page h ≢ 0
    next_page-nonnull = omega arith

    pub get_ept_page-next : (get_ept_page h).0 ≡ next_page h
    unfolding get_ept_page
    get_ept_page-next = ground arith

    -- Whatever height and region the page gets, there is room for the others.
    pub Room-get_ept_page :
        (height region : ℕ) → Room k (extend l (next_page h) height region) m (get_ept_page h).1
    unfolding get_ept_page
    Room-get_ept_page height region = record {
      aligned = ground arith;
      below = ground arith;
      above = ground arith;
      fits = ground arith;
      left = ground arith;
      unused = λ j lo hi. ground (arith, room.unused j);
    }

pub Room-weaken :
    {k : DirectMap} {l : Labels} {m : ℕ} (m' : ℕ) {h : Host} → m' ≤ m → Room k l m h → Room k l m' h
Room-weaken m' le room = record {
  aligned = room.aligned;
  below = room.below;
  above = room.above;
  fits = room.fits;
  left = omega (arith, room.left);
  unused = room.unused;
}
