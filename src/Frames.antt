-- ===== src/Frames.antt =====
-- The allocator of EPT pages of kvm/imee.c: do_alloc_ept_frames, init_ept_frames,
-- release_ept_frames and get_ept_page, over the globals p_bases, p_base, p_base_idx and p_idx.
pub mod Page
pub mod Capacity
pub mod Release
mod Tests
use imee.Base.{
  ℕ, zero, suc, ◌+◌, ◌*◌, ◌%◌, ◌^◌, Option, none, some, List, [], ◌∷◌, ltb, ◌==◌, if◌then◌else◌,
  get_elem?, set,
}
use imee.Host.{Host, zero_page}

-- NBASE
abbrev pub nbase : ℕ
nbase = 4

-- 1 << PAGE_ORDER, the pages of one block
abbrev pub block_pages : ℕ
block_pages = 2 ^ 10

abbrev pub page_size : ℕ
page_size = 0x1000

-- The parameter `base` is overwritten and not stored anywhere.
unfoldable pub do_alloc_ept_frames : ℕ → Host → ℕ × Host
do_alloc_ept_frames base h = elim h.supply [
  | [] ↦ (0, h)
  | b ∷ rest ↦ (b, record h { supply = rest })
]

unfoldable pub init_ept_frames : Host → Host
unfolding do_alloc_ept_frames
init_ept_frames h =
    if h.p_base == 0
    then (let (b, h') = do_alloc_ept_frames 0 h in
        record h' { p_base = b; p_base_idx = 0; p_idx = 0 })
    else h

-- `none` is an access behind the end of the array p_bases.
unfoldable pub release_from : ℕ → ℕ → Host → Option Host
release_from zero i h = some h
release_from (suc n) i h = elim (get_elem? h.p_bases i) [
  | none ↦ none
  | some b ↦ release_from n (i + 1) (record h { freed = b ∷ h.freed; p_bases = set h.p_bases i 0 })
]

unfoldable pub release_ept_frames : Host → Option Host
unfolding release_from
release_ept_frames h = elim (release_from (h.p_base_idx + 1) 0 h) [
  | none ↦ none
  | some h' ↦ some (record h' { p_base = 0; p_base_idx = 0; p_idx = 0 })
]

-- The page, or 0 for NULL, and the new state.
unfoldable pub get_ept_page : Host → ℕ × Host
unfolding do_alloc_ept_frames
get_ept_page h =
    let p_idx = h.p_idx + 1 in
    let p_base_idx = h.p_base_idx + 1 in
    let p = (h.p_base + p_idx * page_size) % 2 ^ 64 in
    if h.p_base == 0
    then (0, h)
    else if ltb p_idx block_pages
    then (p, record h { p_idx = p_idx; mem = zero_page h.mem p })
    else if ltb p_base_idx nbase
    then (let (b, h') = do_alloc_ept_frames 0 h in
        (b, record h' { p_base = b; p_base_idx = p_base_idx; p_idx = 0 }))
    else (0, record h { p_idx = p_idx; p_base_idx = p_base_idx })
