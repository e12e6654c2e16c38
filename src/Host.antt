-- ===== src/Host.antt =====
-- What kvm/imee.c uses of the host kernel: the pages that hold paging structures, the results of
-- the page allocator, and the direct map between physical and kernel virtual addresses.
use imee.Base.{ℕ, ◌+◌, ◌%◌, ◌^◌, ◌≤◌, ◌<◌, ◌≡◌, ◌&&◌, ltb, ◌==◌, if◌then◌else◌, List}

-- The pages of 512 64-bit words: page address, slot, word.
abbrev pub Mem : Type 0
Mem = ℕ → ℕ → ℕ

-- `p[i] = v`
abbrev pub store : Mem → ℕ → ℕ → ℕ → Mem
store mem p i v q j = if (q == p) && (j == i) then v else mem q j

-- `for (i = 0; i < 512; i ++) p[i] = 0`
abbrev pub zero_page : Mem → ℕ → Mem
zero_page mem p q j = if (q == p) && ltb j 512 then 0 else mem q j

-- The globals of the frame allocator, over the memory. `supply` holds what the coming calls of
-- `__get_free_pages` return (0 where one fails; nothing left counts as failure), and `freed` what
-- was given to `free_pages`, latest first.
pub record Host : Type 0 where
  pub mem : Mem
  pub supply : List ℕ
  pub freed : List ℕ
  pub p_bases : List ℕ
  pub p_base : ℕ
  pub p_base_idx : ℕ
  pub p_idx : ℕ

-- `__pa` and `__va` of x86-64: the direct map covers 2 ^ 46 bytes from `page_offset`.
pub record DirectMap : Type 0 where
  pub page_offset : ℕ
  pub pa : ℕ → ℕ
  pub va : ℕ → ℕ
  pub offset_aligned : page_offset % 4096 ≡ 0
  pub offset_pos : 0 < page_offset
  pub pa_lem : (p : ℕ) → page_offset ≤ p → p < page_offset + 2 ^ 46 → pa p + page_offset ≡ p
  pub va_lem : (x : ℕ) → x < 2 ^ 46 → va x ≡ x + page_offset
