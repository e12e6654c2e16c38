-- ===== src/Vmx/Eptp.antt =====
-- construct_eptp and vmx_write_eptp of kvm/vmx.c: the EPT pointer of the agent's vCPU.
use imee.Base.{
  ℕ, ◌+◌, ◌*◌, ◌/◌, ◌%◌, ◌^◌, ◌<◌, ◌≡◌, Bool, true, false, if◌then◌else◌, bit_or, arith,
  bit_or_split, bit_or-zero, zero-bit_or,
}
use imee.Masks.{frame_bits, frame_bits-add}

-- The constants of asm/vmx.h of the kernel.
pub record EptpBits : Type 0 where
  pub default_mt : ℕ
  pub default_gaw : ℕ
  pub gaw_shift : ℕ
  pub ad_enable : ℕ

-- `x & PAGE_MASK`
abbrev page_of : ℕ → ℕ
page_of x = x / 4096 * 4096

unfoldable pub construct_eptp : EptpBits → Bool → ℕ → ℕ
construct_eptp c enable_ept_ad_bits root_hpa =
    let eptp = bit_or c.default_mt (c.default_gaw * 2 ^ c.gaw_shift) in
    bit_or (if enable_ept_ad_bits then bit_or eptp c.ad_enable else eptp) (page_of root_hpa)

-- What is written to EPT_POINTER: `eptp & ~(1 << 6)`.
unfoldable pub vmx_write_eptp : EptpBits → Bool → ℕ → ℕ
unfolding construct_eptp
vmx_write_eptp c enable_ept_ad_bits root_hpa =
    let eptp = construct_eptp c enable_ept_ad_bits root_hpa in eptp / 128 * 128 + eptp % 64

flags-page : (flags q : ℕ) → flags < 4096 → bit_or flags (q * 4096) ≡ q * 4096 + flags
flags-page flags q lt =
    ground (arith, bit_or_split 12 0 flags q 0, bit_or-zero flags, zero-bit_or q)

-- With the constants of the processor's manual, and a root table at a page below 2 ^ 51, the EPT
-- pointer has the root table as its frame, write-back memory and four levels; and the bit that would
-- make a walk of the guest's tables count as a write is 0, whether enable_ept_ad_bits is set or not.
vmx_write_eptp-root :
    (c : EptpBits) (enable_ept_ad_bits : Bool) (root_hpa : ℕ)
    → c ≡ record { default_mt = 6; default_gaw = 3; gaw_shift = 3; ad_enable = 0x40 }
    → root_hpa % 4096 ≡ 0
    → root_hpa < 2 ^ 51
    → let eptp = vmx_write_eptp c enable_ept_ad_bits root_hpa in
      (frame_bits eptp ≡ root_hpa) × (eptp % 8 ≡ 6) × (eptp / 8 % 8 ≡ 3) × (eptp / 64 % 2 ≡ 0)
unfolding vmx_write_eptp
vmx_write_eptp-root c enable_ept_ad_bits root_hpa e al lt = go enable_ept_ad_bits
  where
    go :
        (b : Bool)
        → let eptp = vmx_write_eptp c b root_hpa in
          (frame_bits eptp ≡ root_hpa) × (eptp % 8 ≡ 6) × (eptp / 8 % 8 ≡ 3) × (eptp / 64 % 2 ≡ 0)
    go true = rw e (
      ground (arith, flags-page 0x5E (root_hpa / 4096), frame_bits-add (root_hpa / 4096) 0x1E),
      ground (arith, flags-page 0x5E (root_hpa / 4096)),
      ground (arith, flags-page 0x5E (root_hpa / 4096)),
      ground (arith, flags-page 0x5E (root_hpa / 4096)),
    )
    go false = rw e (
      ground (arith, flags-page 0x1E (root_hpa / 4096), frame_bits-add (root_hpa / 4096) 0x1E),
      ground (arith, flags-page 0x1E (root_hpa / 4096)),
      ground (arith, flags-page 0x1E (root_hpa / 4096)),
      ground (arith, flags-page 0x1E (root_hpa / 4096)),
    )
