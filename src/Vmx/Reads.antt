-- ===== src/Vmx/Reads.antt =====
-- vmx_read_cr3, vmx_write_cr3 and vmx_read_rsp_rip of kvm/vmx.c, over the VMCS that the core has
-- loaded.
use imee.Base.{ℕ, ◌%◌, ◌^◌, ◌≡◌, Option, none, some, ◌==◌, if◌then◌else◌, arith}

-- One core: the VMCS that is loaded, which per_cpu (current_vmcs) names too, and the guest's cr3,
-- rsp and rip in each VMCS, by its address.
pub record Core : Type 0 where
  pub loaded : ℕ
  pub guest_cr3 : ℕ → ℕ
  pub guest_rsp : ℕ → ℕ
  pub guest_rip : ℕ → ℕ

abbrev vmcs_load : ℕ → Core → Core
vmcs_load v c = record c { loaded = v }

abbrev low32 : ℕ → ℕ
low32 n = n % 2 ^ 32

-- vmcs_read32 (GUEST_CR3)
abbrev read_cr3 : Core → ℕ
read_cr3 c = low32 (c.guest_cr3 c.loaded)

-- `target` is the VMCS of current_target's vCPU, if there is a target; `cr3` is what the pointer
-- points to before.
unfoldable pub vmx_read_cr3 : Option ℕ → ℕ → Core → ℕ × Core
vmx_read_cr3 none cr3 c = (cr3, c)
vmx_read_cr3 (some target) cr3 c =
    let v = c.loaded in
    if v == target
    then (read_cr3 c, c)
    else (let c' = vmcs_load target c in (read_cr3 c', vmcs_load v c'))

unfoldable pub vmx_write_cr3 : ℕ → Core → Core
vmx_write_cr3 cr3 c = record c {
  guest_cr3 = λ v. if v == c.loaded then low32 cr3 else c.guest_cr3 v;
}

unfoldable pub vmx_read_rsp_rip : Core → ℕ × ℕ
vmx_read_rsp_rip c = (low32 (c.guest_rsp c.loaded), low32 (c.guest_rip c.loaded))

-- Whichever VMCS is loaded, vmx_read_cr3 gives the low 32 bits of the target's cr3 and leaves the core
-- with the VMCS that it had.
vmx_read_cr3-target :
    (target cr3 : ℕ) (c : Core) → vmx_read_cr3 (some target) cr3 c ≡ (low32 (c.guest_cr3 target), c)
unfolding vmx_read_cr3
vmx_read_cr3-target target cr3 c = ground arith

-- What is written by vmx_write_cr3 is what vmx_read_cr3 gives for the VMCS that was loaded.
vmx_read_cr3-write :
    (cr3 old : ℕ) (c : Core)
    → (vmx_read_cr3 (some c.loaded) old (vmx_write_cr3 cr3 c)).0 ≡ low32 cr3
unfolding vmx_read_cr3 vmx_write_cr3
vmx_read_cr3-write cr3 old c = ground arith
