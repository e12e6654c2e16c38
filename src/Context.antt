-- ===== src/Context.antt =====
-- The list of introspection contexts of kvm/imee.c: kvm_to_ctx, get_next_ctx,
-- create_introspection_context, and the two functions that replace the code page in a context's
-- EPT, remap_gpa_code and the part of remap_gpa that it is.
pub mod Visit
pub mod Create
pub mod Distinct
pub mod Remap
pub mod Whole
pub mod Isolated
pub mod Owned
pub mod Guarded
pub mod Confined
pub mod Grown
mod Tests
use imee.Base.{
  ℕ, zero, suc, ◌+◌, ◌*◌, ◌/◌, ◌%◌, ◌^◌, Option, none, some, List, [], ◌∷◌, ltb, ◌==◌,
  if◌then◌else◌, bit_or,
}
use imee.Masks.{flag_bits}
use imee.Host.{Host, DirectMap, store}
use imee.Ept.{Ptr, IntroCtx, get_epte, map_epte}
use imee.Shadow.{ShadowPage, copy_leaf_ept, make_imee_ept}
use imee.Local.{Local, pd_gpa, map_local_page_tables}

-- What is read of a struct kvm on vm_list: its address, the task that owns its address space, the
-- address of vcpus[0], and its active_mmu_pages.
pub record GuestVm : Type 0 where
  pub vm : ℕ
  pub owner : ℕ
  pub vcpus0 : ℕ
  pub active_mmu_pages : List ShadowPage

abbrev pub pick_cpu : GuestVm → ℕ
pick_cpu target = target.vcpus0

unfoldable pub kvm_to_ctx : ℕ → List IntroCtx → Option IntroCtx
kvm_to_ctx target [] = none
kvm_to_ctx target (cur ∷ rest) = if cur.kvm == target then some cur else kvm_to_ctx target rest

-- The context picked and the list with its mark, or `none` where -1 is returned.
unfoldable pub get_next_ctx : List IntroCtx → Option (IntroCtx × List IntroCtx)
get_next_ctx [] = none
get_next_ctx (cur ∷ rest) =
    let marked = record cur { visited = cur.visited + 1 } in
    let later = get_next_ctx rest in
    if cur.visited == 0
    then some (marked, marked ∷ rest)
    else elim later [ none ↦ none | some (next, rest') ↦ some (next, cur ∷ rest') ]

-- A context of `target` with nothing in its EPT; kvm/imee.c leaves eptptr and cr3 unset here.
abbrev pub blank_ctx : GuestVm → IntroCtx
blank_ctx target = record {
  kvm = target.vm;
  target_vcpu = pick_cpu target;
  task = target.owner;
  eptptr = 0;
  cr3 = 0;
  visited = 0;
  leaf_page = [];
  non_leaf_page = [];
  code_ept_pte_p = none;
  code_ept_pte = 0;
  data_ept_pte_p = none;
  data_ept_pte = 0;
}

module _ (k : DirectMap) (g : Local) where
  -- The EPT of a new context; `none` is a fault.
  unfoldable pub fill_ctx : GuestVm → Host → Option (IntroCtx × Host)
  fill_ctx target h = elim (copy_leaf_ept target.active_mmu_pages [] h) [
    | none ↦ none
    | some (leaves, h1) ↦ elim (make_imee_ept k leaves [] h1) [
      | none ↦ none
      | some (eptptr, tables, h2) ↦
          elim (map_local_page_tables k g
            (record (blank_ctx target) {
              leaf_page = leaves;
              non_leaf_page = tables;
              eptptr = eptptr;
            })
            h2) [ none ↦ none | some (ctx, h3) ↦ some (record ctx { cr3 = pd_gpa }, h3) ]
    ]
  ]

  -- `current` is the task that makes the call.
  unfoldable pub create_introspection_context :
      ℕ → GuestVm → List IntroCtx → Host → Option (List IntroCtx × Host)
  unfolding kvm_to_ctx fill_ctx
  create_introspection_context current target ctxs h =
      if target.owner == current then some (ctxs, h) else elim (kvm_to_ctx target.vm ctxs) [
        | some _ ↦ some (ctxs, h)
        | none ↦ elim (fill_ctx target h) [ none ↦ none | some (ctx, h') ↦ some (ctx ∷ ctxs, h') ]
      ]

  -- The loop over vm_list in kvm_imee_get_guest_context.
  unfoldable pub create_contexts :
      ℕ → List GuestVm → List IntroCtx → Host → Option (List IntroCtx × Host)
  unfolding create_introspection_context
  create_contexts current [] ctxs h = some (ctxs, h)
  create_contexts current (cur ∷ rest) ctxs h =
      elim (create_introspection_context current cur ctxs h) [
        | none ↦ none
        | some (ctxs', h') ↦ create_contexts current rest ctxs' h'
      ]

-- `*p = v`, where `p` is not NULL
abbrev pub put : Option Ptr → ℕ → Host → Host
put none v h = h
put (some p) v h = record h { mem = store h.mem p.page p.slot v }

-- The new entry of a code page: (*epte & EPT_MASK) | code_phys | 0x4
abbrev pub code_entry_of : ℕ → ℕ → ℕ
code_entry_of old code_phys = bit_or (bit_or (flag_bits old) code_phys) 0x4

-- `none` is a fault in map_epte.
unfoldable pub remap_gpa_code : DirectMap → ℕ → ℕ → IntroCtx → Host → Option (IntroCtx × Host)
remap_gpa_code k code_hpa gpa ctx h =
    let h1 = put ctx.code_ept_pte_p ctx.code_ept_pte h in
    elim (get_epte ctx gpa) [
      | some p ↦ some (
        record ctx { code_ept_pte_p = some p; code_ept_pte = h1.mem p.page p.slot },
        put (some p) (code_entry_of (h1.mem p.page p.slot) code_hpa) h1,
      )
      | none ↦ elim (map_epte k gpa code_hpa 0x4 ctx h1) [
        | none ↦ none
        | some (p, ctx', h2) ↦ some (record ctx' { code_ept_pte_p = p; code_ept_pte = 0 }, h2)
      ]
    ]
