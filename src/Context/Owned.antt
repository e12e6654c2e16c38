-- ===== src/Context/Owned.antt =====
-- Which entries of an EPT of kvm/imee.c keep the agent in its own pages, and that the entries of
-- copy_leaf_ept, map_local_page_tables and remap_gpa_code are such.
use imee.Base.{
  ℕ, ◌+◌, ◌*◌, ◌/◌, ◌%◌, ◌^◌, ◌≡◌, refl, ◌⊎◌, inl, inr, All, arith, bit_or, bit_or_split,
  bit_or_step, bit_or-zero, zero-bit_or,
}
use imee.Masks.{flag_bits, frame_bits, frame_bits_lem, flag_bits_lem, bit_or-lt}
use imee.Shadow.{read_only}
use imee.Shadow.Copy.{read_only-IsReadOnly}
use imee.Local.{Local, local_maps}
use imee.Ept.Leaves.{leaf_entry}
use imee.Ept.Correct.{leaf_entry-decodes}
use imee.Context.{code_entry_of}

-- An entry that lets the agent execute leads to its code page, and one that lets it write leads to
-- its code page, its data page or one of its page tables.
abbrev pub IsOwn : Local → ℕ → Type 0
IsOwn g e =
    let f = frame_bits e in
    ((e / 4 % 2 ≡ 0) ⊎ (f ≡ frame_bits g.code_hpa))
    × ((e / 2 % 2 ≡ 0)
        ⊎ (((f ≡ frame_bits g.code_hpa) ⊎ (f ≡ frame_bits g.data_hpa))
            ⊎ ((f ≡ frame_bits g.fake_cr3_pd_hpa)
                ⊎ ((f ≡ frame_bits g.fake_cr3_pt_hpa_exec)
                    ⊎ (f ≡ frame_bits g.fake_cr3_pt_hpa_data)))))

-- The flags of the old entry do not touch the frame of the new one.
pub code_entry_of-frame :
    (old code_phys : ℕ) → frame_bits (code_entry_of old code_phys) ≡ frame_bits code_phys
code_entry_of-frame old code_phys =
    let b = old / 2 ^ 63 % 2 in
    let c1 = code_phys / 4096 / 2 ^ 51 in
    let c0 = code_phys / 4096 % 2 ^ 51 in
    ground (
      arith,
      flag_bits_lem old,
      frame_bits_lem code_phys,
      frame_bits_lem (code_entry_of old code_phys),
      bit_or_split 12 (b * 2 ^ 51) (old % 4096) (code_phys / 4096) (code_phys % 4096),
      bit_or_split 51 b 0 c1 c0,
      zero-bit_or c0,
      bit_or_split 12 (bit_or b c1 * 2 ^ 51 + c0) (bit_or (old % 4096) (code_phys % 4096)) 0 4,
      bit_or-zero (bit_or b c1 * 2 ^ 51 + c0),
      bit_or-lt 12 (old % 4096) (code_phys % 4096),
      bit_or-lt 12 (bit_or (old % 4096) (code_phys % 4096)) 4,
    )

-- The new entry lets the agent execute.
pub code_entry_of-executes : (old code_phys : ℕ) → code_entry_of old code_phys / 4 % 2 ≡ 1
code_entry_of-executes old code_phys =
    let x = bit_or (flag_bits old) code_phys in
    ground (arith, bit_or_split 2 (x / 4) (x % 4) 1 0, bit_or-zero (x % 4), bit_or_step (x / 4) 1)

module _ (g : Local) where
  pub none-IsOwn : IsOwn g 0
  none-IsOwn = (inl refl, inl refl)

  pub read_only-IsOwn : (e : ℕ) → IsOwn g (read_only e)
  read_only-IsOwn e = let ro = read_only-IsReadOnly e in (inl (ro.1), inl (ro.0))

  -- What leads to the code page is the agent's own, whatever its permissions.
  pub code-IsOwn : (e : ℕ) → frame_bits e ≡ frame_bits g.code_hpa → IsOwn g e
  code-IsOwn e f = (inr f, inr (inl (inl f)))

  pub leaf_code-IsOwn : (perm old : ℕ) → IsOwn g (leaf_entry g.code_hpa perm old)
  leaf_code-IsOwn perm old = code-IsOwn _ (leaf_entry-decodes g.code_hpa perm old).0

  pub code_entry_of-IsOwn : (old : ℕ) → IsOwn g (code_entry_of old g.code_hpa)
  code_entry_of-IsOwn old = code-IsOwn _ (code_entry_of-frame old g.code_hpa)

  -- A page that the agent may write and not execute.
  Writable : ℕ → Type 0
  Writable hpa =
      (f : ℕ)
      → f ≡ frame_bits hpa
      → ((f ≡ frame_bits g.code_hpa) ⊎ (f ≡ frame_bits g.data_hpa))
        ⊎ ((f ≡ frame_bits g.fake_cr3_pd_hpa)
            ⊎ ((f ≡ frame_bits g.fake_cr3_pt_hpa_exec) ⊎ (f ≡ frame_bits g.fake_cr3_pt_hpa_data)))

  Writable-IsOwn : (hpa old : ℕ) → Writable hpa → IsOwn g (leaf_entry hpa 0x3 old)
  unfolding Writable
  Writable-IsOwn hpa old w =
      let (f, e) = leaf_entry-decodes hpa 0x3 old in (inl (omega (arith, e)), inr (w _ f))

  -- The five pages that map_local_page_tables maps.
  pub local_maps-IsOwn : All (local_maps g) (λ a. (old : ℕ) → IsOwn g (leaf_entry a.1 a.2 old))
  unfolding Writable
  local_maps-IsOwn =
      let pd = λ (old : ℕ). Writable-IsOwn g.fake_cr3_pd_hpa old (λ f e. inr (inl e)) in
      let exec =
        λ (old : ℕ). Writable-IsOwn g.fake_cr3_pt_hpa_exec old (λ f e. inr (inr (inl e))) in
      let pt = λ (old : ℕ). Writable-IsOwn g.fake_cr3_pt_hpa_data old (λ f e. inr (inr (inr e))) in
      let data_page = λ (old : ℕ). Writable-IsOwn g.data_hpa old (λ f e. inl (inr e)) in
      (pd, (exec, (pt, (data_page, (leaf_code-IsOwn 0x4, tt)))))
