-- ===== src/Context/Create.antt =====
-- A context is made for the machine it is asked for, and without the mark of a visit.
use imee.Base.{
  ltb, ◌-◌, ℕ, zero, suc, ◌+◌, ◌≡◌, refl, subst, ◌∙◌, Bool, true, false, Option, none, some, List,
  [], ◌∷◌, ◌==◌, if◌then◌else◌,
}
use imee.Host.{Host, DirectMap}
use imee.Ept.{
  MmuPage, NonLeafPage, IntroCtx, Ptr, Round, descend, break, ept_index, link, set_leaf, map_round,
  map_from, map_epte, page_level,
}
use imee.Shadow.{copy_leaf_ept, make_imee_ept}
use imee.Local.{local_maps, pd_gpa, Local, map_all, map_local_page_tables}
use imee.Context.{GuestVm, blank_ctx, fill_ctx}

if_both : {A : Type 0} (P : A → Type 0) (b : Bool) {x y : A} → P x → P y → P (if b then x else y)
if_both P true px py = px
if_both P false px py = py

-- The machine of a context and its mark.
abbrev pub key : IntroCtx → ℕ × ℕ
key c = (c.kvm, c.visited)

module _ (k : DirectMap) (g : Local) where
  -- map_epte leaves the machine of its context, and its mark, alone.
  abbrev KeepsVm : ℕ × ℕ → Option (Option Ptr × IntroCtx × Host) → Type 0
  KeepsVm x none = Unit
  KeepsVm x (some (_, c, _)) = key c ≡ x

  abbrev pub MapsKeep : ℕ × ℕ → Option (IntroCtx × Host) → Type 0
  MapsKeep x none = Unit
  MapsKeep x (some (c, _)) = key c ≡ x

  abbrev RoundKeeps : ℕ × ℕ → Round → Type 0
  RoundKeeps x (descend _ c _) = key c ≡ x
  RoundKeeps x (break _ c _) = key c ≡ x

  map_round-vm :
      (gpa hpa perm i table : ℕ) (ctx : IntroCtx) (h : Host)
      → RoundKeeps (key ctx) (map_round k gpa hpa perm i table ctx h)
  unfolding map_round link set_leaf
  map_round-vm gpa hpa perm i table ctx h =
      if_both P (entry == 0)
        (if_both P (ltb i (page_level - 2)) refl (if_both P (ltb i (page_level - 1)) refl refl))
        (if_both P (ltb i (page_level - 1)) refl refl)
    where
      entry : ℕ
      entry = h.mem table (ept_index gpa i)

      P : Round → Type 0
      P r = RoundKeeps (key ctx) r

  map_from-vm :
      (gpa hpa perm n i table : ℕ) (ctx : IntroCtx) (h : Host)
      → KeepsVm (key ctx) (map_from k gpa hpa perm n i table ctx h)
  unfolding map_from
  map_from-vm gpa hpa perm zero i table ctx h = refl
  map_from-vm gpa hpa perm (suc n) i table ctx h =
      go (table == 0) (map_round k gpa hpa perm i table ctx h)
        (map_round-vm gpa hpa perm i table ctx h) (map_from-vm gpa hpa perm n)
    where
      go :
          (b : Bool) (r : Round)
          → RoundKeeps (key ctx) r
          → ((j t : ℕ) (c : IntroCtx) (h' : Host)
              → KeepsVm (key c) (map_from k gpa hpa perm n j t c h'))
          → KeepsVm (key ctx) (
              if b then none else elim r [
                | descend t c h' ↦ map_from k gpa hpa perm n (i + 1) t c h'
                | break p c h' ↦ some (some p, c, h')
              ])
      go true r keeps rest = tt
      go false (descend t c h') keeps rest =
          subst (λ x. KeepsVm x (map_from k gpa hpa perm n (i + 1) t c h')) keeps
            (rest (i + 1) t c h')
      go false (break p c h') keeps rest = keeps

  map_all-vm :
      (maps : List (ℕ × ℕ × ℕ)) (ctx : IntroCtx) (h : Host)
      → MapsKeep (key ctx) (map_all k maps ctx h)
  unfolding map_all map_epte
  map_all-vm [] ctx h = refl
  map_all-vm ((gpa, hpa, perm) ∷ rest) ctx h =
      go (map_epte k gpa hpa perm ctx h) (map_from-vm gpa hpa perm 4 0 (k.va ctx.eptptr) ctx h)
        (map_all-vm rest)
    where
      go :
          (r : Option (Option Ptr × IntroCtx × Host))
          → KeepsVm (key ctx) r
          → ((c : IntroCtx) (h' : Host) → MapsKeep (key c) (map_all k rest c h'))
          → MapsKeep (key ctx) (elim r [ none ↦ none | some (_, c, h') ↦ map_all k rest c h' ])
      go none keeps later = tt
      go (some (_, c, h')) keeps later =
          subst (λ x. MapsKeep x (map_all k rest c h')) keeps (later c h')

  pub fill_ctx-vm : (target : GuestVm) (h : Host) → MapsKeep (target.vm, 0) (fill_ctx k g target h)
  unfolding fill_ctx map_local_page_tables
  fill_ctx-vm target h = go (copy_leaf_ept target.active_mmu_pages [] h)
    where
      last :
          (c : IntroCtx) (h2 : Host)
          → key c ≡ (target.vm, 0)
          → (r : Option (IntroCtx × Host)) → MapsKeep (key c) r
          → MapsKeep
              (target.vm, 0)
              (elim r [ none ↦ none | some (ctx, h3) ↦ some (record ctx { cr3 = pd_gpa }, h3) ])
      last c h2 same none keeps = tt
      last c h2 same (some (ctx, h3)) keeps = keeps ∙ same

      inner :
          (leaves : List MmuPage) (r : Option (ℕ × List NonLeafPage × Host))
          → MapsKeep
              (target.vm, 0)
              (elim r [
                | none ↦ none
                | some (eptptr, tables, h2) ↦
                    elim (map_all k
                      (local_maps g)
                      (record (blank_ctx target) {
                        leaf_page = leaves;
                        non_leaf_page = tables;
                        eptptr = eptptr;
                      })
                      h2) [ none ↦ none | some (ctx, h3) ↦ some (record ctx { cr3 = pd_gpa }, h3) ]
              ])
      inner leaves none = tt
      inner leaves (some (eptptr, tables, h2)) =
          last
            (record (blank_ctx target) {
              leaf_page = leaves;
              non_leaf_page = tables;
              eptptr = eptptr;
            })
            h2 refl
            (map_all k (local_maps g)
              (record (blank_ctx target) {
                leaf_page = leaves;
                non_leaf_page = tables;
                eptptr = eptptr;
              })
              h2)
            (map_all-vm (local_maps g)
              (record (blank_ctx target) {
                leaf_page = leaves;
                non_leaf_page = tables;
                eptptr = eptptr;
              })
              h2)

      go :
          (r : Option (List MmuPage × Host))
          → MapsKeep
              (target.vm, 0)
              (elim r [
                | none ↦ none
                | some (leaves, h1) ↦ elim (make_imee_ept k leaves [] h1) [
                  | none ↦ none
                  | some (eptptr, tables, h2) ↦
                      elim (map_all k
                        (local_maps g)
                        (record (blank_ctx target) {
                          leaf_page = leaves;
                          non_leaf_page = tables;
                          eptptr = eptptr;
                        })
                        h2) [
                          | none ↦ none
                          | some (ctx, h3) ↦ some (record ctx { cr3 = pd_gpa }, h3)
                        ]
                ]
              ])
      go none = tt
      go (some (leaves, h1)) = inner leaves (make_imee_ept k leaves [] h1)
