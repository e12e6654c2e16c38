-- ===== src/Ept/Correct.antt =====
-- What map_epte promises to its callers.
use imee.Base.{
  All, ℕ, zero, suc, ◌+◌, ◌/◌, ◌%◌, ◌^◌, ◌<◌, ◌≡◌, refl, ◌∙◌, ◌==◌, if◌then◌else◌, ◌⊎◌, Option,
  some, arith, Bool-cases, inl, inr, ==→eq, ==→ne,
}
use imee.Masks.{frame_bits, frame_bits-entry, entry-mod, frame_bits-new_entry, new_entry-mod}
use imee.Host.{Host, DirectMap}
use imee.Ept.{
  IntroCtx, Ptr, Round, descend, break, map_round, map_from, map_epte, alloc_leaf_page,
  alloc_non_leaf_page,
}
use imee.Ept.Walk.{translate, Labels, IsTree}
use imee.Ept.Apart.{Spares}
use imee.Ept.Room.{Room}
use imee.Ept.Leaves.{leaf_entry, Keeps, IsFrom, IsListed}
use imee.Ept.Map.{Mapped}
use imee.Ept.Map.Loop.{map_from-Mapped}

-- The tables of `ctx` are a tree under its EPT pointer, and `m` more pages can be had.
pub record IsEpt (k : DirectMap) (l : Labels) (m : ℕ) (ctx : IntroCtx) (h : Host) : Type 0 where
  pub tree : IsTree k l h.mem
  pub room : Room k l m h
  pub root : l.height (k.va ctx.eptptr) ≡ 4
  pub whole : l.region (k.va ctx.eptptr) ≡ 0

-- What map_epte leaves: the EPT, its labels, and what became of the last tables.
pub record Entered (k : DirectMap) (gpa new_hpa perm : ℕ) (l : Labels) (m : ℕ) (ctx : IntroCtx)
    (h : Host) : Type 0 where
  pub ptr : Ptr
  pub ctx' : IntroCtx
  pub host : Host
  pub labels : Labels
  pub runs : map_epte k gpa new_hpa perm ctx h ≡ some (some ptr, ctx', host)
  pub ept : IsEpt k labels m ctx' host
  pub eptptr : ctx'.eptptr ≡ ctx.eptptr
  pub saved : ctx'.code_ept_pte_p ≡ ctx.code_ept_pte_p
  pub vm : ctx'.kvm ≡ ctx.kvm
  pub at_ptr : host.mem ptr.page ptr.slot ≡ translate k host.mem ctx.eptptr gpa
  pub at_leaf : labels.height ptr.page ≡ 1
  pub keeps : Keeps l labels
  pub from : IsFrom new_hpa perm l h.mem labels host.mem
  pub listed : All ctx.leaf_page (IsListed l) → All ctx'.leaf_page (IsListed labels)
  pub spares : Spares l h labels host

-- The walk does not look at the offset in the page.
pub translate-page :
    (k : DirectMap) (h : Host) (eptptr gpa gpa' : ℕ)
    → gpa' / 2 ^ 12 ≡ gpa / 2 ^ 12
    → translate k h.mem eptptr gpa' ≡ translate k h.mem eptptr gpa
unfolding translate
translate-page k h eptptr gpa gpa' e =
    let e39 : gpa' / 2 ^ 39 ≡ gpa / 2 ^ 39 = omega arith in
    let e30 : gpa' / 2 ^ 30 ≡ gpa / 2 ^ 30 = omega arith in
    let e21 : gpa' / 2 ^ 21 ≡ gpa / 2 ^ 21 = omega arith in rw (e39, e30, e21, e)

-- Every entry that map_epte writes has the frame and the permissions that it was called with.
pub leaf_entry-decodes :
    (new_hpa perm old : ℕ)
    → (frame_bits (leaf_entry new_hpa perm old) ≡ frame_bits new_hpa)
      × (leaf_entry new_hpa perm old % 8 ≡ perm % 8)
leaf_entry-decodes new_hpa perm old = ground (
  arith,
  frame_bits-entry new_hpa perm,
  entry-mod new_hpa perm,
  frame_bits-new_entry new_hpa perm,
  new_entry-mod new_hpa perm,
)

Round-cases :
    (r : Round)
    → ((t : ℕ) × (ctx : IntroCtx) × (h : Host) × (r ≡ descend t ctx h))
      ⊎ ((p : Ptr) × (ctx : IntroCtx) × (h : Host) × (r ≡ break p ctx h))
Round-cases (descend t ctx h) = inl (t, ctx, h, refl)
Round-cases (break p ctx h) = inr (p, ctx, h, refl)

abbrev ctx_of : Round → IntroCtx
ctx_of (descend t ctx h) = ctx
ctx_of (break p ctx h) = ctx

module _ (k : DirectMap) (gpa new_hpa perm : ℕ) where
  map_round-eptptr :
      (i t : ℕ) (ctx : IntroCtx) (h : Host)
      → ((ctx_of (map_round k gpa new_hpa perm i t ctx h)).eptptr ≡ ctx.eptptr)
        × ((ctx_of (map_round k gpa new_hpa perm i t ctx h)).code_ept_pte_p ≡ ctx.code_ept_pte_p)
        × ((ctx_of (map_round k gpa new_hpa perm i t ctx h)).kvm ≡ ctx.kvm)
  unfolding map_round alloc_leaf_page alloc_non_leaf_page
  map_round-eptptr i t ctx h = ground arith

  -- What the loop returns belongs to the same EPT pointer and machine, and has the same entry
  -- replaced.
  eptptr-map_from :
      (n i t : ℕ) (ctx : IntroCtx) (h : Host) (p : Option Ptr) (ctx' : IntroCtx) (h' : Host)
      → map_from k gpa new_hpa perm n i t ctx h ≡ some (p, ctx', h')
      → (ctx'.eptptr ≡ ctx.eptptr)
        × (ctx'.code_ept_pte_p ≡ ctx.code_ept_pte_p)
        × (ctx'.kvm ≡ ctx.kvm)
  unfolding map_from
  eptptr-map_from zero i t ctx h p ctx' h' e = ground arith
  eptptr-map_from (suc n) i t ctx h p ctx' h' e =
      elim (Round-cases (map_round k gpa new_hpa perm i t ctx h)) [
        | inl (t', c, g, r) ↦
            ground
              (arith, r, map_round-eptptr i t ctx h, eptptr-map_from n (i + 1) t' c g p ctx' h')
        | inr (q, c, g, r) ↦ ground (arith, r, map_round-eptptr i t ctx h)
      ]

  module _ (l : Labels) (m : ℕ) (ctx : IntroCtx) (h : Host) (ok : IsEpt k l (3 + m) ctx h)
      (small : gpa < 2 ^ 48) where
    abbrev root : ℕ
    root = k.va ctx.eptptr

    loop : Mapped k gpa new_hpa perm l m 3 0 root ctx h (map_from k gpa new_hpa perm 4 0 root ctx h)
    loop =
        map_from-Mapped k gpa new_hpa perm 3 l m (3 + m) 0 root ctx h refl refl ok.tree ok.room
          (record { height = ok.root; region = omega (arith, ok.whole) })

    same_host :
        (r : Mapped k gpa new_hpa perm l m 3 0 root ctx h
          (map_from k gpa new_hpa perm 4 0 root ctx h))
        (ptr : Option Ptr) (ctx' : IntroCtx) (h' : Host)
        → map_epte k gpa new_hpa perm ctx h ≡ some (ptr, ctx', h')
        → r.host ≡ h'
    unfolding map_epte
    same_host r ptr ctx' h' e = cc (r.runs)

    -- All that it does to the tables: to its own, and to those of others.
    pub map_epte-Entered : Entered k gpa new_hpa perm l m ctx h
    unfolding map_epte translate
    map_epte-Entered =
        let r = loop in
        let kept = r.keeps root (omega (arith, ok.root)) in
        let (same, saved, vm) = eptptr-map_from 4 0 root ctx h (some r.ptr) r.ctx r.host r.runs in
        record {
          ptr = r.ptr;
          ctx' = r.ctx;
          host = r.host;
          labels = r.labels;
          runs = r.runs;
          ept = record {
            tree = r.tree;
            room = r.room;
            root = rw same (kept.0 ∙ ok.root);
            whole = rw same (kept.1 ∙ ok.whole);
          };
          eptptr = same;
          saved = saved;
          vm = vm;
          at_ptr = r.at_ptr;
          at_leaf = r.at_leaf;
          keeps = r.keeps;
          from = r.from;
          listed = r.listed;
          spares = r.spares;
        }

    -- With an EPT in shape and three pages to be had, map_epte ends without a fault, returns a
    -- pointer to the leaf entry of `gpa`, and leaves an EPT in shape under the same EPT pointer.
    map_epte-total :
        (ptr : Ptr) × (ctx' : IntroCtx) × (h' : Host) × (l' : Labels) × (map_epte k gpa new_hpa perm
            ctx h
          ≡ some (some ptr, ctx', h'))
        × IsEpt k l' m ctx' h'
        × (ctx'.eptptr ≡ ctx.eptptr)
        × (h'.mem ptr.page ptr.slot ≡ translate k h'.mem ctx.eptptr gpa)
    map_epte-total =
        let r = map_epte-Entered in
        (r.ptr, r.ctx', r.host, r.labels, r.runs, r.ept, r.eptptr, r.at_ptr)

    -- After it every address below 2 ^ 48 is translated as before, but those of the page of `gpa`,
    -- which get the entry that the call makes of the frame, the permissions and the old entry.
    pub translate-map_epte :
        (ptr : Option Ptr) (ctx' : IntroCtx) (h' : Host) (gpa' : ℕ)
        → map_epte k gpa new_hpa perm ctx h ≡ some (ptr, ctx', h')
        → gpa' < 2 ^ 48
        → translate k h'.mem ctx.eptptr gpa' ≡ (
            if gpa' / 2 ^ 12 == gpa / 2 ^ 12
            then leaf_entry new_hpa perm (translate k h.mem ctx.eptptr gpa')
            else translate k h.mem ctx.eptptr gpa')
    unfolding translate
    translate-map_epte ptr ctx' h' gpa' e lt =
        let r = loop in
        let host = same_host r ptr ctx' h' e in
        elim (Bool-cases (gpa' / 2 ^ 12 == gpa / 2 ^ 12)) [
          | inl eq ↦
              let page : gpa' / 2 ^ 12 ≡ gpa / 2 ^ 12 = ==→eq _ _ eq in
              rw
                (
                  eq,
                  ← host,
                  translate-page k r.host ctx.eptptr gpa gpa' page,
                  translate-page k h ctx.eptptr gpa gpa' page,
                )
                r.self
          | inr ne ↦
              rw (ne, ← host)
                (r.other gpa' 3 0 root refl (==→ne _ _ ne)
                  (record { height = ok.root; region = omega (arith, ok.whole) }))
        ]
