-- ===== src/Context/Guarded.antt =====
-- An invariant of all introspection contexts of kvm/imee.c at once: their EPTs are one forest, in
-- which every entry of the last level keeps the agent in its own pages.
use imee.Base.{
  ℕ, zero, suc, ◌+◌, ◌≡◌, sym, subst, ◌∙◌, inl, inr, Option, none, some, List, [], ◌∷◌, All, arith,
  ◌==◌, ◌&&◌, Bool-cases, ==→ne,
}
use imee.Host.{Mem, Host, DirectMap, store}
use imee.Ept.{IntroCtx, Ptr, ept_index}
use imee.Ept.Walk.{child, walk, translate, Labels, IsTree, ept_index-lt}
use imee.Ept.Room.{Room}
use imee.Ept.Change.{leaf-IsTree}
use imee.Ept.Leaves.{Keeps, Leaves, IsListed, IsListed-keep}
use imee.Local.{Local}
use imee.Context.{put}
use imee.Context.Owned.{IsOwn, none-IsOwn}

-- The entry that a context has replaced is one of the last level, and so is the one it keeps for it.
abbrev pub IsSaved : Local → Labels → Option Ptr → ℕ → Type 0
IsSaved g l none old = Unit {0}
IsSaved g l (some p) old = (l.height p.page ≡ 1) × IsOwn g old

pub none-IsSaved :
    (g : Local) (l : Labels) (saved : Option Ptr) (old : ℕ) → saved ≡ none → IsSaved g l saved old
none-IsSaved g l none old e = tt
none-IsSaved g l (some p) old e = absurd (cc e)

-- What a context has to do with the forest.
pub record IsRooted (k : DirectMap) (g : Local) (l : Labels) (ctx : IntroCtx) : Type 0 where
  pub root : l.height (k.va ctx.eptptr) ≡ 4
  pub whole : l.region (k.va ctx.eptptr) ≡ 0
  pub listed : All ctx.leaf_page (IsListed l)
  pub saved : IsSaved g l ctx.code_ept_pte_p ctx.code_ept_pte

-- `n` more pages can be had.
pub record Forest (k : DirectMap) (g : Local) (l : Labels) (n : ℕ) (h : Host) : Type 0 where
  pub tree : IsTree k l h.mem
  pub room : Room k l n h
  pub leaves : Leaves (IsOwn g) l h.mem

pub record Guarded (k : DirectMap) (g : Local) (n : ℕ) (ctxs : List IntroCtx) (h : Host)
    : Type 0 where
  pub labels : Labels
  pub forest : Forest k g labels n h
  pub rooted : All ctxs (IsRooted k g labels)

module _ (k : DirectMap) (g : Local) (l : Labels) where
  -- A walk ends in a table of the last level, or at an entry that is 0.
  walk-IsOwn :
      (mem : Mem) (gpa n i t : ℕ)
      → IsTree k l mem
      → Leaves (IsOwn g) l mem
      → l.height t ≡ suc n
      → IsOwn g (walk k mem gpa n i t)
  unfolding walk
  walk-IsOwn mem gpa zero i t tree own high = own t (ept_index gpa i) high (ept_index-lt gpa i)
  walk-IsOwn mem gpa (suc n) i t tree own high = elim (Bool-cases (mem t (ept_index gpa i) == 0)) [
    | inl e ↦ rw e (none-IsOwn g)
    | inr e ↦
        let below =
          tree.lower t (ept_index gpa i) (omega (arith, high)) (ept_index-lt gpa i) (==→ne _ _ e) in
        rw e (
          walk-IsOwn mem gpa n (i + 1) (child k (mem t (ept_index gpa i))) tree own
            (omega (arith, below.0, high)))
  ]

  pub translate-IsOwn :
      (n : ℕ) (ctx : IntroCtx) (h : Host) (gpa : ℕ)
      → Forest k g l n h
      → IsRooted k g l ctx
      → IsOwn g (translate k h.mem ctx.eptptr gpa)
  unfolding translate
  translate-IsOwn n ctx h gpa f r =
      walk-IsOwn h.mem gpa 3 0 (k.va ctx.eptptr) f.tree f.leaves r.root

  -- A write of such an entry into a table of the last level keeps the forest.
  pub put-Forest :
      (n : ℕ) (p : Ptr) (v : ℕ) (h : Host)
      → l.height p.page ≡ 1
      → IsOwn g v
      → Forest k g l n h
      → Forest k g l n (put (some p) v h)
  put-Forest n p v h low own f = record {
    tree = leaf-IsTree k l h.mem f.tree p.page p.slot v low;
    room = record {
      aligned = f.room.aligned;
      below = f.room.below;
      above = f.room.above;
      fits = f.room.fits;
      left = f.room.left;
      unused = f.room.unused;
    };
    leaves = λ q j high lt. elim (Bool-cases ((q == p.page) && (j == p.slot))) [
      | inl e ↦
          let new : store h.mem p.page p.slot v q j ≡ v = ground (arith, e) in
          subst (IsOwn g) (sym new) own
      | inr e ↦
          let old : store h.mem p.page p.slot v q j ≡ h.mem q j = ground (arith, e) in
          subst (IsOwn g) (sym old) (f.leaves q j high lt)
    ];
  }

  pub put_saved-Forest :
      (n : ℕ) (saved : Option Ptr) (v : ℕ) (h : Host)
      → IsSaved g l saved v
      → Forest k g l n h
      → Forest k g l n (put saved v h)
  put_saved-Forest n none v h tt f = f
  put_saved-Forest n (some p) v h (low, own) f = put-Forest n p v h low own f

module _ (k : DirectMap) (g : Local) (l l' : Labels) (keeps : Keeps l l') where
  IsSaved-keep : (saved : Option Ptr) (v : ℕ) → IsSaved g l saved v → IsSaved g l' saved v
  IsSaved-keep none v tt = tt
  IsSaved-keep (some p) v (low, own) = ((keeps p.page (omega (arith, low))).0 ∙ low, own)

  pub IsRooted-keep : (ctx : IntroCtx) → IsRooted k g l ctx → IsRooted k g l' ctx
  IsRooted-keep ctx r =
      let kept = keeps (k.va ctx.eptptr) (omega (arith, r.root)) in
      record {
        root = kept.0 ∙ r.root;
        whole = kept.1 ∙ r.whole;
        listed = IsListed-keep l l' ctx.leaf_page keeps r.listed;
        saved = IsSaved-keep ctx.code_ept_pte_p ctx.code_ept_pte r.saved;
      }

  pub all-IsRooted : (ctxs : List IntroCtx) → All ctxs (IsRooted k g l) → All ctxs (IsRooted k g l')
  all-IsRooted [] rooted = tt
  all-IsRooted (ctx ∷ rest) (one, others) = (IsRooted-keep ctx one, all-IsRooted rest others)
