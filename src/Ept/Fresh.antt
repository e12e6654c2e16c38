-- ===== src/Ept/Fresh.antt =====
-- The page that get_ept_page returns, as a new table.
use imee.Base.{ℕ, suc, ◌+◌, ◌<◌, ◌≡◌, ◌≢◌, ◌==◌, arith, Bool-cases, inl, inr, ==→eq, ==→ne}
use imee.Host.{Mem, Host, DirectMap}
use imee.Frames.{get_ept_page}
use imee.Frames.Page.{get_ept_page-mem, HasBlock}
use imee.Ept.Walk.{Labels, IsTree}
use imee.Ept.Change.{extend}
use imee.Ept.Room.{Room, next_page, get_ept_page-next}

-- A page that was no table becomes one: empty, unless it is a table of the last level.
pub fresh-IsTree :
    (k : DirectMap) (l : Labels) (mem mem' : Mem) (f height region : ℕ)
    → l.height f ≡ 0
    → f ≢ 0
    → ((q i : ℕ) → l.height q ≢ 0 → mem' q i ≡ mem q i)
    → (1 < height → (i : ℕ) → i < 512 → mem' f i ≡ 0)
    → IsTree k l mem
    → IsTree k (extend l f height region) mem'
fresh-IsTree k l mem mem' f height region unused nonnull same empty tree = record {
  nonnull = λ p h. ground (arith, tree.nonnull p);
  lower = λ p i h hi ne. elim (Bool-cases (p == f)) [
    | inl e ↦
        let at_f : p ≡ f = ==→eq p f e in
        let wide : 1 < height = ground arith in absurd (ground (arith, empty wide i hi))
    | inr e ↦ let other : p ≢ f = ==→ne p f e in ground (arith, tree.lower p i, same p i)
  ];
}

module _ (k : DirectMap) (l : Labels) (m : ℕ) (h : Host) (room : Room k l (suc m) h) where
  pub next_page-unused : l.height (next_page h) ≡ 0
  next_page-unused = room.unused (h.p_idx + 1) (omega arith) (omega arith)

  has_block : HasBlock h
  has_block = record { base = omega arith; fits = omega arith }

  pub table_same : (q i : ℕ) → l.height q ≢ 0 → (get_ept_page h).1.mem q i ≡ h.mem q i
  table_same q i ne = ground (
    arith,
    (get_ept_page-mem h q i has_block (omega arith)).2,
    get_ept_page-next k l m h room,
    next_page-unused,
  )

  pub page_empty : (i : ℕ) → i < 512 → (get_ept_page h).1.mem (next_page h) i ≡ 0
  page_empty i hi = ground (
    arith,
    (get_ept_page-mem h (get_ept_page h).0 i has_block (omega arith)).2,
    get_ept_page-next k l m h room,
  )
