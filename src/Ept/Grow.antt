-- ===== src/Ept/Grow.antt =====
-- A round of map_epte, or of make_imee_ept, that allocates a table and links it in.
use imee.Base.{ℕ, suc, ◌+◌, ◌*◌, ◌<◌, ◌≡◌, ◌∙◌, ◌≢◌, arith, bit_or}
use imee.Host.{Host, DirectMap, store}
use imee.Frames.{get_ept_page}
use imee.Ept.Walk.{child, walk, Labels, IsTree}
use imee.Ept.Change.{extend, link-IsTree, link-walk, outside-IsTree, outside-walk}
use imee.Ept.Fresh.{next_page-unused, table_same, page_empty}
use imee.Ept.Room.{
  Room, next_page, next_page-child, next_page-entry, next_page-nonnull, get_ept_page-next,
  Room-get_ept_page,
}

-- `table[j] = __pa (tbl) | 0x7` for the page `tbl` that get_ept_page returns.
abbrev pub grow : DirectMap → Host → ℕ → ℕ → Host
grow k h t j =
    let (tbl, h') = get_ept_page h in record h' { mem = store h'.mem t j (bit_or (k.pa tbl) 0x7) }

abbrev pub grown : Labels → ℕ → ℕ → ℕ → Host → Labels
grown l n t j h = extend l (next_page h) (suc n) (l.region t * 512 + j)

module _ (k : DirectMap) (l : Labels) (m n t j : ℕ) (h : Host) (tree : IsTree k l h.mem)
    (room : Room k l (suc m) h) (tall : l.height t ≡ suc (suc n)) (lt : j < 512)
    (vacant : h.mem t j ≡ 0) where
  entry-child : child k (bit_or (k.pa (get_ept_page h).0) 0x7) ≡ next_page h
  entry-child = ground (arith, get_ept_page-next k l m h room, next_page-child k l m h room)

  tree0 : IsTree k l (get_ept_page h).1.mem
  tree0 = outside-IsTree k l h.mem (get_ept_page h).1.mem (table_same k l m h room) tree

  vacant0 : (get_ept_page h).1.mem t j ≡ 0
  vacant0 = table_same k l m h room t j (omega arith) ∙ vacant

  pub grow-IsTree : IsTree k (grown l n t j h) (grow k h t j).mem
  grow-IsTree =
      link-IsTree k l (get_ept_page h).1.mem tree0 t j _ n (next_page h) tall
        (next_page-unused k l m h room) (next_page-nonnull k l m h room) (page_empty k l m h room)
        entry-child vacant0

  pub grow-walk :
      (gpa d i t' : ℕ)
      → l.height t' ≡ suc d
      → walk k (grow k h t j).mem gpa d i t' ≡ walk k h.mem gpa d i t'
  grow-walk gpa d i t' e =
      link-walk k l (get_ept_page h).1.mem tree0 t j _ n (next_page h) tall
        (next_page-unused k l m h room) (next_page-nonnull k l m h room) (page_empty k l m h room)
        entry-child vacant0 gpa d i t' e
      ∙ outside-walk k l h.mem (get_ept_page h).1.mem (table_same k l m h room) tree gpa d i t' e

  pub grow-Room : Room k (grown l n t j h) m (grow k h t j)
  grow-Room =
      let r = Room-get_ept_page k l m h room (suc n) (l.region t * 512 + j) in
      record {
        aligned = r.aligned;
        below = r.below;
        above = r.above;
        fits = r.fits;
        left = r.left;
        unused = r.unused;
      }

  -- Its parent points to the new table, and the other tables are as they were.
  pub grow-child : child k ((grow k h t j).mem t j) ≡ next_page h
  grow-child = ground (arith, entry-child)

  pub grow-entry : (grow k h t j).mem t j ≢ 0
  grow-entry = ground (arith, get_ept_page-next k l m h room, next_page-entry k l m h room)

  pub grow-same : (q i : ℕ) → l.height q ≢ 0 → q ≢ t → (grow k h t j).mem q i ≡ h.mem q i
  grow-same q i ne other = ground (arith, table_same k l m h room q i)

  pub grown-next_page :
      ((grown l n t j h).height (next_page h) ≡ suc n)
      × ((grown l n t j h).region (next_page h) ≡ l.region t * 512 + j)
  grown-next_page = ground arith

  pub grown-keeps :
      (q : ℕ)
      → l.height q ≢ 0
      → ((grown l n t j h).height q ≡ l.height q) × ((grown l n t j h).region q ≡ l.region q)
  grown-keeps q ne = ground (arith, next_page-unused k l m h room)

  -- The new table is empty.
  pub grow-empty : (i : ℕ) → i < 512 → (grow k h t j).mem (next_page h) i ≡ 0
  grow-empty i hi = ground (arith, page_empty k l m h room i hi, next_page-unused k l m h room)
