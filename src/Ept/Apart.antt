-- ===== src/Ept/Apart.antt =====
-- Two sets of tables that share no page: what is done to one leaves the other as it was.
use imee.Base.{ℕ, suc, ◌+◌, ◌*◌, ◌<◌, ◌≡◌, refl, ◌∙◌, ◌≢◌, arith}
use imee.Host.{Mem, Host, DirectMap}
use imee.Frames.{block_pages, page_size, get_ept_page}
use imee.Ept.Walk.{walk, Labels, IsTree}
use imee.Ept.Change.{extend, outside-IsTree, outside-walk}
use imee.Ept.Room.{Room, next_page, get_ept_page-next}
use imee.Ept.Fresh.{next_page-unused}
use imee.Ept.Grow.{grow, grown}

-- The other tables `o` are no tables of `l` and none of the pages left.
pub record IsApart (o l : Labels) (h : Host) : Type 0 where
  pub unused : (j : ℕ) → h.p_idx < j → j < block_pages → o.height (h.p_base + j * page_size) ≡ 0
  pub disjoint : (q : ℕ) → o.height q ≢ 0 → l.height q ≡ 0

-- What takes `l` and `h` to `l'` and `h'` leaves all other tables as they were, and apart.
abbrev pub Spares : Labels → Host → Labels → Host → Type 0
Spares l h l' h' =
    (o : Labels)
    → IsApart o l h
    → IsApart o l' h' × ((q i : ℕ) → o.height q ≢ 0 → h'.mem q i ≡ h.mem q i)

pub Spares-refl : (l : Labels) (h : Host) → Spares l h l h
Spares-refl l h o apart = (apart, λ q i used. refl)

pub Spares-then :
    (l : Labels) (h : Host) (l1 : Labels) (h1 : Host) (l2 : Labels) (h2 : Host)
    → Spares l h l1 h1
    → Spares l1 h1 l2 h2
    → Spares l h l2 h2
Spares-then l h l1 h1 l2 h2 first second o apart =
    let (apart1, same1) = first o apart in
    let (apart2, same2) = second o apart1 in (apart2, λ q i used. same2 q i used ∙ same1 q i used)

-- A write into a table.
pub write-Spares :
    (l : Labels) (h : Host) (t : ℕ) (mem' : Mem)
    → l.height t ≢ 0
    → ((q i : ℕ) → q ≢ t → mem' q i ≡ h.mem q i)
    → Spares l h l (record h { mem = mem' })
write-Spares l h t mem' used same o apart = (
  record { unused = apart.unused; disjoint = apart.disjoint },
  λ q i other. same q i (λ e. ground (arith, apart.disjoint q other)),
)

module _ (k : DirectMap) (l : Labels) (m : ℕ) (h : Host) (room : Room k l (suc m) h) where
  -- A page becomes a table.
  pub get_ept_page-Spares :
      (height region : ℕ) → Spares l h (extend l (next_page h) height region) (get_ept_page h).1
  unfolding get_ept_page
  get_ept_page-Spares height region o apart =
      let next : o.height (next_page h) ≡ 0 =
        apart.unused (h.p_idx + 1) (omega arith) (omega (arith, room.left)) in
      (
        record {
          unused = λ j lo hi. ground (arith, apart.unused j, room.left);
          disjoint = λ q used. ground (arith, apart.disjoint q, next);
        },
        λ q i used. ground (arith, next, get_ept_page-next k l m h room),
      )

  -- A page becomes a table below another.
  pub grow-Spares : (n t j : ℕ) → l.height t ≢ 0 → Spares l h (grown l n t j h) (grow k h t j)
  grow-Spares n t j used =
      let l1 = grown l n t j h in
      let h1 = (get_ept_page h).1 in
      Spares-then l h l1 h1 l1 (grow k h t j) (get_ept_page-Spares (suc n) (l.region t * 512 + j)) (
        write-Spares l1 h1 t (grow k h t j).mem (ground (arith, next_page-unused k l m h room))
          (λ q i other. ground arith))

-- The walks of the other tables do not change.
pub spared-walk :
    (k : DirectMap) (l : Labels) (h : Host) (l' : Labels) (h' : Host) (o : Labels)
    → Spares l h l' h'
    → IsApart o l h
    → IsTree k o h.mem
    → IsTree k o h'.mem
      × ((gpa m i t : ℕ) → o.height t ≡ suc m → walk k h'.mem gpa m i t ≡ walk k h.mem gpa m i t)
spared-walk k l h l' h' o spares apart tree =
    let same = (spares o apart).1 in
    (outside-IsTree k o h.mem h'.mem same tree, outside-walk k o h.mem h'.mem same tree)
