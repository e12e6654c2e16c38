-- ===== src/Ept/Leaves.antt =====
-- The tables of the last level, and what a change of the tables leaves of their entries: of
-- map_epte, get_epte and the lists of leaf pages in kvm/imee.c.
use imee.Base.{
  ℕ, ◌<◌, ◌≡◌, ◌≢◌, ◌∙◌, ◌⊎◌, ◌==◌, if◌then◌else◌, List, [], ◌∷◌, All, arith, bit_or, inl, inr, sym,
  subst,
}
use imee.Masks.{frame_bits, low_bits}
use imee.Host.{Mem}
use imee.Ept.{MmuPage}
use imee.Ept.Walk.{Labels}

-- The entry that map_epte writes over the entry `old`: a new one gets the memory type as well.
abbrev pub leaf_entry : ℕ → ℕ → ℕ → ℕ
leaf_entry new_hpa perm old =
    if old == 0
    then bit_or (bit_or (frame_bits new_hpa) (low_bits perm)) 0x270
    else bit_or (frame_bits new_hpa) (low_bits perm)

-- Every table of `l` is one of `l'`, with the same height and region.
abbrev pub Keeps : Labels → Labels → Type 0
Keeps l l' = (q : ℕ) → l.height q ≢ 0 → (l'.height q ≡ l.height q) × (l'.region q ≡ l.region q)

-- The entries of the tables of the last level.
abbrev pub Leaves : (ℕ → Type 0) → Labels → Mem → Type 0
Leaves P l mem = (q j : ℕ) → l.height q ≡ 1 → j < 512 → P (mem q j)

-- No table of the last level is new, and their entries are as they were.
abbrev pub LeavesSame : Labels → Mem → Labels → Mem → Type 0
LeavesSame l mem l' mem' = (q j : ℕ) → l'.height q ≡ 1 → (l.height q ≡ 1) × (mem' q j ≡ mem q j)

-- The pages on a list are tables of the last level.
abbrev pub IsListed : Labels → MmuPage → Type 0
IsListed l page = l.height page.spt ≡ 1

-- Every entry of a last table is as it was, or 0 in a new table, or was made of `new_hpa`.
abbrev pub IsFrom : ℕ → ℕ → Labels → Mem → Labels → Mem → Type 0
IsFrom new_hpa perm l mem l' mem' =
    (q j : ℕ)
    → l'.height q ≡ 1
    → j < 512
    → ((l.height q ≡ 1) × (mem' q j ≡ mem q j))
      ⊎ ((mem' q j ≡ 0) ⊎ ((old : ℕ) × (mem' q j ≡ leaf_entry new_hpa perm old)))

pub Keeps-then : (l l1 l2 : Labels) → Keeps l l1 → Keeps l1 l2 → Keeps l l2
Keeps-then l l1 l2 first second q used =
    let one = first q used in
    let two = second q (omega (arith, one.0)) in (two.0 ∙ one.0, two.1 ∙ one.1)

pub IsListed-keep :
    (l l' : Labels) (pages : List MmuPage)
    → Keeps l l'
    → All pages (IsListed l)
    → All pages (IsListed l')
IsListed-keep l l' [] keeps listed = tt
IsListed-keep l l' (page ∷ rest) keeps (one, others) =
    ((keeps page.spt (omega (arith, one))).0 ∙ one, IsListed-keep l l' rest keeps others)

pub from-Leaves :
    (P : ℕ → Type 0) (new_hpa perm : ℕ) (l : Labels) (mem : Mem) (l' : Labels) (mem' : Mem)
    → P 0
    → ((old : ℕ) → P (leaf_entry new_hpa perm old))
    → IsFrom new_hpa perm l mem l' mem'
    → Leaves P l mem
    → Leaves P l' mem'
from-Leaves P new_hpa perm l mem l' mem' none_ made from was q j low lt = elim (from q j low lt) [
  | inl (low', e) ↦ subst P (sym e) (was q j low' lt)
  | inr (inl e) ↦ subst P (sym e) none_
  | inr (inr (old, e)) ↦ subst P (sym e) (made old)
]

pub same-Leaves :
    (P : ℕ → Type 0) (l : Labels) (mem : Mem) (l' : Labels) (mem' : Mem)
    → LeavesSame l mem l' mem'
    → Leaves P l mem
    → Leaves P l' mem'
same-Leaves P l mem l' mem' same was q j low lt =
    let (low', e) = same q j low in subst P (sym e) (was q j low' lt)
