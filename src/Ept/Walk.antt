-- ===== src/Ept/Walk.antt =====
-- What the processor does with an EPT: the walk through four levels, and the shape that makes
-- the walk well defined.
use imee.Base.{ℕ, zero, suc, ◌+◌, ◌*◌, ◌/◌, ◌^◌, ◌<◌, ◌≡◌, ◌≢◌, ◌==◌, if◌then◌else◌, arith}
use imee.Masks.{frame_bits}
use imee.Host.{Mem, DirectMap}
use imee.Ept.{ept_index}

-- The table that an entry points to.
abbrev pub child : DirectMap → ℕ → ℕ
child k e = k.va (frame_bits e)

-- The leaf entry for `gpa` that is found from table `t` at depth `i`, with `n` levels below it;
-- 0 if an entry on the way is 0.
unfoldable pub walk : DirectMap → Mem → ℕ → ℕ → ℕ → ℕ → ℕ
walk k mem gpa zero i t = mem t (ept_index gpa i)
walk k mem gpa (suc n) i t =
    let rest = walk k mem gpa n (i + 1) (child k (mem t (ept_index gpa i))) in
    if mem t (ept_index gpa i) == 0 then 0 else rest

-- The leaf entry under an EPT pointer.
unfoldable pub translate : DirectMap → Mem → ℕ → ℕ → ℕ
unfolding walk
translate k mem eptptr gpa = walk k mem gpa 3 0 (k.va eptptr)

-- The number of the region that a table with `n` levels below it covers.
abbrev pub region_of : ℕ → ℕ → ℕ
region_of gpa zero = gpa / 2 ^ 21
region_of gpa (suc zero) = gpa / 2 ^ 30
region_of gpa (suc (suc zero)) = gpa / 2 ^ 39
region_of gpa (suc (suc (suc _))) = gpa / 2 ^ 48

-- For each page address: 0 if it is no table, or one more than the levels below it; and the
-- region that it covers.
pub record Labels : Type 0 where
  pub height : ℕ → ℕ
  pub region : ℕ → ℕ

-- Every entry above the leaves points to a table of the level below, for the part of the region
-- that its slot stands for. So no table has two parents.
pub record IsTree (k : DirectMap) (l : Labels) (mem : Mem) : Type 0 where
  pub nonnull : (p : ℕ) → 0 < l.height p → p ≢ 0
  pub lower :
      (p i : ℕ)
      → 1 < l.height p
      → i < 512
      → mem p i ≢ 0
      → (suc (l.height (child k (mem p i))) ≡ l.height p)
        × (l.region (child k (mem p i)) ≡ l.region p * 512 + i)

-- `t` is the table for `gpa` with `n` levels below it.
pub record IsTable (l : Labels) (gpa n t : ℕ) : Type 0 where
  pub height : l.height t ≡ suc n
  pub region : l.region t ≡ region_of gpa n

pub ept_index-lt : (gpa i : ℕ) → ept_index gpa i < 512
ept_index-lt gpa zero = omega arith
ept_index-lt gpa (suc zero) = omega arith
ept_index-lt gpa (suc (suc zero)) = omega arith
ept_index-lt gpa (suc (suc (suc i))) = omega arith

pub region_of-suc :
    (gpa n i : ℕ) → suc n + i ≡ 3 → region_of gpa n ≡ region_of gpa (suc n) * 512 + ept_index gpa i
region_of-suc gpa zero zero e = absurd (omega arith)
region_of-suc gpa zero (suc zero) e = absurd (omega arith)
region_of-suc gpa zero (suc (suc zero)) e = omega arith
region_of-suc gpa zero (suc (suc (suc i))) e = absurd (omega arith)
region_of-suc gpa (suc zero) zero e = absurd (omega arith)
region_of-suc gpa (suc zero) (suc zero) e = omega arith
region_of-suc gpa (suc zero) (suc (suc i)) e = absurd (omega arith)
region_of-suc gpa (suc (suc zero)) zero e = omega arith
region_of-suc gpa (suc (suc zero)) (suc i) e = absurd (omega arith)
region_of-suc gpa (suc (suc (suc n))) i e = absurd (omega arith)

-- The walk goes from a table of `gpa` to a table of `gpa`.
pub child-IsTable :
    (k : DirectMap) {l : Labels} {mem : Mem} (gpa n i t : ℕ)
    → IsTree k l mem
    → IsTable l gpa (suc n) t
    → suc n + i ≡ 3
    → mem t (ept_index gpa i) ≢ 0
    → IsTable l gpa n (child k (mem t (ept_index gpa i)))
child-IsTable k gpa n i t tree v e ne =
    ground (arith, tree.lower t (ept_index gpa i), ept_index-lt gpa i, region_of-suc gpa n i)
