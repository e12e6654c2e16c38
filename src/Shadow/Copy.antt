-- ===== src/Shadow/Copy.antt =====
-- What copy_leaf_ept leaves on the list of leaf pages and in memory.
use imee.Base.{
  ◌≢◌, ◌≤◌, ◌⊎◌, true, false, map, ℕ, suc, ◌+◌, ◌*◌, ◌/◌, ◌%◌, ◌^◌, ◌<◌, ◌≡◌, refl, Option, none,
  some, List, [], ◌∷◌, ◌==◌, if◌then◌else◌, arith, All, ==→eq, ==→ne, Bool,
}
use imee.Host.{Mem, Host}
use imee.Frames.{do_alloc_ept_frames, block_pages, page_size, get_ept_page}
use imee.Ept.{MmuPage}
use imee.Shadow.{ShadowPage, read_only, copy_entries, copy_leaf_ept}

-- An entry without the write and the execute permission.
abbrev pub IsReadOnly : ℕ → Type 0
IsReadOnly e = (e / 2 % 2 ≡ 0) × (e / 4 % 2 ≡ 0)

pub read_only-IsReadOnly : (x : ℕ) → IsReadOnly (read_only x)
read_only-IsReadOnly x = (omega arith, omega arith)

-- `page` holds read-only entries only.
abbrev pub PageIsReadOnly : Mem → MmuPage → Type 0
PageIsReadOnly mem page = (j : ℕ) → j < 512 → IsReadOnly (mem page.spt j)

-- An allocation clears at most a page.
get_ept_page-clears :
    (h : Host) (q j : ℕ) → (get_ept_page h).1.mem q j ≡ h.mem q j ⊎ (get_ept_page h).1.mem q j ≡ 0
unfolding get_ept_page do_alloc_ept_frames
get_ept_page-clears h q j = ground arith

get_ept_page-PageIsReadOnly :
    (h : Host) (page : MmuPage)
    → PageIsReadOnly h.mem page
    → PageIsReadOnly (get_ept_page h).1.mem page
get_ept_page-PageIsReadOnly h page was j small =
    ground (arith, get_ept_page-clears h page.spt j, was j small)

copy_entries-PageIsReadOnly :
    (mem : Mem) (p : ℕ) (spt : ℕ → ℕ) (page : MmuPage)
    → PageIsReadOnly mem page
    → PageIsReadOnly (copy_entries mem p spt) page
copy_entries-PageIsReadOnly mem p spt page was j small =
    ground (arith, was j small, read_only-IsReadOnly (spt j))

copy_entries-new :
    (mem : Mem) (p : ℕ) (spt : ℕ → ℕ) (page : MmuPage)
    → page.spt ≡ p
    → PageIsReadOnly (copy_entries mem p spt) page
copy_entries-new mem p spt page same j small =
    ground (arith, same, small, read_only-IsReadOnly (spt j))

All-keep :
    (m m' : Mem) (pages : List MmuPage)
    → ((page : MmuPage) → PageIsReadOnly m page → PageIsReadOnly m' page)
    → All pages (PageIsReadOnly m)
    → All pages (PageIsReadOnly m')
All-keep m m' [] keep all = all
All-keep m m' (page ∷ pages) keep (one, all) = (keep page one, All-keep m m' pages keep all)

-- The first frame numbers of the pages of level 1, latest first, before those of the list.
abbrev pub copied_gfns : List ShadowPage → List ℕ → List ℕ
copied_gfns [] gfns = gfns
copied_gfns (page ∷ rest) gfns =
    if page.level == 1 then copied_gfns rest (page.gfn ∷ gfns) else copied_gfns rest gfns

abbrev pub leaf_count : List ShadowPage → ℕ
leaf_count [] = 0
leaf_count (page ∷ rest) = let n = leaf_count rest in if page.level == 1 then suc n else n

-- The current block has `n` pages left at least.
abbrev pub Plenty : ℕ → Host → Type 0
Plenty n h =
    (0 < h.p_base) × (h.p_base + block_pages * page_size ≤ 2 ^ 64) × (h.p_idx + n < block_pages)

get_ept_page-Plenty :
    (n : ℕ) (h : Host) → Plenty (suc n) h → (0 < (get_ept_page h).0) × Plenty n (get_ept_page h).1
unfolding get_ept_page
get_ept_page-Plenty n h (pos, below, left) =
    (ground arith, (ground arith, ground arith, ground arith))

Plenty-leaf :
    (page : ShadowPage) (rest : List ShadowPage) (h : Host)
    → Plenty (leaf_count (page ∷ rest)) h
    → page.level ≡ 1
    → Plenty (suc (leaf_count rest)) h
Plenty-leaf page rest h plenty e = (plenty.0, plenty.1, ground (arith, plenty.2, e))

Plenty-other :
    (page : ShadowPage) (rest : List ShadowPage) (h : Host)
    → Plenty (leaf_count (page ∷ rest)) h
    → page.level ≢ 1
    → Plenty (leaf_count rest) h
Plenty-other page rest h plenty e = (plenty.0, plenty.1, ground (arith, plenty.2, e))

abbrev gfns : List MmuPage → List ℕ
gfns leaf = map (λ page. page.gfn) leaf

Copied : List ShadowPage → List ℕ → Option (List MmuPage × Host) → Type 0
Copied pages start r =
    (leaf' : List MmuPage) × (h' : Host) × (r ≡ some (leaf', h'))
    × All leaf' (PageIsReadOnly h'.mem)
    × (gfns leaf' ≡ copied_gfns pages start)

copy_one :
    (page : ShadowPage) (rest : List ShadowPage) (start : List ℕ)
    (r skip : Option (List MmuPage × Host)) (p : ℕ)
    → (page.level ≡ 1 → (0 < p) × Copied rest (page.gfn ∷ start) r)
    → (page.level ≢ 1 → Copied rest start skip)
    → Copied (page ∷ rest) start (if page.level == 1 then if p == 0 then none else r else skip)
unfolding Copied
copy_one page rest start r skip p leaf other = go (page.level == 1) (p == 0) refl refl
  where
    go :
        (b c : Bool)
        → page.level == 1 ≡ b
        → p == 0 ≡ c
        → (leaf' : List MmuPage) × (h' : Host) × ((if b then if c then none else r else skip)
            ≡ some (leaf', h'))
          × All leaf' (PageIsReadOnly h'.mem)
          × (gfns leaf'
              ≡ (if b then copied_gfns rest (page.gfn ∷ start) else copied_gfns rest start))
    go true true e z = absurd (ground (arith, leaf (==→eq page.level 1 e), ==→eq p 0 z))
    go true false e z = (leaf (==→eq page.level 1 e)).1
    go false c e z = other (==→ne page.level 1 e)

-- While the current block of page frames holds a page for each page of level 1 of the machine,
-- copy_leaf_ept ends without a fault: its list holds one page for each of these, with the same
-- frame numbers, in front of the pages it was given; and if the entries of these had neither the
-- write nor the execute permission, then no entry of any page of the list has.
copy_leaf_ept-copies :
    (pages : List ShadowPage) (leaf : List MmuPage) (h : Host)
    → Plenty (leaf_count pages) h
    → All leaf (PageIsReadOnly h.mem)
    → (leaf' : List MmuPage) × (h' : Host) × (copy_leaf_ept pages leaf h ≡ some (leaf', h'))
      × All leaf' (PageIsReadOnly h'.mem)
      × (map (λ page. page.gfn) leaf' ≡ copied_gfns pages (map (λ page. page.gfn) leaf))
unfolding copy_leaf_ept Copied
copy_leaf_ept-copies [] leaf h plenty were = (leaf, h, refl, were, refl)
copy_leaf_ept-copies (page ∷ rest) leaf h plenty were =
    let h1 = (get_ept_page h).1 in
    let p = (get_ept_page h).0 in
    let h2 = record h1 { mem = copy_entries h1.mem p page.spt } in
    copy_one page rest (gfns leaf)
      (copy_leaf_ept rest (record { spt = p; level = 1; gfn = page.gfn } ∷ leaf) h2)
      (copy_leaf_ept rest leaf h) p
      (λ e.
        let (pos, room) =
          get_ept_page-Plenty (leaf_count rest) h (Plenty-leaf page rest h plenty e) in
        (
          pos,
          copy_leaf_ept-copies rest (record { spt = p; level = 1; gfn = page.gfn } ∷ leaf) h2 room (
            copy_entries-new h1.mem p page.spt (record { spt = p; level = 1; gfn = page.gfn }) refl,
            All-keep h.mem h2.mem leaf
                (λ q was.
                  copy_entries-PageIsReadOnly h1.mem p page.spt q
                    (get_ept_page-PageIsReadOnly h q was))
                were,
          ),
        ))
      (λ e. copy_leaf_ept-copies rest leaf h (Plenty-other page rest h plenty e) were)
