-- ===== src/Local/Mapping.antt =====
-- What map_local_page_tables adds to an EPT.
use imee.Base.{
  ℕ, ◌+◌, ◌/◌, ◌^◌, ◌<◌, ◌≡◌, refl, sym, ap, ◌∙◌, Option, some, ◌==◌, if◌then◌else◌, arith, List,
  [], ◌∷◌, All,
}
use imee.Host.{Host, DirectMap}
use imee.Ept.{IntroCtx, Ptr, map_epte}
use imee.Ept.Room.{Room-weaken}
use imee.Ept.Walk.{translate, Labels}
use imee.Ept.Leaves.{leaf_entry, Leaves, Keeps, Keeps-then, IsListed, from-Leaves}
use imee.Ept.Correct.{IsEpt, map_epte-Entered, translate-map_epte}
use imee.Ept.Apart.{Spares, Spares-refl, Spares-then}
use imee.Local.{
  pd_gpa, pt_gpa_exec, pt_gpa_data, data_gpa, code_gpa, Local, local_maps, map_all,
  map_local_page_tables,
}

-- The entry that a list of mappings, made in order, leaves for `gpa` where `old` was.
unfoldable pub mapped_entry : List (ℕ × ℕ × ℕ) → ℕ → ℕ → ℕ
mapped_entry [] gpa old = old
mapped_entry ((a, hpa, perm) ∷ rest) gpa old =
    mapped_entry rest gpa (if gpa / 2 ^ 12 == a / 2 ^ 12 then leaf_entry hpa perm old else old)

-- The pages that a list of mappings can take.
abbrev pub need : List (ℕ × ℕ × ℕ) → ℕ → ℕ
need [] m = m
need (_ ∷ rest) m = 3 + need rest m

-- What a list of mappings leaves: the EPT, its labels, what became of the last tables, and where
-- each address leads.
pub record MappedAll (k : DirectMap) (maps : List (ℕ × ℕ × ℕ)) (l : Labels) (m : ℕ) (ctx : IntroCtx)
    (h : Host) : Type 1 where
  pub ctx' : IntroCtx
  pub host : Host
  pub labels : Labels
  pub runs : map_all k maps ctx h ≡ some (ctx', host)
  pub ept : IsEpt k labels m ctx' host
  pub eptptr : ctx'.eptptr ≡ ctx.eptptr
  pub saved : ctx'.code_ept_pte_p ≡ ctx.code_ept_pte_p
  pub keeps : Keeps l labels
  pub leaves :
      (P : ℕ → Type 0)
      → P 0
      → All maps (λ a. (old : ℕ) → P (leaf_entry a.1 a.2 old))
      → Leaves P l h.mem
      → Leaves P labels host.mem
  pub listed : All ctx.leaf_page (IsListed l) → All ctx'.leaf_page (IsListed labels)
  pub spares : Spares l h labels host
  pub entries :
      (gpa : ℕ)
      → gpa < 2 ^ 48
      → translate k host.mem ctx.eptptr gpa
        ≡ mapped_entry maps gpa (translate k h.mem ctx.eptptr gpa)

module _ (k : DirectMap) where
  map_all-cons :
      (a hpa perm : ℕ) (rest : List (ℕ × ℕ × ℕ)) (ctx : IntroCtx) (h : Host) (p : Option Ptr)
      (c : IntroCtx) (h1 : Host)
      → map_epte k a hpa perm ctx h ≡ some (p, c, h1)
      → map_all k ((a, hpa, perm) ∷ rest) ctx h ≡ map_all k rest c h1
  unfolding map_all
  map_all-cons a hpa perm rest ctx h p c h1 e = rw (e, map_all)

  map_all-lem :
      (maps : List (ℕ × ℕ × ℕ)) (l : Labels) (m : ℕ) (ctx : IntroCtx) (h : Host)
      → All maps (λ a. a.0 < 2 ^ 48)
      → IsEpt k l (need maps m) ctx h
      → MappedAll k maps l m ctx h
  unfolding map_all mapped_entry
  map_all-lem [] l m ctx h small ok = record {
    ctx' = ctx;
    host = h;
    labels = l;
    runs = refl;
    ept = ok;
    eptptr = refl;
    saved = refl;
    keeps = λ q used. (refl, refl);
    leaves = λ P none_ made was. was;
    listed = λ were. were;
    spares = Spares-refl l h;
    entries = λ gpa lt. refl;
  }
  map_all-lem ((a, hpa, perm) ∷ rest) l m ctx h small ok =
      let r = map_epte-Entered k a hpa perm l (need rest m) ctx h ok small.0 in
      let s = map_all-lem rest r.labels m r.ctx' r.host small.1 r.ept in
      record {
        ctx' = s.ctx';
        host = s.host;
        labels = s.labels;
        runs = map_all-cons a hpa perm rest ctx h (some r.ptr) r.ctx' r.host r.runs ∙ s.runs;
        ept = s.ept;
        eptptr = s.eptptr ∙ r.eptptr;
        saved = s.saved ∙ r.saved;
        keeps = Keeps-then l r.labels s.labels r.keeps s.keeps;
        leaves = λ P none_ (one, others) was.
            s.leaves P none_ others
              (from-Leaves P hpa perm l h.mem r.labels r.host.mem none_ one r.from was);
        listed = λ were. s.listed (r.listed were);
        spares = Spares-then l h r.labels r.host s.labels s.host r.spares s.spares;
        entries = λ gpa lt.
            ap (λ x. translate k s.host.mem x gpa) (sym r.eptptr)
            ∙ s.entries gpa lt
            ∙ ap (mapped_entry rest gpa) (
                ap (λ x. translate k r.host.mem x gpa) r.eptptr
                ∙ translate-map_epte k a hpa perm l (need rest m) ctx h ok small.0 (some r.ptr)
                    r.ctx' r.host gpa r.runs lt);
      }

  module _ (g : Local) (l : Labels) (m : ℕ) (ctx : IntroCtx) (h : Host)
      (ok : IsEpt k l (15 + m) ctx h) where
    maps_small : All (local_maps g) (λ a. a.0 < 2 ^ 48)
    maps_small = omega arith

    enough : IsEpt k l (need (local_maps g) m) ctx h
    enough = record {
      tree = ok.tree;
      room = Room-weaken (need (local_maps g) m) (omega arith) ok.room;
      root = ok.root;
      whole = ok.whole;
    }

    -- All that it does to the tables: to its own, and to those of others.
    pub mapped_local : MappedAll k (local_maps g) l m ctx h
    mapped_local = map_all-lem (local_maps g) l m ctx h maps_small enough

    pub mapped_local-runs :
        map_local_page_tables k g ctx h ≡ some (mapped_local.ctx', mapped_local.host)
    unfolding map_local_page_tables
    mapped_local-runs = mapped_local.runs

    -- After it the five fixed pages are translated to the frames of the local tables, the data page
    -- and the code page: the tables and the data readable and writable, the code executable only.
    -- Every other address below 2 ^ 48 is translated as before.
    pub translate-map_local_page_tables :
        (ctx' : IntroCtx) (h' : Host) (gpa : ℕ)
        → map_local_page_tables k g ctx h ≡ some (ctx', h')
        → gpa < 2 ^ 48
        → let old = translate k h.mem ctx.eptptr gpa in
          translate k h'.mem ctx.eptptr gpa ≡ (
            if gpa / 2 ^ 12 == pd_gpa / 2 ^ 12
            then leaf_entry g.fake_cr3_pd_hpa 0x3 old
            else if gpa / 2 ^ 12 == pt_gpa_exec / 2 ^ 12
            then leaf_entry g.fake_cr3_pt_hpa_exec 0x3 old
            else if gpa / 2 ^ 12 == pt_gpa_data / 2 ^ 12
            then leaf_entry g.fake_cr3_pt_hpa_data 0x3 old
            else if gpa / 2 ^ 12 == data_gpa / 2 ^ 12
            then leaf_entry g.data_hpa 0x3 old
            else if gpa / 2 ^ 12 == code_gpa / 2 ^ 12
            then leaf_entry g.code_hpa 0x4 old
            else old)
    unfolding map_local_page_tables mapped_entry
    translate-map_local_page_tables ctx' h' gpa e lt =
        let r = mapped_local in
        let host : r.host ≡ h' = cc (r.runs) in rw (← host, r.entries gpa lt) (ground arith)
