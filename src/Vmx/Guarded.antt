-- ===== src/Vmx/Guarded.antt =====
-- The invariant of the introspection contexts, in the steps that a scan is made of: the start of an
-- agent, the interrupt handler of kvm/imee.c and the exits and entries of kvm/vmx.c.
pub mod Violation
use imee.Base.{
  ◌⊎◌, ℕ, ◌+◌, ◌^◌, ◌<◌, ◌≡◌, refl, ◌≤◌, sym, ap, subst, ◌∙◌, Bool, true, false, Option, none, some,
  List, [], ◌∷◌, All, ◌==◌, if◌then◌else◌, arith, Option-cases, Bool-cases, inl, inr,
}
use imee.Host.{Host, DirectMap}
use imee.Ept.{IntroCtx, Ptr, get_epte}
use imee.Ept.Walk.{Labels, translate}
use imee.Ept.Room.{Room-weaken}
use imee.Local.{Local}
use imee.Context.{get_next_ctx, kvm_to_ctx, remap_gpa_code}
use imee.Context.Guarded.{IsRooted, Forest, Guarded, all-IsRooted}
use imee.Context.Confined.{IsCode, Remapped, remap_gpa_code-Remapped}
use imee.Session.{Session, Answer, write_eoi, imee_write_eoi, start_guest_intercept}
use imee.Session.Start.{start-runs, start-none}
use imee.Session.Untouched.{Untouched, write_eoi-Untouched, start-Untouched}
use imee.Vmx.{Machine, adjust_imee_vcpu, with_offset}
use imee.Vmx.Exits.{put_ctx}

-- The contexts of a session keep the agent in its own pages, and `n` more pages can be had.
pub record IsGuarded (k : DirectMap) (g : Local) (n : ℕ) (s : Session) : Type 0 where
  pub guarded : Guarded k g n s.contexts s.host
  pub code : s.code_hpa ≡ g.code_hpa

module _ (k : DirectMap) (g : Local) where
  module _ (l : Labels) where
    -- A mark on a context is no part of the invariant.
    marked-rooted :
        (ctxs : List IntroCtx)
        → All ctxs (IsRooted k g l)
        → (next : IntroCtx) (ctxs' : List IntroCtx) → get_next_ctx ctxs ≡ some (next, ctxs')
        → All ctxs' (IsRooted k g l)
    unfolding get_next_ctx
    marked-rooted [] rooted next ctxs' = λ e. absurd (cc e)
    marked-rooted (c ∷ cs) (one, others) next ctxs' =
        go (c.visited == 0) (get_next_ctx cs) (marked-rooted cs others)
      where
        go :
            (b : Bool) (o : Option (IntroCtx × List IntroCtx))
            → ((x : IntroCtx) (xs : List IntroCtx) → o ≡ some (x, xs) → All xs (IsRooted k g l))
            → if◌then◌else◌ {A = Option (IntroCtx × List IntroCtx)} b
                (some
                  (record c { visited = c.visited + 1 }, record c { visited = c.visited + 1 } ∷ cs))
                (elim o [ none ↦ none | some (x, xs) ↦ some (x, c ∷ xs) ])
              ≡ some (next, ctxs')
            → All ctxs' (IsRooted k g l)
        go true o later e =
            let same : record c { visited = c.visited + 1 } ∷ cs ≡ ctxs' = cc e in
            subst (λ xs. All xs (IsRooted k g l)) same
              (
                record {
                  root = one.root;
                  whole = one.whole;
                  listed = one.listed;
                  saved = one.saved;
                },
                others,
              )
        go false none later e = absurd (cc e)
        go false (some (x, xs)) later e =
            let same : c ∷ xs ≡ ctxs' = cc e in
            subst (λ ys. All ys (IsRooted k g l)) same (one, later x xs refl)

    -- A context of the list is replaced by one that has to do with the same forest.
    put_ctx-rooted :
        (ctx : IntroCtx) (ctxs : List IntroCtx)
        → IsRooted k g l ctx
        → All ctxs (IsRooted k g l)
        → All (put_ctx ctx ctxs) (IsRooted k g l)
    unfolding put_ctx
    put_ctx-rooted ctx [] new rooted = tt
    put_ctx-rooted ctx (c ∷ cs) new (one, others) =
        go (c.kvm == ctx.kvm) (put_ctx-rooted ctx cs new others)
      where
        go :
            (b : Bool)
            → All (put_ctx ctx cs) (IsRooted k g l)
            → All (if b then ctx ∷ cs else c ∷ put_ctx ctx cs) (IsRooted k g l)
        go true later = (new, others)
        go false later = (one, later)

    found-rooted :
        (vm : ℕ) (ctxs : List IntroCtx) (ctx : IntroCtx)
        → All ctxs (IsRooted k g l)
        → kvm_to_ctx vm ctxs ≡ some ctx
        → IsRooted k g l ctx
    unfolding kvm_to_ctx
    found-rooted vm [] ctx rooted = λ e. absurd (cc e)
    found-rooted vm (c ∷ cs) ctx (one, others) = go (c.kvm == vm) (found-rooted vm cs ctx others)
      where
        go :
            (b : Bool)
            → (kvm_to_ctx vm cs ≡ some ctx → IsRooted k g l ctx)
            → (if b then some c else kvm_to_ctx vm cs) ≡ some ctx
            → IsRooted k g l ctx
        go true later e = let same : c ≡ ctx = cc e in subst (IsRooted k g l) same one
        go false later e = later e

  -- A session with the same contexts but for marks, and the same memory.
  moved-IsGuarded :
      (n : ℕ) (s t : Session)
      → Untouched s t
      → ((l : Labels) → All s.contexts (IsRooted k g l) → All t.contexts (IsRooted k g l))
      → IsGuarded k g n s
      → IsGuarded k g n t
  moved-IsGuarded n s t (host, code) keep gd = record {
    guarded = record {
      labels = gd.guarded.labels;
      forest = subst (Forest k g gd.guarded.labels n) (sym host) gd.guarded.forest;
      rooted = keep gd.guarded.labels gd.guarded.rooted;
    };
    code = code ∙ gd.code;
  }

  pub same-IsGuarded :
      (n : ℕ) (s t : Session)
      → Untouched s t
      → t.contexts ≡ s.contexts
      → IsGuarded k g n s
      → IsGuarded k g n t
  same-IsGuarded n s t w same =
      moved-IsGuarded n s t w (λ l. subst (λ cs. All cs (IsRooted k g l)) (sym same))

  pub write_eoi-IsGuarded :
      (n : ℕ) (a : Answer) (s t : Session)
      → imee_write_eoi a s ≡ some t
      → IsGuarded k g n s
      → IsGuarded k g n t
  unfolding imee_write_eoi
  write_eoi-IsGuarded n a s t e gd =
      let (w, same) = write_eoi-Untouched a s in
      subst (IsGuarded k g n) (ground (arith, e)) (same-IsGuarded n s (write_eoi a s) w same gd)

  -- The start of an agent, whether it comes about or not.
  pub start-IsGuarded :
      (n : ℕ) (a : Answer) (s : Session)
      → IsGuarded k g n s
      → IsGuarded k g n (start_guest_intercept a s).1
  start-IsGuarded n a s =
      let t = (start_guest_intercept a s).1 in
      moved-IsGuarded n s t (start-Untouched a s) (λ l rooted.
        elim (Option-cases (get_next_ctx s.contexts)) [
          | inl e ↦ subst (λ cs. All cs (IsRooted k g l)) (sym ((start-none a s 0 e).1)) rooted
          | inr ((next, ctxs), e) ↦
              subst (λ cs. All cs (IsRooted k g l)) (sym ((start-runs a s next ctxs 0 e).1))
                (marked-rooted l s.contexts rooted next ctxs e)
        ])

  pub weaken-IsGuarded :
      (n : ℕ) (m : ℕ) (s : Session) → m ≤ n → IsGuarded k g n s → IsGuarded k g m s
  weaken-IsGuarded n m s le gd = record {
    guarded = record {
      labels = gd.guarded.labels;
      forest = record {
        tree = gd.guarded.forest.tree;
        room = Room-weaken m le gd.guarded.forest.room;
        leaves = gd.guarded.forest.leaves;
      };
      rooted = gd.guarded.rooted;
    };
    code = gd.code;
  }

  -- A context of the session whose code page is replaced for `gpa`.
  pub record Swapped (n gpa : ℕ) (s : Session) (ctx : IntroCtx) : Type 0 where
    pub ctx' : IntroCtx
    pub host : Host
    pub runs : remap_gpa_code k s.code_hpa gpa ctx s.host ≡ some (ctx', host)
    pub swapped : Guarded k g n (put_ctx ctx' s.contexts) host
    pub vm : ctx'.kvm ≡ ctx.kvm
    pub ptr : Ptr
    pub at_ptr : ctx'.code_ept_pte_p ≡ some ptr
    pub code : IsCode s.code_hpa (host.mem ptr.page ptr.slot)
    pub placed :
        (get_epte ctx gpa ≡ some ptr)
        ⊎ ((get_epte ctx gpa ≡ none)
            × (translate k host.mem ctx'.eptptr gpa ≡ host.mem ptr.page ptr.slot))

  pub swap :
      (n gpa : ℕ) (s : Session) (ctx : IntroCtx)
      → gpa < 2 ^ 48
      → kvm_to_ctx s.current_target s.contexts ≡ some ctx
      → IsGuarded k g (3 + n) s
      → Swapped n gpa s ctx
  swap n gpa s ctx small found gd =
      let l = gd.guarded.labels in
      let was = gd.guarded.rooted in
      let r =
        remap_gpa_code-Remapped k g l n gpa ctx s.host gd.guarded.forest
          (found-rooted l s.current_target s.contexts ctx was found) small in
      record {
        ctx' = r.ctx';
        host = r.host;
        runs = ap (λ c. remap_gpa_code k c gpa ctx s.host) gd.code ∙ r.runs;
        vm = r.vm;
        ptr = r.ptr;
        at_ptr = r.at_ptr;
        code = subst (λ c. IsCode c (r.host.mem r.ptr.page r.ptr.slot)) (sym gd.code) r.code;
        placed = r.placed;
        swapped = record {
          labels = r.labels;
          forest = r.forest;
          rooted =
              put_ctx-rooted r.labels r.ctx' s.contexts r.rooted
                (all-IsRooted k g l r.labels r.keeps s.contexts was);
        };
      }
