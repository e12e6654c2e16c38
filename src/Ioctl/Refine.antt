-- ===== src/Ioctl/Refine.antt =====
-- The commands of a session as operations on a board: which machines have a context, and which of
-- them are still to be scanned.
use imee.Base.{
  ℕ, ◌+◌, ◌≡◌, refl, sym, ap, subst, ◌∙◌, Bool, true, false, ◌&&◌, ◌||◌, Option, none, some, List,
  [], ◌∷◌, ◌==◌, if◌then◌else◌, arith, Option-cases, inl, inr,
}
use imee.Host.{Host, DirectMap}
use imee.Frames.{init_ept_frames, release_ept_frames}
use imee.Ept.{IntroCtx}
use imee.Local.{Local}
use imee.Context.{
  GuestVm, kvm_to_ctx, get_next_ctx, fill_ctx, create_introspection_context, create_contexts,
}
use imee.Context.Create.{MapsKeep, fill_ctx-vm}
use imee.Session.{Session, Answer, start_guest_intercept, kvm_imee_stop}
use imee.Session.Start.{answers, start-runs, start-none}
use imee.Setup.{Call, setup_local, kvm_imee_get_guest_context}
use imee.Vmx.{Machine}
use imee.Ioctl.{Command, stop, setup, run, Returned, minus_one, as_run, kvm_vcpu_ioctl}

-- The machines with a context, in the order of the list, each with whether it is still to be scanned.
abbrev pub Board : Type 0
Board = List (ℕ × Bool)

abbrev pub view : List IntroCtx → Board
view [] = []
view (c ∷ cs) = (c.kvm, c.visited == 0) ∷ view cs

abbrev pub on_board : ℕ → Board → Bool
on_board x [] = false
on_board x ((y, _) ∷ rest) = if y == x then true else on_board x rest

-- A machine of another process that is not on the board goes to its front.
abbrev pub add_machine : ℕ → GuestVm → Board → Board
add_machine current v b =
    if v.owner == current then b else if on_board v.vm b then b else (v.vm, true) ∷ b

abbrev pub add_machines : ℕ → List GuestVm → Board → Board
add_machines current [] b = b
add_machines current (v ∷ vs) b = add_machines current vs (add_machine current v b)

-- The first machine that is still to be scanned is crossed out.
abbrev pub cross_out : Board → Board
cross_out [] = []
cross_out ((x, left) ∷ rest) =
    let later = cross_out rest in if left then (x, false) ∷ rest else (x, left) ∷ later

abbrev pub any_left : Board → Bool
any_left [] = false
any_left ((_, left) ∷ rest) = left || any_left rest

-- What a command does to the board, and what it returns.
abbrev pub command_board : Command → Board → Board
command_board stop b = []
command_board (setup c) b = add_machines c.task c.vm_list b
command_board (run a) b = cross_out b

abbrev pub command_returns : Command → Board → Returned
command_returns stop b = Returned.zero
command_returns (setup c) b = Returned.zero
command_returns (run a) b = if any_left b && answers a then as_run else minus_one

-- The board after get_next_ctx.
abbrev Crosses : List IntroCtx → Option (IntroCtx × List IntroCtx) → Type 0
Crosses cs none = (cross_out (view cs) ≡ view cs) × (any_left (view cs) ≡ false)
Crosses cs (some (_, cs')) = (view cs' ≡ cross_out (view cs)) × (any_left (view cs) ≡ true)

get_next_ctx-Crosses : (cs : List IntroCtx) → Crosses cs (get_next_ctx cs)
unfolding get_next_ctx
get_next_ctx-Crosses [] = (refl, refl)
get_next_ctx-Crosses (c ∷ cs) = go (c.visited == 0) refl (get_next_ctx cs) (get_next_ctx-Crosses cs)
  where
    go :
        (b : Bool)
        → c.visited == 0 ≡ b
        → (o : Option (IntroCtx × List IntroCtx)) → Crosses cs o
        → Crosses (c ∷ cs) (
            if b
            then some
                (record c { visited = c.visited + 1 }, record c { visited = c.visited + 1 } ∷ cs)
            else elim o [ none ↦ none | some (next, rest) ↦ some (next, c ∷ rest) ])
    go true e o crosses = ground (arith, e)
    go false e none crosses = ground (arith, e, crosses)
    go false e (some (next, rest)) crosses = ground (arith, e, crosses)

kvm_to_ctx-on_board :
    (x : ℕ) (cs : List IntroCtx)
    → on_board x (view cs) ≡ elim (kvm_to_ctx x cs) [ none ↦ false | some _ ↦ true ]
unfolding kvm_to_ctx
kvm_to_ctx-on_board x [] = refl
kvm_to_ctx-on_board x (c ∷ cs) = go (c.kvm == x) (kvm_to_ctx-on_board x cs)
  where
    go :
        (b : Bool)
        → on_board x (view cs) ≡ elim (kvm_to_ctx x cs) [ none ↦ false | some _ ↦ true ]
        → (if b then true else on_board x (view cs))
          ≡ elim (if b then some c else kvm_to_ctx x cs) [ none ↦ false | some _ ↦ true ]
    go true same = refl
    go false same = same

module _ (k : DirectMap) (g : Local) (current : ℕ) where
  -- The board of a list of contexts, if there is one.
  abbrev Shows : Board → Option (List IntroCtx × Host) → Type 0
  Shows b none = Unit
  Shows b (some (cs, _)) = view cs ≡ b

  create-Shows :
      (v : GuestVm) (cs : List IntroCtx) (h : Host)
      → Shows (add_machine current v (view cs)) (create_introspection_context k g current v cs h)
  unfolding create_introspection_context
  create-Shows v cs h =
      go (v.owner == current) (kvm_to_ctx v.vm cs) (kvm_to_ctx-on_board v.vm cs) (fill_ctx k g v h)
        (fill_ctx-vm k g v h)
    where
      go :
          (b : Bool) (found : Option IntroCtx)
          → on_board v.vm (view cs) ≡ elim found [ none ↦ false | some _ ↦ true ]
          → (made : Option (IntroCtx × Host)) → MapsKeep k g (v.vm, 0) made
          → Shows
              (if b
                then view cs
                else if on_board v.vm (view cs)
                then view cs
                else (v.vm, true) ∷ view cs)
              (if◌then◌else◌ {A = Option (List IntroCtx × Host)} b (some (cs, h)) (elim found [
                | some _ ↦ some (cs, h)
                | none ↦ elim made [ none ↦ none | some (ctx, h1) ↦ some (ctx ∷ cs, h1) ]
              ]))
      go true found has made keeps = refl
      go false (some c) has made keeps = ground (arith, has)
      go false none has none keeps = tt
      go false none has (some (ctx, h1)) keeps =
          ap (λ p. (p.0, p.1 == 0) ∷ view cs) keeps ∙ ground (arith, has)

  creates-Shows :
      (vs : List GuestVm) (cs : List IntroCtx) (h : Host)
      → Shows (add_machines current vs (view cs)) (create_contexts k g current vs cs h)
  unfolding create_contexts
  creates-Shows [] cs h = refl
  creates-Shows (v ∷ vs) cs h =
      go (create_introspection_context k g current v cs h) (create-Shows v cs h) (creates-Shows vs)
    where
      go :
          (r : Option (List IntroCtx × Host))
          → Shows (add_machine current v (view cs)) r
          → ((cs' : List IntroCtx) (h' : Host)
              → Shows (add_machines current vs (view cs')) (create_contexts k g current vs cs' h'))
          → Shows
              (add_machines current vs (add_machine current v (view cs)))
              (elim r [ none ↦ none | some (cs', h') ↦ create_contexts k g current vs cs' h' ])
      go none shows later = tt
      go (some (cs', h')) shows later =
          subst (λ b. Shows (add_machines current vs b) (create_contexts k g current vs cs' h'))
            shows (later cs' h')

run-refines :
    (a : Answer) (s : Session)
    → (view (start_guest_intercept a s).1.contexts ≡ cross_out (view s.contexts))
      × ((start_guest_intercept a s).0 ≡ any_left (view s.contexts) && answers a)
run-refines a s = go (get_next_ctx s.contexts) refl (get_next_ctx-Crosses s.contexts)
  where
    go :
        (o : Option (IntroCtx × List IntroCtx))
        → get_next_ctx s.contexts ≡ o
        → Crosses s.contexts o
        → (view (start_guest_intercept a s).1.contexts ≡ cross_out (view s.contexts))
          × ((start_guest_intercept a s).0 ≡ any_left (view s.contexts) && answers a)
    go none e (same, left) =
        let r = start-none a s 0 e in
        (ap view r.1 ∙ sym same, r.0 ∙ ap (λ b. b && answers a) (sym left))
    go (some (next, ctxs)) e (same, left) =
        let r = start-runs a s next ctxs 0 e in
        (ap view r.1 ∙ same, r.0 ∙ ap (λ b. b && answers a) (sym left))

-- What holds of the result of a command.
abbrev Implements : Command → Board → Option (Returned × Machine) → Type 0
Implements c b none = Unit
Implements c b (some (r, m')) =
    (view m'.session.contexts ≡ command_board c b) × (r ≡ command_returns c b)

set_up-Implements :
    (k : DirectMap) (c : Call) (m : Machine) (g : Local)
    → setup_local k c m.session m.local ≡ some g
    → Implements (setup c) (view m.session.contexts) (kvm_vcpu_ioctl k (setup c) m)
unfolding kvm_vcpu_ioctl kvm_imee_get_guest_context
set_up-Implements k c m g set =
    let made =
      create_contexts k g c.task c.vm_list m.session.contexts (init_ept_frames m.session.host) in
    let shows =
      creates-Shows k g c.task c.vm_list m.session.contexts (init_ept_frames m.session.host) in
    let board = add_machines c.task c.vm_list (view m.session.contexts) in
    elim (Option-cases made) [
      | inl e ↦ rw (set, e, kvm_vcpu_ioctl) tt
      | inr (r, e) ↦ rw (set, e, kvm_vcpu_ioctl) (subst (Shows k g c.task board) e shows, refl)
    ]

kvm_vcpu_ioctl-Implements :
    (k : DirectMap) (c : Command) (m : Machine)
    → Implements c (view m.session.contexts) (kvm_vcpu_ioctl k c m)
unfolding kvm_vcpu_ioctl kvm_imee_stop kvm_imee_get_guest_context
kvm_vcpu_ioctl-Implements k stop m = elim (Option-cases (release_ept_frames m.session.host)) [
  | inl e ↦ rw (e, kvm_vcpu_ioctl) tt
  | inr (h, e) ↦ rw (e, kvm_vcpu_ioctl) (refl, refl)
]
kvm_vcpu_ioctl-Implements k (setup c) m = elim (Option-cases (setup_local k c m.session m.local)) [
  | inl e ↦ rw (e, kvm_vcpu_ioctl) tt
  | inr (g, e) ↦ set_up-Implements k c m g e
]
kvm_vcpu_ioctl-Implements k (run a) m =
    let r = run-refines a m.session in (r.0, ap (λ b. if b then as_run else minus_one) r.1)

-- Every command of a session that ends without a fault does to the board, and returns, what the
-- board says: setup adds the machines of other processes that have no context, at the front and
-- still to be scanned; run crosses out the first that is left, and goes on to run the agent
-- exactly if there was one and its guest answers; stop clears the board.
pub kvm_vcpu_ioctl-refines :
    (k : DirectMap) (c : Command) (r : Returned) (m m' : Machine)
    → kvm_vcpu_ioctl k c m ≡ some (r, m')
    → (view m'.session.contexts ≡ command_board c (view m.session.contexts))
      × (r ≡ command_returns c (view m.session.contexts))
kvm_vcpu_ioctl-refines k c r m m' done =
    subst (Implements c (view m.session.contexts)) done (kvm_vcpu_ioctl-Implements k c m)
