-- ===== src/Context/Distinct.antt =====
-- Which machines get a context.
use imee.Base.{
  ℕ, ◌≡◌, refl, sym, ap, subst, Bool, true, false, not, ◌&&◌, ◌||◌, Option, none, some, List, [],
  ◌∷◌, ◌==◌, if◌then◌else◌, arith, ==→eq, Bool-cases,
}
use imee.Host.{Host, DirectMap}
use imee.Ept.{IntroCtx}
use imee.Local.{Local}
use imee.Context.{GuestVm, kvm_to_ctx, fill_ctx, create_introspection_context, create_contexts}
use imee.Context.Create.{MapsKeep, fill_ctx-vm}

-- `x` is one of the machines of the contexts.
abbrev pub has_ctx : ℕ → List IntroCtx → Bool
has_ctx x [] = false
has_ctx x (c ∷ cs) = (c.kvm == x) || has_ctx x cs

-- `x` is a machine of the list that another task than `current` owns.
abbrev pub is_target : ℕ → ℕ → List GuestVm → Bool
is_target current x [] = false
is_target current x (v ∷ vs) = (v.vm == x) && not (v.owner == current) || is_target current x vs

-- No two contexts are of the same machine.
abbrev pub distinct : List IntroCtx → Bool
distinct [] = true
distinct (c ∷ cs) = not (has_ctx c.kvm cs) && distinct cs

kvm_to_ctx-has :
    (x : ℕ) (cs : List IntroCtx)
    → has_ctx x cs ≡ elim (kvm_to_ctx x cs) [ none ↦ false | some _ ↦ true ]
unfolding kvm_to_ctx
kvm_to_ctx-has x [] = refl
kvm_to_ctx-has x (c ∷ cs) = go (c.kvm == x) (kvm_to_ctx-has x cs)
  where
    go :
        (b : Bool)
        → has_ctx x cs ≡ elim (kvm_to_ctx x cs) [ none ↦ false | some _ ↦ true ]
        → b || has_ctx x cs
          ≡ elim (if b then some c else kvm_to_ctx x cs) [ none ↦ false | some _ ↦ true ]
    go true same = refl
    go false same = same

module _ (k : DirectMap) (g : Local) (current : ℕ) where
  -- What a list of contexts is after the machines of `vms` are added to `ctxs`.
  abbrev Adds : List GuestVm → List IntroCtx → List IntroCtx → Type 0
  Adds vms ctxs ctxs' =
      (distinct ctxs' ≡ true)
      × ((x : ℕ) → has_ctx x ctxs' ≡ has_ctx x ctxs || is_target current x vms)

  abbrev AddsIn : List GuestVm → List IntroCtx → Option (List IntroCtx × Host) → Type 0
  AddsIn vms ctxs none = Unit
  AddsIn vms ctxs (some (ctxs', _)) = Adds vms ctxs ctxs'

  create_one :
      (v : GuestVm) (ctxs : List IntroCtx) (h : Host)
      → distinct ctxs ≡ true
      → AddsIn (v ∷ []) ctxs (create_introspection_context k g current v ctxs h)
  unfolding create_introspection_context
  create_one v ctxs h apart =
      go (v.owner == current) refl (kvm_to_ctx v.vm ctxs) (kvm_to_ctx-has v.vm ctxs)
        (fill_ctx k g v h) (fill_ctx-vm k g v h)
    where
      add_if : Bool → Option IntroCtx → Option (IntroCtx × Host) → Option (List IntroCtx × Host)
      add_if b found made =
          if◌then◌else◌ {A = Option (List IntroCtx × Host)} b (some (ctxs, h)) (elim found [
            | some _ ↦ some (ctxs, h)
            | none ↦ elim made [ none ↦ none | some (ctx, h1) ↦ some (ctx ∷ ctxs, h1) ]
          ])

      go :
          (b : Bool)
          → v.owner == current ≡ b
          → (found : Option IntroCtx)
          → has_ctx v.vm ctxs ≡ elim found [ none ↦ false | some _ ↦ true ]
          → (made : Option (IntroCtx × Host)) → MapsKeep k g (v.vm, 0) made
          → AddsIn (v ∷ []) ctxs (add_if b found made)
      go true self found has made keeps =
          (apart, λ x. ground (arith, self, Bool-cases (has_ctx x ctxs), Bool-cases (v.vm == x)))
      go false other (some c) has made keeps = (
        apart,
        λ x. ground (arith, has, ==→eq v.vm x, Bool-cases (has_ctx x ctxs), Bool-cases (v.vm == x)),
      )
      go false other none has none keeps = tt
      go false other none has (some (ctx, h1)) keeps =
          let same = ap (λ p. p.0) keeps in
          (
            ground (arith, same, has, apart, subst (λ y. has_ctx y ctxs ≡ false) (sym same) has),
            λ x.
                subst
                  (λ y.
                    (y == x) || has_ctx x ctxs
                    ≡ has_ctx x ctxs || ((v.vm == x) && not (v.owner == current) || false))
                  (sym same)
                  (ground (arith, other, Bool-cases (has_ctx x ctxs), Bool-cases (v.vm == x))),
          )

  create_contexts-AddsIn :
      (vms : List GuestVm) (ctxs : List IntroCtx) (h : Host)
      → distinct ctxs ≡ true
      → AddsIn vms ctxs (create_contexts k g current vms ctxs h)
  unfolding create_contexts
  create_contexts-AddsIn [] ctxs h apart = (apart, λ x. ground (arith, Bool-cases (has_ctx x ctxs)))
  create_contexts-AddsIn (v ∷ vs) ctxs h apart =
      go (create_introspection_context k g current v ctxs h) (create_one v ctxs h apart)
        (create_contexts-AddsIn vs)
    where
      go :
          (r : Option (List IntroCtx × Host))
          → AddsIn (v ∷ []) ctxs r
          → ((cs : List IntroCtx) (h1 : Host)
              → distinct cs ≡ true
              → AddsIn vs cs (create_contexts k g current vs cs h1))
          → AddsIn
              (v ∷ vs)
              ctxs
              (elim r [ none ↦ none | some (cs, h1) ↦ create_contexts k g current vs cs h1 ])
      go none one later = tt
      go (some (cs, h1)) (apart1, one) later =
          AddsIn-step (create_contexts k g current vs cs h1) (later cs h1 apart1)
        where
          AddsIn-step :
              (r : Option (List IntroCtx × Host)) → AddsIn vs cs r → AddsIn (v ∷ vs) ctxs r
          AddsIn-step none more = tt
          AddsIn-step (some (cs', _)) (apart2, more) = (
            apart2,
            λ x. ground (
              arith,
              more x,
              one x,
              Bool-cases (has_ctx x ctxs),
              Bool-cases (has_ctx x cs),
              Bool-cases (is_target current x vs),
              Bool-cases (v.vm == x),
              Bool-cases (v.owner == current),
            ),
          )

  -- When the loop over the machines ends without a fault, and no two of the contexts before it
  -- are of the same machine, then no two of the contexts after it are, and the machines with a
  -- context are those that had one and those of the list that another task than the caller owns.
  pub create_contexts-adds :
      (vms : List GuestVm) (ctxs ctxs' : List IntroCtx) (h h' : Host) (x : ℕ)
      → distinct ctxs ≡ true
      → create_contexts k g current vms ctxs h ≡ some (ctxs', h')
      → (distinct ctxs' ≡ true) × (has_ctx x ctxs' ≡ has_ctx x ctxs || is_target current x vms)
  create_contexts-adds vms ctxs ctxs' h h' x apart done =
      let r = subst (AddsIn vms ctxs) done (create_contexts-AddsIn vms ctxs h apart) in (r.0, r.1 x)
