-- ===== src/Context/Visit.antt =====
-- get_next_ctx as a traversal of the contexts.
use imee.Base.{
  ℕ, zero, suc, ◌+◌, ◌≤◌, ◌≡◌, refl, ap, subst, sym, ◌∙◌, Bool, true, false, Option, none, some,
  List, [], ◌∷◌, ◌==◌, if◌then◌else◌, length, arith,
}
use imee.Ept.{IntroCtx}
use imee.Context.{get_next_ctx}

-- The machines of the contexts that `n` calls of get_next_ctx pick, in their order.
unfoldable pub picks : ℕ → List IntroCtx → List ℕ
unfolding get_next_ctx
picks zero ctxs = []
picks (suc n) ctxs = elim (get_next_ctx ctxs) [
  | none ↦ []
  | some (next, ctxs') ↦ next.kvm ∷ picks n ctxs'
]

-- The machines of the contexts that have not been visited.
abbrev pub unvisited : List IntroCtx → List ℕ
unvisited [] = []
unvisited (c ∷ cs) = let rest = unvisited cs in if c.visited == 0 then c.kvm ∷ rest else rest

-- What one call does to the list of those that are left.
abbrev Takes : List IntroCtx → Option (IntroCtx × List IntroCtx) → Type 0
Takes ctxs none = unvisited ctxs ≡ []
Takes ctxs (some (next, ctxs')) = unvisited ctxs ≡ next.kvm ∷ unvisited ctxs'

get_next_ctx-Takes : (ctxs : List IntroCtx) → Takes ctxs (get_next_ctx ctxs)
unfolding get_next_ctx
get_next_ctx-Takes [] = refl
get_next_ctx-Takes (c ∷ cs) = go (c.visited == 0) refl (get_next_ctx cs) (get_next_ctx-Takes cs)
  where
    go :
        (b : Bool)
        → c.visited == 0 ≡ b
        → (o : Option (IntroCtx × List IntroCtx)) → Takes cs o
        → Takes (c ∷ cs) (
            if b
            then some
                (record c { visited = c.visited + 1 }, record c { visited = c.visited + 1 } ∷ cs)
            else elim o [ none ↦ none | some (next, rest) ↦ some (next, c ∷ rest) ])
    go true e o takes = ground (arith, e)
    go false e none takes = ground (arith, e, takes)
    go false e (some (next, rest)) takes = ground (arith, e, takes)

empty-length : (xs : List ℕ) → length xs ≤ 0 → [] ≡ xs
empty-length [] le = refl
empty-length (x ∷ xs) le = absurd (omega arith)

-- The calls of get_next_ctx, one after the other, pick the contexts that were not visited, each
-- once and in the order of the list, and then no more. `n` is a number of calls that is at least
-- the number of these contexts.
pub picks-all :
    (n : ℕ) (ctxs : List IntroCtx) → length (unvisited ctxs) ≤ n → picks n ctxs ≡ unvisited ctxs
unfolding picks
picks-all zero ctxs enough = empty-length (unvisited ctxs) enough
picks-all (suc n) ctxs enough = go (get_next_ctx ctxs) (get_next_ctx-Takes ctxs) (picks-all n)
  where
    go :
        (o : Option (IntroCtx × List IntroCtx))
        → Takes ctxs o
        → ((cs : List IntroCtx) → length (unvisited cs) ≤ n → picks n cs ≡ unvisited cs)
        → elim o [ none ↦ [] | some (next, cs) ↦ next.kvm ∷ picks n cs ] ≡ unvisited ctxs
    go none takes rest = sym takes
    go (some (next, cs)) takes rest =
        ap (λ xs. next.kvm ∷ xs)
          (rest cs (omega (arith, subst (λ xs. length xs ≤ suc n) takes enough)))
        ∙ sym takes
