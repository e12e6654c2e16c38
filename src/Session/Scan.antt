-- ===== src/Session/Scan.antt =====
-- The scan of all machines: start_guest_intercept, called until it returns -1.
use imee.Base.{
  ℕ, suc, ◌≤◌, ◌≡◌, refl, true, false, none, some, List, [], ◌∷◌, if◌then◌else◌, sym, ap, ◌∙◌,
  length, All, Option-cases, inl, inr,
}
use imee.Ept.{IntroCtx}
use imee.Context.{get_next_ctx}
use imee.Context.Visit.{picks, unvisited, picks-all}
use imee.Session.{Session, Answer, start_guest_intercept}
use imee.Session.Start.{answers, start-runs, start-none}

-- The machines scanned, one call for each answer.
unfoldable pub scan : List Answer → Session → List ℕ
scan [] s = []
scan (a ∷ rest) s =
    let later = scan rest (start_guest_intercept a s).1 in
    if (start_guest_intercept a s).0
    then (start_guest_intercept a s).1.current_target ∷ later
    else []

scan-stop :
    (a : Answer) (rest : List Answer) (s : Session)
    → (start_guest_intercept a s).0 ≡ false
    → scan (a ∷ rest) s ≡ []
unfolding scan
scan-stop a rest s e = rw (e, scan)

scan-next :
    (a : Answer) (rest : List Answer) (s : Session)
    → (start_guest_intercept a s).0 ≡ true
    → scan (a ∷ rest) s
      ≡ (start_guest_intercept a s).1.current_target ∷ scan rest (start_guest_intercept a s).1
unfolding scan
scan-next a rest s e = rw (e, scan)

picks-stop : (n : ℕ) (cs : List IntroCtx) → get_next_ctx cs ≡ none → picks (suc n) cs ≡ []
unfolding picks
picks-stop n cs e = rw (e, picks)

picks-next :
    (n : ℕ) (cs cs' : List IntroCtx) (next : IntroCtx)
    → get_next_ctx cs ≡ some (next, cs')
    → picks (suc n) cs ≡ next.kvm ∷ picks n cs'
unfolding picks
picks-next n cs cs' next e = rw (e, picks)

scan-picks :
    (ans : List Answer) (s : Session)
    → All ans (λ a. answers a ≡ true)
    → scan ans s ≡ picks (length ans) s.contexts
unfolding scan picks
scan-picks [] s all = refl
scan-picks (a ∷ rest) s all = elim (Option-cases (get_next_ctx s.contexts)) [
  | inl e ↦ scan-stop a rest s (start-none a s 0 e).0 ∙ sym (picks-stop (length rest) s.contexts e)
  | inr ((next, ctxs), e) ↦
      let r = start-runs a s next ctxs 0 e in
      scan-next a rest s (r.0 ∙ all.0)
      ∙ ap (λ x. x ∷ scan rest (start_guest_intercept a s).1) r.3
      ∙ ap (λ xs. next.kvm ∷ xs)
          (scan-picks rest (start_guest_intercept a s).1 all.1
            ∙ ap (λ cs. picks (length rest) cs) r.1)
      ∙ sym (picks-next (length rest) s.contexts ctxs next e)
]

-- When the guest answers every call in time and with a page table root that is not 0, and there are
-- as many calls as contexts that were not visited at least, then the calls scan the machines of
-- these contexts, each once and in the order of the list, and no other.
pub scan-all :
    (ans : List Answer) (s : Session)
    → All ans (λ a. answers a ≡ true)
    → length (unvisited s.contexts) ≤ length ans
    → scan ans s ≡ unvisited s.contexts
scan-all ans s all enough = scan-picks ans s all ∙ picks-all (length ans) s.contexts enough
