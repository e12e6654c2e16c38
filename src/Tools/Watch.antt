-- ===== src/Tools/Watch.antt =====
-- The loop of main of scan_tool_sync/src/rootkit_detector.c, which asks for one word of the guest
-- until it changes.
use imee.Base.{
  ℕ, zero, suc, ◌+◌, ◌<◌, ◌≡◌, ◌≢◌, ap, ◌∙◌, ◌==◌, if◌then◌else◌, arith, not, ◌&&◌, Option, some,
  none,
}

-- The n-th reply is `reply n`. The loop on fuel, from the c-th request on, with its variables flg
-- and last: the two words that it prints, or `none` while it goes on.
unfoldable pub watch : (ℕ → ℕ) → ℕ → ℕ → ℕ → ℕ → Option (ℕ × ℕ)
watch reply zero c flg last = none
watch reply (suc n) c flg last =
    let rest = watch reply n (c + 1) (if flg == 0 then flg + 1 else flg) (reply c) in
    if not (flg == 0) && not (last == reply c) then some (last, reply c) else rest

-- With flg set it compares each word with the one before.
watch-on :
    (reply : ℕ → ℕ) (d fuel c : ℕ)
    → d < fuel
    → ((m : ℕ) → m < d → reply (c + m) ≡ reply 0)
    → reply (c + d) ≢ reply 0
    → watch reply fuel c 1 (reply 0) ≡ some (reply 0, reply (c + d))
unfolding watch
watch-on reply d zero c lt same change = absurd (omega (arith, lt))
watch-on reply zero (suc fuel) c lt same change =
    let now : reply (c + 0) ≡ reply c = ap reply (omega arith) in ground (arith, now)
watch-on reply (suc d) (suc fuel) c lt same change =
    let now : reply c ≡ reply 0 =
      ap reply {x = c} {y = c + 0} (omega arith) ∙ same 0 (omega arith) in
    let last : reply (c + 1 + d) ≡ reply (c + suc d) = ap reply (omega arith) in
    let rest =
      watch-on reply d fuel (c + 1) (omega (arith, lt))
        (λ m h.
          ap reply {x = c + 1 + m} {y = c + suc m} (omega arith) ∙ same (suc m) (omega (arith, h)))
        (λ e. change (ap reply {x = c + suc d} {y = c + 1 + d} (omega arith) ∙ e)) in
    ground (arith, now, last, rest)

-- If the word is the same in the first `n` replies and another in the next, then with more than `n`
-- rounds of fuel the loop ends at that one, and prints the old word and the new one.
watch-changes :
    (reply : ℕ → ℕ) (n fuel : ℕ)
    → 0 < n
    → n < fuel
    → ((m : ℕ) → m < n → reply m ≡ reply 0)
    → reply n ≢ reply 0
    → watch reply fuel 0 0 0 ≡ some (reply 0, reply n)
unfolding watch
watch-changes reply zero fuel pos lt same change = absurd (omega (arith, pos))
watch-changes reply (suc n) zero pos lt same change = absurd (omega (arith, lt))
watch-changes reply (suc n) (suc fuel) pos lt same change =
    let last : reply (1 + n) ≡ reply (suc n) = ap reply (omega arith) in
    let rest =
      watch-on reply n fuel 1 (omega (arith, lt))
        (λ m h. ap reply {x = 1 + m} {y = suc m} (omega arith) ∙ same (suc m) (omega (arith, h)))
        (λ e. change (ap reply {x = suc n} {y = 1 + n} (omega arith) ∙ e)) in
    ground (arith, last, rest)
