-- ===== src/Tools/Tasks.antt =====
-- The walk over the guest's list of tasks in main of scan_tool_sync/src/pidlist.c, over a reply to
-- each request.
use imee.Base.{
  ℕ, zero, suc, ◌+◌, ◌*◌, ◌-◌, ◌^◌, ◌<◌, ◌≤◌, ◌≡◌, ◌≢◌, refl, ap, ◌∙◌, ◌==◌, if◌then◌else◌, arith,
  Option, some, none, List, [], ◌∷◌, ◌++◌, map,
}
use imee.Agent.Machine.{w32}

-- init_task, ts_tasks and ts_pid of util.h
abbrev pub init_task : ℕ
init_task = 0xc17d_3fe0

abbrev pub ts_tasks : ℕ
ts_tasks = 0x1bc

abbrev pub ts_pid : ℕ
ts_pid = 0x20c

-- `malloc(4096 * 2)` in words
abbrev pub res_words : ℕ
res_words = 2048

-- The numbers from `i` on.
abbrev pub range_from : ℕ → ℕ → List ℕ
range_from i zero = []
range_from i (suc n) = i ∷ range_from (suc i) n

same_range : (i a b : ℕ) → a ≡ b → range_from i a ≡ range_from i b
same_range i a b e = ap (range_from i) e

range_from-append :
    (i m n j : ℕ) → j ≡ i + m → range_from i m ++ range_from j n ≡ range_from i (m + n)
range_from-append i zero n j e =
    ap (λ x. range_from x n) {x = j} {y = i} (omega (arith, e))
    ∙ same_range i n (0 + n) (omega arith)
range_from-append i (suc m) n j e =
    ap (λ r. i ∷ r) (range_from-append (suc i) m n j (omega (arith, e)))
    ∙ same_range i (suc (m + n)) (suc m + n) (omega arith)

map-append :
    (xs ys : List (ℕ × ℕ)) → map (λ w. w.0) (xs ++ ys) ≡ map (λ w. w.0) xs ++ map (λ w. w.0) ys
map-append [] ys = refl
map-append (x ∷ xs) ys = ap (λ r. x.0 ∷ r) (map-append xs ys)

module _ (ask : ℕ → ℕ) where
  -- queue[3] - ts_tasks
  abbrev pub next_task : ℕ → ℕ
  next_task cur = w32 (ask (w32 (cur + ts_tasks)) + 2 ^ 32 - ts_tasks)

  -- The do-while loop on fuel: the stores `res_buffer[i] = v`, in order, and the next `i`; `none` is
  -- a loop that is still going.
  unfoldable pub walk_tasks : ℕ → ℕ → ℕ → Option (List (ℕ × ℕ) × ℕ)
  walk_tasks zero cur i = none
  walk_tasks (suc n) cur i =
      let rest = walk_tasks n (next_task cur) (i + 1) in
      if next_task cur == init_task
      then some ((i, ask (w32 (cur + ts_pid))) ∷ [], i + 1)
      else elim rest [
        | none ↦ none
        | some (writes, i') ↦ some ((i, ask (w32 (cur + ts_pid))) ∷ writes, i')
      ]

  -- for (; c < 10000; c ++), with `n` rounds to go. Every walk starts at init_task, which is where
  -- the one before has ended, and `i` goes on.
  unfoldable pub walk_rounds : ℕ → ℕ → ℕ → Option (List (ℕ × ℕ) × ℕ)
  unfolding walk_tasks
  walk_rounds fuel zero i = some ([], i)
  walk_rounds fuel (suc n) i = elim (walk_tasks fuel init_task i) [
    | none ↦ none
    | some (writes, i') ↦ elim (walk_rounds fuel n i') [
      | none ↦ none
      | some (more, i'') ↦ some (writes ++ more, i'')
    ]
  ]

  -- The task after `j` links.
  abbrev pub task : ℕ → ℕ
  task zero = init_task
  task (suc j) = next_task (task j)

  -- What is to be stored for `d` tasks from the `j`-th on.
  abbrev pub visits : ℕ → ℕ → ℕ → List (ℕ × ℕ)
  visits zero j i = []
  visits (suc d) j i = (i, ask (w32 (task j + ts_pid))) ∷ visits d (suc j) (suc i)

  same_task : (a b : ℕ) → a ≡ b → task a ≡ task b
  same_task a b e = ap task e

  walk-visits :
      (d fuel j i : ℕ)
      → d < fuel
      → task (j + suc d) ≡ init_task
      → ((m : ℕ) → m < d → task (suc (j + m)) ≢ init_task)
      → walk_tasks fuel (task j) i ≡ some (visits (suc d) j i, i + suc d)
  unfolding walk_tasks
  walk-visits d zero j i lt ends before = absurd (omega (arith, lt))
  walk-visits zero (suc fuel) j i lt ends before =
      let back : next_task (task j) ≡ init_task = same_task (suc j) (j + 1) (omega arith) ∙ ends in
      ground (arith, back)
  walk-visits (suc d) (suc fuel) j i lt ends before =
      let on : next_task (task j) ≢ init_task =
        λ e. before 0 (omega arith) (same_task (suc (j + 0)) (suc j) (omega arith) ∙ e) in
      let rest =
        walk-visits d fuel (suc j) (i + 1) (omega (arith, lt))
          (same_task (suc j + suc d) (j + suc (suc d)) (omega arith) ∙ ends)
          (λ m h e.
            before (suc m) (omega (arith, h))
              (same_task (suc (j + suc m)) (suc (suc j + m)) (omega arith) ∙ e)) in
      ground (arith, on, rest)

  -- If the list of tasks is a ring of `n` tasks through init_task, and with fuel for `n` rounds of
  -- the do-while loop, one walk visits each task of the ring once, in the order of the links: it
  -- stores their numbers from place `i` on, and leaves `i` behind the last one.
  pub walk_tasks-visits :
      (n fuel i : ℕ)
      → 0 < n
      → n ≤ fuel
      → task n ≡ init_task
      → ((m : ℕ) → 0 < m → m < n → task m ≢ init_task)
      → walk_tasks fuel init_task i ≡ some (visits n 0 i, i + n)
  walk_tasks-visits zero fuel i pos le ends before = absurd (omega (arith, pos))
  walk_tasks-visits (suc d) fuel i pos le ends before =
      walk-visits d fuel 0 i (omega (arith, le))
        (same_task (0 + suc d) (suc d) (omega arith) ∙ ends)
        (λ m h e.
          before (suc m) (omega arith) (omega (arith, h))
            (same_task (suc m) (suc (0 + m)) (omega arith) ∙ e))

  visits-range : (d j i : ℕ) → map (λ w. w.0) (visits d j i) ≡ range_from i d
  visits-range zero j i = refl
  visits-range (suc d) j i = ap (λ r. i ∷ r) (visits-range d (suc j) (suc i))

  module _ (n fuel : ℕ) (pos : 0 < n) (le : n ≤ fuel) (ends : task n ≡ init_task)
      (before : (m : ℕ) → 0 < m → m < n → task m ≢ init_task) where
    rounds-range :
        (c i : ℕ)
        → (writes : List (ℕ × ℕ)) × (walk_rounds fuel c i ≡ some (writes, i + c * n))
          × (map (λ w. w.0) writes ≡ range_from i (c * n))
    unfolding walk_rounds
    rounds-range zero i = (
      [],
      ap (λ x. some ([], x)) {x = i} {y = i + 0 * n} (omega arith),
      same_range i 0 (0 * n) (omega arith),
    )
    rounds-range (suc c) i =
        let (more, runs, range) = rounds-range c (i + n) in
        (
          visits n 0 i ++ more,
          rw (walk_tasks-visits n fuel i pos le ends before, runs, walk_rounds)
              (ap (λ x. some (visits n 0 i ++ more, x)) (omega arith)),
          map-append (visits n 0 i) more
              ∙ ap (λ r. r ++ map (λ w. w.0) more) (visits-range n 0 i)
              ∙ ap (λ r. range_from i n ++ r) range
              ∙ range_from-append i n (c * n) (i + n) refl
              ∙ same_range i (n + c * n) (suc c * n) (omega arith),
        )

    -- If the list of tasks is a ring of `n` tasks, the 10000 rounds store at every place below
    -- 10000 * n in turn: the places from 2048 on lie behind the end of res_buffer.
    pub walk_rounds-overflows :
        (writes : List (ℕ × ℕ)) × (walk_rounds fuel 10000 0 ≡ some (writes, 10000 * n))
        × (map (λ w. w.0) writes ≡ range_from 0 (10000 * n))
        × (res_words < 10000 * n)
    walk_rounds-overflows =
        let (writes, runs, range) = rounds-range 10000 0 in
        (writes, runs ∙ ap (λ x. some (writes, x)) (omega arith), range, omega (arith, pos))
