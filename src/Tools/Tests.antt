-- ===== src/Tools/Tests.antt =====
-- Runs of the tools, and the theorems at concrete values.
use imee.Base.{
  ℕ, zero, suc, ◌+◌, ◌*◌, ◌%◌, ◌^◌, ◌<◌, ◌≤◌, ◌≡◌, ◌≢◌, refl, ◌==◌, if◌then◌else◌, arith, true,
  some, none, List, map, length,
}
use imee.Agent.Machine.{Cpu, next, run}
use imee.Agent.Async.{hyp_async}
use imee.Tools.{
  Queue, entry_address, n_entries, spin, poll, System, Reach, start, later, by_tool, by_agent,
  round, zeroes, addresses, sizes, locks, passes, prints, loads, takes, fetches, reads, stores,
  releases,
}
use imee.Tools.Safety.{Reach-prints, Reach-no_race}
use imee.Tools.Progress.{Finishes, Reach-Finishes}
use imee.Tools.Refine.{AgentMoves, IsGuestWord, queue_of, hyp_async-refines}
use imee.Tools.Tasks.{
  init_task, ts_tasks, res_words, task, visits, walk_tasks, walk_rounds, range_from,
  walk_tasks-visits, walk_rounds-overflows,
}

-- The guest holds at each address the address itself.
abbrev IsSelf : ℕ → ℕ → Type 0
IsSelf a v = v ≡ a

abbrev words : Queue
words j = j + 7

abbrev requested : (s : System IsSelf) × Reach IsSelf words s
requested = (
  _,
  later
      (later
        (later
          (later
            (later (later (later start (by_tool (round (omega arith)))) (by_tool zeroes))
              (by_tool addresses))
            (by_tool sizes))
          (by_tool locks))
        (by_agent loads))
      (by_agent (takes (omega arith) (omega arith))),
)

abbrev replied : (s : System IsSelf) × Reach IsSelf words s
replied = (
  _,
  later
      (later
        (later
          (later
            (later
              (later
                (later
                  (later (later requested.1 (by_agent fetches))
                    (by_agent (reads {x = λ j. (entry_address 0 + 4 * j) % 2 ^ 32} (λ j lt. refl))))
                  (by_agent (stores (omega arith))))
                (by_agent (stores (omega arith))))
              (by_agent (stores (omega arith))))
            (by_agent (stores (omega arith))))
          (by_agent (releases (omega arith))))
        (by_tool (passes refl)))
      (by_tool prints),
)

Reach-prints_example : IsSelf (entry_address 0) 0xc158_6160 × (length replied.0.printed ≤ n_entries)
Reach-prints_example = Reach-prints IsSelf words replied.0 replied.1 0 0xc158_6160 refl

Reach-no_race_example :
    (i : ℕ) × (requested.0.tool ≡ spin i)
    × (requested.0.queue 0 ≡ 1)
    × (requested.0.queue 1 ≡ entry_address i)
Reach-no_race_example = Reach-no_race IsSelf words requested.0 requested.1 refl

Reach-Finishes_example : Finishes IsSelf replied.0
Reach-Finishes_example = Reach-Finishes IsSelf (λ a. (a, refl)) words replied.0 replied.1

-- A ring of two tasks.
abbrev ring : ℕ → ℕ
ring a = if a == init_task + ts_tasks then 0xf000_0000 + ts_tasks else init_task + ts_tasks

ring-before : (m : ℕ) → 0 < m → m < 2 → task ring m ≢ init_task
ring-before zero pos lt = absurd (omega (arith, pos))
ring-before (suc zero) pos lt = omega arith
ring-before (suc (suc m)) pos lt = absurd (omega (arith, lt))

walk_tasks-visits_example : walk_tasks ring 5 init_task 3 ≡ some (visits ring 2 0 3, 5)
walk_tasks-visits_example =
    walk_tasks-visits ring 2 5 3 (omega arith) (omega arith) refl ring-before

walk_rounds-overflows_example :
    (writes : List (ℕ × ℕ)) × (walk_rounds ring 2 10000 0 ≡ some (writes, 10000 * 2))
    × (map (λ w. w.0) writes ≡ range_from 0 (10000 * 2))
    × (res_words < 10000 * 2)
walk_rounds-overflows_example =
    walk_rounds-overflows ring 2 2 (omega arith) (omega arith) refl ring-before

-- An agent with page tables at 1, over a guest with page tables at 2, and a request for the word
-- at 0x100.
abbrev agent : Cpu
agent = record {
  pc = 4;
  regs = λ r. 2;
  xmm = λ _ _. 0;
  cr3 = 1;
  flags = none;
  backward = true;
  clock = λ i. i;
  ticks = 0;
  mem = λ root a. if root == 1 then (if a == 0 then 1 else if a == 5 then 1 else 0) else a % 251;
}

hyp_async-refines_example :
    (t : Cpu) × (run hyp_async 28 agent ≡ next t)
    × (t.pc ≡ 4)
    × AgentMoves (IsGuestWord agent) (queue_of agent) poll (queue_of t) poll
    × (queue_of t 0 ≡ 0)
hyp_async-refines_example = hyp_async-refines agent (omega arith) refl
