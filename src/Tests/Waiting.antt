-- ===== src/Tests/Waiting.antt =====
-- Witnesses for WaitGroup.antt.
use puppypeer.Prelude.{◌≡◌, refl, true, List, [], ◌∷◌, arith, replicate}
use puppypeer.WaitGroup.{
  Group, Action, adds, takes, finishes, wakes, polls, asleep, ready, act, acts, new, poll,
  add_fetch, done_fetch,
}
use puppypeer.WaitGroup.Wakeups.{IsSteady, started, acts-ready, add-abandons}

abbrev one_task : Group
one_task = record new { counter = 1; waker = true; phase = asleep }

-- The waiter goes to sleep on two tasks, a third is added, and all finish.
abbrev busy : List Action
busy = polls ∷ polls ∷ finishes ∷ polls ∷ adds 1 ∷ finishes ∷ finishes ∷ []

busy-counter : (acts busy (started 2)).counter ≡ 0
unfolding acts act poll done_fetch add_fetch
busy-counter = refl

busy-IsSteady : IsSteady busy (started 2)
unfolding act poll done_fetch add_fetch
busy-IsSteady = (omega arith, omega arith, tt)

acts-ready_example :
    (poll
      (poll (acts (replicate (acts busy (started 2)).waking wakes) (acts busy (started 2))))).phase
    ≡ ready
acts-ready_example = acts-ready 2 busy busy-IsSteady busy-counter

add-abandons_example :
    (acts (finishes ∷ adds 1 ∷ takes ∷ wakes ∷ finishes ∷ wakes ∷ polls ∷ []) one_task).phase
    ≡ asleep
add-abandons_example = add-abandons one_task 1 (finishes ∷ wakes ∷ polls ∷ []) refl refl refl refl
