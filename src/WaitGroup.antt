-- ===== src/WaitGroup.antt =====
-- core/src/wait_group.rs: a counter of tasks that one waiter waits for. Threads call its methods at
-- once: a method is the sequence of its atomic actions, between which those of other threads may
-- come. The group counts the threads that stand between two actions of a method.
pub mod Wakeups
use puppypeer.Prelude.{
  ℕ, zero, suc, ◌+◌, ◌-◌, ◌^◌, ◌%◌, Bool, true, false, ◌&&◌, ◌==◌, List, [], ◌∷◌, if◌then◌else◌,
}

-- `usize` on a 64-bit machine.
abbrev pub usize_mod : ℕ
usize_mod = 2 ^ 64

-- Where `WaitFuture::poll` stands: before its first load, after it, after the registration, returned
-- with `Pending`, and returned with `Ready`.
pub data Phase : Type 0 where
  polling loaded registered asleep ready : Phase

-- `waker` says whether a waker is registered, `notified` whether the task was woken; `taking` threads
-- are to take the waker, `waking` threads are to wake, and `panics` threads have panicked.
pub record Group : Type 0 where
  pub counter : ℕ
  pub waker : Bool
  pub notified : Bool
  pub taking : ℕ
  pub waking : ℕ
  pub panics : ℕ
  pub phase : Phase

-- `WaitGroup::new`, and a future that is polled.
abbrev pub new : Group
new = record {
  counter = 0;
  waker = false;
  notified = false;
  taking = 0;
  waking = 0;
  panics = 0;
  phase = polling;
}

-- `add`: `fetch_add`, then, on a counter that was zero, `take`.
unfoldable pub add_fetch : ℕ → Group → Group
add_fetch n g = record g {
  counter = (g.counter + n) % usize_mod;
  taking = if g.counter == 0 then suc g.taking else g.taking;
}

unfoldable pub add_take : Group → Group
add_take g = if g.taking == 0 then g else record g { taking = g.taking - 1; waker = false }

-- `done`: `fetch_sub`, which wraps, the assertion, and, on a counter that was one, `wake`.
unfoldable pub done_fetch : Group → Group
done_fetch g = record g {
  counter = if g.counter == 0 then usize_mod - 1 else g.counter - 1;
  panics = if g.counter == 0 then suc g.panics else g.panics;
  waking = if g.counter == 1 then suc g.waking else g.waking;
}

-- `AtomicWaker::wake` takes the waker and wakes its task.
unfoldable pub done_wake : Group → Group
done_wake g =
    if g.waking == 0
    then g
    else if g.waker
    then record g { waking = g.waking - 1; waker = false; notified = true }
    else record g { waking = g.waking - 1 }

abbrev pub poll_from : Phase → Group → Group
poll_from polling g = record g { phase = if g.counter == 0 then ready else loaded }
poll_from loaded g = record g { waker = true; phase = registered }
poll_from registered g = record g { phase = if g.counter == 0 then ready else asleep }
poll_from asleep g = if g.notified then record g { notified = false; phase = polling } else g
poll_from ready g = g

-- The next action of `poll`. An executor polls a task again once it was woken.
unfoldable pub poll : Group → Group
poll g = poll_from g.phase g

pub data Action : Type 0 where
  adds : ℕ → Action
  takes finishes wakes polls : Action

unfoldable pub act : Action → Group → Group
unfolding add_fetch add_take done_fetch done_wake poll
act (adds n) g = add_fetch n g
act takes g = add_take g
act finishes g = done_fetch g
act wakes g = done_wake g
act polls g = poll g

unfoldable pub acts : List Action → Group → Group
unfolding act
acts [] g = g
acts (a ∷ rest) g = acts rest (act a g)
