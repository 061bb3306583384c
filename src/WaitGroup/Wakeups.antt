-- ===== src/WaitGroup/Wakeups.antt =====
-- The waiter of core/src/wait_group.rs is woken once the counter reaches zero, as long as nothing is
-- added to a counter of zero.
use puppypeer.Prelude.{
  ℕ, zero, suc, ◌+◌, ◌<◌, ◌≡◌, ◌⊎◌, inl, inr, refl, ◌∙◌, true, false, List, [], ◌∷◌, arith,
  replicate,
}
use puppypeer.WaitGroup.{
  Group, Phase, polling, loaded, registered, asleep, ready, Action, adds, takes, finishes, wakes,
  polls, act, acts, add_fetch, add_take, done_fetch, done_wake, poll, poll_from, usize_mod, new,
}

-- Additions are to a counter that is not zero, and do not overflow it.
abbrev pub IsSteady : List Action → Group → Type 0
IsSteady [] g = Unit
IsSteady (adds n ∷ rest) g =
    (0 < g.counter) × (g.counter + n < usize_mod) × IsSteady rest (act (adds n) g)
IsSteady (a ∷ rest) g = IsSteady rest (act a g)

-- A waiter that sleeps was woken, or its waker is registered and the counter is not at zero or a
-- thread is about to wake.
abbrev pub WatchedIn : Phase → Group → Type 0
WatchedIn registered g = (g.notified ≡ true) ⊎ (g.waker ≡ true)
WatchedIn asleep g = (g.notified ≡ true) ⊎ ((g.waker ≡ true) × (0 < g.counter + g.waking))
WatchedIn phase g = Unit

abbrev pub IsWatched : Group → Type 0
IsWatched g = (g.taking ≡ 0) × WatchedIn g.phase g

WatchedIn-add :
    (ph : Phase) (n : ℕ) (g : Group)
    → 0 < g.counter
    → g.counter + n < usize_mod
    → WatchedIn ph g
    → WatchedIn ph (add_fetch n g)
unfolding add_fetch
WatchedIn-add registered n g pos fits w = w
WatchedIn-add asleep n g pos fits (inl w) = inl w
WatchedIn-add asleep n g pos fits (inr w) = inr (w.0, omega arith)
WatchedIn-add ph n g pos fits w = tt

WatchedIn-done : (ph : Phase) (g : Group) → WatchedIn ph g → WatchedIn ph (done_fetch g)
unfolding done_fetch
WatchedIn-done registered g w = w
WatchedIn-done asleep g (inl w) = inl w
WatchedIn-done asleep g (inr w) = inr (w.0, ground arith)
WatchedIn-done ph g w = tt

WatchedIn-wake : (ph : Phase) (g : Group) → WatchedIn ph g → WatchedIn ph (done_wake g)
unfolding done_wake
WatchedIn-wake registered g w = ground arith
WatchedIn-wake asleep g w = ground arith
WatchedIn-wake ph g w = tt

IsWatched-poll_from :
    (ph : Phase) (g : Group) → g.phase ≡ ph → IsWatched g → IsWatched (poll_from ph g)
IsWatched-poll_from polling g e w = ground arith
IsWatched-poll_from loaded g e w = ground arith
IsWatched-poll_from registered g e w = ground arith
IsWatched-poll_from asleep g e w = ground arith
IsWatched-poll_from ready g e w = w

IsWatched-act :
    (a : Action) (rest : List Action) (g : Group)
    → IsSteady (a ∷ rest) g
    → IsWatched g
    → IsWatched (act a g) × IsSteady rest (act a g)
unfolding act
IsWatched-act (adds n) rest g s w =
    ((unfold add_fetch in ground arith, WatchedIn-add g.phase n g s.0 s.1 w.1), s.2)
IsWatched-act takes rest g s w =
    ((unfold add_take in ground arith, unfold add_take in ground arith), s)
IsWatched-act finishes rest g s w = ((w.0, WatchedIn-done g.phase g w.1), s)
IsWatched-act wakes rest g s w =
    (unfold done_wake in ground (arith, WatchedIn-wake g.phase g w.1), s)
IsWatched-act polls rest g s w = (unfold poll in IsWatched-poll_from g.phase g refl w, s)

IsWatched-acts : (l : List Action) (g : Group) → IsSteady l g → IsWatched g → IsWatched (acts l g)
unfolding acts
IsWatched-acts [] g s w = w
IsWatched-acts (a ∷ l) g s w =
    let (w', s') = IsWatched-act a l g s w in IsWatched-acts l (act a g) s' w'

-- The wakes that are in flight, carried out.
abbrev Drained : Group → Group → Type 0
Drained g h = (h.waking ≡ 0) × (h.counter ≡ g.counter) × IsWatched h

wakes_down : (k : ℕ) (g : Group) → g.waking ≡ suc k → (act wakes g).waking ≡ k
unfolding act done_wake
wakes_down k g e = ground arith

wakes_keep : (g : Group) → (act wakes g).counter ≡ g.counter
unfolding act done_wake
wakes_keep g = ground arith

drain_lem :
    (k : ℕ) (g : Group) → g.waking ≡ k → IsWatched g → Drained g (acts (replicate k wakes) g)
unfolding acts
drain_lem zero g e w = (e, refl, w)
drain_lem (suc k) g e w =
    let w' = (IsWatched-act wakes [] g tt w).0 in
    let (none_left, kept, watched) = drain_lem k (act wakes g) (wakes_down k g e) w' in
    (none_left, kept ∙ wakes_keep g, watched)

two_polls :
    (ph : Phase) (g : Group)
    → g.phase ≡ ph
    → g.counter ≡ 0
    → g.waking ≡ 0
    → IsWatched g
    → (poll (poll g)).phase ≡ ready
unfolding poll
two_polls polling g e c k w = ground arith
two_polls loaded g e c k w = ground arith
two_polls registered g e c k w = ground arith
two_polls asleep g e c k w = ground arith
two_polls ready g e c k w = ground arith

-- `n` tasks, added before the future is polled.
abbrev pub started : ℕ → Group
started n = record new { counter = n }

started-IsWatched : (n : ℕ) → IsWatched (started n)
started-IsWatched n = (refl, tt)

-- From any number of tasks, however the actions of the threads and of the waiter fall between each
-- other, if nothing is added to a counter of zero and no addition overflows: once the counter is at
-- zero, the wakes that are in flight and two further actions of the waiter let it return `Ready`.
pub acts-ready :
    (n : ℕ) (l : List Action)
    → IsSteady l (started n)
    → (acts l (started n)).counter ≡ 0
    → (poll (poll (acts (replicate (acts l (started n)).waking wakes) (acts l (started n))))).phase
      ≡ ready
acts-ready n l s c =
    let g = acts l (started n) in
    let w = IsWatched-acts l (started n) s (started-IsWatched n) in
    let (none_left, kept, watched) = drain_lem g.waking g refl w in
    two_polls _ (acts (replicate g.waking wakes) g) refl (kept ∙ c) none_left watched

-- A waiter that sleeps, was not woken and has no waker registered.
abbrev pub IsAbandoned : Group → Type 0
IsAbandoned g = (g.phase ≡ asleep) × (g.notified ≡ false) × (g.waker ≡ false)

IsAbandoned-act : (a : Action) (g : Group) → IsAbandoned g → IsAbandoned (act a g)
unfolding act add_fetch add_take done_fetch done_wake poll
IsAbandoned-act (adds n) g h = h
IsAbandoned-act takes g h = ground arith
IsAbandoned-act finishes g h = h
IsAbandoned-act wakes g h = ground arith
IsAbandoned-act polls g h = ground arith

IsAbandoned-acts : (l : List Action) (g : Group) → IsAbandoned g → IsAbandoned (acts l g)
unfolding acts
IsAbandoned-acts [] g h = h
IsAbandoned-acts (a ∷ l) g h = IsAbandoned-acts l (act a g) (IsAbandoned-act a g h)

-- An addition to a counter of zero that comes between the `fetch_sub` and the `wake` of the last
-- `done`, and that takes the waker before that `wake`, abandons a waiter that sleeps: whatever
-- happens afterwards, also when all the tasks have finished, it sleeps on.
pub add-abandons :
    (g : Group) (n : ℕ) (l : List Action)
    → g.phase ≡ asleep
    → g.notified ≡ false
    → g.counter ≡ 1
    → g.taking ≡ 0
    → (acts (finishes ∷ adds n ∷ takes ∷ wakes ∷ l) g).phase ≡ asleep
unfolding acts
add-abandons g n l p q c t =
    (IsAbandoned-acts l _ (unfold act add_fetch add_take done_fetch done_wake in ground arith)).0
