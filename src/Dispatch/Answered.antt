-- ===== src/Dispatch/Answered.antt =====
-- Who is answered by the event loop of core/src/app.rs: every sender that a command brings is
-- answered once, or its request still waits.
use mathlib.Core.Path.{subst}
use puppypeer.Prelude.{
  ℕ, ◌+◌, ◌≡◌, ◌≢◌, ◌⊎◌, refl, String, none, some, List, [], Option, ◌∷◌, All, Distinct,
  Option-cases, inl, inr, arith,
}
use puppypeer.State.{State, PeerId, Multiaddr}
use puppypeer.Wire.{PeerRes}
use puppypeer.Node.{Node}
use puppypeer.Node.Entries.{Host}
use puppypeer.Dispatch.Pending.{Sender, RequestId, Pendings}
use puppypeer.Dispatch.{
  Event, request, response, outbound_failure, discovered, expired, connection_established,
  connection_closed, ignored, Effect, Net, App, Ran, ran, crashed, Input, command, event, dial_all,
  discover_all, handle_request, handle_event, step, run_all, with_state, after_dials, expire_all,
  connected, disconnected, send_response, responded,
}
use puppypeer.Dispatch.Commands.{handle_cmd-Accounts}
use puppypeer.Dispatch.Senders.{
  waiting, answered, brings, brought, IsUnused, IsKeyed, Accounts, dial_all-answered,
  complete-sender, fail-sender, answered-append, settle-Accounts, quiet-Accounts,
}

Ran-cases :
    {D : Type 0} (r : Ran D)
    → (r ≡ crashed) ⊎ ((app : App D) × (es : List Effect) × (r ≡ ran app es))
Ran-cases crashed = inl refl
Ran-cases (ran app es) = inr (app, es, refl)

module _ (host : Host) (debug : PeerRes → String) where
  open host use {os}
  open os use {Disk}

  module _ (app : App Disk) (keyed : IsKeyed app.pending_requests) (net : Net)
      (unused : IsUnused net.request_id app.pending_requests) where
    with_state_same :
        (f : State → State) → (with_state f app).pending_requests ≡ app.pending_requests
    with_state_same f = ground arith

    stateful :
        (input : Input)
        → ((tx : Sender) → brings tx input ≡ 0)
        → (f : State → State) → Accounts app net.request_id input (ran (with_state f app) [])
    stateful input b f =
        quiet-Accounts app keyed (with_state f app) [] net.request_id input (with_state_same f) b
          (λ s. refl)

    respond-Accounts :
        (input : Input) (channel : ℕ) (n : Node Disk) (res : Option PeerRes)
        → ((tx : Sender) → brings tx input ≡ 0)
        → Accounts app net.request_id input (send_response app channel n res)
    respond-Accounts input channel n none b = tt
    respond-Accounts input channel n (some res) b =
        quiet-Accounts app keyed (record app { node = n }) (responded channel res ∷ [])
          net.request_id input refl b (λ s. refl)

    discovered-Accounts :
        (items : List (PeerId × Multiaddr)) (app' : App Disk)
        → app'.pending_requests ≡ app.pending_requests
        → Accounts app net.request_id
            (event (discovered items))
            (after_dials app' (dial_all net.dial items))
    discovered-Accounts items app' same = elim (Option-cases (dial_all net.dial items)) [
      | inl e ↦ rw e tt
      | inr (es, e) ↦ rw e (
          quiet-Accounts app keyed app' es net.request_id (event (discovered items)) same
            (λ s. refl) (λ s. dial_all-answered s net.dial items es e))
    ]

    handle_event-Accounts :
        (e : Event) → Accounts app net.request_id (event e) (handle_event host debug app net e)
    unfolding handle_event
    handle_event-Accounts (request channel peer req) =
        unfold handle_request in
        respond-Accounts (event (request channel peer req)) channel _ _ (λ s. refl)
    handle_event-Accounts (response id res) =
        settle-Accounts app keyed net.request_id id (event (response id res)) _ (λ s. refl)
          (λ p. complete-sender debug p res)
    handle_event-Accounts (outbound_failure id m) =
        settle-Accounts app keyed net.request_id id (event (outbound_failure id m)) _ (λ s. refl)
          (λ p. fail-sender p m)
    handle_event-Accounts (discovered items) =
        discovered-Accounts items _ (with_state_same (λ s. discover_all s items))
    handle_event-Accounts (expired items) =
        stateful (event (expired items)) (λ s. refl) (λ s. expire_all s items)
    handle_event-Accounts (connection_established peer id) =
        stateful (event (connection_established peer id)) (λ s. refl) (connected peer id)
    handle_event-Accounts (connection_closed peer id) =
        stateful (event (connection_closed peer id)) (λ s. refl) (disconnected id)
    handle_event-Accounts ignored =
        quiet-Accounts app keyed app [] net.request_id (event ignored) refl (λ s. refl) (λ s. refl)

    pub step-Accounts :
        (input : Input) → Accounts app net.request_id input (step host debug app net input)
    unfolding step
    step-Accounts (command cmd) = handle_cmd-Accounts host app keyed net unused cmd
    step-Accounts (event e) = handle_event-Accounts e

  -- The ids that the swarm gives out over the inputs are distinct, and none is in use.
  abbrev pub HasFreshIds : List (Net × Input) → Pendings → Type 0
  HasFreshIds inputs ps =
      Distinct (λ i. i.0.request_id) inputs × All (λ i. IsUnused i.0.request_id ps) inputs

  fresh_after :
      (ps qs : Pendings) (id : RequestId) (inputs : List (Net × Input))
      → ((k : RequestId) → k ≢ id → IsUnused k ps → IsUnused k qs)
      → All (λ i. i.0.request_id ≢ id) inputs
      → All (λ i. IsUnused i.0.request_id ps) inputs
      → All (λ i. IsUnused i.0.request_id qs) inputs
  fresh_after ps qs id [] keep d u = tt
  fresh_after ps qs id (i ∷ is) keep d u =
      (keep i.0.request_id d.0 u.0, fresh_after ps qs id is keep d.1 u.1)

  -- From a table with one request under an id, and with fresh ids from the swarm, a run that does not
  -- panic accounts for every sender: as often as commands brought it, and as it waited before, it is
  -- answered or still waits.
  pub run_all-answered :
      (tx : Sender) (app final : App Disk) (inputs : List (Net × Input)) (effects : List Effect)
      → IsKeyed app.pending_requests
      → HasFreshIds inputs app.pending_requests
      → run_all host debug app inputs ≡ ran final effects
      → answered tx effects + waiting tx final.pending_requests
        ≡ brought tx inputs + waiting tx app.pending_requests
  unfolding run_all
  run_all-answered tx app final [] effects keyed fresh h = ground arith
  run_all-answered tx app final ((net, input) ∷ inputs) effects keyed fresh h =
      let now = step-Accounts app keyed net fresh.1.0 input in
      elim (Ran-cases (step host debug app net input)) [
        | inl e ↦ absurd (ground arith)
        | inr (app', es, e) ↦
            let acc = subst (Accounts app net.request_id input) e now in
            elim (Ran-cases (run_all host debug app' inputs)) [
              | inl x ↦ absurd (ground arith)
              | inr (end, rest, x) ↦ ground (
                arith,
                run_all-answered tx app' end inputs rest acc.1
                    (
                      fresh.0.1,
                      fresh_after app.pending_requests app'.pending_requests net.request_id inputs
                          acc.2 fresh.0.0 fresh.1.1,
                    )
                    x,
                acc.0 tx,
                answered-append tx es rest,
              )
            ]
      ]
