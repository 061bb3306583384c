-- ===== src/Dispatch.antt =====
-- The event loop of core/src/app.rs: the commands of the node's own program (`App::handle_cmd`), the
-- events of the network (`App::handle_swarm_event`, `App::handle_agent_event`) and the table of
-- requests that wait for a response. What the loop does to the network and to the programs that
-- wait is the list of its effects, in order. Log lines and the events that are only logged or
-- skipped are one event, `ignored`.
pub mod Pending
pub mod Senders
pub mod Commands
pub mod Answered
pub mod Calls
pub mod Reachable
use puppypeer.Prelude.{
  ℕ, String, Bool, true, false, not, ◌==◌, Option, none, some, List, [], ◌∷◌, ◌++◌, retain, Text,
  Result, ok, err, if◌then◌else◌,
}
use puppypeer.State.{
  State, PeerId, Multiaddr, ConnectionId, peer_discovered, peer_expired, permissions_for_peer,
}
use puppypeer.Os.{Os}
use puppypeer.Files.{read_file as read_from}
use puppypeer.Wire.{DirEntry, PeerReq, list_dir, read_file, list_cpus, list_permissions, PeerRes}
use puppypeer.Node.{Node, handle_puppy_peer_req, answer}
use puppypeer.Node.Entries.{Host, collect_dir_entries}
use Pending.{
  Sender, RequestId, PendingRequest, await_entries, await_cpus, await_permissions, await_chunk,
  Answer, entries_result, cpus_result, permissions_result, chunk_result, Pendings, lookup, remove,
  put, complete, fail,
}

-- `Command`, with the fields of `ReadFileCmd`.
pub data Command : Type 0 where
  connect : PeerId → Multiaddr → Command
  list_dir_cmd : PeerId → Text → Sender → Command
  list_cpus_cmd : Sender → PeerId → Command
  list_permissions_cmd : PeerId → Sender → Command
  read_file_cmd : PeerId → Text → ℕ → Option ℕ → Sender → Command

-- The events of the swarm that the handlers act on.
pub data Event : Type 0 where
  request : ℕ → PeerId → PeerReq → Event
  response : RequestId → PeerRes → Event
  outbound_failure : RequestId → String → Event
  discovered expired : List (PeerId × Multiaddr) → Event
  connection_established connection_closed : PeerId → ConnectionId → Event
  ignored : Event

pub data Effect : Type 0 where
  dialed : Multiaddr → Effect
  requested : RequestId → PeerId → PeerReq → Effect
  responded : ℕ → PeerRes → Effect
  resolved : Sender → Answer → Effect

-- What the swarm does while one input is handled: the id that `send_request` returns, and how `dial`
-- ends.
pub record Net : Type 0 where
  pub request_id : RequestId
  pub dial : Multiaddr → Result (Unit {0})

pub record App (D : Type 0) : Type 0 where
  pub node : Node D
  pub pending_requests : Pendings

-- A handler returns, or panics.
pub data Ran (D : Type 0) : Type 0 where
  ran : App D → List Effect → Ran D
  crashed : Ran D

pub data Input : Type 0 where
  command : Command → Input
  event : Event → Input

-- With the text of a `PoisonError`.
abbrev pub poison_message : String
poison_message = "state lock poisoned: poisoned lock: another task failed inside"

abbrev pub is_ok : Result (Unit {0}) → Bool
is_ok (ok u) = true
is_ok (err e) = false

-- `prev.fail(…)` on what `insert` replaced.
abbrev pub replaced : String → Option PendingRequest → List Effect
replaced message none = []
replaced message (some p) = resolved (fail p message).0 (fail p message).1 ∷ []

-- `if let Some(pending)`
abbrev pub on_found :
    (PendingRequest → Sender × Answer) → Option PendingRequest → Option (Sender × Answer)
on_found f none = none
on_found f (some p) = some (f p)

unfoldable pub discover_all : State → List (PeerId × Multiaddr) → State
discover_all s [] = s
discover_all s ((peer_id, multiaddr) ∷ items) =
    discover_all (peer_discovered s peer_id multiaddr) items

unfoldable pub expire_all : State → List (PeerId × Multiaddr) → State
expire_all s [] = s
expire_all s ((peer_id, multiaddr) ∷ items) = expire_all (peer_expired s peer_id multiaddr) items

abbrev pub connected : PeerId → ConnectionId → State → State
connected peer id s = record s {
  connections = s.connections ++ record { peer_id = peer; connection_id = id } ∷ [];
}

abbrev pub disconnected : ConnectionId → State → State
disconnected id s = record s {
  connections = retain (λ c. not (c.connection_id == id)) s.connections;
}

-- `dial(multiaddr).unwrap()` for each of them: the effects, or nothing where one panics.
unfoldable pub dial_all :
    (Multiaddr → Result (Unit {0})) → List (PeerId × Multiaddr) → Option (List Effect)
dial_all dial [] = some []
dial_all dial ((peer_id, multiaddr) ∷ items) =
    let rest = dial_all dial items in
    if is_ok (dial multiaddr)
    then elim rest [ none ↦ none | some effects ↦ some (dialed multiaddr ∷ effects) ]
    else none

module _ {D : Type 0} where
  -- `if let Ok(mut state) = self.state.lock()`
  abbrev pub with_state : (State → State) → App D → App D
  with_state f app =
      if app.node.poisoned
      then app
      else record app { node = record app.node { state = f app.node.state } }

  abbrev pub after_dials : App D → Option (List Effect) → Ran D
  after_dials app none = crashed
  after_dials app (some effects) = ran app effects

  abbrev pub settle : App D → RequestId → Option (Sender × Answer) → Ran D
  settle app id none = ran app []
  settle app id (some (tx, a)) =
      ran (record app { pending_requests = remove id app.pending_requests }) (resolved tx a ∷ [])

  abbrev pub send_response : App D → ℕ → Node D → Option PeerRes → Ran D
  send_response app channel n none = crashed
  send_response app channel n (some res) =
      ran (record app { node = n }) (responded channel res ∷ [])

  -- `send_request` and `pending_requests.insert`.
  abbrev pub send_request : App D → Net → PeerId → PeerReq → PendingRequest → List Effect → Ran D
  send_request app net peer req p effects =
      ran (record app { pending_requests = put net.request_id p app.pending_requests })
        (requested net.request_id peer req ∷ effects)

  -- Whether a command is about this node: with a poisoned lock `unwrap_or(false)` says no.
  abbrev pub is_self : App D → PeerId → Bool
  is_self app peer = if app.node.poisoned then false else app.node.state.me == peer

module _ (host : Host) where
  open host use {os, cpu_info}
  open os use {Disk}

  -- The arm of a request of a peer.
  unfoldable pub handle_request : App Disk → ℕ → PeerId → PeerReq → Ran Disk
  handle_request app channel peer req =
      let (outcome, n) = handle_puppy_peer_req host app.node peer req in
      send_response app channel n (answer host outcome)

  abbrev pub listed_here : App Disk → Sender → Option (Result (List DirEntry)) → Ran Disk
  listed_here app tx none = crashed
  listed_here app tx (some r) = ran app (resolved tx (entries_result r) ∷ [])

  unfoldable pub list_dir_here : App Disk → Net → PeerId → Text → Sender → Ran Disk
  list_dir_here app net peer path tx =
      if is_self app peer
      then listed_here app tx (collect_dir_entries host path app.node.disk)
      else send_request app net peer (list_dir path) (await_entries tx) (
          replaced "pending ListDir request was replaced"
            (lookup net.request_id app.pending_requests))

  unfoldable pub list_cpus_here : App Disk → Net → Sender → PeerId → Ran Disk
  list_cpus_here app net tx peer =
      if app.node.poisoned
      then crashed
      else if app.node.state.me == peer
      then ran app (resolved tx (cpus_result (ok cpu_info)) ∷ [])
      else send_request app net peer list_cpus (await_cpus tx) []

  unfoldable pub list_permissions_here : App Disk → Net → PeerId → Sender → Ran Disk
  list_permissions_here app net peer tx =
      if app.node.poisoned
      then ran app (resolved tx (permissions_result (err poison_message)) ∷ [])
      else if app.node.state.me == peer
      then ran app
          (resolved tx (permissions_result (ok (permissions_for_peer app.node.state peer))) ∷ [])
      else send_request app net peer list_permissions (await_permissions tx) (
          replaced "pending ListPermissions request was replaced"
            (lookup net.request_id app.pending_requests))

  unfoldable pub read_file_here : App Disk → Net → PeerId → Text → ℕ → Option ℕ → Sender → Ran Disk
  read_file_here app net peer path offset length tx =
      if app.node.poisoned
      then crashed
      else if app.node.state.me == peer
      then ran app (resolved tx (chunk_result (read_from os path offset length app.node.disk)) ∷ [])
      else send_request app net peer (read_file path offset length) (await_chunk tx) []

  -- A failed `dial` is logged.
  unfoldable pub handle_cmd : App Disk → Net → Command → Ran Disk
  unfolding list_dir_here list_cpus_here list_permissions_here read_file_here
  handle_cmd app net (connect peer addr) = ran app (dialed addr ∷ [])
  handle_cmd app net (list_dir_cmd peer path tx) = list_dir_here app net peer path tx
  handle_cmd app net (list_cpus_cmd tx peer) = list_cpus_here app net tx peer
  handle_cmd app net (list_permissions_cmd peer tx) = list_permissions_here app net peer tx
  handle_cmd app net (read_file_cmd peer path offset length tx) =
      read_file_here app net peer path offset length tx

-- `debug` is the derived `{:?}` of a response.
module _ (host : Host) (debug : PeerRes → String) where
  open host use {os}
  open os use {Disk}

  unfoldable pub handle_event : App Disk → Net → Event → Ran Disk
  unfolding handle_request discover_all expire_all dial_all
  handle_event app net (request channel peer req) = handle_request host app channel peer req
  handle_event app net (response id res) =
      settle app id (on_found (λ p. complete debug p res) (lookup id app.pending_requests))
  handle_event app net (outbound_failure id message) =
      settle app id (on_found (λ p. fail p message) (lookup id app.pending_requests))
  handle_event app net (discovered items) =
      after_dials (with_state (λ s. discover_all s items) app) (dial_all net.dial items)
  handle_event app net (expired items) = ran (with_state (λ s. expire_all s items) app) []
  handle_event app net (connection_established peer id) =
      ran (with_state (connected peer id) app) []
  handle_event app net (connection_closed peer id) = ran (with_state (disconnected id) app) []
  handle_event app net ignored = ran app []

  -- `App::run`, once.
  unfoldable pub step : App Disk → Net → Input → Ran Disk
  unfolding handle_cmd handle_event
  step app net (command cmd) = handle_cmd host app net cmd
  step app net (event e) = handle_event app net e

  -- The loop of `PuppyPeer::new` over a sequence of inputs, with what the effects came to; a panic
  -- ends the task.
  unfoldable pub run_all : App Disk → List (Net × Input) → Ran Disk
  unfolding step
  run_all app [] = ran app []
  run_all app ((net, input) ∷ inputs) = elim (step app net input) [
    | crashed ↦ crashed
    | ran app' effects ↦ elim (run_all app' inputs) [
      | crashed ↦ crashed
      | ran final rest ↦ ran final (effects ++ rest)
    ]
  ]
