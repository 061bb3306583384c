-- ===== src/Dispatch/Reachable.antt =====
-- The invariant of a node's state over everything in core/src/app.rs and core/src/state.rs that changes
-- it: `App::new`, the methods of the state, the saving of permissions and the events of connections.
use puppypeer.Prelude.{◌≡◌, refl, List, [], ◌∷◌}
use puppypeer.State.{State, PeerId, set_peer_permissions_from_storage, default}
use puppypeer.State.Roster.{
  IsWellFormed, Operation, operate, operate-IsWellFormed, sets_permissions_from_storage,
}
use puppypeer.Db.{PeerCodec, Table, Stored, load_peer_permissions}
use puppypeer.Storage.{PeerFaults, restore_all, or_none, save_noted, save_changes, start}
use puppypeer.Dispatch.{ConnectionId, connected, disconnected}

-- What changes the state of a node that runs. `saves_changes` meets a table and faults.
pub data NodeOperation : Type 0 where
  of_state : Operation → NodeOperation
  saves_changes : PeerFaults → Table → NodeOperation
  connects : PeerId → ConnectionId → NodeOperation
  disconnects : ConnectionId → NodeOperation

module _ (codec : PeerCodec) where
  abbrev pub run_operation : State → NodeOperation → State
  run_operation s (of_state o) = operate s o
  run_operation s (saves_changes f t) = (save_changes codec f s t).1
  run_operation s (connects p id) = connected p id s
  run_operation s (disconnects id) = disconnected id s

  abbrev pub run_operations : State → List NodeOperation → State
  run_operations s [] = s
  run_operations s (o ∷ os) = run_operations (run_operation s o) os

  save_noted-IsWellFormed :
      (f : PeerFaults) (s : State) (ps : List PeerId) (t : Table)
      → IsWellFormed s
      → IsWellFormed (save_noted codec f s ps t).1
  unfolding save_noted
  save_noted-IsWellFormed f s [] t w = w
  save_noted-IsWellFormed f s (p ∷ ps) t w = record {
    own = w.own;
    targets = w.targets;
    discovered = w.discovered;
    names = w.names;
    dirty = tt;
  }

  reconnected-IsWellFormed :
      (s s' : State)
      → IsWellFormed s
      → s' ≡ record s { connections = s'.connections }
      → IsWellFormed s'
  reconnected-IsWellFormed s s' w e = rw e (record {
    own = w.own;
    targets = w.targets;
    discovered = w.discovered;
    names = w.names;
    dirty = w.dirty;
  })

  run_operation-IsWellFormed :
      {s : State} (o : NodeOperation) → IsWellFormed s → IsWellFormed (run_operation s o)
  run_operation-IsWellFormed (of_state o) w = operate-IsWellFormed o w
  run_operation-IsWellFormed {s} (saves_changes f t) w =
      unfold save_changes in save_noted-IsWellFormed f s s.dirty_permission_targets t w
  run_operation-IsWellFormed {s} (connects p id) w =
      reconnected-IsWellFormed s (connected p id s) w refl
  run_operation-IsWellFormed {s} (disconnects id) w =
      reconnected-IsWellFormed s (disconnected id s) w refl

  run_operations-IsWellFormed :
      {s : State} (os : List NodeOperation) → IsWellFormed s → IsWellFormed (run_operations s os)
  run_operations-IsWellFormed [] w = w
  run_operations-IsWellFormed {s} (o ∷ os) w =
      run_operations-IsWellFormed {s = run_operation s o} os (run_operation-IsWellFormed o w)

  restore_all-IsWellFormed :
      {s : State} (st : Stored) → IsWellFormed s → IsWellFormed (restore_all s st)
  unfolding restore_all
  restore_all-IsWellFormed [] w = w
  restore_all-IsWellFormed {s} ((p, ps) ∷ rest) w =
      restore_all-IsWellFormed {s = set_peer_permissions_from_storage s p ps} rest
        (unfold operate in operate-IsWellFormed (sets_permissions_from_storage p ps) w)

  start-IsWellFormed :
      (random me : PeerId) (t : Table) → IsWellFormed (start codec (default random) me t)
  unfolding start
  start-IsWellFormed random me t =
      restore_all-IsWellFormed {s = default me} (or_none (load_peer_permissions codec t me))
        (record { own = tt; targets = tt; discovered = tt; names = tt; dirty = tt })

  -- A node that starts from whatever table, and whatever changes its state then, in whatever order
  -- and whether it succeeds or fails, the methods of the state, the saving of permissions, and
  -- connections that open and close: its relationships are its own, none is empty and no two are
  -- with one peer, no peer is discovered twice, no two users share a name, and no peer is noted
  -- twice for saving.
  pub reachable-IsWellFormed :
      (random me : PeerId) (t : Table) (os : List NodeOperation)
      → IsWellFormed (run_operations (start codec (default random) me t) os)
  reachable-IsWellFormed random me t os =
      run_operations-IsWellFormed os (start-IsWellFormed random me t)
