-- ===== src/Storage.antt =====
-- The state and its table of permissions: `State::save_changes` of core/src/state.rs, the reading of
-- stored permissions in `App::new` and `PuppyPeer::set_peer_permissions` of core/src/app.rs.
pub mod Sync
pub mod Restore
pub mod Restart
pub mod Failure
use puppypeer.Prelude.{
  ℕ, Bool, true, false, Option, none, some, List, [], ◌∷◌, find, Result, ok, err, if◌then◌else◌,
}
use puppypeer.Rule.{Permission}
use puppypeer.State.{
  State, PeerId, Relationship, grants, set_peer_permissions, set_peer_permissions_from_storage,
}
use puppypeer.Db.{PeerCodec, Table, Stored, Faults, save_peer_permissions, load_peer_permissions}

abbrev pub rules_or_default : Option Relationship → List Permission
rules_or_default none = []
rules_or_default (some r) = r.rules

-- The rules of the first relationship from this node to the peer, or none.
unfoldable pub current_permissions : State → PeerId → List Permission
current_permissions s peer_id = rules_or_default (find (grants s.me peer_id) s.relationships)

-- Each peer's save may meet faults of its own.
abbrev pub PeerFaults : Type 0
PeerFaults = PeerId → Faults

-- The loop of `App::new`.
unfoldable pub restore_all : State → Stored → State
restore_all s [] = s
restore_all s ((target, permissions) ∷ rest) =
    restore_all (set_peer_permissions_from_storage s target permissions) rest

-- The permissions that could not be read are taken to be none.
abbrev pub or_none : Result Stored → Stored
or_none (ok st) = st
or_none (err e) = []

module _ (codec : PeerCodec) where
  -- The loop of `save_changes`, over the peers in the order in which the set yields them; the
  -- first error ends it.
  pub save_peers : PeerFaults → State → List PeerId → Table → Result (Unit {0}) × Table
  save_peers f s [] t = (ok tt, t)
  save_peers f s (p ∷ ps) t =
      let (r, t') = save_peer_permissions codec (f p) t s.me p (current_permissions s p) in
      elim r [ ok _ ↦ save_peers f s ps t' | err e ↦ (err e, t') ]

  -- The set is drained, whether or not the loop runs to its end.
  unfoldable pub save_noted :
      PeerFaults → State → List PeerId → Table → Result (Unit {0}) × State × Table
  unfolding save_peers current_permissions
  save_noted f s [] t = (ok tt, s, t)
  save_noted f s (p ∷ ps) t =
      let (r, t') = save_peers f s (p ∷ ps) t in (r, record s { dirty_permission_targets = [] }, t')

  unfoldable pub save_changes : PeerFaults → State → Table → Result (Unit {0}) × State × Table
  unfolding save_noted
  save_changes f s t = save_noted f s s.dirty_permission_targets t

  -- `PuppyPeer::set_peer_permissions`, with the lock held.
  unfoldable pub set_and_save :
      PeerFaults → State → Table → PeerId → List Permission → Result (Unit {0}) × State × Table
  set_and_save f s t peer permissions = save_changes f (set_peer_permissions s peer permissions) t

  -- `App::new`, after the migrations: the node takes its own id and what is stored for it.
  unfoldable pub start : State → PeerId → Table → State
  unfolding restore_all
  start s peer_id t =
      restore_all (record s { me = peer_id }) (or_none (load_peer_permissions codec t peer_id))
