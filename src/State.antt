-- ===== src/State.antt =====
-- core/src/state.rs: what a node knows of its peers, users and shared folders, and who may do what.
-- A `PeerId` is a byte string that is compared and copied; the model takes the number that the
-- bytes spell. `Multiaddr` and `ConnectionId` are only compared and copied too.
pub mod Access
pub mod Grants
pub mod Roster
use puppypeer.Prelude.{
  ℕ, String, Bool, true, not, ◌&&◌, ◌||◌, ◌==◌, Option, none, List, [], ◌∷◌, ◌++◌, map, any, retain,
  flat_map, Result, ok, err, if◌then◌else◌, str_eq,
}
use puppypeer.FilePath.{FilePath, starts_with}
use puppypeer.Rule.{Rule, owner, folder, FolderRule, Permission, I64, permission, allows}

abbrev pub PeerId : Type 0
PeerId = ℕ

abbrev pub Multiaddr : Type 0
Multiaddr = ℕ

abbrev pub ConnectionId : Type 0
ConnectionId = ℕ

pub record Relationship : Type 0 where
  pub src : PeerId
  pub target : PeerId
  pub rules : List Permission

pub data AuthMethod : Type 0 where
  token : String → AuthMethod
  credentials : String → String → AuthMethod

pub record Auth : Type 0 where
  pub method : AuthMethod
  pub expires_at : Option I64
  pub rules : List Rule

pub record Connection : Type 0 where
  pub peer_id : PeerId
  pub connection_id : ConnectionId

pub record DiscoveredPeer : Type 0 where
  pub peer_id : PeerId
  pub multiaddr : Multiaddr

pub record Peer : Type 0 where
  pub id : PeerId
  pub name : Option String

pub record User : Type 0 where
  pub name : String
  pub passw : String

-- `dirty_permission_targets` is a set: a list that no operation gives an element twice.
pub record State : Type 0 where
  pub me : PeerId
  pub relationships : List Relationship
  pub auths : List Auth
  pub connections : List Connection
  pub discovered_peers : List DiscoveredPeer
  pub peers : List Peer
  pub users : List User
  pub shared_folders : List FolderRule
  pub dirty_permission_targets : List PeerId

-- `State::default`, given the random id.
abbrev pub default : PeerId → State
default me = record {
  me = me;
  relationships = [];
  auths = [];
  connections = [];
  discovered_peers = [];
  peers = [];
  users = [];
  shared_folders = [];
  dirty_permission_targets = [];
}

-- `HashSet::insert`
unfoldable pub insert : PeerId → List PeerId → List PeerId
insert p ps = if any (λ q. q == p) ps then ps else p ∷ ps

-- The source's `authenticate` has an empty body.
unfoldable pub authenticate : State → PeerId → AuthMethod → State
authenticate s peer_id method = s

unfoldable pub add_shared_folder : State → FolderRule → State
add_shared_folder s rule = record s { shared_folders = s.shared_folders ++ rule ∷ [] }

abbrev pub involves : PeerId → Relationship → Bool
involves peer_id r = r.src == peer_id || r.target == peer_id

abbrev pub related_rules : PeerId → Relationship → List Permission
related_rules peer_id r = if involves peer_id r then r.rules else []

unfoldable pub permissions_for_peer : State → PeerId → List Permission
permissions_for_peer s peer_id =
    map (λ r. permission (folder r)) s.shared_folders
    ++ flat_map (related_rules peer_id) s.relationships

abbrev pub grants : PeerId → PeerId → Relationship → Bool
grants me peer_id r = r.src == me && r.target == peer_id

unfoldable pub permissions_granted_to_peer : State → PeerId → List Permission
permissions_granted_to_peer s peer_id =
    flat_map (λ r. r.rules) (retain (grants s.me peer_id) s.relationships)

-- The two loops of `has_fs_access` return `true` at the first rule that permits the access.
abbrev pub folder_permits : FilePath → ℕ → FolderRule → Bool
folder_permits path access r = starts_with path r.path && allows r access

abbrev pub rule_permits : FilePath → ℕ → Rule → Bool
rule_permits path access owner = true
rule_permits path access (folder r) = folder_permits path access r

abbrev pub permits : FilePath → ℕ → Permission → Bool
permits path access p = rule_permits path access p.rule

unfoldable pub has_fs_access : State → PeerId → FilePath → ℕ → Bool
has_fs_access s src path access =
    if src == s.me
    then true
    else if any (folder_permits path access) s.shared_folders
    then true
    else any (λ r. involves src r && any (permits path access) r.rules) s.relationships

-- The relationships between `me` and `peer_id`, in either direction, are dropped.
abbrev pub unrelated : PeerId → PeerId → Relationship → Bool
unrelated me peer_id r =
    not (r.src == me && r.target == peer_id) && not (r.src == peer_id && r.target == me)

unfoldable pub push_relationship :
    PeerId → PeerId → List Permission → List Relationship → List Relationship
push_relationship me peer_id [] rs = rs
push_relationship me peer_id (p ∷ ps) rs =
    rs ++ record { src = me; target = peer_id; rules = p ∷ ps } ∷ []

unfoldable pub set_peer_permissions_from_storage : State → PeerId → List Permission → State
unfolding push_relationship
set_peer_permissions_from_storage s peer_id permissions = record s {
  relationships =
      push_relationship s.me peer_id permissions (retain (unrelated s.me peer_id) s.relationships);
}

unfoldable pub set_peer_permissions : State → PeerId → List Permission → State
unfolding push_relationship insert
set_peer_permissions s peer_id permissions = record s {
  dirty_permission_targets = insert peer_id s.dirty_permission_targets;
  relationships =
      push_relationship s.me peer_id permissions (retain (unrelated s.me peer_id) s.relationships);
}

unfoldable pub peer_discovered : State → PeerId → Multiaddr → State
peer_discovered s peer_id multiaddr =
    if any (λ p. p.peer_id == peer_id) s.discovered_peers then s else record s {
      discovered_peers =
          s.discovered_peers ++ record { peer_id = peer_id; multiaddr = multiaddr } ∷ [];
    }

unfoldable pub peer_expired : State → PeerId → Multiaddr → State
peer_expired s peer_id multiaddr = record s {
  discovered_peers =
      retain (λ p. not (p.peer_id == peer_id && p.multiaddr == multiaddr)) s.discovered_peers;
}

unfoldable pub create_user : State → String → String → Result State
create_user s username password =
    if any (λ u. str_eq u.name username) s.users
    then err "User already exists"
    else ok (record s { users = s.users ++ record { name = username; passw = password } ∷ [] })
