-- ===== src/Tests/Fixtures.antt =====
-- The states, codecs and nodes that the tests share.
use puppypeer.Prelude.{true, ◌≡◌, refl, false, none, [], ◌∷◌, codes, arith, ok, err, Result}
use puppypeer.Rule.{Permission, FolderRule, permission, folder}
use puppypeer.State.{State, PeerId, permissions_granted_to_peer}
use puppypeer.State.Roster.{IsWellFormed}
use puppypeer.Db.{PeerCodec, RoundTrips, Bytes}
use puppypeer.Db.Load.{Log, granted_by}
use puppypeer.Storage.Sync.{InSync, IsStorableState}
use puppypeer.Node.{Node}
use puppypeer.Node.Entries.{Host}
use puppypeer.Tests.MemoryOs.{MemoryDisk, memory_os, store}

abbrev pub srv : FolderRule
srv = record { path = codes "/srv"; flags = 9 }

abbrev pub pub_folder : FolderRule
pub_folder = record { path = codes "/pub"; flags = 9 }

abbrev pub drop_box : FolderRule
drop_box = record { path = codes "/box"; flags = 11 }

abbrev pub srv_permission : Permission
srv_permission = permission (folder srv)

abbrev pub box_permission : Permission
box_permission = permission (folder drop_box)

-- Node 1 shares /pub with everybody and /srv with peer 2.
abbrev pub home : State
home = record {
  me = 1;
  relationships = record { src = 1; target = 2; rules = srv_permission ∷ [] } ∷ [];
  auths = [];
  connections = [];
  discovered_peers = [];
  peers = [];
  users = [];
  shared_folders = pub_folder ∷ [];
  dirty_permission_targets = [];
}

pub home-IsWellFormed : IsWellFormed home
home-IsWellFormed = record {
  own = ((refl, λ e. cc), tt);
  targets = (tt, tt);
  discovered = tt;
  names = tt;
  dirty = tt;
}

pub home-IsStorableState : IsStorableState home
home-IsStorableState = (((omega arith, refl), tt), tt)

abbrev pub home_log : Log
home_log = record { src = 1; target = 2; permission = srv_permission } ∷ []

home_granted : (q : PeerId) → granted_by home_log 1 q ≡ permissions_granted_to_peer home q
unfolding permissions_granted_to_peer
home_granted q = ground arith

pub home-InSync : InSync home home_log
home-InSync = record { bytes = ((omega arith, refl), tt); clean = λ q h. home_granted q }

abbrev pub one_byte : Bytes → Result PeerId
one_byte (p ∷ []) = ok p
one_byte bs = err "no peer id"

abbrev pub test_codec : PeerCodec
test_codec = record { to_bytes = λ p. p ∷ []; from_bytes = one_byte }

pub test_codec-RoundTrips : RoundTrips test_codec
test_codec-RoundTrips p = refl

abbrev pub test_host : Host
test_host = record {
  os = memory_os;
  cpu_info = [];
  interface_info = [];
  mime_of = λ p. none;
  to_lowercase = λ t. t;
  holds_time = λ t. true;
}

-- The disk holds one file, /srv/a.
abbrev pub test_disk : MemoryDisk
test_disk = store (codes "/srv/a") (1 ∷ 2 ∷ 3 ∷ []) (λ p. [])

abbrev pub test_node : Node MemoryDisk
test_node = record { state = home; poisoned = false; disk = test_disk }
