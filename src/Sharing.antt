-- ===== src/Sharing.antt =====
-- The methods of `PuppyPeer` of core/src/app.rs that share a folder with every peer, and the listing of
-- what is granted to a peer.
pub mod Effect
use Prim.Native.String.{◌++◌ as str_append}
use puppypeer.Prelude.{ℕ, String, Bool, List, Text, Result, ok, err, bit_or, if◌then◌else◌}
use puppypeer.FilePath.{FilePath}
use puppypeer.Rule.{Permission, FolderRule, flag_read, flag_write, flag_search}
use puppypeer.State.{State, PeerId, add_shared_folder, permissions_granted_to_peer}
use puppypeer.Os.{Os}
use puppypeer.Node.{Node}

abbrev pub lock_poisoned : String
lock_poisoned = "state lock poisoned"

module _ {D : Type 0} where
  unfoldable pub register_shared_folder : Node D → FilePath → ℕ → Result (Node D)
  register_shared_folder n path flags =
      if n.poisoned
      then err lock_poisoned
      else ok
          (record n { state = add_shared_folder n.state (record { path = path; flags = flags }) })

  unfoldable pub list_granted_permissions : Node D → PeerId → Result (List Permission)
  list_granted_permissions n peer =
      if n.poisoned then err lock_poisoned else ok (permissions_granted_to_peer n.state peer)

abbrev pub read_only_flags : ℕ
read_only_flags = bit_or flag_read flag_search

abbrev pub read_write_flags : ℕ
read_write_flags = bit_or (bit_or flag_read flag_write) flag_search

module _ (os : Os) where
  open os use {Disk, canonicalize}

  abbrev pub share : ℕ → Node Disk → Text → Result (Node Disk)
  share flags n path = elim (canonicalize path n.disk) [
    | err e ↦ err (str_append "failed to canonicalize path: " e)
    | ok canonical ↦ register_shared_folder n canonical flags
  ]

  unfoldable pub share_read_only_folder : Node Disk → Text → Result (Node Disk)
  unfolding register_shared_folder
  share_read_only_folder n path = share read_only_flags n path

  unfoldable pub share_read_write_folder : Node Disk → Text → Result (Node Disk)
  unfolding register_shared_folder
  share_read_write_folder n path = share read_write_flags n path
