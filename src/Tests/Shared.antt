-- ===== src/Tests/Shared.antt =====
-- Witnesses for Sharing.antt: node 1 shares /srv.
use puppypeer.Prelude.{◌≡◌, refl, ◌||◌, ◌&&◌, codes, ok, arith}
use puppypeer.FilePath.{FilePath, starts_with}
use puppypeer.Rule.{allows}
use puppypeer.State.{has_fs_access, add_shared_folder}
use puppypeer.Node.{Node}
use puppypeer.Sharing.{
  share_read_only_folder, share_read_write_folder, register_shared_folder, read_write_flags,
}
use puppypeer.Sharing.Effect.{share_read_only_lem, share_read_write_lem}
use puppypeer.Tests.MemoryOs.{MemoryDisk, memory_os}
use puppypeer.Tests.Fixtures.{test_node, test_disk}

abbrev dir : FilePath
dir = codes "/srv"

abbrev inside : FilePath
inside = codes "/srv/a"

abbrev read_shared : Node MemoryDisk
read_shared = record test_node {
  state = add_shared_folder test_node.state (record { path = dir; flags = 9 });
}

abbrev write_shared : Node MemoryDisk
write_shared = record test_node {
  state = add_shared_folder test_node.state (record { path = dir; flags = 11 });
}

shares_read : share_read_only_folder memory_os test_node dir ≡ ok read_shared
unfolding share_read_only_folder register_shared_folder add_shared_folder
shares_read = refl

shares_write : share_read_write_folder memory_os test_node dir ≡ ok write_shared
unfolding share_read_write_folder register_shared_folder add_shared_folder
shares_write = refl

share_read_only_lem_example :
    (has_fs_access read_shared.state 7 inside 3 ≡ has_fs_access test_node.state 7 inside 3)
    × (read_shared.disk ≡ test_disk)
share_read_only_lem_example =
    share_read_only_lem memory_os test_node read_shared dir inside 7 3 shares_read
      (λ e. ground arith)

share_read_write_lem_example :
    (canonical : FilePath) × (memory_os.canonicalize dir test_disk ≡ ok canonical)
    × (has_fs_access write_shared.state 7 inside 3 ≡ (
        has_fs_access test_node.state 7 inside 3
        || (starts_with inside canonical
            && allows (record { path = canonical; flags = read_write_flags }) 3)))
share_read_write_lem_example =
    share_read_write_lem memory_os test_node write_shared dir inside 7 3 shares_write
