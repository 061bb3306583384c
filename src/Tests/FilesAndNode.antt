-- ===== src/Tests/FilesAndNode.antt =====
-- Witnesses for Files.antt and Node.antt.
use mathlib.Core.Path.{subst}
use puppypeer.Prelude.{
  All, List, Result, ℕ, ◌+◌, ◌<◌, ◌≡◌, refl, false, some, [], ◌∷◌, codes, arith, ok, Text, text_eq,
}
use puppypeer.FilePath.{FilePath, starts_with}
use puppypeer.Rule.{allows}
use puppypeer.State.{has_fs_access}
use puppypeer.Files.{FileChunk, read_file, write_file, u64_mod}
use puppypeer.Files.Reading.{IsChunkOf, IsBounded, read_file_lem}
use puppypeer.Files.Writing.{splice, write_file_lem}
use puppypeer.Wire
use puppypeer.Wire.{PeerReq, PeerRes, file_chunk, user_created}
use puppypeer.Node.{done, read_file_res, can_access, handle_puppy_peer_req}
use puppypeer.Node.Confined.{MayRead, read_path, disclosed-MayRead}
use puppypeer.Os.{DirItem}
use puppypeer.Node.Outcomes.{
  IsDatedItem, IsDatedDisk, is_panic, panics, handle-panics, handle-access,
}
use puppypeer.Tests.MemoryOs.{memory_os, memory_laws}
use puppypeer.Tests.Fixtures.{test_host, test_disk, test_node}

abbrev a_file : FilePath
a_file = codes "/srv/a"

abbrev second : FileChunk
second = record { offset = 1; bytes = 2 ∷ []; eof = false }

reads : read_file memory_os a_file 1 (some 1) test_disk ≡ ok second
unfolding read_file text_eq
reads = refl

read_file_lem_example : IsChunkOf (test_disk a_file) 1 second × IsBounded (some 1) 1
read_file_lem_example = read_file_lem memory_os memory_laws a_file 1 (some 1) test_disk second reads

writes : (write_file memory_os a_file 4 (9 ∷ []) test_disk).0 ≡ ok (record { bytes_written = 1 })
unfolding write_file text_eq
writes = refl

write_file_lem_example :
    ((memory_os.settle (write_file memory_os a_file 4 (9 ∷ []) test_disk).1).1 a_file
      ≡ splice 4 (9 ∷ []) (test_disk a_file))
    × (◌≡◌ {A = ℕ} 1 1)
    × (4 + 1 < u64_mod)
write_file_lem_example =
    write_file_lem memory_os a_file 4 (9 ∷ []) memory_laws test_disk (record { bytes_written = 1 })
      refl writes refl

abbrev ask : PeerReq
ask = Wire.read_file a_file 1 (some 1)

answered : (handle_puppy_peer_req test_host test_node 2 ask).0 ≡ done (file_chunk second)
unfolding handle_puppy_peer_req read_file_res can_access has_fs_access starts_with allows read_file
    text_eq
answered = refl

disclosed-MayRead_example :
    (path : Text) × (read_path ask ≡ some path) × MayRead test_host test_node 2 path
disclosed-MayRead_example =
    disclosed-MayRead test_host test_node 2 ask (file_chunk second) answered refl

abbrev intrude : PeerReq
intrude = Wire.write_file a_file 0 (7 ∷ [])

abbrev sign_up : PeerReq
sign_up = Wire.create_user "eve" "x" [] []

empty_listing : (l : List (Result DirItem)) → ok [] ≡ ok l → [] ≡ l
empty_listing l e = ground arith

test_disk-IsDatedDisk : IsDatedDisk test_host test_disk
test_disk-IsDatedDisk = record {
  files = λ p m e. ground (arith, e);
  items = λ p l e. subst (All (IsDatedItem test_host)) (empty_listing l e) tt;
}

handle-panics_example :
    is_panic (handle_puppy_peer_req test_host test_node 2 sign_up).0 ≡ panics false sign_up
handle-panics_example = handle-panics test_host test_node 2 sign_up test_disk-IsDatedDisk

handle-access_example :
    has_fs_access (handle_puppy_peer_req test_host test_node 2 sign_up).1.state 2 a_file 9
    ≡ has_fs_access test_node.state 2 a_file 9
handle-access_example = handle-access test_host test_node 2 sign_up 2 a_file 9
