-- ===== src/Tests/Viewing.antt =====
-- Witnesses for Viewer.antt.
use puppypeer.Prelude.{
  text_eq, Bool, true, false, leb, if◌then◌else◌, ◌≡◌, refl, none, suc, length, codes, arith, ok,
}
use puppypeer.FilePath.{FilePath}
use puppypeer.Files.{FileChunk, read_file}
use puppypeer.Viewer.{load, new_viewer}
use puppypeer.Viewer.Loading.{IsComplete, AlwaysReads, fetch_from, load_lem}
use puppypeer.Tests.MemoryOs.{memory_os, memory_laws}
use puppypeer.Tests.Fixtures.{test_disk}

abbrev viewed : FilePath
viewed = codes "/srv/a"

either_reads :
    (b : Bool) (x y : FileChunk) → (chunk : FileChunk) × ((if b then ok x else ok y) ≡ ok chunk)
either_reads true x y = (x, refl)
either_reads false x y = (y, refl)

reads_always : AlwaysReads memory_os viewed test_disk
unfolding read_file
reads_always offset = either_reads (leb (length (test_disk viewed)) offset) _ _

load_lem_example : IsComplete (test_disk viewed) (
    load
      (suc (length (test_disk viewed)))
      (fetch_from memory_os viewed test_disk)
      (new_viewer "p" viewed none)
      0)
unfolding text_eq
load_lem_example =
    load_lem memory_os memory_laws viewed test_disk "p" none reads_always (omega arith)
