-- ===== src/Scan/Whole.antt =====
-- After `scan` of core/src/scan.rs the table holds what is on the disk.
use puppypeer.Prelude.{◌≡◌, true, List, Text}
use puppypeer.Scan.{NodeId, FileLocation, FileRow, Host, existing_of}
use puppypeer.Scan.Store.{no_counts, remove_deleted}
use puppypeer.Scan.Locate.{locate}
use puppypeer.Scan.Existing.{pattern}
use puppypeer.Scan.StoredAll.{IsApart}
use puppypeer.Scan.Scanned.{Scanned}
use puppypeer.Scan.Reflects.{IsReady, Reflects}

module _ (host : Host) (node : NodeId) (rows : List FileRow) (ready : IsReady host node rows) where
  abbrev existing : List FileLocation
  existing = existing_of host rows

  abbrev Found : Text → Type 0
  Found p = host.like (pattern host) p ≡ true

  module _ (xs : List (Text × FileLocation)) (s : Scanned host existing host.walked xs) where
    -- The rows after the deleted files are gone.
    abbrev start : List FileRow
    start = (remove_deleted node existing xs (rows, no_counts)).0

    module _ (after : List FileRow) where
      abbrev FoundKey : Text × FileLocation → Type 0
      FoundKey y = Found y.0

      -- Every key but those of the scanned files has the row that it had then.
      abbrev KeepsRest : Type 0
      KeepsRest =
          (n : NodeId) (p : Text) → IsApart node xs n p → locate n p after ≡ locate n p start
