-- ===== src/Scan/Store.antt =====
-- The statements of `scan` in core/src/scan.rs on the two tables, and `scan` itself, which runs in one
-- transaction: a panic or an error leaves the tables as they were.
use puppypeer.Prelude.{
  ℕ, ◌+◌, ◌==◌, Bool, not, ◌&&◌, Option, none, some, List, [], ◌∷◌, ◌++◌, min, max, any, retain,
  Text, text_eq, if◌then◌else◌,
}
use puppypeer.Os.{FileTime}
use puppypeer.Scan.{
  FileHash, NodeId, FileLocation, location_eq, Host, FileRow, FileEntry, find_location, scan_file,
  existing_of,
}

infixl 5 ◌>>=◌
abbrev pub ◌>>=◌ {ℓ κ} : {A : Type ℓ} {B : Type κ} → Option A → (A → Option B) → Option B
none >>= f = none
some a >>= f = f a

abbrev pub has_key : NodeId → Text → FileRow → Bool
has_key node path r = (r.node_id == node) && text_eq r.location.path path

-- `DELETE_FILE_LOCATION`
unfoldable pub delete_location : NodeId → Text → List FileRow → List FileRow
delete_location node path rows = retain (λ r. not (has_key node path r)) rows

abbrev pub refreshed : FileLocation → FileRow → FileRow
refreshed l r = record r {
  location = record (r.location) {
    hash = l.hash;
    size = l.size;
    timestamp = l.timestamp;
    created_at = l.created_at;
    modified_at = l.modified_at;
    accessed_at = l.accessed_at;
  };
}

-- `UPDATE_FILE_LOCATION`
unfoldable pub update_location : NodeId → FileLocation → List FileRow → List FileRow
update_location node l [] = []
update_location node l (r ∷ rs) =
    let rest = update_location node l rs in
    if has_key node l.path r then refreshed l r ∷ rest else r ∷ rest

-- `INSERT_FILE_LOCATION`: a row with the key already there makes the `unwrap` panic. The table has no
-- media type.
unfoldable pub insert_location : NodeId → FileLocation → List FileRow → Option (List FileRow)
insert_location node l rows =
    if any (has_key node l.path) rows
    then none
    else some (rows ++ record { node_id = node; location = record l { mime_type = none } } ∷ [])

abbrev pub merged : FileEntry → FileEntry → FileEntry
merged new old = record old { latest_datetime = new.latest_datetime }

-- `UPSERT_FILE_ENTRY`
unfoldable pub upsert_entry : FileEntry → List FileEntry → List FileEntry
upsert_entry e [] = e ∷ []
upsert_entry e (x ∷ xs) =
    let rest = upsert_entry e xs in if text_eq x.hash e.hash then merged e x ∷ xs else x ∷ rest

abbrev pub pick : (ℕ → ℕ → ℕ) → FileTime → FileTime → FileTime
pick f none b = b
pick f (some a) none = some a
pick f (some a) (some b) = some (f a b)

-- The first and the last of the times that are there.
abbrev pub first_time : FileLocation → FileTime
first_time l = pick min l.created_at (pick min l.modified_at l.accessed_at)

abbrev pub latest_time : FileLocation → FileTime
latest_time l = pick max l.created_at (pick max l.modified_at l.accessed_at)

-- A hash that is null breaks a constraint of the table.
abbrev pub entry_of : FileLocation → Option FileHash → Option FileEntry
entry_of l none = none
entry_of l (some h) = some (record {
  hash = h;
  size = l.size;
  mime_type = l.mime_type;
  first_datetime = first_time l;
  latest_datetime = latest_time l;
})

unfoldable pub upsert_entries :
    List (Text × FileLocation) → List FileEntry → Option (List FileEntry)
unfolding upsert_entry
upsert_entries [] es = some es
upsert_entries ((path, l) ∷ ls) es =
    entry_of l l.hash >>= (λ e. upsert_entries ls (upsert_entry e es))

pub record ScanResult : Type 0 where
  pub updated_count : ℕ
  pub inserted_count : ℕ
  pub removed_count : ℕ

-- The rows, with what was counted so far.
abbrev pub Progress : Type 0
Progress = List FileRow × ScanResult

module _ (node : NodeId) where
  unfoldable pub remove_deleted :
      List FileLocation → List (Text × FileLocation) → Progress → Progress
  unfolding delete_location
  remove_deleted [] scanned p = p
  remove_deleted (old ∷ existing) scanned (rows, c) =
      if any (λ x. text_eq x.0 old.path) scanned
      then remove_deleted existing scanned (rows, c)
      else remove_deleted existing scanned
          (delete_location node old.path rows, record c { removed_count = c.removed_count + 1 })

  abbrev pub store_new : FileLocation → Option (List FileRow) → ScanResult → Option Progress
  store_new l none c = none
  store_new l (some rows) c = some (rows, record c { inserted_count = c.inserted_count + 1 })

  abbrev pub store_file : Option FileLocation → FileLocation → Progress → Option Progress
  store_file none l (rows, c) = store_new l (insert_location node l rows) c
  store_file (some prev) l (rows, c) =
      if location_eq l prev
      then some (rows, c)
      else some (update_location node l rows, record c { updated_count = c.updated_count + 1 })

  unfoldable pub store_files :
      List FileLocation → List (Text × FileLocation) → Progress → Option Progress
  unfolding find_location location_eq insert_location update_location
  store_files existing [] p = some p
  store_files existing ((path, l) ∷ ls) p =
      store_file (find_location path existing) l p >>= store_files existing ls

pub record Tables : Type 0 where
  pub locations : List FileRow
  pub entries : List FileEntry

abbrev pub committed :
    List (Text × FileLocation) → Option Progress → Tables → Option (ScanResult × Tables)
committed scanned none t = none
committed scanned (some (rows, c)) t =
    upsert_entries scanned t.entries >>= (λ es. some (c, record { locations = rows; entries = es }))

abbrev pub no_counts : ScanResult
no_counts = record { updated_count = 0; inserted_count = 0; removed_count = 0 }

module _ (host : Host) where
  -- The map `scanned`: WalkDir yields each path once.
  unfoldable pub scan_files : List FileLocation → List Text → Option (List (Text × FileLocation))
  unfolding scan_file
  scan_files existing [] = some []
  scan_files existing (p ∷ ps) =
      scan_file host existing p >>= (λ l. scan_files existing ps >>= (λ ls. some ((p, l) ∷ ls)))

  -- The new tables, if nothing panics.
  unfoldable pub scan : NodeId → Tables → Option (ScanResult × Tables)
  unfolding scan_files existing_of remove_deleted store_files upsert_entries
  scan node t = do
    let existing = existing_of host t.locations
    scanned ← scan_files existing host.walked
    let start = remove_deleted node existing scanned (t.locations, no_counts)
    committed scanned (store_files node existing scanned start) t
