-- ===== src/Node/Entries.antt =====
-- `collect_dir_entries` of core/src/app.rs: the entries of a directory, directories first, and then
-- by name without regard to case.
use puppypeer.Prelude.{
  ℕ, ◌&&◌, some, String, Bool, true, false, ◌==◌, Option, none, List, [], ◌∷◌, Text, Result, ok,
  err, ltb, if◌then◌else◌,
}
use puppypeer.FilePath.{FilePath, join, extension}
use puppypeer.Os.{Os, DirItem, Metadata, FileTime}
use puppypeer.Wire.{DirEntry, CpuInfo, InterfaceInfo}

-- The file system, the crates `sysinfo` and `mime_guess`, `str::to_lowercase`, and the times that a
-- `DateTime` of the crate chrono can hold.
pub record Host : Type 1 where
  pub os : Os
  pub cpu_info : List CpuInfo
  pub interface_info : List InterfaceInfo
  pub mime_of : FilePath → Option String
  pub to_lowercase : Text → Text
  pub holds_time : ℕ → Bool

-- `str::cmp`, as "not greater".
unfoldable pub text_le : Text → Text → Bool
text_le [] ys = true
text_le (x ∷ xs) [] = false
text_le (x ∷ xs) (y ∷ ys) = if ltb x y then true else if x == y then text_le xs ys else false

module _ (host : Host) where
  open host use {os, mime_of, to_lowercase, holds_time}
  open os use {Disk, read_dir}

  -- The comparison of the sort, as "not greater".
  unfoldable pub entry_le : DirEntry → DirEntry → Bool
  entry_le a b =
      if a.is_dir
      then (if b.is_dir then text_le (to_lowercase a.name) (to_lowercase b.name) else true)
      else if b.is_dir
      then false
      else text_le (to_lowercase a.name) (to_lowercase b.name)

  -- `sort_by` is stable: an entry goes before those that it does not exceed.
  pub insert_entry : DirEntry → List DirEntry → List DirEntry
  insert_entry e [] = e ∷ []
  insert_entry e (f ∷ fs) = if entry_le e f then e ∷ f ∷ fs else f ∷ insert_entry e fs

  unfoldable pub sort_entries : List DirEntry → List DirEntry
  unfolding insert_entry
  sort_entries [] = []
  sort_entries (e ∷ es) = insert_entry e (sort_entries es)

  unfoldable pub dir_entry : FilePath → Text → Bool → Metadata → DirEntry
  dir_entry path name is_dir m = record {
    name = name;
    is_dir = is_dir;
    extension = extension path;
    mime = if is_dir then none else mime_of path;
    size = m.len;
    created_at = m.created;
    modified_at = m.modified;
    accessed_at = m.accessed;
  }

  abbrev pub is_held : FileTime → Bool
  is_held none = true
  is_held (some t) = holds_time t

  -- `DateTime::<Utc>::from` of the times of a file panics on one that chrono does not hold.
  abbrev pub is_dated : Metadata → Bool
  is_dated m = is_held m.created && is_held m.modified && is_held m.accessed

  -- What the loop has, or `none` for a panic.
  abbrev pub push_entry :
      DirEntry → Option (Result (List DirEntry)) → Option (Result (List DirEntry))
  push_entry e none = none
  push_entry e (some (ok es)) = some (ok (e ∷ es))
  push_entry e (some (err x)) = some (err x)

  -- The loop over the stream: an entry whose metadata cannot be read is passed over, any other
  -- error ends the loop.
  unfoldable pub collect_items : FilePath → List (Result DirItem) → Option (Result (List DirEntry))
  collect_items path [] = some (ok [])
  collect_items path (err e ∷ items) = some (err e)
  collect_items path (ok item ∷ items) =
      let rest = collect_items path items in
      elim item.file_type_is_dir [
        | err e ↦ some (err e)
        | ok is_dir ↦ elim item.metadata [
          | err e ↦ rest
          | ok m ↦
              if is_dated m
              then push_entry (dir_entry (join path item.file_name) item.file_name is_dir m) rest
              else none
        ]
      ]

  abbrev pub sorted : Option (Result (List DirEntry)) → Option (Result (List DirEntry))
  sorted none = none
  sorted (some (ok es)) = some (ok (sort_entries es))
  sorted (some (err e)) = some (err e)

  unfoldable pub collect_dir_entries : FilePath → Disk → Option (Result (List DirEntry))
  unfolding collect_items
  collect_dir_entries path d = elim (read_dir path d) [
    | err e ↦ some (err e)
    | ok items ↦ sorted (collect_items path items)
  ]
