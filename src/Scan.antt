-- ===== src/Scan.antt =====
-- The scanner, core/src/scan.rs: it walks a directory, hashes the files that changed, and brings the
-- tables `file_locations` and `file_entries` in step. The file system, the digest, the guesses of
-- media types and SQLite's LIKE are the parameter `Host`; log lines are left out. `none` is a panic: an
-- `unwrap` of a file operation or of a statement. A row is decoded without error, and sizes fit an
-- `i64`. Times are numbers that are only compared and copied, and paths are UTF-8.
pub mod Hashing
pub mod Store
pub mod Locate
pub mod Existing
pub mod Removed
pub mod Stored
pub mod StoredAll
pub mod Files
pub mod Scanned
pub mod Reflects
pub mod Whole
use puppypeer.Prelude.{
  ℕ, ◌+◌, ◌==◌, ◌≡◌, String, str_eq, Bool, true, false, not, ◌&&◌, Option, none, some, List, [],
  ◌∷◌, ◌++◌, min, max, any, retain, Text, codes, text_eq, if◌then◌else◌, Result, ok, err,
}
use puppypeer.Os.{Bytes, FileTime}

abbrev pub FileHash : Type 0
FileHash = Bytes

-- An id of a node is only compared.
abbrev pub NodeId : Type 0
NodeId = ℕ

pub record FileLocation : Type 0 where
  pub path : Text
  pub hash : Option FileHash
  pub size : ℕ
  pub mime_type : Option String
  pub timestamp : ℕ
  pub created_at : FileTime
  pub modified_at : FileTime
  pub accessed_at : FileTime

abbrev pub option_eq {ℓ} : {A : Type ℓ} → (A → A → Bool) → Option A → Option A → Bool
option_eq eq none none = true
option_eq eq none (some b) = false
option_eq eq (some a) none = false
option_eq eq (some a) (some b) = eq a b

abbrev pub time_eq : FileTime → FileTime → Bool
time_eq = option_eq (λ a b. a == b)

-- `PartialEq for FileLocation`: the timestamp is left aside.
unfoldable pub location_eq : FileLocation → FileLocation → Bool
location_eq a b =
    text_eq a.path b.path
    && option_eq text_eq a.hash b.hash
    && (a.size == b.size)
    && option_eq str_eq a.mime_type b.mime_type
    && time_eq a.created_at b.created_at
    && time_eq a.modified_at b.modified_at
    && time_eq a.accessed_at b.accessed_at

-- `ring::digest` or `sha2`.
pub record Digest : Type 1 where
  pub Context : Type 0
  pub start : Context
  pub update : Context → Bytes → Context
  pub finish : Context → FileHash

-- What `std::fs::metadata` tells of a file.
pub record Stat : Type 0 where
  pub len : ℕ
  pub created : FileTime
  pub modified : FileTime
  pub accessed : FileTime

-- A file that is opened: its canonical path, the first read, whether it can be rewound, and the reads
-- that follow, up to the end.
pub record Opened : Type 0 where
  pub full_path : Text
  pub stat : Stat
  pub head : Result Bytes
  pub rewinds : Bool
  pub reads : List (Result Bytes)

-- `walked` are the regular files that WalkDir yields, each once; `pattern` is the canonical path of the
-- directory with a `%`. `holds_time` says which times a `DateTime` of the crate chrono can hold.
pub record Host : Type 1 where
  pub digest : Digest
  pub infer : Bytes → Option String
  pub guess : Text → Option String
  pub like : Text → Text → Bool
  pub now : ℕ
  pub absolute_path : Text
  pub walked : List Text
  pub metadata : Text → Option Stat
  pub open_file : Text → Option Opened
  pub holds_time : ℕ → Bool

-- The rows of `file_locations`, whose key is the node with the path.
pub record FileRow : Type 0 where
  pub node_id : NodeId
  pub location : FileLocation

-- The rows of `file_entries`, whose key is the hash.
pub record FileEntry : Type 0 where
  pub hash : FileHash
  pub size : ℕ
  pub mime_type : Option String
  pub first_datetime : FileTime
  pub latest_datetime : FileTime

module _ (digest : Digest) where
  open digest use {Context, start, update, finish}

  -- The loop of `sha256_hash` over the results of the reads; at its end a file yields no bytes.
  pub hash_from : Context → List (Result Bytes) → Result FileHash
  hash_from ctx [] = ok (finish ctx)
  hash_from ctx (err e ∷ rs) = err e
  hash_from ctx (ok [] ∷ rs) = ok (finish ctx)
  hash_from ctx (ok (b ∷ bs) ∷ rs) = hash_from (update ctx (b ∷ bs)) rs

  unfoldable pub sha256_hash : List (Result Bytes) → Result FileHash
  unfolding hash_from
  sha256_hash reads = hash_from start reads

abbrev pub or_else {ℓ} : {A : Type ℓ} → Option A → Option A → Option A
or_else none o = o
or_else (some a) o = some a

-- The location of a path in the map `existing`.
unfoldable pub find_location : Text → List FileLocation → Option FileLocation
find_location p [] = none
find_location p (l ∷ ls) =
    let rest = find_location p ls in if text_eq l.path p then some l else rest

-- `HashMap::insert` by the path.
unfoldable pub put_location : FileLocation → List FileLocation → List FileLocation
put_location l [] = l ∷ []
put_location l (k ∷ ks) =
    let rest = put_location l ks in if text_eq k.path l.path then l ∷ ks else k ∷ rest

unfoldable pub collect : List FileRow → List FileLocation → List FileLocation
unfolding put_location
collect [] ls = ls
collect (r ∷ rs) ls = collect rs (put_location (record (r.location) { mime_type = none }) ls)

abbrev pub is_unchanged : FileLocation → Stat → Bool
is_unchanged prev st =
    (prev.size == st.len)
    && time_eq prev.created_at st.created
    && time_eq prev.modified_at st.modified
    && time_eq prev.accessed_at st.accessed

module _ (host : Host) where
  open host use {
    digest, infer, guess, like, now, absolute_path, walked, metadata, open_file, holds_time,
  }

  abbrev pub to_datetime : FileTime → Bool
  to_datetime none = true
  to_datetime (some t) = holds_time t

  -- `to_datetime` of the three times does not panic.
  abbrev pub has_datetimes : Stat → Bool
  has_datetimes st = to_datetime st.created && to_datetime st.modified && to_datetime st.accessed

  abbrev pub inferred : Text → Option String → Option String
  inferred path (some mime) = some mime
  inferred path none = guess path

  abbrev pub mime_of : Opened → Result Bytes → Option String
  mime_of o (err e) = none
  mime_of o (ok bytes) = inferred o.full_path (infer bytes)

  abbrev pub hashed : Opened → Result FileHash → Option FileLocation
  hashed o (err e) = none
  hashed o (ok hash) = some (record {
    path = o.full_path;
    hash = some hash;
    size = o.stat.len;
    mime_type = mime_of o o.head;
    timestamp = now;
    created_at = o.stat.created;
    modified_at = o.stat.modified;
    accessed_at = o.stat.accessed;
  })

  abbrev pub handled : Option Opened → Option FileLocation
  handled none = none
  handled (some o) =
      if has_datetimes o.stat && o.rewinds then hashed o (sha256_hash digest o.reads) else none

  unfoldable pub handle_path : Text → Option FileLocation
  unfolding sha256_hash
  handle_path path = handled (open_file path)

  abbrev pub kept : Text → FileLocation → Stat → FileLocation
  kept path prev st = record {
    path = path;
    hash = prev.hash;
    size = st.len;
    mime_type = prev.mime_type;
    timestamp = now;
    created_at = st.created;
    modified_at = st.modified;
    accessed_at = st.accessed;
  }

  abbrev pub looked_up : Text → Option FileLocation → Stat → Option FileLocation
  looked_up path none st = handle_path path
  looked_up path (some prev) st =
      let fresh = handle_path path in
      if is_unchanged prev st then some (kept path prev st) else fresh

  abbrev pub with_stat : Text → Option FileLocation → Option Stat → Option FileLocation
  with_stat path prev none = none
  with_stat path prev (some st) =
      let seen = looked_up path prev st in if has_datetimes st then seen else none

  -- The closure that is mapped over the entries.
  unfoldable pub scan_file : List FileLocation → Text → Option FileLocation
  unfolding handle_path find_location
  scan_file existing path = with_stat path (find_location path existing) (metadata path)

  -- The rows below the directory, whoever's they are.
  unfoldable pub existing_of : List FileRow → List FileLocation
  unfolding collect
  existing_of rows =
      collect (retain (λ r. like (absolute_path ++ codes "%") r.location.path) rows) []
