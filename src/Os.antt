-- ===== src/Os.antt =====
-- The file system as core/src/app.rs and core/src/p2p.rs use it through `std::fs` and `tokio::fs`,
-- which are not part of the repository: an interface, and the laws of it that are relied on.
use puppypeer.Prelude.{
  ℕ, ◌+◌, ◌-◌, ◌≤◌, ◌<◌, ◌≡◌, ◌≢◌, Bool, Option, List, ◌++◌, length, take, drop, replicate, Text,
  Result, ok, err, some,
}
use puppypeer.FilePath.{FilePath}

abbrev pub Bytes : Type 0
Bytes = List ℕ

-- A time of a file, if the file system keeps it: only copied and compared.
abbrev pub FileTime : Type 0
FileTime = Option ℕ

pub record Metadata : Type 0 where
  pub is_dir : Bool
  pub len : ℕ
  pub created : FileTime
  pub modified : FileTime
  pub accessed : FileTime

-- An entry that a directory stream yields: its type and its metadata may fail to be read.
pub record DirItem : Type 0 where
  pub file_name : Text
  pub file_type_is_dir : Result Bool
  pub metadata : Result Metadata

-- An action on the disk that may fail; what it wrote before it failed stays written.
abbrev pub Exec {ℓ} : Type 0 → Type ℓ → Type ℓ
Exec D A = D → Result A × D

infixl 5 ◌>>=◌
abbrev pub ◌>>=◌ {ℓ κ} :
    {D : Type 0} {A : Type ℓ} {B : Type κ} → Exec D A → (A → Exec D B) → Exec D B
◌>>=◌ m f d = let (r, d') = m d in elim r [ ok a ↦ f a d' | err e ↦ (err e, d') ]

abbrev pub lift {ℓ} : {D : Type 0} {A : Type ℓ} → Result A → Exec D A
lift r d = (r, d)

-- `seek` and the handles' reads and writes take the path that the handle was opened at. `file_at` is
-- the file that a path leads to, if there is one: links and different spellings of a path lead to
-- one file. `content` is what the file at a path holds, and nothing where there is no file.
-- `settle` carries out what is still under way in the background, the writes that a `tokio` file
-- has taken over: it may fail, and no call then says so.
pub record Os : Type 1 where
  pub Disk : Type 0
  pub File : Type 0
  pub file_at : FilePath → Disk → Option File
  pub settle : Exec Disk (Unit {0})
  pub content : FilePath → Disk → Bytes
  pub canonicalize : FilePath → Disk → Result FilePath
  pub metadata : FilePath → Disk → Result Metadata
  pub read_dir : FilePath → Disk → Result (List (Result DirItem))
  pub open_read : FilePath → Disk → Result (Unit {0})
  pub open_write : FilePath → Exec Disk (Unit {0})
  pub set_len : FilePath → ℕ → Exec Disk (Unit {0})
  pub seek : FilePath → ℕ → Disk → Result (Unit {0})
  pub read : FilePath → ℕ → ℕ → Disk → Result Bytes
  pub write_all : FilePath → ℕ → Bytes → Exec Disk (Unit {0})

abbrev pub zeros : ℕ → Bytes
zeros n = replicate n 0

-- The content with a length of `n`: cut, or filled up by zeros.
abbrev pub resize : ℕ → Bytes → Bytes
resize n c = take n c ++ zeros (n - length c)

-- The content with `bs` written at `offset`, which is not past its end.
abbrev pub overwrite : ℕ → Bytes → Bytes → Bytes
overwrite offset bs c = take offset c ++ bs ++ drop (offset + length bs) c

module _ (os : Os) where
  open os use {
    Disk, File, file_at, settle, canonicalize, content, metadata, open_write, set_len, read,
    write_all,
  }

  -- Nothing is under way in the background.
  abbrev pub IsQuiet : Disk → Type 0
  IsQuiet d = settle d ≡ (ok tt, d)

  -- The documented behaviour. A canonical path is its own canonical form. Opening a file with `create`
  -- and without `truncate` changes no content and moves no file, and a file that it creates is none
  -- that a path led to before. `set_len` changes the file at the path alone. What `write_all` has
  -- taken over is written when it settles without an error; until then, and if it fails, other
  -- files are as they were. A read returns some of the bytes that stand at the offset, at least one
  -- if there is one to read.
  pub record Laws : Type 0 where
    pub canonicalize-canonical :
        (p q : FilePath) (d : Disk) → canonicalize p d ≡ ok q → canonicalize q d ≡ ok q
    pub len-content :
        (p : FilePath) (d : Disk) (m : Metadata)
        → metadata p d ≡ ok m
        → m.len ≡ length (content p d)
    pub open_write-content :
        (p q : FilePath) (d : Disk) → content q (open_write p d).1 ≡ content q d
    pub open_write-file :
        (p q : FilePath) (d : Disk) (i : File)
        → file_at q d ≡ some i
        → file_at q (open_write p d).1 ≡ some i
    pub open_write-creates :
        (p q : FilePath) (d : Disk) (i : File)
        → file_at q d ≡ some i
        → file_at p (open_write p d).1 ≡ some i
        → file_at p d ≡ some i
    pub open_write-quiet : (p : FilePath) (d : Disk) → IsQuiet d → IsQuiet (open_write p d).1
    pub set_len-content :
        (p : FilePath) (n : ℕ) (d : Disk)
        → (set_len p n d).0 ≡ ok tt
        → content p (set_len p n d).1 ≡ resize n (content p d)
    pub set_len-other :
        (p q : FilePath) (n : ℕ) (d : Disk)
        → file_at q d ≢ file_at p d
        → content q (set_len p n d).1 ≡ content q d
    pub set_len-file :
        (p q : FilePath) (n : ℕ) (d : Disk) → file_at q (set_len p n d).1 ≡ file_at q d
    pub set_len-quiet : (p : FilePath) (n : ℕ) (d : Disk) → IsQuiet d → IsQuiet (set_len p n d).1
    pub write_all-content :
        (p : FilePath) (offset : ℕ) (bs : Bytes) (d : Disk)
        → IsQuiet d
        → offset + length bs ≤ length (content p d)
        → (write_all p offset bs d).0 ≡ ok tt
        → (settle (write_all p offset bs d).1).0 ≡ ok tt
        → content p (settle (write_all p offset bs d).1).1 ≡ overwrite offset bs (content p d)
    pub write_all-other :
        (p q : FilePath) (offset : ℕ) (bs : Bytes) (d : Disk)
        → IsQuiet d
        → file_at q d ≢ file_at p d
        → (content q (write_all p offset bs d).1 ≡ content q d)
          × (content q (settle (write_all p offset bs d).1).1 ≡ content q d)
    pub read-take :
        (p : FilePath) (offset n : ℕ) (d : Disk) (bs : Bytes)
        → read p offset n d ≡ ok bs
        → bs ≡ take (length bs) (drop offset (content p d))
    pub read-le :
        (p : FilePath) (offset n : ℕ) (d : Disk) (bs : Bytes)
        → read p offset n d ≡ ok bs
        → length bs ≤ n
    pub read-pos :
        (p : FilePath) (offset n : ℕ) (d : Disk) (bs : Bytes)
        → read p offset n d ≡ ok bs
        → 0 < n
        → offset < length (content p d)
        → 0 < length bs
