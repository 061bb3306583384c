-- ===== src/Files.antt =====
-- Reading and writing parts of files: `read_file` and `write_file` of core/src/app.rs,
-- `read_file_chunk` and `write_file_range` of core/src/p2p.rs, and `FileChunk` of core/src/types.rs.
pub mod Reading
pub mod Writing
use Prim.Native.String.{◌++◌ as str_append}
use puppypeer.Prelude.{
  ℕ, ◌+◌, ◌-◌, ◌*◌, ◌^◌, min, String, Bool, true, false, Option, none, some, [], length, Result, ok,
  err, ltb, leb, if◌then◌else◌,
}
use puppypeer.FilePath.{FilePath}
use puppypeer.Os.{Os, Bytes, Exec, ◌>>=◌, lift}

pub record FileChunk : Type 0 where
  pub offset : ℕ
  pub bytes : Bytes
  pub eof : Bool

pub record FileWriteAck : Type 0 where
  pub bytes_written : ℕ

abbrev pub u64_mod : ℕ
u64_mod = 2 ^ 64

-- `u64::checked_add`
abbrev pub checked_add : ℕ → ℕ → Option ℕ
checked_add a b = if ltb (a + b) u64_mod then some (a + b) else none

-- `map_err(|e| anyhow!("… failed: {}", e))`
abbrev pub context {ℓ} : {A : Type ℓ} → String → Result A → Result A
context message (ok a) = ok a
context message (err e) = err (str_append message e)

abbrev pub in_context {ℓ} : {D : Type 0} {A : Type ℓ} → String → Exec D A → Exec D A
in_context message m d = let (r, d') = m d in (context message r, d')

-- `ok_or_else`
abbrev pub or_error {ℓ} : {A : Type ℓ} → String → Option A → Result A
or_error e none = err e
or_error e (some a) = ok a

-- 4 MiB
abbrev pub max_file_chunk : ℕ
max_file_chunk = 4 * 1024 * 1024

abbrev pub bytes_to_read : Option ℕ → ℕ → ℕ
bytes_to_read (some l) remaining = min l remaining
bytes_to_read none remaining = remaining

abbrev pub chunk_length : Option ℕ → ℕ
chunk_length (some l) = min l max_file_chunk
chunk_length none = min max_file_chunk max_file_chunk

module _ (os : Os) where
  open os use {Disk, metadata, open_read, open_write, set_len, seek, read, write_all}

  -- `read_file` from the seek on.
  pub read_at : FilePath → ℕ → ℕ → ℕ → Disk → Result FileChunk
  read_at path offset file_len to_read d = elim (seek path offset d) [
    | err e ↦ err e
    | ok _ ↦ elim (read path offset to_read d) [
      | err e ↦ err e
      | ok buffer ↦
          ok (record {
            offset = offset;
            bytes = buffer;
            eof = leb file_len (offset + length buffer);
          })
    ]
  ]

  unfoldable pub read_file : FilePath → ℕ → Option ℕ → Disk → Result FileChunk
  unfolding read_at
  read_file path offset len d = elim (open_read path d) [
    | err e ↦ err e
    | ok _ ↦ elim (metadata path d) [
      | err e ↦ err e
      | ok m ↦
          if m.is_dir
          then err "path is a directory"
          else if leb m.len offset
          then ok (record { offset = offset; bytes = []; eof = true })
          else read_at path offset m.len (bytes_to_read len (m.len - offset)) d
    ]
  ]

  unfoldable pub write_file : FilePath → ℕ → Bytes → Exec Disk FileWriteAck
  write_file path offset bs = do
    _ ← in_context "open failed: " (open_write path)
    m ← λ d. (context "metadata failed: " (metadata path d), d)
    required_len ← lift (or_error "length overflow" (checked_add offset (length bs)))
    _ ←
        if ltb m.len required_len
        then in_context "set_len failed: " (set_len path required_len)
        else lift (ok tt)
    _ ← λ d. (context "seek failed: " (seek path offset d), d)
    _ ← in_context "write failed: " (write_all path offset bs)
    lift (ok (record { bytes_written = length bs }))

  -- The handle's position after a read is compared with the length.
  unfoldable pub read_file_chunk : FilePath → ℕ → Option ℕ → Disk → Result FileChunk
  read_file_chunk path offset len d = elim (open_read path d) [
    | err e ↦ err e
    | ok _ ↦ elim (metadata path d) [
      | err e ↦ err e
      | ok m ↦ if m.is_dir then err "Cannot read directory" else elim (seek path offset d) [
        | err e ↦ err e
        | ok _ ↦ elim (read path offset (chunk_length len) d) [
          | err e ↦ err e
          | ok buffer ↦
              ok (record {
                offset = offset;
                bytes = buffer;
                eof = leb m.len (offset + length buffer);
              })
        ]
      ]
    ]
  ]

  unfoldable pub write_file_range : FilePath → ℕ → Bytes → Exec Disk FileWriteAck
  write_file_range path offset bs = do
    _ ← open_write path
    m ← λ d. (metadata path d, d)
    required_len ←
        lift (or_error "Write would overflow file length" (checked_add offset (length bs)))
    _ ← if ltb m.len required_len then set_len path required_len else lift (ok tt)
    _ ← λ d. (seek path offset d, d)
    _ ← write_all path offset bs
    lift (ok (record { bytes_written = length bs }))
