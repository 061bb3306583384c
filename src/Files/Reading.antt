-- ===== src/Files/Reading.antt =====
-- What a chunk that `read_file` of core/src/app.rs returns says of the file.
use puppypeer.Prelude.{
  ℕ, ◌+◌, ◌-◌, ◌≤◌, ◌<◌, ◌≡◌, ◌⊎◌, refl, true, false, Option, none, some, [], length, take, drop,
  ok, Result-cases, inl, inr, leb, arith,
}
use puppypeer.FilePath.{FilePath}
use puppypeer.Os.{Os, Laws, Bytes, Metadata}
use puppypeer.Files.{FileChunk, read_at, read_file, bytes_to_read}

-- A chunk that tells the truth about a content: the bytes that stand at the offset, and the end of
-- the file marked exactly when they reach it.
pub record IsChunkOf (c : Bytes) (offset : ℕ) (chunk : FileChunk) : Type 0 where
  pub at_offset : chunk.offset ≡ offset
  pub bytes_there : chunk.bytes ≡ take (length chunk.bytes) (drop offset c)
  pub eof_there : chunk.eof ≡ leb (length c) (offset + length chunk.bytes)

-- At most as many bytes as were asked for.
abbrev pub IsBounded : Option ℕ → ℕ → Type 0
IsBounded none n = Unit {0}
IsBounded (some l) n = n ≤ l

-- Something was asked for.
abbrev pub Asks : Option ℕ → Type 0
Asks none = Unit {0}
Asks (some l) = 0 < l

module _ (os : Os) (laws : Laws os) (path : FilePath) (offset : ℕ) where
  open os use {Disk, content, metadata, read}

  read_at_lem :
      (file_len want : ℕ) (d : Disk) (chunk : FileChunk)
      → read_at os path offset file_len want d ≡ ok chunk
      → (chunk.offset ≡ offset)
        × (read path offset want d ≡ ok chunk.bytes)
        × (chunk.eof ≡ leb file_len (offset + length chunk.bytes))
  unfolding read_at
  read_at_lem file_len want d chunk h = ground arith

  -- The outcomes of `read_file`, in its own terms.
  read_file_cases :
      (len : Option ℕ) (d : Disk) (chunk : FileChunk)
      → read_file os path offset len d ≡ ok chunk
      → (m : Metadata) × (metadata path d ≡ ok m)
        × (((m.len ≤ offset) × (chunk ≡ record { offset = offset; bytes = []; eof = true }))
            ⊎ ((offset < m.len)
                × (read_at os path offset m.len (bytes_to_read len (m.len - offset)) d ≡ ok chunk)))
  unfolding read_file
  read_file_cases len d chunk h = elim (Result-cases (metadata path d)) [
    | inl (m, e) ↦ (m, e, ground arith)
    | inr (x, e) ↦ ground arith
  ]

  past_end :
      (len : Option ℕ) (d : Disk)
      → length (content path d) ≤ offset
      → IsChunkOf (content path d) offset (record { offset = offset; bytes = []; eof = true })
  past_end len d h = record { at_offset = refl; bytes_there = refl; eof_there = ground arith }

  wanted-IsBounded :
      (len : Option ℕ) (remaining n : ℕ) → n ≤ bytes_to_read len remaining → IsBounded len n
  wanted-IsBounded none remaining n h = tt
  wanted-IsBounded (some l) remaining n h = omega arith

  wanted-pos :
      (len : Option ℕ) (remaining : ℕ) → 0 < remaining → Asks len → 0 < bytes_to_read len remaining
  wanted-pos none remaining h a = h
  wanted-pos (some l) remaining h a = omega arith

  zero-IsBounded : (len : Option ℕ) → IsBounded len 0
  zero-IsBounded none = tt
  zero-IsBounded (some l) = omega arith

  -- A chunk that `read_file` returns is a chunk of the file: it carries the offset and the bytes
  -- that stand there, no more than were asked for, and marks the end exactly if it reaches it.
  pub read_file_lem :
      (len : Option ℕ) (d : Disk) (chunk : FileChunk)
      → read_file os path offset len d ≡ ok chunk
      → IsChunkOf (content path d) offset chunk × IsBounded len (length chunk.bytes)
  read_file_lem len d chunk h =
      let (m, e, outcome) = read_file_cases len d chunk h in
      let size : m.len ≡ length (content path d) = laws.len-content path d m e in
      elim outcome [
        | inl (past, is) ↦ (rw is (past_end len d (omega arith)), rw is (zero-IsBounded len))
        | inr (inside, at) ↦
            let (off, got, end) =
              read_at_lem m.len (bytes_to_read len (m.len - offset)) d chunk at in
            (
              record {
                at_offset = off;
                bytes_there = laws.read-take path offset _ d chunk.bytes got;
                eof_there = rw (← size) end;
              },
              wanted-IsBounded len (m.len - offset) (length chunk.bytes)
                  (laws.read-le path offset _ d chunk.bytes got),
            )
      ]

  -- If something was asked for, a chunk that does not mark the end holds at least one byte.
  pub read_file-progress :
      (len : Option ℕ) (d : Disk) (chunk : FileChunk)
      → read_file os path offset len d ≡ ok chunk
      → Asks len
      → chunk.eof ≡ false
      → 0 < length chunk.bytes
  read_file-progress len d chunk h asks more =
      let (m, e, outcome) = read_file_cases len d chunk h in
      let size : m.len ≡ length (content path d) = laws.len-content path d m e in
      elim outcome [
        | inl (past, is) ↦ absurd (ground arith)
        | inr (inside, at) ↦
            let (off, got, end) =
              read_at_lem m.len (bytes_to_read len (m.len - offset)) d chunk at in
            laws.read-pos path offset _ d chunk.bytes got
              (wanted-pos len (m.len - offset) (omega arith) asks) (omega arith)
      ]
