-- ===== src/Viewer/Loading.antt =====
-- The file viewer of cli/src/gui.rs puts a file together from its chunks.
use mathlib.Core.List.{append-nil}
use puppypeer.Prelude.{
  ℕ, zero, suc, ◌+◌, ◌≤◌, ◌<◌, ◌≡◌, ◌⊎◌, refl, sym, ap, ◌∙◌, String, true, false, Option, none,
  some, [], ◌∷◌, ◌++◌, length, take, drop, text_eq_refl, eq_iff, ltb, leb, Result, ok, Bool-cases,
  inl, inr, arith,
}
use puppypeer.FilePath.{FilePath}
use puppypeer.Os.{Os, Laws, Bytes}
use puppypeer.Files.{FileChunk, read_file, u64_mod}
use puppypeer.Files.Reading.{IsChunkOf, read_file_lem, read_file-progress}
use puppypeer.Viewer.{
  FileViewerState, new_viewer, apply_chunk, file_read_loaded, file_view_chunk_size, load,
  chunk_loaded,
}

take_nil : (n : ℕ) → ◌≡◌ {A = Bytes} (take n []) []
take_nil zero = refl
take_nil (suc n) = refl

take_split : (o n : ℕ) (c : Bytes) → take o c ++ take n (drop o c) ≡ take (o + n) c
take_split zero n c = ap (λ k. take k c) (omega arith)
take_split (suc o) n [] = take_nil n ∙ sym (take_nil (suc o + n))
take_split (suc o) n (x ∷ c) =
    let e : suc (o + n) ≡ suc o + n = omega arith in
    ap (◌∷◌ x) (take_split o n c) ∙ ap (λ k. take k (x ∷ c)) e

take_all : (n : ℕ) (c : Bytes) → length c ≤ n → take n c ≡ c
take_all zero [] h = refl
take_all zero (x ∷ c) h = absurd (omega arith)
take_all (suc n) [] h = refl
take_all (suc n) (x ∷ c) h = ap (λ l. x ∷ l) (take_all n c (omega arith))

inside_length : (o n : ℕ) (c : Bytes) → o ≤ length c → o + length (take n (drop o c)) ≤ length c
inside_length zero zero c h = omega arith
inside_length zero (suc n) [] h = omega arith
inside_length zero (suc n) (x ∷ c) h = omega (arith, inside_length zero n c (omega arith))
inside_length (suc o) n [] h = absurd (omega arith)
inside_length (suc o) n (x ∷ c) h = omega (arith, inside_length o n c (omega arith))

-- The viewer holds the first `o` bytes of a content, and will go on there.
abbrev HoldsFirst : Bytes → ℕ → FileViewerState → Type 0
HoldsFirst c o s = (s.offset ≡ o) × (s.bytes ≡ take o c)

Bytes-cases : (l : Bytes) → (l ≡ []) ⊎ ((b : ℕ) × (bs : Bytes) × (l ≡ b ∷ bs))
Bytes-cases [] = inl refl
Bytes-cases (b ∷ bs) = inr (b, bs, refl)

-- The next bytes of a content, behind the first ones.
next_bytes :
    (c bs : Bytes) (o : ℕ)
    → bs ≡ take (length bs) (drop o c)
    → take o c ++ bs ≡ take (o + length bs) c
next_bytes c bs o h = ap (λ l. take o c ++ l) h ∙ take_split o (length bs) c

next_le :
    (c bs : Bytes) (o : ℕ)
    → bs ≡ take (length bs) (drop o c)
    → o ≤ length c
    → o + length bs ≤ length c
next_le c bs o h inside = omega (arith, ap length h, inside_length o (length bs) c inside)

apply_chunk-HoldsFirst :
    (c : Bytes) (o : ℕ) (s : FileViewerState) (chunk : FileChunk)
    → length c < u64_mod
    → o ≤ length c
    → HoldsFirst c o s
    → IsChunkOf c o chunk
    → HoldsFirst c (o + length chunk.bytes) (apply_chunk s chunk)
      × (o + length chunk.bytes ≤ length c)
      × ((apply_chunk s chunk).eof ≡ leb (length c) (o + length chunk.bytes))
unfolding apply_chunk
apply_chunk-HoldsFirst c o s chunk fits inside h is =
    let there = is.bytes_there in
    let more = next_bytes c chunk.bytes o there in
    let le = next_le c chunk.bytes o there inside in
    let at = is.at_offset in
    let end = is.eof_there in
    elim (Bytes-cases chunk.bytes) [
      | inl e ↦ ground (arith, append-nil (take o c))
      | inr (b, bs, e) ↦ ground arith
    ]

-- The viewer holds the whole content and is done.
abbrev pub IsComplete : Bytes → FileViewerState → Type 0
IsComplete c s = (s.bytes ≡ c) × (s.eof ≡ true) × (s.error ≡ none) × (s.loading ≡ false)

apply_chunk_keeps :
    (s : FileViewerState) (chunk : FileChunk)
    → ((apply_chunk s chunk).error ≡ s.error) × ((apply_chunk s chunk).loading ≡ s.loading)
unfolding apply_chunk
apply_chunk_keeps s chunk = ground (arith, Bytes-cases chunk.bytes)

-- What a chunk makes of a viewer that holds the first bytes: it is complete, or it asks for the next
-- chunk, which starts further on.
one_chunk :
    (c : Bytes) (o : ℕ) (s : FileViewerState) (chunk : FileChunk)
    → length c < u64_mod
    → o ≤ length c
    → HoldsFirst c o s
    → IsChunkOf c o chunk
    → (chunk.eof ≡ false → 0 < length chunk.bytes)
    → let (s', more) = chunk_loaded s chunk in
      ((more ≡ none) × IsComplete c s')
      ⊎ ((o' : ℕ) × (more ≡ some o') × (o < o') × (o' ≤ length c) × HoldsFirst c o' s')
one_chunk c o s chunk fits inside h is progress =
    let cleared = record s { loading = false; error = none } in
    let (held, le, end) = apply_chunk-HoldsFirst c o cleared chunk fits inside h is in
    let (err_kept, load_kept) = apply_chunk_keeps cleared chunk in
    let s' = apply_chunk cleared chunk in
    elim (Bool-cases s'.eof) [
      | inl e ↦
          let past : length c ≤ o + length chunk.bytes = ground arith in
          let all = held.1 ∙ take_all (o + length chunk.bytes) c past in
          inl (rw e refl, rw e (all, refl, err_kept, load_kept))
      | inr e ↦
          let grows : 0 < length chunk.bytes = progress (ground arith) in
          let further : ltb s.offset s'.offset ≡ true = ground arith in
          inr (
            o + length chunk.bytes,
            rw (e, further) (ap some held.0),
            omega arith,
            le,
            rw (e, further) held,
          )
    ]

load_once :
    (fuel o : ℕ) (fetch : ℕ → Result FileChunk) (s : FileViewerState) (chunk : FileChunk)
    → file_read_loaded s s.peer_id s.path (fetch o) ≡ chunk_loaded s chunk
    → load (suc fuel) fetch s o ≡ elim (chunk_loaded s chunk).1 [
      | none ↦ (chunk_loaded s chunk).0
      | some next ↦ load fuel fetch (chunk_loaded s chunk).0 next
    ]
unfolding load
load_once fuel o fetch s chunk h =
    ap
      (λ (r : FileViewerState × Option ℕ). elim r.1 [
        | none ↦ r.0
        | some next ↦ load fuel fetch r.0 next
      ])
      h

own_chunk :
    (s : FileViewerState) (chunk : FileChunk)
    → file_read_loaded s s.peer_id s.path (ok chunk) ≡ chunk_loaded s chunk
unfolding file_read_loaded
own_chunk s chunk = ground (arith, (eq_iff s.peer_id s.peer_id).1 refl, text_eq_refl s.path)

module _ (os : Os) (path : FilePath) where
  open os use {Disk}

  abbrev pub fetch_from : Disk → ℕ → Result FileChunk
  fetch_from d offset = read_file os path offset (some file_view_chunk_size) d

  -- Every read of the file succeeds.
  abbrev pub AlwaysReads : Disk → Type 0
  AlwaysReads d = (offset : ℕ) → (chunk : FileChunk) × (fetch_from d offset ≡ ok chunk)

module _ (os : Os) (laws : Laws os) (path : FilePath) where
  open os use {Disk, content}

  load_rest :
      (d : Disk) (reads : AlwaysReads os path d) (fuel : ℕ) (s : FileViewerState) (o : ℕ)
      → length (content path d) < u64_mod
      → o ≤ length (content path d)
      → length (content path d) < fuel + o
      → HoldsFirst (content path d) o s
      → IsComplete (content path d) (load fuel (fetch_from os path d) s o)
  unfolding load
  load_rest d reads zero s o fits inside enough h = absurd (omega arith)
  load_rest d reads (suc fuel) s o fits inside enough h =
      let c = content path d in
      let (chunk, got) = reads o in
      let is = (read_file_lem os laws path o (some file_view_chunk_size) d chunk got).0 in
      let progress : chunk.eof ≡ false → 0 < length chunk.bytes = λ e.
        read_file-progress os laws path o (some file_view_chunk_size) d chunk got (omega arith) e in
      let shown : file_read_loaded s s.peer_id s.path (fetch_from os path d o)
          ≡ chunk_loaded s chunk =
        ap (file_read_loaded s s.peer_id s.path) got ∙ own_chunk s chunk in
      elim (one_chunk c o s chunk fits inside h is progress) [
        | inl (stop, complete) ↦
            rw (load_once fuel o (fetch_from os path d) s chunk shown, stop) complete
        | inr (o', more, further, inside', held) ↦
            let rest = load_rest d reads fuel _ o' fits inside' (omega arith) held in
            rw (load_once fuel o (fetch_from os path d) s chunk shown, more) rest
      ]

  -- A viewer that is opened on a file whose reads succeed, and which does not change while it is read,
  -- gets the whole file, in as many chunks as the file has bytes and one more at most: it then holds
  -- exactly the file's content, is at its end, shows no error and loads no more.
  pub load_lem :
      (d : Disk) (peer_id : String) (mime : Option String)
      → AlwaysReads os path d
      → length (content path d) < u64_mod
      → IsComplete (content path d) (
          load
            (suc (length (content path d)))
            (fetch_from os path d)
            (new_viewer peer_id path mime)
            0)
  unfolding new_viewer
  load_lem d peer_id mime reads fits =
      load_rest d reads (suc (length (content path d))) (new_viewer peer_id path mime) 0 fits
        (omega arith) (omega arith) (refl, refl)
