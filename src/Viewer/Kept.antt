-- ===== src/Viewer/Kept.antt =====
-- The file viewer of cli/src/gui.rs stays with its file, whatever chunks come.
use puppypeer.Prelude.{
  ◌≡◌, refl, String, false, ◌&&◌, none, [], ◌∷◌, Text, text_eq, str_eq, ltb, Result, ok, err,
  Bool-cases, inl, inr,
}
use puppypeer.Os.{Bytes}
use puppypeer.Files.{FileChunk}
use puppypeer.Viewer.{
  FileViewerState, apply_chunk, chunk_loaded, result_loaded, file_read_loaded, file_read_more,
}

-- The peer and the path of one viewer are those of the other.
pub record IsSameFile (v w : FileViewerState) : Type 0 where
  pub peer : w.peer_id ≡ v.peer_id
  pub path : w.path ≡ v.path

kept : {v : FileViewerState} → IsSameFile v v
kept = record { peer = refl; path = refl }

apply_chunk-IsSameFile : (v : FileViewerState) (c : FileChunk) → IsSameFile v (apply_chunk v c)
unfolding apply_chunk
apply_chunk-IsSameFile v c = by_bytes c.bytes refl
  where
    by_bytes : (bs : Bytes) → c.bytes ≡ bs → IsSameFile v (apply_chunk v c)
    by_bytes [] e = rw e (record { peer = refl; path = refl })
    by_bytes (b ∷ bs) e = rw e (record { peer = refl; path = refl })

chunk_loaded-IsSameFile : (v : FileViewerState) (c : FileChunk) → IsSameFile v (chunk_loaded v c).0
unfolding apply_chunk
chunk_loaded-IsSameFile v c =
    let s = apply_chunk (record v { loading = false; error = none }) c in
    let same = apply_chunk-IsSameFile (record v { loading = false; error = none }) c in
    let moved : IsSameFile v s = record { peer = same.peer; path = same.path } in
    elim (Bool-cases s.eof) [
      | inl e ↦ rw e moved
      | inr e ↦ elim (Bool-cases (ltb v.offset s.offset)) [
        | inl f ↦ rw (e, f) (record { peer = same.peer; path = same.path })
        | inr f ↦ rw (e, f) moved
      ]
    ]

result_loaded-IsSameFile :
    (v : FileViewerState) (r : Result FileChunk) → IsSameFile v (result_loaded v r).0
result_loaded-IsSameFile v (ok c) = chunk_loaded-IsSameFile v c
result_loaded-IsSameFile v (err e) = record { peer = refl; path = refl }

pub file_read_loaded-IsSameFile :
    (v : FileViewerState) (peer : String) (path : Text) (r : Result FileChunk)
    → IsSameFile v (file_read_loaded v peer path r).0
unfolding file_read_loaded
file_read_loaded-IsSameFile v peer path r =
    elim (Bool-cases (str_eq v.peer_id peer && text_eq v.path path)) [
      | inl e ↦ rw e (result_loaded-IsSameFile v r)
      | inr e ↦ rw e kept
    ]

pub file_read_more-IsSameFile : (v : FileViewerState) → IsSameFile v (file_read_more v).0
unfolding file_read_more
file_read_more-IsSameFile v = elim (Bool-cases v.loading) [
  | inl e ↦ rw e kept
  | inr e ↦ elim (Bool-cases v.eof) [
    | inl f ↦ rw (e, f) kept
    | inr f ↦ rw (e, f) (record { peer = refl; path = refl })
  ]
]
