-- ===== src/Viewer.antt =====
-- The file viewer of cli/src/gui.rs: `FileViewerState`, and the messages that fetch a file chunk by chunk.
-- A message about another file than the one that is shown is dropped. The directory that the
-- viewer goes back to and the status line are left out.
pub mod Loading
pub mod Kept
use puppypeer.Prelude.{
  ℕ, zero, suc, ◌+◌, ◌-◌, ◌*◌, min, String, Bool, true, false, ◌&&◌, ◌==◌, ◌!=◌, Option, none, some,
  List, [], ◌∷◌, ◌++◌, length, Text, text_eq, str_eq, ltb, Result, ok, err, if◌then◌else◌,
}
use puppypeer.Os.{Bytes}
use puppypeer.Files.{FileChunk, u64_mod}

abbrev pub file_view_chunk_size : ℕ
file_view_chunk_size = 64 * 1024

pub record FileViewerState : Type 0 where
  pub peer_id : String
  pub path : Text
  pub mime : Option String
  pub bytes : Bytes
  pub offset : ℕ
  pub eof : Bool
  pub loading : Bool
  pub error : Option String

unfoldable pub new_viewer : String → Text → Option String → FileViewerState
new_viewer peer_id path mime = record {
  peer_id = peer_id;
  path = path;
  mime = mime;
  bytes = [];
  offset = 0;
  eof = false;
  loading = true;
  error = none;
}

-- `u64::saturating_add`
abbrev pub saturating_add : ℕ → ℕ → ℕ
saturating_add a b = min (a + b) (u64_mod - 1)

unfoldable pub apply_chunk : FileViewerState → FileChunk → FileViewerState
apply_chunk s chunk = elim chunk.bytes [
  | [] ↦ record s { offset = chunk.offset; eof = chunk.eof }
  | b ∷ bs ↦ record s {
    offset = saturating_add chunk.offset (length (b ∷ bs));
    bytes = s.bytes ++ b ∷ bs;
    eof = chunk.eof;
  }
]

-- The state after a chunk, and the offset to fetch next.
abbrev pub chunk_loaded : FileViewerState → FileChunk → FileViewerState × Option ℕ
chunk_loaded s chunk =
    let s' = apply_chunk (record s { loading = false; error = none }) chunk in
    if s'.eof
    then (s', none)
    else if ltb s.offset s'.offset
    then (record s' { loading = true }, some s'.offset)
    else (s', none)

abbrev pub result_loaded : FileViewerState → Result FileChunk → FileViewerState × Option ℕ
result_loaded s (ok chunk) = chunk_loaded s chunk
result_loaded s (err e) = (record s { loading = false; error = some e }, none)

-- `GuiMessage::FileReadLoaded`
unfoldable pub file_read_loaded :
    FileViewerState → String → Text → Result FileChunk → FileViewerState × Option ℕ
unfolding apply_chunk
file_read_loaded s peer_id path result =
    if str_eq s.peer_id peer_id && text_eq s.path path then result_loaded s result else (s, none)

-- `GuiMessage::FileReadMore`
unfoldable pub file_read_more : FileViewerState → FileViewerState × Option ℕ
file_read_more s =
    if s.loading
    then (s, none)
    else if s.eof
    then (s, none)
    else (record s { loading = true }, some s.offset)

-- The messages and commands in turn: at most `fuel` chunks, the first of them at `offset`. `fetch` is
-- the answer to a command that reads a chunk.
unfoldable pub load : ℕ → (ℕ → Result FileChunk) → FileViewerState → ℕ → FileViewerState
unfolding file_read_loaded
load zero fetch s offset = s
load (suc fuel) fetch s offset =
    let (s', more) = file_read_loaded s s.peer_id s.path (fetch offset) in
    elim more [ none ↦ s' | some next ↦ load fuel fetch s' next ]
