-- ===== src/Browser.antt =====
-- The file browser of cli/src/gui.rs: `FileBrowserState`, the messages that open it, fill it, and move
-- it through a peer's directories and into the file viewer, and the functions on paths. The status
-- line and the selected peer are left out; the other modes are one, `elsewhere`.
pub mod Paths
pub mod Roots
pub mod Below
pub mod Steps
pub mod Confined
use puppypeer.Prelude.{
  ℕ, String, Bool, true, false, ◌||◌, ◌==◌, Option, none, some, List, [], ◌∷◌, ◌++◌, any, Text,
  codes, text_eq, str_eq, Result, ok, err, if◌then◌else◌,
}
use puppypeer.Rule.{Permission, Rule, folder, can_read, can_write, can_search}
use puppypeer.Grant.{is_slash, trim_start_slashes}
use puppypeer.Wire.{DirEntry}
use puppypeer.Files.{FileChunk}
use puppypeer.Node.Entries.{text_le}
use puppypeer.Editor.{normalize_path, trim_end_slashes, slash_if_empty}
use puppypeer.Viewer.{
  FileViewerState, new_viewer, file_read_loaded as viewer_loaded, file_read_more as viewer_more,
}

-- `BTreeSet::insert`, on the texts in their order.
unfoldable pub insert_root : Text → List Text → List Text
unfolding text_eq text_le
insert_root t [] = t ∷ []
insert_root t (x ∷ xs) =
    let rest = insert_root t xs in
    if text_eq t x then x ∷ xs else if text_le t x then t ∷ x ∷ xs else x ∷ rest

abbrev pub add_root : Rule → List Text → List Text
add_root Rule.owner roots = roots
add_root (folder rule) roots = insert_root (normalize_path rule.path) roots

-- The set does not depend on the order in which the source inserts.
unfoldable pub permissions_roots : List Permission → List Text
unfolding insert_root
permissions_roots [] = []
permissions_roots (p ∷ ps) = add_root p.rule (permissions_roots ps)

abbrev pub shown_root : Rule → Option Text
shown_root Rule.owner = none
shown_root (folder rule) =
    if can_read rule || can_search rule || can_write rule
    then some (normalize_path rule.path)
    else none

unfoldable pub default_browser_path : List Permission → Option Text
unfolding can_read can_search can_write
default_browser_path [] = none
default_browser_path (p ∷ ps) =
    let rest = default_browser_path ps in
    elim (shown_root p.rule) [ none ↦ rest | some path ↦ some path ]

unfoldable pub join_child_path : Text → Text → Text
unfolding text_eq
join_child_path base child =
    if text_eq base [] || text_eq base (codes "/")
    then codes "/" ++ trim_start_slashes child
    else trim_end_slashes base ++ codes "/" ++ trim_start_slashes child

-- `trimmed[..pos]` at `trimmed.rfind('/')`
unfoldable pub before_last_slash : Text → Option Text
before_last_slash [] = none
before_last_slash (c ∷ cs) = elim (before_last_slash cs) [
  | some t ↦ some (c ∷ t)
  | none ↦ if is_slash c then some [] else none
]

abbrev pub root_if_none : Option Text → Text
root_if_none none = codes "/"
root_if_none (some t) = slash_if_empty t

-- An empty text has no slash either, and is cut to the root.
unfoldable pub parent_path : Text → Text
unfolding before_last_slash
parent_path path = root_if_none (before_last_slash (trim_end_slashes path))

pub record FileBrowserState : Type 0 where
  pub peer_id : String
  pub path : Text
  pub entries : List DirEntry
  pub loading : Bool
  pub error : Option String
  pub available_roots : List Text

unfoldable pub new_browser : String → Text → FileBrowserState
new_browser peer_id path = record {
  peer_id = peer_id;
  path = path;
  entries = [];
  loading = true;
  error = none;
  available_roots = [];
}

pub data Mode : Type 0 where
  file_browser : FileBrowserState → Mode
  file_viewer : (browser : FileBrowserState) (viewer : FileViewerState) → Mode
  elsewhere : Mode

-- What a command asks of a peer: its permissions, a directory, or a chunk of a file.
pub data Ask : Type 0 where
  list_permissions : (peer_id : String) → Ask
  list_dir : (peer_id : String) (path : Text) → Ask
  read_file : (peer_id : String) (path : Text) (offset : ℕ) → Ask

pub data GuiMessage : Type 0 where
  file_browser_requested : (peer_id : String) → GuiMessage
  file_browser_permissions_loaded :
      (peer_id : String) (permissions : Result (List Permission)) → GuiMessage
  file_browser_loaded :
      (peer_id : String) (path : Text) (entries : Result (List DirEntry)) → GuiMessage
  file_entry_activated : DirEntry → GuiMessage
  file_navigate_up : GuiMessage
  file_read_loaded : (peer_id : String) (path : Text) (result : Result FileChunk) → GuiMessage
  file_read_more : GuiMessage
  file_viewer_back : GuiMessage
  mode_left : GuiMessage

-- The directory that a browser goes to, before the peer answers.
abbrev pub opening : Text → FileBrowserState → FileBrowserState
opening target s = record s { path = target; entries = []; loading = true; error = none }

abbrev pub open_at : Text → FileBrowserState → Mode × Option Ask
open_at target s = (file_browser (opening target s), some (list_dir s.peer_id target))

unfoldable pub browser_requested : String → Mode × Option Ask
unfolding new_browser
browser_requested peer_id = (file_browser (new_browser peer_id []), some (list_permissions peer_id))

-- `default_browser_path(&perms).unwrap_or_else(|| String::from("/"))`
unfoldable pub first_path : List Permission → Text
unfolding default_browser_path
first_path perms = elim (default_browser_path perms) [ none ↦ codes "/" | some path ↦ path ]

-- The browser that is reset, or the new one in another mode: both are the same.
abbrev pub at_roots : String → List Permission → Mode → Mode
at_roots peer_id perms (file_browser s) =
    if str_eq s.peer_id peer_id
    then file_browser
        (record (opening (first_path perms) s) { available_roots = permissions_roots perms })
    else file_browser (record (new_browser peer_id (first_path perms)) {
      available_roots = permissions_roots perms;
    })
at_roots peer_id perms m =
    file_browser (record (new_browser peer_id (first_path perms)) {
      available_roots = permissions_roots perms;
    })

abbrev pub permissions_failed : String → String → Mode → Mode
permissions_failed peer_id e (file_browser s) =
    if str_eq s.peer_id peer_id
    then file_browser (record s { loading = false; error = some e })
    else file_browser s
permissions_failed peer_id e m = m

unfoldable pub permissions_loaded : String → Result (List Permission) → Mode → Mode × Option Ask
unfolding first_path permissions_roots new_browser
permissions_loaded peer_id (ok perms) m =
    (at_roots peer_id perms m, some (list_dir peer_id (first_path perms)))
permissions_loaded peer_id (err e) m = (permissions_failed peer_id e m, none)

abbrev pub filled : Text → Result (List DirEntry) → FileBrowserState → FileBrowserState
filled path (ok entries) s = record s {
  path = path;
  loading = false;
  entries = entries;
  error = none;
}
filled path (err e) s = record s { path = path; loading = false; entries = []; error = some e }

unfoldable pub directory_loaded : String → Text → Result (List DirEntry) → Mode → Mode
directory_loaded peer_id path entries (file_browser s) =
    if str_eq s.peer_id peer_id then file_browser (filled path entries s) else file_browser s
directory_loaded peer_id path entries m = m

unfoldable pub entry_activated : DirEntry → Mode → Mode × Option Ask
unfolding join_child_path new_viewer
entry_activated entry (file_browser s) =
    let target = join_child_path s.path entry.name in
    if entry.is_dir then open_at target s else (
      file_viewer s (new_viewer s.peer_id target entry.mime),
      some (read_file s.peer_id target 0),
    )
entry_activated entry m = (m, none)

unfoldable pub navigate_up : Mode → Mode × Option Ask
unfolding parent_path normalize_path text_eq
navigate_up (file_browser s) =
    let target = parent_path s.path in
    if any (text_eq (normalize_path s.path)) s.available_roots
    then (file_browser s, none)
    else if text_eq target s.path
    then (file_browser s, none)
    else open_at target s
navigate_up m = (m, none)

-- The command that reads on, where the viewer wants one.
abbrev pub viewing : FileBrowserState → FileViewerState × Option ℕ → Mode × Option Ask
viewing b (v, none) = (file_viewer b v, none)
viewing b (v, some offset) = (file_viewer b v, some (read_file v.peer_id v.path offset))

abbrev pub chunk_arrived : String → Text → Result FileChunk → Mode → Mode × Option Ask
chunk_arrived peer_id path result (file_viewer b v) =
    viewing b (viewer_loaded v peer_id path result)
chunk_arrived peer_id path result m = (m, none)

abbrev pub read_on : Mode → Mode × Option Ask
read_on (file_viewer b v) = viewing b (viewer_more v)
read_on m = (m, none)

-- Any mode but the viewer's is left for the list of peers.
unfoldable pub viewer_back : Mode → Mode
viewer_back (file_viewer b v) = file_browser b
viewer_back m = elsewhere

unfoldable pub update : GuiMessage → Mode → Mode × Option Ask
unfolding browser_requested permissions_loaded directory_loaded entry_activated navigate_up
    viewer_back
update (file_browser_requested peer_id) m = browser_requested peer_id
update (file_browser_permissions_loaded peer_id permissions) m =
    permissions_loaded peer_id permissions m
update (file_browser_loaded peer_id path entries) m =
    (directory_loaded peer_id path entries m, none)
update (file_entry_activated entry) m = entry_activated entry m
update file_navigate_up m = navigate_up m
update (file_read_loaded peer_id path result) m = chunk_arrived peer_id path result m
update file_read_more m = read_on m
update file_viewer_back m = (viewer_back m, none)
update mode_left m = (elsewhere, none)
