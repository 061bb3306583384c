-- ===== src/Editor.antt =====
-- The editor of a peer's permissions in cli/src/gui.rs: `PeerPermissionsState`,
-- `EditableFolderPermission` and the messages that change them. A message in another mode than
-- the editor's does nothing; the status line is left out.
pub mod RoundTrip
pub mod Expiry
use mathlib.Core.List.{reverse}
use Prim.Native.String.{◌++◌ as str_append}
use puppypeer.Prelude.{
  ℕ, zero, suc, String, Bool, true, false, ◌&&◌, ◌||◌, ◌==◌, Option, none, some, List, [], ◌∷◌,
  ◌++◌, Text, codes, text_eq, str_eq, Result, ok, err, ◌>>=◌, bit_or, if◌then◌else◌,
}
use puppypeer.Rule.{
  Permission, Rule, owner, folder, FolderRule, permission, can_read, can_write, flag_read,
  flag_write, flag_search,
}
use puppypeer.Grant.{trim, skip_while, is_slash}

pub record EditableFolderPermission : Type 0 where
  pub path : Text
  pub read : Bool
  pub write : Bool

pub record PeerPermissionsState : Type 0 where
  pub peer_id : String
  pub owner : Bool
  pub folders : List EditableFolderPermission
  pub loading : Bool
  pub saving : Bool
  pub error : Option String

-- `trim_end_matches('/')`
abbrev pub trim_end_slashes : Text → Text
trim_end_slashes t = reverse (skip_while is_slash (reverse t))

abbrev pub slash_if_empty : Text → Text
slash_if_empty [] = codes "/"
slash_if_empty (c ∷ cs) = c ∷ cs

-- The source tests for an empty text before and after the slashes are trimmed; of an empty text
-- nothing is left either.
unfoldable pub normalize_path : Text → Text
unfolding trim skip_while
normalize_path path = slash_if_empty (trim_end_slashes (trim path))

unfoldable pub from_rule : FolderRule → EditableFolderPermission
unfolding can_read can_write
from_rule r = record { path = r.path; read = can_read r; write = can_write r }

abbrev pub flags_of : Bool → Bool → ℕ
flags_of read write =
    let searching = flag_search in
    let reading = if read then bit_or searching flag_read else searching in
    if write then bit_or reading flag_write else reading

-- The second error names the path too.
unfoldable pub to_permission : EditableFolderPermission → Result Permission
unfolding normalize_path trim
to_permission e =
    if text_eq (trim e.path) []
    then err "Folder path cannot be empty"
    else if flags_of e.read e.write == flag_search
    then err "Permission must allow read or write access"
    else ok (
        permission
          (folder (record { path = normalize_path e.path; flags = flags_of e.read e.write })))

unfoldable pub loading_state : String → PeerPermissionsState
loading_state peer_id = record {
  peer_id = peer_id;
  owner = false;
  folders = [];
  loading = true;
  saving = false;
  error = none;
}

abbrev pub add_rule : Rule → PeerPermissionsState → PeerPermissionsState
add_rule Rule.owner s = record s { owner = true }
add_rule (folder r) s = record s { folders = s.folders ++ from_rule r ∷ [] }

unfoldable pub add_rules : List Permission → PeerPermissionsState → PeerPermissionsState
unfolding from_rule
add_rules [] s = s
add_rules (p ∷ ps) s = add_rules ps (add_rule p.rule s)

unfoldable pub from_permissions : String → List Permission → PeerPermissionsState
unfolding add_rules
from_permissions peer_id permissions =
    add_rules permissions (record (loading_state peer_id) { loading = false })

unfoldable pub folder_permissions : List EditableFolderPermission → Result (List Permission)
unfolding to_permission
folder_permissions [] = ok []
folder_permissions (e ∷ es) =
    let rest = folder_permissions es in to_permission e >>= λ p. rest >>= λ ps. ok (p ∷ ps)

unfoldable pub build_permissions : PeerPermissionsState → Result (List Permission)
unfolding folder_permissions
build_permissions s =
    folder_permissions s.folders >>= λ ps. ok (if s.owner then permission Rule.owner ∷ ps else ps)

-- `folders.get_mut(index)`
unfoldable pub change_at :
    (EditableFolderPermission → EditableFolderPermission)
    → ℕ
    → List EditableFolderPermission
    → List EditableFolderPermission
change_at f i [] = []
change_at f zero (e ∷ es) = f e ∷ es
change_at f (suc i) (e ∷ es) = e ∷ change_at f i es

-- `folders.remove(index)`, within the bounds.
unfoldable pub remove_at : ℕ → List EditableFolderPermission → List EditableFolderPermission
remove_at i [] = []
remove_at zero (e ∷ es) = es
remove_at (suc i) (e ∷ es) = e ∷ remove_at i es

unfoldable pub owner_toggled : Bool → PeerPermissionsState → PeerPermissionsState
owner_toggled value s = record s { owner = value; error = none }

unfoldable pub folder_path_changed : ℕ → Text → PeerPermissionsState → PeerPermissionsState
unfolding change_at
folder_path_changed index path s = record s {
  folders = change_at (λ e. record e { path = path }) index s.folders;
  error = none;
}

unfoldable pub folder_read_toggled : ℕ → Bool → PeerPermissionsState → PeerPermissionsState
unfolding change_at
folder_read_toggled index value s = record s {
  folders = change_at (λ e. record e { read = value }) index s.folders;
  error = none;
}

unfoldable pub folder_write_toggled : ℕ → Bool → PeerPermissionsState → PeerPermissionsState
unfolding change_at
folder_write_toggled index value s = record s {
  folders = change_at (λ e. record e { write = value }) index s.folders;
  error = none;
}

unfoldable pub folder_removed : ℕ → PeerPermissionsState → PeerPermissionsState
unfolding remove_at
folder_removed index s = record s { folders = remove_at index s.folders; error = none }

unfoldable pub add_folder : PeerPermissionsState → PeerPermissionsState
add_folder s = record s {
  folders = s.folders ++ record { path = codes "/"; read = true; write = false } ∷ [];
  error = none;
}

abbrev pub prepared :
    PeerPermissionsState
    → Result (List Permission)
    → PeerPermissionsState × Option (List Permission)
prepared s (ok permissions) = (record s { saving = true; error = none }, some permissions)
prepared s (err e) = (record s { error = some e }, none)

-- The state, and the permissions that a command saves.
unfoldable pub permissions_save :
    PeerPermissionsState → PeerPermissionsState × Option (List Permission)
unfolding build_permissions
permissions_save s = prepared s (build_permissions s)

-- A reply about another peer is dropped.
unfoldable pub permissions_saved :
    PeerPermissionsState → String → Result (List Permission) → PeerPermissionsState
unfolding from_permissions
permissions_saved s peer_id result =
    if str_eq s.peer_id peer_id
    then elim result [
      | ok permissions ↦ from_permissions peer_id permissions
      | err e ↦ record s { saving = false; error = some e }
    ]
    else s

unfoldable pub permissions_loaded :
    PeerPermissionsState → String → Result (List Permission) → PeerPermissionsState
unfolding from_permissions
permissions_loaded s peer_id result =
    if str_eq s.peer_id peer_id
    then elim result [
      | ok permissions ↦ from_permissions peer_id permissions
      | err e ↦ record s { loading = false; error = some e }
    ]
    else s
