-- ===== src/Grant.antt =====
-- What a grant of core/src/p2p.rs permits: `Capability`, `PermissionGrant::allows`,
-- `default_permissions_for_roles`, `normalize_path` and `path_matches`. Sets are lists without
-- repetition. `trim` is that of `str`, on Unicode white space.
pub mod Match
pub mod Roles
use mathlib.Core.List.{reverse}
use puppypeer.Prelude.{
  ℕ, String, Bool, true, false, ◌==◌, ◌||◌, ◌&&◌, List, [], ◌∷◌, ◌++◌, map, any, Text, codes,
  text_eq, leb, str_eq, if◌then◌else◌,
}
use puppypeer.Wire.{
  FileAccess, read, read_write, PermissionGrant, owner, viewer, files, system_info, disk_info,
  network_info,
}

pub data Capability : Type 0 where
  file_read file_write : Text → Capability
  system disks network : Capability

unfoldable pub is_read_only : Capability → Bool
is_read_only (file_read p) = true
is_read_only (file_write p) = false
is_read_only system = true
is_read_only disks = true
is_read_only network = true

-- `char::is_whitespace`
abbrev pub is_whitespace : ℕ → Bool
is_whitespace c =
    (leb 9 c && leb c 13)
    || (leb 0x2000 c && leb c 0x200a)
    || any (λ x. x == c)
        (0x20 ∷ 0x85 ∷ 0xa0 ∷ 0x1680 ∷ 0x2028 ∷ 0x2029 ∷ 0x202f ∷ 0x205f ∷ 0x3000 ∷ [])

unfoldable pub skip_while : (ℕ → Bool) → Text → Text
skip_while p [] = []
skip_while p (c ∷ cs) = if p c then skip_while p cs else c ∷ cs

-- `str::trim`
unfoldable pub trim : Text → Text
unfolding skip_while
trim t = reverse (skip_while is_whitespace (reverse (skip_while is_whitespace t)))

abbrev pub is_slash : ℕ → Bool
is_slash c = c == b'/'

-- `trim_start_matches('/')`
abbrev pub trim_start_slashes : Text → Text
trim_start_slashes = skip_while is_slash

-- `replace('\\', "/")`
abbrev pub to_slash : ℕ → ℕ
to_slash c = if c == b'\\' then b'/' else c

-- The loop of `normalize_path`, on the reversed text: the last slash is popped while another
-- character is left.
unfoldable pub pop_slashes : Text → Text
pop_slashes [] = []
pop_slashes (c ∷ []) = c ∷ []
pop_slashes (c ∷ d ∷ cs) =
    let rest = pop_slashes (d ∷ cs) in if is_slash c then rest else c ∷ d ∷ cs

abbrev pub or_root : Text → Text
or_root [] = codes "/"
or_root (c ∷ cs) = c ∷ cs

abbrev pub normalize_trimmed : Text → Text
normalize_trimmed [] = codes "/"
normalize_trimmed (c ∷ cs) = or_root (reverse (pop_slashes (reverse (map to_slash (c ∷ cs)))))

unfoldable pub normalize_path : Text → Text
unfolding trim pop_slashes
normalize_path path = normalize_trimmed (trim path)

-- `str::starts_with`
unfoldable pub text_starts_with : Text → Text → Bool
text_starts_with t [] = true
text_starts_with [] (p ∷ ps) = false
text_starts_with (c ∷ cs) (p ∷ ps) = c == p && text_starts_with cs ps

unfoldable pub path_matches : Text → Text → Bool
unfolding text_eq normalize_path text_starts_with
path_matches grant request =
    if text_eq grant [] || text_eq grant (codes "/") || text_eq grant (codes "*")
    then true
    else let grant_norm = normalize_path grant in
      let request_norm = normalize_path request in
      let grant_cmp = trim_start_slashes grant_norm in
      let request_cmp = trim_start_slashes request_norm in
      if text_eq request_norm grant_norm || text_eq request_cmp grant_cmp
      then true
      else text_starts_with request_norm (grant_norm ++ codes "/")
        || text_starts_with request_cmp (grant_cmp ++ codes "/")

abbrev pub is_read_write : FileAccess → Bool
is_read_write read = false
is_read_write read_write = true

abbrev pub files_allow : Text → FileAccess → Capability → Bool
files_allow path access (file_read request_path) = path_matches path request_path
files_allow path access (file_write request_path) =
    is_read_write access && path_matches path request_path
files_allow path access other = false

abbrev pub is_system : Capability → Bool
is_system system = true
is_system other = false

abbrev pub is_disks : Capability → Bool
is_disks disks = true
is_disks other = false

abbrev pub is_network : Capability → Bool
is_network network = true
is_network other = false

unfoldable pub allows : PermissionGrant → Capability → Bool
unfolding is_read_only path_matches
allows owner capability = true
allows viewer capability = is_read_only capability
allows (files path access) capability = files_allow path access capability
allows system_info capability = is_system capability
allows disk_info capability = is_disks capability
allows network_info capability = is_network capability

abbrev pub contains : String → List String → Bool
contains role roles = any (λ r. str_eq r role) roles

abbrev pub owner_role : String
owner_role = "owner"

abbrev pub viewer_role : String
viewer_role = "viewer"

unfoldable pub default_permissions_for_roles : List String → List PermissionGrant
default_permissions_for_roles roles =
    if contains owner_role roles
    then owner ∷ []
    else if contains viewer_role roles
    then viewer ∷ system_info ∷ disk_info ∷ network_info ∷ files (codes "/") read ∷ []
    else []
