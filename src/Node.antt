-- ===== src/Node.antt =====
-- `App::handle_puppy_peer_req` of core/src/app.rs: what a node answers to the request of a peer.
-- `Host` is what the handler takes from its machine and from libraries. The handler runs to its end
-- before the next event is taken, and holds the lock of the state only where the source does; the
-- model takes the state and the disk as they are when the request arrives, so that no other
-- program changes the disk between its steps. Log lines are left out.
pub mod Entries
pub mod Confined
pub mod Outcomes
use Prim.Native.String.{◌++◌ as str_append}
use puppypeer.Prelude.{
  ℕ, ◌≡◌, String, Bool, true, false, ◌==◌, Option, none, some, List, [], ◌∷◌, any, Text, Result, ok,
  err, bit_or, if◌then◌else◌, str_eq, codes,
}
use puppypeer.FilePath.{FilePath, parent, file_name, extension, join}
use puppypeer.Rule.{flag_read, flag_write, flag_search}
use puppypeer.State.{State, PeerId, User, has_fs_access, permissions_for_peer}
use puppypeer.State
use puppypeer.Os.{Os, Bytes, Metadata, DirItem}
use puppypeer.Files.{FileChunk, FileWriteAck}
use puppypeer.Files
use puppypeer.Wire.{
  PeerReq, list_dir, stat_file, read_file, write_file, list_cpus, list_disks, list_interfaces,
  authenticate, create_user, create_token, grant_access, list_users, list_tokens, revoke_token,
  revoke_user, list_permissions, PeerRes, dir_entries, file_stat, file_chunk, write_ack, cpus,
  interfaces, user_created, token_issued, error, permissions, DirEntry, CpuInfo, InterfaceInfo,
  PermissionGrant,
}
use Entries.{Host, collect_dir_entries, is_dated}

-- How a handler ends: with a response, with an error, or by a panic.
pub data Outcome : Type 0 where
  done : PeerRes → Outcome
  failed : String → Outcome
  panicked : Outcome

-- What `App` and the world hold: the state behind its lock, which is poisoned once a holder has
-- panicked, and the disk.
pub record Node (D : Type 0) : Type 0 where
  pub state : State
  pub poisoned : Bool
  pub disk : D

abbrev pub read_access : ℕ
read_access = bit_or flag_read flag_search

abbrev pub write_access : ℕ
write_access = bit_or (bit_or flag_write flag_read) flag_search

-- `?` on the result of the last step.
abbrev pub respond {ℓ} : {A : Type ℓ} → (A → PeerRes) → Result A → Outcome
respond f (ok a) = done (f a)
respond f (err e) = failed e

-- `none` is a panic.
abbrev pub respond_unless {ℓ} : {A : Type ℓ} → (A → PeerRes) → Option (Result A) → Outcome
respond_unless f none = panicked
respond_unless f (some r) = respond f r

abbrev pub denied : Outcome
denied = done (error "Access denied")

module _ (host : Host) where
  open host use {os, cpu_info, interface_info, mime_of}
  open os use {Disk, canonicalize, metadata}

  unfoldable pub can_access : Node Disk → PeerId → FilePath → ℕ → Bool
  can_access n peer path access =
      if n.poisoned then false else has_fs_access n.state peer path access

  unfoldable pub list_dir_res : Node Disk → PeerId → Text → Outcome
  list_dir_res n peer path = elim (canonicalize path n.disk) [
    | err e ↦ done (error (str_append "Failed to access directory: " e))
    | ok canonical ↦
        if can_access n peer canonical read_access
        then respond_unless dir_entries (collect_dir_entries host canonical n.disk)
        else denied
  ]

  abbrev pub or_empty : Option Text → Text
  or_empty none = []
  or_empty (some t) = t

  -- The times are within what chrono holds.
  pub stat_entry : FilePath → Metadata → DirEntry
  stat_entry canonical m = record {
    name = or_empty (file_name canonical);
    is_dir = m.is_dir;
    extension = extension canonical;
    mime = if m.is_dir then none else mime_of canonical;
    size = m.len;
    created_at = m.created;
    modified_at = m.modified;
    accessed_at = m.accessed;
  }

  abbrev pub stat_outcome : FilePath → Result Metadata → Outcome
  stat_outcome canonical (err e) = failed e
  stat_outcome canonical (ok m) =
      if is_dated host m then done (file_stat (stat_entry canonical m)) else panicked

  unfoldable pub stat_file_res : Node Disk → PeerId → Text → Outcome
  stat_file_res n peer path = elim (canonicalize path n.disk) [
    | err e ↦ done (error (str_append "Failed to access file: " e))
    | ok canonical ↦
        if can_access n peer canonical read_access
        then stat_outcome canonical (metadata canonical n.disk)
        else denied
  ]

  unfoldable pub read_file_res : Node Disk → PeerId → Text → ℕ → Option ℕ → Outcome
  read_file_res n peer path offset len = elim (canonicalize path n.disk) [
    | err e ↦ done (error (str_append "Failed to access file: " e))
    | ok canonical ↦
        if can_access n peer canonical read_access
        then respond file_chunk (Files.read_file os canonical offset len n.disk)
        else denied
  ]

  -- The file that a write goes to: the canonical path of an existing one, or the name in the
  -- canonical path of its parent. An error is the text of the response.
  unfoldable pub resolve_write : Text → Disk → Result FilePath
  resolve_write path d = elim (metadata path d) [
    | ok _ ↦ elim (canonicalize path d) [
      | ok p ↦ ok p
      | err e ↦ err (str_append "Failed to access file: " e)
    ]
    | err _ ↦ elim (parent path) [
      | none ↦ err "Invalid path"
      | some dir ↦ elim (canonicalize dir d) [
        | err e ↦ err (str_append "Failed to access parent directory: " e)
        | ok base ↦ elim (file_name path) [
          | some name ↦ ok (join base name)
          | none ↦ err "Invalid file name"
        ]
      ]
    ]
  ]

  pub write_to : Node Disk → FilePath → ℕ → Bytes → Outcome × Node Disk
  write_to n path offset bs =
      let (r, d) = Files.write_file os path offset bs n.disk in
      (respond write_ack r, record n { disk = d })

  unfoldable pub write_file_res : Node Disk → PeerId → Text → ℕ → Bytes → Outcome × Node Disk
  unfolding write_to
  write_file_res n peer path offset bs = elim (resolve_write path n.disk) [
    | err e ↦ (done (error e), n)
    | ok canonical ↦
        if can_access n peer canonical write_access
        then write_to n canonical offset bs
        else (denied, n)
  ]

  unfoldable pub list_permissions_res : Node Disk → PeerId → Outcome
  list_permissions_res n peer =
      if n.poisoned
      then done (error "State unavailable")
      else done (permissions (permissions_for_peer n.state peer))

  -- `lock().unwrap()` panics on a poisoned lock.
  unfoldable pub create_user_res : Node Disk → String → String → Outcome × Node Disk
  create_user_res n username password =
      if n.poisoned then (panicked, n) else elim (State.create_user n.state username password) [
        | err e ↦ (failed e, n)
        | ok s ↦ (done (user_created username), record n { state = s })
      ]

  unfoldable pub create_token_res : Node Disk → String → Outcome
  create_token_res n username =
      if n.poisoned
      then panicked
      else if any (λ u. str_eq u.name username) n.state.users
      then done (
          token_issued (record {
            token = "";
            token_id = "";
            username = username;
            permissions = [];
            expires_at = none;
          }))
      else done (error "User does not exist")

  -- `todo!()` panics.
  unfoldable pub handle_puppy_peer_req : Node Disk → PeerId → PeerReq → Outcome × Node Disk
  handle_puppy_peer_req n peer (list_dir path) = (list_dir_res n peer path, n)
  handle_puppy_peer_req n peer (stat_file path) = (stat_file_res n peer path, n)
  handle_puppy_peer_req n peer (read_file path offset len) =
      (read_file_res n peer path offset len, n)
  handle_puppy_peer_req n peer (write_file path offset bs) = write_file_res n peer path offset bs
  handle_puppy_peer_req n peer list_cpus = (done (cpus cpu_info), n)
  handle_puppy_peer_req n peer list_disks = (done (error "ListDisks not implemented"), n)
  handle_puppy_peer_req n peer list_interfaces = (done (interfaces interface_info), n)
  handle_puppy_peer_req n peer list_permissions = (list_permissions_res n peer, n)
  handle_puppy_peer_req n peer (authenticate method) = (panicked, n)
  handle_puppy_peer_req n peer (create_user username password roles grants) =
      create_user_res n username password
  handle_puppy_peer_req n peer (create_token username label expires_in grants) =
      (create_token_res n username, n)
  handle_puppy_peer_req n peer (grant_access username grants merge) =
      (done (error "GrantAccess not implemented"), n)
  handle_puppy_peer_req n peer list_users = (done (error "ListUsers not implemented"), n)
  handle_puppy_peer_req n peer (list_tokens username) =
      (done (error "ListTokens not implemented"), n)
  handle_puppy_peer_req n peer (revoke_token token_id) =
      (done (error "RevokeToken not implemented"), n)
  handle_puppy_peer_req n peer (revoke_user username) =
      (done (error "RevokeUser not implemented"), n)

  -- What `handle_agent_event` sends back.
  abbrev pub answer : Outcome → Option PeerRes
  answer (done res) = some res
  answer (failed e) = some (error "Internal error")
  answer panicked = none
