-- ===== src/Node/Confined.antt =====
-- What the requests of a peer can see and change, in `handle_puppy_peer_req` of core/src/app.rs.
use puppypeer.Prelude.{
  ℕ, String, ◌≡◌, ◌⊎◌, refl, Bool, true, false, Option, none, some, Text, ok, Result-cases, inl,
  inr, arith,
}
use puppypeer.FilePath.{FilePath, join}
use puppypeer.State.{PeerId, has_fs_access}
use puppypeer.State.Access.{MayAccess, has_fs_access_iff}
use puppypeer.Os.{Laws, IsQuiet, Bytes}
use puppypeer.Wire.{
  PeerReq, list_dir, stat_file, read_file, write_file, create_user, create_token, list_permissions,
  PeerRes, dir_entries, file_stat, file_chunk,
}
use puppypeer.Node.{
  Node, done, read_access, write_access, can_access, list_dir_res, stat_file_res, read_file_res,
  write_file_res, list_permissions_res, create_user_res, create_token_res, handle_puppy_peer_req,
}
use puppypeer.Node.Entries.{Host}

-- The responses that tell something of the disk.
abbrev pub discloses : PeerRes → Bool
discloses (dir_entries es) = true
discloses (file_stat e) = true
discloses (file_chunk c) = true
discloses res = false

-- The path that a request for reading names.
abbrev pub read_path : PeerReq → Option Text
read_path (list_dir path) = some path
read_path (stat_file path) = some path
read_path (read_file path offset len) = some path
read_path req = none

module _ (host : Host) where
  open host use {os}
  open os use {Disk, File, file_at, settle, content, canonicalize, metadata, open_write}

  -- The path of the request leads to a place that the peer may read.
  abbrev pub MayRead : Node Disk → PeerId → Text → Type 0
  MayRead n peer path =
      (canonical : FilePath) × (canonicalize path n.disk ≡ ok canonical)
      × MayAccess n.state peer canonical read_access

  pub may_access :
      (n : Node Disk) (peer : PeerId) (path : FilePath) (access : ℕ)
      → can_access host n peer path access ≡ true
      → MayAccess n.state peer path access
  unfolding can_access
  may_access n peer path access h = (has_fs_access_iff n.state peer path access).0 (ground arith)

  list_dir-MayRead :
      (n : Node Disk) (peer : PeerId) (path : Text) (res : PeerRes)
      → list_dir_res host n peer path ≡ done res
      → discloses res ≡ true
      → MayRead n peer path
  unfolding list_dir_res
  list_dir-MayRead n peer path res h s = elim (Result-cases (canonicalize path n.disk)) [
    | inl (canonical, e) ↦ (canonical, e, may_access n peer canonical read_access (ground arith))
    | inr (x, e) ↦ absurd (ground arith)
  ]

  stat_file-MayRead :
      (n : Node Disk) (peer : PeerId) (path : Text) (res : PeerRes)
      → stat_file_res host n peer path ≡ done res
      → discloses res ≡ true
      → MayRead n peer path
  unfolding stat_file_res
  stat_file-MayRead n peer path res h s = elim (Result-cases (canonicalize path n.disk)) [
    | inl (canonical, e) ↦ (canonical, e, may_access n peer canonical read_access (ground arith))
    | inr (x, e) ↦ absurd (ground arith)
  ]

  read_file-MayRead :
      (n : Node Disk) (peer : PeerId) (path : Text) (offset : ℕ) (len : Option ℕ) (res : PeerRes)
      → read_file_res host n peer path offset len ≡ done res
      → discloses res ≡ true
      → MayRead n peer path
  unfolding read_file_res
  read_file-MayRead n peer path offset len res h s =
      elim (Result-cases (canonicalize path n.disk)) [
        | inl (canonical, e) ↦
            (canonical, e, may_access n peer canonical read_access (ground arith))
        | inr (x, e) ↦ absurd (ground arith)
      ]

  create_user_tells :
      (n : Node Disk) (username password : String) (res : PeerRes)
      → (create_user_res host n username password).0 ≡ done res
      → discloses res ≡ false
  unfolding create_user_res
  create_user_tells n username password res h = ground arith

  write_file_tells :
      (n : Node Disk) (peer : PeerId) (path : Text) (offset : ℕ) (bs : Bytes) (res : PeerRes)
      → (write_file_res host n peer path offset bs).0 ≡ done res
      → discloses res ≡ false
  unfolding write_file_res
  write_file_tells n peer path offset bs res h = ground arith

  -- A request that is answered with entries, metadata or bytes of a file named a path that leads, on
  -- the disk as it is, to a place that the peer may read and search.
  pub disclosed-MayRead :
      (n : Node Disk) (peer : PeerId) (req : PeerReq) (res : PeerRes)
      → (handle_puppy_peer_req host n peer req).0 ≡ done res
      → discloses res ≡ true
      → (path : Text) × (read_path req ≡ some path) × MayRead n peer path
  unfolding handle_puppy_peer_req
  disclosed-MayRead n peer (list_dir path) res h s =
      (path, refl, list_dir-MayRead n peer path res h s)
  disclosed-MayRead n peer (stat_file path) res h s =
      (path, refl, stat_file-MayRead n peer path res h s)
  disclosed-MayRead n peer (read_file path offset len) res h s =
      (path, refl, read_file-MayRead n peer path offset len res h s)
  disclosed-MayRead n peer (write_file path offset bs) res h s =
      absurd (ground (arith, write_file_tells n peer path offset bs res h))
  disclosed-MayRead n peer list_permissions res h s =
      absurd (unfold list_permissions_res in ground arith)
  disclosed-MayRead n peer (create_user username password roles grants) res h s =
      absurd (ground (arith, create_user_tells n username password res h))
  disclosed-MayRead n peer (create_token username label expires_in grants) res h s =
      absurd (unfold create_token_res in ground arith)
  disclosed-MayRead n peer req res h s = absurd (ground arith)

  -- A path whose directories are resolved: a canonical one, or a name in a canonical directory.
  abbrev pub IsResolved : FilePath → Disk → Type 0
  IsResolved p d =
      (canonicalize p d ≡ ok p)
      ⊎ ((base : FilePath) × (name : Text) × (canonicalize base d ≡ ok base) × (p ≡ join base name))

  -- The peer may write the file at none of the resolved paths that lead to it.
  abbrev pub IsUnwritable : Node Disk → PeerId → File → Type 0
  IsUnwritable n peer i =
      (p : FilePath)
      → IsResolved p n.disk
      → file_at p n.disk ≡ some i
      → has_fs_access n.state peer p write_access ≡ false

  module _ (laws : Laws os) (n : Node Disk) (peer : PeerId) (quiet : IsQuiet os n.disk)
      (q : FilePath) (i : File) (leads : file_at q n.disk ≡ some i)
      (deny : IsUnwritable n peer i) where
    -- The file at the path, and on a disk on which all has settled.
    abbrev IsKept : Disk → Type 0
    IsKept d = (content q d ≡ content q n.disk) × (content q (settle d).1 ≡ content q n.disk)
