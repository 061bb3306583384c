-- ===== src/Node/Outcomes.antt =====
-- How the handler of core/src/app.rs ends, and what becomes of the state.
use puppypeer.Prelude.{
  ok, err, Option, none, some, Text, All, Result, Result-cases, inl, inr, ℕ, String, ◌≡◌, refl,
  Bool, true, false, List, [], ◌∷◌, ◌++◌, any, arith, if◌then◌else◌, str_eq,
}
use puppypeer.FilePath.{FilePath}
use puppypeer.State.{State, PeerId, has_fs_access}
use puppypeer.State
use puppypeer.State.Roster.{IsWellFormed, operate, operate-IsWellFormed, creates_user, after}
use puppypeer.Wire.{
  DirEntry, PeerReq, list_dir, stat_file, read_file, write_file, authenticate, create_user,
  create_token, list_permissions, user_created, PermissionGrant,
}
use puppypeer.Node.{
  Node, Outcome, done, failed, panicked, list_dir_res, stat_file_res, read_file_res, write_file_res,
  list_permissions_res, create_user_res, create_token_res, handle_puppy_peer_req,
}
use puppypeer.Node.Entries.{Host, is_dated, collect_items, collect_dir_entries}
use puppypeer.Os.{Metadata, DirItem}

-- The requests that end in a panic: an attempt to authenticate always, and where the lock is
-- poisoned the two that unwrap it.
abbrev pub panics : Bool → PeerReq → Bool
panics poisoned (authenticate method) = true
panics poisoned (create_user username password roles grants) = poisoned
panics poisoned (create_token username label expires_in grants) = poisoned
panics poisoned req = false

abbrev pub is_panic : Outcome → Bool
is_panic (done res) = false
is_panic (failed e) = false
is_panic panicked = true

-- The state that a request leaves: that of `State::create_user`, if this is what is asked for.
abbrev pub state_after : State → Bool → PeerReq → State
state_after s poisoned (create_user username password roles grants) =
    if poisoned then s else after s (State.create_user s username password)
state_after s poisoned req = s

module _ (host : Host) where
  open host use {os}
  open os use {Disk, metadata, read_dir, canonicalize}

  abbrev pub IsDatedItem : Result DirItem → Type 0
  IsDatedItem (err e) = Unit
  IsDatedItem (ok item) = (m : Metadata) → item.metadata ≡ ok m → is_dated host m ≡ true

  -- The disk reports no time that a `DateTime` of chrono cannot hold.
  pub record IsDatedDisk (d : Disk) : Type 0 where
    pub files : (p : FilePath) (m : Metadata) → metadata p d ≡ ok m → is_dated host m ≡ true
    pub items : (p : FilePath) (l : List (Result DirItem)) → read_dir p d ≡ ok l → All IsDatedItem l

  abbrev comes : Option (Result (List DirEntry)) → Bool
  comes none = false
  comes (some r) = true

  collect_items-comes :
      (path : FilePath) (l : List (Result DirItem))
      → All IsDatedItem l
      → comes (collect_items host path l) ≡ true
  unfolding collect_items
  collect_items-comes path [] h = refl
  collect_items-comes path (err e ∷ l) h = refl
  collect_items-comes path (ok item ∷ l) h =
      let rest = collect_items-comes path l h.1 in
      elim (Result-cases item.metadata) [
        | inl (m, e) ↦ ground (arith, h.0 m e, rest)
        | inr (x, e) ↦ ground (arith, rest)
      ]

  collect_dir_entries-comes :
      (path : FilePath) (d : Disk) → IsDatedDisk d → comes (collect_dir_entries host path d) ≡ true
  unfolding collect_dir_entries
  collect_dir_entries-comes path d h = elim (Result-cases (read_dir path d)) [
    | inl (l, e) ↦ ground (arith, collect_items-comes path l (h.items path l e))
    | inr (x, e) ↦ ground arith
  ]

  stat_file_runs :
      (n : Node Disk) (peer : PeerId) (path : Text)
      → IsDatedDisk n.disk
      → is_panic (stat_file_res host n peer path) ≡ false
  unfolding stat_file_res
  stat_file_runs n peer path h = elim (Result-cases (canonicalize path n.disk)) [
    | inl (p, e) ↦ elim (Result-cases (metadata p n.disk)) [
      | inl (m, f) ↦ ground (arith, h.files p m f)
      | inr (x, f) ↦ ground arith
    ]
    | inr (x, e) ↦ ground arith
  ]

  list_dir_runs :
      (n : Node Disk) (peer : PeerId) (path : Text)
      → IsDatedDisk n.disk
      → is_panic (list_dir_res host n peer path) ≡ false
  unfolding list_dir_res
  list_dir_runs n peer path h = elim (Result-cases (canonicalize path n.disk)) [
    | inl (p, e) ↦ ground (arith, collect_dir_entries-comes p n.disk h)
    | inr (x, e) ↦ ground arith
  ]

  -- Where the disk reports no time that chrono cannot hold, a request panics exactly if it asks to
  -- authenticate, or asks for a user or a token while the lock of the state is poisoned.
  pub handle-panics :
      (n : Node Disk) (peer : PeerId) (req : PeerReq)
      → IsDatedDisk n.disk
      → is_panic (handle_puppy_peer_req host n peer req).0 ≡ panics n.poisoned req
  unfolding handle_puppy_peer_req
  handle-panics n peer (list_dir path) d = list_dir_runs n peer path d
  handle-panics n peer (stat_file path) d = stat_file_runs n peer path d
  handle-panics n peer (read_file path offset len) d = unfold read_file_res in ground arith
  handle-panics n peer (write_file path offset bs) d = unfold write_file_res in ground arith
  handle-panics n peer list_permissions d = unfold list_permissions_res in ground arith
  handle-panics n peer (create_user username password roles grants) d =
      unfold create_user_res in ground arith
  handle-panics n peer (create_token username label expires_in grants) d =
      unfold create_token_res in ground arith
  handle-panics n peer req d = refl

  -- Of the state a request changes what `create_user` changes, and nothing else.
  handle-state :
      (n : Node Disk) (peer : PeerId) (req : PeerReq)
      → (handle_puppy_peer_req host n peer req).1.state ≡ state_after n.state n.poisoned req
  unfolding handle_puppy_peer_req
  handle-state n peer (write_file path offset bs) = unfold write_file_res in ground arith
  handle-state n peer (create_user username password roles grants) =
      unfold create_user_res in ground arith
  handle-state n peer req = refl

  create_user-access :
      (s : State) (username password : String) (src : PeerId) (path : FilePath) (access : ℕ)
      → has_fs_access (after s (State.create_user s username password)) src path access
        ≡ has_fs_access s src path access
  unfolding State.create_user has_fs_access
  create_user-access s username password src path access = ground arith

  state_after-access :
      (s : State) (poisoned : Bool) (req : PeerReq) (src : PeerId) (path : FilePath) (access : ℕ)
      → has_fs_access (state_after s poisoned req) src path access ≡ has_fs_access s src path access
  state_after-access s false (create_user username password roles grants) src path access =
      create_user-access s username password src path access
  state_after-access s true (create_user username password roles grants) src path access = refl
  state_after-access s poisoned req src path access = refl

  -- No request of any peer changes what any peer may access.
  pub handle-access :
      (n : Node Disk) (peer : PeerId) (req : PeerReq) (src : PeerId) (path : FilePath) (access : ℕ)
      → has_fs_access (handle_puppy_peer_req host n peer req).1.state src path access
        ≡ has_fs_access n.state src path access
  handle-access n peer req src path access =
      rw (handle-state n peer req) (state_after-access n.state n.poisoned req src path access)

  -- A request, successful or not, keeps the state well formed.
  pub handle-IsWellFormed :
      (n : Node Disk) (peer : PeerId) (req : PeerReq)
      → IsWellFormed n.state
      → IsWellFormed (handle_puppy_peer_req host n peer req).1.state
  handle-IsWellFormed n peer req w = rw (handle-state n peer req) (go n.poisoned req)
    where
      go : (b : Bool) (req : PeerReq) → IsWellFormed (state_after n.state b req)
      go false (create_user username password roles grants) =
          unfold operate in operate-IsWellFormed (creates_user username password) w
      go true (create_user username password roles grants) = w
      go b req = w

  -- Any peer, whatever its permissions, can add a user: if the name is free the user is there
  -- afterwards with the given password, and nobody is asked.
  pub create_user_by_anyone :
      (n : Node Disk) (peer : PeerId) (username password : String) (roles : List String)
      (grants : List PermissionGrant)
      → n.poisoned ≡ false
      → any (λ u. str_eq u.name username) n.state.users ≡ false
      → let (outcome, n') =
          handle_puppy_peer_req host n peer (create_user username password roles grants) in
        (outcome ≡ done (user_created username))
        × (n'.state.users ≡ n.state.users ++ record { name = username; passw = password } ∷ [])
  unfolding handle_puppy_peer_req create_user_res State.create_user
  create_user_by_anyone n peer username password roles grants p free = ground arith
