-- ===== src/Sharing/Effect.antt =====
-- What the sharing of a folder by core/src/app.rs changes in what peers may access.
use puppypeer.Prelude.{
  ℕ, ◌≡◌, ◌≢◌, ap, ◌∙◌, false, ◌||◌, ◌&&◌, ==_iff, [], ◌∷◌, any-append, ok, Result-cases, inl, inr,
  arith, bit_and,
}
use puppypeer.FilePath.{FilePath, starts_with}
use puppypeer.Rule.{FolderRule, allows, flag_write, can_read, can_write}
use puppypeer.State.{State, PeerId, has_fs_access, add_shared_folder, folder_permits}
use puppypeer.Os.{Os}
use puppypeer.Node.{Node}
use puppypeer.Sharing.{
  register_shared_folder, share_read_only_folder, share_read_write_folder, read_only_flags,
  read_write_flags, share, share,
}

-- A shared folder adds what its rule permits to what each peer may access, and takes nothing away.
has_fs_access-add_shared_folder :
    (s : State) (rule : FolderRule) (peer : PeerId) (path : FilePath) (access : ℕ)
    → has_fs_access (add_shared_folder s rule) peer path access
      ≡ (has_fs_access s peer path access || folder_permits path access rule)
unfolding has_fs_access add_shared_folder
has_fs_access-add_shared_folder s rule peer path access =
    ground (arith, any-append (folder_permits path access) s.shared_folders (rule ∷ []))

-- No read-only rule allows an access that asks to write.
read_only_refuses :
    (path : FilePath) (access : ℕ)
    → bit_and access flag_write ≢ 0
    → allows (record { path = path; flags = read_only_flags }) access ≡ false
unfolding allows can_read can_write
read_only_refuses path access h = ground (arith, ==_iff (bit_and access flag_write) 0)

module _ (os : Os) where
  open os use {Disk, canonicalize}

  -- What a successful `share` did.
  share_cases :
      (flags : ℕ) (n n' : Node Disk) (folder : FilePath)
      → share os flags n folder ≡ ok n'
      → (canonical : FilePath) × (canonicalize folder n.disk ≡ ok canonical)
        × (n' ≡ record n {
          state = add_shared_folder n.state (record { path = canonical; flags = flags });
        })
  unfolding register_shared_folder
  share_cases flags n n' folder h = elim (Result-cases (canonicalize folder n.disk)) [
    | inl (c, e) ↦ (c, e, ground arith)
    | inr (x, e) ↦ absurd (ground arith)
  ]

  -- A folder that was shared for reading and writing adds to what each peer may access exactly what
  -- lies below the folder's canonical path, with the flags for reading, writing and searching.
  pub share_read_write_lem :
      (n n' : Node Disk) (folder path : FilePath) (peer : PeerId) (access : ℕ)
      → share_read_write_folder os n folder ≡ ok n'
      → (canonical : FilePath) × (canonicalize folder n.disk ≡ ok canonical)
        × (has_fs_access n'.state peer path access ≡ (
            has_fs_access n.state peer path access
            || (starts_with path canonical
                && allows (record { path = canonical; flags = read_write_flags }) access)))
  unfolding share_read_write_folder
  share_read_write_lem n n' folder path peer access h =
      let (c, e, is) = share_cases read_write_flags n n' folder h in
      (
        c,
        e,
        ap (λ m. has_fs_access m.state peer path access) is
            ∙ has_fs_access-add_shared_folder n.state
                (record { path = c; flags = read_write_flags }) peer path access,
      )

  -- Sharing a folder for reading only decides no access anew that asks to write, by whatever peer
  -- and below whatever path, and leaves the disk as it was.
  pub share_read_only_lem :
      (n n' : Node Disk) (folder path : FilePath) (peer : PeerId) (access : ℕ)
      → share_read_only_folder os n folder ≡ ok n'
      → bit_and access flag_write ≢ 0
      → (has_fs_access n'.state peer path access ≡ has_fs_access n.state peer path access)
        × (n'.disk ≡ n.disk)
  unfolding share_read_only_folder
  share_read_only_lem n n' folder path peer access h w =
      let (c, e, is) = share_cases read_only_flags n n' folder h in
      (
        ground (
          arith,
          ap (λ m. has_fs_access m.state peer path access) is,
          has_fs_access-add_shared_folder n.state (record { path = c; flags = read_only_flags })
              peer path access,
          read_only_refuses c access w,
        ),
        ap (λ m. m.disk) is,
      )
