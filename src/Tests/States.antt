-- ===== src/Tests/States.antt =====
-- Witnesses for State.antt and Rule.antt.
use puppypeer.Prelude.{◌≡◌, ◌↔◌, refl, true, false, some, [], ◌∷◌, codes, arith, any, Option}
use puppypeer.FilePath.{FilePath, starts_with}
use puppypeer.Rule.{Permission, I64, positive, allows}
use puppypeer.State.{
  has_fs_access, permissions_for_peer, permissions_granted_to_peer, set_peer_permissions, permits,
  folder_permits,
}
use puppypeer.State.Access.{MayAccess, has_fs_access_iff, has_fs_access-permissions_for_peer}
use puppypeer.State.Grants.{set_peer_permissions_lem, revoke_lem}
use puppypeer.Tests.Fixtures.{home, home-IsWellFormed, srv_permission, box_permission}

abbrev srv_file : FilePath
srv_file = codes "/srv/a"

access_runs : (has_fs_access home 2 srv_file 9 ≡ true) × (has_fs_access home 3 srv_file 9 ≡ false)
unfolding has_fs_access starts_with allows
access_runs = (refl, refl)

has_fs_access_iff_example : (has_fs_access home 2 srv_file 9 ≡ true) ↔ MayAccess home 2 srv_file 9
has_fs_access_iff_example = has_fs_access_iff home 2 srv_file 9

has_fs_access-permissions_for_peer_example :
    has_fs_access home 2 srv_file 9 ≡ any (permits srv_file 9) (permissions_for_peer home 2)
has_fs_access-permissions_for_peer_example =
    has_fs_access-permissions_for_peer home 2 srv_file 9 (λ e. absurd (omega arith))

abbrev long_past : Permission → Option I64
long_past p = some (positive 1)

set_peer_permissions_lem_example :
    permissions_granted_to_peer (set_peer_permissions home 3 (box_permission ∷ [])) 2
    ≡ srv_permission ∷ []
unfolding permissions_granted_to_peer
set_peer_permissions_lem_example = set_peer_permissions_lem home 3 2 (box_permission ∷ [])

revoke_lem_example :
    has_fs_access (set_peer_permissions home 2 []) 2 srv_file 9
    ≡ any (folder_permits srv_file 9) home.shared_folders
revoke_lem_example = revoke_lem home 2 srv_file 9 home-IsWellFormed.own (λ e. absurd (omega arith))
