-- ===== src/Grant/Roles.antt =====
-- The grants of the roles of core/src/p2p.rs.
use puppypeer.Prelude.{String, ◌≡◌, Bool, ◌||◌, ◌&&◌, List, any, arith}
use puppypeer.Grant.{
  Capability, file_read, file_write, system, disks, network, is_read_only, allows, contains,
  owner_role, viewer_role, default_permissions_for_roles, path_matches,
}

abbrev pub permitted : List String → Capability → Bool
permitted roles capability = any (λ g. allows g capability) (default_permissions_for_roles roles)

-- The roles of a user permit everything to an owner, what only reads to a viewer, and nothing to
-- anyone else: no other role, and no number of roles without `owner`, lets a file be written.
pub permitted_lem :
    (roles : List String) (capability : Capability)
    → permitted roles capability
      ≡ (contains owner_role roles || (contains viewer_role roles && is_read_only capability))
unfolding default_permissions_for_roles allows
permitted_lem roles (file_read p) = unfold is_read_only path_matches in ground arith
permitted_lem roles (file_write p) = unfold is_read_only in ground arith
permitted_lem roles system = unfold is_read_only in ground arith
permitted_lem roles disks = unfold is_read_only in ground arith
permitted_lem roles network = unfold is_read_only in ground arith
